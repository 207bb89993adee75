-- ===== src/Decision/Process.antt =====
-- decision_engine.go: processSignal, behind Decide and ProcessSignal, on a signal that is not nil.
pub mod Closing
pub mod Orders
mod Tests
use signalix.Prelude.{
  suc, Bool, true, false, not, Option, none, some, String, Result, ok, err, if◌then◌else◌,
}
use signalix.Numbers.{Numbers, is_positive, is_zero, parse_or_nil}
use signalix.Models.{
  Market, OrderSide, buy, sell, OrderType, pending, Order, Direction, SizingMode, Signal,
  PositionSide, PositionSnapshot, BalanceView, ContractMeta,
}
use signalix.Models.Validate.{SignalError, validate}
use signalix.Risk.Exposure.{same_side}
use signalix.Decision.{
  SizeError, value_required, custom_not_positive, DecideError, invalid_signal, no_projection,
  snapshot_failed, size_failed, side_failed, DecisionStats, Decider,
}
use signalix.Decision.Notional.{compute_usdt_notional_from_signal, notional_usdt_to_contracts}

abbrev is_custom : Option SizingMode → Bool
is_custom (some SizingMode.custom) = true
is_custom _ = false

-- rejectSignal, and the two other counts
abbrev pub reject_signal : DecisionStats → DecisionStats
reject_signal s = record s { signals_rejected = suc s.signals_rejected }

abbrev pub count_processed : DecisionStats → DecisionStats
count_processed s = record s { signals_processed = suc s.signals_processed }

abbrev pub count_generated : DecisionStats → DecisionStats
count_generated s = record s { orders_generated = suc s.orders_generated }

module _ (num : Numbers) (de : Decider) where
  open num use {Decimal, Float, nil, parse, to_string, truncate}

  -- The size of a position, zero without one.
  abbrev pub position_size : Option PositionSnapshot → Decimal
  position_size none = nil
  position_size (some p) = parse_or_nil num p.size

  -- A position in the direction of the signal is open already.
  abbrev pub holds : Direction → Option PositionSnapshot → Bool
  holds d none = false
  holds d (some p) = if is_positive num (parse_or_nil num p.size) then same_side d p.side else false

  unfoldable pub custom_size : Option String → Result SizeError Decimal
  custom_size none = err value_required
  custom_size (some v) =
      if not (is_positive num (parse_or_nil num v))
      then err custom_not_positive
      else ok (parse_or_nil num v)

  unfoldable pub size_of_notional : String → Result SizeError Decimal → Result SizeError Decimal
  size_of_notional symbol (err e) = err e
  size_of_notional symbol (ok notional) = notional_usdt_to_contracts num de symbol notional

  -- The size of an order that opens a position.
  unfoldable pub opening_size : Signal Float → BalanceView → Result SizeError Decimal
  unfolding custom_size size_of_notional
  opening_size s balance =
      if is_custom s.sizing_mode
      then custom_size s.value
      else size_of_notional s.symbol (
          compute_usdt_notional_from_signal num s (parse_or_nil num balance.available)
            de.default_size_divisor)

  unfoldable pub size_towards :
      Direction → Signal Float → BalanceView → Option PositionSnapshot → Result SizeError Decimal
  unfolding opening_size
  size_towards Direction.flat s balance position = ok (position_size position)
  size_towards d s balance position = if holds d position then ok nil else opening_size s balance

  -- calculateOrderSize
  unfoldable pub calculate_order_size :
      Signal Float → BalanceView → Option PositionSnapshot → Result SizeError Decimal
  unfolding size_towards
  calculate_order_size s balance position = size_towards s.direction s balance position

  abbrev pub closing_side : PositionSide → OrderSide
  closing_side PositionSide.long = sell
  closing_side _ = buy

  -- determineOrderSide; `ok none` is the empty side
  unfoldable pub determine_order_side :
      Direction → Option PositionSnapshot → Result DecideError (Option OrderSide)
  determine_order_side Direction.long position = ok (some buy)
  determine_order_side Direction.short position = ok (some sell)
  determine_order_side Direction.flat none = ok none
  determine_order_side Direction.flat (some p) =
      if is_zero num (parse_or_nil num p.size) then ok none else ok (some (closing_side p.side))
  determine_order_side (Direction.other d) position = err side_failed

  -- formatOrderSize
  unfoldable pub format_order_size : Decimal → ContractMeta → String
  format_order_size size meta =
      if meta.enable_decimal_size then to_string size else to_string (truncate size)

  -- formatSizeForOrder
  unfoldable pub format_size_for_order : String → Decimal → String
  unfolding format_order_size
  format_size_for_order contract size = elim de.meta_lookup [
    | none ↦ to_string size
    | some lookup ↦ elim (lookup contract) [
      | err e ↦ to_string size
      | ok meta ↦ format_order_size size meta
    ]
  ]

  -- The price of the signal, if the order is to be a limit order.
  unfoldable pub limit_price : Option String → Option String
  limit_price none = none
  limit_price (some p) = if is_positive num (parse_or_nil num p) then some p else none

  abbrev pub type_for : Option String → OrderType
  type_for none = OrderType.market
  type_for (some p) = OrderType.limit

  -- The order of processSignal. It has no market yet.
  unfoldable pub new_order : String → Signal Float → Decimal → OrderSide → Order
  unfolding limit_price format_size_for_order
  new_order strategy_name s size side = record {
    id = de.new_id;
    exchange_id = "";
    market = Market.other "";
    symbol = s.symbol;
    side = side;
    order_type = type_for (limit_price s.price);
    price = limit_price s.price;
    size = format_size_for_order s.symbol size;
    filled_size = "0";
    status = pending;
    created_at = de.now;
    updated_at = de.now;
    stop_price = none;
    strategy_name = strategy_name;
  }

  -- An error, and the count of it.
  abbrev pub reject :
      DecisionStats → DecideError → DecisionStats × Result DecideError (Option Order)
  reject st e = (reject_signal st, err e)

  unfoldable pub with_side :
      String
      → Signal Float
      → DecisionStats
      → Decimal
      → Result DecideError (Option OrderSide)
      → DecisionStats × Result DecideError (Option Order)
  with_side name s st size (err e) = reject st e
  with_side name s st size (ok none) = (st, ok none)
  with_side name s st size (ok (some side)) =
      (count_generated st, ok (some (new_order name s size side)))

  unfoldable pub with_size :
      String
      → Signal Float
      → DecisionStats
      → Option PositionSnapshot
      → Result SizeError Decimal
      → DecisionStats × Result DecideError (Option Order)
  unfolding with_side
  with_size name s st position (err e) = reject st (size_failed e)
  with_size name s st position (ok size) =
      if is_zero num size
      then (st, ok none)
      else with_side name s st size (determine_order_side s.direction position)

  unfoldable pub with_account :
      String
      → Signal Float
      → DecisionStats
      → Result String (BalanceView × Option PositionSnapshot)
      → DecisionStats × Result DecideError (Option Order)
  unfolding with_size
  with_account name s st (err e) = reject st (snapshot_failed e)
  with_account name s st (ok (balance, position)) =
      with_size name s st position (calculate_order_size s balance position)

  unfoldable pub with_valid :
      String
      → Signal Float
      → DecisionStats
      → Option SignalError
      → DecisionStats × Result DecideError (Option Order)
  unfolding with_account
  with_valid name s st (some e) = reject st (invalid_signal e)
  with_valid name s st none = elim de.snapshot [
    | none ↦ reject st no_projection
    | some snapshot ↦ with_account name s st (snapshot s.symbol)
  ]

  -- processSignal
  unfoldable pub process_signal :
      String → Signal Float → DecisionStats → DecisionStats × Result DecideError (Option Order)
  unfolding with_valid
  process_signal name s st = with_valid name s (count_processed st) (validate num s)
