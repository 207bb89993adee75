-- ===== src/Perp/RiskContext/Tests.antt =====
-- A long order of two contracts, and the witness of the theorem on its context.
use signalix.Prelude.{◌≡◌, refl, Bool, true, false, none, some, [], ◌∷◌, ok, str_eq}
use signalix.Prelude.Int.{ℤ, pos}
use signalix.Prelude.Dict.{lookup}
use signalix.Prelude.Text.{trim_space}
use signalix.Numbers.Whole.{whole, scan_int}
use signalix.Models.{
  perp, Direction, Signal, PositionSide, PositionSnapshot, ContractMeta, Order, OrderSide,
  OrderType, pending,
}
use signalix.Risk.Exposure.{opens_exposure, is_increasing_exposure, leverage_ratio}
use signalix.Decision.{Decider}
use signalix.Decision.Notional.{
  find_meta, multiplier, notional_for_contracts, notional_found, notional_for_meta, notional_at,
  resolve_mark_price, price_or_cached,
}
use signalix.Risk.Exposure.{contract_notional_usdt}
use signalix.Projection.{Outside, Projection, position_for_contract, account_equity, equity_of}
use signalix.Perp.RiskContext.{
  RiskContext, Sources, base_context, add_notional, exposure_step, exposure_from, total_exposure,
  with_posts, with_total, with_position_notional, with_held, with_order_notional, with_quantity,
  with_notional, with_position, with_projection, context_of,
}
use signalix.Perp.RiskContext.Exposure.{Complete, context_of-Complete}

abbrev contract : ContractMeta
contract = record {
  contract = "BTC_USDT";
  quanto_multiplier = "2";
  order_size_min = "1";
  order_size_max = "40";
  order_price_step = "";
  order_size_step = "";
  enable_decimal_size = false;
}

abbrev position : PositionSnapshot
position = record {
  contract = "BTC_USDT";
  side = PositionSide.long;
  size = "3";
  entry_price = "5";
  mark_price = "5";
  unrealized_pnl = "0";
  leverage = 1;
  updated_at = 0;
}

abbrev account : Projection ℤ
account = record {
  balance = some (record {
    currency = "USDT";
    total = "100";
    available = "100";
    frozen = "0";
    updated_at = 0;
  });
  positions = ("BTC_USDT", position) ∷ [];
  revision = 1;
  ready = true;
  equities = [];
}

abbrev decider : Decider
decider = record {
  snapshot = none;
  meta_lookup = some (λ symbol. ok contract);
  ticker_lookup = none;
  default_size_divisor = pos 10;
  now = 7;
  new_id = "N1";
}

abbrev outside : Outside
outside = record {
  float_is_zero = λ s. none;
  equal_fold = str_eq;
  now = 5;
  has_equity_hook = false;
}

abbrev always : Bool → Bool
always increasing = true

abbrev sources : Sources ℤ
sources = record {
  proj = some account;
  decision = some decider;
  execution = none;
  equity = none;
  needs_notional = some always;
}

abbrev long_signal : Signal ℤ
long_signal = record {
  symbol = "BTC_USDT";
  direction = Direction.long;
  strength = pos 50;
  price = none;
  sizing_mode = none;
  value = none;
  reason = "";
  timestamp = 0;
}

abbrev order : Order
order = record {
  id = "N1";
  exchange_id = "";
  market = perp;
  symbol = "BTC_USDT";
  side = OrderSide.buy;
  order_type = OrderType.market;
  price = none;
  size = "2";
  filled_size = "0";
  status = pending;
  created_at = 7;
  updated_at = 7;
  stop_price = none;
  strategy_name = "grid";
}

context : RiskContext ℤ ℤ
unfolding base_context add_notional exposure_step exposure_from total_exposure with_posts with_total
    with_position_notional with_held with_order_notional with_quantity with_notional with_position
    with_projection context_of opens_exposure is_increasing_exposure leverage_ratio find_meta
    multiplier notional_for_contracts notional_found notional_for_meta notional_at
    resolve_mark_price price_or_cached contract_notional_usdt position_for_contract account_equity
    equity_of lookup trim_space scan_int
context =
    context_of whole outside sources (base_context whole outside sources (some long_signal) order)

-- Five contracts of ten USDT each, against a hundred of equity
exposure_after : context.post_total_exposure ≡ pos 50
unfolding context
exposure_after = refl

context_of-Complete_example :
    Complete whole outside sources decider account order (some position) (
      context_of whole outside sources
        (base_context whole outside sources (some long_signal) order))
unfolding context position_for_contract lookup opens_exposure
context_of-Complete_example =
    context_of-Complete whole outside sources decider account (some long_signal) order
      (some position) always refl refl refl refl refl refl refl
