-- ===== src/Decision/Process/Tests.antt =====
-- The decision on concrete signals.
use signalix.Prelude.{◌≡◌, refl, true, false, Option, none, some, String, Result, ok, ◌⊎◌}
use signalix.Prelude.Int.{ℤ, pos}
use signalix.Prelude.Text.{trim_space}
use signalix.Numbers.{is_zero}
use signalix.Numbers.Whole.{whole, whole-OrderLaws, scan_int, print_int}
use signalix.Models.{
  Direction, fixed, Signal, PositionSide, PositionSnapshot, BalanceView, ContractMeta,
  TickerSnapshot, Order, sell,
}
use signalix.Models.Validate.{validate}
use signalix.Decision.{SizeError, DecideError, DecisionStats, Decider}
use signalix.Decision.Notional.{
  notional_usdt_to_contracts, contracts_found, find_meta, multiplier, contracts_for_meta,
  cached_price, price_of_ticker, ticker_mark_price, price_or, contracts_with_price, contracts_at,
  raise_to_min, max_size, compute_usdt_notional_from_signal, notional_by_mode, fixed_within,
  percent_of,
}
use signalix.Decision.Notional.Bounds.{InLimits, notional_usdt_to_contracts-InLimits}
use signalix.Decision.Process.{
  opening_size, custom_size, size_of_notional, size_towards, calculate_order_size,
  determine_order_side, format_order_size, format_size_for_order, limit_price, new_order, with_side,
  with_size, with_account, with_valid, process_signal,
}
use signalix.Decision.Process.Orders.{
  Counted, Decided, process_signal-Counted, process_signal-Decided,
}

abbrev contract : ContractMeta
contract = record {
  contract = "BTC_USDT";
  quanto_multiplier = "2";
  order_size_min = "1";
  order_size_max = "40";
  order_price_step = "";
  order_size_step = "";
  enable_decimal_size = false;
}

abbrev ticker : TickerSnapshot
ticker = record {
  contract = "BTC_USDT";
  last = "6";
  mark_price = "5";
  index_price = "";
  funding_rate = "";
  change_pct_24h = "";
  volume_24h = "";
  volume_24h_base = "";
  volume_24h_quote = "";
  open_interest = "";
  low_24h = "";
  high_24h = "";
  timestamp_millis = 0;
}

abbrev balance : BalanceView
balance = record {
  currency = "USDT";
  total = "1000";
  available = "1000";
  frozen = "0";
  updated_at = 0;
}

abbrev long_position : PositionSnapshot
long_position = record {
  contract = "BTC_USDT";
  side = PositionSide.long;
  size = "12";
  entry_price = "5";
  mark_price = "5";
  unrealized_pnl = "0";
  leverage = 1;
  updated_at = 0;
}

abbrev decider : Decider
decider = record {
  snapshot = some (λ symbol. ok (balance, some long_position));
  meta_lookup = some (λ symbol. ok contract);
  ticker_lookup = some (λ symbol. some ticker);
  default_size_divisor = pos 10;
  now = 7;
  new_id = "N1";
}

-- 300 USDT against the long position.
abbrev signal : Signal ℤ
signal = record {
  symbol = "BTC_USDT";
  direction = Direction.short;
  strength = pos 50;
  price = none;
  sizing_mode = some fixed;
  value = some "300";
  reason = "";
  timestamp = 0;
}

run : Signal ℤ → DecisionStats → DecisionStats × Result DecideError (Option Order)
unfolding process_signal with_valid with_account with_size with_side determine_order_side
    calculate_order_size size_towards opening_size custom_size size_of_notional
    compute_usdt_notional_from_signal notional_by_mode fixed_within percent_of
    notional_usdt_to_contracts contracts_found find_meta multiplier contracts_for_meta cached_price
    price_of_ticker ticker_mark_price price_or contracts_with_price contracts_at raise_to_min
    max_size new_order limit_price format_size_for_order format_order_size validate trim_space
    scan_int print_int
run s st = process_signal whole decider "grid" s st

contracts : Decider → String → ℤ → Result SizeError ℤ
unfolding notional_usdt_to_contracts contracts_found find_meta multiplier contracts_for_meta
    cached_price price_of_ticker ticker_mark_price price_or contracts_with_price contracts_at
    raise_to_min max_size trim_space scan_int
contracts = notional_usdt_to_contracts whole

abbrev no_counts : DecisionStats
no_counts = record { signals_processed = 0; signals_rejected = 0; orders_generated = 0 }

short_sells :
    (run signal no_counts).1 ≡ ok (some (new_order whole decider "grid" signal (pos 30) sell))
unfolding run
short_sells = refl

-- The position is long already.
long_holds : (run (record signal { direction = Direction.long }) no_counts).1 ≡ ok none
unfolding run
long_holds = refl

-- The largest order takes 400 USDT.
contracts_capped : contracts decider "BTC_USDT" (pos 900) ≡ ok (pos 40)
unfolding contracts
contracts_capped = refl

notional_usdt_to_contracts-InLimits_example :
    ((is_zero whole (pos 900) ≡ true) × (pos 40 ≡ pos 0))
    ⊎ ((find : String → Result String ContractMeta) × (meta : ContractMeta) × (decider.meta_lookup
          ≡ some find)
        × (find "BTC_USDT" ≡ ok meta)
        × InLimits whole meta (pos 900) (pos 40))
unfolding contracts
notional_usdt_to_contracts-InLimits_example =
    notional_usdt_to_contracts-InLimits whole whole-OrderLaws decider "BTC_USDT" (pos 900) (pos 40)
      refl

process_signal-Counted_example :
    Counted no_counts (process_signal whole decider "grid" signal no_counts)
process_signal-Counted_example = process_signal-Counted whole decider "grid" signal no_counts

process_signal-Decided_example :
    Decided whole decider "grid" signal (new_order whole decider "grid" signal (pos 30) sell)
unfolding run
process_signal-Decided_example =
    process_signal-Decided whole whole-OrderLaws decider "grid" signal no_counts
      (new_order whole decider "grid" signal (pos 30) sell) refl
