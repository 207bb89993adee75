-- ===== src/Engine/Dispatch/Tests.antt =====
-- A closing signal under an active kill switch, and the witnesses of the theorems on what is sent.
use signalix.Prelude.{◌≡◌, refl, sym, true, false, none, some, [], ok, str_eq}
use signalix.Prelude.Int.{ℤ, pos}
use signalix.Prelude.Dict.{lookup}
use signalix.Prelude.Text.{trim_space}
use signalix.Numbers.Whole.{whole, whole-OrderLaws, scan_int, print_int}
use mathlib.Core.Option.{some-injective}
use signalix.Models.{
  perp, Direction, Signal, PositionSide, PositionSnapshot, BalanceView, Order, OrderType, sell,
  pending,
}
use signalix.Models.Validate.{validate}
use signalix.Risk.{Rules}
use signalix.Risk.Exposure.{opens_exposure}
use signalix.Risk.Evaluate.{
  evaluate, evaluate_quantity, order_quantity, limit_checks, exposure_check, open_orders_check,
  positions_check, leverage_check, order_size_check, position_size_check, ◌otherwise◌, when,
  reject_if,
}
use signalix.Risk.Evaluate.Size.{IsBelow}
use signalix.Decision.{DecisionStats, Decider}
use signalix.Decision.Process.{
  size_towards, calculate_order_size, determine_order_side, format_order_size,
  format_size_for_order, limit_price, new_order, with_side, with_size, with_account, with_valid,
  process_signal,
}
use signalix.Projection.{Outside}
use signalix.Perp.RiskContext.{Sources, base_context, context_of, build_risk_context}
use signalix.Engine.Dispatch.{static, Engine, sent, evaluate_rules, input_of, judge}
use signalix.Engine.Dispatch.Stages.{
  dispatch_signal, strategy_market, market_for, with_market, with_order, with_context,
  evaluate_strategy_risk, with_strategy, strategy_result, after_strategy, settle_result, settle,
}
use signalix.Engine.Dispatch.Limits.{dispatch_signal-IsBelow}
use signalix.Engine.Dispatch.Killed.{
  perp_port, Closes, OnlyPerp, only_perp-ArePorts, dispatch_signal-Closes,
}

abbrev balance : BalanceView
balance = record {
  currency = "USDT";
  total = "1000";
  available = "1000";
  frozen = "0";
  updated_at = 0;
}

abbrev long_position : PositionSnapshot
long_position = record {
  contract = "BTC_USDT";
  side = PositionSide.long;
  size = "12";
  entry_price = "5";
  mark_price = "5";
  unrealized_pnl = "0";
  leverage = 1;
  updated_at = 0;
}

abbrev decider : Decider
decider = record {
  snapshot = some (λ symbol. ok (balance, some long_position));
  meta_lookup = none;
  ticker_lookup = none;
  default_size_divisor = pos 10;
  now = 7;
  new_id = "N1";
}

abbrev close : Signal ℤ
close = record {
  symbol = "BTC_USDT";
  direction = Direction.flat;
  strength = pos 50;
  price = none;
  sizing_mode = none;
  value = none;
  reason = "";
  timestamp = 0;
}

abbrev counts : DecisionStats
counts = record { signals_processed = 0; signals_rejected = 0; orders_generated = 0 }

abbrev outside : Outside
outside = record {
  float_is_zero = λ s. none;
  equal_fold = str_eq;
  now = 5;
  has_equity_hook = false;
}

abbrev sources : Sources ℤ
sources = record {
  proj = none;
  decision = none;
  execution = none;
  equity = none;
  needs_notional = none;
}

-- Orders of at most five contracts
abbrev rules : Rules ℤ
rules = record {
  enable = true;
  max_order_size = pos 5;
  max_open_orders = pos 0;
  max_positions = pos 0;
  max_position_size = pos 0;
  max_daily_loss = pos 0;
  max_drawdown = pos 0;
  max_leverage = pos 0;
  enable_position_lock = false;
}

abbrev engine : Engine ℤ ℤ
engine = record {
  kill_switch = record { active = true; activated_at = 1; reason = "drawdown" };
  strategies = [];
  markets = λ mk. some (perp_port whole outside sources decider counts);
  evaluator = static rules;
  proj = none;
  execution = none;
}

only_perp : OnlyPerp whole whole-OrderLaws engine outside sources decider counts
only_perp mk m h = sym (some-injective (perp_port whole outside sources decider counts) m h)

-- The twelve contracts are sold five at a time.
abbrev sold : Order
sold = record {
  id = "N1";
  exchange_id = "";
  market = perp;
  symbol = "BTC_USDT";
  side = sell;
  order_type = OrderType.market;
  price = none;
  size = "5";
  filled_size = "0";
  status = pending;
  created_at = 7;
  updated_at = 7;
  stop_price = none;
  strategy_name = "grid";
}

closing_sent : dispatch_signal whole engine "grid" close ≡ sent sold
unfolding dispatch_signal strategy_market market_for with_market with_order with_context
    evaluate_strategy_risk with_strategy strategy_result after_strategy settle_result settle
    perp_port base_context context_of build_risk_context evaluate_rules input_of judge
    opens_exposure lookup process_signal with_valid with_account with_size with_side
    determine_order_side calculate_order_size size_towards new_order limit_price
    format_size_for_order format_order_size validate trim_space scan_int print_int evaluate
    evaluate_quantity order_quantity limit_checks exposure_check open_orders_check positions_check
    leverage_check order_size_check position_size_check ◌otherwise◌ when reject_if
closing_sent = refl

dispatch_signal-IsBelow_example : IsBelow whole (pos 5) sold.size
dispatch_signal-IsBelow_example =
    dispatch_signal-IsBelow whole whole-OrderLaws engine "grid" close sold rules
      (only_perp-ArePorts whole whole-OrderLaws engine outside sources decider counts only_perp)
      refl refl refl closing_sent

dispatch_signal-Closes_example : Closes whole decider close sold
dispatch_signal-Closes_example =
    dispatch_signal-Closes whole whole-OrderLaws engine outside sources decider counts "grid" close
      sold only_perp refl closing_sent
