-- ===== src/Risk/Evaluate/Tests.antt =====
-- Evaluate on concrete inputs.
use signalix.Prelude.{◌≡◌, refl, true, false, some, arith, ◌↔◌}
use signalix.Prelude.Int.{ℤ, pos, negsuc, ◌≤ℤ◌}
use signalix.Numbers.Whole.{whole, whole-OrderLaws, scan_int, print_int}
use signalix.Risk.{allow, Verdict, Rules, Input, reduced, allowed, rejected}
use signalix.Risk.Evaluate.{
  exposure_check, open_orders_check, positions_check, leverage_check, order_quantity, evaluate,
  ◌otherwise◌, reject_if, when, order_size_check, position_size_check, over_position, limit_checks,
}
use signalix.Risk.Evaluate.Allow.{Within, evaluate-allow_iff}
use signalix.Risk.Evaluate.Reduce.{evaluate-reduce_shrinks}
use signalix.Risk.Evaluate.Closing.{evaluate-closing}

-- Evaluate with all that it calls.
run : Input ℤ → Verdict
unfolding evaluate order_quantity limit_checks exposure_check open_orders_check positions_check
    leverage_check order_size_check position_size_check over_position ◌otherwise◌ reject_if when
    scan_int print_int
run = evaluate whole

abbrev rules : Rules ℤ
rules = record {
  enable = true;
  max_order_size = pos 10;
  max_open_orders = pos 2;
  max_positions = pos 3;
  max_position_size = pos 100;
  max_daily_loss = pos 50;
  max_drawdown = pos 0;
  max_leverage = pos 5;
  enable_position_lock = false;
}

-- An order of 8 that takes the position from 40 to 80, at 5 for each contract.
abbrev opening : Input ℤ
opening = record {
  rules = rules;
  order_size = "8";
  signal_opens_exposure = true;
  open_order_count = pos 1;
  open_position_count = negsuc 0;
  projection_ready = true;
  notional_available = true;
  opens_exposure = true;
  increasing_exposure = true;
  order_notional = pos 40;
  position_notional = pos 40;
  post_position_notional = pos 80;
  total_exposure = pos 40;
  post_total_exposure = pos 80;
  account_equity = pos 1000;
  daily_loss = pos 49;
  drawdown_ratio = pos 0;
  post_leverage = pos 1;
  notional_per_unit = pos 5;
}

-- The same at three times the size, which is above the order limit and takes the position to 160.
abbrev large : Input ℤ
large = record opening {
  order_size = "24";
  order_notional = pos 120;
  post_position_notional = pos 160;
}

abbrev closing : Input ℤ
closing = record opening {
  open_order_count = pos 2;
  signal_opens_exposure = false;
  opens_exposure = false;
  increasing_exposure = false;
}

opening-allowed : evaluate whole opening ≡ allowed
unfolding run
opening-allowed = refl

closing-rejected : evaluate whole closing ≡ rejected "RISK_MAX_OPEN_ORDERS"
unfolding run
closing-rejected = refl

-- Only 60 of notional is left below the limit on the position, which is 12 contracts; the order
-- limit is 10. With a position of 80 only 4 are left, and the verdict is the same.
large-reduced : evaluate whole large ≡ reduced "RISK_MAX_ORDER_SIZE" "10"
unfolding run
large-reduced = refl

position_reduced :
    evaluate whole (record opening { position_notional = pos 70; post_position_notional = pos 110 })
    ≡ reduced "RISK_MAX_POSITION_SIZE" "6"
unfolding run
position_reduced = refl

opening-Within : Within whole opening (pos 8)
opening-Within = ground arith

evaluate-allow_iff_example :
    ((evaluate whole opening).kind ≡ allow)
    ↔ ((q : ℤ) × (order_quantity whole opening ≡ some q) × Within whole opening q)
evaluate-allow_iff_example = evaluate-allow_iff whole opening refl

evaluate-reduce_shrinks_example :
    (q p : ℤ) × (order_quantity whole large ≡ some q)
    × (scan_int (evaluate whole large).adjusted_size ≡ some p)
    × (whole.lt p q ≡ true)
unfolding run
evaluate-reduce_shrinks_example = evaluate-reduce_shrinks whole whole-OrderLaws large refl refl

evaluate-closing_example :
    (rules.enable ≡ true)
    × (pos 1 ≤ℤ rules.max_open_orders)
    × (rules.max_open_orders ≤ℤ closing.open_order_count)
    × ((evaluate whole closing).code ≡ "RISK_MAX_OPEN_ORDERS")
unfolding run
evaluate-closing_example = evaluate-closing whole closing (pos 8) refl refl refl refl refl
