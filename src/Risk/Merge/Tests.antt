-- ===== src/Risk/Merge/Tests.antt =====
-- Merged rules and prefixed verdicts on concrete inputs.
use signalix.Prelude.{◌≡◌, refl, true, false, none, some}
use signalix.Prelude.Int.{ℤ, pos, negsuc}
use signalix.Numbers.Whole.{whole, scan_int}
use signalix.Risk.{Rules, Overrides, Input, rejected}
use signalix.Risk.Evaluate.{evaluate, order_quantity}

abbrev rules : Rules ℤ
rules = record {
  enable = true;
  max_order_size = pos 10;
  max_open_orders = pos 2;
  max_positions = pos 3;
  max_position_size = pos 100;
  max_daily_loss = pos 50;
  max_drawdown = pos 0;
  max_leverage = pos 5;
  enable_position_lock = false;
}

abbrev nothing : Overrides ℤ
nothing = record {
  max_order_size = none;
  max_open_orders = none;
  max_positions = none;
  max_position_size = none;
  max_daily_loss = none;
  max_drawdown = none;
  max_leverage = none;
  enable_position_lock = none;
}

abbrev tighter : Overrides ℤ
tighter = record nothing { max_order_size = some (pos 4) }

-- An order whose size is no number.
abbrev unreadable : Input ℤ
unreadable = record {
  rules = rules;
  order_size = "many";
  signal_opens_exposure = true;
  open_order_count = pos 1;
  open_position_count = negsuc 0;
  projection_ready = true;
  notional_available = true;
  opens_exposure = true;
  increasing_exposure = true;
  order_notional = pos 40;
  position_notional = pos 40;
  post_position_notional = pos 80;
  total_exposure = pos 40;
  post_total_exposure = pos 80;
  account_equity = pos 1000;
  daily_loss = pos 49;
  drawdown_ratio = pos 0;
  post_leverage = pos 1;
  notional_per_unit = pos 5;
}

unreadable-rejected : evaluate whole unreadable ≡ rejected "RISK_INVALID_ORDER_SIZE"
unfolding evaluate order_quantity scan_int
unreadable-rejected = refl
