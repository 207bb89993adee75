-- ===== src/Engine/NotionalGate/Tests.antt =====
-- Two strategies, one with its own limit on positions, and the witness of the theorem on the gate.
use signalix.Prelude.{◌≡◌, refl, inr, true, false, none, some, [], ◌∷◌}
use signalix.Prelude.Int.{ℤ, pos}
use signalix.Prelude.Dict.{Dict, lookup}
use signalix.Numbers.Whole.{whole}
use signalix.Models.{perp}
use signalix.Risk.{Rules, Overrides, Input}
use signalix.Risk.Evaluate.{leverage_check, position_size_check}
use signalix.Risk.Merge.{merge_rules, has_effective_overrides}
use signalix.Engine.Dispatch.{Strategy}
use signalix.Engine.NotionalGate.{
  any_strategy, risk_needs_leverage, risk_needs_position_size, needs_notional,
}
use signalix.Engine.NotionalGate.Covers.{InForce, needs_notional-covers}

abbrev rules : Rules ℤ
rules = record {
  enable = true;
  max_order_size = pos 5;
  max_open_orders = pos 0;
  max_positions = pos 0;
  max_position_size = pos 0;
  max_daily_loss = pos 0;
  max_drawdown = pos 0;
  max_leverage = pos 0;
  enable_position_lock = false;
}

-- At most one position, whatever its size
abbrev one_position : Overrides ℤ
one_position = record {
  max_order_size = none;
  max_open_orders = none;
  max_positions = some (pos 1);
  max_position_size = none;
  max_daily_loss = none;
  max_drawdown = none;
  max_leverage = none;
  enable_position_lock = none;
}

abbrev strategies : Dict (Strategy ℤ)
strategies =
    ("plain", record { market = perp; symbols = []; risk_overrides = none })
    ∷ (
      "grid",
      record { market = perp; symbols = "BTC_USDT" ∷ []; risk_overrides = some one_position },
    )
    ∷ []

abbrev input : Input ℤ
input = record {
  rules = merge_rules rules one_position;
  order_size = "3";
  signal_opens_exposure = true;
  open_order_count = pos 0;
  open_position_count = pos 0;
  projection_ready = true;
  notional_available = false;
  opens_exposure = true;
  increasing_exposure = true;
  order_notional = pos 0;
  position_notional = pos 0;
  post_position_notional = pos 0;
  total_exposure = pos 0;
  post_total_exposure = pos 0;
  account_equity = pos 500;
  daily_loss = pos 0;
  drawdown_ratio = pos 0;
  post_leverage = pos 0;
  notional_per_unit = pos 0;
}

grid_InForce : InForce whole rules strategies "grid" input.rules
unfolding lookup has_effective_overrides
grid_InForce = inr (
  record { market = perp; symbols = "BTC_USDT" ∷ []; risk_overrides = some one_position },
  (refl, refl),
)

needs_notional-covers_example :
    (leverage_check whole input ≡ none) × (position_size_check whole input (pos 3) ≡ none)
unfolding needs_notional risk_needs_leverage risk_needs_position_size any_strategy
    has_effective_overrides merge_rules
needs_notional-covers_example =
    needs_notional-covers whole rules strategies "grid" input (pos 3) grid_InForce refl
