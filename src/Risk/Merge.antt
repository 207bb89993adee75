-- ===== src/Risk/Merge.antt =====
-- merge.go of internal/domain/risk: a strategy's own limits over the global ones.
pub mod Laws
mod Tests
use signalix.Prelude.{
  Bool, true, false, ◌||◌, Option, none, some, is_some, starts_with, if◌then◌else◌,
}
use Prim.Native.String.{◌++◌}
use signalix.Risk.{Kind, allow, Verdict, Rules, Overrides}

-- HasEffectiveOverrides
unfoldable pub has_effective_overrides : {D : Type 0} → Overrides D → Bool
has_effective_overrides o =
    is_some o.max_order_size
    || is_some o.max_open_orders
    || is_some o.max_positions
    || is_some o.max_position_size
    || is_some o.max_daily_loss
    || is_some o.max_drawdown
    || is_some o.max_leverage
    || is_some o.enable_position_lock

-- `if p != nil { field = *p }`
abbrev overridden {ℓ} : {A : Type ℓ} → A → Option A → A
overridden a none = a
overridden a (some b) = b

-- MergeRules
unfoldable pub merge_rules : {D : Type 0} → Rules D → Overrides D → Rules D
merge_rules global o = record {
  enable = global.enable;
  max_order_size = overridden global.max_order_size o.max_order_size;
  max_open_orders = overridden global.max_open_orders o.max_open_orders;
  max_positions = overridden global.max_positions o.max_positions;
  max_position_size = overridden global.max_position_size o.max_position_size;
  max_daily_loss = overridden global.max_daily_loss o.max_daily_loss;
  max_drawdown = overridden global.max_drawdown o.max_drawdown;
  max_leverage = overridden global.max_leverage o.max_leverage;
  enable_position_lock = overridden global.enable_position_lock o.enable_position_lock;
}

abbrev is_allow : Kind → Bool
is_allow allow = true
is_allow _ = false

-- PrefixStrategyVerdict on a verdict that is not nil
unfoldable pub prefix_strategy_verdict : Verdict → Verdict
prefix_strategy_verdict v =
    if is_allow v.kind
    then v
    else record v { code = if starts_with v.code "RISK_" then "STRATEGY_" ++ v.code else v.code }
