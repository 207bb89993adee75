-- ===== src/Engine/NotionalGate.antt =====
-- risk_input.go: whether any rules in force need the notional of an order.
pub mod Covers
mod Tests
use signalix.Prelude.{
  Bool, true, false, ◌&&◌, ◌||◌, Option, none, some, List, [], ◌∷◌, String, if◌then◌else◌,
}
use signalix.Prelude.Int.{pos, ltb_ℤ}
use signalix.Prelude.Dict.{Dict}
use signalix.Numbers.{Numbers, is_positive}
use signalix.Risk.{Rules, Overrides}
use signalix.Risk.Merge.{merge_rules, has_effective_overrides}
use signalix.Engine.Dispatch.{Strategy}

module _ (num : Numbers) where
  open num use {Decimal}

  -- rulesNeedLeverage
  abbrev pub rules_need_leverage : Rules Decimal → Bool
  rules_need_leverage r = ltb_ℤ (pos 0) r.max_leverage

  -- rulesNeedPositionSize
  abbrev pub rules_need_position_size : Rules Decimal → Bool
  rules_need_position_size r = is_positive num r.max_position_size

  -- The rules of one strategy, where it has its own
  abbrev pub own_rules : Rules Decimal → Option (Overrides Decimal) → Option (Rules Decimal)
  own_rules global none = none
  own_rules global (some o) =
      if has_effective_overrides o then some (merge_rules global o) else none

  abbrev pub holds_of : (Rules Decimal → Bool) → Option (Rules Decimal) → Bool
  holds_of test none = false
  holds_of test (some r) = test r

  -- The loop over the strategies
  unfoldable pub any_strategy :
      (Rules Decimal → Bool) → Rules Decimal → Dict (Strategy Decimal) → Bool
  any_strategy test global [] = false
  any_strategy test global ((k, st) ∷ m) =
      let rest = any_strategy test global m in
      holds_of test (own_rules global st.risk_overrides) || rest

  -- riskNeedsLeverage
  unfoldable pub risk_needs_leverage : Rules Decimal → Dict (Strategy Decimal) → Bool
  unfolding any_strategy
  risk_needs_leverage global m =
      rules_need_leverage global || any_strategy rules_need_leverage global m

  -- riskNeedsPositionSize
  unfoldable pub risk_needs_position_size : Rules Decimal → Dict (Strategy Decimal) → Bool
  unfolding any_strategy
  risk_needs_position_size global m =
      rules_need_position_size global || any_strategy rules_need_position_size global m

  -- NeedsNotional
  unfoldable pub needs_notional : Rules Decimal → Dict (Strategy Decimal) → Bool → Bool
  unfolding risk_needs_leverage risk_needs_position_size
  needs_notional global m increasing =
      risk_needs_leverage global m || (increasing && risk_needs_position_size global m)
