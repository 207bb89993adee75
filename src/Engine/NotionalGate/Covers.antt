-- ===== src/Engine/NotionalGate/Covers.antt =====
-- The gate opens wherever the rules look at the notional.
use signalix.Prelude.{
  ◌≡◌, refl, sym, ap, ◌∙◌, ◌⊎◌, inl, inr, Bool, true, false, ◌||◌, none, some, [], ◌∷◌, String,
  str_eq, arith, Bool-cases,
}
use mathlib.Core.Option.{some-injective}
use signalix.Prelude.Dict.{Dict, lookup}
use signalix.Numbers.{Numbers}
use signalix.Risk.{Rules, Input}
use signalix.Risk.Evaluate.{leverage_check, position_size_check, when}
use signalix.Engine.Dispatch.{Strategy}
use signalix.Engine.NotionalGate.{
  rules_need_leverage, rules_need_position_size, own_rules, holds_of, any_strategy,
  risk_needs_leverage, risk_needs_position_size, needs_notional,
}

or_right : (a b : Bool) → b ≡ true → (a || b) ≡ true
or_right true b h = refl
or_right false b h = h

module _ (num : Numbers) where
  open num use {Decimal}

  -- The rules by which an order of the strategy `name` may be judged
  abbrev pub InForce : Rules Decimal → Dict (Strategy Decimal) → String → Rules Decimal → Type 0
  InForce global m name r =
      (r ≡ global)
      ⊎ ((st : Strategy Decimal) × ((lookup name m ≡ some st)
            × (own_rules num global st.risk_overrides ≡ some r)))

  any_strategy-lookup :
      (test : Rules Decimal → Bool) (global : Rules Decimal) (m : Dict (Strategy Decimal))
      (name : String) (st : Strategy Decimal) (r : Rules Decimal)
      → lookup name m ≡ some st
      → own_rules num global st.risk_overrides ≡ some r
      → test r ≡ true
      → any_strategy num test global m ≡ true
  unfolding any_strategy lookup
  any_strategy-lookup test global [] name st r h o t = absurd (cc h)
  any_strategy-lookup test global ((k, x) ∷ m) name st r h o t =
      let rest = any_strategy num test global m in
      elim (Bool-cases (str_eq k name)) [
        | inl here ↦
            let same = some-injective x st (rw here at h) in
            ap (λ w. holds_of num test w || rest)
              (ap (λ y. own_rules num global y.risk_overrides) same ∙ o)
            ∙ ap (λ b. b || rest) t
        | inr there ↦
            or_right (holds_of num test (own_rules num global x.risk_overrides)) rest
              (any_strategy-lookup test global m name st r (rw there at h) o t)
      ]

  InForce-holds :
      (test : Rules Decimal → Bool) (global : Rules Decimal) (m : Dict (Strategy Decimal))
      (name : String) (r : Rules Decimal)
      → InForce global m name r
      → test r ≡ true
      → (test global || any_strategy num test global m) ≡ true
  InForce-holds test global m name r (inl same) t =
      ap (λ b. b || any_strategy num test global m) (ap test (sym same) ∙ t)
  InForce-holds test global m name r (inr (st, (known, own))) t =
      or_right (test global) (any_strategy num test global m)
        (any_strategy-lookup test global m name st r known own t)

  -- Where the gate asks for no notional, neither the leverage check nor the position-size check,
  -- which read it, objects to anything, under the global rules or those merged for a strategy of
  -- the catalog.
  pub needs_notional-covers :
      (global : Rules Decimal) (m : Dict (Strategy Decimal)) (name : String) (i : Input Decimal)
      (q : Decimal)
      → InForce global m name i.rules
      → needs_notional num global m i.increasing_exposure ≡ false
      → (leverage_check num i ≡ none) × (position_size_check num i q ≡ none)
  unfolding needs_notional risk_needs_leverage risk_needs_position_size leverage_check
      position_size_check when
  needs_notional-covers global m name i q force off =
      let lever = InForce-holds (rules_need_leverage num) global m name i.rules force in
      let size = InForce-holds (rules_need_position_size num) global m name i.rules force in
      (ground (arith, lever, off), ground (arith, size, off))
