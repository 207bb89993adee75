-- ===== src/Risk/Merge/Laws.antt =====
-- What merged rules and prefixed verdicts are.
use Prim.Native.String.{◌++◌}
use signalix.Prelude.{◌≡◌, ◌≢◌, refl, true, false, arith, Option-cases, inl, inr}
use signalix.Numbers.{Numbers}
use signalix.Risk.{allow, Verdict, Rules, Overrides, Input}
use signalix.Risk.Merge.{has_effective_overrides, merge_rules, prefix_strategy_verdict}
use signalix.Risk.Evaluate.{evaluate, order_quantity, limit_checks}
use signalix.Risk.Evaluate.Objection.{
  Objection, rejects, order_limit, position_limit, limit_checks-Sound, evaluate-none,
  evaluate-passes, evaluate-objects,
}

-- Without an override that is set, the merged rules are the global ones.
pub merge_rules-global :
    {D : Type 0} (global : Rules D) (o : Overrides D)
    → has_effective_overrides o ≡ false
    → merge_rules global o ≡ global
unfolding has_effective_overrides merge_rules
merge_rules-global global o h = ground arith

-- Merging the same overrides once more changes nothing.
pub merge_rules_idem :
    {D : Type 0} (global : Rules D) (o : Overrides D)
    → merge_rules (merge_rules global o) o ≡ merge_rules global o
unfolding merge_rules
merge_rules_idem global o = ground arith

prefix-Objection :
    {num : Numbers} {i : Input num.Decimal} {q : num.Decimal} {v : Verdict}
    → Objection num i q v
    → prefix_strategy_verdict v ≡ record v { code = "STRATEGY_" ++ v.code }
unfolding prefix_strategy_verdict
prefix-Objection (rejects code h) = rw h
prefix-Objection (order_limit z h) = refl
prefix-Objection (position_limit z h) = refl

module _ (num : Numbers) where
  open num use {Decimal}

  -- With the rules enabled, a verdict of Evaluate that does not allow keeps its kind and its size
  -- when it is prefixed, and its code gets STRATEGY_ in front, whatever code Evaluate gave.
  pub prefix_strategy_verdict-evaluate :
      (i : Input Decimal)
      → i.rules.enable ≡ true
      → (evaluate num i).kind ≢ allow
      → prefix_strategy_verdict (evaluate num i)
        ≡ record (evaluate num i) { code = "STRATEGY_" ++ (evaluate num i).code }
  prefix_strategy_verdict-evaluate i on k = elim (Option-cases (order_quantity num i)) [
    | inl bad ↦ rw (evaluate-none num i on bad) (unfold prefix_strategy_verdict in refl)
    | inr (q, e) ↦ elim (Option-cases (limit_checks num i q)) [
      | inl none_objects ↦ absurd (k (rw (evaluate-passes num i on q e none_objects)))
      | inr (v, h) ↦
          rw (evaluate-objects num i on q v e h)
            (prefix-Objection ((limit_checks-Sound num i q).at v h))
    ]
  ]
