-- ===== src/Engine/Dispatch/Sent.antt =====
-- Where an order that is sent comes from.
use signalix.Prelude.{
  ◌≡◌, refl, ◌⊎◌, inl, inr, false, ◌&&◌, Option, none, some, List, String, Result, ok, err,
  Bool-cases,
}
use std.Path.{subst}
use signalix.Prelude.Dict.{lookup}
use signalix.Numbers.{Numbers}
use signalix.Models.{Market, valid, Signal, Order}
use signalix.Risk.{Kind, allow, reject, reduce, other, Verdict, Overrides}
use signalix.Risk.Exposure.{opens_exposure}
use signalix.Risk.Merge.{has_effective_overrides, merge_rules, prefix_strategy_verdict}
use signalix.Oms.{Failure}
use signalix.Decision.{DecideError}
use signalix.Perp.RiskContext.{RiskContext}
use signalix.Engine.Dispatch.{Strategy, MarketPort, IsPort, Engine, sent, evaluate_rules, judge}
use signalix.Engine.Dispatch.Stages.{
  market_for, strategy_market, global_rules, build_strategy_risk_context, rebuild, rebuilt,
  is_reduce, strategy_verdict, with_overrides, with_strategy, evaluate_strategy_risk, settle,
  settle_result, after_strategy, strategy_result, with_context, placed_in, with_order, with_market,
  dispatch_signal,
}

module _ (num : Numbers) (e : Engine num.Decimal num.Float) where
  open num use {Decimal, Float}

  -- How the evaluator's verdict leaves the order that it judged
  abbrev pub Settled : Order → Order → Verdict → Type 0
  Settled judged o v =
      ((v.kind ≡ allow) × (o ≡ judged))
      ⊎ ((v.kind ≡ reduce) × (o ≡ record judged { size = v.adjusted_size }))

  -- The order `o` went through the evaluator, as the order `judged`.
  pub record Judged (judged o : Order) : Type 0 where
    pub context : RiskContext Decimal Float
    pub about : context.order ≡ judged
    pub verdict : Verdict
    pub judged_so : judge num e.evaluator context ≡ ok verdict
    pub settled : Settled judged o verdict

  settle-Settled :
      (judged o : Order) (v : Verdict) (k : Kind)
      → v.kind ≡ k
      → settle num e judged v k ≡ sent o
      → Settled judged o v
  unfolding settle
  settle-Settled judged o v allow h s = inl (h, cc s)
  settle-Settled judged o v reduce h s = inr (h, cc s)
  settle-Settled judged o v reject h s = absurd (cc s)
  settle-Settled judged o v (other k) h s = absurd (cc s)

  settle_result-Judged :
      (judged o : Order) (rc : RiskContext Decimal Float) (r : Result Failure Verdict)
      → rc.order ≡ judged
      → judge num e.evaluator rc ≡ r
      → settle_result num e judged r ≡ sent o
      → Judged judged o
  unfolding settle_result
  settle_result-Judged judged o rc (err f) a j s = absurd (cc s)
  settle_result-Judged judged o rc (ok v) a j s = record {
    context = rc;
    about = a;
    verdict = v;
    judged_so = j;
    settled = settle-Settled judged o v v.kind refl s;
  }

  after_strategy-Judged :
      (judged o : Order) (rc : RiskContext Decimal Float) (v : Verdict) (k : Kind)
      → rc.order ≡ judged
      → after_strategy num e judged rc v k ≡ sent o
      → Judged judged o
  unfolding after_strategy
  after_strategy-Judged judged o rc v allow a s =
      settle_result-Judged judged o rc (judge num e.evaluator rc) a refl s
  after_strategy-Judged judged o rc v reduce a s =
      settle_result-Judged judged o rc (judge num e.evaluator rc) a refl s
  after_strategy-Judged judged o rc v reject a s = absurd (cc s)
  after_strategy-Judged judged o rc v (other k) a s = absurd (cc s)

  -- The strategy's tier gives the order or a resized one, with its own context.
  abbrev Passed : Order → Result Failure (Verdict × (RiskContext Decimal Float × Order)) → Type 0
  Passed o (err f) = Unit
  Passed o (ok (v, (rc, p))) = (rc.order ≡ p) × ((size : String) × (p ≡ record o { size = size }))

  rebuilt-Passed :
      (v : Verdict) (o p : Order) (size : String) (r : Result Failure (RiskContext Decimal Float))
      → p ≡ record o { size = size }
      → ((rc : RiskContext Decimal Float) → r ≡ ok rc → rc.order ≡ p)
      → Passed o (rebuilt num e v p r)
  rebuilt-Passed v o p size (err f) h a = tt
  rebuilt-Passed v o p size (ok rc) h a = (a rc refl, (size, h))

  -- Every market makes contexts of the orders it is given.
  abbrev pub ArePorts : Type 0
  ArePorts = (mk : Market) (m : MarketPort Decimal Float) → e.markets mk ≡ some m → IsPort m

  market_for-IsPort :
      ArePorts
      → (mk : Market) (m : MarketPort Decimal Float) → market_for num e mk ≡ some m
      → IsPort m
  unfolding market_for
  market_for-IsPort ports mk m = elim (Bool-cases (valid mk)) [
    | inl known ↦ rw known (ports mk m)
    | inr unknown ↦ rw unknown (λ h. absurd (cc h))
  ]

  rebuild-about :
      ArePorts
      → (m : Option (MarketPort Decimal Float)) (mk : Market) (s : Signal Float) (o : Order)
        (rc : RiskContext Decimal Float)
      → market_for num e mk ≡ m
      → rebuild num e m s o ≡ ok rc
      → rc.order ≡ o
  rebuild-about ports none mk s o rc h r = absurd (cc r)
  rebuild-about ports (some m) mk s o rc h r =
      (market_for-IsPort ports mk m h).about (some s) o rc r

  strategy_verdict-Passed :
      ArePorts
      → (name : String) (s : Signal Float) (o : Order) (rc : RiskContext Decimal Float)
        (v : Verdict)
      → rc.order ≡ o
      → Passed o (strategy_verdict num e name s o rc v)
  unfolding strategy_verdict
  strategy_verdict-Passed ports name s o rc v a =
      let smaller = record o { size = v.adjusted_size } in
      let mk = strategy_market num e name in
      elim (Bool-cases (is_reduce num e v.kind)) [
        | inl cut ↦ rw cut (
            rebuilt-Passed v o smaller v.adjusted_size
              (rebuild num e (market_for num e mk) s smaller) refl
              (λ r. rebuild-about ports (market_for num e mk) mk s smaller r refl))
        | inr whole ↦ rw whole (a, (o.size, refl))
      ]

  with_overrides-Passed :
      ArePorts
      → (name : String) (s : Signal Float) (o : Order) (rc : RiskContext Decimal Float)
        (symbols : List String) (r : Option (Overrides Decimal))
      → rc.order ≡ o
      → Passed o (with_overrides num e name s o rc symbols r)
  unfolding with_overrides
  with_overrides-Passed ports name s o rc symbols none a = (a, (o.size, refl))
  with_overrides-Passed ports name s o rc symbols (some r) a =
      elim (Bool-cases (has_effective_overrides r)) [
        | inl own ↦ rw own (
            strategy_verdict-Passed ports name s o rc
              (prefix_strategy_verdict (
                evaluate_rules num (merge_rules (global_rules num e e.evaluator) r)
                  (build_strategy_risk_context num e rc name symbols)))
              a)
        | inr plain ↦ rw plain (a, (o.size, refl))
      ]

  evaluate_strategy_risk-Passed :
      ArePorts
      → (name : String) (s : Signal Float) (o : Order) (rc : RiskContext Decimal Float)
        (st : Option (Strategy Decimal))
      → rc.order ≡ o
      → Passed o (with_strategy num e name s o rc st)
  unfolding with_strategy
  evaluate_strategy_risk-Passed ports name s o rc none a = (a, (o.size, refl))
  evaluate_strategy_risk-Passed ports name s o rc (some st) a =
      with_overrides-Passed ports name s o rc st.symbols st.risk_overrides a

  -- An order that was sent: the one that the market decided on, in a market and with a size perhaps
  -- of its own, and judged.
  pub record Sent (name : String) (s : Signal Float) (o : Order) : Type 0 where
    pub alive : (e.kill_switch.active && opens_exposure (some s)) ≡ false
    pub market : MarketPort Decimal Float
    pub registered : market_for num e (strategy_market num e name) ≡ some market
    pub first : Order
    pub decided : market.decide name s ≡ ok (some first)
    pub size : String
    pub judged :
        Judged (record (placed_in num e (strategy_market num e name) first) { size = size }) o

  strategy_result-Judged :
      (o p : Order) (r : Result Failure (Verdict × (RiskContext Decimal Float × Order)))
      → Passed p r
      → strategy_result num e r ≡ sent o
      → (size : String) × Judged (record p { size = size }) o
  unfolding strategy_result
  strategy_result-Judged o p (err f) h s = absurd (cc s)
  strategy_result-Judged o p (ok (v, (rc, judged))) (about, (size, same)) s =
      (size, subst (λ j. Judged j o) same (after_strategy-Judged judged o rc v v.kind about s))

  with_context-Judged :
      ArePorts
      → (name : String) (s : Signal Float) (o p : Order)
        (r : Result Failure (RiskContext Decimal Float))
      → ((rc : RiskContext Decimal Float) → r ≡ ok rc → rc.order ≡ p)
      → with_context num e name s p r ≡ sent o
      → (size : String) × Judged (record p { size = size }) o
  unfolding with_context evaluate_strategy_risk
  with_context-Judged ports name s o p (err f) a h = absurd (cc h)
  with_context-Judged ports name s o p (ok rc) a h =
      strategy_result-Judged o p (evaluate_strategy_risk num e name s p rc)
        (evaluate_strategy_risk-Passed ports name s p rc (lookup name e.strategies) (a rc refl)) h

  with_order-Sent :
      ArePorts
      → (name : String) (s : Signal Float) (o : Order) (m : MarketPort Decimal Float)
        (r : Result DecideError (Option Order))
      → (e.kill_switch.active && opens_exposure (some s)) ≡ false
      → market_for num e (strategy_market num e name) ≡ some m
      → m.decide name s ≡ r
      → with_order num e name s (strategy_market num e name) m r ≡ sent o
      → Sent name s o
  unfolding with_order
  with_order-Sent ports name s o m (err f) alive reg d h = absurd (cc h)
  with_order-Sent ports name s o m (ok none) alive reg d h = absurd (cc h)
  with_order-Sent ports name s o m (ok (some first)) alive reg d h =
      let p = placed_in num e (strategy_market num e name) first in
      let j =
        with_context-Judged ports name s o p (m.build_risk_context (some s) (some p))
          ((market_for-IsPort ports (strategy_market num e name) m reg).about (some s) p) h in
      record {
        alive = alive;
        market = m;
        registered = reg;
        first = first;
        decided = d;
        size = j.0;
        judged = j.1;
      }

  with_market-Sent :
      ArePorts
      → (name : String) (s : Signal Float) (o : Order) (m : Option (MarketPort Decimal Float))
      → (e.kill_switch.active && opens_exposure (some s)) ≡ false
      → market_for num e (strategy_market num e name) ≡ m
      → with_market num e name s (strategy_market num e name) m ≡ sent o
      → Sent name s o
  unfolding with_market
  with_market-Sent ports name s o none alive reg h = absurd (cc h)
  with_market-Sent ports name s o (some m) alive reg h =
      with_order-Sent ports name s o m (m.decide name s) alive reg refl h

  pub dispatch_signal-Sent :
      ArePorts
      → (name : String) (s : Signal Float) (o : Order) → dispatch_signal num e name s ≡ sent o
      → Sent name s o
  unfolding dispatch_signal
  dispatch_signal-Sent ports name s o =
      elim (Bool-cases (e.kill_switch.active && opens_exposure (some s))) [
        | inl stopped ↦ rw stopped (λ h. absurd (cc h))
        | inr alive ↦ rw alive (
            with_market-Sent ports name s o (market_for num e (strategy_market num e name)) alive
              refl)
      ]
