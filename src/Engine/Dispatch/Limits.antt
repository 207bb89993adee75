-- ===== src/Engine/Dispatch/Limits.antt =====
-- What no order that is sent escapes.
use signalix.Prelude.{◌≡◌, sym, ap, ◌∙◌, inl, inr, true, false, String}
use std.Path.{subst}
use signalix.Numbers.{Numbers, OrderLaws, equal}
use signalix.Models.{Signal, Order}
use signalix.Risk.{Rules, Verdict}
use signalix.Risk.Evaluate.Size.{IsBelow, evaluate-allow_IsBelow, evaluate-reduce_IsBelow}
use signalix.Perp.RiskContext.{RiskContext}
use signalix.Engine.Dispatch.{static, Engine, sent, input_of, evaluate_rules, judge}
use signalix.Engine.Dispatch.Stages.{dispatch_signal}
use signalix.Engine.Dispatch.Sent.{Settled, ArePorts, dispatch_signal-Sent}

module _ (num : Numbers) (laws : OrderLaws num) (e : Engine num.Decimal num.Float) where
  open num use {Decimal, Float, nil, lt}

  Settled-IsBelow :
      (g : Rules Decimal) (rc : RiskContext Decimal Float) (judged o : Order) (v : Verdict)
      → g.enable ≡ true
      → equal num g.max_order_size nil ≡ false
      → evaluate_rules num g rc ≡ v
      → rc.order ≡ judged
      → Settled num e judged o v
      → IsBelow num g.max_order_size o.size
  unfolding evaluate_rules input_of
  Settled-IsBelow g rc judged o v on z j a (inl (k, same)) =
      subst (IsBelow num g.max_order_size) (ap (λ x. x.size) (a ∙ sym same))
        (evaluate-allow_IsBelow num (input_of num g rc) on z (ap (λ x. x.kind) j ∙ k))
  Settled-IsBelow g rc judged o v on z j a (inr (k, same)) =
      subst (IsBelow num g.max_order_size)
        (ap (λ x. x.adjusted_size) j ∙ ap (λ x. x.size) (sym same))
        (evaluate-reduce_IsBelow num laws (input_of num g rc) on z (ap (λ x. x.kind) j ∙ k))

  -- Where every market makes contexts of the orders it is given and the decimal order has its
  -- documented laws: with the repository's own rules enabled and a limit on the order size set,
  -- every order that dispatchSignal sends has a size that reads as a number not above the limit,
  -- whatever the strategy's tier and the reductions made of it.
  pub dispatch_signal-IsBelow :
      (name : String) (s : Signal Float) (o : Order) (g : Rules Decimal)
      → ArePorts num e
      → e.evaluator ≡ static g
      → g.enable ≡ true
      → equal num g.max_order_size nil ≡ false
      → dispatch_signal num e name s ≡ sent o
      → IsBelow num g.max_order_size o.size
  unfolding judge
  dispatch_signal-IsBelow name s o g ports here on z h =
      let j = (dispatch_signal-Sent num e ports name s o h).judged in
      Settled-IsBelow g j.context _ o j.verdict on z
        (cc (sym (ap (λ x. judge num x j.context) here) ∙ j.judged_so)) j.about j.settled
