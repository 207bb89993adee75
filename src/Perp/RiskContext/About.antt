-- ===== src/Perp/RiskContext/About.antt =====
-- A context is about the order that it was made for.
use signalix.Prelude.{
  ◌≡◌, refl, ◌∙◌, inl, inr, true, false, Option, none, some, Result, ok, err, Bool, not, ap, sym,
  if-not, Bool-cases, if◌then◌else◌,
}
use signalix.Numbers.{Numbers}
use signalix.Models.{Signal, Order, PositionSnapshot}
use signalix.Risk.Exposure.{is_increasing_exposure}
use signalix.Decision.{Decider, SizeError}
use signalix.Projection.{Outside, Projection, ReadError, position_for_contract}
use signalix.Perp.RiskContext.{
  RiskContext, Sources, size_of, base_context, needs, with_posts, with_total,
  with_position_notional, with_held, with_order_notional, with_quantity, with_notional,
  with_position, with_projection, context_of, build_risk_context,
}

module _ (num : Numbers) (out : Outside) (src : Sources num.Decimal) where
  open num use {Decimal, Float}

  order-with_total :
      (r : Result SizeError Decimal) (rc : RiskContext Decimal Float)
      → (with_total num out src r rc).order ≡ rc.order
  unfolding with_total with_posts
  order-with_total (err e) rc = refl
  order-with_total (ok t) rc = refl

  module _ (p : Projection Decimal) where
    order-with_position_notional :
        (de : Decider) (r : Result SizeError Decimal) (rc : RiskContext Decimal Float)
        → (with_position_notional num out src de p r rc).order ≡ rc.order
    unfolding with_position_notional
    order-with_position_notional de (err e) rc = refl
    order-with_position_notional de (ok n) rc =
        order-with_total _ (record rc { position_notional = n })

    order-with_held :
        (de : Decider) (v : Option PositionSnapshot) (rc : RiskContext Decimal Float)
        → (with_held num out src de p v rc).order ≡ rc.order
    unfolding with_held
    order-with_held de none rc = order-with_total _ rc
    order-with_held de (some v) rc = order-with_position_notional de _ rc

    order-with_order_notional :
        (de : Decider) (v : Option PositionSnapshot) (q : Decimal) (r : Result SizeError Decimal)
        (rc : RiskContext Decimal Float)
        → (with_order_notional num out src de p v q r rc).order ≡ rc.order
    unfolding with_order_notional
    order-with_order_notional de v q (err e) rc = refl
    order-with_order_notional de v q (ok n) rc = order-with_held de v (record rc {
      notional_available = true;
      order_notional = n;
      notional_per_unit = num.div n q;
    })

    order-with_notional :
        (de : Option Decider) (v : Option PositionSnapshot) (rc : RiskContext Decimal Float)
        → (with_notional num out src de p v rc).order ≡ rc.order
    unfolding with_notional with_quantity
    order-with_notional none v rc = refl
    order-with_notional (some de) v rc = of_quantity (size_of num out src rc.order.size)
      where
        of_quantity :
            (r : Option Decimal) → (with_quantity num out src de p v r rc).order ≡ rc.order
        of_quantity none = refl
        of_quantity (some q) = order-with_order_notional de v q _ rc

    order-with_position :
        (r : Result ReadError (Option PositionSnapshot)) (rc : RiskContext Decimal Float)
        → (with_position num out src p r rc).order ≡ rc.order
    unfolding with_position
    order-with_position (err e) rc = refl
    order-with_position (ok v) rc =
        either (needs num out src src.needs_notional (is_increasing_exposure num rc.signal v))
      where
        either :
            (b : Bool)
            → (if b
                then with_notional num out src src.decision p v
                    (record rc { increasing = is_increasing_exposure num rc.signal v })
                else record rc {
                  increasing = is_increasing_exposure num rc.signal v;
                  notional_available = true;
                }).order
              ≡ rc.order
        either true =
            order-with_notional src.decision v
              (record rc { increasing = is_increasing_exposure num rc.signal v })
        either false = refl

  order-with_projection :
      (m : Option (Projection Decimal)) (rc : RiskContext Decimal Float)
      → (with_projection num out src m rc).order ≡ rc.order
  unfolding with_projection
  order-with_projection none rc = refl
  order-with_projection (some p) rc = elim (Bool-cases rc.projection_ready) [
    | inl ready ↦
        ap (λ x. x.order)
          (if-not rc.projection_ready rc
            (with_position num out src p (position_for_contract num out rc.order.symbol p) rc)
            ready)
        ∙ order-with_position p (position_for_contract num out rc.order.symbol p) rc
    | inr waiting ↦
        ap
          (λ b.
            (if not b
              then rc
              else with_position num out src p (position_for_contract num out rc.order.symbol p)
                  rc).order)
          waiting
  ]

  order-context_of : (rc : RiskContext Decimal Float) → (context_of num out src rc).order ≡ rc.order
  unfolding context_of
  order-context_of rc = elim (Bool-cases rc.opens) [
    | inl opens ↦
        ap (λ x. x.order)
          (if-not rc.opens (record rc { notional_available = true })
            (with_projection num out src src.proj rc) opens)
        ∙ order-with_projection src.proj rc
    | inr closes ↦
        ap
          (λ b.
            (if not b
              then record rc { notional_available = true }
              else with_projection num out src src.proj rc).order)
          closes
  ]

  pub build_risk_context-about :
      (signal : Option (Signal Float)) (o : Order) (rc : RiskContext Decimal Float)
      → build_risk_context num out src signal (some o) ≡ ok rc
      → rc.order ≡ o
  unfolding build_risk_context base_context
  build_risk_context-about signal o rc h =
      let e : context_of num out src (base_context num out src signal o) ≡ rc = cc h in
      ap (λ x. x.order) (sym e) ∙ order-context_of (base_context num out src signal o)
