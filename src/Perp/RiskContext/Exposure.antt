-- ===== src/Perp/RiskContext/Exposure.antt =====
-- A context says that its notional is available only if every amount was computed.
use signalix.Prelude.{
  ◌≡◌, refl, sym, ap, ◌∙◌, inl, inr, Bool, true, false, Option, none, some, String, Result, ok, err,
  Bool-cases, if-true, if-not, if◌then◌else◌,
}
use mathlib.Core.Option.{some-injective}
use std.Path.{subst}
use signalix.Prelude.Text.{trim_space}
use signalix.Numbers.{Numbers, parse_or_nil}
use signalix.Models.{Signal, Order, PositionSnapshot}
use signalix.Risk.Exposure.{opens_exposure, is_increasing_exposure}
use signalix.Decision.{Decider, SizeError}
use signalix.Decision.Notional.{notional_for_contracts}
use signalix.Projection.{Outside, Projection, ReadError, position_for_contract}
use signalix.Perp.RiskContext.{
  RiskContext, Sources, ready_of, base_context, size_of, total_exposure, with_posts, with_total,
  with_position_notional, with_held, with_order_notional, mark_of, with_quantity, needs,
  with_notional, with_position, with_projection, context_of,
}

module _ (num : Numbers) (out : Outside) (src : Sources num.Decimal) (de : Decider)
    (p : Projection num.Decimal) where
  open num use {Decimal, Float, nil, add, div}

  -- The amounts of the order `o` against the position `v`
  pub record Priced (o : Order) (v : Option PositionSnapshot) (rc : RiskContext Decimal Float)
      : Type 0 where
    pub q : Decimal
    pub quantity : size_of num out src o.size ≡ some q
    pub notional :
        notional_for_contracts num de o.symbol q (mark_of num out src v) ≡ ok rc.order_notional
    pub per_unit : rc.notional_per_unit ≡ div rc.order_notional q

  -- And those of all open positions, before and after it
  pub record Complete (o : Order) (v : Option PositionSnapshot) (rc : RiskContext Decimal Float)
      : Type 0 where
    pub priced : Priced o v rc
    pub total : total_exposure num out src de p ≡ ok rc.total_exposure
    pub post_total :
        rc.post_total_exposure
        ≡ (if rc.increasing then add rc.total_exposure rc.order_notional else rc.total_exposure)
    pub post_position : rc.post_position_notional ≡ (
        if rc.increasing then add rc.position_notional rc.order_notional else rc.position_notional)

  with_total-Complete :
      (o : Order) (v : Option PositionSnapshot) (r : Result SizeError Decimal)
      (rc : RiskContext Decimal Float)
      → total_exposure num out src de p ≡ r
      → Priced o v rc
      → (with_total num out src r rc).notional_available ≡ true
      → Complete o v (with_total num out src r rc)
  unfolding with_total with_posts
  with_total-Complete o v (err e) rc t h a = absurd (cc a)
  with_total-Complete o v (ok d) rc t h a = record {
    priced = record {
      q = h.q;
      quantity = h.quantity;
      notional = h.notional;
      per_unit = h.per_unit;
    };
    total = t;
    post_total = refl;
    post_position = refl;
  }

  with_position_notional-Complete :
      (o : Order) (v : Option PositionSnapshot) (r : Result SizeError Decimal)
      (rc : RiskContext Decimal Float)
      → Priced o v rc
      → (with_position_notional num out src de p r rc).notional_available ≡ true
      → Complete o v (with_position_notional num out src de p r rc)
  unfolding with_position_notional
  with_position_notional-Complete o v (err e) rc h a = absurd (cc a)
  with_position_notional-Complete o v (ok d) rc h a =
      with_total-Complete o v (total_exposure num out src de p)
        (record rc { position_notional = d }) refl
        (record { q = h.q; quantity = h.quantity; notional = h.notional; per_unit = h.per_unit }) a

  with_held-Complete :
      (o : Order) (v : Option PositionSnapshot) (rc : RiskContext Decimal Float)
      → Priced o v rc
      → (with_held num out src de p v rc).notional_available ≡ true
      → Complete o v (with_held num out src de p v rc)
  unfolding with_held
  with_held-Complete o none rc h a =
      with_total-Complete o none (total_exposure num out src de p) rc refl h a
  with_held-Complete o (some v) rc h a =
      with_position_notional-Complete o (some v)
        (notional_for_contracts num de rc.order.symbol (parse_or_nil num (trim_space v.size))
          v.mark_price)
        rc h a

  with_order_notional-Complete :
      (o : Order) (v : Option PositionSnapshot) (q : Decimal) (r : Result SizeError Decimal)
      (rc : RiskContext Decimal Float)
      → rc.notional_available ≡ false
      → size_of num out src o.size ≡ some q
      → notional_for_contracts num de o.symbol q (mark_of num out src v) ≡ r
      → (with_order_notional num out src de p v q r rc).notional_available ≡ true
      → Complete o v (with_order_notional num out src de p v q r rc)
  unfolding with_order_notional
  with_order_notional-Complete o v q (err e) rc off s n a = absurd (cc (off, a))
  with_order_notional-Complete o v q (ok d) rc off s n a =
      with_held-Complete o v
        (record rc { notional_available = true; order_notional = d; notional_per_unit = div d q })
        (record { q = q; quantity = s; notional = n; per_unit = refl }) a

  with_quantity-Complete :
      (v : Option PositionSnapshot) (r : Option Decimal) (rc : RiskContext Decimal Float)
      → rc.notional_available ≡ false
      → size_of num out src rc.order.size ≡ r
      → (with_quantity num out src de p v r rc).notional_available ≡ true
      → Complete rc.order v (with_quantity num out src de p v r rc)
  unfolding with_quantity
  with_quantity-Complete v none rc off s a = absurd (cc (off, a))
  with_quantity-Complete v (some q) rc off s a =
      with_order_notional-Complete rc.order v q
        (notional_for_contracts num de rc.order.symbol q (mark_of num out src v)) rc off s refl a

  context_of_open :
      (rc : RiskContext Decimal Float)
      → rc.opens ≡ true
      → context_of num out src rc ≡ with_projection num out src src.proj rc
  unfolding context_of
  context_of_open rc h = rw h refl

  with_projection_ready :
      (m : Option (Projection Decimal)) (rc : RiskContext Decimal Float)
      → m ≡ some p
      → rc.projection_ready ≡ true
      → with_projection num out src m rc
        ≡ with_position num out src p (position_for_contract num out rc.order.symbol p) rc
  unfolding with_projection
  with_projection_ready none rc e h = absurd (cc e)
  with_projection_ready (some m) rc e h =
      if-not rc.projection_ready rc
        (with_position num out src m (position_for_contract num out rc.order.symbol m) rc) h
      ∙ (ap (λ x. with_position num out src x (position_for_contract num out rc.order.symbol x) rc)
          (some-injective m p e))

  with_position_needed :
      (r : Result ReadError (Option PositionSnapshot)) (v : Option PositionSnapshot)
      (rc : RiskContext Decimal Float)
      → r ≡ ok v
      → needs num out src src.needs_notional (is_increasing_exposure num rc.signal v) ≡ true
      → with_position num out src p r rc
        ≡ with_notional num out src src.decision p v
            (record rc { increasing = is_increasing_exposure num rc.signal v })
  unfolding with_position with_notional
  with_position_needed r v rc e h =
      rw (e, with_position)
        (if-true (needs num out src src.needs_notional (is_increasing_exposure num rc.signal v)) _ _
          h)

  with_notional_given :
      (d : Option Decider) (v : Option PositionSnapshot) (rc : RiskContext Decimal Float)
      → d ≡ some de
      → with_notional num out src d p v rc
        ≡ with_quantity num out src de p v (size_of num out src rc.order.size) rc
  unfolding with_notional
  with_notional_given d v rc e = rw (e, with_notional) refl

  is_ready :
      (c : String) (v : Option PositionSnapshot)
      → position_for_contract num out c p ≡ ok v
      → p.ready ≡ true
  unfolding position_for_contract
  is_ready c v = elim (Bool-cases p.ready) [
    | inl ready ↦ λ e. ready
    | inr waiting ↦ rw waiting (λ e. absurd (cc e))
  ]

  base_context_ready :
      (signal : Option (Signal Float)) (o : Order)
      → src.proj ≡ some p
      → p.ready ≡ true
      → (base_context num out src signal o).projection_ready ≡ true
  unfolding base_context
  base_context_ready signal o e h = ap (ready_of num out src) e ∙ h

  -- For a signal that opens, a projection with the contract's position, and a gate that asks for
  -- the notional: if the context says that the notional is available, then the order's size reads
  -- as a positive number, the order's notional and the exposure of all positions were computed, the
  -- notional of one unit is their quotient, and the exposures after the order are the sums if the
  -- order increases the position, and those before it otherwise.
  pub context_of-Complete :
      (signal : Option (Signal Float)) (o : Order) (v : Option PositionSnapshot)
      (gate : Bool → Bool)
      → src.proj ≡ some p
      → src.decision ≡ some de
      → src.needs_notional ≡ some gate
      → position_for_contract num out o.symbol p ≡ ok v
      → opens_exposure signal ≡ true
      → gate (is_increasing_exposure num signal v) ≡ true
      → (context_of num out src (base_context num out src signal o)).notional_available ≡ true
      → Complete o v (context_of num out src (base_context num out src signal o))
  unfolding base_context
  context_of-Complete signal o v gate has_proj has_de has_gate held opens wanted =
      let rc = base_context num out src signal o in
      let priced = record rc { increasing = is_increasing_exposure num signal v } in
      let e =
        context_of_open rc opens
        ∙ with_projection_ready src.proj rc has_proj
            (base_context_ready signal o has_proj (is_ready o.symbol v held))
        ∙ with_position_needed (position_for_contract num out o.symbol p) v rc held
            (ap (λ g. needs num out src g (is_increasing_exposure num signal v)) has_gate ∙ wanted)
        ∙ with_notional_given src.decision v priced has_de in
      subst (λ x. x.notional_available ≡ true → Complete o v x) (sym e)
        (with_quantity-Complete v (size_of num out src o.size) priced refl refl)
