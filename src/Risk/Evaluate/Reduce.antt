-- ===== src/Risk/Evaluate/Reduce.antt =====
-- What a reduced order size is.
use signalix.Prelude.{◌≡◌, true, false, none, some, Bool-cases, inl, inr}
use signalix.Numbers.{Numbers, OrderLaws, equal}
use signalix.Risk.{reduce, Verdict, reduced, Input}
use signalix.Risk.Evaluate.{
  exposure_check, open_orders_check, positions_check, leverage_check, order_size_check,
  limit_checks, evaluate, order_quantity, ◌otherwise◌, when,
}
use signalix.Risk.Evaluate.Objection.{
  Objection, rejects, order_limit, position_limit, evaluate-objects, evaluate-reduce,
}

module _ (num : Numbers) (laws : OrderLaws num) where
  open num use {Decimal, parse, to_string, lt, nil}

  -- A printed number below `q` reads back as a number below `q`.
  parse-below :
      (d q : Decimal)
      → lt d q ≡ true
      → (p : Decimal) × (parse (to_string d) ≡ some p) × (lt p q ≡ true)
  parse-below d q h =
      let (p, e, le, ge) = laws.parse_to_string d in
      (
        p,
        e,
        elim (Bool-cases (lt p q)) [
          | inl below ↦ below
          | inr above ↦ absurd (cc (h, laws.le_trans q p d above ge))
        ],
      )

  Objection-below :
      {i : Input Decimal} {q : Decimal} {v : Verdict}
      → Objection num i q v
      → v.kind ≡ reduce
      → (p : Decimal) × (parse v.adjusted_size ≡ some p) × (lt p q ≡ true)
  Objection-below (rejects code c) k = absurd (cc k)
  Objection-below (order_limit z h) k = parse-below _ _ h
  Objection-below (position_limit z h) k = parse-below _ _ h

  -- With the rules enabled and the documented laws of the decimal order, a reduction shrinks the
  -- order: the adjusted size reads as a number below the size of the order.
  pub evaluate-reduce_shrinks :
      (i : Input Decimal)
      → i.rules.enable ≡ true
      → (evaluate num i).kind ≡ reduce
      → (q p : Decimal) × (order_quantity num i ≡ some q)
        × (parse (evaluate num i).adjusted_size ≡ some p)
        × (lt p q ≡ true)
  evaluate-reduce_shrinks i on k =
      let (q, e, o) = evaluate-reduce num i on k in
      let (p, r, h) = Objection-below o k in (q, p, e, r, h)

module _ (num : Numbers) where
  open num use {Decimal, to_string, lt, nil}

  -- The limit on a position is not looked at for an order above the order-size limit: once the
  -- checks before it pass, such an order is reduced to the order-size limit, whatever the notional
  -- of the position, before and after it.
  pub evaluate-order_limit_first :
      (i : Input Decimal) (q : Decimal)
      → i.rules.enable ≡ true
      → order_quantity num i ≡ some q
      → exposure_check num i ≡ none
      → open_orders_check num i ≡ none
      → positions_check num i ≡ none
      → leverage_check num i ≡ none
      → equal num i.rules.max_order_size nil ≡ false
      → lt i.rules.max_order_size q ≡ true
      → evaluate num i ≡ reduced "RISK_MAX_ORDER_SIZE" (to_string i.rules.max_order_size)
  evaluate-order_limit_first i q on e c1 c2 c3 c4 z h =
      evaluate-objects num i on q _ e
        (unfold limit_checks order_size_check ◌otherwise◌ when in simp (c1, c2, c3, c4, z, h))
