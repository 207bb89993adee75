-- ===== src/Risk/Evaluate/Size.antt =====
-- What the verdict says of the size of the order.
use signalix.Prelude.{
  ◌≡◌, sym, true, false, Option, none, some, String, arith, Bool-cases, inl, inr,
}
use std.Path.{subst}
use signalix.Numbers.{Numbers, OrderLaws, equal, is_positive}
use signalix.Risk.{allow, reduce, Verdict, Input}
use signalix.Risk.Evaluate.{
  exposure_check, open_orders_check, positions_check, leverage_check, order_size_check,
  limit_checks, evaluate, order_quantity, positive_or_none, allowed_qty, ◌otherwise◌, when,
  reject_if,
}
use signalix.Risk.Evaluate.Objection.{
  Objection, rejects, order_limit, position_limit, evaluate-reduce, evaluate-allow,
}

module _ (num : Numbers) where
  open num use {Decimal, parse, to_string, lt, nil}

  allow-below :
      (i : Input Decimal) (q : Decimal)
      → equal num i.rules.max_order_size nil ≡ false
      → limit_checks num i q ≡ none
      → lt i.rules.max_order_size q ≡ false
  unfolding limit_checks exposure_check open_orders_check positions_check leverage_check
      order_size_check ◌otherwise◌ when reject_if
  allow-below i q z h = ground (arith, z, h)

  -- A reduction of an order above the limit is one to the limit.
  reduce-above :
      (i : Input Decimal) (q : Decimal)
      → i.rules.enable ≡ true
      → order_quantity num i ≡ some q
      → equal num i.rules.max_order_size nil ≡ false
      → lt i.rules.max_order_size q ≡ true
      → (evaluate num i).kind ≡ reduce
      → (evaluate num i).adjusted_size ≡ to_string i.rules.max_order_size
  unfolding evaluate limit_checks exposure_check open_orders_check positions_check leverage_check
      order_size_check ◌otherwise◌ when reject_if
  reduce-above i q on e z h k = ground (arith, on, e, z, h, k)

  positive-some : (r : Option Decimal) (q : Decimal) → positive_or_none num r ≡ some q → r ≡ some q
  positive-some none q = λ h. absurd (cc h)
  positive-some (some d) q = elim (Bool-cases (is_positive num d)) [
    | inl above ↦ rw above (λ h. h)
    | inr below ↦ rw below (λ h. absurd (cc h))
  ]

  -- A size that reads as a number not above the limit
  abbrev pub IsBelow : Decimal → String → Type 0
  IsBelow limit size = (q : Decimal) × ((parse size ≡ some q) × (lt limit q ≡ false))

  pub evaluate-allow_IsBelow :
      (i : Input Decimal)
      → i.rules.enable ≡ true
      → equal num i.rules.max_order_size nil ≡ false
      → (evaluate num i).kind ≡ allow
      → IsBelow i.rules.max_order_size i.order_size
  unfolding order_quantity
  evaluate-allow_IsBelow i on z k =
      let (q, e, h) = evaluate-allow num i on k in
      (q, (positive-some (parse i.order_size) q e, allow-below i q z h))

  printed_IsBelow :
      OrderLaws num → (limit d : Decimal) → lt limit d ≡ false → IsBelow limit (to_string d)
  printed_IsBelow laws limit d h =
      let (p, e, le, ge) = laws.parse_to_string d in (p, (e, laws.le_trans p d limit ge h))

  reduced_IsBelow :
      OrderLaws num
      → (i : Input Decimal) (q : Decimal) (v : Verdict)
      → (lt i.rules.max_order_size q ≡ true → v.adjusted_size ≡ to_string i.rules.max_order_size)
      → Objection num i q v
      → v.kind ≡ reduce
      → IsBelow i.rules.max_order_size v.adjusted_size
  reduced_IsBelow laws i q v above (rejects code c) k = absurd (cc k)
  reduced_IsBelow laws i q v above (order_limit z h) k =
      printed_IsBelow laws i.rules.max_order_size i.rules.max_order_size
        (laws.lt_irrefl i.rules.max_order_size)
  reduced_IsBelow laws i q v above (position_limit z h) k =
      elim (Bool-cases (lt i.rules.max_order_size q)) [
        | inl over ↦ subst (IsBelow i.rules.max_order_size) (sym (above over)) (
            printed_IsBelow laws i.rules.max_order_size i.rules.max_order_size
              (laws.lt_irrefl i.rules.max_order_size))
        | inr under ↦ printed_IsBelow laws i.rules.max_order_size (allowed_qty num i) (
            laws.le_trans (allowed_qty num i) q i.rules.max_order_size
              (not_after (allowed_qty num i) q h) under)
      ]
    where
      not_after : (a b : Decimal) → lt a b ≡ true → lt b a ≡ false
      not_after a b below = elim (Bool-cases (lt b a)) [
        | inl back ↦ absurd (cc (laws.lt_trans a b a below back, laws.lt_irrefl a))
        | inr fine ↦ fine
      ]

  pub evaluate-reduce_IsBelow :
      OrderLaws num
      → (i : Input Decimal) → i.rules.enable ≡ true
      → equal num i.rules.max_order_size nil ≡ false
      → (evaluate num i).kind ≡ reduce
      → IsBelow i.rules.max_order_size (evaluate num i).adjusted_size
  evaluate-reduce_IsBelow laws i on z k =
      let (q, e, o) = evaluate-reduce num i on k in
      reduced_IsBelow laws i q (evaluate num i) (λ h. reduce-above i q on e z h k) o k
