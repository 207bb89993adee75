-- ===== src/Risk/Evaluate/Objection.antt =====
-- What a check of Evaluate can object.
use signalix.Prelude.{
  ◌≡◌, ◌≢◌, refl, inl, inr, Bool, true, false, Option, none, some, starts_with, String, not, ap,
  ◌∙◌, arith, Bool-cases, Option-cases,
}
use mathlib.Core.Option.{some-injective}
use signalix.Numbers.{Numbers, equal}
use signalix.Risk.{allow, reduce, Verdict, rejected, reduced, allowed, Input}
use signalix.Risk.Evaluate.{
  exposure_check, open_orders_check, positions_check, leverage_check, order_size_check,
  over_position, position_size_check, allowed_qty, limit_checks, evaluate, order_quantity,
  verdict_or_allow, ◌otherwise◌, reject_if, when,
}

pub otherwise-none : (a b : Option Verdict) → (a otherwise b) ≡ none → (a ≡ none) × (b ≡ none)
unfolding ◌otherwise◌
otherwise-none a b h = ground arith

-- Whatever the check objects has the property.
pub record Objects {ℓ} (P : Verdict → Type ℓ) (o : Option Verdict) : Type ℓ where
  pub at : (v : Verdict) → o ≡ some v → P v

module _ {ℓ} {P : Verdict → Type ℓ} where
  Objects-none : Objects P none
  Objects-none = record { at = λ v h. cc }

  Objects-some : (w : Verdict) → P w → Objects P (some w)
  Objects-some w p = record { at = λ v h. rw (← some-injective w v h) p }

  Objects-otherwise : (a b : Option Verdict) → Objects P a → Objects P b → Objects P (a otherwise b)
  unfolding ◌otherwise◌
  Objects-otherwise none b f g = g
  Objects-otherwise (some w) b f g = f

  Objects-reject_if : (c : Bool) (code : String) → P (rejected code) → Objects P (reject_if c code)
  unfolding reject_if
  Objects-reject_if true code p = Objects-some (rejected code) p
  Objects-reject_if false code p = Objects-none

  Objects-when : (c : Bool) (a : Option Verdict) → (c ≡ true → Objects P a) → Objects P (when c a)
  unfolding when
  Objects-when true a f = f refl
  Objects-when false a f = Objects-none

module _ (num : Numbers) where
  open num use {Decimal, lt, nil, to_string}

  -- A rejection under a code of the package; or a reduction below the order's size, to the order
  -- limit, or to the size that the position limit leaves.
  pub data Objection (i : Input Decimal) (q : Decimal) : Verdict → Type 0 where
    rejects : (code : String) → starts_with code "RISK_" ≡ true → Objection i q (rejected code)
    order_limit :
        equal num i.rules.max_order_size nil ≡ false
        → lt i.rules.max_order_size q ≡ true
        → Objection i q (reduced "RISK_MAX_ORDER_SIZE" (to_string i.rules.max_order_size))
    position_limit :
        lt nil (allowed_qty num i) ≡ true
        → lt (allowed_qty num i) q ≡ true
        → Objection i q (reduced "RISK_MAX_POSITION_SIZE" (to_string (allowed_qty num i)))

  module _ (i : Input Decimal) (q : Decimal) where
    -- What the check objects is one of these.
    abbrev Sound : Option Verdict → Type 0
    Sound = Objects (Objection i q)

    Sound-reject_if :
        (c : Bool) (code : String) → starts_with code "RISK_" ≡ true → Sound (reject_if c code)
    Sound-reject_if c code h = Objects-reject_if c code (rejects code h)

    exposure_check-Sound : Sound (exposure_check num i)
    unfolding exposure_check
    exposure_check-Sound = Objects-otherwise _ _ (Sound-reject_if _ _ refl) (
        Objects-otherwise _ _ (Sound-reject_if _ _ refl) (
          Objects-otherwise _ _ (Sound-reject_if _ _ refl)
            (Objects-otherwise _ _ (Sound-reject_if _ _ refl) (Sound-reject_if _ _ refl))))

    leverage_check-Sound : Sound (leverage_check num i)
    unfolding leverage_check
    leverage_check-Sound =
        Objects-when _ _
          λ _. Objects-otherwise _ _ (Sound-reject_if _ _ refl) (Sound-reject_if _ _ refl)

    order_size_check-Sound : Sound (order_size_check num i q)
    unfolding order_size_check
    order_size_check-Sound =
        Objects-when _ _ λ c. Objects-some _ (order_limit (ground arith) (ground arith))

    -- The reduction comes after the test that something is left.
    left_check-Sound : Sound (
        reject_if (not (lt nil (allowed_qty num i))) "RISK_MAX_POSITION_SIZE"
        otherwise when
            (lt (allowed_qty num i) q)
            (some (reduced "RISK_MAX_POSITION_SIZE" (to_string (allowed_qty num i)))))
    left_check-Sound = elim (Bool-cases (lt nil (allowed_qty num i))) [
      | inl left ↦
          Objects-otherwise _ _ (Sound-reject_if _ _ refl)
            (Objects-when _ _ λ c. Objects-some _ (position_limit left c))
      | inr nothing ↦ rw nothing (unfold reject_if ◌otherwise◌ in Objects-some _ (rejects _ refl))
    ]

    over_position-Sound : Sound (over_position num i q)
    unfolding over_position
    over_position-Sound =
        Objects-otherwise _ _ (Sound-reject_if _ _ refl)
          (Objects-otherwise _ _ (Sound-reject_if _ _ refl) left_check-Sound)

    position_size_check-Sound : Sound (position_size_check num i q)
    unfolding position_size_check
    position_size_check-Sound = Objects-when _ _ λ _.
        Objects-otherwise _ _ (Sound-reject_if _ _ refl) (Objects-when _ _ λ _. over_position-Sound)

    pub limit_checks-Sound : Sound (limit_checks num i q)
    unfolding limit_checks open_orders_check positions_check
    limit_checks-Sound = Objects-otherwise _ _ exposure_check-Sound (
        Objects-otherwise _ _ (Sound-reject_if _ _ refl) (
          Objects-otherwise _ _ (Sound-reject_if _ _ refl) (
            Objects-otherwise _ _ leverage_check-Sound
              (Objects-otherwise _ _ order_size_check-Sound position_size_check-Sound))))

  Objection-ne-allow :
      {i : Input Decimal} {q : Decimal} {v : Verdict} → Objection i q v → v.kind ≢ allow
  Objection-ne-allow (rejects code h) e = cc
  Objection-ne-allow (order_limit z h) e = cc
  Objection-ne-allow (position_limit z h) e = cc

  module _ (i : Input Decimal) (on : i.rules.enable ≡ true) where
    evaluate-some :
        (q : Decimal)
        → order_quantity num i ≡ some q
        → evaluate num i ≡ verdict_or_allow (limit_checks num i q)
    unfolding evaluate
    evaluate-some q e = simp (on, e)

    pub evaluate-none :
        order_quantity num i ≡ none → evaluate num i ≡ rejected "RISK_INVALID_ORDER_SIZE"
    unfolding evaluate
    evaluate-none e = simp (on, e)

    pub evaluate-passes :
        (q : Decimal)
        → order_quantity num i ≡ some q
        → limit_checks num i q ≡ none
        → evaluate num i ≡ allowed
    evaluate-passes q e h = evaluate-some q e ∙ ap verdict_or_allow h

    pub evaluate-objects :
        (q : Decimal) (v : Verdict)
        → order_quantity num i ≡ some q
        → limit_checks num i q ≡ some v
        → evaluate num i ≡ v
    evaluate-objects q v e h = evaluate-some q e ∙ ap verdict_or_allow h

    pub evaluate-allow :
        (evaluate num i).kind ≡ allow
        → (q : Decimal) × (order_quantity num i ≡ some q) × (limit_checks num i q ≡ none)
    evaluate-allow k = elim (Option-cases (order_quantity num i)) [
      | inl bad ↦ absurd (cc (k, ap (λ (v : Verdict). v.kind) (evaluate-none bad)))
      | inr (q, e) ↦ elim (Option-cases (limit_checks num i q)) [
        | inl none_objects ↦ (q, e, none_objects)
        | inr (v, h) ↦ absurd (
            Objection-ne-allow ((limit_checks-Sound i q).at v h)
              (cc (k, ap (λ (w : Verdict). w.kind) (evaluate-objects q v e h))))
      ]
    ]

    -- A reduction is one of the two that the checks make.
    pub evaluate-reduce :
        (evaluate num i).kind ≡ reduce
        → (q : Decimal) × (order_quantity num i ≡ some q) × Objection i q (evaluate num i)
    evaluate-reduce k = elim (Option-cases (order_quantity num i)) [
      | inl bad ↦ absurd (cc (k, ap (λ (v : Verdict). v.kind) (evaluate-none bad)))
      | inr (q, e) ↦ elim (Option-cases (limit_checks num i q)) [
        | inl none_objects ↦
            absurd (cc (k, ap (λ (v : Verdict). v.kind) (evaluate-passes q e none_objects)))
        | inr (v, h) ↦ (q, e, rw (evaluate-objects q v e h) ((limit_checks-Sound i q).at v h))
      ]
    ]
