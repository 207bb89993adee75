-- ===== src/Oms/Validate/Sizes.antt =====
-- What validateOrderSize lets pass.
use signalix.Prelude.{
  ◌≡◌, ◌≢◌, refl, ap, sym, ◌∙◌, Bool, true, false, not, ◌&&◌, Option, none, some, String, ◌↔◌,
  Bool-cases, inl, inr, if◌then◌else◌,
}
use std.Path.{subst}
use mathlib.Core.Option.{some-injective}
use signalix.Prelude.Text.{trim_space}
use signalix.Numbers.{Numbers, is_positive, is_zero, equal}
use signalix.Models.{ContractMeta}
use signalix.Oms.{
  PlaceError, size_not_integer, size_below_minimum, size_above_maximum, size_not_aligned,
}
use signalix.Oms.Validate.{
  parse_optional_positive, positive_only, bounded_by, validate_size, validate_order_size,
}

-- The tests of a chain of four all pass when it gives no error.
four_tests :
    (a b c d : Bool) (w x y z : PlaceError)
    → ((if a
          then some w
          else if b
          then some x
          else if c
          then some y
          else if d
          then some z
          else none)
        ≡ none)
      ↔ ((a ≡ false) × (b ≡ false) × (c ≡ false) × (d ≡ false))
four_tests true b c d w x y z = (λ h. absurd (cc h), λ p. absurd (cc p.0))
four_tests false true c d w x y z = (λ h. absurd (cc h), λ p. absurd (cc p.1))
four_tests false false true d w x y z = (λ h. absurd (cc h), λ p. absurd (cc p.2))
four_tests false false false true w x y z = (λ h. absurd (cc h), λ p. absurd (cc p.3))
four_tests false false false false w x y z = (λ h. (refl, refl, refl, refl), λ p. refl)

-- A test that matters only while a flag is off.
unless_flag :
    (flag whole : Bool) → ((not flag && not whole) ≡ false) ↔ (flag ≡ false → whole ≡ true)
unless_flag true whole = (λ h e. absurd (cc e), λ h. refl)
unless_flag false true = (λ h e. refl, λ h. refl)
unless_flag false false = (λ h e. absurd (cc h), λ h. absurd (cc (h refl)))

module _ (num : Numbers) where
  open num use {Decimal, parse, nil, lt, remainder, truncate}

  -- A limit of the contract that is set holds.
  abbrev pub Holds : Option Decimal → (Decimal → Bool) → Type 0
  Holds limit breaks = (m : Decimal) → limit ≡ some m → breaks m ≡ false

  -- A size that the contract admits.
  pub record Fits (meta : ContractMeta) (size : Decimal) : Type 0 where
    pub integral : meta.enable_decimal_size ≡ false → equal num size (truncate size) ≡ true
    pub at_least : Holds (parse_optional_positive num meta.order_size_min) (λ m. lt size m)
    pub at_most : Holds (parse_optional_positive num meta.order_size_max) (λ m. lt m size)
    pub aligned :
        Holds
          (parse_optional_positive num meta.order_size_step)
          (λ step. not (is_zero num (remainder size step)))

  bounded_by-Holds :
      (limit : Option Decimal) (test : Decimal → Bool)
      → (bounded_by num limit test ≡ false) ↔ Holds limit test
  bounded_by-Holds none test = (λ h m e. absurd (cc e), λ h. refl)
  bounded_by-Holds (some d) test =
      (λ h m e. ap test (sym (some-injective d m e)) ∙ h, λ h. h d refl)

  validate_size-Fits :
      (meta : ContractMeta) (size : Decimal)
      → (validate_size num meta (some size) ≡ none) ↔ Fits meta size
  unfolding validate_size
  validate_size-Fits meta size =
      let whole = unless_flag meta.enable_decimal_size (equal num size (truncate size)) in
      let low =
        bounded_by-Holds (parse_optional_positive num meta.order_size_min) (λ m. lt size m) in
      let high =
        bounded_by-Holds (parse_optional_positive num meta.order_size_max) (λ m. lt m size) in
      let step =
        bounded_by-Holds (parse_optional_positive num meta.order_size_step)
          (λ d. not (is_zero num (remainder size d))) in
      let all =
        four_tests _ _ _ _ size_not_integer size_below_minimum size_above_maximum
          size_not_aligned in
      (
        λ h.
            let (w, l, m, a) = all.0 h in
            record {
              integral = whole.0 w;
              at_least = low.0 l;
              at_most = high.0 m;
              aligned = step.0 a;
            },
        λ f. all.1 (whole.1 f.integral, low.1 f.at_least, high.1 f.at_most, step.1 f.aligned),
      )

  unread-Fits : (meta : ContractMeta) → validate_size num meta none ≢ none
  unfolding validate_size
  unread-Fits meta h = cc h

  read-Fits :
      (meta : ContractMeta) (r : Option Decimal)
      → (validate_size num meta (positive_only num r) ≡ none)
        ↔ ((size : Decimal) × (r ≡ some size) × (is_positive num size ≡ true) × Fits meta size)
  read-Fits meta none = (λ h. absurd (unread-Fits meta h), λ p. absurd (cc p.1))
  read-Fits meta (some d) = elim (Bool-cases (is_positive num d)) [
    | inl positive ↦ (
      λ h. (d, refl, positive, (validate_size-Fits meta d).0 (rw positive at h)),
      λ p.
          rw positive (
            (validate_size-Fits meta d).1 (subst (Fits meta) (sym (some-injective d p.0 p.1)) p.3)),
    )
    | inr other ↦ (
      λ h. absurd (unread-Fits meta (rw other at h)),
      λ p. absurd (cc (other, p.2, ap (is_positive num) (some-injective d p.0 p.1))),
    )
  ]

  -- validateOrderSize accepts exactly the texts that read as a number above zero which is whole
  -- unless the contract allows fractions, and which keeps the contract's least size, largest size
  -- and step, each where it is set.
  pub validate_order_size-Fits :
      (meta : ContractMeta) (text : String)
      → (validate_order_size num meta text ≡ none) ↔ (
          (size : Decimal) × (parse (trim_space text) ≡ some size)
          × (is_positive num size ≡ true)
          × Fits meta size)
  unfolding validate_order_size
  validate_order_size-Fits meta text = read-Fits meta (parse (trim_space text))
