-- ===== src/Decision/Notional/Bounds.antt =====
-- The limits of a contract on the sizes that the sizing gives, and of the balance on the notional.
use signalix.Prelude.{
  ◌≡◌, refl, ap, sym, ◌∙◌, str_eq, true, false, Option, none, some, String, Result, ok, err, ◌⊎◌,
  inl, inr, arith, Bool-cases, Option-cases,
}
use mathlib.Core.Option.{some-injective}
use std.Path.{subst}
use signalix.Prelude.Text.{trim_space}
use signalix.Numbers.{Numbers, OrderLaws, is_positive, is_zero}
use signalix.Models.{ContractMeta}
use signalix.Decision.{SizeError, Decider}
use signalix.Decision.Notional.{
  raise_to_min, min_size, max_size, cap, final_size, contracts_at, contracts_with_price,
  contracts_for_meta, contracts_found, find_meta, notional_usdt_to_contracts, multiplier,
  cached_price,
}

module _ (num : Numbers) where
  open num use {Decimal, parse, lt, nil, mul, div, floor}

  -- A field of the contract is a limit: a text that is not blank and reads as this positive number.
  pub record IsLimit (field : String) (m : Decimal) : Type 0 where
    pub given : str_eq (trim_space field) "" ≡ false
    pub reads : parse (trim_space field) ≡ some m
    pub limits : is_positive num m ≡ true

  -- A number of contracts that the contract admits: above zero, not above the largest order, and for
  -- a notional above zero not below the smallest order, unless it is the largest.
  pub record InLimits (meta : ContractMeta) (notional c : Decimal) : Type 0 where
    pub positive : is_positive num c ≡ true
    pub at_most : (m : Decimal) → IsLimit meta.order_size_max m → lt m c ≡ false
    pub at_least :
        (m : Decimal)
        → IsLimit meta.order_size_min m
        → is_positive num notional ≡ true
        → (lt c m ≡ false) ⊎ IsLimit meta.order_size_max c

  -- The two limits are what the sizing reads.
  max_size-IsLimit :
      (meta : ContractMeta) (m : Decimal)
      → IsLimit meta.order_size_max m
      → max_size num meta ≡ some m
  unfolding max_size
  max_size-IsLimit meta m l = rw (l.given, l.reads, l.limits) refl

  IsLimit-max_size :
      (meta : ContractMeta) (m : Decimal)
      → max_size num meta ≡ some m
      → IsLimit meta.order_size_max m
  unfolding max_size
  IsLimit-max_size meta m h = record {
    given = ground (arith, h);
    reads = ground (arith, h);
    limits = ground (arith, h);
  }

  min_size-IsLimit :
      (meta : ContractMeta) (m : Decimal) → IsLimit meta.order_size_min m → min_size num meta ≡ m
  min_size-IsLimit meta m l = rw (l.given, l.reads) refl

  module _ (laws : OrderLaws num) where
    cap-at_most :
        (max : Option Decimal) (c m : Decimal) → max ≡ some m → lt m (cap num max c) ≡ false
    cap-at_most none c m h = absurd (cc h)
    cap-at_most (some n) c m h = rw (← some-injective n m h) (ground (arith, laws.lt_irrefl n))

    raise_to_min-at_least :
        (meta : ContractMeta) (notional c : Decimal)
        → is_positive num (min_size num meta) ≡ true
        → is_positive num notional ≡ true
        → lt (raise_to_min num meta notional c) (min_size num meta) ≡ false
    unfolding raise_to_min
    raise_to_min-at_least meta notional c a b = elim (Bool-cases (lt c (min_size num meta))) [
      | inl below ↦ rw (a, b, below) (laws.lt_irrefl (min_size num meta))
      | inr above ↦ rw (a, b, above) above
    ]

    cap-at_least :
        (max : Option Decimal) (c low : Decimal)
        → lt c low ≡ false
        → (lt (cap num max c) low ≡ false) ⊎ (max ≡ some (cap num max c))
    cap-at_least none c low h = inl h
    cap-at_least (some m) c low h = elim (Bool-cases (lt m c)) [
      | inl above ↦ rw above (inr refl)
      | inr within ↦ rw within (inl h)
    ]

    final_size-InLimits :
        (meta : ContractMeta) (notional denom : Decimal)
        → is_positive num (final_size num meta notional denom) ≡ true
        → InLimits meta notional (final_size num meta notional denom)
    final_size-InLimits meta notional denom p = record {
      positive = p;
      at_most = λ m l. cap-at_most (max_size num meta) _ m (max_size-IsLimit meta m l);
      at_least = λ m l n.
          let e = min_size-IsLimit meta m l in
          elim (cap-at_least (max_size num meta) _ (min_size num meta)
            (raise_to_min-at_least meta notional _ (ap (is_positive num) e ∙ l.limits) n)) [
              | inl above ↦ inl (ap (lt (final_size num meta notional denom)) (sym e) ∙ above)
              | inr largest ↦ inr (IsLimit-max_size meta _ largest)
            ];
    }

    contracts_at-InLimits :
        (meta : ContractMeta) (notional denom c : Decimal)
        → contracts_at num meta notional denom ≡ ok c
        → InLimits meta notional c
    contracts_at-InLimits meta notional denom c h =
        let (p, e) = sized in
        subst (InLimits meta notional) e (final_size-InLimits meta notional denom p)
      where
        sized :
            (is_positive num (final_size num meta notional denom) ≡ true)
            × (final_size num meta notional denom ≡ c)
        sized = unfold contracts_at in ground (arith, h)

    with_price-InLimits :
        (meta : ContractMeta) (notional m c : Decimal) (price : Result SizeError Decimal)
        → contracts_with_price num meta notional m price ≡ ok c
        → InLimits meta notional c
    unfolding contracts_with_price
    with_price-InLimits meta notional m c (err e) h = absurd (cc h)
    with_price-InLimits meta notional m c (ok price) h =
        contracts_at-InLimits meta notional (mul price m) c h

    for_meta-InLimits :
        (de : Decider) (contract : String) (meta : ContractMeta) (notional c : Decimal)
        (m : Option Decimal)
        → contracts_for_meta num de contract notional meta m ≡ ok c
        → InLimits meta notional c
    unfolding contracts_for_meta
    for_meta-InLimits de contract meta notional c none h = absurd (cc h)
    for_meta-InLimits de contract meta notional c (some m) h =
        with_price-InLimits meta notional m c (cached_price num de contract) h

    -- The contract that the lookup gives, and a size within its limits
    abbrev Admitted : Decider → String → Decimal → Decimal → Type 0
    Admitted de contract notional c =
        (find : String → Result String ContractMeta) × (meta : ContractMeta) × (de.meta_lookup
          ≡ some find)
        × (find contract ≡ ok meta)
        × InLimits meta notional c

    looked_up-InLimits :
        (de : Decider) (contract : String) (notional c : Decimal)
        (find : String → Result String ContractMeta) (r : Result String ContractMeta)
        → de.meta_lookup ≡ some find
        → find contract ≡ r
        → contracts_found num de contract notional (find_meta num de contract) ≡ ok c
        → Admitted de contract notional c
    unfolding find_meta contracts_found
    looked_up-InLimits de contract notional c find (err e) g f h = absurd (ground (arith, g, f, h))
    looked_up-InLimits de contract notional c find (ok meta) g f h = (
      find,
      meta,
      g,
      f,
      for_meta-InLimits de contract meta notional c (multiplier num meta) (rw (g, f) at h),
    )

    found-InLimits :
        (de : Decider) (contract : String) (notional c : Decimal)
        → contracts_found num de contract notional (find_meta num de contract) ≡ ok c
        → Admitted de contract notional c
    unfolding find_meta contracts_found
    found-InLimits de contract notional c h = elim (Option-cases de.meta_lookup) [
      | inl absent ↦ absurd (ground (arith, absent, h))
      | inr (find, given) ↦
          looked_up-InLimits de contract notional c find (find contract) given refl h
    ]

    -- With the documented laws of the decimal order, a size that notionalUSDTToContracts gives is
    -- zero for a notional of zero; otherwise the lookup knows the contract, and the size is above
    -- zero, not above the contract's largest order, and for a positive notional not below the
    -- smallest one unless it is the largest, where a limit is a field of the contract that is not
    -- blank and reads as a positive number.
    pub notional_usdt_to_contracts-InLimits :
        (de : Decider) (contract : String) (notional c : Decimal)
        → notional_usdt_to_contracts num de contract notional ≡ ok c
        → ((is_zero num notional ≡ true) × (c ≡ nil))
          ⊎ ((find : String → Result String ContractMeta) × (meta : ContractMeta) × (de.meta_lookup
                ≡ some find)
              × (find contract ≡ ok meta)
              × InLimits meta notional c)
    notional_usdt_to_contracts-InLimits de contract notional c h =
        elim (Bool-cases (is_zero num notional)) [
          | inl zero_notional ↦
              inl (
                zero_notional,
                unfold notional_usdt_to_contracts in ground (arith, zero_notional, h),
              )
          | inr other ↦ inr (
              found-InLimits de contract notional c
                (unfold notional_usdt_to_contracts in (rw other at h)))
        ]
