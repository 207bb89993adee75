-- ===== src/Decision/Process/Closing.antt =====
-- What an order has to be against a position: its side, and the text of its size.
use signalix.Prelude.{
  ◌⊎◌, ◌≡◌, refl, true, false, Option, none, some, String, Result, ok, err, inl, inr, arith,
  Bool-cases, Option-cases,
}
use signalix.Numbers.{Numbers, is_positive, parse_or_nil}
use signalix.Models.{OrderSide, buy, sell, Direction, PositionSide, PositionSnapshot, ContractMeta}
use signalix.Risk.Exposure.{same_side}
use signalix.Decision.{Decider}
use signalix.Decision.Process.{holds, closing_side, format_order_size, format_size_for_order}

-- The side that trades against a position: a long one is sold, any other is bought back.
abbrev pub IsAgainst : PositionSide → OrderSide → Type 0
IsAgainst PositionSide.long side = side ≡ sell
IsAgainst _ side = side ≡ buy

-- A position on the side that a direction asks for.
abbrev IsOwn : Direction → PositionSide → Type 0
IsOwn Direction.long PositionSide.long = Unit
IsOwn Direction.short PositionSide.short = Unit
IsOwn _ _ = ⊥

-- No position of the direction's own side is open: there is none, or its size is not above zero, or it
-- is on another side.
abbrev pub IsFree : (num : Numbers) → Direction → Option PositionSnapshot → Type 0
IsFree num d none = Unit
IsFree num d (some p) = (is_positive num (parse_or_nil num p.size) ≡ false) ⊎ (¬ IsOwn d p.side)

-- The text of a size for a contract: the whole part, where the contract is known and takes no
-- decimal sizes, and otherwise the number as it is.
pub data IsSizeText (num : Numbers) (de : Decider) (symbol : String) (q : num.Decimal)
    (text : String) : Type 0 where
  whole :
      (find : String → Result String ContractMeta) (meta : ContractMeta)
      → de.meta_lookup ≡ some find
      → find symbol ≡ ok meta
      → meta.enable_decimal_size ≡ false
      → text ≡ num.to_string (num.truncate q)
      → IsSizeText num de symbol q text
  decimal :
      (find : String → Result String ContractMeta) (meta : ContractMeta)
      → de.meta_lookup ≡ some find
      → find symbol ≡ ok meta
      → meta.enable_decimal_size ≡ true
      → text ≡ num.to_string q
      → IsSizeText num de symbol q text
  unknown :
      (find : String → Result String ContractMeta) (e : String)
      → de.meta_lookup ≡ some find
      → find symbol ≡ err e
      → text ≡ num.to_string q
      → IsSizeText num de symbol q text
  no_lookup : de.meta_lookup ≡ none → text ≡ num.to_string q → IsSizeText num de symbol q text

module _ (num : Numbers) (de : Decider) where
  open num use {Decimal}

  not-IsOwn : (d : Direction) (side : PositionSide) → same_side d side ≡ false → ¬ IsOwn d side
  not-IsOwn Direction.long PositionSide.long h own = cc h
  not-IsOwn Direction.long PositionSide.short h own = own
  not-IsOwn Direction.long (PositionSide.other x) h own = own
  not-IsOwn Direction.short PositionSide.short h own = cc h
  not-IsOwn Direction.short PositionSide.long h own = own
  not-IsOwn Direction.short (PositionSide.other x) h own = own
  not-IsOwn Direction.flat side h own = own
  not-IsOwn (Direction.other x) side h own = own

  pub holds-IsFree :
      (d : Direction) (p : Option PositionSnapshot) → holds num de d p ≡ false → IsFree num d p
  holds-IsFree d none h = tt
  holds-IsFree d (some p) h = elim (Bool-cases (is_positive num (parse_or_nil num p.size))) [
    | inl positive ↦ inr (not-IsOwn d p.side (rw positive at h))
    | inr nothing ↦ inl nothing
  ]

  pub closing_side-IsAgainst : (side : PositionSide) → IsAgainst side (closing_side num de side)
  closing_side-IsAgainst PositionSide.long = refl
  closing_side-IsAgainst PositionSide.short = refl
  closing_side-IsAgainst (PositionSide.other x) = refl

  found-IsSizeText :
      (symbol : String) (q : Decimal) (find : String → Result String ContractMeta)
      (r : Result String ContractMeta)
      → de.meta_lookup ≡ some find
      → find symbol ≡ r
      → IsSizeText num de symbol q (format_size_for_order num de symbol q)
  unfolding format_size_for_order format_order_size
  found-IsSizeText symbol q find (err e) g f = unknown find e g f (ground (arith, g, f))
  found-IsSizeText symbol q find (ok meta) g f = elim (Bool-cases meta.enable_decimal_size) [
    | inl fine ↦ decimal find meta g f fine (ground (arith, g, f, fine))
    | inr coarse ↦ whole find meta g f coarse (ground (arith, g, f, coarse))
  ]

  -- formatSizeForOrder writes the size as the contract takes it.
  pub format_size-IsSizeText :
      (symbol : String) (q : Decimal)
      → IsSizeText num de symbol q (format_size_for_order num de symbol q)
  unfolding format_size_for_order
  format_size-IsSizeText symbol q = elim (Option-cases de.meta_lookup) [
    | inl absent ↦ no_lookup absent (ground (arith, absent))
    | inr (find, given) ↦ found-IsSizeText symbol q find (find symbol) given refl
  ]
