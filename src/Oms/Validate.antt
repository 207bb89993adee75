-- ===== src/Oms/Validate.antt =====
-- internal/app/oms/place_validate.go
pub mod Sizes
mod Tests
use signalix.Prelude.{
  Bool, true, false, not, ◌&&◌, Option, none, some, String, Result, ok, err, str_eq, if◌then◌else◌,
}
use signalix.Prelude.Text.{trim_space}
use signalix.Numbers.{Numbers, gt, equal, is_positive, is_zero}
use signalix.Models.{Order, OrderType, ContractMeta}
use signalix.Oms.{
  PlaceError, lookup_failed, invalid_size, size_not_integer, size_below_minimum, size_above_maximum,
  size_not_aligned, invalid_price, price_not_aligned, Config,
}

abbrev is_limit : OrderType → Bool
is_limit OrderType.limit = true
is_limit _ = false

module _ (num : Numbers) where
  open num use {Decimal, parse, lt, remainder, truncate}

  -- The test `err != nil || !d.IsPositive()` after a parse.
  abbrev pub positive_only : Option Decimal → Option Decimal
  positive_only none = none
  positive_only (some d) = if is_positive num d then some d else none

  -- parseOptionalPositiveDecimal
  unfoldable pub parse_optional_positive : String → Option Decimal
  parse_optional_positive s =
      let t = trim_space s in if str_eq t "" then none else positive_only (parse t)

  -- `if x, ok := parseOptionalPositiveDecimal(…); ok && test(x)`
  abbrev pub bounded_by : Option Decimal → (Decimal → Bool) → Bool
  bounded_by none test = false
  bounded_by (some d) test = test d

  -- The tests of validateOrderSize on a size that parsed.
  unfoldable pub validate_size : ContractMeta → Option Decimal → Option PlaceError
  validate_size meta none = some invalid_size
  validate_size meta (some size) =
      if not meta.enable_decimal_size && not (equal num size (truncate size))
      then some size_not_integer
      else if bounded_by (parse_optional_positive meta.order_size_min) (λ min. lt size min)
      then some size_below_minimum
      else if bounded_by (parse_optional_positive meta.order_size_max) (λ max. gt num size max)
      then some size_above_maximum
      else if bounded_by (parse_optional_positive meta.order_size_step)
          (λ step. not (is_zero num (remainder size step)))
      then some size_not_aligned
      else none

  -- validateOrderSize
  unfoldable pub validate_order_size : ContractMeta → String → Option PlaceError
  validate_order_size meta size_str =
      validate_size meta (positive_only (parse (trim_space size_str)))

  unfoldable pub validate_price : ContractMeta → Option Decimal → Option PlaceError
  validate_price meta none = some invalid_price
  validate_price meta (some price) =
      if bounded_by (parse_optional_positive meta.order_price_step)
        (λ step. not (is_zero num (remainder price step)))
      then some price_not_aligned
      else none

  -- validateLimitPrice
  unfoldable pub validate_limit_price : ContractMeta → String → Option PlaceError
  validate_limit_price meta price_str =
      validate_price meta (positive_only (parse (trim_space price_str)))

  -- The price test of validateOrderForPlace: only a limit order whose price is not blank.
  abbrev pub validate_order_price : ContractMeta → Bool → Option String → Option PlaceError
  validate_order_price meta limit none = none
  validate_order_price meta limit (some price) =
      if limit && not (str_eq (trim_space price) "") then validate_limit_price meta price else none

  -- The first error.
  abbrev pub first_error : Option PlaceError → Option PlaceError → Option PlaceError
  first_error none b = b
  first_error (some e) b = some e

  abbrev pub validate_with : Order → Result String ContractMeta → Option PlaceError
  validate_with o (err e) = some (lookup_failed e)
  validate_with o (ok meta) =
      first_error (validate_order_size meta o.size)
        (validate_order_price meta (is_limit o.order_type) o.price)

  -- validateOrderForPlace on an order that is not nil; without a lookup nothing is checked
  unfoldable pub validate_order_for_place : Config → Order → Option PlaceError
  validate_order_for_place cfg o = elim cfg.meta_lookup [
    | none ↦ none
    | some lookup ↦ validate_with o (lookup o.symbol)
  ]
