-- ===== src/Oms/Validate/Tests.antt =====
-- Sizes against a contract's limits.
use signalix.Prelude.{◌≡◌, ◌↔◌, refl, true, false, none, some}
use signalix.Prelude.Int.{ℤ}
use signalix.Prelude.Text.{trim_space}
use signalix.Numbers.{is_positive}
use signalix.Numbers.Whole.{whole, scan_int}
use signalix.Models.{ContractMeta}
use signalix.Oms.{size_above_maximum}
use signalix.Oms.Validate.{parse_optional_positive, validate_size, validate_order_size}
use signalix.Oms.Validate.Sizes.{Fits, validate_order_size-Fits}

abbrev even_up_to_20 : ContractMeta
even_up_to_20 = record {
  contract = "ETH_USDT";
  quanto_multiplier = "1";
  order_size_min = "";
  order_size_max = " 20 ";
  order_price_step = "";
  order_size_step = "2";
  enable_decimal_size = false;
}

above-refused : validate_order_size whole even_up_to_20 "22" ≡ some size_above_maximum
unfolding validate_order_size validate_size parse_optional_positive trim_space scan_int
above-refused = refl

even-accepted : validate_order_size whole even_up_to_20 " 18 " ≡ none
unfolding validate_order_size validate_size parse_optional_positive trim_space scan_int
even-accepted = refl

validate_order_size-Fits_example : (validate_order_size whole even_up_to_20 " 18 " ≡ none) ↔ (
    (size : ℤ) × (whole.parse (trim_space " 18 ") ≡ some size)
    × (is_positive whole size ≡ true)
    × Fits whole even_up_to_20 size)
validate_order_size-Fits_example = validate_order_size-Fits whole even_up_to_20 " 18 "
