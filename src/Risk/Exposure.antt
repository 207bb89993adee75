-- ===== src/Risk/Exposure.antt =====
-- exposure.go and notional.go of internal/domain/risk.
use signalix.Prelude.{Bool, true, false, not, ◌||◌, Option, none, some, if◌then◌else◌}
use signalix.Numbers.{Numbers, is_positive, is_zero, parse_or_nil}
use signalix.Models.{Direction, PositionSide, PositionSnapshot, Signal}

-- The switch of OpensExposure on a direction.
abbrev pub direction_opens : Direction → Bool
direction_opens Direction.long = true
direction_opens Direction.short = true
direction_opens _ = false

-- OpensExposure; a nil signal counts as opening.
unfoldable pub opens_exposure : {F : Type 0} → Option (Signal F) → Bool
opens_exposure none = true
opens_exposure (some s) = direction_opens s.direction

-- `position.Side == side` for the side of the direction; false for a closing signal.
abbrev pub same_side : Direction → PositionSide → Bool
same_side Direction.long PositionSide.long = true
same_side Direction.short PositionSide.short = true
same_side _ _ = false

module _ (num : Numbers) where
  open num use {Decimal, Float, nil, mul, div, abs}

  -- What a long or short order does to a position: it increases unless it meets an open position
  -- of the other side.
  abbrev pub increases : Direction → Option PositionSnapshot → Bool
  increases d none = true
  increases d (some p) =
      if not (is_positive num (parse_or_nil num p.size)) then true else same_side d p.side

  -- IsIncreasingExposure
  unfoldable pub is_increasing_exposure : Option (Signal Float) → Option PositionSnapshot → Bool
  is_increasing_exposure none p = false
  is_increasing_exposure (some s) p =
      if direction_opens s.direction then increases s.direction p else false

  -- ContractNotionalUSDT
  unfoldable pub contract_notional_usdt : Decimal → Decimal → Decimal → Decimal
  contract_notional_usdt size mark_price quanto_multiplier =
      if is_zero num size
        || not (is_positive num mark_price)
        || not (is_positive num quanto_multiplier)
      then nil
      else mul (mul (abs size) mark_price) quanto_multiplier

  -- LeverageRatio
  unfoldable pub leverage_ratio : Decimal → Decimal → Decimal
  leverage_ratio total_exposure equity =
      if not (is_positive num equity) then nil else div total_exposure equity
