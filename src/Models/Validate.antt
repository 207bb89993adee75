-- ===== src/Models/Validate.antt =====
-- Signal.Validate of internal/models/signal.go, with the errors of internal/models/errors.go.
use signalix.Prelude.{
  Bool, true, false, ◌||◌, not, Option, none, some, String, str_eq, if◌then◌else◌,
}
use signalix.Numbers.{Numbers, le, parse_or_nil}
use signalix.Models.{Direction, SizingMode, Signal}

pub data SignalError : Type 0 where
  invalid_symbol invalid_direction invalid_strength invalid_price : SignalError
  invalid_sizing_mode invalid_value : SignalError

abbrev pub known_direction : Direction → Bool
known_direction (Direction.other _) = false
known_direction _ = true

abbrev pub known_mode : Option SizingMode → Bool
known_mode (some (SizingMode.other _)) = false
known_mode _ = true

module _ (num : Numbers) where
  open num use {Float, lt_float, float_zero, float_one, nil}

  -- The test on an optional price or value: present, and not above zero. A text that is no number
  -- reads as zero.
  abbrev pub present_not_positive : Option String → Bool
  present_not_positive none = false
  present_not_positive (some s) = le num (parse_or_nil num s) nil

  -- `none` is a nil error.
  unfoldable pub validate : Signal Float → Option SignalError
  validate s =
      if str_eq s.symbol ""
      then some invalid_symbol
      else if not (known_direction s.direction)
      then some invalid_direction
      else if lt_float s.strength float_zero || lt_float float_one s.strength
      then some invalid_strength
      else if present_not_positive s.price
      then some invalid_price
      else if not (known_mode s.sizing_mode)
      then some invalid_sizing_mode
      else if present_not_positive s.value
      then some invalid_value
      else none
