-- ===== src/Numbers.antt =====
-- The numbers that the program takes from elsewhere: github.com/shopspring/decimal, which is not
-- part of the repository, and Go's float64. Both are parameters.
pub mod Whole
use signalix.Prelude.{◌≡◌, Bool, true, false, ◌&&◌, not, Option, none, some, String}
use signalix.Prelude.Int.{ℤ}

-- `decimal.Decimal` with the methods that the program calls, and the tests on float64.
pub record Numbers : Type 1 where
  pub Decimal : Type 0
  -- `NewFromString`: `none` is its error
  pub parse : String → Option Decimal
  -- `String`
  pub to_string : Decimal → String
  -- `decimal.Zero`, `NewFromInt`
  pub nil : Decimal
  pub from_int : ℤ → Decimal
  -- `LessThan`
  pub lt : Decimal → Decimal → Bool
  -- `Add`, `Sub`, `Mul`, `Div`, `Mod`
  pub add : Decimal → Decimal → Decimal
  pub sub : Decimal → Decimal → Decimal
  pub mul : Decimal → Decimal → Decimal
  pub div : Decimal → Decimal → Decimal
  pub remainder : Decimal → Decimal → Decimal
  -- `Floor`, `Truncate(0)`, `Abs`
  pub floor : Decimal → Decimal
  pub truncate : Decimal → Decimal
  pub abs : Decimal → Decimal
  -- float64: `<`, 0 and 1
  pub Float : Type 0
  pub lt_float : Float → Float → Bool
  pub float_zero : Float
  pub float_one : Float

module _ (num : Numbers) where
  open num use {Decimal, parse, nil, lt}

  -- `GreaterThan`, `GreaterThanOrEqual`, `LessThanOrEqual`, `Equal`
  abbrev pub gt : Decimal → Decimal → Bool
  gt a b = lt b a

  abbrev pub ge : Decimal → Decimal → Bool
  ge a b = not (lt a b)

  abbrev pub le : Decimal → Decimal → Bool
  le a b = not (lt b a)

  abbrev pub equal : Decimal → Decimal → Bool
  equal a b = not (lt a b) && not (lt b a)

  -- `IsPositive`, `Sign() > 0`; `IsNegative`, `Sign() < 0`; `IsZero`, `Sign() == 0`
  abbrev pub is_positive : Decimal → Bool
  is_positive a = lt nil a

  abbrev pub is_negative : Decimal → Bool
  is_negative a = lt a nil

  abbrev pub is_zero : Decimal → Bool
  is_zero a = equal a nil

  -- `d, _ := decimal.NewFromString(s)`: on an error the value is zero.
  abbrev pub or_nil : Option Decimal → Decimal
  or_nil none = nil
  or_nil (some d) = d

  abbrev pub parse_or_nil : String → Decimal
  parse_or_nil s = or_nil (parse s)

-- What the decimal library documents of its order: it is a strict weak order (two values may be
-- equal with different exponents), and a printed value reads back as an equal one.
pub record OrderLaws (num : Numbers) : Type 0 where
  pub lt_irrefl : (a : num.Decimal) → num.lt a a ≡ false
  pub lt_trans : (a b c : num.Decimal) → num.lt a b ≡ true → num.lt b c ≡ true → num.lt a c ≡ true
  pub le_trans :
      (a b c : num.Decimal) → num.lt b a ≡ false → num.lt c b ≡ false → num.lt c a ≡ false
  pub parse_to_string :
      (d : num.Decimal)
      → (p : num.Decimal) × (num.parse (num.to_string d) ≡ some p)
        × (num.lt p d ≡ false)
        × (num.lt d p ≡ false)
