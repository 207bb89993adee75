-- ===== src/Numbers/Whole.antt =====
-- A value of `Numbers`: the decimal library on whole numbers, with a float64 that counts hundredths.
-- It shows that what the theorems assume of the numbers can hold, and runs the tests.
mod Print
unfoldable pub use Print.{print_int, scan_int}
use Print.{scan-print_int, ltb_ℤ-irrefl, ltb_ℤ-trans, leb_ℤ-trans}
use signalix.Prelude.{ℕ, ◌+◌, ◌*◌, ◌/◌, ◌%◌, if◌then◌else◌}
use signalix.Prelude.Int.{ℤ, pos, pos_part, neg_part, sub_ℕ, ltb_ℤ}
use signalix.Numbers.{Numbers, OrderLaws}

abbrev plus : ℤ → ℤ → ℤ
plus a b = sub_ℕ (pos_part a + pos_part b) (neg_part a + neg_part b)

abbrev minus : ℤ → ℤ → ℤ
minus a b = sub_ℕ (pos_part a + neg_part b) (neg_part a + pos_part b)

abbrev times : ℤ → ℤ → ℤ
times a b =
    sub_ℕ (pos_part a * pos_part b + neg_part a * neg_part b)
      (pos_part a * neg_part b + neg_part a * pos_part b)

abbrev magnitude : ℤ → ℕ
magnitude a = pos_part a + neg_part a

-- The quotient rounds towards zero, and the remainder has the sign of the dividend.
abbrev quotient : ℤ → ℤ → ℤ
quotient a b =
    let q = magnitude a / magnitude b in if ltb_ℤ (times a b) (pos 0) then sub_ℕ 0 q else pos q

abbrev rest : ℤ → ℤ → ℤ
rest a b = let r = magnitude a % magnitude b in if ltb_ℤ a (pos 0) then sub_ℕ 0 r else pos r

abbrev pub whole : Numbers
whole = record {
  Decimal = ℤ;
  parse = scan_int;
  to_string = print_int;
  nil = pos 0;
  from_int = λ n. n;
  lt = ltb_ℤ;
  add = plus;
  sub = minus;
  mul = times;
  div = quotient;
  remainder = rest;
  floor = λ a. a;
  truncate = λ a. a;
  abs = λ a. pos (magnitude a);
  Float = ℤ;
  lt_float = ltb_ℤ;
  float_zero = pos 0;
  float_one = pos 100;
}

pub whole-OrderLaws : OrderLaws whole
whole-OrderLaws = record {
  lt_irrefl = ltb_ℤ-irrefl;
  lt_trans = ltb_ℤ-trans;
  le_trans = leb_ℤ-trans;
  parse_to_string = λ d. (d, scan-print_int d, ltb_ℤ-irrefl d, ltb_ℤ-irrefl d);
}
