-- ===== src/Numbers/Whole/Print.antt =====
-- Whole numbers printed in decimal and read back, and the order laws of the integers.
use Prim.Native.Char.{Char, code}
use signalix.Prelude.{
  ℕ, zero, suc, ◌+◌, ◌-◌, ◌*◌, ◌/◌, ◌%◌, ◌<◌, ◌≡◌, refl, Bool, true, false, ◌&&◌, Option, none,
  some, String, ltb, leb, ◌==◌, if◌then◌else◌, arith, inl, inr, Bool-cases, ap, ◌∙◌,
}
use signalix.Prelude.Int.{ℤ, pos, negsuc, ltb_ℤ}

digit_char : ℕ → Char
digit_char zero = "0"
digit_char (suc zero) = "1"
digit_char (suc (suc zero)) = "2"
digit_char (suc (suc (suc zero))) = "3"
digit_char (suc (suc (suc (suc zero)))) = "4"
digit_char (suc (suc (suc (suc (suc zero))))) = "5"
digit_char (suc (suc (suc (suc (suc (suc zero)))))) = "6"
digit_char (suc (suc (suc (suc (suc (suc (suc zero))))))) = "7"
digit_char (suc (suc (suc (suc (suc (suc (suc (suc zero)))))))) = "8"
digit_char _ = "9"

code-digit_char : (n : ℕ) → n < 10 → code (digit_char n) ≡ n + 48
unfolding digit_char
code-digit_char zero h = refl
code-digit_char (suc zero) h = refl
code-digit_char (suc (suc zero)) h = refl
code-digit_char (suc (suc (suc zero))) h = refl
code-digit_char (suc (suc (suc (suc zero)))) h = refl
code-digit_char (suc (suc (suc (suc (suc zero))))) h = refl
code-digit_char (suc (suc (suc (suc (suc (suc zero)))))) h = refl
code-digit_char (suc (suc (suc (suc (suc (suc (suc zero))))))) h = refl
code-digit_char (suc (suc (suc (suc (suc (suc (suc (suc zero)))))))) h = refl
code-digit_char (suc (suc (suc (suc (suc (suc (suc (suc (suc zero))))))))) h = refl
code-digit_char (suc (suc (suc (suc (suc (suc (suc (suc (suc (suc n)))))))))) h =
    absurd (omega arith)

pub print_from : ℕ → ℕ → String → String
print_from zero n out = out
print_from (suc f) n out =
    let rest = print_from f (n / 10) (String.◌∷◌ (digit_char (n % 10)) out) in
    if ltb n 10 then String.◌∷◌ (digit_char n) out else rest

pub scan_from : String → ℕ → Option ℕ
scan_from String.[] n = some n
scan_from (String.◌∷◌ c s) n =
    let rest = scan_from s (n * 10 + (code c - 48)) in
    if leb 48 (code c) && leb (code c) 57 then rest else none

scan_from-digit :
    (d n : ℕ) (s : String)
    → d < 10
    → scan_from (String.◌∷◌ (digit_char d) s) n ≡ scan_from s (n * 10 + d)
unfolding scan_from
scan_from-digit d n s h =
    let e : code (digit_char d) ≡ d + 48 = code-digit_char d h in
    let k : d + 48 - 48 ≡ d = omega arith in rw (e, k) (ground arith)

pub scan-print_from :
    (f n : ℕ) (out : String) → n < f → scan_from (print_from f n out) 0 ≡ scan_from out n
unfolding print_from
scan-print_from zero n out h = elim h [ ]
scan-print_from (suc f) n out h = elim (Bool-cases (ltb n 10)) [
  | inl small ↦
      rw small (rw (scan_from-digit n 0 out (ground arith)) (ap (scan_from out) (omega arith)))
  | inr large ↦ rw large (
      scan-print_from f (n / 10) (String.◌∷◌ (digit_char (n % 10)) out) (ground arith)
      ∙ scan_from-digit (n % 10) (n / 10) out (omega arith)
      ∙ ap (scan_from out) (omega arith))
]

-- The printed number begins with a digit.
print_from-head :
    (f n : ℕ) (out : String)
    → (d : ℕ) × (s : String) × (d < 10) × (print_from (suc f) n out ≡ String.◌∷◌ (digit_char d) s)
unfolding print_from
print_from-head zero n out = elim (Bool-cases (ltb n 10)) [
  | inl small ↦ (n, out, ground arith, rw small)
  | inr large ↦ (n % 10, out, omega arith, rw large)
]
print_from-head (suc f) n out = elim (Bool-cases (ltb n 10)) [
  | inl small ↦ (n, out, ground arith, rw small)
  | inr large ↦
      let (d, s, h, e) = print_from-head f (n / 10) (String.◌∷◌ (digit_char (n % 10)) out) in
      (d, s, h, rw large e)
]

abbrev is_minus : Char → Bool
is_minus c = code c == 45

scan_digits : String → Option ℕ
scan_digits String.[] = none
scan_digits (String.◌∷◌ c s) = scan_from (String.◌∷◌ c s) 0

abbrev signed : Option ℕ → Option ℤ
signed none = none
signed (some n) = some (pos n)

abbrev negated : Option ℕ → Option ℤ
negated none = none
negated (some zero) = some (pos 0)
negated (some (suc n)) = some (negsuc n)

unfoldable pub scan_int : String → Option ℤ
unfolding scan_digits scan_from
scan_int String.[] = none
scan_int (String.◌∷◌ c s) =
    if is_minus c then negated (scan_digits s) else signed (scan_digits (String.◌∷◌ c s))

abbrev print_ℕ : ℕ → String
print_ℕ n = print_from (suc n) n String.[]

unfoldable pub print_int : ℤ → String
unfolding print_from digit_char
print_int (pos n) = print_ℕ n
print_int (negsuc n) = String.◌∷◌ "-" (print_ℕ (suc n))

scan-print_ℕ : (n : ℕ) → scan_digits (print_ℕ n) ≡ some n
scan-print_ℕ n =
    let (d, s, h, e) = print_from-head n n String.[] in
    let whole : scan_from (String.◌∷◌ (digit_char d) s) 0 ≡ some n =
      rw (← e) (unfold scan_from in scan-print_from (suc n) n String.[] (omega arith)) in
    rw e (unfold scan_digits in whole)

-- A text that begins with a digit has no sign.
scan_int-digit :
    (d : ℕ) (s : String)
    → d < 10
    → scan_int (String.◌∷◌ (digit_char d) s) ≡ signed (scan_digits (String.◌∷◌ (digit_char d) s))
unfolding scan_int
scan_int-digit d s h =
    let e : code (digit_char d) ≡ d + 48 = code-digit_char d h in
    let k : is_minus (digit_char d) ≡ false = rw e (ground arith) in rw k

scan_int-minus : (s : String) → scan_int (String.◌∷◌ "-" s) ≡ negated (scan_digits s)
unfolding scan_int
scan_int-minus s = refl

pub scan-print_int : (a : ℤ) → scan_int (print_int a) ≡ some a
unfolding print_int
scan-print_int (pos n) =
    let (d, s, h, e) = print_from-head n n String.[] in
    let digits : scan_digits (String.◌∷◌ (digit_char d) s) ≡ some n = rw (← e) (scan-print_ℕ n) in
    rw e (scan_int-digit d s h ∙ ap signed digits)
scan-print_int (negsuc n) = scan_int-minus (print_ℕ (suc n)) ∙ ap negated (scan-print_ℕ (suc n))

pub ltb_ℤ-irrefl : (a : ℤ) → ltb_ℤ a a ≡ false
ltb_ℤ-irrefl a = ground arith

pub ltb_ℤ-trans : (a b c : ℤ) → ltb_ℤ a b ≡ true → ltb_ℤ b c ≡ true → ltb_ℤ a c ≡ true
ltb_ℤ-trans a b c h k = ground arith

pub leb_ℤ-trans : (a b c : ℤ) → ltb_ℤ b a ≡ false → ltb_ℤ c b ≡ false → ltb_ℤ c a ≡ false
leb_ℤ-trans a b c h k = ground arith
