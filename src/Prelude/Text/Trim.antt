-- ===== src/Prelude/Text/Trim.antt =====
-- Trimming twice, and what is kept.
use Prim.Native.Char.{Char}
use Prim.Native.String.{String}
use mathlib.Core.Path.{◌≡◌, refl, ap, ◌∙◌}
use mathlib.Core.Logic.{inl, inr}
use mathlib.Core.Bool.{false, ◌&&◌}
use signalix.Prelude.Tests.{Bool-cases}
use signalix.Prelude.Text.{is_space, is_empty, trim_left, trim_right, trim_space}

-- A character is kept in front of what is not blank.
pub trim_right-cons :
    (c : Char) (s : String)
    → trim_right s ≡ s
    → (is_space c && is_empty s) ≡ false
    → trim_right (String.◌∷◌ c s) ≡ String.◌∷◌ c s
unfolding trim_right
trim_right-cons c s h k = rw (h, k) refl

-- Right-trimming twice is right-trimming once.
pub trim_right-trim_right : (s : String) → trim_right (trim_right s) ≡ trim_right s
unfolding trim_right
trim_right-trim_right String.[] = refl
trim_right-trim_right (String.◌∷◌ c s) = elim (Bool-cases (is_space c && is_empty (trim_right s))) [
  | inl blank ↦ rw blank refl
  | inr kept ↦ rw kept (trim_right-cons c (trim_right s) (trim_right-trim_right s) kept)
]

pub trim_right-tail :
    (c : Char) (s : String) → trim_right (String.◌∷◌ c s) ≡ String.◌∷◌ c s → trim_right s ≡ s
unfolding trim_right
trim_right-tail c s = elim (Bool-cases (is_space c && is_empty (trim_right s))) [
  | inl blank ↦ rw blank (λ h. absurd (cc h))
  | inr kept ↦ rw kept (λ h. cc h)
]

trim_left-trim_right :
    (s : String) → trim_left (trim_right (trim_left s)) ≡ trim_right (trim_left s)
unfolding trim_left trim_right
trim_left-trim_right String.[] = refl
trim_left-trim_right (String.◌∷◌ c s) = elim (Bool-cases (is_space c)) [
  | inl blank ↦ rw blank (trim_left-trim_right s)
  | inr kept ↦ rw (kept, trim_right, kept, trim_left, kept) refl
]

pub trim_space-trim_space : (s : String) → trim_space (trim_space s) ≡ trim_space s
unfolding trim_space
trim_space-trim_space s =
    ap trim_right (trim_left-trim_right s) ∙ trim_right-trim_right (trim_left s)
