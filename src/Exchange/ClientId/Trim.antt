-- ===== src/Exchange/ClientId/Trim.antt =====
-- White space around a tag, its name and a hexadecimal text.
use Prim.Native.Char.{Char}
use Prim.Native.String.{String}
use signalix.Prelude.{◌≡◌, refl, ap, true, false, some, arith}
use std.Path.{subst}
use signalix.Prelude.Text.{is_space, trim_left, trim_right, trim_space}
use signalix.Exchange.ClientId.{tagged_body, tagged, is_hex_char, all_hex}
use signalix.Prelude.Text.Trim.{trim_right-cons, trim_right-tail}

pub space_not_hex : (c : Char) → is_hex_char c ≡ true → is_space c ≡ false
unfolding is_space
space_not_hex c h = ground (arith, h)

pub trim_right-all_hex : (s : String) → all_hex s ≡ true → trim_right s ≡ s
unfolding trim_right all_hex
trim_right-all_hex String.[] h = refl
trim_right-all_hex (String.◌∷◌ c s) h =
    trim_right-cons c s (trim_right-all_hex s (ground (arith, h)))
      (rw (space_not_hex c (ground (arith, h))) refl)

pub trim_space-tagged : (s : String) → trim_right s ≡ s → trim_space (tagged s) ≡ tagged s
unfolding trim_space trim_left trim_right is_space
trim_space-tagged s h = ap tagged h

-- What follows the prefix of a trimmed text is trimmed on the right.
pub trim_right-body :
    (s body : String) → trim_right s ≡ s → tagged_body s ≡ some body → trim_right body ≡ body
unfolding tagged_body
trim_right-body String.[] body h e = absurd (cc e)
trim_right-body (String.◌∷◌ a String.[]) body h e = absurd (cc e)
trim_right-body (String.◌∷◌ a (String.◌∷◌ b s)) body h e =
    subst (λ r. trim_right r ≡ r) (ground (arith, e))
      (trim_right-tail b s (trim_right-tail a (String.◌∷◌ b s) h))
