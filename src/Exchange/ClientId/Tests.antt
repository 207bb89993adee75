-- ===== src/Exchange/ClientId/Tests.antt =====
-- Tags of concrete names, and the witnesses of the theorems on them.
use Prim.Native.String.{String, len}
use signalix.Prelude.{◌≡◌, refl, true, false, str_eq, ltb, ◌==◌, ◌&&◌, ◌||◌, if◌then◌else◌}
use signalix.Prelude.Text.{trim_space, trim_left, trim_right, is_space}
use signalix.Exchange.ClientId.{
  tagged_body, all_hex, is_hex_string, local_of_body, local_id_from_gate_text, local_from_tag,
  text_of, normalize_gate_order_text,
}
use signalix.Exchange.ClientId.RoundTrip.{IsDigest, bare, local_from_tag-normalize}

-- One sum for every text
abbrev sum : String → String
sum s = "9f86d081884c7d659a2feaa0c55ad015a3bf4f1b2b0b822cd15d6c15b0f00a08"

sum-IsDigest : IsDigest sum
unfolding all_hex
sum-IsDigest s =
    ("9f86d081884c7d659a2feaa0c55a", ("d015a3bf4f1b2b0b822cd15d6c15b0f00a08", (refl, (refl, refl))))

long_name_hashed :
    normalize_gate_order_text sum "550e8400-e29b-41d4-a716-446655440000"
    ≡ "t-9f86d081884c7d659a2feaa0c55a"
unfolding normalize_gate_order_text text_of tagged_body trim_space trim_left trim_right is_space
long_name_hashed = refl

hashed_not_read : local_from_tag "t-9f86d081884c7d659a2feaa0c55a" ≡ ("", false)
unfolding local_from_tag local_id_from_gate_text local_of_body is_hex_string all_hex tagged_body
    trim_space trim_left trim_right is_space
hashed_not_read = refl

short_name_read : local_from_tag (normalize_gate_order_text sum " abc123 ") ≡ ("abc123", true)
unfolding local_from_tag local_id_from_gate_text local_of_body is_hex_string all_hex
    normalize_gate_order_text text_of tagged_body trim_space trim_left trim_right is_space
short_name_read = refl

local_from_tag-normalize_example :
    let r = bare "550e8400-e29b-41d4-a716-446655440000" in
    local_from_tag (normalize_gate_order_text sum "550e8400-e29b-41d4-a716-446655440000") ≡ (
      if (ltb 28 (len r) || (len r == 28 && is_hex_string r)) || str_eq r ""
      then ("", false)
      else (r, true))
local_from_tag-normalize_example =
    local_from_tag-normalize sum "550e8400-e29b-41d4-a716-446655440000" sum-IsDigest
