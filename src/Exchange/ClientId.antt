-- ===== src/Exchange/ClientId.antt =====
-- pkg/exchange/perp/gateio/client_id.go: Gate.io's `text` of an order, at most 30 bytes with the
-- prefix "t-". `sha256_hex` is the hexadecimal text of a SHA-256 sum, from Go's library.
pub mod Trim
pub mod RoundTrip
mod Tests
use Prim.Native.Char.{Char, char, code}
use Prim.Native.String.{String, len, slice}
use signalix.Prelude.{
  ℕ, Bool, true, false, not, ◌&&◌, ◌||◌, Option, none, some, str_eq, ltb, leb, ◌==◌, if◌then◌else◌,
}
use signalix.Prelude.Text.{trim_space}
use signalix.Exchange.{Codec}

-- strings.TrimPrefix of "t-", where HasPrefix holds
unfoldable pub tagged_body : String → Option String
tagged_body String.[] = none
tagged_body (String.◌∷◌ a String.[]) = none
tagged_body (String.◌∷◌ a (String.◌∷◌ b s)) =
    if code a == b't' && code b == b'-' then some s else none

-- `"t-" + raw`
abbrev pub tagged : String → String
tagged raw = String.◌∷◌ (char 116 tt) (String.◌∷◌ (char 45 tt) raw)

abbrev pub or_raw : Option String → String → String
or_raw none raw = raw
or_raw (some body) raw = body

-- isHexString
abbrev pub is_hex_char : Char → Bool
is_hex_char c =
    let n = code c in
    (leb b'0' n && leb n b'9') || (leb b'a' n && leb n b'f') || (leb b'A' n && leb n b'F')

unfoldable pub all_hex : String → Bool
all_hex String.[] = true
all_hex (String.◌∷◌ c s) = is_hex_char c && all_hex s

unfoldable pub is_hex_string : String → Bool
unfolding all_hex
is_hex_string s = all_hex s && not (str_eq s "")

-- What localIDFromGateText makes of the text without its prefix.
unfoldable pub local_of_body : Option String → String
unfolding is_hex_string
local_of_body none = ""
local_of_body (some body) = if len body == 28 && is_hex_string body then "" else body

-- localIDFromGateText; an empty text has no prefix either
unfoldable pub local_id_from_gate_text : String → String
unfolding local_of_body tagged_body
local_id_from_gate_text text = local_of_body (tagged_body (trim_space text))

-- LocalFromTag
unfoldable pub local_from_tag : String → String × Bool
unfolding local_id_from_gate_text
local_from_tag tag = (local_id_from_gate_text tag, not (str_eq (local_id_from_gate_text tag) ""))

module _ (sha256_hex : String → String) where
  abbrev pub shorten : String → String
  shorten raw = if ltb 28 (len raw) then slice (sha256_hex raw) 0 28 else raw

  unfoldable pub text_of : String → String
  unfolding tagged_body
  text_of raw = if str_eq raw "" then "" else tagged (shorten (or_raw (tagged_body raw) raw))

  -- normalizeGateOrderText
  unfoldable pub normalize_gate_order_text : String → String
  unfolding text_of
  normalize_gate_order_text id = text_of (trim_space id)

  abbrev pub gate_codec : Codec
  gate_codec = record {
    tag_from_local = normalize_gate_order_text;
    local_from_tag = local_from_tag;
  }
