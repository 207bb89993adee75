-- ===== src/Exchange/ClientId/RoundTrip.antt =====
-- Reading a tag back.
use Prim.Native.String.{String, len, slice, ◌++◌}
use Prim.Native.String.len.{cons}
use text.Mathlib.TextPositions.{slice-append_left}
use signalix.Prelude.{
  ◌≤◌, ◌≡◌, ◌≢◌, refl, sym, ap, ◌∙◌, inl, inr, Bool, true, false, not, ◌&&◌, ◌||◌, str_eq, eq_iff,
  ltb, ◌==◌, arith, Bool-cases, Option-cases, if◌then◌else◌,
}
use signalix.Prelude.Text.Trim.{trim_right-trim_right}
use signalix.Prelude.Text.{trim_left, trim_right, trim_space}
use signalix.Exchange.{IsCodec}
use signalix.Exchange.ClientId.{
  tagged_body, tagged, or_raw, all_hex, is_hex_string, local_of_body, local_id_from_gate_text,
  local_from_tag, text_of, shorten, normalize_gate_order_text, gate_codec,
}
use signalix.Exchange.ClientId.Trim.{trim_right-all_hex, trim_space-tagged, trim_right-body}

-- A hexadecimal text of 64 digits begins with 28 of them.
abbrev pub IsDigest : (String → String) → Type 0
IsDigest sha256_hex =
    (s : String)
    → (h : String) × ((t : String) × ((sha256_hex s ≡ h ++ t)
          × ((len h ≡ 28) × (all_hex h ≡ true))))

read_back :
    (lost : Bool) (r : String)
    → let l = if lost then "" else r in
      Path
        (String × Bool)
        (l, not (str_eq l ""))
        (if lost || str_eq r "" then ("", false) else (r, true))
read_back true r = refl
read_back false r = elim (Bool-cases (str_eq r "")) [
  | inl blank ↦ rw (blank, (eq_iff r "").0 blank) refl
  | inr named ↦ rw named refl
]

local_of_empty : local_of_body (tagged_body (trim_space "")) ≡ ""
unfolding local_of_body tagged_body trim_space trim_left trim_right
local_of_empty = refl

-- The name that the tag carries or hashes: without white space around it and without the prefix
abbrev pub bare : String → String
bare id = or_raw (tagged_body (trim_space id)) (trim_space id)

module _ (sha256_hex : String → String) where
  shorten_hashed :
      (raw : String)
      → IsDigest sha256_hex
      → ltb 28 (len raw) ≡ true
      → (len (shorten sha256_hex raw) ≡ 28) × (all_hex (shorten sha256_hex raw) ≡ true)
  shorten_hashed raw d long = rw long (hashed (sha256_hex raw) (d raw))
    where
      hashed :
          (sum : String)
          → (h : String) × ((t : String) × ((sum ≡ h ++ t) × ((len h ≡ 28) × (all_hex h ≡ true))))
          → (len (slice sum 0 28) ≡ 28) × (all_hex (slice sum 0 28) ≡ true)
      hashed sum (h, (t, (e, (l, x)))) =
          let cut =
            (ap (λ u. slice u 0 28) e ∙ ap (slice (h ++ t) 0) (sym l) ∙ slice-append_left h t) in
          (ap len cut ∙ l, ap all_hex cut ∙ x)

  shorten_short : (raw : String) → ltb 28 (len raw) ≡ false → shorten sha256_hex raw ≡ raw
  shorten_short raw short = rw short refl

  trim_right-shorten :
      (raw : String)
      → IsDigest sha256_hex
      → trim_right raw ≡ raw
      → trim_right (shorten sha256_hex raw) ≡ shorten sha256_hex raw
  trim_right-shorten raw d h = elim (Bool-cases (ltb 28 (len raw))) [
    | inl long ↦ trim_right-all_hex (shorten sha256_hex raw) (shorten_hashed raw d long).1
    | inr short ↦ rw short h
  ]

  trim_right-bare : (id : String) → trim_right (bare id) ≡ bare id
  unfolding trim_space
  trim_right-bare id = elim (Option-cases (tagged_body (trim_space id))) [
    | inl plain ↦ rw plain (trim_right-trim_right (trim_left id))
    | inr (body, prefixed) ↦
        rw prefixed
          (trim_right-body (trim_space id) body (trim_right-trim_right (trim_left id)) prefixed)
  ]

  trim_space-normalize :
      (id : String)
      → IsDigest sha256_hex
      → trim_space (normalize_gate_order_text sha256_hex id)
        ≡ normalize_gate_order_text sha256_hex id
  unfolding normalize_gate_order_text text_of trim_space trim_left trim_right
  trim_space-normalize id d = elim (Bool-cases (str_eq (trim_space id) "")) [
    | inl blank ↦ rw (blank, text_of) refl
    | inr named ↦
        rw (named, text_of)
          (trim_space-tagged (shorten sha256_hex (bare id))
            (trim_right-shorten (bare id) d (trim_right-bare id)))
  ]

  shortened_is_hex :
      (raw : String)
      → IsDigest sha256_hex
      → ltb 28 (len raw) ≡ true
      → (len (shorten sha256_hex raw) == 28 && is_hex_string (shorten sha256_hex raw)) ≡ true
  unfolding is_hex_string
  shortened_is_hex raw d long =
      let x = shorten sha256_hex raw in
      let s = shorten_hashed raw d long in
      elim (Bool-cases (str_eq x "")) [
        | inl blank ↦ absurd (omega (arith, s.0, ap len ((eq_iff x "").0 blank)))
        | inr full ↦ rw (s.0, s.1, full) refl
      ]

  len-shorten : (raw : String) → IsDigest sha256_hex → len (shorten sha256_hex raw) ≤ 28
  len-shorten raw d = elim (Bool-cases (ltb 28 (len raw))) [
    | inl long ↦ omega (arith, (shorten_hashed raw d long).0)
    | inr short ↦ rw short (ground (arith, short))
  ]

  -- What is read back from a tag that was made of `raw`
  local_of_shorten :
      (raw : String)
      → IsDigest sha256_hex
      → trim_right raw ≡ raw
      → local_id_from_gate_text (tagged (shorten sha256_hex raw))
        ≡ (if ltb 28 (len raw) || (len raw == 28 && is_hex_string raw) then "" else raw)
  unfolding local_id_from_gate_text local_of_body tagged_body
  local_of_shorten raw d h =
      ap (λ t. local_of_body (tagged_body t))
        (trim_space-tagged (shorten sha256_hex raw) (trim_right-shorten raw d h))
      ∙ elim (Bool-cases (ltb 28 (len raw))) [
        | inl long ↦ rw (shortened_is_hex raw d long, long) refl
        | inr short ↦ rw short refl
      ]

  -- Where 64 hexadecimal digits are what SHA-256 gives: the tag of a name, read back, is the name
  -- without surrounding white space and without the prefix, unless that is empty, longer than 28
  -- bytes, or itself 28 hexadecimal digits; then no name is read.
  pub local_from_tag-normalize :
      (id : String)
      → IsDigest sha256_hex
      → let r = bare id in
        local_from_tag (normalize_gate_order_text sha256_hex id) ≡ (
          if (ltb 28 (len r) || (len r == 28 && is_hex_string r)) || str_eq r ""
          then ("", false)
          else (r, true))
  unfolding local_from_tag normalize_gate_order_text text_of
  local_from_tag-normalize id d = elim (Bool-cases (str_eq (trim_space id) "")) [
    | inl blank ↦ rw ((eq_iff (trim_space id) "").0 blank) (rw local_of_empty refl)
    | inr named ↦
        rw (named, text_of)
          (ap (λ l. (l, not (str_eq l ""))) (local_of_shorten (bare id) d (trim_right-bare id))
            ∙ read_back (ltb 28 (len (bare id)) || (len (bare id) == 28 && is_hex_string (bare id)))
                (bare id))
  ]

  -- Where 64 hexadecimal digits are what SHA-256 gives, a tag has at most 30 bytes, whatever the
  -- name.
  pub len-normalize :
      (id : String) → IsDigest sha256_hex → len (normalize_gate_order_text sha256_hex id) ≤ 30
  unfolding normalize_gate_order_text text_of
  len-normalize id d = elim (Bool-cases (str_eq (trim_space id) "")) [
    | inl blank ↦ rw (blank, text_of) (omega arith)
    | inr named ↦ rw (named, text_of) (rw (cons, cons) (omega (arith, len-shorten (bare id) d)))
  ]

local_from_tag_named : (tag : String) → (local_from_tag tag).1 ≡ true → (local_from_tag tag).0 ≢ ""
unfolding local_from_tag
local_from_tag_named tag h e = absurd (cc (h, (eq_iff (local_id_from_gate_text tag) "").1 e))

pub gate_codec-IsCodec :
    (sha256_hex : String → String) → IsDigest sha256_hex → IsCodec (gate_codec sha256_hex)
gate_codec-IsCodec sha256_hex d = record {
  trimmed = λ id. trim_space-normalize sha256_hex id d;
  named = local_from_tag_named;
}
