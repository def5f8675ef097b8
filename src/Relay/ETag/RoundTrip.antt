-- ===== src/Relay/ETag/RoundTrip.antt =====
-- Writing an entity tag and reading it.
use mathlib.Core.List.{append-nil}
use pavis.Prelude.{
  ℕ, ◌+◌, ◌-◌, ◌*◌, ◌/◌, ◌%◌, ◌<◌, Bool, true, false, ◌&&◌, ◌||◌, Option, some, List, [], ◌∷◌, ◌++◌,
  length, take, drop, all, ltb, leb, ◌==◌, ◌≡◌, refl, ◌∙◌, ap, sym, inl, inr, Bool-cases, All,
  length-append, if◌then◌else◌, arith,
}
use pavis.Prelude.Text.{Text, bytes, ends_with, contains_byte}
use pavis.Prelude.Suffix.{take-append, ends_with-append}
use pavis.Pvs.{Digest, compute_checksum, to_hex}
use pavis.Relay.Runtime.{checksum_for_bytes}
use pavis.Relay.ETag.{
  trim_end, trim, is_ascii_hexdigit, lower, to_lowercase, sha256_prefix, parse_unquoted,
  parse_trimmed, parse_if_none_match, etag_from_checksum, quote_etag,
}

-- A small hexadecimal digit.
abbrev is_hex : ℕ → Bool
is_hex c = leb 48 c && leb c 57 || leb 97 c && leb c 102

hex-lower : (c : ℕ) → is_hex c ≡ true → lower c ≡ c
hex-lower c h = ground (arith, h)

hex-lowercase : (s : Text) → all is_hex s ≡ true → to_lowercase s ≡ s
hex-lowercase [] h = refl
hex-lowercase (c ∷ s) h =
    let first : is_hex c ≡ true = ground (arith, h) in
    let later : all is_hex s ≡ true = ground (arith, h) in
    ap (λ d. d ∷ to_lowercase s) (hex-lower c first) ∙ ap (λ t. c ∷ t) (hex-lowercase s later)

hex-all : (s : Text) → all is_hex s ≡ true → all is_ascii_hexdigit s ≡ true
hex-all [] h = refl
hex-all (c ∷ s) h = ground (arith, h, hex-all s)

hex-contains_byte :
    (q : ℕ) (s t : Text)
    → q < 48
    → all is_hex s ≡ true
    → contains_byte q (s ++ t) ≡ contains_byte q t
hex-contains_byte q [] t small h = refl
hex-contains_byte q (c ∷ s) t small h = ground (arith, small, h, hex-contains_byte q s t)

trim_end-append : (s : Text) → trim_end (s ++ 34 ∷ []) ≡ s ++ 34 ∷ []
trim_end-append [] = refl
trim_end-append (c ∷ []) = refl
trim_end-append (c ∷ d ∷ s) = rw (trim_end-append (d ∷ s)) refl

module _ (hex : Text) (is_hexadecimal : all is_hex hex ≡ true) (is_long : length hex ≡ 64) where
  abbrev tag : Text
  tag = sha256_prefix ++ hex

  etag_lem : etag_from_checksum tag ≡ tag
  unfolding etag_from_checksum
  etag_lem = rw (etag_from_checksum, hex-lowercase hex is_hexadecimal) refl

  parse_unquoted_lem : parse_unquoted tag ≡ some tag
  parse_unquoted_lem =
      let no_quote : contains_byte 34 hex ≡ false =
        ap (contains_byte 34) (sym (append-nil hex))
        ∙ hex-contains_byte 34 hex [] (omega arith) is_hexadecimal in
      let long : (length hex == 64) ≡ true = ground (arith, is_long) in
      rw (no_quote, long, hex-all hex is_hexadecimal, hex-lowercase hex is_hexadecimal) refl

  parse_trimmed_lem : parse_trimmed (trim (quote_etag tag)) ≡ some tag
  unfolding parse_trimmed quote_etag
  parse_trimmed_lem =
      let quoted = 34 ∷ (tag ++ 34 ∷ []) in
      let same : trim (quote_etag tag) ≡ quoted = trim_end-append (34 ∷ tag) in
      let no_comma = hex-contains_byte 44 hex (34 ∷ []) (omega arith) is_hexadecimal in
      let ends : ends_with quoted (bytes "\"") ≡ true =
        ends_with-append (34 ∷ tag) (34 ∷ []) (34 ∷ []) 0 refl in
      let many : length quoted ≡ length tag + 2 = omega (arith, length-append tag (34 ∷ [])) in
      let long : ltb (length quoted) 2 ≡ false = ground (arith, many) in
      let inside : length quoted - 2 ≡ length tag = omega (arith, many) in
      let taken : take (length tag) (drop 1 quoted) ≡ tag = take-append tag (34 ∷ []) in
      let quoted_parses : parse_trimmed quoted ≡ some tag =
        rw (parse_trimmed, no_comma, ends, long)
          (ap (λ n. parse_unquoted (take n (drop 1 quoted))) inside
            ∙ ap parse_unquoted taken
            ∙ parse_unquoted_lem) in
      rw same quoted_parses

digit-is_hex : (d : ℕ) → d < 16 → is_hex (if ltb d 10 then 48 + d else 87 + d) ≡ true
digit-is_hex d h = elim (Bool-cases (ltb d 10)) [
  | inl e ↦ rw e (ground (arith, e))
  | inr e ↦ rw e (ground (arith, e, h))
]

to_hex-all : (bs : List ℕ) → All (λ b. b < 256) bs → all is_hex (to_hex bs) ≡ true
unfolding to_hex
to_hex-all [] h = refl
to_hex-all (b ∷ bs) (small, h) =
    let high = digit-is_hex (b / 16) (omega (arith, small)) in
    let low = digit-is_hex (b % 16) (omega arith) in ground (arith, high, low, to_hex-all bs h)

length-to_hex : (bs : List ℕ) → length (to_hex bs) ≡ 2 * length bs
unfolding to_hex
length-to_hex [] = refl
length-to_hex (b ∷ bs) = omega (arith, length-to_hex bs)

-- The checksum of a digest of 32 bytes is its own tag, and the tag, as it stands in quotes in an
-- answer, is read back from a request.
pub parse_if_none_match-etag :
    (digest : Digest) (to_str : List ℕ → Option Text) (artifact : List ℕ)
    → length (compute_checksum digest artifact) ≡ 32
    → All (λ b. b < 256) (compute_checksum digest artifact)
    → let etag = etag_from_checksum (checksum_for_bytes digest artifact) in
      to_str (quote_etag etag) ≡ some (quote_etag etag)
      → (etag ≡ checksum_for_bytes digest artifact)
        × (parse_if_none_match to_str (some (quote_etag etag)) ≡ some etag)
unfolding checksum_for_bytes parse_if_none_match
parse_if_none_match-etag digest to_str artifact wide small readable =
    let sum = compute_checksum digest artifact in
    let hex = to_hex sum in
    let hexadecimal = to_hex-all sum small in
    let long : length hex ≡ 64 = omega (arith, length-to_hex sum, wide) in
    let same = etag_lem hex hexadecimal long in
    (same, rw (parse_if_none_match, readable, same) (parse_trimmed_lem hex hexadecimal long))
