-- ===== src/Relay/ETag.antt =====
-- The entity tags of crates/pavis-relay/src/handlers.rs. Of a header value, `to_str` gives a text of
-- ASCII characters or nothing (the `http` crate, a parameter).
pub mod RoundTrip
use pavis.Prelude.{
  ℕ, zero, suc, ◌+◌, ◌-◌, Bool, true, false, not, ◌&&◌, ◌||◌, Option, none, some, List, [], ◌∷◌,
  ◌++◌, length, take, drop, all, ltb, leb, ◌==◌, if◌then◌else◌,
}
use pavis.Prelude.Text.{Text, bytes, text_eq, starts_with, ends_with, contains_byte}

-- `char::is_whitespace` of an ASCII character.
abbrev pub is_whitespace : ℕ → Bool
is_whitespace c = c == 32 || leb 9 c && leb c 13

abbrev pub trim_start : Text → Text
trim_start [] = []
trim_start (c ∷ s) = let rest = trim_start s in if is_whitespace c then rest else c ∷ s

abbrev pub trim_end : Text → Text
trim_end [] = []
trim_end (c ∷ s) = elim (trim_end s) [
  | [] ↦ if is_whitespace c then [] else c ∷ []
  | d ∷ rest ↦ c ∷ d ∷ rest
]

abbrev pub trim : Text → Text
trim s = trim_end (trim_start s)

abbrev pub is_ascii_hexdigit : ℕ → Bool
is_ascii_hexdigit c = leb 48 c && leb c 57 || (leb 65 c && leb c 70 || leb 97 c && leb c 102)

-- `to_lowercase` of an ASCII text.
abbrev pub lower : ℕ → ℕ
lower c = if leb 65 c && leb c 90 then c + 32 else c

abbrev pub to_lowercase : Text → Text
to_lowercase [] = []
to_lowercase (c ∷ s) = lower c ∷ to_lowercase s

abbrev pub sha256_prefix : Text
sha256_prefix = bytes "sha256:"

-- The tests of `parse_if_none_match` on the text between the quotes.
abbrev pub parse_unquoted : Text → Option Text
parse_unquoted unquoted =
    let hex_part = drop 7 unquoted in
    if contains_byte 34 unquoted
    then none
    else if not (starts_with unquoted sha256_prefix)
    then none
    else if not (length hex_part == 64)
    then none
    else if not (all is_ascii_hexdigit hex_part)
    then none
    else some (sha256_prefix ++ to_lowercase hex_part)

unfoldable pub parse_trimmed : Text → Option Text
parse_trimmed trimmed =
    if text_eq trimmed (bytes "*")
    then none
    else if starts_with trimmed (bytes "W/") || starts_with trimmed (bytes "w/")
    then none
    else if contains_byte 44 trimmed
    then none
    else if not (starts_with trimmed (bytes "\""))
        || (not (ends_with trimmed (bytes "\"")) || ltb (length trimmed) 2)
    then none
    else parse_unquoted (take (length trimmed - 2) (drop 1 trimmed))

unfoldable pub parse_if_none_match :
    (to_str : List ℕ → Option Text) → (value : Option (List ℕ)) → Option Text
parse_if_none_match to_str none = none
parse_if_none_match to_str (some value) = elim (to_str value) [
  | none ↦ none
  | some s ↦ parse_trimmed (trim s)
]

unfoldable pub etag_from_checksum : Text → Text
etag_from_checksum checksum =
    let normalized = to_lowercase checksum in
    if starts_with normalized sha256_prefix then normalized else sha256_prefix ++ normalized

unfoldable pub quote_etag : Text → Text
quote_etag etag = bytes "\"" ++ (etag ++ bytes "\"")
