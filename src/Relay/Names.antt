-- ===== src/Relay/Names.antt =====
-- The names of the files in `history`, crates/pavis-relay/src/storage/history.rs.
pub mod RoundTrip
use pavis.Prelude.{
  ℕ, zero, suc, ◌-◌, ◌^◌, Bool, not, ◌||◌, Option, none, some, List, [], ◌∷◌, ◌++◌, all, length,
  ltb, ◌==◌, if◌then◌else◌,
}
use pavis.Prelude.Text.{Text, bytes, ends_with, strip_suffix}
use pavis.Prelude.Decimal.{decimal, is_digit, value_from}

abbrev pub version_width : ℕ
version_width = 10

abbrev pub zeros : ℕ → Text
zeros zero = []
zeros (suc n) = 48 ∷ zeros n

-- `format!("{version:0width$}")`.
unfoldable pub padded : ℕ → Text
padded version = let digits = decimal version in zeros (version_width - length digits) ++ digits

unfoldable pub version_artifact_name : ℕ → Text
version_artifact_name version = padded version ++ bytes ".pvs"

unfoldable pub version_metadata_name : ℕ → Text
version_metadata_name version = padded version ++ bytes ".meta.json"

-- `stem.parse::<u64>().ok()` of digits.
abbrev pub parse_u64 : Text → Option ℕ
parse_u64 stem = let value = value_from 0 stem in if ltb value (2 ^ 64) then some value else none

abbrev pub version_of : Option Text → Option ℕ
version_of none = none
version_of (some stem) =
    if not (length stem == version_width) || not (all is_digit stem) then none else parse_u64 stem

unfoldable pub parse_version : Text → (suffix : Text) → Option ℕ
parse_version name suffix =
    if not (ends_with name suffix) then none else version_of (strip_suffix name suffix)
