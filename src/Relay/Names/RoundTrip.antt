-- ===== src/Relay/Names/RoundTrip.antt =====
-- Writing the names of the files of a version and reading them.
use pavis.Prelude.{
  ℕ, zero, suc, ◌+◌, ◌-◌, ◌^◌, ◌<◌, true, false, none, some, ◌++◌, all, length, drop, ltb, ◌≡◌,
  refl, ◌∙◌, length-append, arith,
}
use pavis.Prelude.Text.{Text, bytes, ends_with, text_eq_refl}
use pavis.Prelude.Suffix.{take-append, drop-append, tail_differs, ends_with-append}
use pavis.Prelude.Decimal.{
  decimal, is_digit, value_from, value_from-decimal, all-decimal, length-decimal,
}
use pavis.Relay.Names.{
  zeros, padded, version_artifact_name, version_metadata_name, version_of, parse_version,
}

zeros_lem :
    (k : ℕ) (s : Text)
    → (value_from 0 (zeros k ++ s) ≡ value_from 0 s)
      × (all is_digit (zeros k ++ s) ≡ all is_digit s)
      × (length (zeros k ++ s) ≡ k + length s)
zeros_lem zero s = (refl, refl, omega arith)
zeros_lem (suc k) s = let (v, a, l) = zeros_lem k s in (v, a, omega (arith, l))

padded_lem :
    (version : ℕ)
    → version < 10 ^ 10
    → (value_from 0 (padded version) ≡ version)
      × (all is_digit (padded version) ≡ true)
      × (length (padded version) ≡ 10)
unfolding padded
padded_lem version b =
    let s = decimal version in
    let (v, a, l) = zeros_lem (10 - length s) s in
    let fits = length-decimal version 9 b in
    (v ∙ value_from-decimal version, a ∙ all-decimal version, l ∙ omega (arith, fits))

parse_version-append : (s suffix : Text) → parse_version (s ++ suffix) suffix ≡ version_of (some s)
unfolding parse_version
parse_version-append s suffix =
    let place : length (s ++ suffix) - length suffix ≡ length s =
      omega (arith, length-append s suffix) in
    let all_of : length suffix ≡ 0 + length suffix = omega arith in
    rw
      (
        parse_version,
        ends_with-append s suffix suffix 0 all_of,
        text_eq_refl suffix,
        place,
        take-append s suffix,
      )
      refl

version_of-padded :
    (version : ℕ) → version < 10 ^ 10 → version_of (some (padded version)) ≡ some version
version_of-padded version b =
    let (v, a, l) = padded_lem version b in
    let small : ltb version (2 ^ 64) ≡ true = ground (arith, b) in rw (l, a, v, small) refl

-- The name of an artifact does not end like that of metadata.
artifact_is_not_metadata :
    (p : Text) → length p ≡ 10 → ends_with (p ++ bytes ".pvs") (bytes ".meta.json") ≡ false
artifact_is_not_metadata p wide =
    let place : length (p ++ bytes ".pvs") - 10 ≡ 4 =
      omega (arith, length-append p (bytes ".pvs"), wide) in
    let (split, size) = drop-append 4 p (bytes ".pvs") (omega (arith, wide)) in
    let six : length (drop 4 p) ≡ length (bytes ".meta.") = omega (arith, size, wide) in
    let other = tail_differs (drop 4 p) (bytes ".meta.") (bytes ".pvs") (bytes "json") six refl in
    rw (place, split) (ground (arith, other))

-- A version of at most ten digits is read back from the name of its artifact, and from that of its
-- metadata, and neither of the two names is taken for one of the other kind.
pub parse_version-names :
    (version : ℕ)
    → version < 10 ^ 10
    → (parse_version (version_artifact_name version) (bytes ".pvs") ≡ some version)
      × (parse_version (version_metadata_name version) (bytes ".meta.json") ≡ some version)
      × (parse_version (version_metadata_name version) (bytes ".pvs") ≡ none)
      × (parse_version (version_artifact_name version) (bytes ".meta.json") ≡ none)
unfolding parse_version version_artifact_name version_metadata_name
parse_version-names version b =
    let p = padded version in
    let read = version_of-padded version b in
    let pvs = bytes ".pvs" in
    let meta = bytes ".meta.json" in
    (
      parse_version-append p pvs ∙ read,
      parse_version-append p meta ∙ read,
      rw (parse_version, ends_with-append p meta pvs 6 refl) refl,
      (let (v, a, l) = padded_lem version b in
          rw (parse_version, artifact_is_not_metadata p l) refl),
    )
