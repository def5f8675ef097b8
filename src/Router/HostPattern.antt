-- ===== src/Router/HostPattern.antt =====
-- The host functions of crates/pavis/src/router/matcher.rs.
use pavis.Prelude.{
  ℕ, ◌-◌, Bool, true, false, ◌&&◌, Option, none, some, length, get_elem?, ltb, ◌==◌, if◌then◌else◌,
}
use pavis.Prelude.Text.{
  Text, bytes, text_eq, starts_with, ends_with, strip_prefix, strip_suffix, split_once,
}

unfoldable pub normalize_host : Text → Text
normalize_host host =
    let plain : Text = elim (split_once b':' host) [ none ↦ host | some p ↦ p.0 ] in
    let bracketed : Text → Text =
      λ stripped. elim (split_once b']' stripped) [ none ↦ plain | some p ↦ p.0 ] in
    elim (strip_prefix host (bytes "[")) [ none ↦ plain | some stripped ↦ bracketed stripped ]

-- Whether the byte at a place is a dot; out of range the source would panic, and its guard on the
-- length comes first.
abbrev pub is_dot_at : Text → ℕ → Bool
is_dot_at s i = elim (get_elem? s i) [ none ↦ false | some c ↦ c == b'.' ]

-- The test of the loop over the wildcard hosts, on a normalised host.
abbrev pub matches_suffix : Text → Text → Bool
matches_suffix suffix h =
    ends_with h suffix
    && ltb (length suffix) (length h)
    && is_dot_at h (length h - length suffix - 1)

abbrev pub matches_prefix : Text → Text → Bool
matches_prefix prefix h =
    starts_with h prefix && ltb (length prefix) (length h) && is_dot_at h (length prefix)

abbrev pub is_some_and : (Text → Bool) → Option Text → Bool
is_some_and test none = false
is_some_and test (some h) = test h

unfoldable pub matches_wildcard : Text → Option Text → Bool
matches_wildcard pattern host =
    let other : Bool = elim (strip_suffix pattern (bytes ".*")) [
      | some prefix ↦ is_some_and (matches_prefix prefix) host
      | none ↦ is_some_and (λ h. text_eq h pattern) host
    ] in
    let starred : Bool = elim (strip_prefix pattern (bytes "*.")) [
      | some suffix ↦ is_some_and (matches_suffix suffix) host
      | none ↦ other
    ] in
    if text_eq pattern (bytes "*") then true else starred
