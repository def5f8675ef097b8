-- ===== src/Router/Hosts.antt =====
-- What the host functions mean: the host of a `Host` header, and the hosts of a wildcard pattern.
use pavis.Prelude.{
  ℕ, zero, suc, ◌-◌, ◌<◌, true, false, ◌≡◌, ◌↔◌, refl, sym, ap, ◌∙◌, none, some, [], ◌∷◌, ◌++◌, inl,
  inr, arith, Option-cases, length, take, drop, get_elem?, length-append, take-append-drop, ltb,
  leb,
}
use pavis.Prelude.Text.{
  Text, bytes, text_eq, text_eq→eq, text_eq_refl, starts_with, strip_prefix, strip_suffix,
  split_once, contains_byte,
}
use pavis.Router.HostPattern.{
  normalize_host, is_dot_at, matches_suffix, matches_prefix, matches_wildcard,
}

split_once_absent : (c : ℕ) (s : Text) → contains_byte c s ≡ false → split_once c s ≡ none
split_once_absent c [] h = refl
split_once_absent c (a ∷ s) h = ground (arith, split_once_absent c s)

split_once_first :
    (c : ℕ) (s rest : Text)
    → contains_byte c s ≡ false
    → split_once c (s ++ c ∷ rest) ≡ some (s, rest)
split_once_first c [] rest h = ground arith
split_once_first c (a ∷ s) rest h = ground (arith, split_once_first c s rest)

-- A name without a colon that does not begin with a bracket is its own host, and so it is with a
-- colon and a port behind it.
pub normalize_host-name :
    (name port : Text)
    → contains_byte b':' name ≡ false
    → starts_with name (bytes "[") ≡ false
    → (normalize_host name ≡ name) × (normalize_host (name ++ b':' ∷ port) ≡ name)
unfolding normalize_host
normalize_host-name [] port h k = (refl, refl)
normalize_host-name (a ∷ name) port h k = (
  ground (arith, split_once_absent b':' (a ∷ name) h),
  ground (arith, split_once_first b':' (a ∷ name) port h),
)

-- What stands between a bracket at the start and the first closing one is the host, whatever follows.
pub normalize_host-bracketed :
    (address rest : Text)
    → contains_byte b']' address ≡ false
    → normalize_host (b'[' ∷ (address ++ b']' ∷ rest)) ≡ address
unfolding normalize_host
normalize_host-bracketed address rest h = rw (split_once_first b']' address rest h, normalize_host)

drop-get_elem? : (s : Text) (n : ℕ) (c : ℕ) → get_elem? s n ≡ some c → drop n s ≡ c ∷ drop (suc n) s
drop-get_elem? [] n c e = cc
drop-get_elem? (a ∷ s) zero c e = ground arith
drop-get_elem? (a ∷ s) (suc n) c e = drop-get_elem? s n c e

drop_behind : (s t : Text) (c : ℕ) → drop (suc (length s)) (s ++ c ∷ t) ≡ t
drop_behind [] t c = refl
drop_behind (a ∷ s) t c = drop_behind s t c

get_elem?-append : (s t : Text) (c : ℕ) → get_elem? (s ++ c ∷ t) (length s) ≡ some c
get_elem?-append [] t c = refl
get_elem?-append (a ∷ s) t c = get_elem?-append s t c

is_dot_at-append : (s t : Text) → is_dot_at (s ++ b'.' ∷ t) (length s) ≡ true
is_dot_at-append s t = rw (get_elem?-append s t b'.', is_dot_at)

is_dot_at→eq : (s : Text) (n : ℕ) → is_dot_at s n ≡ true → get_elem? s n ≡ some b'.'
is_dot_at→eq s n e = elim (Option-cases (get_elem? s n)) [
  | inl absent ↦ absurd (ground arith)
  | inr (c, found) ↦ ground arith
]

matches_suffix→append :
    (suffix h : Text)
    → matches_suffix suffix h ≡ true
    → (label : Text) × (h ≡ label ++ b'.' ∷ suffix)
matches_suffix→append suffix h e =
    let n = length h - length suffix - 1 in
    let shorter : length suffix < length h = ground arith in
    let at_end : drop (length h - length suffix) h ≡ suffix = text_eq→eq _ suffix (ground arith) in
    let dot : get_elem? h n ≡ some b'.' = is_dot_at→eq h n (ground arith) in
    let next : suc n ≡ length h - length suffix = omega arith in
    let tail : drop n h ≡ b'.' ∷ suffix =
      drop-get_elem? h n b'.' dot ∙ ap (λ t. b'.' ∷ t) (ap (λ k. drop k h) next ∙ at_end) in
    (take n h, sym (take-append-drop n h) ∙ ap (λ t. take n h ++ t) tail)

append→matches_suffix :
    (suffix label : Text) → matches_suffix suffix (label ++ b'.' ∷ suffix) ≡ true
append→matches_suffix suffix label =
    let len = length-append label (b'.' ∷ suffix) in
    let whole = label ++ b'.' ∷ suffix in
    let behind : length whole - length suffix ≡ suc (length label) = omega (arith, len) in
    let dot : length whole - length suffix - 1 ≡ length label = omega (arith, len) in
    let at_end : text_eq (drop (length whole - length suffix) whole) suffix ≡ true =
      rw (behind, drop_behind label suffix b'.') (text_eq_refl suffix) in
    let dotted : is_dot_at whole (length whole - length suffix - 1) ≡ true =
      rw dot (is_dot_at-append label suffix) in
    let longer : ltb (length suffix) (length whole) ≡ true = ground (arith, len) in
    let fits : leb (length suffix) (length whole) ≡ true = ground (arith, len) in
    rw (fits, at_end, longer, dotted) refl

-- A pattern that begins with "*." takes exactly the hosts that end with a dot and what follows the
-- "*." in the pattern.
pub matches_wildcard-suffix :
    (suffix h : Text)
    → (matches_wildcard (b'*' ∷ b'.' ∷ suffix) (some h) ≡ true)
      ↔ ((label : Text) × (h ≡ label ++ b'.' ∷ suffix))
unfolding matches_wildcard
matches_wildcard-suffix suffix h =
    (matches_suffix→append suffix h, λ found. rw found.1 (append→matches_suffix suffix found.0))

starts_with→append :
    (h prefix : Text) → starts_with h prefix ≡ true → h ≡ prefix ++ drop (length prefix) h
starts_with→append h [] e = refl
starts_with→append [] (p ∷ prefix) e = cc
starts_with→append (a ∷ h) (p ∷ prefix) e = ground (arith, starts_with→append h prefix)

append→starts_with : (prefix rest : Text) → starts_with (prefix ++ rest) prefix ≡ true
append→starts_with [] rest = refl
append→starts_with (p ∷ prefix) rest = ground (arith, append→starts_with prefix rest)

matches_prefix→append :
    (prefix h : Text) → matches_prefix prefix h ≡ true → (rest : Text) × (h ≡ prefix ++ b'.' ∷ rest)
matches_prefix→append prefix h e =
    let n = length prefix in
    let dot : get_elem? h n ≡ some b'.' = is_dot_at→eq h n (ground arith) in
    let begins : starts_with h prefix ≡ true = ground arith in
    (
      drop (suc n) h,
      starts_with→append h prefix begins ∙ ap (λ t. prefix ++ t) (drop-get_elem? h n b'.' dot),
    )

append→matches_prefix : (prefix rest : Text) → matches_prefix prefix (prefix ++ b'.' ∷ rest) ≡ true
append→matches_prefix prefix rest =
    let len = length-append prefix (b'.' ∷ rest) in
    let whole = prefix ++ b'.' ∷ rest in
    let longer : ltb (length prefix) (length whole) ≡ true = ground (arith, len) in
    rw (append→starts_with prefix (b'.' ∷ rest), longer) (is_dot_at-append prefix rest)

drop-append_length : (s t : Text) → drop (length s) (s ++ t) ≡ t
drop-append_length [] t = refl
drop-append_length (a ∷ s) t = drop-append_length s t

take-append_length : (s t : Text) → take (length s) (s ++ t) ≡ s
take-append_length [] t = refl
take-append_length (a ∷ s) t = ap (λ r. a ∷ r) (take-append_length s t)

strip_suffix-append :
    (prefix : Text) → strip_suffix (prefix ++ bytes ".*") (bytes ".*") ≡ some prefix
strip_suffix-append prefix =
    let n : length (prefix ++ bytes ".*") - 2 ≡ length prefix =
      omega (arith, length-append prefix (bytes ".*")) in
    let fits : leb 2 (length (prefix ++ bytes ".*")) ≡ true =
      ground (arith, length-append prefix (bytes ".*")) in
    rw (fits, n, drop-append_length prefix (bytes ".*"), take-append_length prefix (bytes ".*"))
      refl

not_star : (prefix : Text) → text_eq (prefix ++ bytes ".*") (bytes "*") ≡ false
not_star [] = refl
not_star (a ∷ []) = ground arith
not_star (a ∷ b ∷ prefix) = ground arith

matches_wildcard_lem :
    (prefix h : Text)
    → strip_prefix (prefix ++ bytes ".*") (bytes "*.") ≡ none
    → matches_wildcard (prefix ++ bytes ".*") (some h) ≡ matches_prefix prefix h
unfolding matches_wildcard
matches_wildcard_lem prefix h e = rw (not_star prefix, e, strip_suffix-append prefix) refl

-- A pattern that ends with ".*" and does not begin with "*." takes exactly the hosts that begin
-- with what precedes the ".*" in the pattern and a dot.
pub matches_wildcard-prefix :
    (prefix h : Text)
    → strip_prefix (prefix ++ bytes ".*") (bytes "*.") ≡ none
    → (matches_wildcard (prefix ++ bytes ".*") (some h) ≡ true)
      ↔ ((rest : Text) × (h ≡ prefix ++ b'.' ∷ rest))
matches_wildcard-prefix prefix h e =
    let same = matches_wildcard_lem prefix h e in
    (
      (λ m. matches_prefix→append prefix h (sym same ∙ m)),
      (λ found. same ∙ rw found.1 (append→matches_prefix prefix found.0)),
    )
