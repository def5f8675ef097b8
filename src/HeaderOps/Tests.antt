-- ===== src/HeaderOps/Tests.antt =====
-- Headers as a list of their lines, and the theorem at them.
use pavis.Prelude.{
  none, true, ◌≢◌, ltb, length, length-append, ◌≤◌, ◌<◌, ℕ, some, List, [], ◌∷◌, ◌++◌,
  if◌then◌else◌, ◌≡◌, refl, ap, ◌∙◌, sym, inl, inr, Bool-cases, arith,
}
use mathlib.Core.Option.{some-injective}
use pavis.Prelude.Text.{Text, bytes, text_eq, text_eq→eq, text_eq_refl}
use pavis.HeaderOps.{
  HeaderMap, HeadersPolicy, enabled, is_non_joinable, build_joined_value, apply_set, apply_append,
  apply_add, apply_remove, apply_rules, stamped, apply_headers,
}
use pavis.HeaderOps.Values.{IsHeaderMap, IsBounded, expected}
use pavis.HeaderOps.PerName.{apply_headers-expected}

abbrev Lines : Type 0
Lines = List (Text × List ℕ)

abbrev get_all : Text → Lines → List (List ℕ)
get_all key [] = []
get_all key ((name, value) ∷ lines) =
    let rest = get_all key lines in if text_eq key name then value ∷ rest else rest

abbrev without : Text → Lines → Lines
without key [] = []
without key ((name, value) ∷ lines) =
    let rest = without key lines in if text_eq key name then rest else (name, value) ∷ rest

get_all-without :
    (j k : Text) (h : Lines) → get_all j (without k h) ≡ (if text_eq j k then [] else get_all j h)
get_all-without j k [] = ground arith
get_all-without j k ((name, value) ∷ lines) = elim (Bool-cases (text_eq k name)) [
  | inl e ↦ rw e (ground (arith, text_eq→eq k name e, get_all-without j k lines))
  | inr e ↦
      rw e (
        ground
          (arith, text_eq→eq j k, text_eq→eq j name, text_eq_refl j, get_all-without j k lines))
]

get_all-last :
    (j k : Text) (v : List ℕ) (h : Lines)
    → get_all j (h ++ (k, v) ∷ []) ≡ (if text_eq j k then get_all j h ++ v ∷ [] else get_all j h)
get_all-last j k v [] = refl
get_all-last j k v ((name, value) ∷ lines) = ground (arith, get_all-last j k v lines)

abbrev lines_map : HeaderMap
lines_map = record {
  Headers = Lines;
  name_from_str = λ name. some name;
  value_from_str = λ value. some value;
  value_from_bytes = λ value. some value;
  get_all = get_all;
  insert = λ key value h. some ((key, value) ∷ without key h);
  append = λ key value h. some (h ++ (key, value) ∷ []);
  remove = without;
}

lines_inserted :
    (j k : Text) (v : List ℕ) (h : Lines)
    → get_all j ((k, v) ∷ without k h) ≡ (if text_eq j k then v ∷ [] else get_all j h)
lines_inserted j k v h = elim (Bool-cases (text_eq j k)) [
  | inl e ↦ rw e (ap (λ us. v ∷ us) (get_all-without j k h ∙ rw e refl))
  | inr e ↦ rw e (get_all-without j k h ∙ rw e refl)
]

none_is_not_some : (h : Lines) → none ≢ some h
none_is_not_some h e = cc

lines_map-IsHeaderMap : IsHeaderMap lines_map
lines_map-IsHeaderMap = record {
  inserted = λ j k v h h' e.
      ap (get_all j) (sym (some-injective ((k, v) ∷ without k h) h' e)) ∙ lines_inserted j k v h;
  appended = λ j k v h h' e.
      ap (get_all j) (sym (some-injective (h ++ (k, v) ∷ []) h' e)) ∙ get_all-last j k v h;
  removed = get_all-without;
}

abbrev via : HeadersPolicy
via = enabled (record {
  set_headers = [];
  append_headers = (bytes "via", bytes "b") ∷ [];
  add_headers = (bytes "via", bytes "c") ∷ [];
  remove_headers = bytes "host" ∷ [];
})

abbrev before : Lines
before = (bytes "host", bytes "x") ∷ (bytes "via", bytes "a") ∷ []

abbrev after : Lines
after = (bytes "via", bytes "a, b") ∷ (bytes "X-Proxy-By", bytes "Pavis") ∷ []

applied : apply_headers lines_map via before ≡ some after
unfolding apply_headers stamped apply_rules apply_set apply_append apply_add apply_remove
    is_non_joinable build_joined_value
applied = refl

without_size : (k : Text) (h : Lines) → length (without k h) ≤ length h
without_size k [] = omega arith
without_size k ((name, value) ∷ lines) = ground (arith, without_size k lines)

-- A map for a hundred lines at most.
abbrev small_map : HeaderMap
small_map = record lines_map {
  insert = λ key value h. if ltb (length h) 100 then some ((key, value) ∷ without key h) else none;
  append = λ key value h. if ltb (length h) 100 then some (h ++ (key, value) ∷ []) else none;
}

small_map-IsHeaderMap : IsHeaderMap small_map
small_map-IsHeaderMap = record {
  inserted = λ j k v h h' e. elim (Bool-cases (ltb (length h) 100)) [
    | inl fits ↦ lines_map-IsHeaderMap.inserted j k v h h' (sym (rw fits refl) ∙ e)
    | inr full ↦ absurd (none_is_not_some h' (sym (rw full refl) ∙ e))
  ];
  appended = λ j k v h h' e. elim (Bool-cases (ltb (length h) 100)) [
    | inl fits ↦ lines_map-IsHeaderMap.appended j k v h h' (sym (rw fits refl) ∙ e)
    | inr full ↦ absurd (none_is_not_some h' (sym (rw full refl) ∙ e))
  ];
  removed = get_all-without;
}

has_room : (h : Lines) → length h < 100 → ltb (length h) 100 ≡ true
has_room h fits = ground arith

abbrev hundred_lines : IsBounded small_map
hundred_lines = record {
  len = length;
  limit = 100;
  can_insert = λ k v h fits.
      ((k, v) ∷ without k h, rw (has_room h fits) refl, omega (arith, without_size k h));
  can_append = λ k v h fits.
      (h ++ (k, v) ∷ [], rw (has_room h fits) refl, omega (arith, length-append h ((k, v) ∷ [])));
  remove_len = without_size;
  stamp = bytes "X-Proxy-By";
  stamp_name = refl;
  stamp_text = bytes "Pavis";
  stamp_value = refl;
}

apply_headers-expected_example :
    (h' : Lines) × (apply_headers small_map via before ≡ some h')
    × ((j : Text) → get_all j h' ≡ expected small_map j via (get_all j before))
apply_headers-expected_example =
    apply_headers-expected small_map small_map-IsHeaderMap hundred_lines via before (omega arith)
