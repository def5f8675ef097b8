-- ===== src/HeaderOps/Steps.antt =====
-- What one rule does to the values of one name.
use mathlib.Core.Option.{some-injective}
use pavis.Prelude.{
  ℕ, Bool, true, false, Option, none, some, List, [], ◌∷◌, ◌++◌, if◌then◌else◌, ◌≡◌, refl, sym, ap,
  ◌∙◌, inl, inr, Bool-cases, map, ◌==◌, ◌&&◌, arith,
}
use pavis.Prelude.Text.{Text, bytes, text_eq, text_eq→eq}
use pavis.HeaderOps.{
  HeaderMap, lower, eq_ignore_ascii_case, is_non_joinable, build_joined_value, ◌>>=◌, joined_behind,
  set_parsed, replaced, append_to, append_parsed, values_of, add_to, remove_parsed, stamp_parsed,
}
use pavis.HeaderOps.Values.{
  IsHeaderMap, Values, is_set_cookie, with_commas, set_value, valid_or, with_value, append_value,
  add_value, remove_value,
}

ignore_case_lem : (s t : Text) → eq_ignore_ascii_case s t ≡ text_eq (map lower s) (map lower t)
ignore_case_lem [] [] = refl
ignore_case_lem [] (b ∷ t) = refl
ignore_case_lem (a ∷ s) [] = refl
ignore_case_lem (a ∷ s) (b ∷ t) = ap (λ r. lower a == lower b && r) (ignore_case_lem s t)

pub is_non_joinable_lem : (name : Text) → is_non_joinable name ≡ is_set_cookie name
unfolding is_non_joinable
is_non_joinable_lem name =
    let same = ignore_case_lem name (bytes "set-cookie") in ground (arith, same)

joined_lem :
    (v : List ℕ) (vs : Values) (val : List ℕ)
    → v ++ joined_behind vs val ≡ with_commas (v ∷ vs ++ val ∷ [])
joined_lem v [] val = refl
joined_lem v (w ∷ vs) val = ap (λ r. v ++ 44 ∷ 32 ∷ r) (joined_lem w vs val)

module _ (http : HeaderMap) (law : IsHeaderMap http) (j : Text) where
  pub set_parsed_lem :
      (rule : Option (Text × List ℕ)) (h h' : http.Headers)
      → set_parsed http rule h ≡ some h'
      → http.get_all j h' ≡ set_value http j rule (http.get_all j h)
  set_parsed_lem none h h' e = ap (http.get_all j) (sym (some-injective h h' e))
  set_parsed_lem (some (key, val)) h h' e = law.inserted j key val h h' e

  pub stamp_parsed_lem :
      (rule : Option (Text × List ℕ)) (h h' : http.Headers)
      → stamp_parsed http rule h ≡ some h'
      → http.get_all j h' ≡ set_value http j rule (http.get_all j h)
  stamp_parsed_lem none h h' e = cc
  stamp_parsed_lem (some (key, val)) h h' e = law.inserted j key val h h' e

  replaced_lem :
      (key : Text) (joined : Option (List ℕ)) (h h' : http.Headers) (vs : Values)
      → http.get_all key h ≡ vs
      → replaced http key joined h ≡ some h'
      → http.get_all j h' ≡ (if text_eq j key then valid_or http j joined vs else http.get_all j h)
  replaced_lem key none h h' vs own e =
      let same : http.get_all j h' ≡ http.get_all j h =
        ap (http.get_all j) (sym (some-injective h h' e)) in
      elim (Bool-cases (text_eq j key)) [
        | inl k ↦ rw k (same ∙ ap (λ n. http.get_all n h) (text_eq→eq j key k) ∙ own)
        | inr k ↦ rw k same
      ]
  replaced_lem key (some joined) h h' vs own e =
      law.inserted j key joined (http.remove key h) h' e ∙ elim (Bool-cases (text_eq j key)) [
        | inl k ↦ rw k refl
        | inr k ↦ rw k (law.removed j key h ∙ rw k refl)
      ]

  append_to_lem :
      (non_joinable : Bool) (key : Text) (val : List ℕ) (vs : Values) (h h' : http.Headers)
      → http.get_all key h ≡ vs
      → append_to http non_joinable key val vs h ≡ some h'
      → http.get_all j h'
        ≡ (if text_eq j key then with_value http j non_joinable val vs else http.get_all j h)
  unfolding build_joined_value
  append_to_lem true key val vs h h' own e =
      law.appended j key val h h' e ∙ elim (Bool-cases (text_eq j key)) [
        | inl k ↦
            rw k (ap (λ us. us ++ val ∷ []) (ap (λ n. http.get_all n h) (text_eq→eq j key k) ∙ own))
        | inr k ↦ rw k refl
      ]
  append_to_lem false key val [] h h' own e = law.inserted j key val h h' e
  append_to_lem false key val (v ∷ vs) h h' own e =
      replaced_lem key (http.value_from_bytes (v ++ joined_behind vs val)) h h' (v ∷ vs) own e
      ∙ ap
          (λ buffer.
            if text_eq j key
            then valid_or http j (http.value_from_bytes buffer) (v ∷ vs)
            else http.get_all j h)
          (joined_lem v vs val)

  pub append_parsed_lem :
      (non_joinable : Bool) (rule : Option (Text × List ℕ)) (h h' : http.Headers)
      → append_parsed http non_joinable rule h ≡ some h'
      → http.get_all j h' ≡ append_value http j non_joinable rule (http.get_all j h)
  append_parsed_lem non_joinable none h h' e = ap (http.get_all j) (sym (some-injective h h' e))
  append_parsed_lem non_joinable (some (key, val)) h h' e =
      append_to_lem non_joinable key val (http.get_all key h) h h' refl e
      ∙ elim (Bool-cases (text_eq j key)) [
        | inl k ↦ rw k (
            ap (λ n. with_value http j non_joinable val (http.get_all n h))
              (sym (text_eq→eq j key k)))
        | inr k ↦ rw k refl
      ]

  abbrev pub paired : Option Text → Option (List ℕ) → Option (Text × List ℕ)
  paired name value = name >>= λ key. value >>= λ val. some (key, val)

  add_none : (vs : Values) → add_value http j none vs ≡ vs
  add_none [] = refl
  add_none (v ∷ vs) = refl

  add_other :
      (key : Text) (val : List ℕ) (vs : Values)
      → text_eq j key ≡ false
      → add_value http j (some (key, val)) vs ≡ vs
  add_other key val [] k = rw k refl
  add_other key val (v ∷ vs) k = refl

  add_nothing :
      (existing : Values) (h h' : http.Headers)
      → add_to http none existing h ≡ some h'
      → http.get_all j h' ≡ add_value http j none (http.get_all j h)
  add_nothing [] h h' e =
      ap (http.get_all j) (sym (some-injective h h' e)) ∙ sym (add_none (http.get_all j h))
  add_nothing (v ∷ vs) h h' e =
      ap (http.get_all j) (sym (some-injective h h' e)) ∙ sym (add_none (http.get_all j h))

  add_something :
      (key : Text) (val : List ℕ) (existing : Values) (h h' : http.Headers)
      → http.get_all key h ≡ existing
      → add_to http (some (key, val)) existing h ≡ some h'
      → http.get_all j h' ≡ add_value http j (some (key, val)) (http.get_all j h)
  add_something key val [] h h' own e =
      law.inserted j key val h h' e ∙ elim (Bool-cases (text_eq j key)) [
        | inl k ↦
            let mine : http.get_all j h ≡ [] =
              ap (λ n. http.get_all n h) (text_eq→eq j key k) ∙ own in
            rw (mine, k) refl
        | inr k ↦ sym (add_other key val (http.get_all j h) k ∙ rw k refl)
      ]
  add_something key val (v ∷ vs) h h' own e =
      ap (http.get_all j) (sym (some-injective h h' e)) ∙ elim (Bool-cases (text_eq j key)) [
        | inl k ↦
            let mine : http.get_all j h ≡ v ∷ vs =
              ap (λ n. http.get_all n h) (text_eq→eq j key k) ∙ own in
            rw mine refl
        | inr k ↦ sym (add_other key val (http.get_all j h) k)
      ]

  pub add_to_lem :
      (name : Option Text) (value : Option (List ℕ)) (h h' : http.Headers)
      → add_to http (paired name value) (values_of http name h) h ≡ some h'
      → http.get_all j h' ≡ add_value http j (paired name value) (http.get_all j h)
  add_to_lem none value h h' e = add_nothing [] h h' e
  add_to_lem (some key) none h h' e = add_nothing (http.get_all key h) h h' e
  add_to_lem (some key) (some val) h h' e = add_something key val (http.get_all key h) h h' refl e

  pub remove_parsed_lem :
      (name : Option Text) (h : http.Headers)
      → http.get_all j (remove_parsed http name h) ≡ remove_value http j name (http.get_all j h)
  remove_parsed_lem none h = refl
  remove_parsed_lem (some key) h = law.removed j key h
