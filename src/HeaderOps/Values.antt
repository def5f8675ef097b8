-- ===== src/HeaderOps/Values.antt =====
-- What a header map promises, and what a policy makes of the values of one name.
use pavis.Prelude.{
  ℕ, Bool, true, false, Option, none, some, List, [], ◌∷◌, ◌++◌, map, length, ◌+◌, ◌≤◌, ◌<◌,
  if◌then◌else◌, ◌≡◌,
}
use pavis.Prelude.Text.{Text, bytes, text_eq}
use pavis.HeaderOps.{HeaderMap, lower, HeadersPolicy, disabled, enabled, parsed}

-- The documented behaviour of `HeaderMap`.
pub record IsHeaderMap (http : HeaderMap) : Type 0 where
  pub inserted :
      (j k : Text) (v : List ℕ) (h h' : http.Headers)
      → http.insert k v h ≡ some h'
      → http.get_all j h' ≡ (if text_eq j k then v ∷ [] else http.get_all j h)
  pub appended :
      (j k : Text) (v : List ℕ) (h h' : http.Headers)
      → http.append k v h ≡ some h'
      → http.get_all j h' ≡ (if text_eq j k then http.get_all j h ++ v ∷ [] else http.get_all j h)
  pub removed :
      (j k : Text) (h : http.Headers)
      → http.get_all j (http.remove k h) ≡ (if text_eq j k then [] else http.get_all j h)

-- The documented bound of a header map: below its limit there is room for one more value. And the
-- stamp of the proxy is a valid header.
pub record IsBounded (http : HeaderMap) : Type 0 where
  pub len : http.Headers → ℕ
  pub limit : ℕ
  pub can_insert :
      (k : Text) (v : List ℕ) (h : http.Headers)
      → len h < limit
      → (h' : http.Headers) × (http.insert k v h ≡ some h') × (len h' ≤ len h + 1)
  pub can_append :
      (k : Text) (v : List ℕ) (h : http.Headers)
      → len h < limit
      → (h' : http.Headers) × (http.append k v h ≡ some h') × (len h' ≤ len h + 1)
  pub remove_len : (k : Text) (h : http.Headers) → len (http.remove k h) ≤ len h
  pub stamp : Text
  pub stamp_name : http.name_from_str (bytes "X-Proxy-By") ≡ some stamp
  pub stamp_text : List ℕ
  pub stamp_value : http.value_from_str (bytes "Pavis") ≡ some stamp_text

-- The most values that a policy adds, with the stamp.
abbrev pub room_for : HeadersPolicy → ℕ
room_for disabled = 1
room_for (enabled rules) =
    1 + length rules.set_headers + length rules.append_headers + length rules.add_headers

abbrev pub Values : Type 0
Values = List (List ℕ)

-- The one name whose values are never put together, in any case of its letters.
abbrev pub is_set_cookie : Text → Bool
is_set_cookie name = text_eq (map lower name) (bytes "set-cookie")

-- All values in one, with a comma (44) and a space (32) in between.
abbrev pub with_commas : Values → List ℕ
with_commas [] = []
with_commas (v ∷ []) = v
with_commas (v ∷ w ∷ vs) = v ++ 44 ∷ 32 ∷ with_commas (w ∷ vs)

module _ (http : HeaderMap) (j : Text) where
  abbrev pub set_value : Option (Text × List ℕ) → Values → Values
  set_value none vs = vs
  set_value (some (key, val)) vs = if text_eq j key then val ∷ [] else vs

  -- The one value that is put together of all, or the values as they were if it is invalid.
  abbrev pub valid_or : Option (List ℕ) → Values → Values
  valid_or none vs = vs
  valid_or (some joined) vs = joined ∷ []

  abbrev pub with_value : (non_joinable : Bool) → List ℕ → Values → Values
  with_value true val vs = vs ++ val ∷ []
  with_value false val [] = val ∷ []
  with_value false val (v ∷ vs) =
      valid_or (http.value_from_bytes (with_commas (v ∷ vs ++ val ∷ []))) (v ∷ vs)

  abbrev pub append_value : Bool → Option (Text × List ℕ) → Values → Values
  append_value non_joinable none vs = vs
  append_value non_joinable (some (key, val)) vs =
      if text_eq j key then with_value non_joinable val vs else vs

  -- What is added only where there is no value yet.
  abbrev pub add_value : Option (Text × List ℕ) → Values → Values
  add_value rule [] = set_value rule []
  add_value rule (v ∷ vs) = v ∷ vs

  abbrev pub remove_value : Option Text → Values → Values
  remove_value none vs = vs
  remove_value (some key) vs = if text_eq j key then [] else vs

  abbrev pub fold : {A : Type 0} → (A → Values → Values) → List A → Values → Values
  fold f [] vs = vs
  fold f (rule ∷ rules) vs = fold f rules (f rule vs)

  -- Set, append, add and remove, in this order.
  abbrev pub ruled : HeadersPolicy → Values → Values
  ruled disabled vs = vs
  ruled (enabled rules) vs =
      fold (λ name. remove_value (http.name_from_str name)) rules.remove_headers
        (fold (λ rule. add_value (parsed http rule.0 rule.1)) rules.add_headers
          (fold (λ rule. append_value (is_set_cookie rule.0) (parsed http rule.0 rule.1))
            rules.append_headers
            (fold (λ rule. set_value (parsed http rule.0 rule.1)) rules.set_headers vs)))

  abbrev pub expected : HeadersPolicy → Values → Values
  expected policy vs =
      ruled policy (set_value (parsed http (bytes "X-Proxy-By") (bytes "Pavis")) vs)
