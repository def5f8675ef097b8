-- ===== src/HeaderOps.antt =====
-- crates/pavis/src/proxy/header_ops.rs: what the policy of a route does to the headers of a request or
-- a response. The header map and the parsing of names and values (the crates `http` and `pingora`)
-- are parameters; a name is the text that it is printed as.
pub mod Values
pub mod Steps
pub mod Room
pub mod PerName
mod Tests
use pavis.Prelude.{
  ℕ, ◌+◌, ◌-◌, Bool, true, false, ◌&&◌, Option, none, some, List, [], ◌∷◌, ◌++◌, any, leb, ◌==◌,
  if◌then◌else◌,
}
use pavis.Prelude.Text.{Text, bytes, text_eq}

-- An `insert` or `append` fails where the map is full.
pub record HeaderMap : Type 1 where
  pub Headers : Type 0
  pub name_from_str : Text → Option Text
  pub value_from_str : Text → Option (List ℕ)
  pub value_from_bytes : List ℕ → Option (List ℕ)
  pub get_all : Text → Headers → List (List ℕ)
  pub insert : Text → List ℕ → Headers → Option Headers
  pub append : Text → List ℕ → Headers → Option Headers
  pub remove : Text → Headers → Headers

abbrev pub lower : ℕ → ℕ
lower c = if leb 65 c && leb c 90 then c + 32 else c

abbrev pub eq_ignore_ascii_case : Text → Text → Bool
eq_ignore_ascii_case [] [] = true
eq_ignore_ascii_case (a ∷ s) (b ∷ t) = lower a == lower b && eq_ignore_ascii_case s t
eq_ignore_ascii_case _ _ = false

abbrev pub non_joinable_headers : List Text
non_joinable_headers = bytes "set-cookie" ∷ []

unfoldable pub is_non_joinable : Text → Bool
is_non_joinable name = any (λ header. eq_ignore_ascii_case name header) non_joinable_headers

abbrev pub separator : List ℕ
separator = bytes ", "

-- The buffer behind the first value, and the appended value at its end.
abbrev pub joined_behind : List (List ℕ) → (appended : List ℕ) → List ℕ
joined_behind [] appended = separator ++ appended
joined_behind (value ∷ values) appended = separator ++ (value ++ joined_behind values appended)

unfoldable pub build_joined_value : List (List ℕ) → (appended : List ℕ) → Option (List ℕ)
build_joined_value [] appended = none
build_joined_value (value ∷ values) appended = some (value ++ joined_behind values appended)

-- `HeadersPolicy` and its rules.
pub record HeaderRules : Type 0 where
  pub set_headers : List (Text × Text)
  pub append_headers : List (Text × Text)
  pub add_headers : List (Text × Text)
  pub remove_headers : List Text

pub data HeadersPolicy : Type 0 where
  disabled : HeadersPolicy
  enabled : (rules : HeaderRules) → HeadersPolicy

-- A `Result`: `none` is the error of the map.
infixl 5 ◌>>=◌
abbrev pub ◌>>=◌ : {A B : Type 0} → Option A → (A → Option B) → Option B
none >>= f = none
some a >>= f = f a

module _ (http : HeaderMap) where
  abbrev pub parsed : Text → Text → Option (Text × List ℕ)
  parsed name value =
      http.name_from_str name >>= λ key. http.value_from_str value >>= λ val. some (key, val)

  -- An invalid name or value is skipped with a warning.
  abbrev pub set_parsed : Option (Text × List ℕ) → http.Headers → Option http.Headers
  set_parsed none headers = some headers
  set_parsed (some (key, val)) headers = http.insert key val headers

  unfoldable pub apply_set : Text × Text → http.Headers → Option http.Headers
  apply_set (name, value) headers = set_parsed (parsed name value) headers

  abbrev pub replaced : Text → Option (List ℕ) → http.Headers → Option http.Headers
  replaced key none headers = some headers
  replaced key (some joined) headers = http.insert key joined (http.remove key headers)

  abbrev pub joined_to : Text → List ℕ → Option (List ℕ) → http.Headers → Option http.Headers
  joined_to key val none headers = http.insert key val headers
  joined_to key val (some buffer) headers = replaced key (http.value_from_bytes buffer) headers

  abbrev pub append_to :
      (non_joinable : Bool)
      → Text
      → List ℕ
      → (existing : List (List ℕ)) → http.Headers
      → Option http.Headers
  append_to true key val existing headers = http.append key val headers
  append_to false key val [] headers = http.insert key val headers
  append_to false key val (value ∷ values) headers =
      joined_to key val (build_joined_value (value ∷ values) val) headers

  abbrev pub append_parsed : Bool → Option (Text × List ℕ) → http.Headers → Option http.Headers
  append_parsed non_joinable none headers = some headers
  append_parsed non_joinable (some (key, val)) headers =
      append_to non_joinable key val (http.get_all key headers) headers

  unfoldable pub apply_append : Text × Text → http.Headers → Option http.Headers
  apply_append (name, value) headers =
      append_parsed (is_non_joinable name) (parsed name value) headers

  -- `headers.get(name)`: a name that is invalid has no value.
  abbrev pub values_of : Option Text → http.Headers → List (List ℕ)
  values_of none headers = []
  values_of (some key) headers = http.get_all key headers

  abbrev pub add_to :
      Option (Text × List ℕ) → (existing : List (List ℕ)) → http.Headers → Option http.Headers
  add_to rule [] headers = set_parsed rule headers
  add_to rule (value ∷ values) headers = some headers

  unfoldable pub apply_add : Text × Text → http.Headers → Option http.Headers
  apply_add (name, value) headers =
      add_to (parsed name value) (values_of (http.name_from_str name) headers) headers

  abbrev pub remove_parsed : Option Text → http.Headers → http.Headers
  remove_parsed none headers = headers
  remove_parsed (some key) headers = http.remove key headers

  unfoldable pub apply_remove : Text → http.Headers → http.Headers
  apply_remove name headers = remove_parsed (http.name_from_str name) headers

  abbrev pub each :
      (Text × Text → http.Headers → Option http.Headers)
      → List (Text × Text)
      → http.Headers
      → Option http.Headers
  each f [] headers = some headers
  each f (rule ∷ rules) headers = f rule headers >>= each f rules

  abbrev pub remove_each : List Text → http.Headers → http.Headers
  remove_each [] headers = headers
  remove_each (name ∷ names) headers = remove_each names (apply_remove name headers)

  unfoldable pub apply_rules : HeaderRules → http.Headers → Option http.Headers
  apply_rules rules headers =
      each apply_set rules.set_headers headers
      >>= each apply_append rules.append_headers
      >>= each apply_add rules.add_headers
      >>= (λ done. some (remove_each rules.remove_headers done))

  -- `insert_header("X-Proxy-By", "Pavis")`.
  abbrev pub stamp_parsed : Option (Text × List ℕ) → http.Headers → Option http.Headers
  stamp_parsed none headers = none
  stamp_parsed (some (key, val)) headers = http.insert key val headers

  unfoldable pub stamped : http.Headers → Option http.Headers
  stamped headers = stamp_parsed (parsed (bytes "X-Proxy-By") (bytes "Pavis")) headers

  -- `apply_request_headers`, and `apply_response_headers`, which differs in its messages only.
  unfoldable pub apply_headers : HeadersPolicy → http.Headers → Option http.Headers
  apply_headers disabled headers = stamped headers
  apply_headers (enabled rules) headers = stamped headers >>= apply_rules rules
