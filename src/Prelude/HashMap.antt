-- ===== src/Prelude/HashMap.antt =====
-- `HashMap<String, V>` as an association list: an insertion goes in front and hides what the key
-- had before. Where the source iterates over a map, `replace` takes what the key had before out.
use mathlib.Core.List.{List, [], ◌∷◌}
use mathlib.Core.Option
use mathlib.Core.Option.{Option, none, some, some-injective}
use mathlib.Core.Path.{◌≡◌, refl}
use mathlib.Core.Logic.{inl, inr}
use mathlib.Core.Bool.{Bool, false, ◌||◌}
use native.Mathlib.Omega.{arith}
use pavis.Prelude.Tests.{if◌then◌else◌, Bool-cases}
use pavis.Prelude.Text.{Text, text_eq, text_eq→eq, text_eq_refl}

module _ {ℓ} {V : Type ℓ} where
  unfoldable pub lookup : Text → List (Text × V) → Option V
  lookup key [] = none
  lookup key ((k, v) ∷ m) = if text_eq key k then some v else lookup key m

  abbrev pub insert : Text → V → List (Text × V) → List (Text × V)
  insert key v m = (key, v) ∷ m

  -- `entry(key).or_insert(v)`.
  unfoldable pub or_insert : Text → V → List (Text × V) → List (Text × V)
  or_insert key v m = elim (lookup key m) [ none ↦ insert key v m | some _ ↦ m ]

  pub lookup-insert :
      (key j : Text) (v : V) (m : List (Text × V))
      → lookup j (insert key v m) ≡ (if text_eq j key then some v else lookup j m)
  unfolding lookup
  lookup-insert key j v m = refl

  pub lookup-or_insert_present :
      (key j : Text) (v : V) (m : List (Text × V)) {w : V}
      → lookup key m ≡ some w
      → lookup j (or_insert key v m) ≡ lookup j m
  unfolding or_insert
  lookup-or_insert_present key j v m e = rw (e, or_insert)

  pub lookup-or_insert_absent :
      (key j : Text) (v : V) (m : List (Text × V))
      → lookup key m ≡ none
      → lookup j (or_insert key v m) ≡ (if text_eq j key then some v else lookup j m)
  unfolding or_insert
  lookup-or_insert_absent key j v m e = rw (e, or_insert) (lookup-insert key j v m)

  -- `remove(key)`, without the value that it returns.
  abbrev pub remove : Text → List (Text × V) → List (Text × V)
  remove key [] = []
  remove key ((k, v) ∷ m) = let rest = remove key m in if text_eq key k then rest else (k, v) ∷ rest

  abbrev pub replace : Text → V → List (Text × V) → List (Text × V)
  replace key v m = insert key v (remove key m)

  -- What `get_mut(key)` is assigned.
  abbrev pub update : Text → (V → V) → List (Text × V) → List (Text × V)
  update key f [] = []
  update key f ((k, v) ∷ m) =
      let rest = update key f m in if text_eq key k then (k, f v) ∷ m else (k, v) ∷ rest

  -- What `values_mut` is assigned.
  abbrev pub map_values : (V → V) → List (Text × V) → List (Text × V)
  map_values f [] = []
  map_values f ((k, v) ∷ m) = (k, f v) ∷ map_values f m

  -- `values().any(p)`.
  abbrev pub any_value : (V → Bool) → List (Text × V) → Bool
  any_value p [] = false
  any_value p ((k, v) ∷ m) = p v || any_value p m

  pub lookup-map_values :
      (key : Text) (f : V → V) (m : List (Text × V))
      → lookup key (map_values f m) ≡ Option.map f (lookup key m)
  unfolding lookup
  lookup-map_values key f [] = refl
  lookup-map_values key f ((k, v) ∷ m) = ground (arith, lookup-map_values key f m)

  pub lookup-update :
      (key j : Text) (f : V → V) (m : List (Text × V))
      → lookup j (update key f m)
        ≡ (if text_eq j key then Option.map f (lookup j m) else lookup j m)
  unfolding lookup
  lookup-update key j f [] = ground arith
  lookup-update key j f ((k, v) ∷ m) = elim (Bool-cases (text_eq key k)) [
    | inl e ↦ rw e (ground (arith, text_eq→eq key k e, lookup))
    | inr e ↦
        rw e (
          ground (arith, text_eq→eq j key, text_eq→eq j k, text_eq_refl j, lookup-update key j f m))
  ]

  pub lookup-remove :
      (key j : Text) (m : List (Text × V))
      → lookup j (remove key m) ≡ (if text_eq j key then none else lookup j m)
  unfolding lookup
  lookup-remove key j [] = ground arith
  lookup-remove key j ((k, v) ∷ m) = elim (Bool-cases (text_eq key k)) [
    | inl e ↦ rw e (ground (arith, text_eq→eq key k e, lookup-remove key j m))
    | inr e ↦
        rw e
          (ground (arith, text_eq→eq j key, text_eq→eq j k, text_eq_refl j, lookup-remove key j m))
  ]

  pub any_value-lookup :
      (p : V → Bool) (key : Text) (m : List (Text × V)) {v : V}
      → any_value p m ≡ false
      → lookup key m ≡ some v
      → p v ≡ false
  unfolding lookup
  any_value-lookup p key [] a h = cc
  any_value-lookup p key ((k, w) ∷ m) {v = v} a h =
      ground (arith, some-injective w v, any_value-lookup p key m {v = v})
