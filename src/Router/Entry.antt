-- ===== src/Router/Entry.antt =====
-- A route that goes into a map of exact paths: which route the map then has under a path.
use pavis.Prelude.{
  ℕ, ◌≡◌, refl, sym, ap, ◌∙◌, Option, none, some, List, [], inl, inr, arith, Bool-cases,
  Option-cases, get_elem?, or_else, if◌then◌else◌,
}
use pavis.Prelude.Text.{Text, text_eq, text_eq→eq}
use pavis.Prelude.HashMap.{
  lookup, insert, or_insert, lookup-insert, lookup-or_insert_present, lookup-or_insert_absent,
}
use pavis.Routing.{PathMatch, MethodPredicate, HeaderPredicates, RouteMatcher, Route, RegexLimits}
use pavis.Regex.{RegexEngine, RegexCache}
use pavis.Regex.Coverage.{IsCovered}
use pavis.Router.{CompiledRoute, RouteMap}
use pavis.Router.Matcher.{Request, matches_method}
use pavis.Router.Zones.{hit, pick, IsExactMap}

pub or_else_assoc :
    {A : Type 0} (a b c : Option A) → or_else (or_else a b) c ≡ or_else a (or_else b c)
or_else_assoc none b c = refl
or_else_assoc (some x) b c = refl

pub or_else_none : {A : Type 0} (a : Option A) → or_else a none ≡ a
or_else_none none = refl
or_else_none (some x) = refl

module _ (engine : RegexEngine) (cache : RegexCache) (limits : RegexLimits) (request : Request)
    (paths : List Route) (covered : IsCovered engine limits cache paths) (index : ℕ) (r : Route)
    (at_index : get_elem? paths index ≡ some r) (path : Text)
    (plain : r.matcher ≡ record {
      path = PathMatch.exact path;
      method = MethodPredicate.any;
      headers = HeaderPredicates.none;
    }) where
  abbrev hit_of : Route → Option Route
  hit_of = hit engine cache limits request paths covered

  abbrev picked : RouteMap → Option Route
  picked m = pick engine cache limits request paths covered (lookup request.uri_path m)

  abbrev IsExact : RouteMap → Type 0
  IsExact = IsExactMap engine cache limits request paths covered

  abbrev pub entry : CompiledRoute
  entry = record { index = index; regex = none }

  hit_plain : hit_of r ≡ (if text_eq request.uri_path path then some r else none)
  unfolding matches_method
  hit_plain = ground (
    arith,
    ap (λ (x : RouteMatcher). x.path) plain,
    ap (λ (x : RouteMatcher). x.method) plain,
    ap (λ (x : RouteMatcher). x.headers) plain,
  )

  pub insert-IsExact : (m : RouteMap) → IsExact m → IsExact (insert path entry m)
  insert-IsExact m exact key c e = elim (Bool-cases (text_eq key path)) [
    | inl same ↦
        (r, ground (arith, lookup-insert path key entry m), rw (text_eq→eq key path same) plain)
    | inr other ↦ exact key c (ground (arith, lookup-insert path key entry m))
  ]

  pub or_insert-IsExact : (m : RouteMap) → IsExact m → IsExact (or_insert path entry m)
  unfolding or_insert
  or_insert-IsExact m exact = elim (Option-cases (lookup path m)) [
    | inl absent ↦ rw (absent, or_insert) (insert-IsExact m exact)
    | inr (w, present) ↦ rw (present, or_insert) exact
  ]

  picked-insert :
      (m : RouteMap)
      → picked (insert path entry m) ≡ (if text_eq request.uri_path path then some r else picked m)
  picked-insert m = ground (arith, lookup-insert path request.uri_path entry m)

  pub no_entry : IsExact []
  unfolding lookup
  no_entry key c e = cc

  pub picked_first : picked (insert path entry []) ≡ hit_of r
  unfolding lookup
  picked_first = picked-insert [] ∙ sym hit_plain

  pub picked-or_insert :
      (m : RouteMap) → IsExact m → picked (or_insert path entry m) ≡ or_else (picked m) (hit_of r)
  picked-or_insert m exact = elim (Option-cases (lookup path m)) [
    | inl absent ↦ ground (
      arith,
      lookup-or_insert_absent path request.uri_path entry m absent,
      hit_plain,
      text_eq→eq request.uri_path path,
      or_else_none (picked m),
    )
    | inr (w, present) ↦
        let (q, at_q, _) = exact path w present in
        ground (
          arith,
          lookup-or_insert_present path request.uri_path entry m present,
          hit_plain,
          text_eq→eq request.uri_path path,
          or_else_none (picked m),
        )
  ]
