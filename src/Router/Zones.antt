-- ===== src/Router/Zones.antt =====
-- One zone after another: what a list of zones selects, whatever the statistics before it.
use pavis.Prelude.{
  ◌≡◌, refl, ap, Option, none, some, List, [], ◌∷◌, ◌++◌, inl, inr, arith, Bool-cases, Option-cases,
  get_elem?, or_else, All-get_elem?, if◌then◌else◌,
}
use pavis.Prelude.Text.{Text}
use pavis.Prelude.HashMap.{lookup}
use pavis.Routing.{PathMatch, MethodPredicate, HeaderPredicates, RouteMatcher, Route, RegexLimits}
use pavis.Regex.{RegexEngine, RegexCache}
use pavis.Regex.Coverage.{IsCovered}
use pavis.Router.{CompiledRoute, RouteMap, RouteZone, linear, exact_map}
use pavis.Router.Stats.{PredicateStats, record_path_miss}
use pavis.Router.Matcher.{
  Request, Found, matches_headers, matches_method, try_route, try_linear, try_exact, try_zone,
  try_zones,
}
use pavis.Router.Spec.{accepts}
use pavis.Router.Headers.{HasRegex, try_route_lem}

-- The result is `o`, with some statistics, and no panic.
abbrev pub Finds : Found → Option Route → Type 0
Finds found o = (stats : PredicateStats) × (found ≡ some (o, stats))

module _ (engine : RegexEngine) (cache : RegexCache) (limits : RegexLimits) (request : Request)
    (paths : List Route) (covered : IsCovered engine limits cache paths) where
  -- The outcome that the specification gives one route.
  abbrev pub hit : Route → Option Route
  hit r = if accepts engine limits request r then some r else none

  try_linear-snoc :
      (l : List CompiledRoute) (c : CompiledRoute) (r : Route) (o : Option Route)
      (stats : PredicateStats)
      → get_elem? paths c.index ≡ some r
      → HasRegex engine cache limits request r.matcher.path c.regex
      → Finds (try_linear engine cache limits request paths l stats) o
      → Finds (try_linear engine cache limits request paths (l ++ c ∷ []) stats) (or_else o (hit r))
  unfolding try_linear
  try_linear-snoc [] c r o stats at_index has (s, e) =
      let t = try_route engine cache limits request r c.regex stats in
      let same =
        try_route_lem engine cache limits request r c.regex stats has
          (All-get_elem? _ paths c.index covered at_index) in
      (t.1, ground arith)
  try_linear-snoc (d ∷ l) c r o stats at_index has (s, e) =
      elim (Option-cases (get_elem? paths d.index)) [
        | inl missing ↦ absurd (ground arith)
        | inr (q, found) ↦
            let t = try_route engine cache limits request q d.regex stats in
            elim (Bool-cases t.0) [
              | inl won ↦ (s, ground arith)
              | inr lost ↦
                  let rest : Finds (try_linear engine cache limits request paths l t.1) o =
                    (s, ground arith) in
                  let (s', e') = try_linear-snoc l c r o t.1 at_index has rest in (s', ground arith)
            ]
      ]

  -- Every entry of the map stands for a route with that exact path and no other predicate.
  abbrev pub IsExactMap : RouteMap → Type 0
  IsExactMap m =
      (key : Text) (c : CompiledRoute)
      → lookup key m ≡ some c
      → (r : Route) × (get_elem? paths c.index ≡ some r)
        × (r.matcher ≡ record {
          path = PathMatch.exact key;
          method = MethodPredicate.any;
          headers = HeaderPredicates.none;
        })

  abbrev pub pick : Option CompiledRoute → Option Route
  pick none = none
  pick (some c) = get_elem? paths c.index

  try_exact_lem :
      (m : RouteMap) (stats : PredicateStats)
      → IsExactMap m
      → Finds
          (try_exact engine cache limits request paths m stats)
          (pick (lookup request.uri_path m))
  unfolding try_exact matches_method matches_headers
  try_exact_lem m stats exact = elim (Option-cases (lookup request.uri_path m)) [
    | inl missing ↦ (record_path_miss stats, rw (missing, try_exact))
    | inr (c, found) ↦
        let (r, at_index, plain) = exact request.uri_path c found in
        (
          stats,
          ground (
            arith,
            ap (λ (x : RouteMatcher). x.method) plain,
            ap (λ (x : RouteMatcher). x.headers) plain,
          ),
        )
  ]

  -- The zones find `o` after any statistics.
  abbrev pub Selects : List RouteZone → Option Route → Type 0
  Selects zs o =
      (stats : PredicateStats) → Finds (try_zones engine cache limits request paths zs stats) o

  abbrev pub SelectsLinear : List CompiledRoute → Option Route → Type 0
  SelectsLinear l o =
      (stats : PredicateStats) → Finds (try_linear engine cache limits request paths l stats) o

  abbrev SelectsZone : RouteZone → Option Route → Type 0
  SelectsZone z o =
      (stats : PredicateStats) → Finds (try_zone engine cache limits request paths z stats) o

  try_zones-snoc :
      (zs : List RouteZone) (z : RouteZone) (o p : Option Route) (stats : PredicateStats)
      → SelectsZone z p
      → Finds (try_zones engine cache limits request paths zs stats) o
      → Finds (try_zones engine cache limits request paths (zs ++ z ∷ []) stats) (or_else o p)
  unfolding try_zones
  try_zones-snoc [] z o none stats h (s, e) = let (s', e') = h stats in (s', ground arith)
  try_zones-snoc [] z o (some r) stats h (s, e) = let (s', e') = h stats in (s', ground arith)
  try_zones-snoc (w ∷ zs) z o p stats h (s, e) =
      elim (Option-cases (try_zone engine cache limits request paths w stats)) [
        | inl panicked ↦ absurd (ground arith)
        | inr (found, here) ↦ elim (Option-cases found.0) [
          | inr (r, won) ↦ (s, ground arith)
          | inl missed ↦
              let rest : Finds (try_zones engine cache limits request paths zs found.1) o =
                (s, ground arith) in
              let (s', e') = try_zones-snoc zs z o p found.1 h rest in (s', ground arith)
        ]
      ]

  pub Selects-nil : Selects [] none
  unfolding try_zones
  Selects-nil stats = (stats, refl)

  pub SelectsLinear-nil : SelectsLinear [] none
  unfolding try_linear
  SelectsLinear-nil stats = (stats, refl)

  pub SelectsLinear-snoc :
      (l : List CompiledRoute) (c : CompiledRoute) (r : Route) (o : Option Route)
      → get_elem? paths c.index ≡ some r
      → HasRegex engine cache limits request r.matcher.path c.regex
      → SelectsLinear l o
      → SelectsLinear (l ++ c ∷ []) (or_else o (hit r))
  SelectsLinear-snoc l c r o at_index has h stats =
      try_linear-snoc l c r o stats at_index has (h stats)

  pub Selects-linear :
      (zs : List RouteZone) (l : List CompiledRoute) (o p : Option Route)
      → Selects zs o
      → SelectsLinear l p
      → Selects (zs ++ linear l ∷ []) (or_else o p)
  unfolding try_zone
  Selects-linear zs l o p h k stats = try_zones-snoc zs (linear l) o p stats k (h stats)

  pub Selects-exact_map :
      (zs : List RouteZone) (m : RouteMap) (o : Option Route)
      → Selects zs o
      → IsExactMap m
      → Selects (zs ++ exact_map m ∷ []) (or_else o (pick (lookup request.uri_path m)))
  unfolding try_zone
  Selects-exact_map zs m o h exact stats =
      try_zones-snoc zs (exact_map m) o _ stats (λ t. try_exact_lem m t exact) (h stats)
