-- ===== src/Router/Matcher.antt =====
-- crates/pavis/src/router/matcher.rs: choosing the route of a request.
use pavis.Prelude.{
  Bool, true, false, Option, none, some, List, [], ◌∷◌, any, length, get_elem?, ltb, if◌then◌else◌,
}
use pavis.Prelude.Text.{Text, text_eq, starts_with}
use pavis.Prelude.HashMap.{lookup}
use pavis.Http.{as_str, eq_ignore_ascii_case}
use pavis.Routing.{
  PathMatch, MethodPredicate, HeaderMatch, HeaderPredicate, HeaderPredicates, Route, RegexLimits,
}
use pavis.Regex.{RegexEngine, RegexCache, is_match}
use pavis.Router.{CompiledRoute, RouteMap, RouteZone, linear, exact_map}
use pavis.Router.Stats.{
  PredicateStats, record_path_miss, record_method_miss, record_header_miss, record_eval_exact,
  record_eval_prefix, record_eval_regex, record_eval_present, record_eval_absent,
  record_regex_input_too_large,
}

-- What a request shows. `headers` is the lookup of the `http` crate's header map: the first value of
-- a name, whatever its case.
pub record Request : Type 0 where
  pub host_header : Option Text
  pub uri_path : Text
  pub method : Text
  pub headers : Text → Option Text

unfoldable pub matches_method : MethodPredicate → Text → Bool
unfolding as_str
matches_method MethodPredicate.any method = true
matches_method (MethodPredicate.specific m) method = eq_ignore_ascii_case method (as_str m)
matches_method (MethodPredicate.list ms) method =
    any (λ m. eq_ignore_ascii_case method (as_str m)) ms

-- What a matching loop found, and the statistics so far. `none` around it is the panic of an index
-- out of bounds.
abbrev pub Found : Type 0
Found = Option (Option Route × PredicateStats)

module _ (engine : RegexEngine) (cache : RegexCache) (limits : RegexLimits) where
  -- The arm of `matches_header_predicate` for a regex and a value.
  unfoldable pub matches_regex : Text → Text → PredicateStats → Bool × PredicateStats
  unfolding lookup is_match
  matches_regex pattern actual stats = elim (lookup pattern cache) [
    | none ↦ (false, stats)
    | some compiled ↦
        if ltb limits.input_max_bytes (length actual)
        then (false, record_regex_input_too_large stats)
        else (is_match engine compiled actual limits.input_max_bytes, stats)
  ]

  unfoldable pub matches_header_value :
      HeaderMatch → Option Text → PredicateStats → Bool × PredicateStats
  unfolding matches_regex
  matches_header_value HeaderMatch.present (some _) stats = (true, record_eval_present stats)
  matches_header_value HeaderMatch.present none stats = (false, record_eval_present stats)
  matches_header_value HeaderMatch.absent none stats = (true, record_eval_absent stats)
  matches_header_value HeaderMatch.absent (some _) stats = (false, record_eval_absent stats)
  matches_header_value (HeaderMatch.exact expected) (some actual) stats =
      (text_eq actual expected, record_eval_exact stats)
  matches_header_value (HeaderMatch.exact expected) none stats = (false, record_eval_exact stats)
  matches_header_value (HeaderMatch.prefix prefix) (some actual) stats =
      (starts_with actual prefix, record_eval_prefix stats)
  matches_header_value (HeaderMatch.prefix prefix) none stats = (false, record_eval_prefix stats)
  matches_header_value (HeaderMatch.regex pattern) (some actual) stats =
      matches_regex pattern actual (record_eval_regex stats)
  matches_header_value (HeaderMatch.regex pattern) none stats = (false, record_eval_regex stats)

  module _ (request : Request) where
    -- `iter().all(…)`, which stops at the first predicate that fails.
    unfoldable pub matches_all : List HeaderPredicate → PredicateStats → Bool × PredicateStats
    unfolding matches_header_value
    matches_all [] stats = (true, stats)
    matches_all (p ∷ ps) stats =
        let (holds, stats') = matches_header_value p.matcher (request.headers p.name) stats in
        elim holds [ true ↦ matches_all ps stats' | false ↦ (false, stats') ]

    unfoldable pub matches_headers : HeaderPredicates → PredicateStats → Bool × PredicateStats
    unfolding matches_all
    matches_headers HeaderPredicates.none stats = (true, stats)
    matches_headers (HeaderPredicates.some ps) stats = matches_all ps stats

    unfoldable pub matches_path : PathMatch → Option Text → Bool
    matches_path (PathMatch.prefix path) regex = starts_with request.uri_path path
    matches_path (PathMatch.exact path) regex = text_eq request.uri_path path
    matches_path (PathMatch.regex path) none = false
    matches_path (PathMatch.regex path) (some re) = engine.is_match re request.uri_path

    abbrev pub after_headers : Bool × PredicateStats → Bool × PredicateStats
    after_headers (true, stats) = (true, stats)
    after_headers (false, stats) = (false, record_header_miss stats)

    -- The body of the loop over a linear zone: whether the route is chosen, and the statistics.
    unfoldable pub try_route : Route → Option Text → PredicateStats → Bool × PredicateStats
    unfolding matches_path matches_method matches_headers
    try_route route regex stats =
        if matches_path route.matcher.path regex
        then if matches_method route.matcher.method request.method
          then after_headers (matches_headers route.matcher.headers stats)
          else (false, record_method_miss stats)
        else (false, record_path_miss stats)

    module _ (paths : List Route) where
      unfoldable pub try_linear : List CompiledRoute → PredicateStats → Found
      unfolding try_route
      try_linear [] stats = some (none, stats)
      try_linear (c ∷ cs) stats = elim (get_elem? paths c.index) [
        | none ↦ none
        | some route ↦
            let (hit, stats') = try_route route c.regex stats in
            elim hit [ true ↦ some (some route, stats') | false ↦ try_linear cs stats' ]
      ]

      abbrev pub exact_result : Route → Bool × PredicateStats → Option Route × PredicateStats
      exact_result route (true, stats) = (some route, stats)
      exact_result route (false, stats) = (none, record_header_miss stats)

      unfoldable pub try_exact : RouteMap → PredicateStats → Found
      unfolding matches_method matches_headers lookup
      try_exact m stats = elim (lookup request.uri_path m) [
        | none ↦ some (none, record_path_miss stats)
        | some c ↦ elim (get_elem? paths c.index) [
          | none ↦ none
          | some route ↦
              if matches_method route.matcher.method request.method
              then some (exact_result route (matches_headers route.matcher.headers stats))
              else some (none, record_method_miss stats)
        ]
      ]

      unfoldable pub try_zone : RouteZone → PredicateStats → Found
      unfolding try_linear try_exact
      try_zone (linear routes) stats = try_linear routes stats
      try_zone (exact_map m) stats = try_exact m stats

      unfoldable pub try_zones : List RouteZone → PredicateStats → Found
      unfolding try_zone
      try_zones [] stats = some (none, stats)
      try_zones (z ∷ zs) stats = elim (try_zone z stats) [
        | none ↦ none
        | some (some route, stats') ↦ some (some route, stats')
        | some (none, stats') ↦ try_zones zs stats'
      ]
