-- ===== src/Router/Headers.antt =====
-- One route: with the patterns of the configuration in the cache, the code that counts as it goes
-- accepts exactly the requests that the specification accepts.
use pavis.Prelude.{◌&&◌, ◌≡◌, refl, Option, none, some, List, [], ◌∷◌, All, all, arith, length, leb}
use pavis.Prelude.Text.{Text}
use pavis.Prelude.HashMap.{lookup}
use pavis.Routing.{PathMatch, HeaderMatch, HeaderPredicate, HeaderPredicates, Route, RegexLimits}
use pavis.Regex.{RegexEngine, RegexCache}
use pavis.Regex.Coverage.{IsHeaderCovered, IsHeadersCovered}
use pavis.Router.Stats.{PredicateStats}
use pavis.Router.Matcher.{
  Request, matches_regex, matches_header_value, matches_all, matches_headers, matches_path,
  try_route,
}
use pavis.Router.Spec.{header_holds, headers_hold, path_holds, accepts}

module _ (engine : RegexEngine) (cache : RegexCache) (limits : RegexLimits) where
  matches_regex_lem :
      (p v : Text) (stats : PredicateStats)
      → lookup p cache ≡ some (record { pattern = p })
      → (matches_regex engine cache limits p v stats).0
        ≡ (leb (length v) limits.input_max_bytes && engine.is_match_bytes p v)
  unfolding matches_regex
  matches_regex_lem p v stats e = rw (e, matches_regex) (ground arith)

  matches_header_value_lem :
      (m : HeaderMatch) (o : Option Text) (stats : PredicateStats)
      → IsHeaderCovered engine limits cache m
      → (matches_header_value engine cache limits m o stats).0 ≡ header_holds engine limits m o
  unfolding matches_header_value
  matches_header_value_lem HeaderMatch.present none stats h = refl
  matches_header_value_lem HeaderMatch.present (some v) stats h = refl
  matches_header_value_lem HeaderMatch.absent none stats h = refl
  matches_header_value_lem HeaderMatch.absent (some v) stats h = refl
  matches_header_value_lem (HeaderMatch.exact e) none stats h = refl
  matches_header_value_lem (HeaderMatch.exact e) (some v) stats h = refl
  matches_header_value_lem (HeaderMatch.prefix p) none stats h = refl
  matches_header_value_lem (HeaderMatch.prefix p) (some v) stats h = refl
  matches_header_value_lem (HeaderMatch.regex p) none stats h = refl
  matches_header_value_lem (HeaderMatch.regex p) (some v) stats h = matches_regex_lem p v _ h.0

  module _ (request : Request) where
    matches_all_lem :
        (ps : List HeaderPredicate) (stats : PredicateStats)
        → All (λ (p : HeaderPredicate). IsHeaderCovered engine limits cache p.matcher) ps
        → (matches_all engine cache limits request ps stats).0
          ≡ all
              (λ (p : HeaderPredicate).
                header_holds engine limits p.matcher (request.headers p.name))
              ps
    unfolding matches_all
    matches_all_lem [] stats h = refl
    matches_all_lem (p ∷ ps) stats (q, h) =
        let step =
          matches_header_value engine cache limits p.matcher (request.headers p.name) stats in
        ground (
          arith,
          matches_header_value_lem p.matcher (request.headers p.name) stats q,
          matches_all_lem ps step.1 h,
        )

    pub matches_headers_lem :
        (hs : HeaderPredicates) (stats : PredicateStats)
        → IsHeadersCovered engine limits cache hs
        → (matches_headers engine cache limits request hs stats).0
          ≡ headers_hold engine limits request hs
    unfolding matches_headers
    matches_headers_lem HeaderPredicates.none stats h = refl
    matches_headers_lem (HeaderPredicates.some ps) stats h = matches_all_lem ps stats h

    -- A compiled route carries the regex of its path.
    abbrev pub HasRegex : PathMatch → Option Text → Type 0
    HasRegex (PathMatch.regex path) regex = regex ≡ some path
    HasRegex _ regex = Unit

    matches_path_lem :
        (path : PathMatch) (regex : Option Text)
        → HasRegex path regex
        → matches_path engine cache limits request path regex
          ≡ path_holds engine limits request path
    unfolding matches_path
    matches_path_lem (PathMatch.prefix path) regex h = refl
    matches_path_lem (PathMatch.exact path) regex h = refl
    matches_path_lem (PathMatch.regex path) regex h = rw h

    pub try_route_lem :
        (r : Route) (regex : Option Text) (stats : PredicateStats)
        → HasRegex r.matcher.path regex
        → IsHeadersCovered engine limits cache r.matcher.headers
        → (try_route engine cache limits request r regex stats).0 ≡ accepts engine limits request r
    unfolding try_route
    try_route_lem r regex stats h covered = ground (
      arith,
      matches_path_lem r.matcher.path regex h,
      matches_headers_lem r.matcher.headers stats covered,
    )
