-- ===== src/Router/Spec.antt =====
-- What the router promises, with no zones, no index, no cache and no statistics: the first route, in
-- the order of the configuration, of the first virtual host that the request's host selects.
use mathlib.Core.Option
use pavis.Prelude.{
  Bool, true, false, not, ◌&&◌, Option, none, some, List, [], ◌∷◌, ◌++◌, all, find, retain, or_else,
  length, leb, if◌then◌else◌,
}
use pavis.Prelude.Text.{Text, text_eq, starts_with}
use pavis.Routing.{
  PathMatch, HeaderMatch, HeaderPredicate, HeaderPredicates, Route, VirtualHost, RegexLimits,
}
use pavis.Regex.{RegexEngine}
use pavis.Router.{is_wildcard}
use pavis.Router.HostPattern.{matches_wildcard}
use pavis.Router.Matcher.{Request, matches_method}

module _ (engine : RegexEngine) (limits : RegexLimits) where
  -- A value that is longer than the limit matches no regex.
  abbrev pub header_holds : HeaderMatch → Option Text → Bool
  header_holds HeaderMatch.absent none = true
  header_holds HeaderMatch.present (some _) = true
  header_holds (HeaderMatch.exact expected) (some v) = text_eq v expected
  header_holds (HeaderMatch.prefix prefix) (some v) = starts_with v prefix
  header_holds (HeaderMatch.regex p) (some v) =
      leb (length v) limits.input_max_bytes && engine.is_match_bytes p v
  header_holds _ _ = false

  module _ (request : Request) where
    abbrev pub headers_hold : HeaderPredicates → Bool
    headers_hold HeaderPredicates.none = true
    headers_hold (HeaderPredicates.some ps) =
        all (λ (p : HeaderPredicate). header_holds p.matcher (request.headers p.name)) ps

    abbrev pub path_holds : PathMatch → Bool
    path_holds (PathMatch.prefix path) = starts_with request.uri_path path
    path_holds (PathMatch.exact path) = text_eq request.uri_path path
    path_holds (PathMatch.regex path) = engine.is_match path request.uri_path

    abbrev pub accepts : Route → Bool
    accepts r =
        path_holds r.matcher.path
        && (matches_method r.matcher.method request.method && headers_hold r.matcher.headers)

    abbrev pub first_hit : List VirtualHost → Option (VirtualHost × Route)
    first_hit [] = none
    first_hit (v ∷ vs) =
        or_else (Option.map (λ (r : Route). (v, r)) (find accepts v.paths)) (first_hit vs)

-- The virtual host with no wildcard under a host: the last one of the configuration.
abbrev pub last_exact : Text → List VirtualHost → Option VirtualHost
last_exact h [] = none
last_exact h (v ∷ vs) =
    or_else (last_exact h vs)
      (if not (is_wildcard v.host) && text_eq h v.host then some v else none)

abbrev pub exact_host_of : Option Text → List VirtualHost → Option VirtualHost
exact_host_of none vs = none
exact_host_of (some h) vs = last_exact h vs

abbrev pub at_most_one : Option VirtualHost → List VirtualHost
at_most_one none = []
at_most_one (some v) = v ∷ []

-- The virtual hosts that may serve a host, in the order in which they are asked.
abbrev pub candidates : Option Text → List VirtualHost → List VirtualHost
candidates host vs =
    at_most_one (exact_host_of host vs)
    ++ retain (λ (v : VirtualHost). is_wildcard v.host && matches_wildcard v.host host) vs
