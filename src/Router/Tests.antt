-- ===== src/Router/Tests.antt =====
-- A small configuration, asked.
use pavis.Prelude.{ℕ, true, ◌≡◌, ◌↔◌, refl, Option, none, some, List, [], ◌∷◌, ◌++◌, if◌then◌else◌}
use pavis.Prelude.Text.{Text, bytes, text_eq}
use pavis.Prelude.HashMap.{lookup, or_insert}
use pavis.Http.{get}
use pavis.Routing.{
  PathMatch, HeaderMatch, HeaderPredicates, MethodPredicate, RouteAction, Route, VirtualHost,
  RegexLimits,
}
use pavis.Regex.{RegexEngine, RegexCache, ok, validate_and_compile_regexes}
use pavis.Router.{Router, with_regex}
use pavis.Router.HostPattern.{normalize_host, matches_wildcard}
use pavis.Router.Stats.{
  add_stats, record_path_miss, record_header_miss, record_method_miss, record_eval_regex,
}
use pavis.Router.Matcher.{Request, try_zones}
use pavis.Router.Dispatch.{MatchVerdict, requested_host, try_match, try_wildcards, match_request}
use pavis.Router.Spec.{first_hit, candidates}
use pavis.Router.Selection.{Selected, match_request-first}
use pavis.Router.Hosts.{
  normalize_host-name, normalize_host-bracketed, matches_wildcard-suffix, matches_wildcard-prefix,
}

abbrev engine : RegexEngine
engine = record {
  compiles = λ p. true;
  is_match = λ p s. text_eq p s;
  compiles_bytes = λ p. true;
  builds = λ n p. true;
  is_match_bytes = λ p s. text_eq p s;
}

abbrev limits : RegexLimits
limits = record {
  pattern_max_bytes = 256;
  size_limit_bytes = 1000;
  input_max_bytes = 4096;
  max_regex_per_route = 10;
  max_regex_per_config = 100;
}

abbrev route : PathMatch → HeaderPredicates → ℕ → Route
route path headers status = record {
  matcher = record { path = path; method = MethodPredicate.specific get; headers = headers };
  action = RouteAction.direct status [];
}

abbrev plain : Text → ℕ → Route
plain path status = record {
  matcher = record {
    path = PathMatch.exact path;
    method = MethodPredicate.any;
    headers = HeaderPredicates.none;
  };
  action = RouteAction.direct status [];
}

abbrev x_is_1 : HeaderPredicates
x_is_1 =
    HeaderPredicates.some
      (record { name = bytes "x"; matcher = HeaderMatch.regex (bytes "1") } ∷ [])

abbrev site : VirtualHost
site = record {
  host = bytes "a.org";
  paths =
      plain (bytes "/a") 1
      ∷ plain (bytes "/a") 2
      ∷ plain (bytes "/b") 3
      ∷ route (PathMatch.prefix (bytes "/a")) x_is_1 4
      ∷ plain (bytes "/ab") 5
      ∷ [];
}

abbrev fallback : VirtualHost
fallback = record {
  host = bytes "*.org";
  paths = route (PathMatch.prefix (bytes "/")) HeaderPredicates.none 6 ∷ [];
}

abbrev config : List VirtualHost
config = fallback ∷ site ∷ []

abbrev cache : RegexCache
cache = (bytes "1", record { pattern = bytes "1" }) ∷ []

abbrev ask : Text → Text → Request
ask path x = record {
  host_header = some (bytes "a.org:80");
  uri_path = path;
  method = bytes "get";
  headers = λ name. if text_eq name (bytes "x") then some x else none;
}

validated : validate_and_compile_regexes engine limits config ≡ ok cache
unfolding validate_and_compile_regexes lookup
validated = refl

router : Router
unfolding with_regex or_insert lookup
router = elim (with_regex engine config cache limits) [
  | some r ↦ r
  | none ↦ record { exact_hosts = []; wildcard_hosts = []; regex_cache = []; regex_limits = limits }
]

built : with_regex engine config cache limits ≡ some router
unfolding router
built = refl

abbrev status_of : Option MatchVerdict → ℕ
status_of none = 0
status_of (some v) = elim v.selection [
  | none ↦ 0
  | some (host, r) ↦ elim r.action [ RouteAction.direct s body ↦ s | _ ↦ 0 ]
]

status : Text → Text → ℕ
unfolding router match_request try_wildcards try_match try_zones matches_wildcard normalize_host
    add_stats record_path_miss record_header_miss record_method_miss record_eval_regex
status path x = status_of (match_request engine router (ask path x))

-- The first of two equal paths, an exact path behind a run, a prefix with a header, and the
-- wildcard host where the exact one has no route.
answers :
    (status (bytes "/a") (bytes "1") ≡ 1)
    × (status (bytes "/b") (bytes "1") ≡ 3)
    × (status (bytes "/ab") (bytes "1") ≡ 4)
    × (status (bytes "/ab") (bytes "2") ≡ 5)
    × (status (bytes "/c") (bytes "2") ≡ 6)
unfolding status
answers = (refl, refl, refl, refl, refl)

match_request-first_example :
    Selected (match_request engine router (ask (bytes "/ab") (bytes "2"))) (
      first_hit engine limits
        (ask (bytes "/ab") (bytes "2"))
        (candidates (requested_host (ask (bytes "/ab") (bytes "2"))) config))
match_request-first_example =
    match_request-first engine config limits cache router (ask (bytes "/ab") (bytes "2")) validated
      built

normalize_host-name_example :
    (normalize_host (bytes "a.org") ≡ bytes "a.org")
    × (normalize_host (bytes "a.org" ++ b':' ∷ bytes "80") ≡ bytes "a.org")
normalize_host-name_example = normalize_host-name (bytes "a.org") (bytes "80") refl refl

normalize_host-bracketed_example :
    normalize_host (b'[' ∷ (bytes "::1" ++ b']' ∷ bytes ":80")) ≡ bytes "::1"
normalize_host-bracketed_example = normalize_host-bracketed (bytes "::1") (bytes ":80") refl

matches_wildcard-suffix_example :
    (matches_wildcard (b'*' ∷ b'.' ∷ bytes "org") (some (bytes "a.org")) ≡ true)
    ↔ ((label : Text) × (bytes "a.org" ≡ label ++ b'.' ∷ bytes "org"))
matches_wildcard-suffix_example = matches_wildcard-suffix (bytes "org") (bytes "a.org")

matches_wildcard-prefix_example :
    (matches_wildcard (bytes "app" ++ bytes ".*") (some (bytes "app.org")) ≡ true)
    ↔ ((rest : Text) × (bytes "app.org" ≡ bytes "app" ++ b'.' ∷ rest))
matches_wildcard-prefix_example = matches_wildcard-prefix (bytes "app") (bytes "app.org") refl
