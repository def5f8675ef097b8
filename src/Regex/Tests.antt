-- ===== src/Regex/Tests.antt =====
-- Compiling the patterns of small configurations.
use pavis.Prelude.{ℕ, true, ◌≡◌, refl, List, [], ◌∷◌}
use pavis.Prelude.Text.{bytes, text_eq}
use pavis.Prelude.HashMap.{lookup}
use pavis.Routing.{
  PathMatch, HeaderMatch, HeaderPredicates, MethodPredicate, RouteAction, Route, VirtualHost,
  RegexLimits,
}
use pavis.Regex.{RegexEngine, err, RegexError, validate_and_compile_regexes}

abbrev engine : RegexEngine
engine = record {
  compiles = λ p. true;
  is_match = λ p s. text_eq p s;
  compiles_bytes = λ p. true;
  builds = λ n p. true;
  is_match_bytes = λ p s. text_eq p s;
}

abbrev limits : ℕ → RegexLimits
limits n = record {
  pattern_max_bytes = 256;
  size_limit_bytes = 1000;
  input_max_bytes = 4096;
  max_regex_per_route = n;
  max_regex_per_config = 3;
}

abbrev pattern_route : Route
pattern_route = record {
  matcher = record {
    path = PathMatch.prefix (bytes "/");
    method = MethodPredicate.any;
    headers = HeaderPredicates.some (
        record { name = bytes "a"; matcher = HeaderMatch.regex (bytes "x+") }
        ∷ record { name = bytes "b"; matcher = HeaderMatch.regex (bytes "x+") }
        ∷ []);
  };
  action = RouteAction.forward [];
}

abbrev hosts : List VirtualHost
hosts = record { host = bytes "*"; paths = pattern_route ∷ [] } ∷ []

rejected : validate_and_compile_regexes engine (limits 1) hosts ≡ err RegexError.too_many_in_route
unfolding validate_and_compile_regexes lookup
rejected = refl
