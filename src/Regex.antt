-- ===== src/Regex.antt =====
-- The `regex` crate, as a parameter of the model, and crates/pavis/src/regex_validator.rs: compiling
-- the header patterns of a configuration when it is applied.
pub mod Coverage
mod Tests
use pavis.Prelude.{
  ℕ, ◌+◌, Bool, true, false, Option, none, some, List, [], ◌∷◌, length, ltb, if◌then◌else◌,
}
use pavis.Prelude.Text.{Text}
use pavis.Prelude.HashMap.{lookup, insert}
use pavis.Routing.{HeaderMatch, HeaderPredicate, HeaderPredicates, Route, VirtualHost, RegexLimits}

-- A compiled regex is given by its pattern, so the crate is given by which patterns compile
-- (`Regex::new`, `RegexBuilder::size_limit(n).build`) and which inputs they match.
pub record RegexEngine : Type 0 where
  pub compiles : Text → Bool
  pub is_match : Text → Text → Bool
  pub compiles_bytes : Text → Bool
  pub builds : ℕ → Text → Bool
  pub is_match_bytes : Text → Text → Bool

pub record CompiledRegex : Type 0 where
  pub pattern : Text

abbrev pub RegexCache : Type 0
RegexCache = List (Text × CompiledRegex)

-- Why a configuration is rejected.
pub data RegexError : Type 0 where
  too_many_in_route too_many_in_config invalid_syntax compilation_failed : RegexError

pub data Compiled : Type 0 where
  ok : RegexCache → Compiled
  err : RegexError → Compiled

infixl 5 ◌>>=◌
abbrev ◌>>=◌ : Compiled → (RegexCache → Compiled) → Compiled
ok cache >>= f = f cache
err e >>= f = err e

module _ (engine : RegexEngine) where
  -- `CompiledRegex::is_match`.
  unfoldable pub is_match : CompiledRegex → Text → ℕ → Bool
  is_match r input max_len =
      if ltb max_len (length input) then false else engine.is_match_bytes r.pattern input

  module _ (limits : RegexLimits) where
    pub compile_regex_pattern : Text → RegexCache → Compiled
    compile_regex_pattern pattern compiled = elim (lookup pattern compiled) [
      | some _ ↦ ok compiled
      | none ↦
          if engine.compiles_bytes pattern
          then if engine.builds limits.size_limit_bytes pattern
            then ok (insert pattern (record { pattern = pattern }) compiled)
            else err compilation_failed
          else err invalid_syntax
    ]

    compile_matcher : HeaderMatch → RegexCache → Compiled
    unfolding compile_regex_pattern
    compile_matcher (HeaderMatch.regex pattern) compiled = compile_regex_pattern pattern compiled
    compile_matcher _ compiled = ok compiled

    -- The loop of `collect_and_compile_from_matcher`.
    collect_predicates : List HeaderPredicate → RegexCache → Compiled
    unfolding compile_matcher
    collect_predicates [] compiled = ok compiled
    collect_predicates (p ∷ ps) compiled = do
      compiled' ← compile_matcher p.matcher compiled
      collect_predicates ps compiled'

    collect_and_compile_from_matcher : HeaderPredicates → RegexCache → Compiled
    unfolding collect_predicates
    collect_and_compile_from_matcher HeaderPredicates.none compiled = ok compiled
    collect_and_compile_from_matcher (HeaderPredicates.some ps) compiled =
        collect_predicates ps compiled

    collect_paths : List Route → RegexCache → Compiled
    unfolding collect_and_compile_from_matcher
    collect_paths [] compiled = ok compiled
    collect_paths (r ∷ rs) compiled = do
      compiled' ← collect_and_compile_from_matcher r.matcher.headers compiled
      collect_paths rs compiled'

abbrev is_regex : HeaderMatch → Bool
is_regex (HeaderMatch.regex _) = true
is_regex _ = false

count_regexes : List HeaderPredicate → ℕ
count_regexes [] = 0
count_regexes (p ∷ ps) = (if is_regex p.matcher then 1 else 0) + count_regexes ps

count_regexes_in_headers : HeaderPredicates → ℕ
unfolding count_regexes
count_regexes_in_headers HeaderPredicates.none = 0
count_regexes_in_headers (HeaderPredicates.some ps) = count_regexes ps

pub count_regexes_in_route : List Route → ℕ
unfolding count_regexes_in_headers
count_regexes_in_route [] = 0
count_regexes_in_route (r ∷ rs) =
    count_regexes_in_headers r.matcher.headers + count_regexes_in_route rs

module _ (engine : RegexEngine) (limits : RegexLimits) where
  -- The loop over the virtual hosts, with the running total.
  validate_routes : List VirtualHost → ℕ → RegexCache → Compiled
  unfolding collect_paths count_regexes_in_route
  validate_routes [] total compiled =
      if ltb limits.max_regex_per_config total then err too_many_in_config else ok compiled
  validate_routes (v ∷ vs) total compiled =
      let next =
        collect_paths engine limits v.paths compiled
        >>= validate_routes vs (total + count_regexes_in_route v.paths) in
      if ltb limits.max_regex_per_route (count_regexes_in_route v.paths)
      then err too_many_in_route
      else next

  unfoldable pub validate_and_compile_regexes : List VirtualHost → Compiled
  unfolding validate_routes
  validate_and_compile_regexes routes = validate_routes routes 0 []
