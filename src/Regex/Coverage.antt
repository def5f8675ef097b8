-- ===== src/Regex/Coverage.antt =====
-- What the cache holds of the header patterns of an applied configuration.
use pavis.Prelude.{
  ℕ, ◌+◌, ◌≤◌, true, ◌≡◌, refl, ap, ◌∙◌, none, some, List, [], ◌∷◌, All, inl, inr, arith,
  Option-cases,
}
use pavis.Prelude.Text.{Text, text_eq→eq, text_eq_refl}
use pavis.Prelude.HashMap.{lookup, insert, lookup-insert}
use pavis.Routing.{
  HeaderMatch, regex, HeaderPredicate, HeaderPredicates, Route, VirtualHost, RegexLimits,
}
use pavis.Regex.{
  RegexEngine, CompiledRegex, RegexCache, Compiled, ok, err, ◌>>=◌, compile_regex_pattern,
  compile_matcher, collect_predicates, collect_and_compile_from_matcher, collect_paths,
  count_regexes_in_route, validate_routes, validate_and_compile_regexes,
}

>>=-eq-ok :
    (m : Compiled) (f : RegexCache → Compiled) {c : RegexCache}
    → (m >>= f) ≡ ok c
    → (b : RegexCache) × (m ≡ ok b) × (f b ≡ ok c)
>>=-eq-ok (ok b) f h = (b, refl, h)
>>=-eq-ok (err e) f h = cc

abbrev pub total_regexes : List VirtualHost → ℕ
total_regexes [] = 0
total_regexes (v ∷ vs) = count_regexes_in_route v.paths + total_regexes vs

module _ (engine : RegexEngine) (limits : RegexLimits) where
  -- The pattern compiles, within the size limit.
  abbrev pub IsCompilable : Text → Type 0
  IsCompilable p =
      (engine.compiles_bytes p ≡ true) × (engine.builds limits.size_limit_bytes p ≡ true)

  -- An entry is the compilation of its key.
  abbrev IsSound : RegexCache → Type 0
  IsSound cache =
      (p : Text) (r : CompiledRegex)
      → lookup p cache ≡ some r
      → (r ≡ record { pattern = p }) × IsCompilable p

  abbrev IsCached : RegexCache → Text → Type 0
  IsCached cache p = (lookup p cache ≡ some (record { pattern = p })) × IsCompilable p

  abbrev pub IsHeaderCovered : RegexCache → HeaderMatch → Type 0
  IsHeaderCovered cache (regex p) = IsCached cache p
  IsHeaderCovered cache _ = Unit

  abbrev pub IsHeadersCovered : RegexCache → HeaderPredicates → Type 0
  IsHeadersCovered cache HeaderPredicates.none = Unit
  IsHeadersCovered cache (HeaderPredicates.some ps) =
      All (λ (p : HeaderPredicate). IsHeaderCovered cache p.matcher) ps

  abbrev pub IsCovered : RegexCache → List Route → Type 0
  IsCovered cache rs = All (λ (r : Route). IsHeadersCovered cache r.matcher.headers) rs

  abbrev Extends : RegexCache → RegexCache → Type 0
  Extends c d = (p : Text) (r : CompiledRegex) → lookup p c ≡ some r → lookup p d ≡ some r

  -- Compiling keeps what was in the cache, and keeps the cache sound.
  abbrev IsGrown : RegexCache → RegexCache → Type 0
  IsGrown c d = IsSound d × Extends c d

  IsCached-of_sound :
      (c : RegexCache) (p : Text) (r : CompiledRegex)
      → IsSound c
      → lookup p c ≡ some r
      → IsCached c p
  IsCached-of_sound c p r s e = (e ∙ ap some (s p r e).0, (s p r e).1)

  insert-IsSound :
      (c : RegexCache) (p : Text)
      → IsSound c
      → IsCompilable p
      → IsSound (insert p (record { pattern = p }) c)
  insert-IsSound c p s k q r e =
      ground (arith, lookup-insert p q (record { pattern = p }) c, text_eq→eq q p, s q r)

  insert-Extends :
      (c : RegexCache) (p : Text) (r : CompiledRegex) → lookup p c ≡ none → Extends c (insert p r c)
  insert-Extends c p r missing q w e = ground (arith, lookup-insert p q r c, text_eq→eq q p)

  compile_regex_pattern_lem :
      (p : Text) (c : RegexCache) {d : RegexCache}
      → IsSound c
      → compile_regex_pattern engine limits p c ≡ ok d
      → IsGrown c d × IsCached d p
  unfolding compile_regex_pattern
  compile_regex_pattern_lem p c {d} s e = elim (Option-cases (lookup p c)) [
    | inr (r, found) ↦
        let same : c ≡ d = ground arith in
        rw (← same) ((s, λ q w h. h), IsCached-of_sound c p r s found)
    | inl missing ↦
        let k : IsCompilable p = (ground arith, ground arith) in
        let same : insert p (record { pattern = p }) c ≡ d = ground arith in
        rw (← same) (
          (insert-IsSound c p s k, insert-Extends c p (record { pattern = p }) missing),
          (rw (lookup-insert p p (record { pattern = p }) c, text_eq_refl p), k),
        )
  ]

  header_mono :
      (c d : RegexCache) (m : HeaderMatch) → Extends c d → IsHeaderCovered c m → IsHeaderCovered d m
  header_mono c d (regex p) x (e, k) = (x p (record { pattern = p }) e, k)
  header_mono c d m x h = h

  predicates_mono :
      (c d : RegexCache) (ps : List HeaderPredicate)
      → Extends c d
      → All (λ (p : HeaderPredicate). IsHeaderCovered c p.matcher) ps
      → All (λ (p : HeaderPredicate). IsHeaderCovered d p.matcher) ps
  predicates_mono c d [] x h = tt
  predicates_mono c d (p ∷ ps) x (q, h) =
      (header_mono c d p.matcher x q, predicates_mono c d ps x h)

  headers_mono :
      (c d : RegexCache) (hs : HeaderPredicates)
      → Extends c d
      → IsHeadersCovered c hs
      → IsHeadersCovered d hs
  headers_mono c d HeaderPredicates.none x h = h
  headers_mono c d (HeaderPredicates.some ps) x h = predicates_mono c d ps x h

  routes_mono : (c d : RegexCache) (rs : List Route) → Extends c d → IsCovered c rs → IsCovered d rs
  routes_mono c d [] x h = tt
  routes_mono c d (r ∷ rs) x (q, h) =
      (headers_mono c d r.matcher.headers x q, routes_mono c d rs x h)

  IsGrown-trans : (b c d : RegexCache) → IsGrown b c → IsGrown c d → IsGrown b d
  IsGrown-trans b c d (_, x) (s, y) = (s, λ p r e. y p r (x p r e))

  compile_matcher_lem :
      (m : HeaderMatch) (c : RegexCache) {d : RegexCache}
      → IsSound c
      → compile_matcher engine limits m c ≡ ok d
      → IsGrown c d × IsHeaderCovered d m
  unfolding compile_matcher
  compile_matcher_lem (regex p) c s e = compile_regex_pattern_lem p c s e
  compile_matcher_lem m c {d} s e = let same : c ≡ d = cc in rw (← same) ((s, λ q w h. h), tt)

  collect_predicates_lem :
      (ps : List HeaderPredicate) (c : RegexCache) {d : RegexCache}
      → IsSound c
      → collect_predicates engine limits ps c ≡ ok d
      → IsGrown c d × All (λ (p : HeaderPredicate). IsHeaderCovered d p.matcher) ps
  unfolding collect_predicates
  collect_predicates_lem [] c {d} s e = let same : c ≡ d = cc in rw (← same) ((s, λ q w h. h), tt)
  collect_predicates_lem (p ∷ ps) c {d} s e =
      let (b, first, later) = >>=-eq-ok (compile_matcher engine limits p.matcher c) _ e in
      let (g, covered) = compile_matcher_lem p.matcher c s first in
      let (g', rest) = collect_predicates_lem ps b g.0 later in
      (IsGrown-trans c b d g g', (header_mono b d p.matcher g'.1 covered, rest))

  collect_matcher_lem :
      (hs : HeaderPredicates) (c : RegexCache) {d : RegexCache}
      → IsSound c
      → collect_and_compile_from_matcher engine limits hs c ≡ ok d
      → IsGrown c d × IsHeadersCovered d hs
  unfolding collect_and_compile_from_matcher
  collect_matcher_lem HeaderPredicates.none c {d} s e =
      let same : c ≡ d = cc in rw (← same) ((s, λ q w h. h), tt)
  collect_matcher_lem (HeaderPredicates.some ps) c s e = collect_predicates_lem ps c s e

  collect_paths_lem :
      (rs : List Route) (c : RegexCache) {d : RegexCache}
      → IsSound c
      → collect_paths engine limits rs c ≡ ok d
      → IsGrown c d × IsCovered d rs
  unfolding collect_paths
  collect_paths_lem [] c {d} s e = let same : c ≡ d = cc in rw (← same) ((s, λ q w h. h), tt)
  collect_paths_lem (r ∷ rs) c {d} s e =
      let (b, first, later) =
        >>=-eq-ok (collect_and_compile_from_matcher engine limits r.matcher.headers c) _ e in
      let (g, covered) = collect_matcher_lem r.matcher.headers c s first in
      let (g', rest) = collect_paths_lem rs b g.0 later in
      (IsGrown-trans c b d g g', (headers_mono b d r.matcher.headers g'.1 covered, rest))

  -- What one virtual host keeps of an accepted configuration.
  abbrev pub IsVhostAccepted : RegexCache → VirtualHost → Type 0
  IsVhostAccepted cache v =
      IsCovered cache v.paths × (count_regexes_in_route v.paths ≤ limits.max_regex_per_route)

  validate_routes_lem :
      (vs : List VirtualHost) (total : ℕ) (c : RegexCache) {d : RegexCache}
      → IsSound c
      → validate_routes engine limits vs total c ≡ ok d
      → IsGrown c d
        × All (IsVhostAccepted d) vs
        × (total + total_regexes vs ≤ limits.max_regex_per_config)
  unfolding validate_routes
  validate_routes_lem [] total c {d} s e =
      let same : c ≡ d = ground arith in rw (← same) ((s, λ q w h. h), tt, ground arith)
  validate_routes_lem (v ∷ vs) total c {d} s e =
      let within : count_regexes_in_route v.paths ≤ limits.max_regex_per_route = ground arith in
      let (b, first, later) =
        >>=-eq-ok (collect_paths engine limits v.paths c)
          (validate_routes engine limits vs (total + count_regexes_in_route v.paths))
          (ground arith) in
      let (g, covered) = collect_paths_lem v.paths c s first in
      let (g', rest, bound) = validate_routes_lem vs _ b g.0 later in
      (
        IsGrown-trans c b d g g',
        ((routes_mono b d v.paths g'.1 covered, within), rest),
        omega arith,
      )

  pub validate-covers :
      (routes : List VirtualHost) (cache : RegexCache)
      → validate_and_compile_regexes engine limits routes ≡ ok cache
      → All (IsVhostAccepted cache) routes × (total_regexes routes ≤ limits.max_regex_per_config)
  unfolding validate_and_compile_regexes lookup
  validate-covers routes cache e =
      let (g, accepted, bound) = validate_routes_lem routes 0 [] (λ p r h. cc) e in
      (accepted, omega arith)
