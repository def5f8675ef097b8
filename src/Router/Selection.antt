-- ===== src/Router/Selection.antt =====
-- The whole router, validated, built and asked, beside its specification.
use mathlib.Core.Path.{subst}
use pavis.Prelude.{
  Bool, true, false, not, ◌&&◌, ◌≡◌, refl, ap, Option, none, some, List, [], ◌∷◌, ◌++◌, All, retain,
  or_else, find, inl, inr, arith, Bool-cases, Option-cases, if◌then◌else◌,
}
use pavis.Prelude.Text.{Text, text_eq}
use pavis.Prelude.HashMap.{lookup}
use pavis.Routing.{Route, VirtualHost, RegexLimits}
use pavis.Regex.{RegexEngine, RegexCache, ok, validate_and_compile_regexes}
use pavis.Regex.Coverage.{IsCovered, IsVhostAccepted, validate-covers}
use pavis.Router.{CompiledVirtualHost, Router, is_wildcard, with_regex}
use pavis.Router.HostPattern.{matches_wildcard}
use pavis.Router.Stats.{PredicateStats, no_stats, add_stats}
use pavis.Router.Matcher.{Request}
use pavis.Router.Dispatch.{
  MatchVerdict, requested_host, try_wildcards, exact_candidate, match_request,
}
use pavis.Router.Spec.{accepts, first_hit, last_exact, exact_host_of, at_most_one, candidates}
use pavis.Router.Hosted.{
  Wildcards, done, skip, keep, Leads, add_vhosts-Wildcards, add_vhosts-exact, add_vhosts-regexes,
  try_match_lem,
}

-- The verdict selects `selection`, with some statistics, and no panic.
abbrev pub Selected : Option MatchVerdict → Option (VirtualHost × Route) → Type 0
Selected verdict selection =
    (stats : PredicateStats) × (verdict ≡ some (record { selection = selection; stats = stats }))

module _ (engine : RegexEngine) (router : Router) (request : Request) where
  abbrev IsServed : VirtualHost → Type 0
  IsServed v = IsCovered engine router.regex_limits router.regex_cache v.paths

  abbrev answer : List VirtualHost → Option (VirtualHost × Route)
  answer vs = first_hit engine router.regex_limits request vs

  abbrev asked : VirtualHost → Bool
  asked v = is_wildcard v.host && matches_wildcard v.host (requested_host request)

  try_wildcards_lem :
      {vs : List VirtualHost} {cs : List CompiledVirtualHost}
      → Wildcards engine vs cs
      → All IsServed vs
      → (stats : PredicateStats)
      → Selected (try_wildcards engine router request cs stats) (answer (retain asked vs))
  unfolding try_wildcards
  try_wildcards_lem done h stats = (stats, refl)
  try_wildcards_lem (skip {v} {vs} {cs} plain w) (p, h) stats =
      let (s, e) = try_wildcards_lem w h stats in (s, rw plain e)
  try_wildcards_lem (keep {v} {vs} {c} {cs} wild k w) (p, h) stats =
      let host = ap (λ (x : VirtualHost). matches_wildcard x.host (requested_host request)) k.0 in
      let (found, e) = try_match_lem engine router request v c k p in
      elim (Bool-cases (matches_wildcard v.host (requested_host request))) [
        | inr other ↦ let (s, rest) = try_wildcards_lem w h stats in (s, ground arith)
        | inl matched ↦
            elim (Option-cases (find (accepts engine router.regex_limits request) v.paths)) [
              | inr (r, hit) ↦
                  (add_stats stats found, ground (arith, ap (λ (x : VirtualHost). x) k.0))
              | inl missed ↦
                  let (s, rest) = try_wildcards_lem w h (add_stats stats found) in (s, ground arith)
            ]
      ]

  match_request_lem :
      (vs : List VirtualHost) (exact : Option VirtualHost)
      → Leads engine exact none (exact_candidate engine router request (requested_host request))
      → All IsServed (at_most_one exact)
      → Wildcards engine vs router.wildcard_hosts
      → All IsServed vs
      → Selected
          (match_request engine router request)
          (answer (at_most_one exact ++ retain asked vs))
  unfolding match_request
  match_request_lem vs none l _ w h = rw (l, match_request) (try_wildcards_lem w h no_stats)
  match_request_lem vs (some v) (c, l, k) (p, _) w h =
      let (found, e) = try_match_lem engine router request v c k p in
      elim (Option-cases (find (accepts engine router.regex_limits request) v.paths)) [
        | inr (r, hit) ↦ (add_stats no_stats found, ground (arith, ap (λ (x : VirtualHost). x) k.0))
        | inl missed ↦
            let (s, rest) = try_wildcards_lem w h (add_stats no_stats found) in (s, ground arith)
      ]

served_exact :
    (P : VirtualHost → Type 0) (h : Text) (vs : List VirtualHost)
    → All P vs
    → All P (at_most_one (last_exact h vs))
served_exact P h [] _ = tt
served_exact P h (v ∷ vs) (p, a) =
    served_or (last_exact h vs) (not (is_wildcard v.host) && text_eq h v.host) v p
      (served_exact P h vs a)
  where
    served_or :
        (o : Option VirtualHost) (b : Bool) (v : VirtualHost)
        → P v
        → All P (at_most_one o)
        → All P (at_most_one (or_else o (if b then some v else none)))
    served_or none true v p a = (p, tt)
    served_or none false v p a = tt
    served_or (some w) b v p a = a

served_host :
    (P : VirtualHost → Type 0) (host : Option Text) (vs : List VirtualHost)
    → All P vs
    → All P (at_most_one (exact_host_of host vs))
served_host P none vs a = tt
served_host P (some h) vs a = served_exact P h vs a

exact-Leads :
    (engine : RegexEngine) (routes : List VirtualHost) (limits : RegexLimits) (cache : RegexCache)
    (router : Router) (request : Request) (host : Option Text)
    → with_regex engine routes cache limits ≡ some router
    → Leads engine (exact_host_of host routes) none (exact_candidate engine router request host)
unfolding with_regex lookup
exact-Leads engine routes limits cache router request none built = refl
exact-Leads engine routes limits cache router request (some h) built =
    add_vhosts-exact engine h routes _ router built

All-IsCovered :
    (engine : RegexEngine) (limits : RegexLimits) (cache : RegexCache) (vs : List VirtualHost)
    → All (IsVhostAccepted engine limits cache) vs
    → All (λ (v : VirtualHost). IsCovered engine limits cache v.paths) vs
All-IsCovered engine limits cache [] _ = tt
All-IsCovered engine limits cache (v ∷ vs) ((c, _), a) = (c, All-IsCovered engine limits cache vs a)

-- For a configuration whose regexes were validated and whose router was built, every request gets
-- the first route, in the order of the configuration, that accepts it, of the first virtual host
-- that has one: the exact host of the request (the last one given under that name), then the
-- matching wildcard hosts in their order; and where there is none, no route. No index is out of
-- bounds on the way.
pub match_request-first :
    (engine : RegexEngine) (routes : List VirtualHost) (limits : RegexLimits) (cache : RegexCache)
    (router : Router) (request : Request)
    → validate_and_compile_regexes engine limits routes ≡ ok cache
    → with_regex engine routes cache limits ≡ some router
    → Selected
        (match_request engine router request)
        (first_hit engine limits request (candidates (requested_host request) routes))
unfolding with_regex
match_request-first engine routes limits cache router request validated built =
    let (same_cache, same_limits) = add_vhosts-regexes engine routes _ router built in
    let (cs, same_hosts, w) = add_vhosts-Wildcards engine routes _ router built in
    let covered : All (IsServed engine router request) routes =
      rw (same_limits, same_cache)
        (All-IsCovered engine limits cache routes
          (validate-covers engine limits routes cache validated).0) in
    let answered =
      match_request_lem engine router request routes (exact_host_of (requested_host request) routes)
        (exact-Leads engine routes limits cache router request (requested_host request) built)
        (served_host (IsServed engine router request) (requested_host request) routes covered)
        (rw same_hosts w) covered in
    subst
      (λ ls.
        Selected (match_request engine router request)
          (first_hit engine ls request (candidates (requested_host request) routes)))
      same_limits answered
