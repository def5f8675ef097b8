-- ===== src/Router/Hosted.antt =====
-- The virtual hosts in the built router: the exact ones by their host, the last one winning, and the
-- wildcards in their order.
use pavis.Prelude.{
  true, false, not, ◌&&◌, ◌≡◌, ap, Option, none, some, List, [], ◌∷◌, ◌++◌, or_else, find, inl, inr,
  arith, Bool-cases, Option-cases, if◌then◌else◌,
}
use mathlib.Core.List.{append-nil, append_assoc}
use pavis.Prelude.Text.{Text, text_eq}
use pavis.Prelude.HashMap.{lookup, lookup-insert}
use pavis.Routing.{VirtualHost}
use pavis.Regex.{RegexEngine}
use pavis.Regex.Coverage.{IsCovered}
use pavis.Router.{
  CompiledVirtualHost, Router, finish, no_zoning, add_routes, compile_vhost, is_wildcard, add_vhost,
  add_vhosts,
}
use pavis.Router.Stats.{no_stats}
use pavis.Router.Matcher.{Request}
use pavis.Router.Dispatch.{try_match}
use pavis.Router.Spec.{accepts, last_exact}
use pavis.Router.Zones.{Finds}
use pavis.Router.Build.{zones_lem}

module _ (engine : RegexEngine) where
  -- `c` is the compilation of `v`.
  abbrev pub IsCompiled : VirtualHost → CompiledVirtualHost → Type 0
  IsCompiled v c = (c.config ≡ v) × (compile_vhost engine v ≡ some c)

  -- The wildcard hosts among `vs`, compiled in their order.
  pub data Wildcards : List VirtualHost → List CompiledVirtualHost → Type 0 where
    done : Wildcards [] []
    skip :
        {v : VirtualHost} {vs : List VirtualHost} {cs : List CompiledVirtualHost}
        → is_wildcard v.host ≡ false
        → Wildcards vs cs
        → Wildcards (v ∷ vs) cs
    keep :
        {v : VirtualHost} {vs : List VirtualHost} {c : CompiledVirtualHost}
        {cs : List CompiledVirtualHost}
        → is_wildcard v.host ≡ true
        → IsCompiled v c
        → Wildcards vs cs
        → Wildcards (v ∷ vs) (c ∷ cs)

  -- What a key of the exact hosts leads to, after the hosts `vs`, if it led to `before` before them.
  abbrev pub Leads :
      Option VirtualHost → Option CompiledVirtualHost → Option CompiledVirtualHost → Type 0
  Leads none before after = after ≡ before
  Leads (some v) before after = (c : CompiledVirtualHost) × (after ≡ some c) × IsCompiled v c

  compile_vhost-IsCompiled :
      (v : VirtualHost) (c : CompiledVirtualHost) → compile_vhost engine v ≡ some c → IsCompiled v c
  unfolding compile_vhost
  compile_vhost-IsCompiled v c e = elim (Option-cases (add_routes engine 0 v.paths no_zoning)) [
    | inl failed ↦ absurd (ground arith)
    | inr (z, zoned) ↦ (ground arith, e)
  ]

  same_wildcard :
      (v : VirtualHost) (c : CompiledVirtualHost)
      → IsCompiled v c
      → is_wildcard c.config.host ≡ is_wildcard v.host
  same_wildcard v c k = ap (λ (x : VirtualHost). is_wildcard x.host) k.0

  pub add_vhosts-Wildcards :
      (vs : List VirtualHost) (router router' : Router)
      → add_vhosts engine vs router ≡ some router'
      → (cs : List CompiledVirtualHost) × (router'.wildcard_hosts ≡ router.wildcard_hosts ++ cs)
        × Wildcards vs cs
  unfolding add_vhosts
  add_vhosts-Wildcards [] router router' e =
      ([], ground (arith, append-nil router.wildcard_hosts), done)
  add_vhosts-Wildcards (v ∷ vs) router router' e = elim (Option-cases (compile_vhost engine v)) [
    | inl failed ↦ absurd (ground arith)
    | inr (c, compiled) ↦
        let k = compile_vhost-IsCompiled v c compiled in
        let (cs, grown, rest) =
          add_vhosts-Wildcards vs (add_vhost c router) router' (ground arith) in
        elim (Bool-cases (is_wildcard v.host)) [
          | inl wild ↦ (
            c ∷ cs,
            ground (arith, same_wildcard v c k, append_assoc router.wildcard_hosts (c ∷ []) cs),
            keep wild k rest,
          )
          | inr plain ↦ (cs, ground (arith, same_wildcard v c k), skip plain rest)
        ]
  ]

  Leads-cons :
      (h : Text) (v : VirtualHost) (c : CompiledVirtualHost) (router : Router)
      (rest : Option VirtualHost) (after : Option CompiledVirtualHost)
      → IsCompiled v c
      → Leads rest (lookup h (add_vhost c router).exact_hosts) after
      → Leads
          (or_else rest (if not (is_wildcard v.host) && text_eq h v.host then some v else none))
          (lookup h router.exact_hosts)
          after
  Leads-cons h v c router (some w) after k l = l
  Leads-cons h v c router none after k l =
      elim (Bool-cases (not (is_wildcard v.host) && text_eq h v.host)) [
        | inl served ↦ rw served (
          c,
          ground (
            arith,
            same_wildcard v c k,
            ap (λ (x : VirtualHost). x.host) k.0,
            lookup-insert c.config.host h c router.exact_hosts,
          ),
          k,
        )
        | inr other ↦ rw other (
            ground (
              arith,
              same_wildcard v c k,
              ap (λ (x : VirtualHost). x.host) k.0,
              lookup-insert c.config.host h c router.exact_hosts,
            ))
      ]

  pub add_vhosts-exact :
      (h : Text) (vs : List VirtualHost) (router router' : Router)
      → add_vhosts engine vs router ≡ some router'
      → Leads (last_exact h vs) (lookup h router.exact_hosts) (lookup h router'.exact_hosts)
  unfolding add_vhosts
  add_vhosts-exact h [] router router' e = ground arith
  add_vhosts-exact h (v ∷ vs) router router' e = elim (Option-cases (compile_vhost engine v)) [
    | inl failed ↦ absurd (ground arith)
    | inr (c, compiled) ↦
        Leads-cons h v c router (last_exact h vs) (lookup h router'.exact_hosts)
          (compile_vhost-IsCompiled v c compiled)
          (add_vhosts-exact h vs (add_vhost c router) router' (ground arith))
  ]

  pub add_vhosts-regexes :
      (vs : List VirtualHost) (router router' : Router)
      → add_vhosts engine vs router ≡ some router'
      → (router'.regex_cache ≡ router.regex_cache) × (router'.regex_limits ≡ router.regex_limits)
  unfolding add_vhosts
  add_vhosts-regexes [] router router' e = (ground arith, ground arith)
  add_vhosts-regexes (v ∷ vs) router router' e = elim (Option-cases (compile_vhost engine v)) [
    | inl failed ↦ absurd (ground arith)
    | inr (c, compiled) ↦
        let (cache, limits) = add_vhosts-regexes vs (add_vhost c router) router' (ground arith) in
        (ground arith, ground arith)
  ]

  -- A compiled host finds the first of its routes that the specification accepts.
  pub try_match_lem :
      (router : Router) (request : Request) (v : VirtualHost) (c : CompiledVirtualHost)
      → IsCompiled v c
      → IsCovered engine router.regex_limits router.regex_cache v.paths
      → Finds
          (try_match engine router request c)
          (find (accepts engine router.regex_limits request) v.paths)
  unfolding try_match compile_vhost
  try_match_lem router request v c (_, compiled) covered =
      elim (Option-cases (add_routes engine 0 v.paths no_zoning)) [
        | inl failed ↦ absurd (ground arith)
        | inr (z, zoned) ↦
            let same : record { config = v; zones = finish z } ≡ c = ground arith in
            rw (← same) (
              zones_lem engine router.regex_cache router.regex_limits request v.paths covered z
                zoned no_stats)
      ]
