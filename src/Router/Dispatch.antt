-- ===== src/Router/Dispatch.antt =====
-- crates/pavis/src/router/matcher.rs: `match_request`, over the virtual hosts of the router.
use mathlib.Core.Option
use pavis.Prelude.{true, false, Option, none, some, List, [], ◌∷◌}
use pavis.Prelude.Text.{Text}
use pavis.Prelude.HashMap.{lookup}
use pavis.Routing.{Route, VirtualHost}
use pavis.Regex.{RegexEngine}
use pavis.Router.{CompiledVirtualHost, Router}
use pavis.Router.HostPattern.{normalize_host, matches_wildcard}
use pavis.Router.Stats.{PredicateStats, no_stats, add_stats}
use pavis.Router.Matcher.{Request, Found, try_zones}

pub record MatchVerdict : Type 0 where
  pub selection : Option (VirtualHost × Route)
  pub stats : PredicateStats

-- The host that the router looks for.
abbrev pub requested_host : Request → Option Text
requested_host request = Option.map normalize_host request.host_header

module _ (engine : RegexEngine) (router : Router) (request : Request) where
  -- The closure of that name.
  unfoldable pub try_match : CompiledVirtualHost → Found
  unfolding try_zones
  try_match c =
      try_zones engine router.regex_cache router.regex_limits request c.config.paths c.zones
        no_stats

  -- The loop over the wildcard hosts, with the statistics so far; `none` is a panic.
  unfoldable pub try_wildcards : List CompiledVirtualHost → PredicateStats → Option MatchVerdict
  try_wildcards [] stats = some (record { selection = none; stats = stats })
  try_wildcards (c ∷ cs) stats = elim (matches_wildcard c.config.host (requested_host request)) [
    | false ↦ try_wildcards cs stats
    | true ↦ elim (try_match c) [
      | none ↦ none
      | some (some route, found) ↦
          some (record { selection = some (c.config, route); stats = add_stats stats found })
      | some (none, missed) ↦ try_wildcards cs (add_stats stats missed)
    ]
  ]

  abbrev pub exact_candidate : Option Text → Option CompiledVirtualHost
  exact_candidate none = none
  exact_candidate (some h) = lookup h router.exact_hosts

  unfoldable pub match_request : Option MatchVerdict
  match_request = elim (exact_candidate (requested_host request)) [
    | none ↦ try_wildcards router.wildcard_hosts no_stats
    | some c ↦ elim (try_match c) [
      | none ↦ none
      | some (some route, found) ↦
          some (record { selection = some (c.config, route); stats = add_stats no_stats found })
      | some (none, missed) ↦ try_wildcards router.wildcard_hosts (add_stats no_stats missed)
    ]
  ]
