-- ===== src/Router.antt =====
-- crates/pavis/src/router.rs: building the router from the virtual hosts. The routes of a host are
-- split into zones: runs of routes that are tried in order, and hash maps of exact paths.
pub mod Stats
pub mod HostPattern
pub mod Matcher
pub mod Dispatch
pub mod Spec
pub mod Hosts
pub mod Headers
pub mod Zones
pub mod Entry
pub mod Build
pub mod Hosted
pub mod Selection
mod Tests
use pavis.Prelude.{
  ℕ, suc, Bool, true, false, not, ◌||◌, Option, none, some, List, [], ◌∷◌, ◌++◌, if◌then◌else◌,
}
use pavis.Prelude.Text.{Text, bytes, text_eq, contains_byte}
use pavis.Prelude.HashMap.{insert, or_insert}
use pavis.Routing.{PathMatch, MethodPredicate, HeaderPredicates, Route, VirtualHost, RegexLimits}
use pavis.Regex.{RegexEngine, RegexCache}

-- A compiled path regex is given by its pattern.
pub record CompiledRoute : Type 0 where
  pub index : ℕ
  pub regex : Option Text

abbrev pub RouteMap : Type 0
RouteMap = List (Text × CompiledRoute)

pub data RouteZone : Type 0 where
  linear : List CompiledRoute → RouteZone
  exact_map : RouteMap → RouteZone

pub record CompiledVirtualHost : Type 0 where
  pub config : VirtualHost
  pub zones : List RouteZone

pub record Router : Type 0 where
  pub exact_hosts : List (Text × CompiledVirtualHost)
  pub wildcard_hosts : List CompiledVirtualHost
  pub regex_cache : RegexCache
  pub regex_limits : RegexLimits

-- The local variables of the loop over the routes of one host.
pub record Zoning : Type 0 where
  pub zones : List RouteZone
  pub current_linear : Option (List CompiledRoute)
  pub current_map : Option RouteMap

abbrev pub is_any_method : MethodPredicate → Bool
is_any_method MethodPredicate.any = true
is_any_method _ = false

abbrev pub is_no_headers : HeaderPredicates → Bool
is_no_headers HeaderPredicates.none = true
is_no_headers _ = false

abbrev pub has_predicates : Route → Bool
has_predicates r = not (is_any_method r.matcher.method) || not (is_no_headers r.matcher.headers)

abbrev pub flushed_linear : List RouteZone → Option (List CompiledRoute) → List RouteZone
flushed_linear zones none = zones
flushed_linear zones (some l) = zones ++ linear l ∷ []

abbrev pub flushed_map : List RouteZone → Option RouteMap → List RouteZone
flushed_map zones none = zones
flushed_map zones (some m) = zones ++ exact_map m ∷ []

abbrev pub added_to_map : Text → CompiledRoute → Option RouteMap → RouteMap
added_to_map path c none = insert path c []
added_to_map path c (some m) = or_insert path c m

abbrev pub added_to_linear : CompiledRoute → Option (List CompiledRoute) → List CompiledRoute
added_to_linear c none = c ∷ []
added_to_linear c (some l) = l ++ c ∷ []

-- The first arm: an exact path with no other predicate goes into the current map.
abbrev pub add_exact : Text → ℕ → Zoning → Zoning
add_exact path index z = record {
  zones = flushed_linear z.zones z.current_linear;
  current_linear = none;
  current_map = some (added_to_map path (record { index = index; regex = none }) z.current_map);
}

-- The second arm: any other route goes to the end of the current run.
abbrev pub add_linear : Option Text → ℕ → Zoning → Zoning
add_linear regex index z = record {
  zones = flushed_map z.zones z.current_map;
  current_linear =
      some (added_to_linear (record { index = index; regex = regex }) z.current_linear);
  current_map = none;
}

-- The zones after the loop, with what is left over.
abbrev pub finish : Zoning → List RouteZone
finish z = flushed_map (flushed_linear z.zones z.current_linear) z.current_map

abbrev pub no_zoning : Zoning
no_zoning = record { zones = []; current_linear = none; current_map = none }

-- The host of a virtual host that is kept in the list of wildcards.
abbrev pub is_wildcard : Text → Bool
is_wildcard host = text_eq host (bytes "*") || contains_byte b'*' host

abbrev pub add_vhost : CompiledVirtualHost → Router → Router
add_vhost c router =
    if is_wildcard c.config.host
    then record router { wildcard_hosts = router.wildcard_hosts ++ c ∷ [] }
    else record router { exact_hosts = insert c.config.host c router.exact_hosts }

module _ (engine : RegexEngine) where
  -- `none` is the error of a path regex that does not compile.
  abbrev pub add_route : PathMatch → Route → ℕ → Zoning → Option Zoning
  add_route (PathMatch.exact path) r index z =
      if has_predicates r then some (add_linear none index z) else some (add_exact path index z)
  add_route (PathMatch.prefix path) r index z = some (add_linear none index z)
  add_route (PathMatch.regex path) r index z =
      if engine.compiles path then some (add_linear (some path) index z) else none

  pub add_routes : ℕ → List Route → Zoning → Option Zoning
  add_routes index [] z = some z
  add_routes index (r ∷ rs) z = elim (add_route r.matcher.path r index z) [
    | none ↦ none
    | some z' ↦ add_routes (suc index) rs z'
  ]

  pub compile_vhost : VirtualHost → Option CompiledVirtualHost
  unfolding add_routes
  compile_vhost v = elim (add_routes 0 v.paths no_zoning) [
    | none ↦ none
    | some z ↦ some (record { config = v; zones = finish z })
  ]

  pub add_vhosts : List VirtualHost → Router → Option Router
  unfolding compile_vhost
  add_vhosts [] router = some router
  add_vhosts (v ∷ vs) router = elim (compile_vhost v) [
    | none ↦ none
    | some c ↦ add_vhosts vs (add_vhost c router)
  ]

  pub with_regex : List VirtualHost → RegexCache → RegexLimits → Option Router
  unfolding add_vhosts
  with_regex routes cache limits =
      add_vhosts routes (record {
        exact_hosts = [];
        wildcard_hosts = [];
        regex_cache = cache;
        regex_limits = limits;
      })
