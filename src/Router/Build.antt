-- ===== src/Router/Build.antt =====
-- The loop that builds the zones: after each route, the zones and what is pending select the first
-- route, among those seen, that the specification accepts.
use mathlib.Core.Path.{subst, ap₂}
use mathlib.Core.List.{append-nil, append_assoc}
use pavis.Prelude.{
  ℕ, suc, false, ◌≡◌, refl, sym, ap, ◌∙◌, Option, none, some, List, [], ◌∷◌, ◌++◌, inl, inr, arith,
  Bool-cases, Option-cases, get_elem?, get_elem?-append_length, or_else, find, find-append, length,
  length-append,
}
use pavis.Prelude.Text.{Text}
use pavis.Prelude.HashMap.{lookup}
use pavis.Routing.{PathMatch, MethodPredicate, HeaderPredicates, Route, RegexLimits}
use pavis.Regex.{RegexEngine, RegexCache}
use pavis.Regex.Coverage.{IsCovered}
use pavis.Router.{
  CompiledRoute, RouteMap, RouteZone, Zoning, no_zoning, finish, has_predicates, flushed_linear,
  flushed_map, added_to_map, added_to_linear, add_exact, add_linear, add_route, add_routes,
}
use pavis.Router.Matcher.{Request}
use pavis.Router.Spec.{accepts}
use pavis.Router.Headers.{HasRegex}
use pavis.Router.Entry.{
  or_else_assoc, no_entry, insert-IsExact, or_insert-IsExact, picked_first, picked-or_insert,
}
use pavis.Router.Zones.{
  hit, pick, IsExactMap, Selects, SelectsLinear, Selects-nil, SelectsLinear-nil, SelectsLinear-snoc,
  Selects-linear, Selects-exact_map,
}

-- A route that may go into a map asks for nothing but its path.
plain_route :
    (r : Route) (path : Text)
    → r.matcher.path ≡ PathMatch.exact path
    → has_predicates r ≡ false
    → r.matcher ≡ record {
      path = PathMatch.exact path;
      method = MethodPredicate.any;
      headers = HeaderPredicates.none;
    }
plain_route r path e h = ground arith

module _ (engine : RegexEngine) (cache : RegexCache) (limits : RegexLimits) (request : Request)
    (paths : List Route) (covered : IsCovered engine limits cache paths) where
  -- The specification, over the routes seen so far.
  abbrev first : List Route → Option Route
  first rs = find (accepts engine limits request) rs

  abbrev hit_of : Route → Option Route
  hit_of = hit engine cache limits request paths covered

  first-snoc :
      (pre : List Route) (r : Route) → first (pre ++ r ∷ []) ≡ or_else (first pre) (hit_of r)
  first-snoc pre r = find-append (accepts engine limits request) pre (r ∷ [])

  -- At most one of the run and the map is pending.
  abbrev Holds :
      List RouteZone → Option (List CompiledRoute) → Option RouteMap → Option Route → Type 0
  Holds zs none none o = Selects engine cache limits request paths covered zs o
  Holds zs (some l) none o =
      (a b : Option Route) × Selects engine cache limits request paths covered zs a
      × SelectsLinear engine cache limits request paths covered l b
      × (or_else a b ≡ o)
  Holds zs none (some m) o =
      (a : Option Route) × Selects engine cache limits request paths covered zs a
      × IsExactMap engine cache limits request paths covered m
      × (or_else a (pick engine cache limits request paths covered (lookup request.uri_path m)) ≡ o)
  Holds zs (some l) (some m) o = ⊥

  abbrev IsZoned : Zoning → Option Route → Type 0
  IsZoned z o = Holds z.zones z.current_linear z.current_map o

  finish_lem :
      (zs : List RouteZone) (l : Option (List CompiledRoute)) (m : Option RouteMap)
      (o : Option Route)
      → Holds zs l m o
      → Selects engine cache limits request paths covered (flushed_map (flushed_linear zs l) m) o
  finish_lem zs none none o h = h
  finish_lem zs (some l) none o (a, b, h, k, e) =
      subst (Selects engine cache limits request paths covered (flushed_linear zs (some l))) e
        (Selects-linear engine cache limits request paths covered zs l a b h k)
  finish_lem zs none (some m) o (a, h, exact, e) =
      subst (Selects engine cache limits request paths covered (flushed_map zs (some m))) e
        (Selects-exact_map engine cache limits request paths covered zs m a h exact)
  finish_lem zs (some l) (some m) o h = absurd h

  abbrev picked : RouteMap → Option Route
  picked m = pick engine cache limits request paths covered (lookup request.uri_path m)

  abbrev IsExact : RouteMap → Type 0
  IsExact = IsExactMap engine cache limits request paths covered

  module _ (index : ℕ) (r : Route) (at_index : get_elem? paths index ≡ some r) where
    linear_step :
        (regex : Option Text) (zs : List RouteZone) (l : Option (List CompiledRoute))
        (m : Option RouteMap) (o : Option Route)
        → HasRegex engine cache limits request r.matcher.path regex
        → Holds zs l m o
        → Holds
            (flushed_map zs m)
            (some (added_to_linear (record { index = index; regex = regex }) l))
            none
            (or_else o (hit_of r))
    linear_step regex zs none none o has h =
        let c : CompiledRoute = record { index = index; regex = regex } in
        (
          o,
          hit_of r,
          h,
          SelectsLinear-snoc engine cache limits request paths covered [] c r none at_index has
              (SelectsLinear-nil engine cache limits request paths covered),
          refl,
        )
    linear_step regex zs (some l) none o has (a, b, h, k, e) =
        let c : CompiledRoute = record { index = index; regex = regex } in
        (
          a,
          or_else b (hit_of r),
          h,
          SelectsLinear-snoc engine cache limits request paths covered l c r b at_index has k,
          sym (or_else_assoc a b (hit_of r)) ∙ ap (λ t. or_else t (hit_of r)) e,
        )
    linear_step regex zs none (some m) o has (a, h, exact, e) =
        let c : CompiledRoute = record { index = index; regex = regex } in
        (
          or_else a (picked m),
          hit_of r,
          Selects-exact_map engine cache limits request paths covered zs m a h exact,
          SelectsLinear-snoc engine cache limits request paths covered [] c r none at_index has
              (SelectsLinear-nil engine cache limits request paths covered),
          ap (λ t. or_else t (hit_of r)) e,
        )
    linear_step regex zs (some l) (some m) o has h = absurd h

    module _ (path : Text)
        (plain : r.matcher ≡ record {
          path = PathMatch.exact path;
          method = MethodPredicate.any;
          headers = HeaderPredicates.none;
        }) where
      exact_step :
          (zs : List RouteZone) (l : Option (List CompiledRoute)) (m : Option RouteMap)
          (o : Option Route)
          → Holds zs l m o
          → Holds
              (flushed_linear zs l)
              none
              (some (added_to_map path (record { index = index; regex = none }) m))
              (or_else o (hit_of r))
      exact_step zs none none o h = (
        o,
        h,
        insert-IsExact engine cache limits request paths covered index r at_index path plain []
            (no_entry engine cache limits request paths covered index r at_index path plain),
        ap (or_else o)
            (picked_first engine cache limits request paths covered index r at_index path plain),
      )
      exact_step zs (some l) none o (a, b, h, k, e) = (
        or_else a b,
        Selects-linear engine cache limits request paths covered zs l a b h k,
        insert-IsExact engine cache limits request paths covered index r at_index path plain []
            (no_entry engine cache limits request paths covered index r at_index path plain),
        ap₂ or_else e
            (picked_first engine cache limits request paths covered index r at_index path plain),
      )
      exact_step zs none (some m) o (a, h, exact, e) = (
        a,
        h,
        or_insert-IsExact engine cache limits request paths covered index r at_index path plain m
            exact,
        ap (or_else a) (
              picked-or_insert engine cache limits request paths covered index r at_index path plain
                m exact)
            ∙ sym (or_else_assoc a (picked m) (hit_of r))
            ∙ ap (λ t. or_else t (hit_of r)) e,
      )
      exact_step zs (some l) (some m) o h = absurd h

    add_route_lem :
        (p : PathMatch) (z : Zoning) {z' : Zoning} (o : Option Route)
        → r.matcher.path ≡ p
        → add_route engine p r index z ≡ some z'
        → IsZoned z o
        → IsZoned z' (or_else o (hit_of r))
    add_route_lem (PathMatch.prefix path) z {z'} o e built h =
        let same : add_linear none index z ≡ z' = cc in
        rw (← same) (linear_step none z.zones z.current_linear z.current_map o (rw e tt) h)
    add_route_lem (PathMatch.regex path) z {z'} o e built h =
        let same : add_linear (some path) index z ≡ z' = ground arith in
        rw (← same) (linear_step (some path) z.zones z.current_linear z.current_map o (rw e refl) h)
    add_route_lem (PathMatch.exact path) z {z'} o e built h = elim (Bool-cases (has_predicates r)) [
      | inl more ↦
          let same : add_linear none index z ≡ z' = ground arith in
          rw (← same) (linear_step none z.zones z.current_linear z.current_map o (rw e tt) h)
      | inr bare ↦
          let same : add_exact path index z ≡ z' = ground arith in
          rw (← same)
            (exact_step path (plain_route r path e bare) z.zones z.current_linear z.current_map o h)
    ]

  add_routes_lem :
      (pre rs : List Route) (z : Zoning) {z' : Zoning}
      → pre ++ rs ≡ paths
      → add_routes engine (length pre) rs z ≡ some z'
      → IsZoned z (first pre)
      → IsZoned z' (first paths)
  unfolding add_routes
  add_routes_lem pre [] z {z'} e built h =
      let same : z ≡ z' = cc in
      subst (λ o. IsZoned z' o) (ap first (sym (append-nil pre) ∙ e)) (rw (← same) h)
  add_routes_lem pre (r ∷ rs) z {z'} e built h =
      elim (Option-cases (add_route engine r.matcher.path r (length pre) z)) [
        | inl failed ↦ absurd (ground arith)
        | inr (w, next) ↦
            let at_index : get_elem? paths (length pre) ≡ some r =
              rw (← e) (get_elem?-append_length pre r rs) in
            let longer : length (pre ++ r ∷ []) ≡ suc (length pre) =
              omega (arith, length-append pre (r ∷ [])) in
            let later : add_routes engine (suc (length pre)) rs w ≡ some z' = ground arith in
            let step =
              add_route_lem (length pre) r at_index r.matcher.path z (first pre) refl next h in
            add_routes_lem (pre ++ r ∷ []) rs w (append_assoc pre (r ∷ []) rs ∙ e) (rw longer later)
              (rw (first-snoc pre r) step)
      ]

  -- The zones that the loop builds select what the specification does.
  pub zones_lem :
      (z : Zoning)
      → add_routes engine 0 paths no_zoning ≡ some z
      → Selects engine cache limits request paths covered (finish z) (first paths)
  zones_lem z built = finish_lem z.zones z.current_linear z.current_map (first paths) (
      add_routes_lem [] paths no_zoning refl built
        (Selects-nil engine cache limits request paths covered))
