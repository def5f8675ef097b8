-- ===== src/HeaderOps/Room.antt =====
-- The number of values in the header map while a policy is applied.
use mathlib.Core.Option.{some-injective}
use mathlib.Core.Path.{subst}
use pavis.Prelude.{
  ℕ, ◌+◌, ◌≤◌, ◌<◌, Bool, true, false, Option, none, some, List, [], ◌∷◌, ◌++◌, length, ◌≡◌, refl,
  sym, arith,
}
use pavis.Prelude.Text.{Text}
use pavis.HeaderOps.{
  HeaderMap, is_non_joinable, build_joined_value, HeaderRules, HeadersPolicy, disabled, enabled,
  ◌>>=◌, joined_behind, parsed, set_parsed, apply_set, replaced, append_to, append_parsed,
  apply_append, values_of, add_to, apply_add, each, remove_each, apply_rules, stamped,
  apply_headers,
}
use pavis.HeaderOps.Values.{IsBounded, room_for, Values}

module _ (http : HeaderMap) (room : IsBounded http) where
  -- There is a result, and it has at most so many values.
  abbrev pub IsDone : ℕ → Option http.Headers → Type 0
  IsDone most m = (h : http.Headers) × (m ≡ some h) × (room.len h ≤ most)

  IsDone-then :
      (m : Option http.Headers) (f : http.Headers → Option http.Headers) (most total : ℕ)
      → IsDone most m
      → ((h : http.Headers) → room.len h ≤ most → IsDone total (f h))
      → IsDone total (m >>= f)
  IsDone-then none f most total (h, e, le) rest = cc
  IsDone-then (some h) f most total (h', e, le) rest =
      rest h (subst (λ x. room.len x ≤ most) (sym (some-injective h h' e)) le)

  kept : (h : http.Headers) → IsDone (room.len h + 1) (some h)
  kept h = (h, refl, omega arith)

  set-IsDone :
      (rule : Option (Text × List ℕ)) (h : http.Headers)
      → room.len h < room.limit
      → IsDone (room.len h + 1) (set_parsed http rule h)
  set-IsDone none h fits = kept h
  set-IsDone (some (key, val)) h fits = room.can_insert key val h fits

  replaced-IsDone :
      (key : Text) (joined : Option (List ℕ)) (h : http.Headers)
      → room.len h < room.limit
      → IsDone (room.len h + 1) (replaced http key joined h)
  replaced-IsDone key none h fits = kept h
  replaced-IsDone key (some joined) h fits =
      let fewer = room.remove_len key h in
      let (h', e, le) =
        room.can_insert key joined (http.remove key h) (omega (arith, fits, fewer)) in
      (h', e, omega (arith, le, fewer))

  append_to-IsDone :
      (non_joinable : Bool) (key : Text) (val : List ℕ) (vs : Values) (h : http.Headers)
      → room.len h < room.limit
      → IsDone (room.len h + 1) (append_to http non_joinable key val vs h)
  unfolding build_joined_value
  append_to-IsDone true key val vs h fits = room.can_append key val h fits
  append_to-IsDone false key val [] h fits = room.can_insert key val h fits
  append_to-IsDone false key val (v ∷ vs) h fits =
      replaced-IsDone key (http.value_from_bytes (v ++ joined_behind vs val)) h fits

  append-IsDone :
      (non_joinable : Bool) (rule : Option (Text × List ℕ)) (h : http.Headers)
      → room.len h < room.limit
      → IsDone (room.len h + 1) (append_parsed http non_joinable rule h)
  append-IsDone non_joinable none h fits = kept h
  append-IsDone non_joinable (some (key, val)) h fits =
      append_to-IsDone non_joinable key val (http.get_all key h) h fits

  add-IsDone :
      (rule : Option (Text × List ℕ)) (existing : Values) (h : http.Headers)
      → room.len h < room.limit
      → IsDone (room.len h + 1) (add_to http rule existing h)
  add-IsDone rule [] h fits = set-IsDone rule h fits
  add-IsDone rule (v ∷ vs) h fits = kept h

  each-IsDone :
      (f : Text × Text → http.Headers → Option http.Headers)
      → ((rule : Text × Text) (h : http.Headers)
          → room.len h < room.limit
          → IsDone (room.len h + 1) (f rule h))
      → (total : ℕ) (rules : List (Text × Text)) (h : http.Headers)
      → room.len h + length rules ≤ total
      → total ≤ room.limit
      → IsDone total (each http f rules h)
  each-IsDone f step total [] h fits bound = (h, refl, omega (arith, fits))
  each-IsDone f step total (rule ∷ rules) h fits bound =
      IsDone-then (f rule h) (each http f rules) (room.len h + 1) total
        (step rule h (omega (arith, fits, bound)))
        (λ h' le. each-IsDone f step total rules h' (omega (arith, fits, le)) bound)

  rules-IsDone :
      (rules : HeaderRules) (h : http.Headers)
      → room.len h
          + length rules.set_headers
          + length rules.append_headers
          + length rules.add_headers
        ≤ room.limit
      → (h' : http.Headers) × (apply_rules http rules h ≡ some h')
  unfolding apply_rules apply_set apply_append apply_add
  rules-IsDone rules h fits =
      let set_all = each http (apply_set http) rules.set_headers in
      let append_all = each http (apply_append http) rules.append_headers in
      let add_all = each http (apply_add http) rules.add_headers in
      let first = room.len h + length rules.set_headers in
      let second = first + length rules.append_headers in
      let third = second + length rules.add_headers in
      let (h3, e, le) =
        IsDone-then (set_all h >>= append_all) add_all second third
          (IsDone-then (set_all h) append_all first second
            (each-IsDone (apply_set http) (λ rule. set-IsDone (parsed http rule.0 rule.1)) first
              rules.set_headers h (omega arith) (omega (arith, fits)))
            (λ h1 le.
              each-IsDone (apply_append http)
                (λ rule. append-IsDone (is_non_joinable rule.0) (parsed http rule.0 rule.1)) second
                rules.append_headers h1 (omega (arith, le)) (omega (arith, fits))))
          (λ h2 le.
            each-IsDone (apply_add http)
              (λ rule between.
                add-IsDone (parsed http rule.0 rule.1)
                  (values_of http (http.name_from_str rule.0) between) between)
              third rules.add_headers h2 (omega (arith, le)) (omega (arith, fits))) in
      rw e (remove_each http rules.remove_headers h3, refl)

  stamped-IsDone :
      (h : http.Headers) → room.len h < room.limit → IsDone (room.len h + 1) (stamped http h)
  unfolding stamped
  stamped-IsDone h fits =
      rw (room.stamp_name, room.stamp_value) (room.can_insert room.stamp room.stamp_text h fits)

  pub apply_headers-IsDone :
      (policy : HeadersPolicy) (h : http.Headers)
      → room.len h + room_for policy ≤ room.limit
      → (h' : http.Headers) × (apply_headers http policy h ≡ some h')
  unfolding apply_headers
  apply_headers-IsDone disabled h fits =
      let (h', e, le) = stamped-IsDone h (omega (arith, fits)) in (h', e)
  apply_headers-IsDone (enabled rules) h fits =
      let (h1, e, le) = stamped-IsDone h (omega (arith, fits)) in
      rw e (rules-IsDone rules h1 (omega (arith, fits, le)))
