-- ===== src/HeaderOps/PerName.antt =====
-- What a policy does to the values of one name.
use mathlib.Core.Option.{some-injective}
use pavis.Prelude.{◌+◌, ◌≤◌, Option, none, some, List, [], ◌∷◌, ◌≡◌, refl, sym, ap, ◌∙◌}
use pavis.Prelude.Text.{Text, bytes}
use pavis.HeaderOps.{
  HeaderMap, is_non_joinable, HeaderRules, HeadersPolicy, disabled, enabled, ◌>>=◌, parsed,
  apply_set, apply_append, apply_add, apply_remove, each, remove_each, apply_rules, stamped,
  apply_headers,
}
use pavis.HeaderOps.Values.{
  IsHeaderMap, IsBounded, room_for, is_set_cookie, Values, set_value, append_value, add_value,
  remove_value, fold, ruled, expected,
}
use pavis.HeaderOps.Steps.{
  set_parsed_lem, stamp_parsed_lem, append_parsed_lem, add_to_lem, remove_parsed_lem,
  is_non_joinable_lem,
}
use pavis.HeaderOps.Room.{apply_headers-IsDone}

bind_some :
    {A B : Type 0} (m : Option A) (f : A → Option B) (b : B)
    → (m >>= f) ≡ some b
    → (a : A) × (m ≡ some a) × (f a ≡ some b)
bind_some none f b e = cc
bind_some (some a) f b e = (a, refl, e)

module _ (http : HeaderMap) (law : IsHeaderMap http) (j : Text) where
  each_lem :
      (f : Text × Text → http.Headers → Option http.Headers) (g : Text × Text → Values → Values)
      → ((rule : Text × Text) (h h' : http.Headers)
          → f rule h ≡ some h'
          → http.get_all j h' ≡ g rule (http.get_all j h))
      → (rules : List (Text × Text)) (h h' : http.Headers) → each http f rules h ≡ some h'
      → http.get_all j h' ≡ fold http j g rules (http.get_all j h)
  each_lem f g step [] h h' e = ap (http.get_all j) (sym (some-injective h h' e))
  each_lem f g step (rule ∷ rules) h h' e =
      let (between, first, rest) = bind_some (f rule h) (each http f rules) h' e in
      each_lem f g step rules between h' rest ∙ ap (fold http j g rules) (step rule h between first)

  remove_each_lem :
      (names : List Text) (h : http.Headers)
      → http.get_all j (remove_each http names h)
        ≡ fold http j
            (λ name. remove_value http j (http.name_from_str name))
            names
            (http.get_all j h)
  unfolding apply_remove
  remove_each_lem [] h = refl
  remove_each_lem (name ∷ names) h =
      remove_each_lem names (apply_remove http name h)
      ∙ ap (fold http j (λ n. remove_value http j (http.name_from_str n)) names)
          (remove_parsed_lem http law j (http.name_from_str name) h)

  append_lem :
      (rule : Text × Text) (h h' : http.Headers)
      → apply_append http rule h ≡ some h'
      → http.get_all j h'
        ≡ append_value http j (is_set_cookie rule.0) (parsed http rule.0 rule.1) (http.get_all j h)
  unfolding apply_append
  append_lem rule h h' e =
      append_parsed_lem http law j (is_non_joinable rule.0) (parsed http rule.0 rule.1) h h' e
      ∙ ap (λ b. append_value http j b (parsed http rule.0 rule.1) (http.get_all j h))
          (is_non_joinable_lem rule.0)

  rules_lem :
      (rules : HeaderRules) (h h' : http.Headers)
      → apply_rules http rules h ≡ some h'
      → http.get_all j h' ≡ ruled http j (enabled rules) (http.get_all j h)
  unfolding apply_rules apply_set apply_append apply_add
  rules_lem rules h h' e =
      let set_all = each http (apply_set http) rules.set_headers in
      let append_all = each http (apply_append http) rules.append_headers in
      let add_all = each http (apply_add http) rules.add_headers in
      let remove_all = remove_each http rules.remove_headers in
      let (h3, e3, last) =
        bind_some (set_all h >>= append_all >>= add_all) (λ done. some (remove_all done)) h' e in
      let (h2, e2, third) = bind_some (set_all h >>= append_all) add_all h3 e3 in
      let (h1, first, second) = bind_some (set_all h) append_all h2 e2 in
      let g1 = λ (rule : Text × Text). set_value http j (parsed http rule.0 rule.1) in
      let g2 = λ (rule : Text × Text).
        append_value http j (is_set_cookie rule.0) (parsed http rule.0 rule.1) in
      let g3 = λ (rule : Text × Text). add_value http j (parsed http rule.0 rule.1) in
      let s1 =
        each_lem (apply_set http) g1
          (λ rule a b. set_parsed_lem http law j (parsed http rule.0 rule.1) a b) rules.set_headers
          h h1 first in
      let s2 =
        each_lem (apply_append http) g2 (λ rule a b. append_lem rule a b) rules.append_headers h1 h2
          second in
      let s3 =
        each_lem (apply_add http) g3
          (λ rule a b.
            add_to_lem http law j (http.name_from_str rule.0) (http.value_from_str rule.1) a b)
          rules.add_headers h2 h3 third in
      let removing =
        fold http j (λ name. remove_value http j (http.name_from_str name)) rules.remove_headers in
      ap (http.get_all j) (sym (some-injective (remove_all h3) h' last))
      ∙ remove_each_lem rules.remove_headers h3
      ∙ ap removing (
          s3
          ∙ ap (fold http j g3 rules.add_headers)
              (s2 ∙ ap (fold http j g2 rules.append_headers) s1))

  done_is_expected :
      (policy : HeadersPolicy) (h h' : http.Headers)
      → apply_headers http policy h ≡ some h'
      → http.get_all j h' ≡ expected http j policy (http.get_all j h)
  unfolding apply_headers stamped
  done_is_expected disabled h h' e =
      stamp_parsed_lem http law j (parsed http (bytes "X-Proxy-By") (bytes "Pavis")) h h' e
  done_is_expected (enabled rules) h h' e =
      let (h1, first, rest) = bind_some (stamped http h) (apply_rules http rules) h' e in
      rules_lem rules h1 h' rest
      ∙ ap (ruled http j (enabled rules)) (
          stamp_parsed_lem http law j (parsed http (bytes "X-Proxy-By") (bytes "Pavis")) h h1 first)

-- If the header map has room for what a policy adds, then the policy is applied, and the values of
-- each name are those that the rules for this name give, in the order set, append, add and remove,
-- after the stamp of the proxy: rules for other names, and invalid ones, do not touch them. A value
-- is appended behind a comma and a space to the one that there is, but for set-cookie, in any case of
-- its letters, where it is a value of its own.
pub apply_headers-expected :
    (http : HeaderMap)
    → IsHeaderMap http
    → (room : IsBounded http) → (policy : HeadersPolicy) (h : http.Headers)
    → room.len h + room_for policy ≤ room.limit
    → (h' : http.Headers) × (apply_headers http policy h ≡ some h')
      × ((j : Text) → http.get_all j h' ≡ expected http j policy (http.get_all j h))
apply_headers-expected http law room policy h fits =
    let (h', e) = apply_headers-IsDone http room policy h fits in
    (h', e, λ j. done_is_expected http law j policy h h' e)
