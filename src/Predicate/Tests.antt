-- ===== src/Predicate/Tests.antt =====
-- Runs of the normal form, and the theorems at concrete trees.
use pavis.Prelude.{Bool, true, false, ◌≡◌, refl, []}
use pavis.Prelude.{◌∷◌}
use pavis.Prelude.Text.{bytes}
use pavis.Http.{get}
use pavis.Predicate.{
  MethodMatcher, HeaderMatcher, PredicateNode, always, method, header, and_of, or_of, not_of,
  of_list, node_eq, normalize, normalize_and, normalize_or, normalize_not,
}
use pavis.Predicate.Semantics.{eval, eval-normalize}
use pavis.Predicate.Normal.{IsNormal}
use pavis.Predicate.Reached.{normalize-IsNormal}
use pavis.Predicate.Idempotent.{normalize-idempotent, normalize_keeps_separated}

abbrev on_get : PredicateNode
on_get = method (MethodMatcher.exact get)

abbrev host : HeaderMatcher
host = HeaderMatcher.present (bytes "host")

abbrev accept : HeaderMatcher
accept = HeaderMatcher.regex (bytes "accept") (bytes "^a")

-- And [accept, And [GET, True], Not (Not host), GET]
abbrev sample : PredicateNode
sample = and_of (
    of_list (
      header accept
      ∷ and_of (of_list (on_get ∷ always ∷ []))
      ∷ not_of (not_of (header host))
      ∷ on_get
      ∷ []))

sample_normal :
    normalize sample ≡ and_of (of_list (on_get ∷ header host ∷ on_get ∷ header accept ∷ []))
unfolding normalize normalize_and normalize_not node_eq
sample_normal = refl

adjacent_repeat : normalize (or_of (of_list (on_get ∷ on_get ∷ []))) ≡ on_get
unfolding normalize normalize_or node_eq
adjacent_repeat = refl

abbrev on_method : MethodMatcher → Bool
on_method (MethodMatcher.exact get) = true
on_method _ = false

abbrev on_header : HeaderMatcher → Bool
on_header (HeaderMatcher.present name) = true
on_header _ = false

eval-normalize_example :
    eval on_method on_header (normalize sample) ≡ eval on_method on_header sample
eval-normalize_example = eval-normalize on_method on_header sample

normalize-IsNormal_example : IsNormal (normalize sample)
normalize-IsNormal_example = normalize-IsNormal sample

normalize-idempotent_example : normalize (normalize sample) ≡ normalize sample
normalize-idempotent_example = normalize-idempotent sample

abbrev agent : HeaderMatcher
agent = HeaderMatcher.present (bytes "user-agent")

normalize_keeps_separated_example :
    normalize (and_of (of_list (header host ∷ header agent ∷ header host ∷ [])))
    ≡ and_of (of_list (header host ∷ header agent ∷ header host ∷ []))
normalize_keeps_separated_example = normalize_keeps_separated host agent refl (λ e. cc)
