-- ===== src/Upstream/Health/Carried.antt =====
-- What a new list of endpoints keeps of the statuses.
use mathlib.Core.Option.{none, some}
use pavis.Prelude.{
  Bool, false, List, [], ◌∷◌, ◌≡◌, refl, ◌∙◌, inl, inr, Bool-cases, any, if◌then◌else◌,
}
use pavis.Prelude.Text.{text_eq, text_eq→eq, text_eq_refl}
use pavis.Prelude.HashMap.{lookup, remove, replace, lookup-remove}
use pavis.LoadBalance.{Endpoint}
use pavis.Upstream.Health.{
  EndpointKey, from_endpoint, Statuses, HealthState, unwrap_or_default, carried, update_endpoints,
}

abbrev pub has_key : EndpointKey → List Endpoint → Bool
has_key key endpoints = any (λ endpoint. text_eq key (from_endpoint endpoint)) endpoints

-- No two endpoints have the same address.
abbrev pub IsDistinct : List Endpoint → Type 0
IsDistinct [] = Unit
IsDistinct (endpoint ∷ rest) = (has_key (from_endpoint endpoint) rest ≡ false) × IsDistinct rest

lookup-carried :
    (key : EndpointKey) (endpoints : List Endpoint) (old statuses : Statuses)
    → IsDistinct endpoints
    → lookup key (carried endpoints old statuses) ≡ (
        if has_key key endpoints
        then some (unwrap_or_default (lookup key old))
        else lookup key statuses)
unfolding lookup
lookup-carried key [] old statuses h = refl
lookup-carried key (endpoint ∷ rest) old statuses (apart, h) =
    let own = from_endpoint endpoint in
    let status = unwrap_or_default (lookup own old) in
    let later = lookup-carried key rest (remove own old) (replace own status statuses) h in
    elim (Bool-cases (text_eq key own)) [
      | inl e ↦
          let same = text_eq→eq key own e in
          rw same (
            lookup-carried own rest (remove own old) (replace own status statuses) h
            ∙ rw (apart, text_eq_refl own) refl)
      | inr e ↦ later ∙ rw (e, lookup-remove own key old, lookup-remove own key statuses, e) refl
    ]

-- Where no two of the new endpoints have the same address, each of them keeps its status or has
-- the default one, and no other address has a status.
pub lookup-update_endpoints :
    (key : EndpointKey) (endpoints : List Endpoint) (health : HealthState)
    → IsDistinct endpoints
    → lookup key (update_endpoints endpoints health).statuses ≡ (
        if has_key key endpoints
        then some (unwrap_or_default (lookup key health.statuses))
        else none)
unfolding update_endpoints lookup
lookup-update_endpoints key endpoints health h = lookup-carried key endpoints health.statuses [] h
