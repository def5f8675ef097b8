-- ===== src/Upstream/Cluster/Ejection.antt =====
-- Outlier detection: when a row of failures ejects an endpoint.
use mathlib.Core.Path.{subst}
use pavis.Prelude.{
  ℕ, ◌+◌, ◌^◌, ◌<◌, Bool, true, false, ◌&&◌, none, some, List, [], ◌∷◌, ◌≡◌, ◌≢◌, refl, ◌∙◌, ap,
  inl, inr, Bool-cases, All, length, leb, retain, arith,
}
use pavis.Prelude.Text.{text_eq_refl}
use pavis.Prelude.HashMap.{lookup, update, lookup-update, lookup-map_values}
use pavis.LoadBalance.{EndpointAddr}
use pavis.Upstream.Health.{
  from_addr, from_endpoint, EndpointStatus, HealthState, with_errors, with_ejection, is_none,
  saturating_add, record_failure, is_expired, cleared, may_serve, with_statuses,
  clear_expired_ejections, serves, eligible_endpoints,
}
use pavis.Upstream.Cluster.{
  failure, outlier_enabled, Cluster, Readings, state_of, refresh_state_from_health, record_outcome,
}

-- The endpoint fails once for each of the readings.
abbrev pub failing : List Readings → EndpointAddr → Cluster → Cluster
failing [] endpoint c = c
failing (at ∷ ats) endpoint c = failing ats endpoint (record_outcome at endpoint failure c)

retain-All {ℓ κ} :
    {A : Type ℓ} (p : A → Bool) (Q : A → Type κ) (xs : List A)
    → ((x : A) → p x ≡ true → Q x)
    → All Q (retain p xs)
retain-All p Q [] h = tt
retain-All p Q (x ∷ xs) h = elim (Bool-cases (p x)) [
  | inl e ↦ rw e (h x e, retain-All p Q xs h)
  | inr e ↦ rw e (retain-All p Q xs h)
]

serves-ejected :
    (t until : ℕ) (status : EndpointStatus)
    → t < until
    → status.ejected_until ≡ some until
    → may_serve t status ≡ false
serves-ejected t until status early ejected = rw ejected (ground (arith, early))

cleared-ejected :
    (now until : ℕ) (status : EndpointStatus)
    → now < until
    → status.ejected_until ≡ some until
    → cleared now status ≡ status
cleared-ejected now until status early ejected =
    let fresh : is_expired now status ≡ false = rw ejected (ground (arith, early)) in rw fresh refl

module _ (threshold eject_for : ℕ) (endpoint : EndpointAddr) where
  -- The endpoint has failed `errors` times in a row and is not ejected.
  abbrev pub HasFailed : ℕ → Cluster → Type 0
  HasFailed errors c =
      (status : EndpointStatus) × (c.config.outlier_detection ≡ outlier_enabled threshold eject_for)
      × (lookup (from_addr endpoint) c.health.statuses ≡ some status)
      × (status.consecutive_errors ≡ errors)
      × (status.ejected_until ≡ none)

  lookup-own :
      (f : EndpointStatus → EndpointStatus) (status : EndpointStatus) (health : HealthState)
      → lookup (from_addr endpoint) health.statuses ≡ some status
      → lookup (from_addr endpoint) (update (from_addr endpoint) f health.statuses)
        ≡ some (f status)
  lookup-own f status health e =
      let key = from_addr endpoint in
      lookup-update key key f health.statuses ∙ rw (text_eq_refl key, e) refl

  one_more :
      (at : Readings) (errors : ℕ) (c : Cluster)
      → errors + 1 < threshold
      → threshold < 2 ^ 32
      → HasFailed errors c
      → HasFailed (errors + 1) (record_outcome at endpoint failure c)
        × ((record_outcome at endpoint failure c).state ≡ c.state)
  unfolding record_outcome record_failure
  one_more at errors c few small (status, policy, here, count, free) =
      let more = saturating_add status.consecutive_errors 1 in
      let counted : more ≡ errors + 1 = omega (arith, count, few, small) in
      let below : (leb threshold more && is_none status.ejected_until) ≡ false =
        ground (arith, counted, few) in
      rw (policy, record_outcome, here, record_failure, below)
        (
          (
            with_errors more status,
            policy,
            lookup-own (with_errors more) status c.health here,
            counted,
            free,
          ),
          refl,
        )

  failing-HasFailed :
      (ats : List Readings) (errors : ℕ) (c : Cluster)
      → errors + length ats < threshold
      → threshold < 2 ^ 32
      → HasFailed errors c
      → HasFailed (errors + length ats) (failing ats endpoint c)
        × ((failing ats endpoint c).state ≡ c.state)
  failing-HasFailed [] errors c few small failed =
      let same : errors ≡ errors + 0 = omega arith in (subst (λ n. HasFailed n c) same failed, refl)
  failing-HasFailed (at ∷ ats) errors c few small failed =
      let (failed', state) = one_more at errors c (omega (arith, few)) small failed in
      let c' = record_outcome at endpoint failure c in
      let (failed'', state') =
        failing-HasFailed ats (errors + 1) c' (omega (arith, few)) small failed' in
      let same : errors + 1 + length ats ≡ errors + length (at ∷ ats) = omega arith in
      (subst (λ n. HasFailed n (failing ats endpoint c')) same failed'', state' ∙ state)

  abbrev pub IsEjected : ℕ → HealthState → Type 0
  IsEjected until health =
      (status : EndpointStatus) × (lookup (from_addr endpoint) health.statuses ≡ some status)
      × (status.ejected_until ≡ some until)

  ejected-eligible :
      (t until : ℕ) (health : HealthState)
      → t < until
      → IsEjected until health
      → All (λ e. from_endpoint e ≢ from_addr endpoint) (eligible_endpoints t health)
  unfolding eligible_endpoints
  ejected-eligible t until health early (status, here, ejected) =
      retain-All _ _ health.endpoints λ e served same.
        let gone : serves t (lookup (from_endpoint e) health.statuses) ≡ false =
          rw (same, here) (serves-ejected t until status early ejected) in
        absurd (ground (arith, gone, served))

  clear-IsEjected :
      (now until : ℕ) (health : HealthState)
      → now < until
      → IsEjected until health
      → IsEjected until (clear_expired_ejections now health).1
  unfolding clear_expired_ejections
  clear-IsEjected now until health early (status, here, ejected) = (
    status,
    lookup-map_values (from_addr endpoint) (cleared now) health.statuses
        ∙ rw here (ap some (cleared-ejected now until status early ejected)),
    ejected,
  )

  last_one :
      (at : Readings) (errors : ℕ) (c : Cluster)
      → errors + 1 ≡ threshold
      → threshold < 2 ^ 32
      → at.second < at.first + eject_for
      → at.third < at.first + eject_for
      → HasFailed errors c
      → let c' = record_outcome at endpoint failure c in
        IsEjected (at.first + eject_for) c'.health
        × All (λ e. from_endpoint e ≢ from_addr endpoint) c'.state.endpoints
  unfolding record_outcome record_failure refresh_state_from_health state_of
  last_one at errors c enough small second third (status, policy, here, count, free) =
      let more = saturating_add status.consecutive_errors 1 in
      let counted : more ≡ errors + 1 = omega (arith, count, enough, small) in
      let reached : (leb threshold more && is_none status.ejected_until) ≡ true =
        ground (arith, counted, enough, free) in
      rw (policy, record_outcome, here, record_failure, reached)
        (let health =
            with_statuses
              (update (from_addr endpoint) (with_ejection (some (at.first + eject_for)))
                c.health.statuses)
              c.health in
          let ejected : IsEjected (at.first + eject_for) health = (
            with_ejection (some (at.first + eject_for)) status,
            lookup-own (with_ejection (some (at.first + eject_for))) status c.health here,
            refl,
          ) in
          let kept = clear-IsEjected at.second (at.first + eject_for) health second ejected in
          (
            kept,
            ejected-eligible at.third (at.first + eject_for)
                (clear_expired_ejections at.second health).1 third kept,
          ))

  -- An endpoint that has not failed since its last success stays eligible as it was for all but
  -- the last of `threshold` failures in a row. The last one ejects it for the configured duration
  -- from then on, and takes it out of the endpoints that can be chosen, where the operation itself
  -- takes less time than that. The threshold is a `NonZeroU32`.
  pub failing-ejects :
      (ats : List Readings) (at : Readings) (c : Cluster)
      → length ats + 1 ≡ threshold
      → threshold < 2 ^ 32
      → at.second < at.first + eject_for
      → at.third < at.first + eject_for
      → HasFailed 0 c
      → let before = failing ats endpoint c in
        let after = record_outcome at endpoint failure before in
        (before.state ≡ c.state)
        × IsEjected (at.first + eject_for) after.health
        × All (λ e. from_endpoint e ≢ from_addr endpoint) after.state.endpoints
  failing-ejects ats at c enough small second third fresh =
      let (failed, state) = failing-HasFailed ats 0 c (omega (arith, enough)) small fresh in
      let c' = failing ats endpoint c in
      let (ejected, gone) =
        last_one at (0 + length ats) c' (omega (arith, enough)) small second third failed in
      (state, ejected, gone)
