-- ===== src/Upstream/Health/Eligible.antt =====
-- Which endpoints are eligible, and what does not change it.
use pavis.Prelude.{
  ℕ, zero, suc, ◌≤◌, Bool, true, false, ◌&&◌, ◌==◌, Option, none, some, List, [], ◌∷◌, ◌≡◌, refl,
  ap, inl, inr, ◌⊎◌, Bool-cases, Option-cases, All, leb, if◌then◌else◌, retain, get_elem?, arith,
}
use mathlib.Core.Option
use mathlib.Core.Option.{some-injective}
use mathlib.Core.Path.{subst}
use pavis.Prelude.Text.{Text, text_eq}
use pavis.Prelude.HashMap.{lookup, update, lookup-update, lookup-map_values, any_value-lookup}
use pavis.LoadBalance.{EndpointAddr}
use pavis.Upstream.Health.{
  Statuses, is_none, marked, same_health, saturating_add, from_addr, from_endpoint, EndpointStatus,
  HealthState, with_errors, mark_active_health, record_success, record_failure, is_expired, cleared,
  clear_expired_ejections, may_serve, serves, eligible_endpoints,
}

pub retain_ext {ℓ} :
    {A : Type ℓ} (p q : A → Bool) (xs : List A) → ((x : A) → p x ≡ q x) → retain p xs ≡ retain q xs
retain_ext p q [] h = refl
retain_ext p q (x ∷ xs) h = rw (h x, retain_ext p q xs h) refl

-- `e` is an element of `xs`.
abbrev pub Mem {ℓ} : {A : Type ℓ} → A → List A → Type ℓ
Mem e xs = (i : ℕ) × (get_elem? xs i ≡ some e)

mem_if {ℓ} :
    {A : Type ℓ} (b : Bool) (x : A) (rest : List A) (e : A)
    → Mem e (if b then x ∷ rest else rest)
    → ((b ≡ true) × (x ≡ e)) ⊎ Mem e rest
mem_if true x rest e (zero, h) = inl (refl, some-injective x e h)
mem_if true x rest e (suc i, h) = inr (i, h)
mem_if false x rest e m = inr m

pub Mem-retain {ℓ} :
    {A : Type ℓ} (p : A → Bool) (xs : List A) (e : A)
    → Mem e (retain p xs)
    → Mem e xs × (p e ≡ true)
Mem-retain p [] e (i, h) = absurd (cc h)
Mem-retain p (x ∷ xs) e m = elim (mem_if (p x) x (retain p xs) e m) [
  | inl (kept, same) ↦ ((0, ap some same), subst (λ y. p y ≡ true) same kept)
  | inr later ↦ let ((i, found), kept) = Mem-retain p xs e later in ((suc i, found), kept)
]

pub retain-empty {ℓ} :
    {A : Type ℓ} (p : A → Bool) (xs : List A) → retain p xs ≡ [] → All (λ x. p x ≡ false) xs
retain-empty p [] h = tt
retain-empty p (x ∷ xs) h = elim (Bool-cases (p x)) [
  | inl e ↦ absurd (ground (arith, e, h))
  | inr e ↦ (e, retain-empty p xs (ground (arith, e, h)))
]

-- A status that is not expired stays eligible as it was, and clearing makes no difference later.
serves-cleared :
    (t now : ℕ) (o : Option EndpointStatus)
    → now ≤ t
    → serves t (Option.map (cleared now) o) ≡ serves t o
serves-cleared t now none h = refl
serves-cleared t now (some status) h = elim (Option-cases status.ejected_until) [
  | inl e ↦ rw e (ground (arith, e))
  | inr (until, e) ↦ rw e (ground (arith, e, h))
]

pub eligible-clear :
    (t now : ℕ) (health : HealthState)
    → now ≤ t
    → eligible_endpoints t (clear_expired_ejections now health).1 ≡ eligible_endpoints t health
unfolding eligible_endpoints clear_expired_ejections
eligible-clear t now health h = retain_ext _ _ health.endpoints λ e.
    rw (lookup-map_values (from_endpoint e) (cleared now) health.statuses)
      (serves-cleared t now (lookup (from_endpoint e) health.statuses) h)

serves-unexpired :
    (t now : ℕ) (status : EndpointStatus)
    → t ≤ now
    → is_expired now status ≡ false
    → may_serve t status ≡ may_serve now status
serves-unexpired t now status h fresh = elim (Option-cases status.ejected_until) [
  | inl e ↦ rw e refl
  | inr (until, e) ↦ rw e (ground (arith, e, h, fresh))
]

-- Where clearing changes nothing, the same endpoints were eligible before.
pub eligible-unexpired :
    (t now : ℕ) (health : HealthState)
    → t ≤ now
    → (clear_expired_ejections now health).0 ≡ false
    → eligible_endpoints t health ≡ eligible_endpoints now health
unfolding eligible_endpoints clear_expired_ejections
eligible-unexpired t now health h unchanged = retain_ext _ _ health.endpoints λ endpoint.
    elim (Option-cases (lookup (from_endpoint endpoint) health.statuses)) [
      | inl e ↦ rw e refl
      | inr (status, e) ↦ rw e (
          serves-unexpired t now status h (
            any_value-lookup (is_expired now) (from_endpoint endpoint) health.statuses {v = status}
              unchanged e))
    ]

serves-with_errors :
    (t errors : ℕ) (o : Option EndpointStatus)
    → serves t (Option.map (with_errors errors) o) ≡ serves t o
serves-with_errors t errors none = refl
serves-with_errors t errors (some status) = refl

serves-update :
    (t : ℕ) (key j : Text) (errors : ℕ) (statuses : Statuses)
    → serves t (lookup j (update key (with_errors errors) statuses)) ≡ serves t (lookup j statuses)
serves-update t key j errors statuses =
    rw (lookup-update key j (with_errors errors) statuses) (elim (Bool-cases (text_eq j key)) [
      | inl e ↦ rw e (serves-with_errors t errors (lookup j statuses))
      | inr e ↦ rw e refl
    ])

-- Where an operation reports no change, the same endpoints are eligible after it.
pub eligible-record_failure :
    (t : ℕ) (endpoint : EndpointAddr) (threshold eject_for now : ℕ) (health : HealthState)
    → (record_failure endpoint threshold eject_for now health).0 ≡ false
    → eligible_endpoints t (record_failure endpoint threshold eject_for now health).1
      ≡ eligible_endpoints t health
unfolding eligible_endpoints record_failure
eligible-record_failure t endpoint threshold eject_for now health unchanged =
    elim (Option-cases (lookup (from_addr endpoint) health.statuses)) [
      | inl e ↦ rw (e, record_failure) refl
      | inr (status, e) ↦
          let errors = saturating_add status.consecutive_errors 1 in
          elim (Bool-cases (leb threshold errors && is_none status.ejected_until)) [
            | inl b ↦ absurd (ground (arith, e, b, unchanged))
            | inr b ↦
                rw (e, record_failure, b)
                  (retain_ext _ _ health.endpoints λ x.
                    serves-update t (from_addr endpoint) (from_endpoint x) errors health.statuses)
          ]
    ]

pub record_success_unchanged :
    (endpoint : EndpointAddr) (health : HealthState)
    → (record_success endpoint health).0 ≡ false
    → (record_success endpoint health).1 ≡ health
unfolding record_success
record_success_unchanged endpoint health unchanged =
    elim (Option-cases (lookup (from_addr endpoint) health.statuses)) [
      | inl e ↦ rw (e, record_success) refl
      | inr (status, e) ↦ elim (Bool-cases (status.consecutive_errors == 0)) [
        | inl b ↦ rw (e, record_success, b) refl
        | inr b ↦ absurd (ground (arith, e, b, unchanged))
      ]
    ]

pub mark_active_health_unchanged :
    (endpoint : EndpointAddr) (is_healthy : Bool) (health : HealthState)
    → (mark_active_health endpoint is_healthy health).0 ≡ false
    → (mark_active_health endpoint is_healthy health).1 ≡ health
unfolding mark_active_health
mark_active_health_unchanged endpoint is_healthy health unchanged =
    elim (Option-cases (lookup (from_addr endpoint) health.statuses)) [
      | inl e ↦ rw (e, mark_active_health) refl
      | inr (status, e) ↦ elim (Bool-cases (same_health status.active_health (marked is_healthy))) [
        | inl b ↦ rw (e, mark_active_health, b) refl
        | inr b ↦ absurd (ground (arith, e, b, unchanged))
      ]
    ]
