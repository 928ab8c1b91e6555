-- ===== src/Emergency/Release/Transitions.antt =====
-- The calls on a request as a transition relation (crates/vault-emergency/src/lib.rs).
use safeory.Base.{
  ◌∙◌, ℕ, ◌+◌, ◌≤◌, ◌≡◌, ◌≢◌, ◌⊎◌, inl, inr, refl, true, false, Option, none, some, ok, checked_add,
  contains, contains_iff, nat_eq, In, set_insert, Option-cases, arith,
}
use safeory.Sync.Types.{Uuid}
use safeory.Models.Policy.{AccessPolicy, wait_seconds, duration_seconds}
use safeory.Emergency.Access.{lacks_approvals}
use safeory.Emergency.Release
use safeory.Emergency.Release.{
  ReleaseRequest, ReleaseRequestState, pending, EmergencyError, time_overflow, deny_state,
  revoke_state, release_eligible, release_at, advance, check_time, status, state_status,
  pending_status, released_status, ReleaseStatus, eligible, is_eligible, policy_matches,
}
use safeory.Emergency.Release.Eligible.{IsEligible, status_eligible}
use safeory.Emergency.Release.Steps.{Event, step}

-- When a release at `now` ends.
abbrev pub expiry : ℕ → Option ℕ → Option ℕ
expiry now none = none
expiry now (some seconds) = some (now + seconds)

-- One call `e` leads from `r` to `r'`; `n` is the revision that it counts.
pub data Transition (r : ReleaseRequest) (e : Event) (r' : ReleaseRequest) : Type 0 where
  stay : r' ≡ r → Transition r e r'
  approved :
      (a : Uuid) (now n : ℕ)
      → e ≡ Event.approve a now
      → r.last_event_at ≤ now
      → r.state ≡ pending
      → In a r.grant.approver_ids
      → r'
        ≡ record r { approvals = set_insert a r.approvals; last_event_at = now; state_revision = n }
      → Transition r e r'
  denied :
      (now n : ℕ)
      → e ≡ Event.deny now
      → r.last_event_at ≤ now
      → r.state ≡ pending
      → r' ≡ record r {
        state = ReleaseRequestState.denied now;
        last_event_at = now;
        state_revision = n;
      }
      → Transition r e r'
  revoked :
      (now n : ℕ)
      → e ≡ Event.revoke now
      → r.last_event_at ≤ now
      → ((t : ℕ) → r.state ≢ ReleaseRequestState.denied t)
      → ((t : ℕ) → r.state ≢ ReleaseRequestState.revoked t)
      → r' ≡ record r {
        state = ReleaseRequestState.revoked now;
        last_event_at = now;
        state_revision = n;
      }
      → Transition r e r'
  released :
      (p : AccessPolicy) (rev now n : ℕ)
      → e ≡ Event.release p rev now
      → r.last_event_at ≤ now
      → r.state ≡ pending
      → policy_matches r p rev ≡ true
      → lacks_approvals r.grant r.approvals ≡ false
      → r.requested_at + wait_seconds r.grant.wait_period ≤ now
      → r' ≡ record r {
        state = ReleaseRequestState.released now (expiry now (duration_seconds r.grant.duration));
        last_event_at = now;
        state_revision = n;
      }
      → Transition r e r'

-- Whether the revision counter is full or not, `advance` touches nothing else.
advance-moves {ℓ} :
    {A : Type ℓ} (r : ReleaseRequest) (a : A)
    → (n : ℕ) × ((advance r a).1 ≡ record r { state_revision = n })
unfolding advance
advance-moves r a = elim (Option-cases (checked_add r.state_revision 1)) [
  | inl h ↦ (r.state_revision, ground arith)
  | inr (n, h) ↦ (n, ground arith)
]

approve-cases :
    (a : Uuid) (now : ℕ) (r : ReleaseRequest)
    → ((Release.approve a now r).1 ≡ r)
      ⊎ ((r.last_event_at ≤ now)
          × (r.state ≡ pending)
          × (contains r.grant.approver_ids a ≡ true)
          × ((Release.approve a now r).1
              ≡ (advance
                  (record r { approvals = set_insert a r.approvals; last_event_at = now })
                  true).1))
unfolding Release.approve
approve-cases a now r = ground arith

approve-Transition :
    (a : Uuid) (now : ℕ) (r : ReleaseRequest)
    → Transition r (Event.approve a now) (Release.approve a now r).1
approve-Transition a now r = elim (approve-cases a now r) [
  | inl same ↦ stay same
  | inr (t, h, c, q) ↦
      let m =
        advance-moves (record r { approvals = set_insert a r.approvals; last_event_at = now })
          true in
      approved a now m.0 refl t h ((contains_iff r.grant.approver_ids a).0 c) (q ∙ m.1)
]

deny_state-Transition :
    (now : ℕ) (r : ReleaseRequest) (s : ReleaseRequestState)
    → r.state ≡ s
    → r.last_event_at ≤ now
    → Transition r (Event.deny now) (deny_state now r s).1
unfolding deny_state
deny_state-Transition now r pending h t =
    let m =
      advance-moves (record r { state = ReleaseRequestState.denied now; last_event_at = now })
        true in
    denied now m.0 refl t h m.1
deny_state-Transition now r (ReleaseRequestState.denied _) h t = stay refl
deny_state-Transition now r (ReleaseRequestState.revoked _) h t = stay refl
deny_state-Transition now r (ReleaseRequestState.released _ _) h t = stay refl

revoke_state-Transition :
    (now : ℕ) (r : ReleaseRequest) (s : ReleaseRequestState)
    → r.state ≡ s
    → r.last_event_at ≤ now
    → Transition r (Event.revoke now) (revoke_state now r s).1
unfolding revoke_state
revoke_state-Transition now r pending h t =
    let m =
      advance-moves (record r { state = ReleaseRequestState.revoked now; last_event_at = now })
        true in
    revoked now m.0 refl t (λ d q. cc) (λ d q. cc) m.1
revoke_state-Transition now r (ReleaseRequestState.denied _) h t = stay refl
revoke_state-Transition now r (ReleaseRequestState.revoked _) h t = stay refl
revoke_state-Transition now r (ReleaseRequestState.released at exp) h t =
    let m =
      advance-moves (record r { state = ReleaseRequestState.revoked now; last_event_at = now })
        true in
    revoked now m.0 refl t (λ d q. cc) (λ d q. cc) m.1

deny-cases :
    (now : ℕ) (r : ReleaseRequest)
    → ((Release.deny now r).1 ≡ r)
      ⊎ ((r.last_event_at ≤ now) × ((Release.deny now r).1 ≡ (deny_state now r r.state).1))
unfolding Release.deny
deny-cases now r = ground arith

deny-Transition :
    (now : ℕ) (r : ReleaseRequest) → Transition r (Event.deny now) (Release.deny now r).1
deny-Transition now r = elim (deny-cases now r) [
  | inl same ↦ stay same
  | inr (t, q) ↦ rw q (deny_state-Transition now r r.state refl t)
]

revoke-cases :
    (now : ℕ) (r : ReleaseRequest)
    → ((Release.revoke now r).1 ≡ r)
      ⊎ ((r.last_event_at ≤ now) × ((Release.revoke now r).1 ≡ (revoke_state now r r.state).1))
unfolding Release.revoke
revoke-cases now r = ground arith

revoke-Transition :
    (now : ℕ) (r : ReleaseRequest) → Transition r (Event.revoke now) (Release.revoke now r).1
revoke-Transition now r = elim (revoke-cases now r) [
  | inl same ↦ stay same
  | inr (t, q) ↦ rw q (revoke_state-Transition now r r.state refl t)
]

release_at-Transition :
    (p : AccessPolicy) (rev now : ℕ) (r : ReleaseRequest)
    → IsEligible r p rev now
    → Transition r
        (Event.release p rev now)
        (release_at now (expiry now (duration_seconds r.grant.duration)) r).1
unfolding release_at
release_at-Transition p rev now r i =
    let x = expiry now (duration_seconds r.grant.duration) in
    let m =
      advance-moves (record r { state = ReleaseRequestState.released now x; last_event_at = now })
        (ReleaseStatus.released r.grant.permission now x) in
    released p rev now m.0 refl i.on_time i.is_open i.matches i.approved i.waited m.1

release_eligible-cases :
    (now : ℕ) (r : ReleaseRequest)
    → ((release_eligible now r).1 ≡ r)
      ⊎ ((release_eligible now r).1
          ≡ (release_at now (expiry now (duration_seconds r.grant.duration)) r).1)
unfolding release_eligible checked_add
release_eligible-cases now r = elim (Option-cases (duration_seconds r.grant.duration)) [
  | inl d ↦ inr (ground arith)
  | inr (seconds, d) ↦ ground arith
]

release-cases :
    (p : AccessPolicy) (rev now : ℕ) (r : ReleaseRequest)
    → ((Release.release p rev now r).1 ≡ r)
      ⊎ ((status r p rev now ≡ ok eligible)
          × ((Release.release p rev now r).1 ≡ (release_eligible now r).1))
unfolding Release.release check_time
release-cases p rev now r = ground arith

release-Transition :
    (p : AccessPolicy) (rev now : ℕ) (r : ReleaseRequest)
    → Transition r (Event.release p rev now) (Release.release p rev now r).1
release-Transition p rev now r = elim (release-cases p rev now r) [
  | inl same ↦ stay same
  | inr (s, q) ↦ elim (release_eligible-cases now r) [
    | inl same ↦ stay (q ∙ same)
    | inr moved ↦ rw (q, moved) (release_at-Transition p rev now r (status_eligible r p rev now s))
  ]
]

-- Every call is one transition.
pub step-Transition : (e : Event) (r : ReleaseRequest) → Transition r e (step e r)
unfolding step
step-Transition (Event.approve a now) r = approve-Transition a now r
step-Transition (Event.deny now) r = deny-Transition now r
step-Transition (Event.revoke now) r = revoke-Transition now r
step-Transition (Event.release p rev now) r = release-Transition p rev now r
