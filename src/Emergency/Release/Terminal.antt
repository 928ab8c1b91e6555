-- ===== src/Emergency/Release/Terminal.antt =====
-- The ends of a request's life and what a repeated call answers
-- (crates/vault-emergency/src/lib.rs).
use safeory.Base.{
  ℕ, ◌+◌, ◌≤◌, ◌<◌, ◌≡◌, ◌≢◌, ◌↔◌, ◌⊎◌, inl, inr, refl, sym, ◌∙◌, subst, List, [], ◌∷◌, Bool, true,
  false, ok, err, u64_max, checked_add, arith, nat_eq,
}
use safeory.Models.Policy.{AccessPolicy, wait_seconds}
use safeory.Emergency.Release
use safeory.Emergency.Release.{
  ReleaseRequest, ReleaseRequestState, EmergencyError, pending, time_overflow, time_rewind, Outcome,
  deny_state, revoke_state, advance, check_time, status, state_status, ReleaseStatus,
  policy_matches, pending_status,
}
use safeory.Emergency.Release.Transitions.{Transition, stay, approved, step-Transition}
use safeory.Emergency.Release.Steps.{Event, step, run}
use safeory.Emergency.Release.Invariant.{IsRequest}

-- Denied and revoked requests take no further change.
abbrev pub IsOver : ReleaseRequestState → Type 0
IsOver (ReleaseRequestState.denied _) = Unit
IsOver (ReleaseRequestState.revoked _) = Unit
IsOver (ReleaseRequestState.released _ _) = ⊥
IsOver pending = ⊥

not-IsOver : (r : ReleaseRequest) → r.state ≡ pending → ¬ IsOver r.state
not-IsOver r h o = subst IsOver h o

over_cases :
    (s : ReleaseRequestState)
    → IsOver s
    → ((t : ℕ) × (s ≡ ReleaseRequestState.denied t))
      ⊎ ((t : ℕ) × (s ≡ ReleaseRequestState.revoked t))
over_cases pending o = elim o [ ]
over_cases (ReleaseRequestState.released _ _) o = elim o [ ]
over_cases (ReleaseRequestState.denied t) o = inl (t, refl)
over_cases (ReleaseRequestState.revoked t) o = inr (t, refl)

step_over : (e : Event) (r : ReleaseRequest) → IsOver r.state → step e r ≡ r
step_over e' r o = elim (step-Transition e' r) [
  | stay q ↦ q
  | approved b now n e t h k q ↦ absurd (not-IsOver r h o)
  | Transition.denied now n e t h q ↦ absurd (not-IsOver r h o)
  | Transition.revoked now n e t h k q ↦ elim (over_cases r.state o) [
    | inl (d, u) ↦ absurd (h d u)
    | inr (d, u) ↦ absurd (k d u)
  ]
  | Transition.released p rev now n e t h ma l w q ↦ absurd (not-IsOver r h o)
]

-- Once a request is denied or revoked, no sequence of calls changes it.
pub run_over : (events : List Event) (r : ReleaseRequest) → IsOver r.state → run events r ≡ r
unfolding run
run_over [] r o = refl
run_over (e ∷ events) r o =
    let q = step_over e r o in
    run_over events (step e r) (subst (λ x. IsOver x.state) (sym q) o) ∙ q

pending_status_total :
    (r : ReleaseRequest) (now : ℕ) (x : EmergencyError)
    → r.requested_at + wait_seconds r.grant.wait_period ≤ u64_max
    → pending_status r now ≢ err x
unfolding pending_status checked_add
pending_status_total r now x w h = ground arith

state_status_total :
    (r : ReleaseRequest) (m : Bool) (now : ℕ) (s : ReleaseRequestState) (x : EmergencyError)
    → r.requested_at + wait_seconds r.grant.wait_period ≤ u64_max
    → state_status r m now s ≢ err x
unfolding state_status
state_status_total r m now pending x w h = ground (arith, pending_status_total r now x w)
state_status_total r m now (ReleaseRequestState.denied t) x w h = ground arith
state_status_total r m now (ReleaseRequestState.revoked t) x w h = ground arith
state_status_total r m now (ReleaseRequestState.released t e) x w h = ground arith

-- On a request that keeps the invariant, status fails only with TimeRewind, and exactly when now
-- is before the last event.
pub status_err_iff :
    (r : ReleaseRequest) (p : AccessPolicy) (rev now : ℕ) (x : EmergencyError)
    → IsRequest r
    → (status r p rev now ≡ err x) ↔ ((x ≡ time_rewind) × (now < r.last_event_at))
unfolding status check_time
status_err_iff r p rev now x i =
    let k = state_status_total r (policy_matches r p rev) now r.state x i.window in
    ground (arith, k)

denied_again :
    (r : ReleaseRequest) (t u : ℕ)
    → r.state ≡ ReleaseRequestState.denied t
    → r.last_event_at ≤ u
    → Release.deny u r ≡ (ok false, r)
unfolding Release.deny deny_state
denied_again r t u h l = ground arith

deny_ok :
    (r : ReleaseRequest) (t : ℕ)
    → (Release.deny t r).0 ≡ ok true
    → ((Release.deny t r).1.state ≡ ReleaseRequestState.denied t)
      × ((Release.deny t r).1.last_event_at ≡ t)
unfolding Release.deny deny_state
deny_ok r t h = ground arith

-- After a deny that succeeded, a later deny answers Ok(false) and changes nothing.
pub deny-deny :
    (r : ReleaseRequest) (t u : ℕ)
    → (Release.deny t r).0 ≡ ok true
    → t ≤ u
    → Release.deny u (Release.deny t r).1 ≡ (ok false, (Release.deny t r).1)
deny-deny r t u h l =
    let k = deny_ok r t h in denied_again (Release.deny t r).1 t u k.0 (omega (arith, k.1, l))

-- An error of deny leaves the request as it was, but for TimeOverflow of a full revision counter:
-- then the caller gets the error and the request is denied all the same.
pub deny_err :
    (r : ReleaseRequest) (now : ℕ) (x : EmergencyError)
    → (Release.deny now r).0 ≡ err x
    → ((x ≢ time_overflow) × ((Release.deny now r).1 ≡ r))
      ⊎ ((x ≡ time_overflow)
          × (u64_max ≤ r.state_revision)
          × ((Release.deny now r).1
              ≡ record r { state = ReleaseRequestState.denied now; last_event_at = now }))
unfolding Release.deny deny_state checked_add
deny_err r now x h = ground arith
