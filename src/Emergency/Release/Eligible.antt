-- ===== src/Emergency/Release/Eligible.antt =====
-- What `status` has checked when it answers `Eligible` (crates/vault-emergency/src/lib.rs).
use safeory.Base.{ℕ, ◌+◌, ◌≤◌, ◌≡◌, Bool, true, false, none, some, ok, checked_add, nat_eq, arith}
use safeory.Models.Policy.{AccessPolicy, wait_seconds}
use safeory.Emergency.Access.{lacks_approvals}
use safeory.Emergency.Release.{
  ReleaseRequest, ReleaseRequestState, pending, check_time, status, state_status, pending_status,
  released_status, eligible, policy_matches,
}

-- A request on which `status` answers `Eligible` is pending, matched, approved and past its wait.
pub record IsEligible (r : ReleaseRequest) (p : AccessPolicy) (rev now : ℕ) : Type 0 where
  pub on_time : r.last_event_at ≤ now
  pub is_open : r.state ≡ pending
  pub matches : policy_matches r p rev ≡ true
  pub approved : lacks_approvals r.grant r.approvals ≡ false
  pub waited : r.requested_at + wait_seconds r.grant.wait_period ≤ now

pending_status_eligible :
    (r : ReleaseRequest) (now : ℕ)
    → pending_status r now ≡ ok eligible
    → (lacks_approvals r.grant r.approvals ≡ false)
      × (r.requested_at + wait_seconds r.grant.wait_period ≤ now)
unfolding pending_status checked_add
pending_status_eligible r now h = ground arith

state_status_eligible :
    (r : ReleaseRequest) (m : Bool) (now : ℕ) (s : ReleaseRequestState)
    → state_status r m now s ≡ ok eligible
    → (s ≡ pending) × (m ≡ true) × (pending_status r now ≡ ok eligible)
unfolding state_status released_status
state_status_eligible r m now pending h = ground arith
state_status_eligible r m now (ReleaseRequestState.denied _) h = ground arith
state_status_eligible r m now (ReleaseRequestState.revoked _) h = ground arith
state_status_eligible r m now (ReleaseRequestState.released t none) h = ground arith
state_status_eligible r m now (ReleaseRequestState.released t (some x)) h = ground arith

pub status_eligible :
    (r : ReleaseRequest) (p : AccessPolicy) (rev now : ℕ)
    → status r p rev now ≡ ok eligible
    → IsEligible r p rev now
unfolding status check_time
status_eligible r p rev now h =
    let t : r.last_event_at ≤ now = ground arith in
    let s = state_status_eligible r (policy_matches r p rev) now r.state (ground arith) in
    let e = pending_status_eligible r now s.2 in
    record { on_time = t; is_open = s.0; matches = s.1; approved = e.0; waited = e.1 }
