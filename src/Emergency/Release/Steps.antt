-- ===== src/Emergency/Release/Steps.antt =====
-- A request under a sequence of calls, and what one call may change.
use safeory.Base.{ℕ, ◌+◌, ◌≤◌, ◌<◌, ◌≡◌, ◌⊎◌, List, [], ◌∷◌, u64_max, arith}
use safeory.Sync.Types.{Uuid}
use safeory.Models.Policy.{AccessPolicy}
use safeory.Emergency.Release
use safeory.Emergency.Release.{
  ReleaseRequest, ReleaseRequestState, pending, EmergencyError, time_overflow, deny_state,
  revoke_state, release_eligible, release_at, advance, check_time, status, ReleaseStatus, eligible,
  is_eligible,
}

-- The calls that may change a request.
pub data Event : Type 0 where
  approve : Uuid → ℕ → Event
  deny : ℕ → Event
  revoke : ℕ → Event
  release : AccessPolicy → ℕ → ℕ → Event

unfoldable pub step : Event → ReleaseRequest → ReleaseRequest
step (Event.approve approver_id now) r = (Release.approve approver_id now r).1
step (Event.deny now) r = (Release.deny now r).1
step (Event.revoke now) r = (Release.revoke now r).1
step (Event.release p current_item_revision now) r =
    (Release.release p current_item_revision now r).1

unfoldable pub run : List Event → ReleaseRequest → ReleaseRequest
run [] r = r
run (e ∷ events) r = run events (step e r)

-- The terms of a request: everything but the approvals, the state and the time stamps.
pub record SameTerms (r r' : ReleaseRequest) : Type 0 where
  pub request_id : r'.request_id ≡ r.request_id
  pub trustee_id : r'.trustee_id ≡ r.trustee_id
  pub what : r'.what ≡ r.what
  pub condition : r'.condition ≡ r.condition
  pub item_revision : r'.item_revision ≡ r.item_revision
  pub requested_at : r'.requested_at ≡ r.requested_at
  pub grant : r'.grant ≡ r.grant

pub step-SameTerms : (e : Event) (r : ReleaseRequest) → SameTerms r (step e r)
unfolding step Release.approve Release.deny Release.revoke Release.release release_eligible
step-SameTerms (Event.approve a now) r = ground arith
step-SameTerms (Event.deny now) r = ground arith
step-SameTerms (Event.revoke now) r = ground arith
step-SameTerms (Event.release p rev now) r = ground arith

-- No call moves the time of the last event backwards.
pub step-last_event_at :
    (e : Event) (r : ReleaseRequest) → r.last_event_at ≤ (step e r).last_event_at
unfolding step Release.approve Release.deny Release.revoke Release.release release_eligible
    check_time
step-last_event_at (Event.approve a now) r = ground arith
step-last_event_at (Event.deny now) r = ground arith
step-last_event_at (Event.revoke now) r = ground arith
step-last_event_at (Event.release p rev now) r = ground arith

-- While the revision counter is not full, a call changes nothing, or it counts exactly one more
-- revision.
pub step_fence :
    (e : Event) (r : ReleaseRequest)
    → r.state_revision < u64_max
    → (step e r ≡ r) ⊎ ((step e r).state_revision ≡ r.state_revision + 1)
unfolding step Release.approve Release.deny Release.revoke Release.release release_eligible
step_fence (Event.approve a now) r h = ground arith
step_fence (Event.deny now) r h = ground arith
step_fence (Event.revoke now) r h = ground arith
step_fence (Event.release p rev now) r h = ground arith
