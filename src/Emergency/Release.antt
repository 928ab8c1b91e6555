-- ===== src/Emergency/Release.antt =====
-- The timed-release request (`ReleaseRequest`, crates/vault-emergency/src/lib.rs). A method on
-- `&mut self` returns its result beside the request as the call leaves it, on an error too.
pub mod Steps
pub mod Eligible
pub mod Transitions
pub mod Begin
pub mod Invariant
pub mod History
pub mod Terminal
use safeory.Base.{
  ℕ, ◌-◌, String, Bool, true, false, not, ◌&&◌, ◌||◌, Option, none, some, List, [], Result, ok, err,
  ◌>>=◌, ◌>>◌, ok_or, nat_eq, ◌==◌, ltb, leb, any, contains, set_insert, checked_add, is_err,
  if◌then◌else◌,
}
use safeory.Sync.Types.{Uuid}
use safeory.Models.Policy.{
  AccessCondition, Permission, AccessGrant, AccessPolicy, wait_seconds, duration_seconds,
  validate_access_policy,
}
use safeory.Models.Policy.Equality.{grant_beq}
use safeory.Emergency.Access.{
  is_death, destroys_on_death, find_grant, received_approvals, lacks_approvals,
}

-- `sharing` and `crypto` stand for any error that those crates return.
pub data EmergencyError : Type 0 where
  invalid_threshold invalid_share insufficient_shares inconsistent_secret : EmergencyError
  sharing crypto : EmergencyError
  release_denied time_rewind time_overflow unauthorized_approver invalid_release_transition :
      EmergencyError

pub data ReleaseRequestState : Type 0 where
  pending : ReleaseRequestState
  released : ℕ → Option ℕ → ReleaseRequestState
  denied : ℕ → ReleaseRequestState
  revoked : ℕ → ReleaseRequestState

pub record ReleaseRequest : Type 0 where
  pub request_id : Uuid
  pub trustee_id : Uuid
  pub what : String
  pub condition : AccessCondition
  pub item_revision : ℕ
  pub requested_at : ℕ
  pub last_event_at : ℕ
  pub state_revision : ℕ
  pub grant : AccessGrant
  pub approvals : List Uuid
  pub state : ReleaseRequestState

pub data ReleaseStatus : Type 0 where
  policy_changed : ReleaseStatus
  awaiting_approvals : ℕ → ℕ → ReleaseStatus
  waiting : ℕ → ℕ → ReleaseStatus
  eligible : ReleaseStatus
  released : Permission → ℕ → Option ℕ → ReleaseStatus
  expired : ℕ → ReleaseStatus
  denied : ReleaseStatus
  revoked : ReleaseStatus

abbrev pub Outcome : Type 0 → Type 0
Outcome A = Result EmergencyError A

abbrev pub Method : Type 0 → Type 0
Method A = ReleaseRequest → Outcome A × ReleaseRequest

unfoldable pub check_time : ReleaseRequest → ℕ → Outcome (Unit {0})
check_time r now = if ltb now r.last_event_at then err time_rewind else ok tt

unfoldable pub policy_matches : ReleaseRequest → AccessPolicy → ℕ → Bool
policy_matches r p current_item_revision =
    if not (current_item_revision == r.item_revision) || is_err (validate_access_policy p)
    then false
    else if destroys_on_death p.destruction && is_death r.condition
    then false
    else if p.private_forever && is_death r.condition
    then false
    else any (λ grant. grant_beq grant r.grant) p.grants

-- The end of `status`, for a pending request under a matching policy.
unfoldable pub pending_status : ReleaseRequest → ℕ → Outcome ReleaseStatus
pending_status r now =
    if lacks_approvals r.grant r.approvals
    then ok (awaiting_approvals r.grant.approvals_required (received_approvals r.grant r.approvals))
    else elim (checked_add r.requested_at (wait_seconds r.grant.wait_period)) [
      | none ↦ err time_overflow
      | some not_before ↦
          if ltb now not_before then ok (waiting not_before (not_before - now)) else ok eligible
    ]

-- `Expired` from the end of the grant's duration on.
unfoldable pub released_status : ReleaseRequest → ℕ → Option ℕ → ℕ → ReleaseStatus
released_status r released_at none now = ReleaseStatus.released r.grant.permission released_at none
released_status r released_at (some expired_at) now =
    if leb expired_at now
    then expired expired_at
    else ReleaseStatus.released r.grant.permission released_at (some expired_at)

-- The two matches of `status` on the state.
unfoldable pub state_status :
    ReleaseRequest → Bool → ℕ → ReleaseRequestState → Outcome ReleaseStatus
state_status r matches now (ReleaseRequestState.denied _) = ok ReleaseStatus.denied
state_status r matches now (ReleaseRequestState.revoked _) = ok ReleaseStatus.revoked
state_status r matches now (ReleaseRequestState.released released_at expires_at) =
    if matches then ok (released_status r released_at expires_at now) else ok policy_changed
state_status r matches now pending = if matches then pending_status r now else ok policy_changed

unfoldable pub status : ReleaseRequest → AccessPolicy → ℕ → ℕ → Outcome ReleaseStatus
unfolding check_time
status r p current_item_revision now = do
  check_time r now
  state_status r (policy_matches r p current_item_revision) now r.state

-- `self.state_revision = self.state_revision.checked_add(1).ok_or(TimeOverflow)?; Ok(result)`
unfoldable pub advance {ℓ} :
    {A : Type ℓ} → ReleaseRequest → A → Result EmergencyError A × ReleaseRequest
unfolding checked_add
advance r result = elim (checked_add r.state_revision 1) [
  | none ↦ (err time_overflow, r)
  | some next ↦ (ok result, record r { state_revision = next })
]

abbrev pub is_pending : ReleaseRequestState → Bool
is_pending pending = true
is_pending _ = false

unfoldable pub approve : Uuid → ℕ → Method Bool
unfolding advance
approve approver_id now r =
    if ltb now r.last_event_at
    then (err time_rewind, r)
    else if not (is_pending r.state)
    then (err invalid_release_transition, r)
    else if not (contains r.grant.approver_ids approver_id)
    then (err unauthorized_approver, r)
    else if contains r.approvals approver_id
    then (ok false, r)
    else advance (record r { approvals = set_insert approver_id r.approvals; last_event_at = now })
        true

-- The match of `deny` on the state.
unfoldable pub deny_state : ℕ → ReleaseRequest → ReleaseRequestState → Outcome Bool × ReleaseRequest
unfolding advance
deny_state now r (ReleaseRequestState.denied _) = (ok false, r)
deny_state now r (ReleaseRequestState.released _ _) = (err invalid_release_transition, r)
deny_state now r (ReleaseRequestState.revoked _) = (err invalid_release_transition, r)
deny_state now r pending =
    advance (record r { state = ReleaseRequestState.denied now; last_event_at = now }) true

unfoldable pub deny : ℕ → Method Bool
unfolding deny_state
deny now r = if ltb now r.last_event_at then (err time_rewind, r) else deny_state now r r.state

-- The match of `revoke` on the state.
unfoldable pub revoke_state :
    ℕ → ReleaseRequest → ReleaseRequestState → Outcome Bool × ReleaseRequest
unfolding advance
revoke_state now r (ReleaseRequestState.revoked _) = (ok false, r)
revoke_state now r (ReleaseRequestState.denied _) = (err invalid_release_transition, r)
revoke_state now r (ReleaseRequestState.released _ _) =
    advance (record r { state = ReleaseRequestState.revoked now; last_event_at = now }) true
revoke_state now r pending =
    advance (record r { state = ReleaseRequestState.revoked now; last_event_at = now }) true

unfoldable pub revoke : ℕ → Method Bool
unfolding revoke_state
revoke now r = if ltb now r.last_event_at then (err time_rewind, r) else revoke_state now r r.state

-- The end of `release`, once `expires_at` is computed.
unfoldable pub release_at : ℕ → Option ℕ → Method ReleaseStatus
unfolding advance
release_at now expires_at r =
    advance (record r { state = ReleaseRequestState.released now expires_at; last_event_at = now })
      (ReleaseStatus.released r.grant.permission now expires_at)

unfoldable pub release_eligible : ℕ → Method ReleaseStatus
unfolding release_at checked_add
release_eligible now r = elim (duration_seconds r.grant.duration) [
  | none ↦ release_at now none r
  | some seconds ↦ elim (checked_add now seconds) [
    | none ↦ (err time_overflow, r)
    | some expires_at ↦ release_at now (some expires_at) r
  ]
]

abbrev pub is_eligible : ReleaseStatus → Bool
is_eligible eligible = true
is_eligible _ = false

unfoldable pub release : AccessPolicy → ℕ → ℕ → Method ReleaseStatus
release p current_item_revision now r = elim (check_time r now) [
  | err e ↦ (err e, r)
  | ok _ ↦ elim (status r p current_item_revision now) [
    | err e ↦ (err e, r)
    | ok s ↦ if is_eligible s then release_eligible now r else (ok s, r)
  ]
]

-- Neither the waiting period nor the duration overflows from `requested_at`.
unfoldable pub check_window : AccessGrant → ℕ → Outcome (Unit {0})
unfolding checked_add
check_window g requested_at = do
  not_before ← ok_or time_overflow (checked_add requested_at (wait_seconds g.wait_period))
  elim (duration_seconds g.duration) [
    | none ↦ ok tt
    | some duration ↦ elim (checked_add not_before duration) [
      | none ↦ err time_overflow
      | some _ ↦ ok tt
    ]
  ]

-- The request that `begin_release_request` builds.
unfoldable pub new_request :
    Uuid → String → AccessCondition → Uuid → ℕ → ℕ → AccessGrant → ReleaseRequest
new_request request_id what condition trustee_id item_revision requested_at grant = record {
  request_id = request_id;
  trustee_id = trustee_id;
  what = what;
  condition = condition;
  item_revision = item_revision;
  requested_at = requested_at;
  last_event_at = requested_at;
  state_revision = 1;
  grant = grant;
  approvals = [];
  state = pending;
}

-- `request_id` is the identifier that the random generator gives.
unfoldable pub begin_release_request :
    Uuid → AccessPolicy → String → AccessCondition → Uuid → ℕ → ℕ → Outcome ReleaseRequest
unfolding new_request
begin_release_request request_id p what condition trustee_id item_revision requested_at =
    if is_err (validate_access_policy p)
      || ((destroys_on_death p.destruction && is_death condition)
          || (p.private_forever && is_death condition))
    then err release_denied
    else do
      grant ← ok_or release_denied (find_grant p.grants what condition trustee_id)
      check_window grant requested_at
      ok (new_request request_id what condition trustee_id item_revision requested_at grant)
