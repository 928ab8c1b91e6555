-- ===== src/Examples/Emergency.antt =====
-- A will that two approvers release after seven days (crates/vault-emergency).
use safeory.Base.{
  ◌≡◌, ◌≢◌, ◌⊎◌, ◌↔◌, ok, err, refl, true, false, some, none, List, [], ◌∷◌, ◌≤◌, u64_max, any,
  contains, find, filter, count_common, set_insert, checked_add, find,
}
use safeory.Models.Policy.{
  AccessGrant, AccessPolicy, AccessCondition, Permission, WaitPeriod, GrantDuration,
  validate_access_grant, validate_access_policy, validate_grants, same_slot, wait_seconds,
  duration_seconds,
}
use safeory.Models.Policy.Equality.{grant_beq}
use safeory.Emergency.Access.{
  ApprovalProof, denied, destroyed, granted, evaluate, evaluate_grant, find_grant, lacks_approvals,
  received_approvals,
}
use safeory.Emergency.Access.Laws.{IsGranted, evaluate-IsGranted, begin_denied_iff}
use safeory.Emergency.Release.{
  ReleaseRequest, ReleaseRequestState, time_overflow, release_denied, begin_release_request,
  new_request, check_window, approve, deny, deny_state, release, release_eligible, release_at,
  advance, status, state_status, pending_status, check_time, policy_matches, pending,
}
use safeory.Emergency.Release.Steps.{Event, step, run}
use safeory.Emergency.Release.Invariant.{IsRequest, run-begin_release_request-IsRequest}
use safeory.Emergency.Release.History.{Justified, released-Justified}
use safeory.Emergency.Release.Terminal.{run_over, deny_err}

abbrev will : AccessGrant
will = record {
  trustee_id = 11;
  what = "will";
  permission = Permission.view;
  condition = AccessCondition.death;
  wait_period = WaitPeriod.seven_days;
  duration = GrantDuration.one_day;
  approvals_required = 2;
  approver_ids = 21 ∷ 22 ∷ 23 ∷ [];
}

abbrev bank : AccessGrant
bank = record {
  trustee_id = 12;
  what = "bank";
  permission = Permission.edit;
  condition = AccessCondition.incapacity;
  wait_period = WaitPeriod.immediate;
  duration = GrantDuration.until_revoked;
  approvals_required = 1;
  approver_ids = 21 ∷ [];
}

abbrev policy : AccessPolicy
policy = record {
  owner_only_default = true;
  grants = will ∷ bank ∷ [];
  private_forever = false;
  destruction = none;
}

abbrev proof : ApprovalProof
proof = record { approver_ids = 21 ∷ [] }

bank_granted :
    evaluate policy "bank" AccessCondition.incapacity 12 proof ≡ granted Permission.edit none
unfolding evaluate evaluate_grant find_grant find lacks_approvals received_approvals count_common
    filter validate_access_policy validate_grants validate_access_grant same_slot contains any
    wait_seconds duration_seconds
bank_granted = refl

evaluate-IsGranted_example :
    IsGranted policy "bank" AccessCondition.incapacity 12 proof Permission.edit none
evaluate-IsGranted_example =
    evaluate-IsGranted policy "bank" AccessCondition.incapacity 12 proof Permission.edit none
      bank_granted

begin_denied_iff_example :
    (begin_release_request 90 policy "will" AccessCondition.death 12 1 1_000 ≡ err release_denied)
    ↔ ((evaluate policy "will" AccessCondition.death 12 proof ≡ denied)
        ⊎ (evaluate policy "will" AccessCondition.death 12 proof ≡ destroyed))
begin_denied_iff_example = begin_denied_iff 90 policy "will" AccessCondition.death 12 1 1_000 proof

abbrev begun : ReleaseRequest
begun = record {
  request_id = 90;
  trustee_id = 11;
  what = "will";
  condition = AccessCondition.death;
  item_revision = 5;
  requested_at = 1_000;
  last_event_at = 1_000;
  state_revision = 1;
  grant = will;
  approvals = [];
  state = pending;
}

will_begins : begin_release_request 90 policy "will" AccessCondition.death 11 5 1_000 ≡ ok begun
unfolding begin_release_request new_request check_window checked_add find_grant find
    validate_access_policy validate_grants validate_access_grant same_slot contains any wait_seconds
    duration_seconds
will_begins = refl

abbrev calls : List Event
calls =
    Event.approve 22 1_500
    ∷ Event.release policy 5 2_000
    ∷ Event.approve 21 2_000
    ∷ Event.release policy 5 605_800
    ∷ []

will_released : (run calls begun).state ≡ ReleaseRequestState.released 605_800 (some 692_200)
unfolding run step approve release release_eligible release_at advance status state_status
    pending_status check_time policy_matches checked_add lacks_approvals received_approvals
    count_common filter set_insert validate_access_policy validate_grants validate_access_grant
    same_slot contains any wait_seconds duration_seconds grant_beq
will_released = refl

run-begin_release_request-IsRequest_example : IsRequest (run calls begun)
run-begin_release_request-IsRequest_example =
    run-begin_release_request-IsRequest 90 policy "will" AccessCondition.death 11 5 1_000 begun
      calls will_begins

released-Justified_example : Justified begun (run calls begun) calls 605_800 (some 692_200)
released-Justified_example =
    released-Justified 90 policy "will" AccessCondition.death 11 5 1_000 begun calls 605_800
      (some 692_200) will_begins will_released

begun-IsRequest : IsRequest (run [] begun)
begun-IsRequest =
    run-begin_release_request-IsRequest 90 policy "will" AccessCondition.death 11 5 1_000 begun []
      will_begins

abbrev refused : ReleaseRequest
refused = record begun {
  state = ReleaseRequestState.denied 1_200;
  last_event_at = 1_200;
  state_revision = 2;
}

run_over_example : run calls refused ≡ refused
run_over_example = run_over calls refused tt

begun_denied : (deny 1_200 begun).0 ≡ ok true
unfolding deny deny_state advance checked_add
begun_denied = refl

-- A request whose revision counter is full.
abbrev full : ReleaseRequest
full = record begun { state_revision = u64_max }

full_overflows : (deny 1_200 full).0 ≡ err time_overflow
unfolding deny deny_state advance checked_add
full_overflows = refl

deny_err_example :
    ((time_overflow ≢ time_overflow) × ((deny 1_200 full).1 ≡ full))
    ⊎ ((time_overflow ≡ time_overflow)
        × (u64_max ≤ full.state_revision)
        × ((deny 1_200 full).1
            ≡ record full { state = ReleaseRequestState.denied 1_200; last_event_at = 1_200 }))
deny_err_example = deny_err full 1_200 time_overflow full_overflows
