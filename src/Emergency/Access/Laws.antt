-- ===== src/Emergency/Access/Laws.antt =====
-- When `evaluate` grants, and how it agrees with `begin_release_request`
-- (crates/vault-emergency/src/lib.rs).
use safeory.Base.{
  ℕ, String, false, ◌≤◌, ◌≡◌, ◌≢◌, ◌↔◌, ◌⊎◌, inl, inr, Option, some, List, In, All-in, err, is_err,
  count_common, find→in, Result-cases, Option-cases, ◌&&◌, checked_add, arith, ◌==◌, nat_eq,
  string_eq, ==_iff,
}
use safeory.Sync.Types.{Uuid}
use safeory.Models.Policy.{
  AccessCondition, condition_eq, Permission, AccessGrant, AccessPolicy, WaitPeriod, immediate,
  wait_seconds, duration_seconds, validate_access_policy,
}
use safeory.Models.Policy.Laws.{IsGrant, IsPolicy, validate_access_policy_iff}
use safeory.Emergency.Access.{
  ApprovalProof, denied, destroyed, granted, evaluate, evaluate_grant, lacks_approvals,
  received_approvals, find_grant, is_death, destroys_on_death,
}
use safeory.Emergency.Release.{begin_release_request, check_window, release_denied}

-- What stands behind an immediate grant.
pub record IsGranted (p : AccessPolicy) (what : String) (c : AccessCondition) (trustee : Uuid)
    (proof : ApprovalProof) (permission : Permission) (x : Option ℕ) : Type 0 where
  pub grant : AccessGrant
  pub listed : In grant p.grants
  pub trustee_agrees : grant.trustee_id ≡ trustee
  pub what_agrees : grant.what ≡ what
  pub condition_agrees : grant.condition ≡ c
  pub is_immediate : grant.wait_period ≡ immediate
  pub enough : grant.approvals_required ≤ count_common grant.approver_ids proof.approver_ids
  pub permission_agrees : permission ≡ grant.permission
  pub duration : x ≡ duration_seconds grant.duration
  pub policy : IsPolicy p
  pub not_private : (p.private_forever && is_death c) ≡ false
  pub not_destroyed : (destroys_on_death p.destruction && is_death c) ≡ false

found :
    (grants : List AccessGrant) (what : String) (c : AccessCondition) (trustee : Uuid)
    (g : AccessGrant)
    → find_grant grants what c trustee ≡ some g
    → In g grants × (g.trustee_id ≡ trustee) × (g.what ≡ what) × (g.condition ≡ c)
unfolding find_grant
found grants what c trustee g h =
    let k =
      find→in (λ (y : AccessGrant). y.trustee_id == trustee && (y.what == what && y.condition == c))
        grants h in
    let t : g.trustee_id ≡ trustee = ground (arith, k.1) in
    let w : g.what ≡ what = ground (arith, k.1, ==_iff g.what what) in
    let q : g.condition ≡ c = ground (arith, k.1, ==_iff g.condition c) in (k.0, t, w, q)

no_wait : (w : WaitPeriod) → w ≢ WaitPeriod.custom 0 → wait_seconds w ≡ 0 → w ≡ immediate
unfolding wait_seconds
no_wait w i h = ground arith

valid_policy : (p : AccessPolicy) → is_err (validate_access_policy p) ≡ false → IsPolicy p
valid_policy p h = elim (Result-cases (validate_access_policy p)) [
  | inl (u, v) ↦ (validate_access_policy_iff p).0 v
  | inr (e, v) ↦ absurd (ground arith)
]

evaluate_grant_granted :
    (g : AccessGrant) (l : List Uuid) (permission : Permission) (x : Option ℕ)
    → evaluate_grant g l ≡ granted permission x
    → (g.approvals_required ≤ count_common g.approver_ids l)
      × (wait_seconds g.wait_period ≡ 0)
      × (permission ≡ g.permission)
      × (x ≡ duration_seconds g.duration)
unfolding evaluate_grant lacks_approvals received_approvals
evaluate_grant_granted g l permission x h = ground arith

-- evaluate grants only what a valid policy lists for that trustee, scope and condition, with no
-- waiting period and as many of the grant's own approvers as it requires; never after a death when
-- the policy is private for ever or destroyed on death.
pub evaluate-IsGranted :
    (p : AccessPolicy) (what : String) (c : AccessCondition) (trustee : Uuid)
    (proof : ApprovalProof) (permission : Permission) (x : Option ℕ)
    → evaluate p what c trustee proof ≡ granted permission x
    → IsGranted p what c trustee proof permission x
unfolding evaluate
evaluate-IsGranted p what c trustee proof permission x h =
    elim (Option-cases (find_grant p.grants what c trustee)) [
      | inl lost ↦ absurd (ground arith)
      | inr (g, f) ↦
          let d : (destroys_on_death p.destruction && is_death c) ≡ false = ground arith in
          let k : (p.private_forever && is_death c) ≡ false = ground arith in
          let v : is_err (validate_access_policy p) ≡ false = ground arith in
          let e : evaluate_grant g proof.approver_ids ≡ granted permission x = ground arith in
          let m = found p.grants what c trustee g f in
          let i = valid_policy p v in
          let n = evaluate_grant_granted g proof.approver_ids permission x e in
          record {
            grant = g;
            listed = m.0;
            trustee_agrees = m.1;
            what_agrees = m.2;
            condition_agrees = m.3;
            is_immediate = no_wait g.wait_period (All-in IsGrant i.grants m.0).wait n.1;
            enough = n.0;
            permission_agrees = n.2;
            duration = n.3;
            policy = i;
            not_private = k;
            not_destroyed = d;
          }
    ]

evaluate_grant_open :
    (g : AccessGrant) (l : List Uuid)
    → ¬ ((evaluate_grant g l ≡ denied) ⊎ (evaluate_grant g l ≡ destroyed))
unfolding evaluate_grant
evaluate_grant_open g l h = ground arith

check_window_err : (g : AccessGrant) (t : ℕ) → check_window g t ≢ err release_denied
unfolding check_window checked_add
check_window_err g t h = ground arith

-- begin_release_request answers ReleaseDenied exactly when evaluate answers Denied or Destroyed,
-- whatever the approvals, the revision and the time.
pub begin_denied_iff :
    (id : Uuid) (p : AccessPolicy) (what : String) (c : AccessCondition) (trustee : Uuid)
    (rev t : ℕ) (proof : ApprovalProof)
    → (begin_release_request id p what c trustee rev t ≡ err release_denied)
      ↔ ((evaluate p what c trustee proof ≡ denied) ⊎ (evaluate p what c trustee proof ≡ destroyed))
unfolding begin_release_request evaluate
begin_denied_iff id p what c trustee rev t proof =
    elim (Option-cases (find_grant p.grants what c trustee)) [
      | inl lost ↦ ground arith
      | inr (g, f) ↦ ground (arith, evaluate_grant_open g proof.approver_ids, check_window_err g t)
    ]
