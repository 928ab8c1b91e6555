-- ===== src/Emergency/Release/Begin.antt =====
-- What a request is when `begin_release_request` (crates/vault-emergency/src/lib.rs) returns it.
use safeory.Base.{
  String, ℕ, ◌+◌, ◌≤◌, ◌≡◌, refl, [], false, some, ok, u64_max, checked_add, is_err, ◌&&◌, inl, inr,
  Option-cases, arith,
}
use safeory.Sync.Types.{Uuid}
use safeory.Models.Policy.{
  AccessPolicy, AccessGrant, AccessCondition, wait_seconds, validate_access_policy,
}
use safeory.Emergency.Access.{find_grant, is_death, destroys_on_death}
use safeory.Emergency.Release.{
  ReleaseRequest, pending, new_request, begin_release_request, check_window,
}

pub record Began (p : AccessPolicy) (what : String) (c : AccessCondition) (trustee : Uuid)
    (rev t : ℕ) (r : ReleaseRequest) : Type 0 where
  pub found : find_grant p.grants what c trustee ≡ some r.grant
  pub valid : is_err (validate_access_policy p) ≡ false
  pub not_destroyed : (destroys_on_death p.destruction && is_death c) ≡ false
  pub not_private : (p.private_forever && is_death c) ≡ false
  pub window : t + wait_seconds r.grant.wait_period ≤ u64_max
  pub is_open : r.state ≡ pending
  pub approvals : r.approvals ≡ []
  pub requested_at : r.requested_at ≡ t
  pub last_event_at : r.last_event_at ≡ t
  pub item_revision : r.item_revision ≡ rev
  pub condition : r.condition ≡ c

check_window_ok :
    (g : AccessGrant) (t : ℕ) → check_window g t ≡ ok tt → t + wait_seconds g.wait_period ≤ u64_max
unfolding check_window checked_add
check_window_ok g t h = ground arith

pub begin-Began :
    (id : Uuid) (p : AccessPolicy) (what : String) (c : AccessCondition) (trustee : Uuid)
    (rev t : ℕ) (r : ReleaseRequest)
    → begin_release_request id p what c trustee rev t ≡ ok r
    → Began p what c trustee rev t r
unfolding begin_release_request
begin-Began id p what c trustee rev t r h =
    elim (Option-cases (find_grant p.grants what c trustee)) [
      | inl lost ↦ absurd (ground arith)
      | inr (g, f) ↦
          let q : new_request id what c trustee rev t g ≡ r = ground arith in
          let w : check_window g t ≡ ok tt = ground arith in
          let v : is_err (validate_access_policy p) ≡ false = ground arith in
          let d : (destroys_on_death p.destruction && is_death c) ≡ false = ground arith in
          let k : (p.private_forever && is_death c) ≡ false = ground arith in
          rw (← q) (record {
            found = f;
            valid = v;
            not_destroyed = d;
            not_private = k;
            window = check_window_ok g t w;
            is_open = refl;
            approvals = refl;
            requested_at = refl;
            last_event_at = refl;
            item_revision = refl;
            condition = refl;
          })
    ]
