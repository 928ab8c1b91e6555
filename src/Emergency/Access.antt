-- ===== src/Emergency/Access.antt =====
-- `evaluate` (crates/vault-emergency/src/lib.rs), and the searches that it shares with the release.
pub mod Laws
use safeory.Base.{
  ℕ, String, Bool, true, false, not, ◌&&◌, ◌||◌, ◌≡◌, ◌↔◌, Option, none, some, List, Eq, nat_eq,
  string_eq, list_eq, ◌==◌, ==_iff, eqb, ltb, leb, find, count_common, set_collect, is_err,
  if◌then◌else◌, arith,
}
use safeory.Sync.Types.{Uuid}
use safeory.Models.Policy.{
  AccessCondition, normal, emergency, incapacity, death, condition_eq, Permission, AccessGrant,
  AccessPolicy, LegacyCondition, on_death, wait_seconds, duration_seconds, validate_access_policy,
}

pub record ApprovalProof : Type 0 where
  pub approver_ids : List Uuid

unfoldable pub new_proof : List Uuid → ApprovalProof
new_proof approver_ids = record { approver_ids = set_collect approver_ids }

pub data AccessDecision : Type 0 where
  denied : AccessDecision
  awaiting_approvals : ℕ → ℕ → AccessDecision
  waiting : ℕ → AccessDecision
  granted : Permission → Option ℕ → AccessDecision
  destroyed : AccessDecision

abbrev pub is_death : AccessCondition → Bool
is_death death = true
is_death normal = false
is_death emergency = false
is_death incapacity = false

-- `policy.destruction == Some(LegacyCondition::Death)`
abbrev pub destroys_on_death : Option LegacyCondition → Bool
destroys_on_death none = false
destroys_on_death (some on_death) = true

unfoldable pub find_grant : List AccessGrant → String → AccessCondition → Uuid → Option AccessGrant
find_grant grants what condition trustee_id =
    find
      (λ (g : AccessGrant).
        g.trustee_id == trustee_id && (g.what == what && g.condition == condition))
      grants

-- `u8::try_from(n).unwrap_or(u8::MAX)`
abbrev pub saturate_u8 : ℕ → ℕ
saturate_u8 n = if leb n 255 then n else 255

-- The approvals that count for a grant.
unfoldable pub received_approvals : AccessGrant → List Uuid → ℕ
received_approvals g approvals = saturate_u8 (count_common g.approver_ids approvals)

unfoldable pub lacks_approvals : AccessGrant → List Uuid → Bool
unfolding received_approvals
lacks_approvals g approvals =
    ltb 0 g.approvals_required && ltb (received_approvals g approvals) g.approvals_required

-- The decision once the grant is found.
unfoldable pub evaluate_grant : AccessGrant → List Uuid → AccessDecision
evaluate_grant g approvals =
    if lacks_approvals g approvals
    then awaiting_approvals g.approvals_required (received_approvals g approvals)
    else if ltb 0 (wait_seconds g.wait_period)
    then waiting (wait_seconds g.wait_period)
    else granted g.permission (duration_seconds g.duration)

unfoldable pub evaluate :
    AccessPolicy → String → AccessCondition → Uuid → ApprovalProof → AccessDecision
evaluate p what condition trustee_id approvals =
    if is_err (validate_access_policy p)
    then denied
    else if destroys_on_death p.destruction && is_death condition
    then destroyed
    else if p.private_forever && is_death condition
    then denied
    else elim (find_grant p.grants what condition trustee_id) [
      | none ↦ denied
      | some g ↦ evaluate_grant g approvals.approver_ids
    ]
