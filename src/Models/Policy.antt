-- ===== src/Models/Policy.antt =====
-- Access grants and policies (crates/vault-models/src/lib.rs, `AccessCondition` to
-- `validate_access_policy`). A `BTreeSet<Uuid>` is an ascending list.
pub mod Laws
pub mod Grants
pub mod Equality
use Prim.Native.String.{count}
use safeory.Base.{
  ℕ, String, Bool, true, false, not, ◌&&◌, ◌||◌, ◌≡◌, ◌↔◌, Option, none, some, List, [], ◌∷◌, ◌++◌,
  Result, ok, err, ◌>>=◌, ◌>>◌, Eq, nat_eq, string_eq, list_eq, pair_eq, ◌==◌, ==_iff, ltb, leb,
  eqb, length, any, contains, is_err, if◌then◌else◌, arith,
}
use safeory.Sync.Types.{Uuid}

abbrev pub max_access_grants : ℕ
max_access_grants = 64

abbrev pub max_grant_what_chars : ℕ
max_grant_what_chars = 128

abbrev pub max_grant_approvers : ℕ
max_grant_approvers = 16

pub data AccessCondition : Type 0 where
  normal emergency incapacity death : AccessCondition

pub data Permission : Type 0 where
  view edit download share manage : Permission

pub data WaitPeriod : Type 0 where
  immediate one_hour one_day seven_days : WaitPeriod
  custom : ℕ → WaitPeriod

unfoldable pub wait_seconds : WaitPeriod → ℕ
wait_seconds immediate = 0
wait_seconds one_hour = 3_600
wait_seconds one_day = 86_400
wait_seconds seven_days = 604_800
wait_seconds (custom seconds) = seconds

pub data GrantDuration : Type 0 where
  until_revoked one_hour one_day seven_days : GrantDuration
  custom : ℕ → GrantDuration

unfoldable pub duration_seconds : GrantDuration → Option ℕ
duration_seconds until_revoked = none
duration_seconds GrantDuration.one_hour = some 3_600
duration_seconds GrantDuration.one_day = some 86_400
duration_seconds GrantDuration.seven_days = some 604_800
duration_seconds (GrantDuration.custom seconds) = some seconds

pub data LegacyCondition : Type 0 where
  on_death : LegacyCondition

pub record AccessGrant : Type 0 where
  pub trustee_id : Uuid
  pub what : String
  pub permission : Permission
  pub condition : AccessCondition
  pub wait_period : WaitPeriod
  pub duration : GrantDuration
  pub approvals_required : ℕ
  pub approver_ids : List Uuid

pub record AccessPolicy : Type 0 where
  pub owner_only_default : Bool
  pub grants : List AccessGrant
  pub private_forever : Bool
  pub destruction : Option LegacyCondition

pub data AccessPolicyValidationError : Type 0 where
  invalid_grant too_many_grants : AccessPolicyValidationError

abbrev pub Checked : Type 0 → Type 0
Checked A = Result AccessPolicyValidationError A

-- The derived `PartialEq` of `AccessCondition`.
abbrev condition_tag : AccessCondition → ℕ
condition_tag normal = 0
condition_tag emergency = 1
condition_tag incapacity = 2
condition_tag death = 3

abbrev condition_beq : AccessCondition → AccessCondition → Bool
condition_beq a b = eqb (condition_tag a) (condition_tag b)

pub condition_beq_iff : (a b : AccessCondition) → (condition_beq a b ≡ true) ↔ (a ≡ b)
condition_beq_iff a b = ground arith

instance abbrev pub condition_eq : Eq AccessCondition
condition_eq = record { beq = condition_beq; beq_iff = condition_beq_iff }

-- `matches!(grant.wait_period, WaitPeriod::Custom(0))`
abbrev pub is_custom_zero : WaitPeriod → Bool
is_custom_zero (custom seconds) = seconds == 0
is_custom_zero _ = false

unfoldable pub validate_access_grant : AccessGrant → Checked (Unit {0})
validate_access_grant g =
    if g.what == "" || ltb max_grant_what_chars (count g.what)
    then err invalid_grant
    else if ltb max_grant_approvers (length g.approver_ids)
        || (is_custom_zero g.wait_period
            || (ltb 0 g.approvals_required
                && (ltb (length g.approver_ids) g.approvals_required
                    || contains g.approver_ids g.trustee_id)))
    then err invalid_grant
    else ok tt

-- Two grants address the same trustee, object scope and condition.
unfoldable pub same_slot : AccessGrant → AccessGrant → Bool
same_slot existing g =
    existing.trustee_id == g.trustee_id
    && (existing.what == g.what && existing.condition == g.condition)

-- The loop of `validate_access_policy`; `earlier` are the grants before the index.
unfoldable pub validate_grants : List AccessGrant → List AccessGrant → Checked (Unit {0})
validate_grants earlier [] = ok tt
validate_grants earlier (g ∷ grants) = do
  validate_access_grant g
  if any (λ existing. same_slot existing g) earlier
      then err invalid_grant
      else validate_grants (earlier ++ g ∷ []) grants

unfoldable pub validate_access_policy : AccessPolicy → Checked (Unit {0})
validate_access_policy p =
    if ltb max_access_grants (length p.grants)
    then err too_many_grants
    else validate_grants [] p.grants

unfoldable pub new_grant :
    Uuid
    → String
    → Permission
    → AccessCondition
    → WaitPeriod
    → GrantDuration
    → ℕ
    → List Uuid
    → Checked AccessGrant
new_grant trustee_id what permission condition wait_period duration approvals_required
      approver_ids =
    let grant : AccessGrant = record {
      trustee_id = trustee_id;
      what = what;
      permission = permission;
      condition = condition;
      wait_period = wait_period;
      duration = duration;
      approvals_required = approvals_required;
      approver_ids = approver_ids;
    } in
    do validate_access_grant grant; ok grant

unfoldable pub new_policy : Bool → AccessPolicy
new_policy owner_only_default = record {
  owner_only_default = owner_only_default;
  grants = [];
  private_forever = false;
  destruction = none;
}

-- `iter_mut().find(…)` and the write through it; `none` when no grant has the slot.
unfoldable pub replace_grant : AccessGrant → List AccessGrant → Option (List AccessGrant)
replace_grant g [] = none
replace_grant g (existing ∷ grants) =
    let rest = replace_grant g grants in
    if same_slot existing g
    then some (g ∷ grants)
    else elim rest [ none ↦ none | some l ↦ some (existing ∷ l) ]

-- `add_grant` leaves the policy as it is on an error.
unfoldable pub add_grant : AccessPolicy → AccessGrant → Checked (Unit {0}) × AccessPolicy
add_grant p g = elim (validate_access_grant g) [
  | err e ↦ (err e, p)
  | ok _ ↦ elim (replace_grant g p.grants) [
    | some grants ↦ (ok tt, record p { grants = grants })
    | none ↦
        if leb max_access_grants (length p.grants)
        then (err too_many_grants, p)
        else (ok tt, record p { grants = p.grants ++ g ∷ [] })
  ]
]

unfoldable pub set_private_forever : AccessPolicy → AccessPolicy
set_private_forever p = record p { private_forever = true }

unfoldable pub destroy_on : AccessPolicy → LegacyCondition → AccessPolicy
destroy_on p condition = record p { destruction = some condition }
