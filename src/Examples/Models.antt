-- ===== src/Examples/Models.antt =====
-- A policy with one grant, and a second one added to it (crates/vault-models).
use safeory.Base.{
  ◌≡◌, ◌↔◌, ok, err, refl, true, false, none, [], ◌∷◌, nat_eq, string_eq, any, contains,
}
use safeory.Models.Policy.{
  AccessGrant, AccessPolicy, AccessCondition, Permission, WaitPeriod, GrantDuration, invalid_grant,
  add_grant, validate_access_grant, validate_access_policy, validate_grants, replace_grant,
  same_slot,
}
use safeory.Models.Policy.Laws.{IsPolicy, validate_access_policy_iff}
use safeory.Models.Policy.Grants.{Added, add_grant-Added}

abbrev will : AccessGrant
will = record {
  trustee_id = 11;
  what = "will";
  permission = Permission.view;
  condition = AccessCondition.death;
  wait_period = WaitPeriod.seven_days;
  duration = GrantDuration.one_day;
  approvals_required = 2;
  approver_ids = 21 ∷ 22 ∷ 23 ∷ [];
}

abbrev bank : AccessGrant
bank = record {
  trustee_id = 12;
  what = "bank";
  permission = Permission.edit;
  condition = AccessCondition.incapacity;
  wait_period = WaitPeriod.immediate;
  duration = GrantDuration.until_revoked;
  approvals_required = 0;
  approver_ids = [];
}

abbrev policy : AccessPolicy
policy = record {
  owner_only_default = true;
  grants = will ∷ [];
  private_forever = false;
  destruction = none;
}

-- An approval by the trustee is no approval.
abbrev own_approval : AccessGrant
own_approval = record bank { approvals_required = 1; approver_ids = 12 ∷ [] }

policy_valid : validate_access_policy policy ≡ ok tt
unfolding validate_access_policy validate_grants validate_access_grant contains any
policy_valid = refl

policy_IsPolicy : IsPolicy policy
policy_IsPolicy = (validate_access_policy_iff policy).0 policy_valid

validate_access_policy_iff_example : (validate_access_policy policy ≡ ok tt) ↔ IsPolicy policy
validate_access_policy_iff_example = validate_access_policy_iff policy

bank_added : (add_grant policy bank).0 ≡ ok tt
unfolding add_grant validate_access_grant replace_grant same_slot contains any
bank_added = refl

own_approval_refused : (add_grant policy own_approval).0 ≡ err invalid_grant
unfolding add_grant validate_access_grant replace_grant same_slot contains any
own_approval_refused = refl

add_grant-Added_example : Added policy bank (add_grant policy bank).1
add_grant-Added_example = add_grant-Added policy bank policy_IsPolicy bank_added
