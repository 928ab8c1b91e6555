-- ===== src/Models/Policy/Equality.antt =====
-- The derived `PartialEq` of a grant (crates/vault-models/src/lib.rs), field by field.
use safeory.Base.{
  ℕ, Bool, true, ◌&&◌, ◌≡◌, ◌↔◌, Eq, nat_eq, string_eq, list_eq, ◌==◌, ==_iff, eqb, arith,
}
use safeory.Models.Policy.{
  Permission, view, edit, download, share, manage, WaitPeriod, GrantDuration, condition_eq,
  AccessGrant,
}

abbrev permission_tag : Permission → ℕ
permission_tag view = 0
permission_tag edit = 1
permission_tag download = 2
permission_tag share = 3
permission_tag manage = 4

abbrev permission_beq : Permission → Permission → Bool
permission_beq a b = eqb (permission_tag a) (permission_tag b)

pub permission_beq_iff : (a b : Permission) → (permission_beq a b ≡ true) ↔ (a ≡ b)
permission_beq_iff a b = ground arith

instance abbrev pub permission_eq : Eq Permission
permission_eq = record { beq = permission_beq; beq_iff = permission_beq_iff }

abbrev wait_tag : WaitPeriod → ℕ
wait_tag WaitPeriod.immediate = 0
wait_tag WaitPeriod.one_hour = 1
wait_tag WaitPeriod.one_day = 2
wait_tag WaitPeriod.seven_days = 3
wait_tag (WaitPeriod.custom _) = 4

abbrev wait_value : WaitPeriod → ℕ
wait_value (WaitPeriod.custom seconds) = seconds
wait_value _ = 0

abbrev wait_beq : WaitPeriod → WaitPeriod → Bool
wait_beq a b = eqb (wait_tag a) (wait_tag b) && eqb (wait_value a) (wait_value b)

pub wait_beq_iff : (a b : WaitPeriod) → (wait_beq a b ≡ true) ↔ (a ≡ b)
wait_beq_iff a b = ground arith

instance abbrev pub wait_eq : Eq WaitPeriod
wait_eq = record { beq = wait_beq; beq_iff = wait_beq_iff }

abbrev duration_tag : GrantDuration → ℕ
duration_tag GrantDuration.until_revoked = 0
duration_tag GrantDuration.one_hour = 1
duration_tag GrantDuration.one_day = 2
duration_tag GrantDuration.seven_days = 3
duration_tag (GrantDuration.custom _) = 4

abbrev duration_value : GrantDuration → ℕ
duration_value (GrantDuration.custom seconds) = seconds
duration_value _ = 0

abbrev duration_beq : GrantDuration → GrantDuration → Bool
duration_beq a b =
    eqb (duration_tag a) (duration_tag b) && eqb (duration_value a) (duration_value b)

pub duration_beq_iff : (a b : GrantDuration) → (duration_beq a b ≡ true) ↔ (a ≡ b)
duration_beq_iff a b = ground arith

instance abbrev pub duration_eq : Eq GrantDuration
duration_eq = record { beq = duration_beq; beq_iff = duration_beq_iff }

unfoldable pub grant_beq : AccessGrant → AccessGrant → Bool
grant_beq a b =
    a.trustee_id == b.trustee_id
    && (a.what == b.what
        && (a.permission == b.permission
            && (a.condition == b.condition
                && (a.wait_period == b.wait_period
                    && (a.duration == b.duration
                        && (a.approvals_required == b.approvals_required
                            && a.approver_ids == b.approver_ids))))))

pub grant_beq_iff : (a b : AccessGrant) → (grant_beq a b ≡ true) ↔ (a ≡ b)
unfolding grant_beq
grant_beq_iff a b = ground (
  arith,
  ==_iff a.what b.what,
  ==_iff a.permission b.permission,
  ==_iff a.condition b.condition,
  ==_iff a.wait_period b.wait_period,
  ==_iff a.duration b.duration,
  ==_iff a.approver_ids b.approver_ids,
)
