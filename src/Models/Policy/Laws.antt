-- ===== src/Models/Policy/Laws.antt =====
-- What a valid policy is, and its validation (crates/vault-models/src/lib.rs).
use safeory.Base.{
  ◌≤◌, ◌<◌, ◌≡◌, ◌≢◌, ◌↔◌, refl, List, [], ◌∷◌, ◌++◌, String, true, ok, nat_eq, string_eq, ==_iff,
  length, any, any_iff, In, here, there, in-cons, All, Distinct, map, in-map, in-map_inv,
  Bool-cases, arith, inl, inr, contains_iff, ◌⊎◌,
}
use safeory.Sync.Types.{Uuid}
use Prim.Native.String.{count}
use safeory.Models.Policy.{
  AccessCondition, AccessGrant, AccessPolicy, WaitPeriod, custom, condition_eq, max_access_grants,
  max_grant_what_chars, max_grant_approvers, is_custom_zero, validate_access_grant, same_slot,
  validate_grants, validate_access_policy,
}

pub record IsGrant (g : AccessGrant) : Type 0 where
  pub what : g.what ≢ ""
  pub what_within : count g.what ≤ max_grant_what_chars
  pub approvers_within : length g.approver_ids ≤ max_grant_approvers
  pub wait : g.wait_period ≢ custom 0
  pub enough_approvers : g.approvals_required ≤ length g.approver_ids
  pub not_own_approver : 0 < g.approvals_required → ¬ In g.trustee_id g.approver_ids

-- The slot that a grant fills.
abbrev pub Slot : Type 0
Slot = Uuid × String × AccessCondition

abbrev pub slot : AccessGrant → Slot
slot g = (g.trustee_id, g.what, g.condition)

pub record IsPolicy (p : AccessPolicy) : Type 0 where
  pub within : length p.grants ≤ max_access_grants
  pub grants : All IsGrant p.grants
  pub slots : Distinct (map slot p.grants)

custom_zero_iff : (w : WaitPeriod) → (is_custom_zero w ≡ true) ↔ (w ≡ custom 0)
custom_zero_iff w = ground arith

pub validate_access_grant_iff : (g : AccessGrant) → (validate_access_grant g ≡ ok tt) ↔ IsGrant g
unfolding validate_access_grant
validate_access_grant_iff g = ground (
  arith,
  ==_iff g.what "",
  custom_zero_iff g.wait_period,
  contains_iff g.approver_ids g.trustee_id,
)

pub same_slot_iff : (a b : AccessGrant) → (same_slot a b ≡ true) ↔ (slot a ≡ slot b)
unfolding same_slot
same_slot_iff a b = ground (arith, ==_iff a.what b.what, ==_iff a.condition b.condition)

only_slot : {s t : Slot} → In s (t ∷ []) → s ≡ t
only_slot here = refl
only_slot (there m) = elim m [ ]

taken_iff :
    (earlier : List AccessGrant) (g : AccessGrant)
    → (any (λ existing. same_slot existing g) earlier ≡ true) ↔ In (slot g) (map slot earlier)
taken_iff earlier g =
    let found = any_iff (λ existing. same_slot existing g) earlier in
    (
      λ h. let (x, m, e) = found.0 h in rw (← (same_slot_iff x g).0 e) (in-map slot m),
      λ m. let (x, i, e) = in-map_inv slot earlier m in found.1 (x, i, (same_slot_iff x g).1 e),
    )

-- The loop accepts the rest of the list when its slots are new and different.
record Accepts (earlier grants : List AccessGrant) : Type 0 where
  valid : All IsGrant grants
  distinct : Distinct (map slot grants)
  new : (g : AccessGrant) → In g grants → ¬ In (slot g) (map slot earlier)

after_one :
    (earlier : List AccessGrant) (g : AccessGrant) (s : Slot)
    → In s (map slot (earlier ++ g ∷ [])) ↔ (In s (map slot earlier) ⊎ (s ≡ slot g))
after_one [] g s = (λ m. inr (only_slot m), λ e. elim e [ inl m ↦ elim m [ ] | inr q ↦ rw q here ])
after_one (x ∷ earlier) g s =
    let ih = after_one earlier g s in
    (
      λ m. elim (in-cons m) [
        | inl q ↦ inl (rw q here)
        | inr r ↦ elim (ih.0 r) [ inl i ↦ inl (there i) | inr q ↦ inr q ]
      ],
      λ e. elim e [
        | inl m ↦ elim (in-cons m) [ inl q ↦ rw q here | inr r ↦ there (ih.1 (inl r)) ]
        | inr q ↦ there (ih.1 (inr q))
      ],
    )

validate_grants→Accepts :
    (earlier grants : List AccessGrant)
    → validate_grants earlier grants ≡ ok tt
    → Accepts earlier grants
unfolding validate_grants
validate_grants→Accepts earlier [] h = record { valid = tt; distinct = tt; new = λ g m. elim m [ ] }
validate_grants→Accepts earlier (g ∷ grants) h =
    elim (Bool-cases (any (λ e. same_slot e g) earlier)) [
      | inl bad ↦ absurd (ground arith)
      | inr good ↦
          let rest = validate_grants→Accepts (earlier ++ g ∷ []) grants (ground arith) in
          record {
            valid = ((validate_access_grant_iff g).0 (ground arith), rest.valid);
            distinct = (
              λ m.
                  let (x, i, q) = in-map_inv slot grants m in
                  rest.new x i ((after_one earlier g (slot x)).1 (inr q)),
              rest.distinct,
            );
            new = λ x m n. elim (in-cons m) [
              | inl q ↦ ground (arith, (taken_iff earlier g).1 (rw q at n))
              | inr i ↦ rest.new x i ((after_one earlier g (slot x)).1 (inl n))
            ];
          }
    ]

Accepts→validate_grants :
    (earlier grants : List AccessGrant)
    → Accepts earlier grants
    → validate_grants earlier grants ≡ ok tt
unfolding validate_grants
Accepts→validate_grants earlier [] a = refl
Accepts→validate_grants earlier (g ∷ grants) a =
    elim (Bool-cases (any (λ e. same_slot e g) earlier)) [
      | inl bad ↦ absurd (a.new g here ((taken_iff earlier g).0 bad))
      | inr good ↦
          let rest = Accepts→validate_grants (earlier ++ g ∷ []) grants (record {
            valid = a.valid.1;
            distinct = a.distinct.1;
            new = λ x m n. elim ((after_one earlier g (slot x)).0 n) [
              | inl i ↦ a.new x (there m) i
              | inr q ↦ a.distinct.0 (rw (← q) (in-map slot m))
            ];
          }) in
          ground (arith, (validate_access_grant_iff g).1 a.valid.0, rest)
    ]

-- validate_access_policy accepts exactly the policies of at most 64 valid grants in different
-- slots.
pub validate_access_policy_iff :
    (p : AccessPolicy) → (validate_access_policy p ≡ ok tt) ↔ IsPolicy p
unfolding validate_access_policy
validate_access_policy_iff p = (
  λ h.
      let a = validate_grants→Accepts [] p.grants (ground arith) in
      record { within = ground arith; grants = a.valid; slots = a.distinct },
  λ i.
      let e =
        Accepts→validate_grants [] p.grants
          (record { valid = i.grants; distinct = i.slots; new = λ g m n. elim n [ ] }) in
      ground (arith, i.within, e),
)
