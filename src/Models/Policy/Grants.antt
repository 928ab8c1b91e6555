-- ===== src/Models/Policy/Grants.antt =====
-- What `AccessPolicy::add_grant` does (crates/vault-models/src/lib.rs).
use safeory.Base.{
  ◌≤◌, ◌<◌, ◌≡◌, ◌≢◌, ◌↔◌, ◌⊎◌, inl, inr, refl, sym, ◌∙◌, ap, List, [], ◌∷◌, ◌++◌, map, none, some,
  ok, err, length, length-snoc, In, here, there, in-cons, in-snoc, Distinct-snoc, All, All-snoc,
  map-snoc, Bool-cases, Option-cases, Result-cases, leb, arith,
}
use safeory.Models.Policy.{
  Checked, AccessGrant, AccessPolicy, AccessPolicyValidationError, too_many_grants,
  max_access_grants, same_slot, replace_grant, validate_access_grant, add_grant,
}
use safeory.Models.Policy.Laws.{IsGrant, IsPolicy, slot, same_slot_iff, validate_access_grant_iff}

-- The slots of `grants'` are those of `grants`, and its grants are the old ones but for `g`.
record Replaced (g : AccessGrant) (grants grants' : List AccessGrant) : Type 0 where
  slots : map slot grants' ≡ map slot grants
  size : length grants' ≡ length grants
  valid : All IsGrant grants → IsGrant g → All IsGrant grants'
  holds : In g grants'
  other : (x : AccessGrant) → slot x ≢ slot g → In x grants' ↔ In x grants

replace_none :
    (g : AccessGrant) (grants : List AccessGrant)
    → replace_grant g grants ≡ none
    → ¬ In (slot g) (map slot grants)
unfolding replace_grant
replace_none g [] h m = elim m [ ]
replace_none g (x ∷ grants) h m = elim (Bool-cases (same_slot x g)) [
  | inl same ↦ absurd (ground arith)
  | inr other ↦ elim (in-cons m) [
    | inl e ↦ ground (arith, (same_slot_iff x g).1 (sym e))
    | inr r ↦ replace_none g grants (ground arith) r
  ]
]

Replaced-head :
    (g x : AccessGrant) (grants : List AccessGrant)
    → slot x ≡ slot g
    → Replaced g (x ∷ grants) (g ∷ grants)
Replaced-head g x grants e = record {
  slots = ap (λ s. s ∷ map slot grants) (sym e);
  size = refl;
  valid = λ a v. (v, a.1);
  holds = here;
  other = λ y n. (
    λ m. elim (in-cons m) [ inl q ↦ absurd (n (ap slot q)) | inr r ↦ there r ],
    λ m. elim (in-cons m) [ inl q ↦ absurd (n (ap slot q ∙ e)) | inr r ↦ there r ],
  );
}

Replaced-tail :
    (g x : AccessGrant) (grants l : List AccessGrant)
    → Replaced g grants l
    → Replaced g (x ∷ grants) (x ∷ l)
Replaced-tail g x grants l r = record {
  slots = ap (λ s. slot x ∷ s) r.slots;
  size = omega (arith, r.size);
  valid = λ a v. (a.0, r.valid a.1 v);
  holds = there r.holds;
  other = λ y n. (
    λ m. elim (in-cons m) [ inl q ↦ rw q here | inr i ↦ there ((r.other y n).0 i) ],
    λ m. elim (in-cons m) [ inl q ↦ rw q here | inr i ↦ there ((r.other y n).1 i) ],
  );
}

replace_some :
    (g : AccessGrant) (grants grants' : List AccessGrant)
    → replace_grant g grants ≡ some grants'
    → Replaced g grants grants'
unfolding replace_grant
replace_some g [] l h = cc
replace_some g (x ∷ grants) l h = elim (Bool-cases (same_slot x g)) [
  | inl same ↦
      let e : g ∷ grants ≡ l = ground arith in
      rw (← e) (Replaced-head g x grants ((same_slot_iff x g).0 same))
  | inr other ↦ elim (Option-cases (replace_grant g grants)) [
    | inl lost ↦ absurd (ground arith)
    | inr (rest, found) ↦
        let e : x ∷ rest ≡ l = ground arith in
        rw (← e) (Replaced-tail g x grants rest (replace_some g grants rest found))
  ]
]

-- What a successful `add_grant` leaves behind.
pub record Added (p : AccessPolicy) (g : AccessGrant) (p' : AccessPolicy) : Type 0 where
  pub valid : IsPolicy p'
  pub holds : In g p'.grants
  pub other : (x : AccessGrant) → slot x ≢ slot g → In x p'.grants ↔ In x p.grants
  pub private_forever : p'.private_forever ≡ p.private_forever
  pub destruction : p'.destruction ≡ p.destruction
  pub owner_only_default : p'.owner_only_default ≡ p.owner_only_default

-- The four ways through `add_grant`, each with what it returns.
data Outcome (p : AccessPolicy) (g : AccessGrant) (r : Checked (Unit {0}) × AccessPolicy)
    : Type 0 where
  rejected :
      (e : AccessPolicyValidationError)
      → validate_access_grant g ≡ err e
      → r ≡ (err e, p)
      → Outcome p g r
  replaced :
      (grants : List AccessGrant)
      → IsGrant g
      → Replaced g p.grants grants
      → r ≡ (ok tt, record p { grants = grants })
      → Outcome p g r
  full :
      IsGrant g
      → (¬ In (slot g) (map slot p.grants))
      → max_access_grants ≤ length p.grants
      → r ≡ (err too_many_grants, p)
      → Outcome p g r
  pushed :
      IsGrant g
      → (¬ In (slot g) (map slot p.grants))
      → length p.grants < max_access_grants
      → r ≡ (ok tt, record p { grants = p.grants ++ g ∷ [] })
      → Outcome p g r

outcome_valid :
    (p : AccessPolicy) (g : AccessGrant)
    → validate_access_grant g ≡ ok tt
    → Outcome p g (add_grant p g)
unfolding add_grant
outcome_valid p g v =
    let i = (validate_access_grant_iff g).0 v in
    elim (Option-cases (replace_grant g p.grants)) [
      | inl e ↦
          let new = replace_none g p.grants e in
          elim (Bool-cases (leb max_access_grants (length p.grants))) [
            | inl f ↦ full i new (ground arith) (ground arith)
            | inr r ↦ pushed i new (ground arith) (ground arith)
          ]
      | inr (l, e) ↦ replaced l i (replace_some g p.grants l e) (ground arith)
    ]

outcome : (p : AccessPolicy) (g : AccessGrant) → Outcome p g (add_grant p g)
unfolding add_grant
outcome p g = elim (Result-cases (validate_access_grant g)) [
  | inl (u, v) ↦ outcome_valid p g v
  | inr (e, v) ↦ rejected e v (ground arith)
]

-- Adding a grant to a valid policy keeps it valid and fills the grant's slot with it; every other
-- slot holds what it held.
pub add_grant-Added :
    (p : AccessPolicy) (g : AccessGrant)
    → IsPolicy p
    → (add_grant p g).0 ≡ ok tt
    → Added p g (add_grant p g).1
add_grant-Added p g v h = elim (outcome p g) [
  | rejected e _ q ↦ absurd (ground arith)
  | full _ _ _ q ↦ absurd (ground arith)
  | replaced l i r q ↦ rw q (record {
    valid = record {
      within = omega (arith, r.size, v.within);
      grants = r.valid v.grants i;
      slots = rw r.slots v.slots;
    };
    holds = r.holds;
    other = r.other;
    private_forever = refl;
    destruction = refl;
    owner_only_default = refl;
  })
  | pushed i new room q ↦ rw q (record {
    valid = record {
      within = omega (arith, length-snoc p.grants g);
      grants = All-snoc IsGrant p.grants g v.grants i;
      slots = rw map-snoc (Distinct-snoc (map slot p.grants) (slot g) v.slots new);
    };
    holds = (in-snoc p.grants g g).1 (inr refl);
    other = λ x n. (
      λ m. elim ((in-snoc p.grants g x).0 m) [ inl i ↦ i | inr e ↦ absurd (n (ap slot e)) ],
      λ m. (in-snoc p.grants g x).1 (inl m),
    );
    private_forever = refl;
    destruction = refl;
    owner_only_default = refl;
  })
]

-- A failing add_grant changes nothing, and fails only for an invalid grant or a new slot in a full
-- policy.
pub add_grant_refused :
    (p : AccessPolicy) (g : AccessGrant) (e : AccessPolicyValidationError)
    → (add_grant p g).0 ≡ err e
    → ((add_grant p g).1 ≡ p)
      × ((validate_access_grant g ≡ err e)
          ⊎ ((e ≡ too_many_grants)
              × (¬ In (slot g) (map slot p.grants))
              × (max_access_grants ≤ length p.grants)))
add_grant_refused p g e h = elim (outcome p g) [
  | rejected f v q ↦ (ap (λ r. r.1) q, inl (ground arith))
  | full i new f q ↦ (ap (λ r. r.1) q, inr (ground arith, new, f))
  | replaced l i r q ↦ absurd (ground arith)
  | pushed i new room q ↦ absurd (ground arith)
]
