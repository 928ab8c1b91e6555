-- ===== src/Api/Topologies/Principals.antt =====
-- The lookup of the accounts and devices that a topology names
-- (`principal_sets_match`, apps/api/src/store.rs).
use safeory.Base.{
  ℕ, ◌≡◌, ◌≢◌, inl, inr, sym, subst, ◌∙◌, ap, true, false, Option, none, some, List, [], ◌∷◌, map,
  nat_eq, option_eq, ◌==◌, ==_iff, Bool-cases, Option-cases, arith, In, in-cons, in-map,
  in-append_left, in-append_right, in-filter_inv, same_set_iff, all_iff, All-in, lookup,
}
use safeory.Sync.Types.{Uuid, AccountV1, HouseholdTopologyV1}
use safeory.Sync.Topology.Devices.{Owns}
use safeory.Api.Tables.{Database, DeviceRow}
use safeory.Api.Topologies.{
  Devices, devices_of, expected_devices, is_some, actual_accounts, actual_devices, same_devices,
  principal_sets_match, principals_known,
}

-- The device is registered for the account and is not revoked.
pub record IsActive (db : Database) (d a : Uuid) : Type 0 where
  pub row : DeviceRow
  pub found : db.devices d ≡ some row
  pub not_revoked : row.is_revoked ≡ false
  pub owner : row.account_id ≡ a

pub record IsKnown (db : Database) (t : HouseholdTopologyV1) : Type 0 where
  pub accounts : (a : AccountV1) → In a t.accounts → db.cursors a.account_id ≢ none
  pub devices : (d a : Uuid) → Owns t.accounts d a → IsActive db d a

owned_expected :
    (accounts : List AccountV1) (d a : Uuid)
    → Owns accounts d a
    → In {A = Uuid × Uuid} (d, a) (expected_devices accounts)
unfolding expected_devices
owned_expected [] d a (_, m, _, _) = elim m [ ]
owned_expected (x ∷ accounts) d a (y, m, q, i) = elim (in-cons m) [
  | inl e ↦
      let j = subst (λ (z : AccountV1). In d z.device_ids) e i in
      let k : In {A = Uuid × Uuid} (d, x.account_id) (devices_of x) =
        in-map (λ b. (b, x.account_id)) j in
      let o : x.account_id ≡ a = sym (ap (λ (z : AccountV1). z.account_id) e) ∙ q in
      in-append_left (expected_devices accounts)
        (subst (λ b. In {A = Uuid × Uuid} (d, b) (devices_of x)) o k)
  | inr r ↦ in-append_right (devices_of x) (owned_expected accounts d a (y, r, q, i))
]

actual_devices-IsActive :
    (db : Database) (expected : Devices) (d a : Uuid)
    → lookup d (actual_devices db expected) ≡ some a
    → IsActive db d a
unfolding actual_devices lookup
actual_devices-IsActive db [] d a h = absurd (ground arith)
actual_devices-IsActive db ((x, y) ∷ expected) d a h = elim (Option-cases (db.devices x)) [
  | inl lost ↦ actual_devices-IsActive db expected d a (ground arith)
  | inr (row, f) ↦ elim (Bool-cases row.is_revoked) [
    | inl gone ↦ actual_devices-IsActive db expected d a (ground arith)
    | inr live ↦ elim (Bool-cases (x == d)) [
      | inl e ↦
          let q : x ≡ d = ground arith in
          record { row = row; found = rw (← q) f; not_revoked = live; owner = ground arith }
      | inr e ↦ actual_devices-IsActive db expected d a (ground arith)
    ]
  ]
]

is_some_lem : (c : Option ℕ) → is_some c ≡ true → c ≢ none
is_some_lem c h q = ground arith

-- The server accepts only principals that it knows.
pub principals_known-IsKnown :
    (db : Database) (t : HouseholdTopologyV1) → principals_known db t ≡ true → IsKnown db t
unfolding principals_known principal_sets_match same_devices actual_accounts
principals_known-IsKnown db t h =
    let expected = expected_devices t.accounts in
    let ids = map (λ (a : AccountV1). a.account_id) t.accounts in
    let found =
      (all_iff (λ ((d, a) : Uuid × Uuid). lookup d (actual_devices db expected) == some a)
          expected).0
        (ground arith) in
    let same = (same_set_iff ids (actual_accounts db ids)).0 (ground arith) in
    record {
      accounts = λ a m.
          let i = same.0 a.account_id (in-map (λ (x : AccountV1). x.account_id) m) in
          is_some_lem (db.cursors a.account_id)
            (in-filter_inv (λ x. is_some (db.cursors x)) ids i).1;
      devices = λ d a o.
          let f =
            All-in
              (λ ((x, y) : Uuid × Uuid). (lookup x (actual_devices db expected) == some y) ≡ true)
              found (owned_expected t.accounts d a o) in
          actual_devices-IsActive db expected d a
            ((==_iff (lookup d (actual_devices db expected)) (some a)).0 f);
    }
