-- ===== src/Sync/Topology/Total.antt =====
-- When the loop over the accounts ends without an error (crates/vault-sync/src/lib.rs).
use safeory.Base.{
  ◌≡◌, ◌≢◌, refl, sym, ◌∙◌, inl, inr, none, List, [], ◌∷◌, map, In, here, there, in-map,
  in→contains, Distinct, ok, nat_eq, ==_iff, lookup, lookup-cons, Option-cases, arith,
}
use safeory.Sync.Types.{Uuid, AccountV1}
use safeory.Sync.Records.Laws.{IsAccount, validate_account_iff}
use safeory.Sync.Topology.{DeviceAccounts, bind_devices, bind_accounts}
use safeory.Sync.Topology.Devices.{Owns, Binds, OwnedBy, bind_devices-Binds}

free_later :
    (x d a : Uuid) (m : DeviceAccounts) → x ≢ d → lookup d m ≡ none → lookup d ((x, a) ∷ m) ≡ none
free_later x d a m other free = ground (arith, lookup-cons d x a m, ==_iff x d)

bind_devices_total :
    (a : Uuid) (ds : List Uuid) (m : DeviceAccounts)
    → Distinct ds
    → ((d : Uuid) → In d ds → lookup d m ≡ none)
    → (m' : DeviceAccounts) × (bind_devices a ds m ≡ ok m')
unfolding bind_devices
bind_devices_total a [] m distinct free = (m, ground arith)
bind_devices_total a (x ∷ ds) m distinct free =
    let rest =
      bind_devices_total a ds ((x, a) ∷ m) distinct.1
        (λ d i. free_later x d a m (λ q. distinct.0 (rw q i)) (free d (there i))) in
    (rest.0, ground (arith, free x here, rest.1))

later_owner :
    (x : AccountV1) (accounts : List AccountV1) (d a : Uuid)
    → Owns accounts d a
    → Owns (x ∷ accounts) d a
later_owner x accounts d a (y, i, e, m) = (y, there i, e, m)

-- A device of a later account is still free once the devices of `x` are bound.
free_after :
    (x : AccountV1) (accounts : List AccountV1) (m mid : DeviceAccounts)
    → Binds (OwnedBy x.account_id x.device_ids) m mid
    → (¬ In x.account_id (map (λ (a : AccountV1). a.account_id) accounts))
    → ((d a b : Uuid) → Owns (x ∷ accounts) d a → Owns (x ∷ accounts) d b → a ≡ b)
    → (d a : Uuid) → Owns accounts d a
    → lookup d m ≡ none
    → lookup d mid ≡ none
free_after x accounts m mid b new one d a o free = elim (Option-cases (lookup d mid)) [
  | inl e ↦ e
  | inr (c, e) ↦ elim (b.only d c e) [
    | inl old ↦ absurd (ground arith)
    | inr (same, mine) ↦
        let e = one d x.account_id a (x, here, refl, mine) (later_owner x accounts d a o) in
        let (y, i, q, _) = o in
        absurd (new (rw (e ∙ sym q) (in-map (λ (a : AccountV1). a.account_id) i)))
  ]
]

pub bind_accounts_total :
    (hid : Uuid) (accounts : List AccountV1) (m : DeviceAccounts)
    → ((a : AccountV1) → In a accounts → IsAccount a × In hid a.household_ids)
    → Distinct (map (λ (a : AccountV1). a.account_id) accounts)
    → ((d a b : Uuid) → Owns accounts d a → Owns accounts d b → a ≡ b)
    → ((d a : Uuid) → Owns accounts d a → lookup d m ≡ none)
    → (m' : DeviceAccounts) × (bind_accounts hid accounts m ≡ ok m')
unfolding bind_accounts
bind_accounts_total hid [] m valid distinct one free = (m, ground arith)
bind_accounts_total hid (x ∷ accounts) m valid distinct one free =
    let (vx, hx) = valid x here in
    let (mid, devices) =
      bind_devices_total x.account_id x.device_ids m vx.device_ids.distinct
        (λ d i. free d x.account_id (x, here, refl, i)) in
    let b = bind_devices-Binds x.account_id x.device_ids m mid devices in
    let (m', rest) =
      bind_accounts_total hid accounts mid (λ a i. valid a (there i)) distinct.1
        (λ d a a' o o'. one d a a' (later_owner x accounts d a o) (later_owner x accounts d a' o'))
        (λ d a o.
          free_after x accounts m mid b distinct.0 one d a o
            (free d a (later_owner x accounts d a o))) in
    (m', ground (arith, (validate_account_iff x).1 vx, in→contains hx, devices, rest))
