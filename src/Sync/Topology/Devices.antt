-- ===== src/Sync/Topology/Devices.antt =====
-- What the map of devices holds after the loop over the accounts (`device_accounts` in
-- `HouseholdTopologyV1::validate`).
use safeory.Base.{
  ◌≡◌, sym, ◌⊎◌, inl, inr, true, some, List, [], ◌∷◌, ok, nat_eq, ◌==◌, ==_iff, lookup, contains,
  contains→in, In, here, there, Option-cases, Bool-cases, All, ap, ◌∙◌, in-cons, lookup-cons, arith,
}
use safeory.Sync.Types.{Uuid, AccountV1}
use safeory.Sync.Records.{validate_account}
use safeory.Sync.Topology.{DeviceAccounts, bind_devices, bind_accounts}

-- The entries of `m'` are those of `m`, and those of `owns`.
pub record Binds (owns : Uuid → Uuid → Type 0) (m m' : DeviceAccounts) : Type 0 where
  pub bound : (d a : Uuid) → owns d a → lookup d m' ≡ some a
  pub kept : (d a : Uuid) → lookup d m ≡ some a → lookup d m' ≡ some a
  pub only : (d a : Uuid) → lookup d m' ≡ some a → (lookup d m ≡ some a) ⊎ owns d a

abbrev pub OwnedBy : Uuid → List Uuid → Uuid → Uuid → Type 0
OwnedBy account_id ds d a = (a ≡ account_id) × In d ds

-- The device's owner is the account whose list has it.
abbrev pub Owns : List AccountV1 → Uuid → Uuid → Type 0
Owns accounts d a =
    (account : AccountV1) × In account accounts × (account.account_id ≡ a) × In d account.device_ids

in_head : {d x : Uuid} (ds : List Uuid) → d ≡ x → In d (x ∷ ds)
in_head ds e = rw e here

pub bind_devices-Binds :
    (account_id : Uuid) (ds : List Uuid) (m m' : DeviceAccounts)
    → bind_devices account_id ds m ≡ ok m'
    → Binds (OwnedBy account_id ds) m m'
unfolding bind_devices
bind_devices-Binds a [] m m' h =
    let same : m ≡ m' = cc in
    record {
      bound = λ d b o. elim o.1 [ ];
      kept = λ d b l. rw (← same) l;
      only = λ d b l. inl (rw same l);
    }
bind_devices-Binds a (x ∷ ds) m m' h = elim (Option-cases (lookup x m)) [
  | inl free ↦
      let ih = bind_devices-Binds a ds ((x, a) ∷ m) m' (ground arith) in
      record {
        bound = λ d b o. elim (in-cons o.1) [
          | inl e ↦ ih.kept d b (ground (arith, lookup-cons d x a m, ==_iff x d))
          | inr mem ↦ ih.bound d b (o.0, mem)
        ];
        kept = λ d b l. ih.kept d b (ground (arith, lookup-cons d x a m, ==_iff x d));
        only = λ d b l. elim (ih.only d b l) [
          | inl old ↦ elim (Bool-cases (x == d)) [
            | inl same ↦
                inr (ground (arith, lookup-cons d x a m), in_head ds (sym ((==_iff x d).0 same)))
            | inr other ↦ inl (ground (arith, lookup-cons d x a m))
          ]
          | inr o ↦ inr (o.0, there o.1)
        ];
      }
  | inr (b, taken) ↦ absurd (ground arith)
]

-- One round of the loop over the accounts.
bind_accounts-cons :
    (hid : Uuid) (a : AccountV1) (accounts : List AccountV1) (m m' : DeviceAccounts)
    → bind_accounts hid (a ∷ accounts) m ≡ ok m'
    → (mid : DeviceAccounts) × (bind_devices a.account_id a.device_ids m ≡ ok mid)
      × (bind_accounts hid accounts mid ≡ ok m')
      × (validate_account a ≡ ok tt)
      × (contains a.household_ids hid ≡ true)
unfolding bind_accounts
bind_accounts-cons hid a accounts m m' h = ground arith

-- An accepted account is well formed and names the household.
abbrev pub IsBoundTo : Uuid → AccountV1 → Type 0
IsBoundTo hid a = (validate_account a ≡ ok tt) × In hid a.household_ids

pub bind_accounts-IsBoundTo :
    (hid : Uuid) (accounts : List AccountV1) (m m' : DeviceAccounts)
    → bind_accounts hid accounts m ≡ ok m'
    → All (IsBoundTo hid) accounts
bind_accounts-IsBoundTo hid [] m m' h = tt
bind_accounts-IsBoundTo hid (a ∷ accounts) m m' h =
    let (mid, _, rest, valid, member) = bind_accounts-cons hid a accounts m m' h in
    (
      (valid, contains→in a.household_ids hid member),
      bind_accounts-IsBoundTo hid accounts mid m' rest,
    )

-- An owner found in the list after the first round is still the owner after the last.
owner_bound :
    (x : AccountV1) (accounts : List AccountV1) (m mid m' : DeviceAccounts)
    → Binds (OwnedBy x.account_id x.device_ids) m mid
    → Binds (Owns accounts) mid m'
    → (d b : Uuid) → Owns (x ∷ accounts) d b
    → lookup d m' ≡ some b
owner_bound x accounts m mid m' first ih d b (a, mem, e, dev) = elim (in-cons mem) [
  | inl same ↦
      ih.kept d b
        (first.bound d b (sym e ∙ ap (λ (y : AccountV1). y.account_id) same, rw same at dev))
  | inr later ↦ ih.bound d b (a, later, e, dev)
]

pub bind_accounts-Binds :
    (hid : Uuid) (accounts : List AccountV1) (m m' : DeviceAccounts)
    → bind_accounts hid accounts m ≡ ok m'
    → Binds (Owns accounts) m m'
unfolding bind_accounts
bind_accounts-Binds hid [] m m' h =
    let same : m ≡ m' = cc in
    record {
      bound = λ d b o. elim o.1 [ ];
      kept = λ d b l. rw (← same) l;
      only = λ d b l. inl (rw same l);
    }
bind_accounts-Binds hid (x ∷ accounts) m m' h =
    let (mid, devices, rest, valid, member) = bind_accounts-cons hid x accounts m m' h in
    let ih = bind_accounts-Binds hid accounts mid m' rest in
    let first = bind_devices-Binds x.account_id x.device_ids m mid devices in
    record {
      bound = λ d b o. owner_bound x accounts m mid m' first ih d b o;
      kept = λ d b l. ih.kept d b (first.kept d b l);
      only = λ d b l. elim (ih.only d b l) [
        | inl early ↦ elim (first.only d b early) [
          | inl old ↦ inl old
          | inr (e, mem) ↦ inr (x, here, sym e, mem)
        ]
        | inr (a, mem, e, dev) ↦ inr (a, there mem, e, dev)
      ];
    }
