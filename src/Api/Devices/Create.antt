-- ===== src/Api/Devices/Create.antt =====
-- `create_account_with_device`, `create_device`, `authenticate` and `list_active_devices`
-- (apps/api/src/store.rs). A transaction is one step: the lock on the account's row and the
-- advisory locks on the identifiers keep the steps of one account and of one identifier apart.
use safeory.Base.{
  ℕ, ◌-◌, Bool, false, ◌&&◌, ◌||◌, Option, none, some, List, [], ◌∷◌, ◌++◌, map, Result, err,
  nat_eq, ◌==◌, ltb, leb, any, contains, filter, find, if◌then◌else◌,
}
use safeory.Sync.Types.{Uuid, max_devices_per_account}
use safeory.Sync.Protocol.{Sha256}
use safeory.Api.Store.{is_none}
use safeory.Api.Tables.{Ack, AuthContext}
use safeory.Api.Devices.{
  Key, Device, Enrollment, Registry, reserved_devices, insert_device, is_active_device, finish,
}

pub data AccountCreateError : Type 0 where
  database identifier_conflict : AccountCreateError

pub data DeviceCreateError : Type 0 where
  database limit_reached identifier_conflict : DeviceCreateError

-- What a client registers: its identifier, its keys and the hash of its token.
pub record NewDevice : Type 0 where
  pub device_id : Uuid
  pub encryption_public_key : Key
  pub signing_public_key : Key
  pub token_hash : Sha256

unfoldable pub device_row : ℕ → Uuid → NewDevice → Device
device_row now account_id n = record {
  device_id = n.device_id;
  account_id = account_id;
  created_at = now;
  device_public_key = some n.encryption_public_key;
  signing_public_key = some n.signing_public_key;
  auth_token_sha256 = some n.token_hash;
  revoked_at = none;
}

abbrev pub has_enrollment : Uuid → Enrollment → Bool
has_enrollment device_id e = e.device_id == device_id

-- `EXISTS(SELECT 1 FROM device_enrollments WHERE device_id = $1)`
unfoldable pub pending_identifier : Registry → Uuid → Bool
pending_identifier r device_id = any (has_enrollment device_id) r.enrollments

-- `account_id` is the random identifier of the new account.
unfoldable pub create_account_with_device :
    Registry → ℕ → Ack → Uuid → NewDevice → Result AccountCreateError (Uuid × Uuid) × Registry
create_account_with_device r now ack account_id n =
    if contains r.accounts account_id
    then (err AccountCreateError.database, r)
    else if pending_identifier r n.device_id
    then (err AccountCreateError.identifier_conflict, r)
    else elim (insert_device (device_row now account_id n) r.devices) [
      | none ↦ (err AccountCreateError.identifier_conflict, r)
      | some devices ↦
          finish ack AccountCreateError.database (account_id, n.device_id) r
            (record r { accounts = r.accounts ++ account_id ∷ []; devices = devices })
    ]

unfoldable pub create_device :
    Registry → ℕ → Ack → Uuid → NewDevice → Result DeviceCreateError Uuid × Registry
create_device r now ack account_id n =
    if contains r.accounts account_id
    then (if leb max_devices_per_account (reserved_devices r now account_id)
        then (err DeviceCreateError.limit_reached, r)
        else if pending_identifier r n.device_id
        then (err DeviceCreateError.identifier_conflict, r)
        else elim (insert_device (device_row now account_id n) r.devices) [
          | none ↦ (err DeviceCreateError.identifier_conflict, r)
          | some devices ↦
              finish ack DeviceCreateError.database n.device_id r (record r { devices = devices })
        ])
    else (err DeviceCreateError.database, r)

abbrev pub bears : Sha256 → Device → Bool
bears token_hash d =
    elim d.auth_token_sha256 [ none ↦ false | some h ↦ h == token_hash ] && is_none d.revoked_at

unfoldable pub authenticate : Registry → Sha256 → Option AuthContext
authenticate r token_hash = elim (find (bears token_hash) r.devices) [
  | none ↦ none
  | some d ↦ some (record { account_id = d.account_id; device_id = d.device_id })
]

pub record RegisteredDevice : Type 0 where
  pub device_id : Uuid
  pub encryption_public_key : Option Key
  pub signing_public_key : Option Key

unfoldable pub row_to_registered_device : Device → RegisteredDevice
row_to_registered_device d = record {
  device_id = d.device_id;
  encryption_public_key = d.device_public_key;
  signing_public_key = d.signing_public_key;
}

-- `ORDER BY created_at ASC, device_id ASC`, an insertion sort.
abbrev pub comes_first : Device → Device → Bool
comes_first d e =
    ltb d.created_at e.created_at || (d.created_at == e.created_at && leb d.device_id e.device_id)

unfoldable pub insert_by_creation : Device → List Device → List Device
insert_by_creation d [] = d ∷ []
insert_by_creation d (e ∷ devices) =
    let rest = insert_by_creation d devices in if comes_first d e then d ∷ e ∷ devices else e ∷ rest

unfoldable pub order_by_creation : List Device → List Device
order_by_creation [] = []
order_by_creation (d ∷ devices) = insert_by_creation d (order_by_creation devices)

unfoldable pub limit_devices : ℕ → List Device → List Device
limit_devices n [] = []
limit_devices n (d ∷ devices) =
    let rest = limit_devices (n - 1) devices in if n == 0 then [] else d ∷ rest

unfoldable pub list_active_devices : Registry → Uuid → List RegisteredDevice
list_active_devices r account_id = map row_to_registered_device (
    limit_devices max_devices_per_account
      (order_by_creation (filter (is_active_device account_id) r.devices)))
