-- ===== src/Api/Devices/Changes.antt =====
-- The calls that change the devices of apps/api/src/store.rs as a relation: what a call has written,
-- and the guards that it passed.
pub mod Calls
use safeory.Base.{
  ℕ, ◌+◌, ◌≤◌, ◌<◌, ◌≡◌, ◌≢◌, refl, inl, inr, Bool, true, false, Option, none, some, List, [], ◌∷◌,
  ◌++◌, Result, ok, err, nat_eq, leb, any, contains, find, find→in, not, ◌&&◌, ◌⊎◌, Bool-cases,
  Option-cases, Result-cases, arith,
}
use safeory.Sync.Types.{Uuid, max_devices_per_account}
use safeory.Sync.Protocol.{Sha256}
use safeory.Api.Store.{is_none}
use safeory.Api.Tables.{Ack, acknowledged, applied_unseen, dropped_unseen}
use safeory.Api.Devices.{
  Device, Enrollment, Registry, active_devices, reserved_devices, clashes, insert_device,
  is_expired, is_active_device, has_device_id,
}
use safeory.Api.Devices.Create.{
  NewDevice, device_row, pending_identifier, create_account_with_device, create_device,
}
use safeory.Api.Devices.Enroll.{
  NewDeviceEnrollment, has_request, expire_stale, takes_identifier, enrollment_row, reserves_same,
  insert_enrollment, prepare_new, prepare_device_enrollment, enrolled_device, write_activation,
  activate_row, activate_device_enrollment,
}
use safeory.Api.Devices.Revoke.{
  cancel_device_enrollment, write_cancellation, is_cancellable, is_target, write_revocation,
  revoke_device,
}

-- A new row fits the unique index and names no device that an enrollment names.
pub record Fits (r : Registry) (d : Device) : Type 0 where
  pub no_clash : any (clashes d) r.devices ≡ false
  pub live : d.revoked_at ≡ none

pub data Change (r : Registry) (now : ℕ) : Registry → Type 0 where
  stays : {s : Registry} → s ≡ r → Change r now s
  founds :
      (d : Device) {s : Registry}
      → s ≡ record r { accounts = r.accounts ++ d.account_id ∷ []; devices = r.devices ++ d ∷ [] }
      → contains r.accounts d.account_id ≡ false
      → pending_identifier r d.device_id ≡ false
      → Fits r d
      → Change r now s
  registers :
      (d : Device) {s : Registry}
      → s ≡ record r { devices = r.devices ++ d ∷ [] }
      → contains r.accounts d.account_id ≡ true
      → reserved_devices r now d.account_id < max_devices_per_account
      → pending_identifier r d.device_id ≡ false
      → Fits r d
      → Change r now s
  prepares :
      (input : NewDeviceEnrollment) {s : Registry}
      → contains r.accounts input.account_id ≡ true
      → find (has_request input.request_id) r.enrollments ≡ none
      → insert_enrollment (expire_stale now input r) now input ≡ ok s
      → Change r now s
  activates :
      (row : Enrollment) {s : Registry}
      → s ≡ write_activation r now row (r.devices ++ enrolled_device now row ∷ [])
      → find (has_request row.request_id) r.enrollments ≡ some row
      → row.activated_at ≡ none
      → row.cancelled_at ≡ none
      → now < row.expires_at
      → active_devices r row.account_id < max_devices_per_account
      → contains r.accounts row.account_id ≡ true
      → Fits r (enrolled_device now row)
      → Change r now s
  cancels :
      (account_id actor_device_id request_id : Uuid) (row : Enrollment) {s : Registry}
      → s ≡ write_cancellation r now account_id actor_device_id request_id row
      → Change r now s
  revokes :
      (account_id actor_device_id device_id : Uuid) {s : Registry}
      → s ≡ write_revocation r now account_id actor_device_id device_id
      → any (is_target account_id device_id) r.devices ≡ true
      → 1 < active_devices r account_id
      → Change r now s
