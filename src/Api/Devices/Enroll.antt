-- ===== src/Api/Devices/Enroll.antt =====
-- `prepare_device_enrollment`, `activate_device_enrollment` and `cancel_device_enrollment`
-- (apps/api/src/store.rs).
use safeory.Base.{
  ℕ, ◌+◌, ◌*◌, Bool, false, not, ◌&&◌, ◌||◌, none, some, List, [], ◌∷◌, ◌++◌, Result, ok, err,
  nat_eq, ◌==◌, leb, any, contains, find, update_where, if◌then◌else◌,
}
use safeory.Sync.Types.{Uuid, max_devices_per_account}
use safeory.Sync.Protocol.{Sha256}
use safeory.Api.Store.{is_none}
use safeory.Api.Tables.{Ack}
use safeory.Api.Devices.{
  Key, Device, Enrollment, EnrollmentEvent, EventType, activated, Registry, DeviceEnrollment,
  active, device_enrollment_ttl_seconds, row_to_device_enrollment, active_devices, reserved_devices,
  insert_device, is_open, is_expired, has_device_id, finish,
}

pub data DeviceEnrollmentPrepareError : Type 0 where
  database limit_reached identifier_conflict operation_conflict : DeviceEnrollmentPrepareError
  expired cancelled : DeviceEnrollmentPrepareError

pub data DeviceEnrollmentActivateError : Type 0 where
  database not_found unauthorized limit_reached : DeviceEnrollmentActivateError
  identifier_conflict expired cancelled : DeviceEnrollmentActivateError

pub record NewDeviceEnrollment : Type 0 where
  pub account_id : Uuid
  pub approved_by_device_id : Uuid
  pub request_id : Uuid
  pub device_id : Uuid
  pub encryption_public_key : Key
  pub signing_public_key : Key
  pub token_hash : Sha256

abbrev pub has_request : Uuid → Enrollment → Bool
has_request request_id e = e.request_id == request_id

unfoldable pub differs : Enrollment → NewDeviceEnrollment → Bool
differs row input =
    not (row.account_id == input.account_id)
    || (not (row.approved_by_device_id == input.approved_by_device_id)
        || (not (row.device_id == input.device_id)
            || (not (row.device_public_key == input.encryption_public_key)
                || (not (row.signing_public_key == input.signing_public_key)
                    || not (row.auth_token_sha256 == input.token_hash)))))

-- The answer to a request identifier that has been used.
unfoldable pub prepare_again :
    ℕ → Enrollment → NewDeviceEnrollment → Result DeviceEnrollmentPrepareError DeviceEnrollment
prepare_again now row input =
    if differs row input
    then err DeviceEnrollmentPrepareError.operation_conflict
    else if not (is_none row.cancelled_at)
    then err DeviceEnrollmentPrepareError.cancelled
    else if is_expired now row && is_none row.activated_at
    then err DeviceEnrollmentPrepareError.expired
    else ok (row_to_device_enrollment row)

-- The expired rows that still hold the identifier or the token.
abbrev pub is_stale : ℕ → NewDeviceEnrollment → Enrollment → Bool
is_stale now input e =
    is_open e
    && (is_expired now e
        && (e.device_id == input.device_id || e.auth_token_sha256 == input.token_hash))

abbrev pub expire : Enrollment → Enrollment
expire e = record e { cancelled_at = some e.expires_at }

unfoldable pub expire_stale : ℕ → NewDeviceEnrollment → Registry → Registry
expire_stale now input r = record r {
  enrollments = update_where (is_stale now input) expire r.enrollments;
}

abbrev pub takes_identifier : NewDeviceEnrollment → Device → Bool
takes_identifier input d =
    d.device_id == input.device_id
    || elim d.auth_token_sha256 [ none ↦ false | some h ↦ h == input.token_hash ]

unfoldable pub enrollment_row : ℕ → NewDeviceEnrollment → Enrollment
enrollment_row now input = record {
  request_id = input.request_id;
  account_id = input.account_id;
  approved_by_device_id = input.approved_by_device_id;
  device_id = input.device_id;
  device_public_key = input.encryption_public_key;
  signing_public_key = input.signing_public_key;
  auth_token_sha256 = input.token_hash;
  expires_at = now + device_enrollment_ttl_seconds * 1_000_000;
  activated_at = none;
  cancelled_at = none;
}

-- The two partial unique indexes of `device_enrollments`.
abbrev pub reserves_same : NewDeviceEnrollment → Enrollment → Bool
reserves_same input e =
    is_open e && (e.device_id == input.device_id || e.auth_token_sha256 == input.token_hash)

-- From the look for a registered device on, after the stale rows have expired. The approving device
-- is a foreign key.
unfoldable pub insert_enrollment :
    Registry → ℕ → NewDeviceEnrollment → Result DeviceEnrollmentPrepareError Registry
insert_enrollment r now input =
    if any (takes_identifier input) r.devices
    then err DeviceEnrollmentPrepareError.identifier_conflict
    else if leb max_devices_per_account (reserved_devices r now input.account_id)
    then err DeviceEnrollmentPrepareError.limit_reached
    else if any (reserves_same input) r.enrollments
    then err DeviceEnrollmentPrepareError.identifier_conflict
    else if any (has_device_id input.approved_by_device_id) r.devices
    then ok (record r { enrollments = r.enrollments ++ enrollment_row now input ∷ [] })
    else err DeviceEnrollmentPrepareError.database

abbrev pub Prepared : Type 0
Prepared = Result DeviceEnrollmentPrepareError DeviceEnrollment × Registry

unfoldable pub prepare_new : Registry → ℕ → Ack → NewDeviceEnrollment → Prepared
prepare_new r now ack input = elim (insert_enrollment (expire_stale now input r) now input) [
  | err e ↦ (err e, r)
  | ok after ↦
      finish ack DeviceEnrollmentPrepareError.database
        (row_to_device_enrollment (enrollment_row now input)) r after
]

unfoldable pub prepare_device_enrollment : Registry → ℕ → Ack → NewDeviceEnrollment → Prepared
prepare_device_enrollment r now ack input =
    if contains r.accounts input.account_id
    then elim (find (has_request input.request_id) r.enrollments) [
      | none ↦ prepare_new r now ack input
      | some row ↦ elim (prepare_again now row input) [
        | err e ↦ (err e, r)
        | ok enrollment ↦ finish ack DeviceEnrollmentPrepareError.database enrollment r r
      ]
    ]
    else (err DeviceEnrollmentPrepareError.database, r)

unfoldable pub enrolled_device : ℕ → Enrollment → Device
enrolled_device now row = record {
  device_id = row.device_id;
  account_id = row.account_id;
  created_at = now;
  device_public_key = some row.device_public_key;
  signing_public_key = some row.signing_public_key;
  auth_token_sha256 = some row.auth_token_sha256;
  revoked_at = none;
}

unfoldable pub event_of : Uuid → EventType → Enrollment → EnrollmentEvent
event_of actor_device_id event_type row = record {
  account_id = row.account_id;
  request_id = row.request_id;
  actor_device_id = actor_device_id;
  subject_device_id = row.device_id;
  event_type = event_type;
}

abbrev pub mark_activated : ℕ → Enrollment → Enrollment
mark_activated now e = record e { activated_at = some now }

-- The writes of an activation.
unfoldable pub write_activation : Registry → ℕ → Enrollment → List Device → Registry
write_activation r now row devices = record r {
  devices = devices;
  enrollments = update_where (has_request row.request_id) (mark_activated now) r.enrollments;
  events = r.events ++ event_of row.approved_by_device_id activated row ∷ [];
}

abbrev pub Activated : Type 0
Activated = Result DeviceEnrollmentActivateError DeviceEnrollment × Registry

-- `constant_time_eq` on 32 bytes is the equality of the numbers.
unfoldable pub activate_row : Registry → ℕ → Ack → Sha256 → Enrollment → Activated
activate_row r now ack token_hash row =
    if not (row.auth_token_sha256 == token_hash)
    then (err DeviceEnrollmentActivateError.unauthorized, r)
    else if not (is_none row.cancelled_at)
    then (err DeviceEnrollmentActivateError.cancelled, r)
    else if not (is_none row.activated_at)
    then finish ack DeviceEnrollmentActivateError.database (row_to_device_enrollment row) r r
    else if is_expired now row
    then (err DeviceEnrollmentActivateError.expired, r)
    else if leb max_devices_per_account (active_devices r row.account_id)
    then (err DeviceEnrollmentActivateError.limit_reached, r)
    else elim (insert_device (enrolled_device now row) r.devices) [
      | none ↦ (err DeviceEnrollmentActivateError.identifier_conflict, r)
      | some devices ↦
          finish ack DeviceEnrollmentActivateError.database
            (record (row_to_device_enrollment row) { status = active }) r
            (write_activation r now row devices)
    ]

-- The account and the device of a request never change, so the first look and the one under the
-- lock find the same row.
unfoldable pub activate_device_enrollment : Registry → ℕ → Ack → Uuid → Sha256 → Activated
activate_device_enrollment r now ack request_id token_hash =
    elim (find (has_request request_id) r.enrollments) [
      | none ↦ (err DeviceEnrollmentActivateError.not_found, r)
      | some row ↦
          if contains r.accounts row.account_id
          then activate_row r now ack token_hash row
          else (err DeviceEnrollmentActivateError.database, r)
    ]
