-- ===== src/Api/Devices.antt =====
-- The devices of an account and their enrollments (apps/api/src/store.rs): the tables of
-- apps/api/migrations, and how a row is read. Times are microseconds since 1970, and `now()` is an
-- argument: it is one time throughout a transaction. A key or a token hash of 32 bytes is a number;
-- the random identifiers of events are not kept.
pub mod Create
pub mod Enroll
pub mod Revoke
pub mod Changes
pub mod Invariant
pub mod Kept
pub mod History
pub mod Planned
pub mod Reserved
pub mod Live
use safeory.Base.{
  ℕ, ◌+◌, ◌*◌, ◌/◌, Bool, true, false, not, ◌&&◌, ◌||◌, Option, none, some, List, [], ◌∷◌, ◌++◌,
  Result, ok, err, nat_eq, ◌==◌, ltb, leb, any, count_where, if◌then◌else◌,
}
use safeory.Sync.Types.{Uuid}
use safeory.Sync.Protocol.{Sha256}
use safeory.Api.Store.{is_none}
use safeory.Api.Tables.{Ack, acknowledged, applied_unseen, dropped_unseen}

abbrev pub Key : Type 0
Key = ℕ

-- A row of `devices`.
pub record Device : Type 0 where
  pub device_id : Uuid
  pub account_id : Uuid
  pub created_at : ℕ
  pub device_public_key : Option Key
  pub signing_public_key : Option Key
  pub auth_token_sha256 : Option Sha256
  pub revoked_at : Option ℕ

-- A row of `device_enrollments`.
pub record Enrollment : Type 0 where
  pub request_id : Uuid
  pub account_id : Uuid
  pub approved_by_device_id : Uuid
  pub device_id : Uuid
  pub device_public_key : Key
  pub signing_public_key : Key
  pub auth_token_sha256 : Sha256
  pub expires_at : ℕ
  pub activated_at : Option ℕ
  pub cancelled_at : Option ℕ

pub data EventType : Type 0 where
  activated cancelled : EventType

-- A row of `device_enrollment_events`.
pub record EnrollmentEvent : Type 0 where
  pub account_id : Uuid
  pub request_id : Uuid
  pub actor_device_id : Uuid
  pub subject_device_id : Uuid
  pub event_type : EventType

pub record Registry : Type 0 where
  pub accounts : List Uuid
  pub devices : List Device
  pub enrollments : List Enrollment
  pub events : List EnrollmentEvent

pub data DeviceEnrollmentStatus : Type 0 where
  pending active : DeviceEnrollmentStatus

pub record DeviceEnrollment : Type 0 where
  pub account_id : Uuid
  pub request_id : Uuid
  pub device_id : Uuid
  pub expires_at_unix_seconds : ℕ
  pub status : DeviceEnrollmentStatus

abbrev pub device_enrollment_ttl_seconds : ℕ
device_enrollment_ttl_seconds = 1800

-- `EXTRACT(EPOCH FROM …)::bigint`, which rounds to the nearest second.
abbrev pub unix_seconds : ℕ → ℕ
unix_seconds t = (t + 500_000) / 1_000_000

abbrev pub status_of : Option ℕ → DeviceEnrollmentStatus
status_of none = pending
status_of (some _) = active

unfoldable pub row_to_device_enrollment : Enrollment → DeviceEnrollment
row_to_device_enrollment row = record {
  account_id = row.account_id;
  request_id = row.request_id;
  device_id = row.device_id;
  expires_at_unix_seconds = unix_seconds row.expires_at;
  status = status_of row.activated_at;
}

-- `account_id = $1 AND revoked_at IS NULL`
abbrev pub is_active_device : Uuid → Device → Bool
is_active_device account_id d = d.account_id == account_id && is_none d.revoked_at

-- `activated_at IS NULL AND cancelled_at IS NULL`
abbrev pub is_open : Enrollment → Bool
is_open e = is_none e.activated_at && is_none e.cancelled_at

abbrev pub is_expired : ℕ → Enrollment → Bool
is_expired now e = leb e.expires_at now

abbrev pub is_pending_enrollment : ℕ → Uuid → Enrollment → Bool
is_pending_enrollment now account_id e =
    e.account_id == account_id && (is_open e && ltb now e.expires_at)

unfoldable pub active_devices : Registry → Uuid → ℕ
active_devices r account_id = count_where (is_active_device account_id) r.devices

unfoldable pub reserved_devices : Registry → ℕ → Uuid → ℕ
unfolding active_devices
reserved_devices r now account_id =
    active_devices r account_id + count_where (is_pending_enrollment now account_id) r.enrollments

-- The two unique indexes of `devices`: the identifier, and the token hash where there is one.
abbrev pub same_token : Option Sha256 → Option Sha256 → Bool
same_token (some a) (some b) = a == b
same_token _ _ = false

abbrev pub clashes : Device → Device → Bool
clashes d e = e.device_id == d.device_id || same_token e.auth_token_sha256 d.auth_token_sha256

-- `none` is a unique violation, which `is_unique_violation` recognises.
unfoldable pub insert_device : Device → List Device → Option (List Device)
insert_device d devices = if any (clashes d) devices then none else some (devices ++ d ∷ [])

abbrev pub has_device_id : Uuid → Device → Bool
has_device_id device_id d = d.device_id == device_id

-- The end of a transaction by `commit`: where it is not acknowledged, `?` makes a database error
-- of it, and the database may have applied it or not.
abbrev pub finish {ℓ κ} :
    {E : Type ℓ} {A : Type κ} → Ack → E → A → Registry → Registry → Result E A × Registry
finish acknowledged database a before after = (ok a, after)
finish applied_unseen database a before after = (err database, after)
finish dropped_unseen database a before after = (err database, before)
