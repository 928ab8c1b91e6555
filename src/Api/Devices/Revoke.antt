-- ===== src/Api/Devices/Revoke.antt =====
-- `cancel_device_enrollment` and `revoke_device` (apps/api/src/store.rs). Of `StoreError` only the
-- database error can come of them. The acting device is a foreign key of an event.
use safeory.Base.{
  ℕ, Bool, true, false, ◌&&◌, ◌||◌, none, some, [], ◌∷◌, ◌++◌, map, Result, ok, err, nat_eq, ◌==◌,
  leb, any, contains, find, filter, update_where, count_where, is_empty, if◌then◌else◌,
}
use safeory.Sync.Types.{Uuid}
use safeory.Api.Tables.{Ack}
use safeory.Api.Devices.{
  Device, Enrollment, cancelled, Registry, active_devices, is_active_device, is_open,
  is_pending_enrollment, has_device_id, finish,
}
use safeory.Api.Devices.Enroll.{event_of}

pub data CancelError : Type 0 where
  database : CancelError

pub data DeviceRevokeError : Type 0 where
  database last_active_device : DeviceRevokeError

abbrev pub mark_cancelled : ℕ → Enrollment → Enrollment
mark_cancelled now e = record e { cancelled_at = some now }

abbrev pub is_cancellable : ℕ → Uuid → Uuid → Enrollment → Bool
is_cancellable now account_id request_id e =
    is_pending_enrollment now account_id e && e.request_id == request_id

unfoldable pub write_cancellation : Registry → ℕ → Uuid → Uuid → Uuid → Enrollment → Registry
write_cancellation r now account_id actor_device_id request_id row = record r {
  enrollments =
      update_where (is_cancellable now account_id request_id) (mark_cancelled now) r.enrollments;
  events = r.events ++ event_of actor_device_id cancelled row ∷ [];
}

unfoldable pub cancel_device_enrollment :
    Registry → ℕ → Ack → Uuid → Uuid → Uuid → Result CancelError Bool × Registry
cancel_device_enrollment r now ack account_id actor_device_id request_id =
    if contains r.accounts account_id
    then elim (find (is_cancellable now account_id request_id) r.enrollments) [
      | none ↦ (ok false, r)
      | some row ↦
          if any (has_device_id actor_device_id) r.devices
          then finish ack CancelError.database true r
              (write_cancellation r now account_id actor_device_id request_id row)
          else (err CancelError.database, r)
    ]
    else (err CancelError.database, r)

abbrev pub is_target : Uuid → Uuid → Device → Bool
is_target account_id device_id d = is_active_device account_id d && d.device_id == device_id

abbrev pub mark_revoked : ℕ → Device → Device
mark_revoked now d = record d { revoked_at = some now }

-- The open enrollments that the device approved.
abbrev pub is_approved_by : Uuid → Uuid → Enrollment → Bool
is_approved_by account_id device_id e =
    e.account_id == account_id && (e.approved_by_device_id == device_id && is_open e)

unfoldable pub write_revocation : Registry → ℕ → Uuid → Uuid → Uuid → Registry
write_revocation r now account_id actor_device_id device_id = record r {
  devices = update_where (is_target account_id device_id) (mark_revoked now) r.devices;
  enrollments =
      update_where (is_approved_by account_id device_id) (mark_cancelled now) r.enrollments;
  events =
      r.events
      ++ map (event_of actor_device_id cancelled)
          (filter (is_approved_by account_id device_id) r.enrollments);
}

unfoldable pub revoke_device :
    Registry → ℕ → Ack → Uuid → Uuid → Uuid → Result DeviceRevokeError Bool × Registry
revoke_device r now ack account_id actor_device_id device_id =
    if contains r.accounts account_id
    then (if any (is_target account_id device_id) r.devices
        then (if leb (active_devices r account_id) 1
            then (err DeviceRevokeError.last_active_device, r)
            else if is_empty (filter (is_approved_by account_id device_id) r.enrollments)
                || any (has_device_id actor_device_id) r.devices
            then finish ack DeviceRevokeError.database
                (count_where (is_target account_id device_id) r.devices == 1) r
                (write_revocation r now account_id actor_device_id device_id)
            else (err DeviceRevokeError.database, r))
        else (ok false, r))
    else (err DeviceRevokeError.database, r)
