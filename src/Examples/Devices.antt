-- ===== src/Examples/Devices.antt =====
-- An account's first device enrolls a second one, which then revokes the first (apps/api/src).
use safeory.Base.{
  ℕ, ◌≡◌, ◌≢◌, ◌≤◌, refl, true, false, none, some, List, [], ◌∷◌, ◌++◌, ok, nat_eq, any, contains,
  find, In, here, filter, count_where, update_where, arith,
}
use safeory.Sync.Types.{max_devices_per_account}
use safeory.Api.Tables.{acknowledged, applied_unseen}
use safeory.Api.Devices.{
  Enrollment, Registry, active_devices, reserved_devices, insert_device, active,
  row_to_device_enrollment,
}
use safeory.Api.Devices.Create.{
  NewDevice, device_row, pending_identifier, create_account_with_device, create_device,
  authenticate, list_active_devices, insert_by_creation, order_by_creation, limit_devices,
  row_to_registered_device,
}
use safeory.Api.Devices.Enroll.{
  NewDeviceEnrollment, prepare_device_enrollment, prepare_new, expire_stale, insert_enrollment,
  enrollment_row, enrolled_device, write_activation, activate_row, activate_device_enrollment,
}
use safeory.Api.Devices.Revoke.{revoke_device, write_revocation}
use safeory.Api.Devices.Invariant.{IsRegistry}
use safeory.Api.Devices.History.{
  Call, create_account, create, prepare, activate, revoke_one, run_calls, run_calls-IsRegistry,
  run_calls_keep_active, run_calls_revoked_denied,
}
use safeory.Api.Devices.Live.{
  empty_registry, has_token, run_calls_reserved, run_calls_activates, empty_registry-IsSound,
}

abbrev laptop : NewDevice
laptop = record {
  device_id = 10;
  encryption_public_key = 20;
  signing_public_key = 30;
  token_hash = 40;
}

abbrev phone : NewDeviceEnrollment
phone = record {
  account_id = 1;
  approved_by_device_id = 10;
  request_id = 5;
  device_id = 11;
  encryption_public_key = 21;
  signing_public_key = 31;
  token_hash = 41;
}

abbrev opening : List Call
opening =
    record { now = 1_000; ack = acknowledged; request = create_account 1 laptop }
    ∷ record { now = 2_000; ack = applied_unseen; request = prepare phone }
    ∷ []

abbrev enrolling : List Call
enrolling = opening ++ record { now = 3_000; ack = acknowledged; request = activate 5 41 } ∷ []

abbrev later : List Call
later =
    record { now = 5_000; ack = acknowledged; request = create 1 laptop }
    ∷ record { now = 6_000; ack = acknowledged; request = revoke_one 1 11 11 }
    ∷ []

abbrev started : IsRegistry empty_registry
started = empty_registry-IsSound.registry

-- The account has two devices.
enrolling_active : active_devices (run_calls enrolling empty_registry) 1 ≡ 2
unfolding run_calls create_account_with_device contains any pending_identifier insert_device
    device_row prepare_device_enrollment find prepare_new expire_stale update_where
    insert_enrollment reserved_devices active_devices count_where enrollment_row
    activate_device_enrollment activate_row enrolled_device write_activation
enrolling_active = refl

-- The first of two devices is listed first.
enrolling_listed :
    list_active_devices (run_calls enrolling empty_registry) 1
    ≡ record { device_id = 10; encryption_public_key = some 20; signing_public_key = some 30 }
      ∷ record { device_id = 11; encryption_public_key = some 21; signing_public_key = some 31 }
      ∷ []
unfolding run_calls create_account_with_device contains any pending_identifier insert_device
    device_row prepare_device_enrollment find prepare_new expire_stale update_where
    insert_enrollment reserved_devices active_devices count_where enrollment_row
    activate_device_enrollment activate_row enrolled_device write_activation list_active_devices
    order_by_creation insert_by_creation limit_devices filter row_to_registered_device
enrolling_listed = refl

enrolled-IsRegistry : IsRegistry (run_calls enrolling empty_registry)
enrolled-IsRegistry = run_calls-IsRegistry enrolling empty_registry started

run_calls-IsRegistry_example : IsRegistry (run_calls later (run_calls enrolling empty_registry))
run_calls-IsRegistry_example =
    run_calls-IsRegistry later (run_calls enrolling empty_registry) enrolled-IsRegistry

run_calls_keep_active_example :
    1 ≤ active_devices (run_calls later (run_calls enrolling empty_registry)) 1
run_calls_keep_active_example =
    run_calls_keep_active later (run_calls enrolling empty_registry) 1 enrolled-IsRegistry
      (omega (arith, enrolling_active))

revoking :
    (revoke_device (run_calls enrolling empty_registry) 4_000 acknowledged 1 11 10).0 ≡ ok true
unfolding run_calls create_account_with_device contains any pending_identifier insert_device
    device_row prepare_device_enrollment find prepare_new expire_stale update_where
    insert_enrollment reserved_devices active_devices count_where enrollment_row
    activate_device_enrollment activate_row enrolled_device write_activation revoke_device filter
    write_revocation
revoking = refl

still_in :
    authenticate
      (run_calls later
        (revoke_device (run_calls enrolling empty_registry) 4_000 acknowledged 1 11 10).1)
      41
    ≡ some (record { account_id = 1; device_id = 11 })
unfolding run_calls create_account_with_device contains any pending_identifier insert_device
    device_row prepare_device_enrollment find prepare_new expire_stale update_where
    insert_enrollment reserved_devices active_devices count_where enrollment_row
    activate_device_enrollment activate_row enrolled_device write_activation revoke_device filter
    write_revocation create_device authenticate
still_in = refl

run_calls_revoked_denied_example : ◌≢◌ {A = ℕ} 11 10
run_calls_revoked_denied_example =
    run_calls_revoked_denied later (run_calls enrolling empty_registry) 4_000 acknowledged 1 11 10
      41 (record { account_id = 1; device_id = 11 }) enrolled-IsRegistry revoking still_in

run_calls_reserved_example :
    reserved_devices (run_calls enrolling empty_registry) 3_000 1 ≤ max_devices_per_account
run_calls_reserved_example = run_calls_reserved enrolling 3_000 1 (omega arith) (omega arith)

abbrev waiting : Enrollment
waiting = record {
  request_id = 5;
  account_id = 1;
  approved_by_device_id = 10;
  device_id = 11;
  device_public_key = 21;
  signing_public_key = 31;
  auth_token_sha256 = 41;
  expires_at = 1_800_002_000;
  activated_at = none;
  cancelled_at = none;
}

waiting_listed : In waiting (run_calls opening empty_registry).enrollments
unfolding run_calls create_account_with_device contains any pending_identifier insert_device
    device_row prepare_device_enrollment find prepare_new expire_stale update_where
    insert_enrollment reserved_devices active_devices count_where enrollment_row
    activate_device_enrollment activate_row enrolled_device write_activation
waiting_listed = here

waiting_token : any (has_token 41) (run_calls opening empty_registry).devices ≡ false
unfolding run_calls create_account_with_device contains any pending_identifier insert_device
    device_row prepare_device_enrollment find prepare_new expire_stale update_where
    insert_enrollment reserved_devices active_devices count_where enrollment_row
    activate_device_enrollment activate_row enrolled_device write_activation
waiting_token = refl

run_calls_activates_example :
    (s : Registry) × (activate_device_enrollment
        (run_calls opening empty_registry)
        3_000
        acknowledged
        5
        41
      ≡ (ok (record (row_to_device_enrollment waiting) { status = active }), s))
    × (authenticate s 41 ≡ some (record { account_id = 1; device_id = 11 }))
run_calls_activates_example =
    run_calls_activates opening 3_000 waiting (omega arith) (omega arith) waiting_listed refl
      (omega arith) waiting_token
