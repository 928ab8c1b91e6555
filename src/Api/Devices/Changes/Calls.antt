-- ===== src/Api/Devices/Changes/Calls.antt =====
-- The calls of apps/api/src/store.rs on its devices, and the changes that they make.
use safeory.Base.{
  ℕ, ◌<◌, ◌≡◌, refl, sym, subst, inl, inr, true, false, none, some, [], ◌∷◌, ◌++◌, ok, nat_eq, any,
  contains, find, find→in, ◌⊎◌, Option-cases, arith,
}
use safeory.Sync.Types.{Uuid, max_devices_per_account}
use safeory.Sync.Protocol.{Sha256}
use safeory.Api.Tables.{Ack}
use safeory.Api.Devices.{
  Enrollment, Registry, active_devices, reserved_devices, clashes, insert_device,
}
use safeory.Api.Devices.Create.{
  NewDevice, device_row, pending_identifier, create_account_with_device, create_device,
}
use safeory.Api.Devices.Enroll.{
  NewDeviceEnrollment, has_request, expire_stale, insert_enrollment, prepare_new,
  prepare_device_enrollment, enrolled_device, write_activation, activate_row,
  activate_device_enrollment,
}
use safeory.Api.Devices.Revoke.{
  cancel_device_enrollment, write_cancellation, is_cancellable, is_target, write_revocation,
  revoke_device,
}
use safeory.Api.Devices.Changes.{
  Change, stays, founds, registers, prepares, activates, cancels, revokes,
}

module _ (r : Registry) (now : ℕ) (ack : Ack) where
  create_account_cases :
      (account_id : Uuid) (n : NewDevice)
      → ((create_account_with_device r now ack account_id n).1 ≡ r)
        ⊎ ((contains r.accounts account_id ≡ false)
            × (pending_identifier r n.device_id ≡ false)
            × (any (clashes (device_row now account_id n)) r.devices ≡ false)
            × ((create_account_with_device r now ack account_id n).1 ≡ record r {
              accounts = r.accounts ++ account_id ∷ [];
              devices = r.devices ++ device_row now account_id n ∷ [];
            }))
  unfolding create_account_with_device insert_device
  create_account_cases account_id n = ground arith

  pub create_account-Change :
      (account_id : Uuid) (n : NewDevice)
      → Change r now (create_account_with_device r now ack account_id n).1
  unfolding device_row
  create_account-Change account_id n = elim (create_account_cases account_id n) [
    | inl e ↦ stays e
    | inr (k, p, c, e) ↦
        founds (device_row now account_id n) e k p (record { no_clash = c; live = refl })
  ]

  create_device_cases :
      (account_id : Uuid) (n : NewDevice)
      → ((create_device r now ack account_id n).1 ≡ r)
        ⊎ ((contains r.accounts account_id ≡ true)
            × (reserved_devices r now account_id < max_devices_per_account)
            × (pending_identifier r n.device_id ≡ false)
            × (any (clashes (device_row now account_id n)) r.devices ≡ false)
            × ((create_device r now ack account_id n).1
                ≡ record r { devices = r.devices ++ device_row now account_id n ∷ [] }))
  unfolding create_device insert_device
  create_device_cases account_id n = ground arith

  pub create_device-Change :
      (account_id : Uuid) (n : NewDevice) → Change r now (create_device r now ack account_id n).1
  unfolding device_row
  create_device-Change account_id n = elim (create_device_cases account_id n) [
    | inl e ↦ stays e
    | inr (k, room, p, c, e) ↦
        registers (device_row now account_id n) e k room p (record { no_clash = c; live = refl })
  ]

  prepare_cases :
      (input : NewDeviceEnrollment)
      → ((prepare_device_enrollment r now ack input).1 ≡ r)
        ⊎ ((contains r.accounts input.account_id ≡ true)
            × (find (has_request input.request_id) r.enrollments ≡ none)
            × (insert_enrollment (expire_stale now input r) now input
                ≡ ok (prepare_device_enrollment r now ack input).1))
  unfolding prepare_device_enrollment prepare_new
  prepare_cases input = ground arith

  pub prepare-Change :
      (input : NewDeviceEnrollment) → Change r now (prepare_device_enrollment r now ack input).1
  prepare-Change input = elim (prepare_cases input) [
    | inl e ↦ stays e
    | inr (k, f, e) ↦ prepares input k f e
  ]

  activate_row_cases :
      (token_hash : Sha256) (row : Enrollment)
      → ((activate_row r now ack token_hash row).1 ≡ r)
        ⊎ ((row.activated_at ≡ none)
            × (row.cancelled_at ≡ none)
            × (now < row.expires_at)
            × (active_devices r row.account_id < max_devices_per_account)
            × (any (clashes (enrolled_device now row)) r.devices ≡ false)
            × ((activate_row r now ack token_hash row).1
                ≡ write_activation r now row (r.devices ++ enrolled_device now row ∷ [])))
  unfolding activate_row insert_device
  activate_row_cases token_hash row = ground arith

  activate_row-Change :
      (request_id : Uuid) (token_hash : Sha256) (row : Enrollment)
      → find (has_request request_id) r.enrollments ≡ some row
      → contains r.accounts row.account_id ≡ true
      → Change r now (activate_row r now ack token_hash row).1
  unfolding enrolled_device
  activate_row-Change request_id token_hash row f k = elim (activate_row_cases token_hash row) [
    | inl e ↦ stays e
    | inr (a, c, fresh, room, clash, e) ↦
        let same : row.request_id ≡ request_id =
          ground (arith, (find→in (has_request request_id) r.enrollments f).1) in
        activates row e (subst (λ q. find (has_request q) r.enrollments ≡ some row) (sym same) f) a
          c fresh room k (record { no_clash = clash; live = refl })
  ]

  activate_found :
      (request_id : Uuid) (token_hash : Sha256) (row : Enrollment)
      → find (has_request request_id) r.enrollments ≡ some row
      → ((activate_device_enrollment r now ack request_id token_hash).1 ≡ r)
        ⊎ ((contains r.accounts row.account_id ≡ true)
            × ((activate_device_enrollment r now ack request_id token_hash).1
                ≡ (activate_row r now ack token_hash row).1))
  unfolding activate_device_enrollment
  activate_found request_id token_hash row f = ground arith

  pub activate-Change :
      (request_id : Uuid) (token_hash : Sha256)
      → Change r now (activate_device_enrollment r now ack request_id token_hash).1
  unfolding activate_device_enrollment
  activate-Change request_id token_hash =
      elim (Option-cases (find (has_request request_id) r.enrollments)) [
        | inl f ↦ stays (ground arith)
        | inr (row, f) ↦ elim (activate_found request_id token_hash row f) [
          | inl e ↦ stays e
          | inr (k, e) ↦
              subst (λ s. Change r now s) (sym e)
                (activate_row-Change request_id token_hash row f k)
        ]
      ]

  cancel_found :
      (account_id actor_device_id request_id : Uuid) (row : Enrollment)
      → find (is_cancellable now account_id request_id) r.enrollments ≡ some row
      → ((cancel_device_enrollment r now ack account_id actor_device_id request_id).1 ≡ r)
        ⊎ ((cancel_device_enrollment r now ack account_id actor_device_id request_id).1
            ≡ write_cancellation r now account_id actor_device_id request_id row)
  unfolding cancel_device_enrollment
  cancel_found account_id actor_device_id request_id row f = ground arith

  pub cancel-Change :
      (account_id actor_device_id request_id : Uuid)
      → Change r now (cancel_device_enrollment r now ack account_id actor_device_id request_id).1
  unfolding cancel_device_enrollment
  cancel-Change account_id actor_device_id request_id =
      elim (Option-cases (find (is_cancellable now account_id request_id) r.enrollments)) [
        | inl f ↦ stays (ground arith)
        | inr (row, f) ↦ elim (cancel_found account_id actor_device_id request_id row f) [
          | inl e ↦ stays e
          | inr e ↦ cancels account_id actor_device_id request_id row e
        ]
      ]

  revoke_cases :
      (account_id actor_device_id device_id : Uuid)
      → ((revoke_device r now ack account_id actor_device_id device_id).1 ≡ r)
        ⊎ ((any (is_target account_id device_id) r.devices ≡ true)
            × (1 < active_devices r account_id)
            × ((revoke_device r now ack account_id actor_device_id device_id).1
                ≡ write_revocation r now account_id actor_device_id device_id))
  unfolding revoke_device
  revoke_cases account_id actor_device_id device_id = ground arith

  pub revoke-Change :
      (account_id actor_device_id device_id : Uuid)
      → Change r now (revoke_device r now ack account_id actor_device_id device_id).1
  revoke-Change account_id actor_device_id device_id =
      elim (revoke_cases account_id actor_device_id device_id) [
        | inl e ↦ stays e
        | inr (t, m, e) ↦ revokes account_id actor_device_id device_id e t m
      ]
