-- ===== src/Api/Devices/History.antt =====
-- Sequences of the calls on devices (apps/api/src/store.rs). Each carries the time at which its
-- transaction started and what became of its commit; a transaction may have waited for a lock, so
-- the times need not ascend.
use safeory.Base.{
  ℕ, ◌≤◌, ◌≡◌, ◌≢◌, true, some, List, [], ◌∷◌, ok, nat_eq, any, any→in, in-update_where, arith,
}
use safeory.Sync.Types.{Uuid}
use safeory.Sync.Protocol.{Sha256}
use safeory.Api.Tables.{Ack, AuthContext}
use safeory.Api.Devices.{Registry, active_devices}
use safeory.Api.Devices.Create.{NewDevice, create_account_with_device, create_device, authenticate}
use safeory.Api.Devices.Enroll.{
  NewDeviceEnrollment, prepare_device_enrollment, activate_device_enrollment,
}
use safeory.Api.Devices.Revoke.{
  cancel_device_enrollment, is_target, mark_revoked, write_revocation, revoke_device,
}
use safeory.Api.Devices.Changes.{Change}
use safeory.Api.Devices.Changes.Calls.{
  create_account-Change, create_device-Change, prepare-Change, activate-Change, cancel-Change,
  revoke-Change,
}
use safeory.Api.Devices.Invariant.{IsRegistry, Change-IsRegistry}
use safeory.Api.Devices.Kept.{IsRevoked, Change-keeps_active, Change-IsRevoked, revoked_denied}

pub data Request : Type 0 where
  create_account : Uuid → NewDevice → Request
  create : Uuid → NewDevice → Request
  prepare : NewDeviceEnrollment → Request
  activate : Uuid → Sha256 → Request
  cancel : Uuid → Uuid → Uuid → Request
  revoke_one : Uuid → Uuid → Uuid → Request

pub record Call : Type 0 where
  pub now : ℕ
  pub ack : Ack
  pub request : Request

pub step : Registry → ℕ → Ack → Request → Registry
step r now ack (create_account account_id n) = (create_account_with_device r now ack account_id n).1
step r now ack (create account_id n) = (create_device r now ack account_id n).1
step r now ack (prepare input) = (prepare_device_enrollment r now ack input).1
step r now ack (activate request_id token_hash) =
    (activate_device_enrollment r now ack request_id token_hash).1
step r now ack (cancel account_id actor_device_id request_id) =
    (cancel_device_enrollment r now ack account_id actor_device_id request_id).1
step r now ack (revoke_one account_id actor_device_id device_id) =
    (revoke_device r now ack account_id actor_device_id device_id).1

unfoldable pub run_calls : List Call → Registry → Registry
unfolding step
run_calls [] r = r
run_calls (c ∷ calls) r = run_calls calls (step r c.now c.ack c.request)

pub step-Change :
    (r : Registry) (now : ℕ) (ack : Ack) (request : Request) → Change r now (step r now ack request)
unfolding step
step-Change r now ack (create_account a n) = create_account-Change r now ack a n
step-Change r now ack (create a n) = create_device-Change r now ack a n
step-Change r now ack (prepare input) = prepare-Change r now ack input
step-Change r now ack (activate q t) = activate-Change r now ack q t
step-Change r now ack (cancel a b q) = cancel-Change r now ack a b q
step-Change r now ack (revoke_one a b d) = revoke-Change r now ack a b d

module _ {ℓ} (P : Registry → Type ℓ) where
  run_calls_induct :
      ((r s : Registry) (now : ℕ) → Change r now s → P r → P s)
      → (calls : List Call) (r : Registry) → P r
      → P (run_calls calls r)
  unfolding run_calls
  run_calls_induct keep [] r h = h
  run_calls_induct keep (c ∷ calls) r h =
      run_calls_induct keep calls (step r c.now c.ack c.request)
        (keep r (step r c.now c.ack c.request) c.now (step-Change r c.now c.ack c.request) h)

-- Whatever device calls follow, in whatever order and at whatever times, and whatever becomes of
-- their commits, the device tables keep their invariant: an account has at most 64 active devices,
-- no device identifier stands twice, and every device belongs to a known account.
pub run_calls-IsRegistry :
    (calls : List Call) (r : Registry) → IsRegistry r → IsRegistry (run_calls calls r)
run_calls-IsRegistry = run_calls_induct IsRegistry (λ r s now c v. Change-IsRegistry c v)

-- In device tables that keep their invariant, an account with an active device keeps one, whatever
-- device calls follow and whatever becomes of their commits.
pub run_calls_keep_active :
    (calls : List Call) (r : Registry) (account_id : Uuid)
    → IsRegistry r
    → 1 ≤ active_devices r account_id
    → 1 ≤ active_devices (run_calls calls r) account_id
run_calls_keep_active calls r account_id v h =
    (run_calls_induct (λ s. IsRegistry s × (1 ≤ active_devices s account_id))
      (λ r s now c p. (Change-IsRegistry c p.0, Change-keeps_active account_id c p.0 p.1)) calls r
      (v, h)).1

revoke_device-ok :
    (r : Registry) (now : ℕ) (ack : Ack) (account_id actor_device_id device_id : Uuid)
    → (revoke_device r now ack account_id actor_device_id device_id).0 ≡ ok true
    → (any (is_target account_id device_id) r.devices ≡ true)
      × ((revoke_device r now ack account_id actor_device_id device_id).1
          ≡ write_revocation r now account_id actor_device_id device_id)
unfolding revoke_device
revoke_device-ok r now ack account_id actor_device_id device_id h = ground arith

-- A revocation that is confirmed has revoked the device.
revoke_device-IsRevoked :
    (r : Registry) (now : ℕ) (ack : Ack) (account_id actor_device_id device_id : Uuid)
    → (revoke_device r now ack account_id actor_device_id device_id).0 ≡ ok true
    → IsRevoked (revoke_device r now ack account_id actor_device_id device_id).1 device_id
unfolding write_revocation
revoke_device-IsRevoked r now ack account_id actor_device_id device_id h =
    let (t, e) = revoke_device-ok r now ack account_id actor_device_id device_id h in
    let (d, m, q) = any→in (is_target account_id device_id) r.devices t in
    let i = in-update_where (is_target account_id device_id) (mark_revoked now) m in
    rw e (record {
      row = mark_revoked now d;
      listed = rw q at i;
      id = ground arith;
      revoked = ground arith;
    })

-- In device tables that keep their invariant, after a revocation that answered that it revoked the
-- device, no token authenticates the device, whatever calls follow.
pub run_calls_revoked_denied :
    (calls : List Call) (r : Registry) (now : ℕ) (ack : Ack)
    (account_id actor_device_id device_id : Uuid) (token_hash : Sha256) (auth : AuthContext)
    → IsRegistry r
    → (revoke_device r now ack account_id actor_device_id device_id).0 ≡ ok true
    → authenticate
        (run_calls calls (revoke_device r now ack account_id actor_device_id device_id).1)
        token_hash
      ≡ some auth
    → auth.device_id ≢ device_id
run_calls_revoked_denied calls r now ack account_id actor_device_id device_id token_hash auth v h
      a =
    let start = revoke_device r now ack account_id actor_device_id device_id in
    let after =
      run_calls_induct (λ s. IsRegistry s × IsRevoked s device_id)
        (λ r s now c p. (Change-IsRegistry c p.0, Change-IsRevoked device_id c p.1)) calls start.1
        (
          Change-IsRegistry (revoke-Change r now ack account_id actor_device_id device_id) v,
          revoke_device-IsRevoked r now ack account_id actor_device_id device_id h,
        ) in
    revoked_denied (run_calls calls start.1) device_id token_hash auth after.0 after.1 a
