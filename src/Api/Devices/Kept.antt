-- ===== src/Api/Devices/Kept.antt =====
-- What one call never takes away: the last active device of an account, and a revocation
-- (apps/api/src/store.rs).
use safeory.Base.{
  ℕ, ◌≤◌, ◌<◌, ◌≡◌, ◌≢◌, refl, inl, inr, subst, false, none, some, List, [], ◌∷◌, nat_eq, ◌==◌,
  ==_iff, In, in-append_left, find, find→in, In, key-injective, count_where,
  count_where-update_where_one, update_where, in-update_where, Bool-cases, Option-cases, arith,
  if◌then◌else◌,
}
use safeory.Sync.Types.{Uuid}
use safeory.Sync.Protocol.{Sha256}
use safeory.Api.Tables.{AuthContext}
use safeory.Api.Devices.{Device, Registry, active_devices, is_active_device}
use safeory.Api.Devices.Create.{authenticate, bears}
use safeory.Api.Devices.Enroll.{enrolled_device, write_activation}
use safeory.Api.Devices.Revoke.{is_target, mark_revoked, write_cancellation, write_revocation}
use safeory.Api.Devices.Changes.{
  Change, stays, founds, registers, prepares, activates, cancels, revokes,
}
use safeory.Api.Devices.Invariant.{
  IsRegistry, active_devices-snoc, insert_enrollment_keeps, target_id,
}

other_target :
    (account_id device_id a : Uuid) (now : ℕ) (d : Device)
    → account_id ≢ a
    → is_active_device a (if is_target account_id device_id d then mark_revoked now d else d)
      ≡ is_active_device a d
other_target account_id device_id a now d ne = ground (arith, ==_iff d.account_id account_id)

count_other :
    (account_id device_id a : Uuid) (now : ℕ) (devices : List Device)
    → account_id ≢ a
    → count_where
        (is_active_device a)
        (update_where (is_target account_id device_id) (mark_revoked now) devices)
      ≡ count_where (is_active_device a) devices
unfolding count_where update_where
count_other account_id device_id a now [] ne = refl
count_other account_id device_id a now (d ∷ devices) ne = rw (
  other_target account_id device_id a now d ne,
  count_other account_id device_id a now devices ne,
)

-- A revocation is refused where it would leave the account without an active device.
write_revocation_keeps :
    (r : Registry) (now account_id actor_device_id device_id a : ℕ)
    → IsRegistry r
    → 1 < active_devices r account_id
    → 1 ≤ active_devices r a
    → 1 ≤ active_devices (write_revocation r now account_id actor_device_id device_id) a
unfolding write_revocation active_devices
write_revocation_keeps r now account_id actor_device_id device_id a v more h =
    elim (Bool-cases (account_id == a)) [
      | inl e ↦
          let same : account_id ≡ a = ground arith in
          let kept =
            count_where-update_where_one (λ (x : Device). x.device_id) device_id
              (is_active_device a) (is_target account_id device_id) (mark_revoked now) r.devices
              v.distinct (target_id account_id device_id) in
          let two : 1 < count_where (is_active_device a) r.devices =
            subst (λ b. 1 < count_where (is_active_device b) r.devices) same more in
          omega arith
      | inr e ↦ rw (count_other account_id device_id a now r.devices (ground arith)) h
    ]

-- A call leaves an active device to every account that has one.
pub Change-keeps_active :
    {r s : Registry} {now : ℕ} (a : Uuid)
    → Change r now s
    → IsRegistry r
    → 1 ≤ active_devices r a
    → 1 ≤ active_devices s a
unfolding active_devices write_activation write_cancellation enrolled_device
Change-keeps_active a (stays e) v h = rw e h
Change-keeps_active {r} a (founds d e c p f) v h =
    rw e (rw (active_devices-snoc r d a f.live) (omega arith))
Change-keeps_active {r} a (registers d e k l p f) v h =
    rw e (rw (active_devices-snoc r d a f.live) (omega arith))
Change-keeps_active {r} {s} {now} a (prepares input k n e) v h =
    rw ((insert_enrollment_keeps r s now input e).1) h
Change-keeps_active {r} {s} {now} a (activates row e q o c l w k f) v h =
    rw e (rw (active_devices-snoc r (enrolled_device now row) a f.live) (omega arith))
Change-keeps_active a (cancels b c d row e) v h = rw e h
Change-keeps_active {r} {s} {now} a (revokes b c d e t l) v h =
    rw e (write_revocation_keeps r now b c d a v l h)

-- The device has been revoked.
pub record IsRevoked (r : Registry) (device_id : Uuid) : Type 0 where
  pub row : Device
  pub listed : In row r.devices
  pub id : row.device_id ≡ device_id
  pub revoked : row.revoked_at ≢ none

is_target-revoked :
    (account_id device_id : Uuid) (d : Device)
    → d.revoked_at ≢ none
    → is_target account_id device_id d ≡ false
is_target-revoked account_id device_id d ne = ground arith

still :
    {r s : Registry} (device_id : Uuid) (v : IsRevoked r device_id)
    → In v.row s.devices
    → IsRevoked s device_id
still device_id v m = record { row = v.row; listed = m; id = v.id; revoked = v.revoked }

-- No call takes a revocation back.
pub Change-IsRevoked :
    {r s : Registry} {now : ℕ} (device_id : Uuid)
    → Change r now s
    → IsRevoked r device_id
    → IsRevoked s device_id
unfolding write_activation write_cancellation write_revocation
Change-IsRevoked x (stays e) v = rw e v
Change-IsRevoked x (founds d e c p f) v = still x v (rw e (in-append_left (d ∷ []) v.listed))
Change-IsRevoked x (registers d e k l p f) v = still x v (rw e (in-append_left (d ∷ []) v.listed))
Change-IsRevoked {r} {s} {now} x (prepares input k n e) v =
    still x v (rw ((insert_enrollment_keeps r s now input e).1) v.listed)
Change-IsRevoked {r} {s} {now} x (activates row e q o c l w k f) v =
    still x v (rw e (in-append_left (enrolled_device now row ∷ []) v.listed))
Change-IsRevoked x (cancels b c d row e) v = still x v (rw e v.listed)
Change-IsRevoked {r} {s} {now} x (revokes b c d e t l) v = still x v (
    let m = in-update_where (is_target b d) (mark_revoked now) v.listed in
    let same : (if is_target b d v.row then mark_revoked now v.row else v.row) ≡ v.row =
      rw (is_target-revoked b d v.row v.revoked) in
    rw e (rw same at m))

authenticate-some :
    (r : Registry) (token_hash : Sha256) (auth : AuthContext)
    → authenticate r token_hash ≡ some auth
    → (d : Device) × In d r.devices
      × (d.revoked_at ≡ none)
      × (d.device_id ≡ auth.device_id)
      × (d.account_id ≡ auth.account_id)
unfolding authenticate
authenticate-some r token_hash auth h = elim (Option-cases (find (bears token_hash) r.devices)) [
  | inl e ↦ absurd (ground arith)
  | inr (d, e) ↦
      let (m, b) = find→in (bears token_hash) r.devices e in
      (d, m, ground arith, ground arith, ground arith)
]

-- No token authenticates as a revoked device.
pub revoked_denied :
    (r : Registry) (device_id : Uuid) (token_hash : Sha256) (auth : AuthContext)
    → IsRegistry r
    → IsRevoked r device_id
    → authenticate r token_hash ≡ some auth
    → auth.device_id ≢ device_id
revoked_denied r device_id token_hash auth v g h q =
    let (d, m, live, id, _) = authenticate-some r token_hash auth h in
    let same : d ≡ g.row =
      key-injective (λ (x : Device). x.device_id) r.devices v.distinct m g.listed (cc (g.id)) in
    g.revoked (subst (λ (x : Device). x.revoked_at ≡ none) same live)
