-- ===== src/Api/Devices/Invariant.antt =====
-- What always holds of the devices of apps/api/src/store.rs, at whatever times the transactions
-- started: the steps of one call.
use safeory.Base.{
  ℕ, ◌+◌, ◌≤◌, ◌<◌, ◌≡◌, refl, ap, subst, inl, inr, true, false, none, [], ◌∷◌, ◌++◌, map, ok,
  nat_eq, ◌==◌, ==_iff, any, in→any, contains, contains→in, in→contains, In, in-snoc,
  in-append_left, in-map_inv, Distinct, Distinct-snoc, map-snoc, count_where, count_where-snoc,
  count_where_found, count_where-update_where_le, in-update_where_inv, map-update_where, Bool-cases,
  arith, if◌then◌else◌,
}
use safeory.Sync.Types.{Uuid, max_devices_per_account}
use safeory.Api.Devices.{
  Device, Registry, active_devices, reserved_devices, clashes, is_active_device,
}
use safeory.Api.Devices.Enroll.{
  NewDeviceEnrollment, expire_stale, insert_enrollment, enrolled_device, write_activation,
}
use safeory.Api.Devices.Revoke.{is_target, mark_revoked, write_cancellation, write_revocation}
use safeory.Api.Devices.Changes.{
  Fits, Change, stays, founds, registers, prepares, activates, cancels, revokes,
}

-- No identifier stands twice, every device has its account, and no account has more active devices
-- than the limit.
pub record IsRegistry (r : Registry) : Type 0 where
  pub distinct : Distinct (map (λ (d : Device). d.device_id) r.devices)
  pub known : (d : Device) → In d r.devices → contains r.accounts d.account_id ≡ true
  pub limit : (a : Uuid) → active_devices r a ≤ max_devices_per_account

-- An enrollment changes no device and no account.
pub insert_enrollment_keeps :
    (r s : Registry) (now : ℕ) (input : NewDeviceEnrollment)
    → insert_enrollment (expire_stale now input r) now input ≡ ok s
    → (s.accounts ≡ r.accounts) × (s.devices ≡ r.devices)
unfolding insert_enrollment expire_stale
insert_enrollment_keeps r s now input e = ground arith

-- A registry with the same accounts and devices keeps the invariant.
same_devices-IsRegistry :
    (r s : Registry) → s.accounts ≡ r.accounts → s.devices ≡ r.devices → IsRegistry r → IsRegistry s
unfolding active_devices
same_devices-IsRegistry r s a d v = record {
  distinct = rw d v.distinct;
  known = λ x m. rw a (v.known x (rw d at m));
  limit = λ x. rw d (v.limit x);
}

pub fresh_id :
    (r : Registry) (d : Device)
    → any (clashes d) r.devices ≡ false
    → ¬ In d.device_id (map (λ (e : Device). e.device_id) r.devices)
fresh_id r d f m =
    let (e, i, q) = in-map_inv (λ (x : Device). x.device_id) r.devices m in
    let hit = in→any (clashes d) i (ground (arith, ==_iff e.device_id d.device_id)) in cc (f, hit)

pub active_devices-snoc :
    (r : Registry) (d : Device) (a : Uuid)
    → d.revoked_at ≡ none
    → count_where (is_active_device a) (r.devices ++ d ∷ [])
      ≡ active_devices r a + (if d.account_id == a then 1 else 0)
unfolding active_devices
active_devices-snoc r d a live = ground (arith, count_where-snoc (is_active_device a) r.devices d)

-- An account that is not known has no devices.
pub unknown_account :
    (r : Registry) (a : Uuid)
    → IsRegistry r
    → contains r.accounts a ≡ false
    → active_devices r a ≡ 0
unfolding active_devices
unknown_account r a v u = elim (Bool-cases (active_devices r a == 0)) [
  | inl e ↦ ground arith
  | inr e ↦
      let (d, m, q) = count_where_found (is_active_device a) r.devices (ground arith) in
      let k = v.known d m in
      absurd (
        ground (
          arith,
          ==_iff d.account_id a,
          ap (contains r.accounts) ((==_iff d.account_id a).0 (ground arith)),
        ))
]

one_more :
    (r : Registry) (b a : Uuid)
    → active_devices r b < max_devices_per_account
    → active_devices r a ≤ max_devices_per_account
    → active_devices r a + (if b == a then 1 else 0) ≤ max_devices_per_account
one_more r b a room l = elim (Bool-cases (b == a)) [
  | inl e ↦
      let same : active_devices r b ≡ active_devices r a =
        ap (active_devices r) ((==_iff b a).0 e) in
      rw e (omega arith)
  | inr e ↦ rw e (omega arith)
]

-- A new row of an account that has room keeps the invariant.
insert-IsRegistry :
    (r s : Registry) (d : Device)
    → IsRegistry r
    → Fits r d
    → s.devices ≡ r.devices ++ d ∷ []
    → ((a : Uuid) → contains r.accounts a ≡ true → contains s.accounts a ≡ true)
    → contains s.accounts d.account_id ≡ true
    → active_devices r d.account_id < max_devices_per_account
    → IsRegistry s
insert-IsRegistry r s d v f e grow k room = record {
  distinct =
      rw (e, map-snoc (λ (x : Device). x.device_id) r.devices d)
        (Distinct-snoc (map (λ (x : Device). x.device_id) r.devices) d.device_id v.distinct
          (fresh_id r d f.no_clash));
  known = λ x m. elim ((in-snoc r.devices d x).0 (subst (λ l. In x l) e m)) [
    | inl i ↦ grow x.account_id (v.known x i)
    | inr q ↦ rw q k
  ];
  limit = λ a.
      unfold active_devices in
      rw e (rw (active_devices-snoc r d a f.live) (one_more r d.account_id a room (v.limit a)));
}

pub target_id :
    (account_id device_id : Uuid) (d : Device)
    → is_target account_id device_id d ≡ true
    → d.device_id ≡ device_id
target_id account_id device_id d h = ground arith

pub mark_revoked-is_active_device :
    (now : ℕ) (a : Uuid) (d : Device)
    → is_active_device a (mark_revoked now d) ≡ true
    → is_active_device a d ≡ true
mark_revoked-is_active_device now a d h = ground arith

write_revocation-IsRegistry :
    (r : Registry) (now account_id actor_device_id device_id : ℕ)
    → IsRegistry r
    → IsRegistry (write_revocation r now account_id actor_device_id device_id)
unfolding write_revocation active_devices
write_revocation-IsRegistry r now account_id actor_device_id device_id v = record {
  distinct =
      rw
        (map-update_where (λ (x : Device). x.device_id) (is_target account_id device_id)
          (mark_revoked now) r.devices (λ d. refl))
        v.distinct;
  known = λ x m.
      let (d, i, e) =
        in-update_where_inv (is_target account_id device_id) (mark_revoked now) r.devices m in
      let same : x.account_id ≡ d.account_id = ground arith in rw same (v.known d i);
  limit = λ a. ground (
    arith,
    v.limit a,
    count_where-update_where_le (is_active_device a) (is_target account_id device_id)
        (mark_revoked now) r.devices (λ d p q. mark_revoked-is_active_device now a d q),
  );
}

pub Change-IsRegistry : {r s : Registry} {now : ℕ} → Change r now s → IsRegistry r → IsRegistry s
unfolding reserved_devices write_activation write_cancellation enrolled_device
Change-IsRegistry (stays e) v = rw e v
Change-IsRegistry {r} {s} (founds d e c p f) v =
    insert-IsRegistry r s d v f (rw e)
      (λ a h. rw e (in→contains (in-append_left (d.account_id ∷ []) (contains→in r.accounts a h))))
      (rw e (in→contains ((in-snoc r.accounts d.account_id d.account_id).1 (inr refl))))
      (omega (arith, unknown_account r d.account_id v c))
Change-IsRegistry {r} {s} (registers d e k l p f) v =
    insert-IsRegistry r s d v f (rw e) (λ a h. rw e h) (rw e k) (omega arith)
Change-IsRegistry {r} {s} {now} (prepares input k n e) v =
    let (a, d) = insert_enrollment_keeps r s now input e in same_devices-IsRegistry r s a d v
Change-IsRegistry {r} {s} {now} (activates row e q o c l w k f) v =
    insert-IsRegistry r s (enrolled_device now row) v f (rw e) (λ a h. rw e h) (rw e k) w
Change-IsRegistry {r} {s} (cancels a b c row e) v = same_devices-IsRegistry r s (rw e) (rw e) v
Change-IsRegistry {r} {s} {now} (revokes a b c e t l) v =
    rw e (write_revocation-IsRegistry r now a b c v)
