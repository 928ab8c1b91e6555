-- ===== src/Api/Devices/Planned/Keeps.antt =====
-- Each call on the devices (apps/api/src/store.rs) leaves the reserved identifiers reserved.
use safeory.Base.{
  ℕ, ◌≡◌, ◌≢◌, ◌<◌, refl, sym, ◌∙◌, true, false, none, some, List, [], ◌∷◌, ◌++◌, map, ok, nat_eq,
  ==_iff, any, in→any, contains, contains→in, in→contains, find, find→in, In, in-append_left,
  in-map_inv, map-snoc, update_where, map-update_where, arith, find-none,
}
use safeory.Sync.Types.{Uuid, max_devices_per_account}
use safeory.Api.Devices.{Device, Enrollment, Registry, reserved_devices}
use safeory.Api.Devices.Create.{has_enrollment, pending_identifier}
use safeory.Api.Devices.Enroll.{
  NewDeviceEnrollment, has_request, is_stale, expire, expire_stale, takes_identifier,
  enrollment_row, reserves_same, insert_enrollment, mark_activated, enrolled_device,
  write_activation,
}
use safeory.Api.Devices.Revoke.{
  is_target, mark_revoked, mark_cancelled, is_cancellable, is_approved_by, write_cancellation,
  write_revocation,
}
use safeory.Api.Devices.Changes.{
  Change, stays, founds, registers, prepares, activates, cancels, revokes,
}
use safeory.Api.Devices.Planned.{
  IsPlanned, update_where-IsPlanned, expire-Closes, mark_cancelled-Closes, mark_activated-Closes,
  add_row, add_device, origin,
}

abbrev pub device_ids : Registry → List Uuid
device_ids r = map (λ (d : Device). d.device_id) r.devices

abbrev pub Planned : Registry → Type 0
Planned r = IsPlanned r.accounts (device_ids r) r.enrollments

-- What a successful insertion of an enrollment has found and written.
pub record Inserted (r s : Registry) (now : ℕ) (input : NewDeviceEnrollment) : Type 0 where
  pub rows :
      s.enrollments
      ≡ update_where (is_stale now input) expire r.enrollments ++ enrollment_row now input ∷ []
  pub accounts : s.accounts ≡ r.accounts
  pub devices : s.devices ≡ r.devices
  pub unregistered : any (takes_identifier input) r.devices ≡ false
  pub room :
      reserved_devices (expire_stale now input r) now input.account_id < max_devices_per_account
  pub unreserved :
      any (reserves_same input) (update_where (is_stale now input) expire r.enrollments) ≡ false

pub insert_enrollment-Inserted :
    (r s : Registry) (now : ℕ) (input : NewDeviceEnrollment)
    → insert_enrollment (expire_stale now input r) now input ≡ ok s
    → Inserted r s now input
unfolding insert_enrollment expire_stale
insert_enrollment-Inserted r s now input e = ground arith

-- No enrollment, open or not, names the identifier.
unnamed :
    (r : Registry) (device_id : Uuid)
    → pending_identifier r device_id ≡ false
    → (e : Enrollment) → In e r.enrollments
    → e.device_id ≢ device_id
unfolding pending_identifier
unnamed r device_id f e m q =
    let hit = in→any (has_enrollment device_id) m ((==_iff e.device_id device_id).1 q) in
    cc (f, hit)

grown :
    (accounts : List Uuid) (b a : Uuid)
    → contains accounts a ≡ true
    → contains (accounts ++ b ∷ []) a ≡ true
grown accounts b a h = in→contains (in-append_left (b ∷ []) (contains→in accounts a h))

prepares-Planned :
    (r s : Registry) (now : ℕ) (input : NewDeviceEnrollment)
    → Inserted r s now input
    → contains r.accounts input.account_id ≡ true
    → find (has_request input.request_id) r.enrollments ≡ none
    → Planned r
    → Planned s
unfolding enrollment_row
prepares-Planned r s now input w k n v =
    let rows = update_where (is_stale now input) expire r.enrollments in
    let closed : IsPlanned r.accounts (device_ids r) rows =
      update_where-IsPlanned r.accounts (device_ids r) r.enrollments (is_stale now input) expire
        expire-Closes v in
    rw (w.rows, w.accounts, w.devices)
      (add_row r.accounts (device_ids r) rows (enrollment_row now input) closed
        (λ m.
          let (e, i, q) = in-map_inv (λ (x : Enrollment). x.request_id) rows m in
          let o = origin (is_stale now input) expire r.enrollments e expire-Closes i in
          find-none (has_request input.request_id) r.enrollments n o.listed
            ((==_iff o.from.request_id input.request_id).1 (sym o.same_request ∙ q)))
        (λ m.
          let (d, i, q) = in-map_inv (λ (x : Device). x.device_id) r.devices m in
          let hit =
            in→any (takes_identifier input) i
              (ground (arith, ==_iff d.device_id input.device_id)) in
          let miss = w.unregistered in cc (hit, miss))
        (λ e m o q.
          let hit =
            in→any (reserves_same input) m (ground (arith, ==_iff e.device_id input.device_id)) in
          let miss = w.unreserved in cc (hit, miss))
        k)

activates-Planned :
    (r : Registry) (now : ℕ) (row : Enrollment)
    → find (has_request row.request_id) r.enrollments ≡ some row
    → row.activated_at ≡ none
    → row.cancelled_at ≡ none
    → Planned r
    → Planned (write_activation r now row (r.devices ++ enrolled_device now row ∷ []))
unfolding write_activation enrolled_device
activates-Planned r now row q a c v =
    let rows = update_where (has_request row.request_id) (mark_activated now) r.enrollments in
    let m = (find→in (has_request row.request_id) r.enrollments q).0 in
    let closed : IsPlanned r.accounts (device_ids r) rows =
      update_where-IsPlanned r.accounts (device_ids r) r.enrollments (has_request row.request_id)
        (mark_activated now) (mark_activated-Closes now) v in
    rw (map-snoc (λ (d : Device). d.device_id) r.devices (enrolled_device now row)) (
      add_device r.accounts r.accounts (device_ids r) rows row.device_id closed (λ b h. h)
        (λ e i o s.
          let w =
            origin (has_request row.request_id) (mark_activated now) r.enrollments e
              (mark_activated-Closes now) i in
          let same =
            v.one_open w.from row w.listed m (w.still_open o).0 (ground arith)
              (sym w.same_device ∙ s) in
          let hit = (==_iff w.from.request_id row.request_id).1 same in
          let miss = (w.still_open o).1 in cc (hit, miss)))

pub Change-Planned : {r s : Registry} {now : ℕ} → Change r now s → Planned r → Planned s
unfolding write_cancellation write_revocation
Change-Planned (stays e) v = rw e v
Change-Planned {r} {s} (founds d e c p f) v =
    rw (e, map-snoc (λ (x : Device). x.device_id) r.devices d)
      (add_device r.accounts (r.accounts ++ d.account_id ∷ []) (device_ids r) r.enrollments
        d.device_id v (grown r.accounts d.account_id) (λ x m o. unnamed r d.device_id p x m))
Change-Planned {r} {s} (registers d e k l p f) v =
    rw (e, map-snoc (λ (x : Device). x.device_id) r.devices d)
      (add_device r.accounts r.accounts (device_ids r) r.enrollments d.device_id v (λ a h. h)
        (λ x m o. unnamed r d.device_id p x m))
Change-Planned {r} {s} {now} (prepares input k n e) v =
    prepares-Planned r s now input (insert_enrollment-Inserted r s now input e) k n v
Change-Planned {r} {s} {now} (activates row e q o c l w k f) v =
    rw e (activates-Planned r now row q o c v)
Change-Planned {r} {s} {now} (cancels a b c row e) v = rw e (
    update_where-IsPlanned r.accounts (device_ids r) r.enrollments (is_cancellable now a c)
      (mark_cancelled now) (mark_cancelled-Closes now) v)
Change-Planned {r} {s} {now} (revokes a b c e t l) v = rw e (
    rw
      (map-update_where (λ (x : Device). x.device_id) (is_target a c) (mark_revoked now) r.devices
        (λ d. refl))
      (update_where-IsPlanned r.accounts (device_ids r) r.enrollments (is_approved_by a c)
        (mark_cancelled now) (mark_cancelled-Closes now) v))
