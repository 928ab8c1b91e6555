-- ===== src/Api/Devices/Reserved.antt =====
-- The limit on active devices and pending enrollments together (apps/api/src/store.rs), for calls
-- whose times ascend, and what it is good for: an enrollment that was accepted can be activated.
use safeory.Base.{
  ℕ, ◌+◌, ◌≤◌, ◌<◌, ◌≡◌, refl, ap, inl, inr, Bool, true, false, none, List, nat_eq, ◌==◌, ==_iff,
  contains, find→in, In, count_where, count_where-snoc, count_where_mono, count_where_found,
  count_where-update_where_le, count_where-update_where_lt, update_where, Bool-cases, arith,
  if◌then◌else◌,
}
use safeory.Sync.Types.{Uuid, max_devices_per_account}
use safeory.Api.Devices.{
  Enrollment, Registry, active_devices, reserved_devices, is_active_device, is_pending_enrollment,
}
use safeory.Api.Devices.Enroll.{
  NewDeviceEnrollment, has_request, is_stale, expire, expire_stale, enrollment_row, mark_activated,
  enrolled_device, write_activation,
}
use safeory.Api.Devices.Revoke.{
  is_target, mark_revoked, mark_cancelled, is_cancellable, is_approved_by, write_cancellation,
  write_revocation,
}
use safeory.Api.Devices.Changes.{
  Change, stays, founds, registers, prepares, activates, cancels, revokes,
}
use safeory.Api.Devices.Invariant.{
  IsRegistry, active_devices-snoc, unknown_account, mark_revoked-is_active_device,
}
use safeory.Api.Devices.Planned.{
  Closes, expire-Closes, mark_cancelled-Closes, mark_activated-Closes,
}
use safeory.Api.Devices.Planned.Keeps.{Planned, Inserted, insert_enrollment-Inserted}

abbrev pub IsReserved : Registry → ℕ → Type 0
IsReserved r now = (a : Uuid) → reserved_devices r now a ≤ max_devices_per_account

pending_later :
    (now later : ℕ) (a : Uuid) (e : Enrollment)
    → now ≤ later
    → is_pending_enrollment later a e ≡ true
    → is_pending_enrollment now a e ≡ true
pending_later now later a e l h = ground arith

-- As time passes less is reserved.
pub IsReserved-later :
    (r : Registry) (now later : ℕ) → now ≤ later → IsReserved r now → IsReserved r later
unfolding reserved_devices
IsReserved-later r now later l v a = omega (
  arith,
  v a,
  count_where_mono (is_pending_enrollment later a) (is_pending_enrollment now a) r.enrollments
      (λ e. pending_later now later a e l),
)

closed_pending :
    (f : Enrollment → Enrollment) (now : ℕ) (a : Uuid) (e : Enrollment)
    → Closes f
    → is_pending_enrollment now a (f e) ≡ false
closed_pending f now a e c = ground (arith, c.shut e)

-- Closing rows reserves no more.
closing :
    (q : Enrollment → Bool) (f : Enrollment → Enrollment) (now : ℕ) (a : Uuid)
    (es : List Enrollment)
    → Closes f
    → count_where (is_pending_enrollment now a) (update_where q f es)
      ≤ count_where (is_pending_enrollment now a) es
closing q f now a es c =
    count_where-update_where_le (is_pending_enrollment now a) q f es
      (λ e h p. let shut = closed_pending f now a e c in absurd (ground arith))

-- An account that is not known reserves nothing.
unknown_pending :
    (r : Registry) (now : ℕ) (a : Uuid)
    → Planned r
    → contains r.accounts a ≡ false
    → count_where (is_pending_enrollment now a) r.enrollments ≡ 0
unknown_pending r now a v u =
    elim (Bool-cases (count_where (is_pending_enrollment now a) r.enrollments == 0)) [
      | inl e ↦ ground arith
      | inr e ↦
          let (x, m, q) =
            count_where_found (is_pending_enrollment now a) r.enrollments (ground arith) in
          let k = v.owner x m in
          absurd
            (ground (arith, ap (contains r.accounts) ((==_iff x.account_id a).0 (ground arith))))
    ]

-- One more of an account that has room.
one_more_reserved :
    (f : Uuid → ℕ) (b a n : ℕ)
    → f b < max_devices_per_account
    → f a ≤ max_devices_per_account
    → n ≤ f a + (if b == a then 1 else 0)
    → n ≤ max_devices_per_account
one_more_reserved f b a n room l h = elim (Bool-cases (b == a)) [
  | inl e ↦ let same : f b ≡ f a = ap f ((==_iff b a).0 e) in let m = (rw e at h) in omega arith
  | inr e ↦ let m = (rw e at h) in omega arith
]

enrollment_pending :
    (now : ℕ) (a : Uuid) (input : NewDeviceEnrollment)
    → (if is_pending_enrollment now a (enrollment_row now input) then 1 else 0)
      ≤ (if input.account_id == a then 1 else 0)
unfolding enrollment_row
enrollment_pending now a input = ground arith

prepares-IsReserved :
    (r s : Registry) (now : ℕ) (input : NewDeviceEnrollment)
    → Inserted r s now input
    → IsReserved r now
    → IsReserved s now
unfolding reserved_devices active_devices expire_stale
prepares-IsReserved r s now input w v a =
    let rows = update_where (is_stale now input) expire r.enrollments in
    one_more_reserved
      (λ b.
        count_where (is_active_device b) r.devices + count_where (is_pending_enrollment now b) rows)
      input.account_id a
      (count_where (is_active_device a) s.devices
        + count_where (is_pending_enrollment now a) s.enrollments)
      w.room
      (omega (arith, v a, closing (is_stale now input) expire now a r.enrollments expire-Closes))
      (rw
        (
          w.rows,
          w.devices,
          count_where-snoc (is_pending_enrollment now a) rows (enrollment_row now input),
        )
        (omega (arith, enrollment_pending now a input)))

-- An activation turns the pending row into an active device.
activation_count :
    (r : Registry) (now a : ℕ) (row : Enrollment)
    → In row r.enrollments
    → row.activated_at ≡ none
    → row.cancelled_at ≡ none
    → now < row.expires_at
    → (if row.account_id == a then 1 else 0)
        + count_where
            (is_pending_enrollment now a)
            (update_where (has_request row.request_id) (mark_activated now) r.enrollments)
      ≤ count_where (is_pending_enrollment now a) r.enrollments
activation_count r now a row m o c l = elim (Bool-cases (row.account_id == a)) [
  | inr e ↦ rw e (
      omega (
        arith,
        closing (has_request row.request_id) (mark_activated now) now a r.enrollments
            (mark_activated-Closes now),
      ))
  | inl e ↦ rw e (
      omega (
        arith,
        count_where-update_where_lt (is_pending_enrollment now a) (has_request row.request_id)
            (mark_activated now)
            (λ b h. closed_pending (mark_activated now) now a b (mark_activated-Closes now)) m
            ((==_iff row.request_id row.request_id).1 refl) (ground arith),
      ))
]

pub Change-IsReserved :
    {r s : Registry} {now : ℕ}
    → Change r now s
    → IsRegistry r
    → Planned r
    → IsReserved r now
    → IsReserved s now
unfolding reserved_devices active_devices write_activation write_cancellation write_revocation
    enrolled_device
Change-IsReserved (stays e) v p w a = rw e (w a)
Change-IsReserved {r} {s} {now} (founds d e c p f) v q w a =
    one_more_reserved (reserved_devices r now) d.account_id a _
      (omega (arith, unknown_account r d.account_id v c, unknown_pending r now d.account_id q c))
      (w a) (rw e (omega (arith, active_devices-snoc r d a f.live)))
Change-IsReserved {r} {s} {now} (registers d e k l p f) v q w a =
    one_more_reserved (reserved_devices r now) d.account_id a _ l (w a)
      (rw e (omega (arith, active_devices-snoc r d a f.live)))
Change-IsReserved {r} {s} {now} (prepares input k n e) v q w a =
    prepares-IsReserved r s now input (insert_enrollment-Inserted r s now input e) w a
Change-IsReserved {r} {s} {now} (activates row e g o c l u k f) v q w a = rw e (
    omega (
      arith,
      w a,
      active_devices-snoc r (enrolled_device now row) a f.live,
      activation_count r now a row (find→in (has_request row.request_id) r.enrollments g).0 o c l,
    ))
Change-IsReserved {r} {s} {now} (cancels b c d row e) v q w a = rw e (
    omega (
      arith,
      w a,
      closing (is_cancellable now b d) (mark_cancelled now) now a r.enrollments
          (mark_cancelled-Closes now),
    ))
Change-IsReserved {r} {s} {now} (revokes b c d e t l) v q w a = rw e (
    omega (
      arith,
      w a,
      closing (is_approved_by b d) (mark_cancelled now) now a r.enrollments
          (mark_cancelled-Closes now),
      count_where-update_where_le (is_active_device a) (is_target b d) (mark_revoked now) r.devices
          (λ x h y. mark_revoked-is_active_device now a x y),
    ))
