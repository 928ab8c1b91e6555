-- ===== src/Api/Devices/Planned.antt =====
-- The open enrollments of apps/api/src/store.rs reserve their device identifiers: no device has
-- them, and no two open requests share one.
pub mod Keeps
use safeory.Base.{
  ℕ, ◌≡◌, ◌≢◌, refl, sym, ap, subst, ◌∙◌, inl, inr, Bool, true, false, ◌&&◌, ◌||◌, Option, none,
  some, List, [], ◌∷◌, ◌++◌, map, ok, nat_eq, ◌==◌, ==_iff, ==_refl, any, in→any, contains,
  contains→in, in→contains, find, find→in, In, in-snoc, in-append_left, in-map, in-map_inv,
  Distinct, Distinct-snoc, map-snoc, update_where, in-update_where_inv, map-update_where,
  Bool-cases, arith, if◌then◌else◌,
}
use safeory.Sync.Types.{Uuid, max_devices_per_account}
use safeory.Api.Store.{is_none}
use safeory.Api.Devices.{Device, Enrollment, Registry, reserved_devices, is_open, is_expired}
use safeory.Api.Devices.Create.{has_enrollment, pending_identifier}
use safeory.Api.Devices.Enroll.{
  NewDeviceEnrollment, has_request, is_stale, expire, expire_stale, takes_identifier,
  enrollment_row, reserves_same, insert_enrollment, mark_activated, enrolled_device,
  write_activation,
}
use safeory.Api.Devices.Revoke.{
  is_target, mark_revoked, mark_cancelled, is_cancellable, is_approved_by, write_cancellation,
  write_revocation,
}
use safeory.Api.Devices.Changes.{
  Change, stays, founds, registers, prepares, activates, cancels, revokes,
}

pub record IsPlanned (accounts ids : List Uuid) (enrollments : List Enrollment) : Type 0 where
  pub requests : Distinct (map (λ (e : Enrollment). e.request_id) enrollments)
  pub unregistered : (e : Enrollment) → In e enrollments → is_open e ≡ true → ¬ In e.device_id ids
  pub one_open :
      (e f : Enrollment)
      → In e enrollments
      → In f enrollments
      → is_open e ≡ true
      → is_open f ≡ true
      → e.device_id ≡ f.device_id
      → e.request_id ≡ f.request_id
  pub owner : (e : Enrollment) → In e enrollments → contains accounts e.account_id ≡ true

-- An update that closes the rows it touches.
pub record Closes (f : Enrollment → Enrollment) : Type 0 where
  pub same_request : (e : Enrollment) → (f e).request_id ≡ e.request_id
  pub same_account : (e : Enrollment) → (f e).account_id ≡ e.account_id
  pub same_device : (e : Enrollment) → (f e).device_id ≡ e.device_id
  pub shut : (e : Enrollment) → is_open (f e) ≡ false

-- The row that a row of the updated table comes from.
pub record Origin (q : Enrollment → Bool) (es : List Enrollment) (e : Enrollment) : Type 0 where
  pub from : Enrollment
  pub listed : In from es
  pub same_request : e.request_id ≡ from.request_id
  pub same_account : e.account_id ≡ from.account_id
  pub same_device : e.device_id ≡ from.device_id
  pub still_open : is_open e ≡ true → (is_open from ≡ true) × (q from ≡ false)

origin :
    (q : Enrollment → Bool) (f : Enrollment → Enrollment) (es : List Enrollment) (e : Enrollment)
    → Closes f
    → In e (update_where q f es)
    → Origin q es e
origin q f es e c m =
    let (x, i, w) = in-update_where_inv q f es m in
    elim (Bool-cases (q x)) [
      | inl h ↦
          let same : e ≡ f x = (w ∙ rw h) in
          record {
            from = x;
            listed = i;
            same_request = ap (λ (z : Enrollment). z.request_id) same ∙ c.same_request x;
            same_account = ap (λ (z : Enrollment). z.account_id) same ∙ c.same_account x;
            same_device = ap (λ (z : Enrollment). z.device_id) same ∙ c.same_device x;
            still_open = λ o.
                let bad : is_open (f x) ≡ true = rw same at o in
                let shut = c.shut x in absurd (ground arith);
          }
      | inr h ↦
          let same : e ≡ x = (w ∙ rw h) in
          record {
            from = x;
            listed = i;
            same_request = ap (λ (z : Enrollment). z.request_id) same;
            same_account = ap (λ (z : Enrollment). z.account_id) same;
            same_device = ap (λ (z : Enrollment). z.device_id) same;
            still_open = λ o. (rw same at o, h);
          }
    ]

pub update_where-IsPlanned :
    (accounts ids : List Uuid) (es : List Enrollment) (q : Enrollment → Bool)
    (f : Enrollment → Enrollment)
    → Closes f
    → IsPlanned accounts ids es
    → IsPlanned accounts ids (update_where q f es)
update_where-IsPlanned accounts ids es q f c v = record {
  requests =
      rw (map-update_where (λ (e : Enrollment). e.request_id) q f es c.same_request) v.requests;
  unregistered = λ e m o i.
      let w = origin q f es e c m in
      v.unregistered w.from w.listed (w.still_open o).0 (subst (λ x. In x ids) w.same_device i);
  one_open = λ e g m n o p s.
      let w = origin q f es e c m in
      let u = origin q f es g c n in
      w.same_request
      ∙ (v.one_open w.from u.from w.listed u.listed (w.still_open o).0 (u.still_open p).0
            (sym w.same_device ∙ (s ∙ u.same_device))
          ∙ sym u.same_request);
  owner = λ e m. let w = origin q f es e c m in rw (w.same_account) (v.owner w.from w.listed);
}

pub expire-Closes : Closes expire
expire-Closes = record {
  same_request = λ e. refl;
  same_account = λ e. refl;
  same_device = λ e. refl;
  shut = λ e. ground arith;
}

pub mark_cancelled-Closes : (now : ℕ) → Closes (mark_cancelled now)
mark_cancelled-Closes now = record {
  same_request = λ e. refl;
  same_account = λ e. refl;
  same_device = λ e. refl;
  shut = λ e. ground arith;
}

pub mark_activated-Closes : (now : ℕ) → Closes (mark_activated now)
mark_activated-Closes now = record {
  same_request = λ e. refl;
  same_account = λ e. refl;
  same_device = λ e. refl;
  shut = λ e. refl;
}

-- A further row that reserves a free identifier.
pub add_row :
    (accounts ids : List Uuid) (es : List Enrollment) (row : Enrollment)
    → IsPlanned accounts ids es
    → (¬ In row.request_id (map (λ (e : Enrollment). e.request_id) es))
    → (¬ In row.device_id ids)
    → ((e : Enrollment) → In e es → is_open e ≡ true → e.device_id ≢ row.device_id)
    → contains accounts row.account_id ≡ true
    → IsPlanned accounts ids (es ++ row ∷ [])
add_row accounts ids es row v fresh free open_free k = record {
  requests =
      rw (map-snoc (λ (e : Enrollment). e.request_id) es row)
        (Distinct-snoc (map (λ (e : Enrollment). e.request_id) es) row.request_id v.requests fresh);
  unregistered = λ e m o i. elim ((in-snoc es row e).0 m) [
    | inl j ↦ v.unregistered e j o i
    | inr q ↦ free (subst (λ (x : Enrollment). In x.device_id ids) q i)
  ];
  one_open = λ e f m n o p s. elim ((in-snoc es row e).0 m) [
    | inl j ↦ elim ((in-snoc es row f).0 n) [
      | inl k ↦ v.one_open e f j k o p s
      | inr q ↦ absurd (open_free e j o (s ∙ ap (λ (x : Enrollment). x.device_id) q))
    ]
    | inr q ↦ elim ((in-snoc es row f).0 n) [
      | inl k ↦ absurd (open_free f k p (sym s ∙ ap (λ (x : Enrollment). x.device_id) q))
      | inr u ↦ ap (λ (x : Enrollment). x.request_id) (q ∙ sym u)
    ]
  ];
  owner = λ e m. elim ((in-snoc es row e).0 m) [ inl j ↦ v.owner e j | inr q ↦ rw q k ];
}

-- A further device that no open row names, perhaps with its account.
pub add_device :
    (accounts grown ids : List Uuid) (es : List Enrollment) (device_id : Uuid)
    → IsPlanned accounts ids es
    → ((a : Uuid) → contains accounts a ≡ true → contains grown a ≡ true)
    → ((e : Enrollment) → In e es → is_open e ≡ true → e.device_id ≢ device_id)
    → IsPlanned grown (ids ++ device_id ∷ []) es
add_device accounts grown ids es device_id v grow other = record {
  requests = v.requests;
  unregistered = λ e m o i. elim ((in-snoc ids device_id e.device_id).0 i) [
    | inl j ↦ v.unregistered e m o j
    | inr q ↦ other e m o q
  ];
  one_open = v.one_open;
  owner = λ e m. grow e.account_id (v.owner e m);
}
