-- ===== src/Api/Devices/Live.antt =====
-- The activation of an open enrollment (apps/api/src/store.rs), after sequences of calls whose
-- times ascend, from the empty tables on.
use safeory.Base.{
  ℕ, ◌≤◌, ◌<◌, ◌≡◌, inl, inr, Bool, true, false, none, some, List, [], ◌∷◌, ◌++◌, ok, nat_eq, ◌==◌,
  ==_refl, any, any→in, in→any, contains, find, find_key, In, here, there, in-map, count_where,
  count_where_pos, Bool-cases, arith,
}
use safeory.Sync.Types.{Uuid, max_devices_per_account}
use safeory.Sync.Protocol.{Sha256}
use safeory.Api.Tables.{acknowledged}
use safeory.Api.Devices.{
  Device, Enrollment, Registry, active, active_devices, reserved_devices, clashes, insert_device,
  is_open, is_pending_enrollment, row_to_device_enrollment,
}
use safeory.Api.Devices.Create.{authenticate, bears}
use safeory.Api.Devices.Enroll.{
  has_request, enrolled_device, write_activation, activate_row, activate_device_enrollment,
}
use safeory.Api.Devices.Invariant.{IsRegistry, Change-IsRegistry}
use safeory.Api.Devices.Planned.Keeps.{Planned, Change-Planned}
use safeory.Api.Devices.Reserved.{IsReserved, IsReserved-later, Change-IsReserved}
use safeory.Api.Devices.History.{Call, step, step-Change, run_calls}

-- The calls' times ascend from a time on, and the time of the last.
abbrev pub IsOrdered : ℕ → List Call → Type 0
IsOrdered now [] = Unit
IsOrdered now (c ∷ calls) = (now ≤ c.now) × IsOrdered c.now calls

abbrev pub last_time : ℕ → List Call → ℕ
last_time now [] = now
last_time now (c ∷ calls) = last_time c.now calls

pub record IsSound (r : Registry) (now : ℕ) : Type 0 where
  pub registry : IsRegistry r
  pub planned : Planned r
  pub reserved : IsReserved r now

pub run_calls-IsSound :
    (calls : List Call) (r : Registry) (now : ℕ)
    → IsOrdered now calls
    → IsSound r now
    → IsSound (run_calls calls r) (last_time now calls)
unfolding run_calls
run_calls-IsSound [] r now o v = v
run_calls-IsSound (c ∷ calls) r now o v =
    let t = step-Change r c.now c.ack c.request in
    run_calls-IsSound calls (step r c.now c.ack c.request) c.now o.1 (record {
      registry = Change-IsRegistry t v.registry;
      planned = Change-Planned t v.planned;
      reserved =
          Change-IsReserved t v.registry v.planned (IsReserved-later r now c.now o.0 v.reserved);
    })

abbrev pub empty_registry : Registry
empty_registry = record { accounts = []; devices = []; enrollments = []; events = [] }

pub empty_registry-IsSound : IsSound empty_registry 0
unfolding active_devices reserved_devices count_where contains
empty_registry-IsSound = record {
  registry = record { distinct = tt; known = λ d m. elim m [ ]; limit = λ a. omega arith };
  planned = record {
    requests = tt;
    unregistered = λ e m. elim m [ ];
    one_open = λ e f m. elim m [ ];
    owner = λ e m. elim m [ ];
  };
  reserved = λ a. omega arith;
}

-- In tables that calls built from empty ones, with commits in the order of their times, the active
-- devices of an account and its open enrollments that are not expired are at most 64 together.
pub run_calls_reserved :
    (calls : List Call) (now : ℕ) (account_id : Uuid)
    → IsOrdered 0 calls
    → last_time 0 calls ≤ now
    → reserved_devices (run_calls calls empty_registry) now account_id ≤ max_devices_per_account
run_calls_reserved calls now account_id o l =
    IsReserved-later (run_calls calls empty_registry) (last_time 0 calls) now l
      (run_calls-IsSound calls empty_registry 0 o empty_registry-IsSound).reserved account_id

-- A registered device has the token, revoked or not.
abbrev pub has_token : Sha256 → Device → Bool
has_token token_hash d = elim d.auth_token_sha256 [ none ↦ false | some h ↦ h == token_hash ]

module _ {r : Registry} {now : ℕ} (v : IsSound r now) {row : Enrollment} (m : In row r.enrollments)
    (o : is_open row ≡ true) (l : now < row.expires_at)
    (f : any (has_token row.auth_token_sha256) r.devices ≡ false) where
  found : find (has_request row.request_id) r.enrollments ≡ some row
  found = find_key (λ (e : Enrollment). e.request_id) r.enrollments v.planned.requests m

  room : active_devices r row.account_id < max_devices_per_account
  unfolding reserved_devices
  room = omega (
    arith,
    v.reserved row.account_id,
    count_where_pos (is_pending_enrollment now row.account_id) m
        (ground (arith, ==_refl row.account_id)),
  )

  no_clash : any (clashes (enrolled_device now row)) r.devices ≡ false
  unfolding enrolled_device
  no_clash = elim (Bool-cases (any (clashes (enrolled_device now row)) r.devices)) [
    | inr e ↦ e
    | inl e ↦
        let (d, i, q) = any→in (clashes (enrolled_device now row)) r.devices e in
        elim (Bool-cases (has_token row.auth_token_sha256 d)) [
          | inl t ↦ let hit = in→any (has_token row.auth_token_sha256) i t in cc (hit, f)
          | inr t ↦
              let same : d.device_id ≡ row.device_id = ground arith in
              absurd (
                v.planned.unregistered row m o
                  (rw (← same) (in-map (λ (x : Device). x.device_id) i)))
        ]
  ]

  unborne : (d : Device) → In d r.devices → bears row.auth_token_sha256 d ≡ true → ⊥
  unborne d i q =
      let t : has_token row.auth_token_sha256 d ≡ true = ground arith in
      let hit = in→any (has_token row.auth_token_sha256) i t in cc (hit, f)

find-snoc :
    (p : Device → Bool) (xs : List Device) (d : Device)
    → ((x : Device) → In x xs → p x ≡ true → ⊥)
    → p d ≡ true
    → find p (xs ++ d ∷ []) ≡ some d
unfolding find
find-snoc p [] d miss h = rw h
find-snoc p (x ∷ xs) d miss h = elim (Bool-cases (p x)) [
  | inl e ↦ absurd (miss x here e)
  | inr e ↦ rw e (find-snoc p xs d (λ y m. miss y (there m)) h)
]

activates-live :
    (r : Registry) (now : ℕ) (row : Enrollment)
    → IsSound r now
    → In row r.enrollments
    → is_open row ≡ true
    → now < row.expires_at
    → any (has_token row.auth_token_sha256) r.devices ≡ false
    → activate_device_enrollment r now acknowledged row.request_id row.auth_token_sha256 ≡ (
      ok (record (row_to_device_enrollment row) { status = active }),
      write_activation r now row (r.devices ++ enrolled_device now row ∷ []),
    )
unfolding activate_device_enrollment activate_row insert_device
activates-live r now row v m o l f = ground (
  arith,
  found v m o l f,
  room v m o l f,
  no_clash v m o l f,
  v.planned.owner row m,
  ==_refl row.auth_token_sha256,
)

activated_bears :
    (r : Registry) (now : ℕ) (row : Enrollment)
    → ((d : Device) → In d r.devices → bears row.auth_token_sha256 d ≡ true → ⊥)
    → authenticate
        (write_activation r now row (r.devices ++ enrolled_device now row ∷ []))
        row.auth_token_sha256
      ≡ some (record { account_id = row.account_id; device_id = row.device_id })
unfolding authenticate write_activation enrolled_device
activated_bears r now row miss = ground (
  arith,
  find-snoc (bears row.auth_token_sha256) r.devices (enrolled_device now row) miss
      (ground (arith, ==_refl row.auth_token_sha256)),
)

-- An enrollment that is open and not expired in tables that calls built from empty ones, with
-- commits in the order of their times, is activated by its token when no device bears that token:
-- the call answers with the active enrollment, and the token then authenticates the new device.
pub run_calls_activates :
    (calls : List Call) (now : ℕ) (row : Enrollment)
    → IsOrdered 0 calls
    → last_time 0 calls ≤ now
    → In row (run_calls calls empty_registry).enrollments
    → is_open row ≡ true
    → now < row.expires_at
    → any (has_token row.auth_token_sha256) (run_calls calls empty_registry).devices ≡ false
    → (s : Registry) × (activate_device_enrollment
          (run_calls calls empty_registry)
          now
          acknowledged
          row.request_id
          row.auth_token_sha256
        ≡ (ok (record (row_to_device_enrollment row) { status = active }), s))
      × (authenticate s row.auth_token_sha256
          ≡ some (record { account_id = row.account_id; device_id = row.device_id }))
run_calls_activates calls now row o l m open_row early f =
    let r = run_calls calls empty_registry in
    let last = run_calls-IsSound calls empty_registry 0 o empty_registry-IsSound in
    let v : IsSound r now = record {
      registry = last.registry;
      planned = last.planned;
      reserved = IsReserved-later r (last_time 0 calls) now l last.reserved;
    } in
    (
      write_activation r now row (r.devices ++ enrolled_device now row ∷ []),
      activates-live r now row v m open_row early f,
      activated_bears r now row (unborne v m open_row early f),
    )
