-- ===== src/Models/Identity/Continuity/Unique.antt =====
-- The device identifiers that a validated emergency card binds (crates/vault-models/src/lib.rs).
use safeory.Base.{
  ◌≡◌, ◌↔◌, ◌⊎◌, refl, sym, ap, subst, ◌∙◌, inl, inr, true, false, some, List, [], ◌∷◌, map, ok,
  >>=-eq-ok, Result-cases, nat_eq, ◌==◌, ==_iff, contains, in→contains, lookup, In, here, there,
  in-cons, in-map, Distinct, Bool-cases, arith,
}
use safeory.Sync.Types.{Uuid}
use safeory.Models.Identity.{TrustedDevice, TrustedPrincipal, EmergencyCard, Curves}
use safeory.Models.Identity.Card.{
  Seen, check_signing_key, check_device, check_devices, check_principal, check_principals,
  nothing_seen, validate_emergency_card,
}
use safeory.Models.Identity.Continuity.{
  Binding, Bindings, binding, bind_trusted_devices, bind_principals, bindings,
}

-- The device is bound so by the card.
abbrev pub IsBound : EmergencyCard → Uuid → Binding → Type 0
IsBound card device_id b = In {A = Uuid × Binding} (device_id, b) (bindings card)

abbrev pub IsRetired : EmergencyCard → Uuid → Type 0
IsRetired card device_id = contains card.retired_device_ids device_id ≡ true

abbrev pub keys : Bindings → List Uuid
keys known = map (λ ((d, b) : Uuid × Binding). d) known

pub record IsSound (card : EmergencyCard) : Type 0 where
  pub unique : Distinct (keys (bindings card))
  pub live : (d : Uuid) → In d (keys (bindings card)) → contains card.retired_device_ids d ≡ false

-- The loops of the validation and those of the map go through the devices together.
record Tracked (card : EmergencyCard) (known : Bindings) (seen : Seen) : Type 0 where
  same : keys known ≡ seen.device_ids
  unique : Distinct (keys known)
  live : (d : Uuid) → In d (keys known) → contains card.retired_device_ids d ≡ false

module _ (curves : Curves) (card : EmergencyCard) where
  check_device-ok :
      (seen after : Seen) (d : TrustedDevice)
      → check_device curves card seen d ≡ ok after
      → (after.device_ids ≡ d.id ∷ seen.device_ids)
        × (contains seen.device_ids d.id ≡ false)
        × (contains card.retired_device_ids d.id ≡ false)
  unfolding check_device check_signing_key
  check_device-ok seen after d h = ground arith

  check_device-Tracked :
      (known : Bindings) (seen after : Seen) (principal_id : Uuid) (d : TrustedDevice)
      → check_device curves card seen d ≡ ok after
      → Tracked card known seen
      → Tracked card ((d.id, binding principal_id d) ∷ known) after
  check_device-Tracked known seen after principal_id d h t =
      let (ids, fresh, live) = check_device-ok seen after d h in
      record {
        same = ap (λ l. d.id ∷ l) t.same ∙ sym ids;
        unique = (
          λ m. let hit = in→contains (subst (λ l. In d.id l) t.same m) in cc (hit, fresh),
          t.unique,
        );
        live = λ x m. elim (in-cons m) [ inl e ↦ rw e live | inr i ↦ t.live x i ];
      }

  check_devices-Tracked :
      (known : Bindings) (seen after : Seen) (principal_id : Uuid) (devices : List TrustedDevice)
      → check_devices curves card seen devices ≡ ok after
      → Tracked card known seen
      → Tracked card (bind_trusted_devices principal_id known devices) after
  unfolding check_devices bind_trusted_devices
  check_devices-Tracked known seen after principal_id [] h t =
      let e : seen ≡ after = ground arith in subst (λ s. Tracked card known s) e t
  check_devices-Tracked known seen after principal_id (d ∷ devices) h t =
      let (next, e, rest) =
        >>=-eq-ok (check_device curves card seen d) (λ s. check_devices curves card s devices) after
          h in
      check_devices-Tracked ((d.id, binding principal_id d) ∷ known) next after principal_id devices
        rest (check_device-Tracked known seen next principal_id d e t)

  check_principal-ok :
      (seen after : Seen) (p : TrustedPrincipal)
      → check_principal curves card seen p ≡ ok after
      → check_devices curves card
          (record seen { principal_ids = p.id ∷ seen.principal_ids })
          p.devices
        ≡ ok after
  unfolding check_principal
  check_principal-ok seen after p h = ground arith

  check_principals-Tracked :
      (known : Bindings) (seen after : Seen) (principals : List TrustedPrincipal)
      → check_principals curves card seen principals ≡ ok after
      → Tracked card known seen
      → Tracked card (bind_principals known principals) after
  unfolding check_principals bind_principals
  check_principals-Tracked known seen after [] h t =
      let e : seen ≡ after = ground arith in subst (λ s. Tracked card known s) e t
  check_principals-Tracked known seen after (p ∷ principals) h t =
      let (next, e, rest) =
        >>=-eq-ok (check_principal curves card seen p)
          (λ s. check_principals curves card s principals) after h in
      check_principals-Tracked (bind_trusted_devices p.id known p.devices) next after principals
        rest
        (check_devices-Tracked known (record seen { principal_ids = p.id ∷ seen.principal_ids })
          next p.id p.devices (check_principal-ok seen next p e)
          (record { same = t.same; unique = t.unique; live = t.live }))

  pub validate_emergency_card-IsSound : validate_emergency_card curves card ≡ ok tt → IsSound card
  unfolding validate_emergency_card
  validate_emergency_card-IsSound h =
      elim (Result-cases (check_principals curves card nothing_seen card.principals)) [
        | inr (e, q) ↦ absurd (ground arith)
        | inl (after, q) ↦
            let t =
              check_principals-Tracked [] nothing_seen after card.principals q
                (record { same = refl; unique = tt; live = λ d m. elim m [ ] }) in
            record { unique = t.unique; live = t.live }
      ]

-- A map of distinct keys finds what it holds.
pub lookup-in :
    (known : Bindings) (d : Uuid) (b : Binding)
    → Distinct (keys known)
    → In {A = Uuid × Binding} (d, b) known
    → lookup d known ≡ some b
unfolding lookup
lookup-in [] d b u m = elim m [ ]
lookup-in ((x, c) ∷ known) d b u m = elim (in-cons m) [
  | inl e ↦ ground (arith, ==_iff x d)
  | inr i ↦ elim (Bool-cases (x == d)) [
    | inl e ↦
        let q : x ≡ d = ground arith in
        absurd (u.0 (rw q (in-map (λ ((y, z) : Uuid × Binding). y) i)))
    | inr e ↦ rw e (lookup-in known d b u.1 i)
  ]
]

-- The keys of the map are the devices' identifiers.
pub in-bind_trusted_devices :
    (principal_id : Uuid) (known : Bindings) (devices : List TrustedDevice) (w : Uuid × Binding)
    → In w (bind_trusted_devices principal_id known devices)
      ↔ (In w known ⊎ ((d : TrustedDevice) × In d devices × (w ≡ (d.id, binding principal_id d))))
unfolding bind_trusted_devices
in-bind_trusted_devices principal_id known [] w =
    (λ m. inl m, λ s. elim s [ inl m ↦ m | inr (d, i, e) ↦ elim i [ ] ])
in-bind_trusted_devices principal_id known (d ∷ devices) w =
    let ih =
      in-bind_trusted_devices principal_id ((d.id, binding principal_id d) ∷ known) devices w in
    (
      λ m. elim (ih.0 m) [
        | inl i ↦ elim (in-cons i) [ inl e ↦ inr (d, here, e) | inr j ↦ inl j ]
        | inr (x, i, e) ↦ inr (x, there i, e)
      ],
      λ s. elim s [
        | inl i ↦ ih.1 (inl (there i))
        | inr (x, i, e) ↦ elim (in-cons i) [
          | inl q ↦ ih.1 (inl (rw (e, q) here))
          | inr j ↦ ih.1 (inr (x, j, e))
        ]
      ],
    )
