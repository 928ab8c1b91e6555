-- ===== src/Models/Identity/Continuity/Step.antt =====
-- What one accepted update of the emergency card keeps (crates/vault-models/src/lib.rs).
use safeory.Base.{
  ◌≡◌, ◌⊎◌, ap, subst, ◌∙◌, inl, inr, true, false, some, List, [], ◌∷◌, ok, for_each,
  for_each-eq-ok, Eq, nat_eq, list_eq, option_eq, ==_iff, contains, contains→in, in→contains,
  lookup, In, here, there, in-cons, in-map, in-map_inv, All-in, all_iff, Bool-cases, arith,
  if◌then◌else◌,
}
use safeory.Sync.Types.{Uuid}
use safeory.Models.Identity.{TrustedDevice, TrustedPrincipal, EmergencyCard, Curves}
use safeory.Models.Identity.Card.{validate_emergency_card}
use safeory.Models.Identity.Continuity.{
  all_devices, set_add, set_extend, is_subset, retire_devices, device_ids,
  carry_forward_trusted_identity_retirements, Binding, Bindings, binding, bindings, continue_device,
  validate_trusted_identity_continuity, replace_card,
}
use safeory.Models.Identity.Continuity.Unique.{
  IsBound, IsRetired, keys, IsSound, validate_emergency_card-IsSound, lookup-in,
}
use safeory.Models.Identity.Continuity.Entries.{
  in-all_devices, all_devices-in, bind_principals-IsEntry, IsEntry-bind_principals,
}

module _ {ℓ} {A : Type ℓ} ⦃e : Eq A⦄ where
  contains-set_add :
      (a x : A) (set : List A) → contains set x ≡ true → contains (set_add a set) x ≡ true
  unfolding set_add
  contains-set_add a x set h = elim (Bool-cases (contains set a)) [
    | inl old ↦ rw old h
    | inr new ↦ rw new (in→contains (there (contains→in set x h)))
  ]

  set_add_self : (a : A) (set : List A) → contains (set_add a set) a ≡ true
  unfolding set_add
  set_add_self a set = elim (Bool-cases (contains set a)) [
    | inl old ↦ rw old old
    | inr new ↦ rw new (in→contains here)
  ]

retire_devices_keeps :
    (next_ids retired : List Uuid) (devices : List TrustedDevice) (x : Uuid)
    → contains retired x ≡ true
    → contains (retire_devices next_ids retired devices) x ≡ true
unfolding retire_devices
retire_devices_keeps next_ids retired [] x h = h
retire_devices_keeps next_ids retired (d ∷ devices) x h =
    elim (Bool-cases (contains next_ids d.id)) [
      | inl e ↦ rw e (retire_devices_keeps next_ids retired devices x h)
      | inr e ↦ rw e (
          retire_devices_keeps next_ids (set_add d.id retired) devices x
            (contains-set_add d.id x retired h))
    ]

-- A device that is gone is retired.
retire_devices-gone :
    (next_ids retired : List Uuid) (devices : List TrustedDevice) (d : TrustedDevice)
    → In d devices
    → contains next_ids d.id ≡ false
    → contains (retire_devices next_ids retired devices) d.id ≡ true
unfolding retire_devices
retire_devices-gone next_ids retired [] d m gone = elim m [ ]
retire_devices-gone next_ids retired (x ∷ devices) d m gone = elim (in-cons m) [
  | inl e ↦
      let same : d.id ≡ x.id = ap (λ (z : TrustedDevice). z.id) e in
      let out : contains next_ids x.id ≡ false =
        subst (λ i. contains next_ids i ≡ false) same gone in
      rw (out, same)
        (retire_devices_keeps next_ids (set_add x.id retired) devices x.id
          (set_add_self x.id retired))
  | inr i ↦
      retire_devices-gone next_ids
        (if contains next_ids x.id then retired else set_add x.id retired) devices d i gone
]

-- The test of a device, where the previous card knows the identifier.
continue_device-known :
    (previous_devices : Bindings) (principal_id : Uuid) (d : TrustedDevice) (b : Binding)
    → continue_device previous_devices principal_id d ≡ ok tt
    → lookup d.id previous_devices ≡ some b
    → binding principal_id d ≡ b
unfolding continue_device
continue_device-known previous_devices principal_id d b h l = ground (
  arith,
  ==_iff b.principal_id principal_id,
  ==_iff b.key (binding principal_id d).key,
  ==_iff b.signing_key (binding principal_id d).signing_key,
)

continuity-ok :
    (previous next : EmergencyCard)
    → validate_trusted_identity_continuity previous next ≡ ok tt
    → (is_subset previous.retired_device_ids next.retired_device_ids ≡ true)
      × (for_each
            (λ (p : TrustedPrincipal).
              for_each (continue_device (bindings previous) p.id) p.devices)
            next.principals
          ≡ ok tt)
unfolding validate_trusted_identity_continuity
continuity-ok previous next h = ground arith

-- What an accepted card leaves of the one before it.
pub record Continues (previous next : EmergencyCard) : Type 0 where
  pub sound : IsSound next
  pub same : (d : Uuid) (b c : Binding) → IsBound previous d b → IsBound next d c → c ≡ b
  pub still_retired : (d : Uuid) → IsRetired previous d → IsRetired next d
  pub gone_retired :
      (d : Uuid) (b : Binding)
      → IsBound previous d b
      → In d (keys (bindings next)) ⊎ IsRetired next d

same_binding :
    (previous next : EmergencyCard)
    → IsSound previous
    → validate_trusted_identity_continuity previous next ≡ ok tt
    → (d : Uuid) (b c : Binding) → IsBound previous d b
    → IsBound next d c
    → c ≡ b
same_binding previous next v h d b c mb mc =
    elim (bind_principals-IsEntry [] next.principals (d, c) mc) [
      | inl m ↦ elim m [ ]
      | inr w ↦
          let id : d ≡ w.device.id = ap (λ ((x, y) : Uuid × Binding). x) w.entry in
          let bound : c ≡ binding w.principal.id w.device =
            ap (λ ((x, y) : Uuid × Binding). y) w.entry in
          let outer =
            (for_each-eq-ok
                (λ (p : TrustedPrincipal).
                  for_each (continue_device (bindings previous) p.id) p.devices)
                next.principals).0
              (continuity-ok previous next h).1 in
          let inner =
            All-in
              (λ (p : TrustedPrincipal).
                for_each (continue_device (bindings previous) p.id) p.devices ≡ ok tt)
              outer w.listed in
          let one =
            All-in
              (λ (x : TrustedDevice). continue_device (bindings previous) w.principal.id x ≡ ok tt)
              ((for_each-eq-ok (continue_device (bindings previous) w.principal.id)
                  w.principal.devices).0
                inner)
              w.owned in
          bound
          ∙ continue_device-known (bindings previous) w.principal.id w.device b one (
              subst (λ i. lookup i (bindings previous) ≡ some b) id
                (lookup-in (bindings previous) d b v.unique mb))
    ]

-- The identifiers of the devices are the keys of the map.
key-device :
    (card : EmergencyCard) (d : Uuid) → In d (device_ids card) → In d (keys (bindings card))
key-device card d m =
    let (x, i, e) = in-map_inv (λ (z : TrustedDevice). z.id) (all_devices card.principals) m in
    let (p, j, k) = in-all_devices card.principals x i in
    subst (λ y. In y (keys (bindings card))) e
      (in-map (λ ((y, z) : Uuid × Binding). y) (IsEntry-bind_principals [] card.principals p x j k))

gone_or_bound :
    (previous card : EmergencyCard) (d : Uuid) (b : Binding)
    → IsBound previous d b
    → In d (keys (bindings (carry_forward_trusted_identity_retirements previous card)))
      ⊎ IsRetired (carry_forward_trusted_identity_retirements previous card) d
unfolding carry_forward_trusted_identity_retirements
gone_or_bound previous card d b m = elim (bind_principals-IsEntry [] previous.principals (d, b) m) [
  | inl i ↦ elim i [ ]
  | inr w ↦
      let id : d ≡ w.device.id = ap (λ ((x, y) : Uuid × Binding). x) w.entry in
      elim (Bool-cases (contains (device_ids card) d)) [
        | inl e ↦ inl (key-device card d (contains→in (device_ids card) d e))
        | inr e ↦ inr (
            rw id (
              retire_devices-gone (device_ids card)
                (set_extend card.retired_device_ids previous.retired_device_ids)
                (all_devices previous.principals) w.device
                (all_devices-in previous.principals w.principal w.device w.listed w.owned)
                (rw id at e)))
      ]
]

replace_card-ok :
    (curves : Curves) (previous card next : EmergencyCard)
    → replace_card curves previous card ≡ ok next
    → (next ≡ carry_forward_trusted_identity_retirements previous card)
      × (validate_emergency_card curves next ≡ ok tt)
      × (validate_trusted_identity_continuity previous next ≡ ok tt)
unfolding replace_card
replace_card-ok curves previous card next h = ground arith

pub replace_card-Continues :
    (curves : Curves) (previous card next : EmergencyCard)
    → IsSound previous
    → replace_card curves previous card ≡ ok next
    → Continues previous next
replace_card-Continues curves previous card next v h =
    let (e, valid, goes) = replace_card-ok curves previous card next h in
    let subset =
      (all_iff (contains next.retired_device_ids) previous.retired_device_ids).0
        (continuity-ok previous next goes).0 in
    record {
      sound = validate_emergency_card-IsSound curves next valid;
      same = same_binding previous next v goes;
      still_retired = λ d r.
          All-in (λ x. contains next.retired_device_ids x ≡ true) subset
            (contains→in previous.retired_device_ids d r);
      gone_retired = λ d b m. rw e (gone_or_bound previous card d b m);
    }
