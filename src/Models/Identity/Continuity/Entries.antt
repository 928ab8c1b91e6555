-- ===== src/Models/Identity/Continuity/Entries.antt =====
-- The entries of the map of the devices of an emergency card (crates/vault-models/src/lib.rs).
use safeory.Base.{
  ◌≡◌, ◌⊎◌, refl, subst, inl, inr, List, [], ◌∷◌, nat_eq, list_eq, option_eq, In, here, there,
  in-cons, in-append_left, in-append_right, in-append_inv,
}
use safeory.Sync.Types.{Uuid}
use safeory.Models.Identity.{TrustedDevice, TrustedPrincipal}
use safeory.Models.Identity.Continuity.{
  all_devices, Binding, Bindings, binding, bind_trusted_devices, bind_principals,
}
use safeory.Models.Identity.Continuity.Unique.{in-bind_trusted_devices}

pub in-all_devices :
    (principals : List TrustedPrincipal) (d : TrustedDevice)
    → In d (all_devices principals)
    → (p : TrustedPrincipal) × In p principals × In d p.devices
unfolding all_devices
in-all_devices [] d m = elim m [ ]
in-all_devices (p ∷ principals) d m = elim (in-append_inv p.devices (all_devices principals) m) [
  | inl i ↦ (p, here, i)
  | inr i ↦ let (q, j, k) = in-all_devices principals d i in (q, there j, k)
]

pub all_devices-in :
    (principals : List TrustedPrincipal) (p : TrustedPrincipal) (d : TrustedDevice)
    → In p principals
    → In d p.devices
    → In d (all_devices principals)
unfolding all_devices
all_devices-in [] p d m i = elim m [ ]
all_devices-in (x ∷ principals) p d m i = elim (in-cons m) [
  | inl e ↦
      in-append_left (all_devices principals) (subst (λ (z : TrustedPrincipal). In d z.devices) e i)
  | inr j ↦ in-append_right x.devices (all_devices-in principals p d j i)
]

-- A device of a principal, as an entry of the map.
pub record IsEntry (principals : List TrustedPrincipal) (w : Uuid × Binding) : Type 0 where
  pub principal : TrustedPrincipal
  pub device : TrustedDevice
  pub listed : In principal principals
  pub owned : In device principal.devices
  pub entry : w ≡ (device.id, binding principal.id device)

pub bind_principals-IsEntry :
    (known : Bindings) (principals : List TrustedPrincipal) (w : Uuid × Binding)
    → In w (bind_principals known principals)
    → In w known ⊎ IsEntry principals w
unfolding bind_principals
bind_principals-IsEntry known [] w m = inl m
bind_principals-IsEntry known (p ∷ principals) w m =
    elim (bind_principals-IsEntry (bind_trusted_devices p.id known p.devices) principals w m) [
      | inr n ↦ inr (record {
        principal = n.principal;
        device = n.device;
        listed = there n.listed;
        owned = n.owned;
        entry = n.entry;
      })
      | inl i ↦ elim ((in-bind_trusted_devices p.id known p.devices w).0 i) [
        | inl j ↦ inl j
        | inr (d, j, e) ↦
            inr (record { principal = p; device = d; listed = here; owned = j; entry = e })
      ]
    ]

known-bind_principals :
    (known : Bindings) (principals : List TrustedPrincipal) (w : Uuid × Binding)
    → In w known
    → In w (bind_principals known principals)
unfolding bind_principals
known-bind_principals known [] w m = m
known-bind_principals known (p ∷ principals) w m =
    known-bind_principals (bind_trusted_devices p.id known p.devices) principals w
      ((in-bind_trusted_devices p.id known p.devices w).1 (inl m))

pub IsEntry-bind_principals :
    (known : Bindings) (principals : List TrustedPrincipal) (p : TrustedPrincipal)
    (d : TrustedDevice)
    → In p principals
    → In d p.devices
    → In {A = Uuid × Binding} (d.id, binding p.id d) (bind_principals known principals)
unfolding bind_principals
IsEntry-bind_principals known [] p d m i = elim m [ ]
IsEntry-bind_principals known (x ∷ principals) p d m i = elim (in-cons m) [
  | inl e ↦
      known-bind_principals (bind_trusted_devices x.id known x.devices) principals
        (d.id, binding p.id d)
        (subst
          (λ (z : TrustedPrincipal).
            In {A = Uuid × Binding} (d.id, binding p.id d)
              (bind_trusted_devices z.id known z.devices))
          e
          ((in-bind_trusted_devices p.id known p.devices (d.id, binding p.id d)).1
            (inr (d, i, refl))))
  | inr j ↦ IsEntry-bind_principals (bind_trusted_devices x.id known x.devices) principals p d j i
]
