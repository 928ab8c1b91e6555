-- ===== src/Models/Identity/Continuity/History.antt =====
-- Sequences of updates of the emergency card (crates/vault-models/src/lib.rs).
use safeory.Base.{
  ◌≡◌, ◌⊎◌, refl, Result, inl, inr, List, [], ◌∷◌, ok, err, nat_eq, In, in-map, in-map_inv, subst,
}
use safeory.Sync.Types.{Uuid}
use safeory.Models.Identity.{EmergencyCard, Curves, VaultItemValidationError}
use safeory.Models.Identity.Card.{validate_emergency_card}
use safeory.Models.Identity.Continuity.{Binding, bindings, or_keep, replace_card, replace_cards}
use safeory.Models.Identity.Continuity.Unique.{
  IsBound, IsRetired, keys, IsSound, validate_emergency_card-IsSound, lookup-in,
}
use safeory.Models.Identity.Continuity.Step.{Continues, replace_card-Continues}

-- The device is bound as it was, or retired.
abbrev Follows : EmergencyCard → Uuid → Binding → Type 0
Follows card d b = IsBound card d b ⊎ IsRetired card d

bound_key :
    (card : EmergencyCard) (d : Uuid) (b : Binding) → IsBound card d b → In d (keys (bindings card))
bound_key card d b m = in-map (λ ((x, y) : Uuid × Binding). x) m

key-IsBound :
    (card : EmergencyCard) (d : Uuid)
    → In d (keys (bindings card))
    → (b : Binding) × IsBound card d b
key-IsBound card d m =
    let ((x, b), i, e) = in-map_inv (λ ((x, y) : Uuid × Binding). x) (bindings card) m in
    (b, subst (λ y. In {A = Uuid × Binding} (y, b) (bindings card)) e i)

Follows-Continues :
    (previous next : EmergencyCard) (d : Uuid) (b : Binding)
    → Continues previous next
    → Follows previous d b
    → Follows next d b
Follows-Continues previous next d b c (inr r) = inr (c.still_retired d r)
Follows-Continues previous next d b c (inl m) = elim (c.gone_retired d b m) [
  | inr r ↦ inr r
  | inl i ↦
      let (b', m') = key-IsBound next d i in
      inl (subst (λ x. IsBound next d x) (c.same d b b' m m') m')
]

or_keep_lem {ℓ} :
    (P : EmergencyCard → Type ℓ) (card : EmergencyCard)
    (r : Result VaultItemValidationError EmergencyCard)
    → P card
    → ((next : EmergencyCard) → r ≡ ok next → P next)
    → P (or_keep card r)
or_keep_lem P card (ok next) h step = step next refl
or_keep_lem P card (err e) h step = h

-- What an accepted update keeps of a sound card is kept by any sequence of updates.
replace_cards_induct {ℓ} :
    (P : EmergencyCard → Type ℓ)
    → ((card next : EmergencyCard) → Continues card next → P card → P next)
    → (curves : Curves) (cards : List EmergencyCard) (card : EmergencyCard) → IsSound card
    → P card
    → IsSound (replace_cards curves card cards) × P (replace_cards curves card cards)
unfolding replace_cards
replace_cards_induct P keep curves [] card v f = (v, f)
replace_cards_induct P keep curves (x ∷ cards) card v f =
    let step =
      or_keep_lem (λ c. IsSound c × P c) card (replace_card curves card x) (v, f)
        (λ next q.
          let c = replace_card-Continues curves card x next v q in (c.sound, keep card next c f)) in
    replace_cards_induct P keep curves cards (or_keep card (replace_card curves card x)) step.0
      step.1

-- Whatever emergency cards replace a valid one, in whatever order and whether accepted or refused,
-- a device that the first card binds to keys is never bound to other keys.
pub replace_cards_bound :
    (curves : Curves) (cards : List EmergencyCard) (card : EmergencyCard) (device_id : Uuid)
    (b c : Binding)
    → validate_emergency_card curves card ≡ ok tt
    → IsBound card device_id b
    → IsBound (replace_cards curves card cards) device_id c
    → c ≡ b
replace_cards_bound curves cards card device_id b c valid m n =
    let last = replace_cards curves card cards in
    let (v, f) =
      replace_cards_induct (λ x. Follows x device_id b)
        (λ x y g. Follows-Continues x y device_id b g) curves cards card
        (validate_emergency_card-IsSound curves card valid) (inl m) in
    elim f [
      | inl i ↦
          let one = lookup-in (bindings last) device_id b v.unique i in
          let two = lookup-in (bindings last) device_id c v.unique n in cc (one, two)
      | inr r ↦ let live = v.live device_id (bound_key last device_id c n) in cc (r, live)
    ]

-- Whatever emergency cards replace a valid one, accepted or refused, a device that the first card
-- retires is never bound again.
pub replace_cards_retired :
    (curves : Curves) (cards : List EmergencyCard) (card : EmergencyCard) (device_id : Uuid)
    (b : Binding)
    → validate_emergency_card curves card ≡ ok tt
    → IsRetired card device_id
    → ¬ IsBound (replace_cards curves card cards) device_id b
replace_cards_retired curves cards card device_id b valid r n =
    let last = replace_cards curves card cards in
    let (v, f) =
      replace_cards_induct (λ x. IsRetired x device_id) (λ x y g. g.still_retired device_id) curves
        cards card (validate_emergency_card-IsSound curves card valid) r in
    let live = v.live device_id (bound_key last device_id b n) in cc (f, live)
