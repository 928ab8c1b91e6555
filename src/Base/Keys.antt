-- ===== src/Base/Keys.antt =====
-- Membership through `map` and `filter`, search by a key, and sets of elements.
use mathlib.Core.Path.{◌≡◌, refl, sym, ap, ◌∙◌}
use mathlib.Core.Logic.{◌↔◌, ◌≢◌, ◌⊎◌, inl, inr}
use mathlib.Core.Bool.{Bool, true}
use mathlib.Core.Option.{some}
use mathlib.Core.List.{List, [], ◌∷◌, map, ◌++◌}
use native.Mathlib.Omega.{arith}
use safeory.Base.Tests.{Bool-cases}
use safeory.Base.Equality.{Eq, ◌==◌, ==_iff, ==_refl}
use safeory.Base.Lists.{
  In, here, there, in-cons, any, any→in, in→any, All-in, All_of_in, all, all_iff, filter, find,
  contains, contains→in, in→contains, Distinct, dedup, same_set, length,
}

module _ {ℓ κ} {A : Type ℓ} {B : Type κ} where
  pub in-map : (f : A → B) {a : A} {xs : List A} → In a xs → In (f a) (map f xs)
  in-map f here = here
  in-map f (there m) = there (in-map f m)

  pub in-map_inv :
      (f : A → B) (xs : List A) {b : B} → In b (map f xs) → (a : A) × In a xs × (f a ≡ b)
  in-map_inv f [] m = elim m [ ]
  in-map_inv f (x ∷ xs) m = elim (in-cons m) [
    | inl e ↦ (x, here, sym e)
    | inr r ↦ let (a, i, e) = in-map_inv f xs r in (a, there i, e)
  ]

module _ {ℓ} {A : Type ℓ} where
  pub in-append_left : {a : A} {xs : List A} (ys : List A) → In a xs → In a (xs ++ ys)
  in-append_left ys here = here
  in-append_left ys (there m) = there (in-append_left ys m)

  pub in-append_right : {a : A} (xs : List A) {ys : List A} → In a ys → In a (xs ++ ys)
  in-append_right [] m = m
  in-append_right (x ∷ xs) m = there (in-append_right xs m)

  abbrev pub SameElements : List A → List A → Type ℓ
  SameElements xs ys = ((a : A) → In a xs → In a ys) × ((a : A) → In a ys → In a xs)

  pub any_iff :
      (p : A → Bool) (xs : List A) → (any p xs ≡ true) ↔ ((a : A) × In a xs × (p a ≡ true))
  any_iff p xs = (any→in p xs, λ w. in→any p w.1 w.2)

  pub length_of_in : {a : A} {xs : List A} → In a xs → length xs ≢ 0
  length_of_in here = omega arith
  length_of_in (there m) = omega arith

  pub in_of_length : (xs : List A) → length xs ≢ 0 → (a : A) × In a xs
  in_of_length [] h = absurd (h refl)
  in_of_length (x ∷ xs) h = (x, here)

  pub in-filter : (p : A → Bool) {a : A} {xs : List A} → In a xs → p a ≡ true → In a (filter p xs)
  unfolding filter
  in-filter p here h = rw h here
  in-filter p (there {x} {xs} m) h = elim (Bool-cases (p x)) [
    | inl e ↦ rw e (there (in-filter p m h))
    | inr e ↦ rw e (in-filter p m h)
  ]

  pub in-filter_inv :
      (p : A → Bool) (xs : List A) {a : A} → In a (filter p xs) → In a xs × (p a ≡ true)
  unfolding filter
  in-filter_inv p [] m = elim m [ ]
  in-filter_inv p (x ∷ xs) m = elim (Bool-cases (p x)) [
    | inl e ↦ elim (in-cons (rw e at m)) [
      | inl same ↦ (rw same here, rw same e)
      | inr r ↦ let (i, h) = in-filter_inv p xs r in (there i, h)
    ]
    | inr e ↦ let (i, h) = in-filter_inv p xs (rw e at m) in (there i, h)
  ]

module _ {ℓ κ} {A : Type ℓ} {K : Type κ} ⦃e : Eq K⦄ (key : A → K) where
  -- With distinct keys a search by key finds the element itself.
  pub find_key :
      {a : A} (xs : List A)
      → Distinct (map key xs)
      → In a xs
      → find (λ x. key x == key a) xs ≡ some a
  unfolding find
  find_key {a} [] d m = elim m [ ]
  find_key {a} (x ∷ xs) d m = elim (in-cons m) [
    | inl same ↦ rw same (rw ==_refl)
    | inr r ↦ ground (
      arith,
      find_key xs d.1 r,
      λ (q : key x ≡ key a). d.0 (rw q (in-map key r)),
      ==_iff (key x) (key a),
    )
  ]

  -- With distinct keys two elements of one key are the same.
  pub key-injective :
      {a b : A} (xs : List A) → Distinct (map key xs) → In a xs → In b xs → key a ≡ key b → a ≡ b
  key-injective {a} {b} xs d ma mb q =
      let fa = find_key xs d ma in
      let fb = find_key xs d mb in cc (fa, fb, ap (λ k. find (λ x. key x == k) xs) q)

module _ {ℓ} {A : Type ℓ} ⦃e : Eq A⦄ where
  pub all-contains_iff :
      (xs ys : List A) → (all (contains ys) xs ≡ true) ↔ ((a : A) → In a xs → In a ys)
  all-contains_iff xs ys = (
    λ h a m.
        contains→in ys a (All-in (λ x. contains ys x ≡ true) ((all_iff (contains ys) xs).0 h) m),
    λ h.
        (all_iff (contains ys) xs).1
          (All_of_in (λ x. contains ys x ≡ true) xs (λ a m. in→contains (h a m))),
  )

  -- `same_set` decides equality of the sets of elements.
  pub same_set_iff : (xs ys : List A) → (same_set xs ys ≡ true) ↔ SameElements xs ys
  unfolding same_set
  same_set_iff xs ys = ground (arith, all-contains_iff xs ys, all-contains_iff ys xs)

  pub in-dedup : {a : A} (xs : List A) → In a xs → In a (dedup xs)
  unfolding dedup
  in-dedup [] m = m
  in-dedup {a} (x ∷ xs) m = elim (Bool-cases (contains xs x)) [
    | inl again ↦ elim (in-cons m) [
      | inl same ↦ rw again (in-dedup xs (rw same (contains→in xs x again)))
      | inr r ↦ rw again (in-dedup xs r)
    ]
    | inr last ↦ elim (in-cons m) [
      | inl same ↦ rw last (rw same here)
      | inr r ↦ rw last (there (in-dedup xs r))
    ]
  ]

  pub in-dedup_inv : {a : A} (xs : List A) → In a (dedup xs) → In a xs
  unfolding dedup
  in-dedup_inv [] m = m
  in-dedup_inv (x ∷ xs) m = elim (Bool-cases (contains xs x)) [
    | inl again ↦ there (in-dedup_inv xs (rw again at m))
    | inr last ↦ elim (in-cons (rw last at m)) [
      | inl same ↦ rw same here
      | inr r ↦ there (in-dedup_inv xs r)
    ]
  ]

  pub dedup-Distinct : (xs : List A) → Distinct (dedup xs)
  unfolding dedup
  dedup-Distinct [] = tt
  dedup-Distinct (x ∷ xs) = elim (Bool-cases (contains xs x)) [
    | inl again ↦ rw again (dedup-Distinct xs)
    | inr last ↦ rw last (λ m. ground (arith, in→contains (in-dedup_inv xs m)), dedup-Distinct xs)
  ]

  -- The list holds one element, perhaps many times.
  abbrev pub IsOnly : A → List A → Type ℓ
  IsOnly a xs = In a xs × ((b : A) → In b xs → b ≡ a)

  one_of_IsOnly : (a : A) (ys : List A) → Distinct ys → IsOnly a ys → length ys ≡ 1
  one_of_IsOnly a [] d o = elim o.0 [ ]
  one_of_IsOnly a (y ∷ []) d o = refl
  one_of_IsOnly a (y ∷ z ∷ ys) d o = absurd (d.0 (rw (o.1 y here ∙ sym (o.1 z (there here))) here))

  only_head : {y b : A} → In b (y ∷ []) → b ≡ y
  only_head here = refl
  only_head (there m) = elim m [ ]

  IsOnly-of_one : (ys : List A) → length ys ≡ 1 → (a : A) × IsOnly a ys
  IsOnly-of_one [] h = absurd (omega arith)
  IsOnly-of_one (y ∷ []) h = (y, (here, λ b m. only_head m))
  IsOnly-of_one (y ∷ z ∷ ys) h = absurd (omega arith)

  -- A list has one distinct element exactly when some element is its only one.
  pub length-dedup-one_iff : (xs : List A) → (length (dedup xs) ≡ 1) ↔ ((a : A) × IsOnly a xs)
  length-dedup-one_iff xs = (
    λ h.
        let (a, o) = IsOnly-of_one (dedup xs) h in
        (a, (in-dedup_inv xs o.0, λ b n. o.1 b (in-dedup xs n))),
    λ o.
        one_of_IsOnly o.0 (dedup xs) (dedup-Distinct xs)
          (in-dedup xs o.1.0, λ b n. o.1.1 b (in-dedup_inv xs n)),
  )

  pub contains_iff : (xs : List A) (a : A) → (contains xs a ≡ true) ↔ In a xs
  contains_iff xs a = (contains→in xs a, in→contains)

module _ {ℓ} {A : Type ℓ} where
  pub in-append_inv : {a : A} (xs ys : List A) → In a (xs ++ ys) → In a xs ⊎ In a ys
  in-append_inv [] ys m = inr m
  in-append_inv (x ∷ xs) ys m = elim (in-cons m) [
    | inl e ↦ inl (rw e here)
    | inr r ↦ elim (in-append_inv xs ys r) [ inl i ↦ inl (there i) | inr i ↦ inr i ]
  ]
