-- ===== src/Base/Lists.antt =====
-- Lists measured by native numbers, Boolean searches over them, and predicates by recursion.
use Prim.Native.Nat.{ℕ, suc}
use mathlib.Core.Path.{◌≡◌, refl, ap}
use mathlib.Core.Logic.{◌≢◌, ◌↔◌, ◌⊎◌, inl, inr}
use mathlib.Core.Bool.{Bool, true, false, ◌&&◌, ◌||◌}
use mathlib.Core.Option.{Option, none, some}
use mathlib.Core.List.{List, [], ◌∷◌, ◌++◌, map}
use native.Mathlib.Omega.{arith}
use safeory.Base.Tests.{if◌then◌else◌, Bool-cases}
use safeory.Base.Equality.{Eq, ◌==◌, ==_iff, ==_refl}

module _ {ℓ} {A : Type ℓ} where
  abbrev pub length : List A → ℕ
  length [] = 0
  length (x ∷ xs) = suc (length xs)

  abbrev pub is_empty : List A → Bool
  is_empty [] = true
  is_empty (x ∷ xs) = false

  unfoldable pub any : (A → Bool) → List A → Bool
  any p [] = false
  any p (x ∷ xs) = p x || any p xs

  unfoldable pub all : (A → Bool) → List A → Bool
  all p [] = true
  all p (x ∷ xs) = p x && all p xs

  unfoldable pub filter : (A → Bool) → List A → List A
  filter p [] = []
  filter p (x ∷ xs) = let rest = filter p xs in if p x then x ∷ rest else rest

  unfoldable pub find : (A → Bool) → List A → Option A
  find p [] = none
  find p (x ∷ xs) = if p x then some x else find p xs

  abbrev pub All {κ} : (A → Type κ) → List A → Type κ
  All P [] = Unit
  All P (x ∷ xs) = P x × All P xs

  -- An element of the list, with its position.
  pub data In (a : A) : List A → Type ℓ where
    here : {xs : List A} → In a (a ∷ xs)
    there : {x : A} {xs : List A} → In a xs → In a (x ∷ xs)

  -- No element stands twice.
  abbrev pub Distinct : List A → Type ℓ
  Distinct [] = Unit
  Distinct (x ∷ xs) = (¬ In x xs) × Distinct xs

module _ {ℓ} {A : Type ℓ} where
  pub All-in {κ} : (P : A → Type κ) {a : A} {xs : List A} → All P xs → In a xs → P a
  All-in P h here = h.0
  All-in P h (there m) = All-in P h.1 m

  pub All_of_in {κ} : (P : A → Type κ) (xs : List A) → ((a : A) → In a xs → P a) → All P xs
  All_of_in P [] h = tt
  All_of_in P (x ∷ xs) h = (h x here, All_of_in P xs (λ a m. h a (there m)))

  pub any→in : (p : A → Bool) (xs : List A) → any p xs ≡ true → (a : A) × In a xs × (p a ≡ true)
  unfolding any
  any→in p [] h = cc
  any→in p (x ∷ xs) h = elim (Bool-cases (p x)) [
    | inl e ↦ (x, here, e)
    | inr e ↦ let (a, m, q) = any→in p xs (rw e at h) in (a, there m, q)
  ]

  pub in→any : (p : A → Bool) {a : A} {xs : List A} → In a xs → p a ≡ true → any p xs ≡ true
  unfolding any
  in→any p here h = rw h
  in→any p (there {x} m) h = ground (arith, in→any p m h)

  -- A test that implies another finds a witness for it.
  pub any_mono :
      (p q : A → Bool) (xs : List A)
      → ((a : A) → p a ≡ true → q a ≡ true)
      → any p xs ≡ true
      → any q xs ≡ true
  any_mono p q xs imp h = let (a, m, e) = any→in p xs h in in→any q m (imp a e)

  pub find→in : (p : A → Bool) (xs : List A) {a : A} → find p xs ≡ some a → In a xs × (p a ≡ true)
  unfolding find
  find→in p [] h = cc
  find→in p (x ∷ xs) {a} h = elim (Bool-cases (p x)) [
    | inl e ↦ let same : x ≡ a = ground arith in rw (← same) (here, e)
    | inr e ↦ let (m, q) = find→in p xs (rw e at h) in (there m, q)
  ]

  pub all_iff : (p : A → Bool) (xs : List A) → (all p xs ≡ true) ↔ All (λ a. p a ≡ true) xs
  unfolding all
  all_iff p [] = (λ _. tt, λ _. refl)
  all_iff p (x ∷ xs) = ground (arith, all_iff p xs)

module _ {ℓ} {A : Type ℓ} ⦃e : Eq A⦄ where
  unfoldable pub contains : List A → A → Bool
  unfolding any
  contains xs a = any (λ x. x == a) xs

  pub contains→in : (xs : List A) (a : A) → contains xs a ≡ true → In a xs
  unfolding contains
  contains→in xs a h = let (x, m, q) = any→in (λ x. x == a) xs h in rw (← (==_iff x a).0 q) m

  pub in→contains : {a : A} {xs : List A} → In a xs → contains xs a ≡ true
  unfolding contains
  in→contains {a} m = in→any (λ x. x == a) m (==_refl a)

  pub contains-nil : (a : A) → contains [] a ≡ false
  unfolding contains
  contains-nil a = refl

  pub contains-cons :
      (x : A) (xs : List A) (a : A) → contains (x ∷ xs) a ≡ (x == a || contains xs a)
  unfolding contains
  contains-cons x xs a = refl

  -- The distinct elements of a list; the last copy of each is kept.
  unfoldable pub dedup : List A → List A
  unfolding contains
  dedup [] = []
  dedup (x ∷ xs) = let rest = dedup xs in if contains xs x then rest else x ∷ rest

  -- Equality of the sets of elements.
  unfoldable pub same_set : List A → List A → Bool
  unfolding contains all
  same_set xs ys = all (contains ys) xs && all (contains xs) ys

module _ {ℓ κ} {K : Type ℓ} {V : Type κ} ⦃e : Eq K⦄ where
  -- A map as an association list, the newest entry first.
  unfoldable pub lookup : K → List (K × V) → Option V
  lookup k [] = none
  lookup k ((j, v) ∷ m) = if j == k then some v else lookup k m

  pub lookup-cons :
      (k j : K) (v : V) (m : List (K × V))
      → lookup k ((j, v) ∷ m) ≡ (if j == k then some v else lookup k m)
  unfolding lookup
  lookup-cons k j v m = refl

module _ {ℓ} {A : Type ℓ} where
  pub in-cons : {a x : A} {xs : List A} → In a (x ∷ xs) → (a ≡ x) ⊎ In a xs
  in-cons here = inl refl
  in-cons (there m) = inr m

module _ {ℓ κ} {K : Type ℓ} {V : Type κ} ⦃e : Eq K⦄ where
  pub lookup-nil : (k : K) → lookup {V = V} k [] ≡ none
  unfolding lookup
  lookup-nil k = refl

module _ {ℓ} {A : Type ℓ} where
  pub length-snoc : (xs : List A) (a : A) → length (xs ++ a ∷ []) ≡ suc (length xs)
  length-snoc [] a = refl
  length-snoc (x ∷ xs) a = ap suc (length-snoc xs a)

  pub in-snoc : (xs : List A) (a b : A) → In b (xs ++ a ∷ []) ↔ (In b xs ⊎ (b ≡ a))
  in-snoc [] a b = (
    λ m. elim (in-cons m) [ inl e ↦ inr e | inr r ↦ elim r [ ] ],
    λ e. elim e [ inl m ↦ elim m [ ] | inr q ↦ rw q here ],
  )
  in-snoc (x ∷ xs) a b =
      let ih = in-snoc xs a b in
      (
        λ m. elim (in-cons m) [
          | inl q ↦ inl (rw q here)
          | inr r ↦ elim (ih.0 r) [ inl i ↦ inl (there i) | inr q ↦ inr q ]
        ],
        λ e. elim e [
          | inl m ↦ elim (in-cons m) [ inl q ↦ rw q here | inr r ↦ there (ih.1 (inl r)) ]
          | inr q ↦ there (ih.1 (inr q))
        ],
      )

  pub Distinct-snoc : (xs : List A) (a : A) → Distinct xs → (¬ In a xs) → Distinct (xs ++ a ∷ [])
  Distinct-snoc [] a d n = ((λ m. elim m [ ]), tt)
  Distinct-snoc (x ∷ xs) a d n = (
    λ m. elim ((in-snoc xs a x).0 m) [ inl i ↦ d.0 i | inr q ↦ n (rw q here) ],
    Distinct-snoc xs a d.1 (λ m. n (there m)),
  )

  pub All-snoc {κ} : (P : A → Type κ) (xs : List A) (a : A) → All P xs → P a → All P (xs ++ a ∷ [])
  All-snoc P [] a h p = (p, tt)
  All-snoc P (x ∷ xs) a h p = (h.0, All-snoc P xs a h.1 p)

module _ {ℓ κ} {A : Type ℓ} {B : Type κ} where
  pub map-snoc : (f : A → B) (xs : List A) (a : A) → map f (xs ++ a ∷ []) ≡ map f xs ++ f a ∷ []
  map-snoc f [] a = refl
  map-snoc f (x ∷ xs) a = ap (λ l. f x ∷ l) (map-snoc f xs a)

  pub length-map : (f : A → B) (xs : List A) → length (map f xs) ≡ length xs
  length-map f [] = refl
  length-map f (x ∷ xs) = ap suc (length-map f xs)

module _ {ℓ} {A : Type ℓ} where
  -- A search that fails has met no element that passes.
  pub find-none : (p : A → Bool) {a : A} (xs : List A) → find p xs ≡ none → In a xs → p a ≢ true
  unfolding find
  find-none p [] h m = elim m [ ]
  find-none p {a} (x ∷ xs) h m = elim (in-cons m) [
    | inl e ↦ λ q. let hit : p x ≡ true = rw (← e) q in absurd (ground arith)
    | inr i ↦ find-none p xs (ground arith) i
  ]
