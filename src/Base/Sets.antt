-- ===== src/Base/Sets.antt =====
-- `BTreeSet` over numbers: strictly ascending lists.
use Prim.Native.Nat.{ℕ, ◌<◌}
use mathlib.Core.Path.{◌≡◌}
use mathlib.Core.Logic.{◌↔◌, ◌⊎◌, inl, inr}
use mathlib.Core.List.{List, [], ◌∷◌}
use native.Mathlib.Omega.{arith}
use safeory.Base.Tests.{ltb, eqb, if◌then◌else◌, Bool-cases}
use safeory.Base.Equality.{nat_eq}
use safeory.Base.Lists.{
  In, here, there, in-cons, All, All-in, All_of_in, Distinct, contains, filter, length,
}

unfoldable pub set_insert : ℕ → List ℕ → List ℕ
set_insert a [] = a ∷ []
set_insert a (x ∷ xs) =
    if ltb a x then a ∷ x ∷ xs else if eqb a x then x ∷ xs else x ∷ set_insert a xs

-- `FromIterator`: the elements of a list as a set.
unfoldable pub set_collect : List ℕ → List ℕ
unfolding set_insert
set_collect [] = []
set_collect (x ∷ xs) = set_insert x (set_collect xs)

-- The number of elements that two sets share.
unfoldable pub count_common : List ℕ → List ℕ → ℕ
count_common xs ys = length (filter (contains ys) xs)

abbrev pub IsAscending : List ℕ → Type 0
IsAscending [] = Unit
IsAscending (x ∷ xs) = All (λ y. x < y) xs × IsAscending xs

pub in-set_insert : (a b : ℕ) (xs : List ℕ) → In b (set_insert a xs) ↔ ((b ≡ a) ⊎ In b xs)
unfolding set_insert
in-set_insert a b [] = (λ m. in-cons m, λ e. elim e [ inl q ↦ rw q here | inr m ↦ there m ])
in-set_insert a b (x ∷ xs) = elim (Bool-cases (ltb a x)) [
  | inl lt ↦ rw lt (λ m. in-cons m, λ e. elim e [ inl q ↦ rw q here | inr m ↦ there m ])
  | inr ge ↦ elim (Bool-cases (eqb a x)) [
    | inl same ↦
        let q : a ≡ x = ground arith in
        rw (ge, same) (λ m. inr m, λ e. elim e [ inl p ↦ rw (p, q) here | inr m ↦ m ])
    | inr more ↦
        let ih = in-set_insert a b xs in
        rw (ge, more)
          (
            λ m. elim (in-cons m) [
              | inl q ↦ inr (rw q here)
              | inr r ↦ elim (ih.0 r) [ inl q ↦ inl q | inr s ↦ inr (there s) ]
            ],
            λ e. elim e [
              | inl q ↦ there (ih.1 (inl q))
              | inr m ↦ elim (in-cons m) [ inl q ↦ rw q here | inr r ↦ there (ih.1 (inr r)) ]
            ],
          )
  ]
]

below_all : (a x : ℕ) (xs : List ℕ) → a < x → All (λ y. x < y) xs → All (λ y. a < y) xs
below_all a x [] h l = tt
below_all a x (y ∷ ys) h l = (omega arith, below_all a x ys h l.1)

pub set_insert-IsAscending : (a : ℕ) (xs : List ℕ) → IsAscending xs → IsAscending (set_insert a xs)
unfolding set_insert
set_insert-IsAscending a [] h = (tt, tt)
set_insert-IsAscending a (x ∷ xs) h = elim (Bool-cases (ltb a x)) [
  | inl lt ↦ let p : a < x = ground arith in rw lt ((p, below_all a x xs p h.0), h)
  | inr ge ↦ elim (Bool-cases (eqb a x)) [
    | inl same ↦ rw (ge, same) h
    | inr more ↦
        rw (ge, more)
          (
            All_of_in (λ y. x < y) (set_insert a xs)
                (λ b m. elim ((in-set_insert a b xs).0 m) [
                  | inl q ↦ ground arith
                  | inr r ↦ All-in (λ y. x < y) h.0 r
                ]),
            set_insert-IsAscending a xs h.1,
          )
  ]
]

pub IsAscending→Distinct : (xs : List ℕ) → IsAscending xs → Distinct xs
IsAscending→Distinct [] h = tt
IsAscending→Distinct (x ∷ xs) h =
    (λ m. let q = All-in (λ y. x < y) h.0 m in omega arith, IsAscending→Distinct xs h.1)
