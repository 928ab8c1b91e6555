-- ===== src/Base/Rows.antt =====
-- SQL over a table that is a list of rows: `COUNT(*)` and `UPDATE … WHERE`, and how an update
-- changes a count.
use Prim.Native.Nat.{ℕ, ◌+◌, ◌≤◌}
use mathlib.Core.Path.{◌≡◌, refl, ap}
use mathlib.Core.Logic.{inl, inr}
use mathlib.Core.Bool.{Bool, true, false}
use mathlib.Core.List.{List, [], ◌∷◌, ◌++◌, map}
use native.Mathlib.Omega.{arith}
use safeory.Base.Tests.{if◌then◌else◌, Bool-cases}
use safeory.Base.Lists.{In, here, there, in-cons, Distinct}
use safeory.Base.Keys.{in-map}

module _ {ℓ} {A : Type ℓ} where
  unfoldable pub count_where : (A → Bool) → List A → ℕ
  count_where p [] = 0
  count_where p (x ∷ xs) = (if p x then 1 else 0) + count_where p xs

  unfoldable pub update_where : (A → Bool) → (A → A) → List A → List A
  update_where q f [] = []
  update_where q f (x ∷ xs) = (if q x then f x else x) ∷ update_where q f xs

module _ {ℓ} {A : Type ℓ} where
  pub count_where-snoc :
      (p : A → Bool) (xs : List A) (a : A)
      → count_where p (xs ++ a ∷ []) ≡ count_where p xs + (if p a then 1 else 0)
  unfolding count_where
  count_where-snoc p [] a = omega arith
  count_where-snoc p (x ∷ xs) a = omega (arith, count_where-snoc p xs a)

  -- A test that implies another counts no more rows.
  pub count_where_mono :
      (p r : A → Bool) (xs : List A)
      → ((a : A) → p a ≡ true → r a ≡ true)
      → count_where p xs ≤ count_where r xs
  unfolding count_where
  count_where_mono p r [] imp = omega arith
  count_where_mono p r (x ∷ xs) imp = ground (arith, imp x, count_where_mono p r xs imp)

  pub count_where_pos :
      (p : A → Bool) {a : A} {xs : List A} → In a xs → p a ≡ true → 1 ≤ count_where p xs
  unfolding count_where
  count_where_pos p here h = rw h (omega arith)
  count_where_pos p (there {x} m) h = ground (arith, count_where_pos p m h)

  pub count_where_found :
      (p : A → Bool) (xs : List A) → 1 ≤ count_where p xs → (a : A) × In a xs × (p a ≡ true)
  unfolding count_where
  count_where_found p [] h = absurd (omega arith)
  count_where_found p (x ∷ xs) h = elim (Bool-cases (p x)) [
    | inl e ↦ (x, here, e)
    | inr e ↦ let (a, m, q) = count_where_found p xs (ground arith) in (a, there m, q)
  ]

  pub in-update_where :
      (q : A → Bool) (f : A → A) {a : A} {xs : List A}
      → In a xs
      → In (if q a then f a else a) (update_where q f xs)
  unfolding update_where
  in-update_where q f here = here
  in-update_where q f (there m) = there (in-update_where q f m)

  pub in-update_where_inv :
      (q : A → Bool) (f : A → A) (xs : List A) {b : A}
      → In b (update_where q f xs)
      → (a : A) × In a xs × (b ≡ (if q a then f a else a))
  unfolding update_where
  in-update_where_inv q f [] m = elim m [ ]
  in-update_where_inv q f (x ∷ xs) m = elim (in-cons m) [
    | inl e ↦ (x, here, e)
    | inr r ↦ let (a, i, e) = in-update_where_inv q f xs r in (a, there i, e)
  ]

  -- An update that never makes a row pass the test counts no more rows, and fewer where it makes
  -- a row fail.
  pub count_where-update_where_le :
      (p q : A → Bool) (f : A → A) (xs : List A)
      → ((a : A) → q a ≡ true → p (f a) ≡ true → p a ≡ true)
      → count_where p (update_where q f xs) ≤ count_where p xs
  unfolding count_where update_where
  count_where-update_where_le p q f [] keep = omega arith
  count_where-update_where_le p q f (x ∷ xs) keep =
      ground (arith, keep x, count_where-update_where_le p q f xs keep)

  pub count_where-update_where_lt :
      (p q : A → Bool) (f : A → A) {a : A} {xs : List A}
      → ((b : A) → q b ≡ true → p (f b) ≡ false)
      → In a xs
      → q a ≡ true
      → p a ≡ true
      → count_where p (update_where q f xs) + 1 ≤ count_where p xs
  unfolding count_where update_where
  count_where-update_where_lt p q f {a} keep (here {xs}) hq hp = ground (
    arith,
    keep a,
    count_where-update_where_le p q f xs (λ b u v. absurd (ground (arith, keep b u))),
  )
  count_where-update_where_lt p q f keep (there {x} {xs} m) hq hp =
      ground (arith, keep x, count_where-update_where_lt p q f keep m hq hp)

  pub map-update_where {κ} :
      {K : Type κ} (key : A → K) (q : A → Bool) (f : A → A) (xs : List A)
      → ((a : A) → key (f a) ≡ key a)
      → map key (update_where q f xs) ≡ map key xs
  unfolding update_where
  map-update_where key q f [] same = refl
  map-update_where key q f (x ∷ xs) same = elim (Bool-cases (q x)) [
    | inl e ↦ rw (e, same x) (ap (λ l. key x ∷ l) (map-update_where key q f xs same))
    | inr e ↦ rw e (ap (λ l. key x ∷ l) (map-update_where key q f xs same))
  ]

  -- No row passes the condition: nothing is updated.
  pub count_where-update_where_none :
      (p q : A → Bool) (f : A → A) (xs : List A)
      → ((a : A) → In a xs → q a ≡ false)
      → count_where p (update_where q f xs) ≡ count_where p xs
  unfolding count_where update_where
  count_where-update_where_none p q f [] miss = refl
  count_where-update_where_none p q f (x ∷ xs) miss = rw (miss x here) (
      ap (λ n. (if p x then 1 else 0) + n)
        (count_where-update_where_none p q f xs (λ a m. miss a (there m))))

  -- An update of the rows of one key, which stands once, loses at most one row.
  pub count_where-update_where_one {κ} :
      {K : Type κ} (key : A → K) (k : K) (p q : A → Bool) (f : A → A) (xs : List A)
      → Distinct (map key xs)
      → ((a : A) → q a ≡ true → key a ≡ k)
      → count_where p xs ≤ count_where p (update_where q f xs) + 1
  unfolding count_where update_where
  count_where-update_where_one key k p q f [] d only = omega arith
  count_where-update_where_one key k p q f (x ∷ xs) d only = elim (Bool-cases (q x)) [
    | inl e ↦
        let rest = count_where-update_where_none p q f xs (λ a m. elim (Bool-cases (q a)) [
          | inl h ↦ absurd (d.0 (rw (only x e) (rw (← only a h) (in-map key m))))
          | inr h ↦ h
        ]) in
        ground arith
    | inr e ↦ rw e (omega (arith, count_where-update_where_one key k p q f xs d.1 only))
  ]
