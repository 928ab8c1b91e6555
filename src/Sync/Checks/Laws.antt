-- ===== src/Sync/Checks/Laws.antt =====
-- What the shared checks accept (crates/vault-sync/src/lib.rs).
use safeory.Base.{
  ℕ, ◌≤◌, ◌<◌, String, ◌≡◌, ◌≢◌, ◌↔◌, inl, inr, refl, List, [], ◌∷◌, ok, Eq, ==_iff, ==_refl,
  contains, In, here, there, Distinct, Bool-cases, contains-nil, contains-cons, arith, false,
}
use safeory.Sync.Types.{domain_format_version, max_wire_integer}
use safeory.Sync.Checks.{
  require_version, require_non_nil, validate_revision, validate_key_generation, bounded,
  unique_from, unique,
}

pub require_version_iff : (v : ℕ) → (require_version v ≡ ok tt) ↔ (v ≡ domain_format_version)
unfolding require_version
require_version_iff v = ground arith

pub require_non_nil_iff : (l : String) (v : ℕ) → (require_non_nil l v ≡ ok tt) ↔ (v ≢ 0)
unfolding require_non_nil
require_non_nil_iff l v = ground arith

pub validate_revision_iff :
    (l : String) (v : ℕ) → (validate_revision l v ≡ ok tt) ↔ (v ≤ max_wire_integer)
unfolding validate_revision
validate_revision_iff l v = ground arith

pub validate_key_generation_iff :
    (v : ℕ) → (validate_key_generation v ≡ ok tt) ↔ ((0 < v) × (v ≤ max_wire_integer))
unfolding validate_key_generation
validate_key_generation_iff v = ground arith

pub bounded_iff : (l : String) (n m : ℕ) → (bounded l n m ≡ ok tt) ↔ (n ≤ m)
unfolding bounded
bounded_iff l n m = ground arith

module _ {ℓ} {A : Type ℓ} ⦃e : Eq A⦄ (label : String) where
  unique_tail :
      (seen : List A) (v : A) (vs : List A)
      → contains seen v ≡ false
      → ((a : A) → In a vs → contains (v ∷ seen) a ≡ false)
      → (a : A) → In a (v ∷ vs)
      → contains seen a ≡ false
  unique_tail seen v vs new h a here = new
  unique_tail seen v vs new h a (there m) = ground (arith, h a m, contains-cons v seen a)

  contains-cons_ne :
      (seen : List A) (v a : A) → v ≢ a → contains seen a ≡ false → contains (v ∷ seen) a ≡ false
  contains-cons_ne seen v a n h = ground (arith, contains-cons v seen a, ==_iff v a)

  unique_from→Distinct :
      (seen values : List A)
      → unique_from label seen values ≡ ok tt
      → Distinct values × ((a : A) → In a values → contains seen a ≡ false)
  unfolding unique_from
  unique_from→Distinct seen [] h = (tt, λ a m. elim m [ ])
  unique_from→Distinct seen (v ∷ vs) h = elim (Bool-cases (contains seen v)) [
    | inl old ↦ absurd (ground arith)
    | inr new ↦
        let rest = unique_from→Distinct (v ∷ seen) vs (rw new at h) in
        (
          (λ m. absurd (ground (arith, rest.1 v m, contains-cons v seen v, ==_refl v)), rest.0),
          unique_tail seen v vs new rest.1,
        )
  ]

  Distinct→unique_from :
      (seen values : List A)
      → Distinct values
      → ((a : A) → In a values → contains seen a ≡ false)
      → unique_from label seen values ≡ ok tt
  unfolding unique_from
  Distinct→unique_from seen [] d h = refl
  Distinct→unique_from seen (v ∷ vs) d h = rw (h v here) (
      Distinct→unique_from (v ∷ seen) vs d.1
        (λ a m. contains-cons_ne seen v a (λ q. d.0 (rw q m)) (h a (there m))))

  -- `unique` accepts exactly the lists that hold no value twice.
  pub unique_iff : (values : List A) → (unique label values ≡ ok tt) ↔ Distinct values
  unfolding unique
  unique_iff values = (
    λ h. (unique_from→Distinct [] values h).0,
    λ d. Distinct→unique_from [] values d (λ a m. contains-nil a),
  )
