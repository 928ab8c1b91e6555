-- ===== src/Sync/Checks.antt =====
-- The checks that the contracts share (crates/vault-sync/src/lib.rs, `require_version` to `unique`).
pub mod Laws
use safeory.Base.{
  ℕ, String, Bool, List, [], ◌∷◌, Result, ok, err, Eq, ◌==◌, nat_eq, leb, contains, if◌then◌else◌,
}
use safeory.Sync.Types.{
  Uuid, domain_format_version, max_wire_integer, ContractError, unsupported_format,
  collection_too_large, duplicate_identifier, invalid_identifier, invalid_key_generation,
  integer_out_of_range,
}

abbrev pub Check : Type 0
Check = Result ContractError (Unit {0})

unfoldable pub require_version : ℕ → Check
require_version version =
    if version == domain_format_version then ok tt else err (unsupported_format version)

unfoldable pub is_nil : Uuid → Bool
is_nil value = value == 0

unfoldable pub require_non_nil : String → Uuid → Check
unfolding is_nil
require_non_nil label value = if is_nil value then err (invalid_identifier label) else ok tt

unfoldable pub validate_revision : String → ℕ → Check
validate_revision label value =
    if leb value max_wire_integer then ok tt else err (integer_out_of_range label)

unfoldable pub validate_key_generation : ℕ → Check
unfolding validate_revision
validate_key_generation value =
    if value == 0
    then err invalid_key_generation
    else validate_revision "space key generation" value

unfoldable pub bounded : String → ℕ → ℕ → Check
bounded label actual maximum =
    if leb actual maximum then ok tt else err (collection_too_large label actual maximum)

-- The loop of `unique`; `seen` is the hash set.
unfoldable pub unique_from {ℓ} : {A : Type ℓ} ⦃e : Eq A⦄ → String → List A → List A → Check
unfolding contains
unique_from label seen [] = ok tt
unique_from label seen (value ∷ values) =
    if contains seen value
    then err (duplicate_identifier label)
    else unique_from label (value ∷ seen) values

unfoldable pub unique {ℓ} : {A : Type ℓ} ⦃e : Eq A⦄ → String → List A → Check
unfolding unique_from
unique label values = unique_from label [] values
