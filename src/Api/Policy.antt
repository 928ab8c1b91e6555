-- ===== src/Api/Policy.antt =====
-- Versions, write preconditions and the write policy (apps/api/src/model.rs). The database keeps
-- `BIGINT` columns at or above zero, so an `i64` that it returns is a natural number.
use safeory.Base.{
  ℕ, String, Bool, not, ◌&&◌, ◌≡◌, ◌↔◌, ◌≤◌, ◌<◌, Option, none, some, Result, ok, err, nat_eq, ◌==◌,
  ltb, leb, if◌then◌else◌, i64_max, Bool-cases, inl, inr, arith,
}
use safeory.Sync.Types.{Uuid, max_wire_integer}
use safeory.Sync.Protocol.{Sha256, OpaqueObjectHeaderV1, WritePreconditionV1}

abbrev pub max_wire_revision : ℕ
max_wire_revision = max_wire_integer

pub record ObjectVersion : Type 0 where
  pub revision : ℕ
  pub ciphertext_sha256 : Sha256

pub record StoredObject : Type 0 where
  pub object_id : Uuid
  pub revision : ℕ
  pub ciphertext_size_bytes : ℕ
  pub ciphertext_sha256 : Sha256
  pub change_seq : ℕ
  pub storage_key : String
  pub header : OpaqueObjectHeaderV1

pub record OperationOutcome : Type 0 where
  pub request_sha256 : Sha256
  pub header : OpaqueObjectHeaderV1
  pub change_seq : ℕ
  pub created : Bool
  pub storage_key : String

unfoldable pub version : StoredObject → ObjectVersion
version o = record { revision = o.revision; ciphertext_sha256 = o.ciphertext_sha256 }

pub data WritePrecondition : Type 0 where
  create_only : WritePrecondition
  matching : ObjectVersion → WritePrecondition

-- `i64::try_from`
abbrev pub to_i64 : ℕ → Option ℕ
to_i64 n = if leb n i64_max then some n else none

unfoldable pub read_precondition : WritePreconditionV1 → Option WritePrecondition
read_precondition WritePreconditionV1.create_only = some create_only
read_precondition (WritePreconditionV1.matching revision sha256) = elim (to_i64 revision) [
  | none ↦ none
  | some r ↦ some (matching (record { revision = r; ciphertext_sha256 = sha256 }))
]

pub data PolicyError : Type 0 where
  precondition_failed invalid_revision : PolicyError

-- The derived `PartialEq` of `ObjectVersion`.
abbrev pub version_beq : ObjectVersion → ObjectVersion → Bool
version_beq v w = v.revision == w.revision && v.ciphertext_sha256 == w.ciphertext_sha256

-- The match on the current object and the precondition.
unfoldable pub match_policy :
    Option StoredObject → ℕ → WritePrecondition → Result PolicyError (Unit {0})
unfolding version
match_policy none candidate_revision create_only = ok tt
match_policy (some _) candidate_revision create_only = err precondition_failed
match_policy none candidate_revision (matching _) = err precondition_failed
match_policy (some current) candidate_revision (matching expected) =
    if ltb max_wire_revision current.revision
    then err invalid_revision
    else if not (version_beq (version current) expected)
    then err precondition_failed
    else if leb candidate_revision current.revision
    then err invalid_revision
    else ok tt

unfoldable pub validate_write_policy :
    Option StoredObject → ℕ → WritePrecondition → Result PolicyError (Unit {0})
validate_write_policy current candidate_revision precondition =
    if ltb max_wire_revision candidate_revision
    then err invalid_revision
    else match_policy current candidate_revision precondition

-- The write is the first one of the object, or it replaces exactly the version that it names by
-- a later one.
abbrev pub Permits : ℕ → Option StoredObject → WritePrecondition → Type 0
Permits r none create_only = Unit
Permits r (some _) create_only = ⊥
Permits r none (matching _) = ⊥
Permits r (some o) (matching v) =
    (o.revision ≡ v.revision) × (o.ciphertext_sha256 ≡ v.ciphertext_sha256) × (o.revision < r)

match_policy_iff :
    (r : ℕ) (current : Option StoredObject) (p : WritePrecondition)
    → r ≤ max_wire_revision
    → (match_policy current r p ≡ ok tt) ↔ Permits r current p
unfolding match_policy version
match_policy_iff r none create_only h = ground arith
match_policy_iff r (some o) create_only h = ground arith
match_policy_iff r none (matching v) h = ground arith
match_policy_iff r (some o) (matching v) h = ground arith

-- The write policy admits a write exactly when its revision is in range and it is the first write
-- of the object, or replaces exactly the version that it names by a later one.
pub validate_write_policy_iff :
    (r : ℕ) (current : Option StoredObject) (p : WritePrecondition)
    → (validate_write_policy current r p ≡ ok tt) ↔ ((r ≤ max_wire_revision) × Permits r current p)
unfolding validate_write_policy
validate_write_policy_iff r current p = elim (Bool-cases (ltb max_wire_revision r)) [
  | inl over ↦ ground arith
  | inr fits ↦ ground (arith, match_policy_iff r current p (ground arith))
]
