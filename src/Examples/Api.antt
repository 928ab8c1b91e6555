-- ===== src/Examples/Api.antt =====
-- The first upload of an account's bootstrap, and its retry after a commit whose outcome the
-- server did not see (apps/api/src).
use safeory.Base.{
  List, ◌∷◌, ◌≡◌, ◌↔◌, ◌≤◌, ok, err, true, false, refl, none, some, [], if◌then◌else◌, nat_eq, ◌==◌,
  find, arith,
}
use safeory.Sync.Checks.{is_nil}
use safeory.Sync.Scope.{non_nil, validate_scope, is_account_bootstrap}
use safeory.Sync.Protocol.{
  OpaqueMutationV1, WritePreconditionV1, validate_upload_binding, validate_mutation,
  validate_precondition, validate_header, safe_integer, is_bootstrap_shape, violates_class_contract,
}
use safeory.Api.Policy.{
  WritePrecondition, matching, Permits, max_wire_revision, validate_write_policy,
  validate_write_policy_iff, match_policy,
}
use safeory.Api.Store.{
  Upload, commit_object, commit_operation, commit_current, current_object, check_scope, write_rows,
  commit_result,
}
use safeory.Api.Tables.{
  Database, acknowledged, applied_unseen, CommitResult, precondition_failed, find_row,
}
use safeory.Api.Store.{new_row}
use safeory.Api.Tables.{Ack, ObjectRow}
use safeory.Api.Store.Uploads.{run_uploads, run_uploads-IsStore, run_uploads_monotone}
use safeory.Api.Listing.{page}
use safeory.Api.Listing.Page.{IsPage, page-IsPage}
use safeory.Api.Store.Commit.{commit_object_err}
use safeory.Api.Store.Outcome.{Recorded, commit_object-Recorded}
use safeory.Api.Store.Retry.{as_replay, commit_object_retried}
use safeory.Api.Store.Invariant.{IsStore, commit_object-IsStore}
use safeory.Examples.Protocol.{bootstrap}

abbrev pub mutation : OpaqueMutationV1
mutation = record {
  format_version = 1;
  operation_id = 30;
  object = bootstrap;
  precondition = WritePreconditionV1.create_only;
}

abbrev pub first_upload : Upload
first_upload = record {
  auth = record { account_id = 7; device_id = 4 };
  mutation = mutation;
  precondition = WritePrecondition.create_only;
  ciphertext_size_bytes = 512;
  ciphertext_sha256 = 99;
  storage_key = "blob";
  request_sha256 = 55;
}

-- Two accounts and no object.
abbrev pub fresh : Database
fresh = record {
  cursors = λ a. if a == 7 then some 3 else if a == 8 then some 0 else none;
  objects = [];
  operations = λ _ _. none;
  topologies = λ _. none;
  devices = λ _. none;
}

bound : validate_upload_binding mutation 7 7 512 99 ≡ ok tt
unfolding validate_upload_binding validate_mutation validate_precondition validate_header
    validate_scope non_nil is_nil safe_integer violates_class_contract is_bootstrap_shape
    is_account_bootstrap
bound = refl

pub fresh_IsStore : IsStore fresh
unfolding find_row find
fresh_IsStore = record {
  readable = λ a o row h. absurd (ground arith);
  counted = λ a o row h. absurd (ground arith);
  remembered = λ a p row h. absurd (ground arith);
  one_object = λ a o o' row row' h h' e. absurd (ground arith);
}

abbrev pub stored : CommitResult
stored = record {
  object = record {
    object_id = 7;
    revision = 4;
    ciphertext_size_bytes = 512;
    ciphertext_sha256 = 99;
    change_seq = 4;
    storage_key = "blob";
    header = bootstrap;
  };
  previous_storage_key = none;
  created = true;
  replayed = false;
}

pub uploaded : (commit_object fresh first_upload acknowledged).0 ≡ ok stored
unfolding commit_object commit_operation commit_current current_object check_scope find_row find
    validate_write_policy match_policy write_rows commit_result
uploaded = refl

commit_object-Recorded_example :
    Recorded fresh first_upload stored (commit_object fresh first_upload acknowledged).1
commit_object-Recorded_example =
    commit_object-Recorded fresh first_upload acknowledged stored uploaded refl

commit_object_retried_example :
    commit_object (commit_object fresh first_upload applied_unseen).1 first_upload acknowledged
    ≡ (ok (as_replay stored), (commit_object fresh first_upload applied_unseen).1)
commit_object_retried_example =
    commit_object_retried fresh first_upload stored applied_unseen acknowledged bound uploaded refl
      (λ e. absurd (ground arith))

commit_object-IsStore_example : IsStore (commit_object fresh first_upload applied_unseen).1
commit_object-IsStore_example =
    commit_object-IsStore fresh first_upload applied_unseen bound fresh_IsStore

-- An upload that wants to replace an object that is not there.
abbrev late_upload : Upload
late_upload = record first_upload {
  precondition = matching (record { revision = 3; ciphertext_sha256 = 98 });
}

late_refused : (commit_object fresh late_upload acknowledged).0 ≡ err precondition_failed
unfolding commit_object commit_operation commit_current current_object check_scope find_row find
    validate_write_policy match_policy
late_refused = refl

commit_object_err_example : (commit_object fresh late_upload acknowledged).1 ≡ fresh
commit_object_err_example =
    commit_object_err fresh late_upload acknowledged precondition_failed late_refused
      (λ e. absurd (ground arith))

validate_write_policy_iff_example :
    (validate_write_policy
        (some stored.object)
        5
        (matching (record { revision = 4; ciphertext_sha256 = 99 }))
      ≡ ok tt)
    ↔ ((5 ≤ max_wire_revision)
        × Permits 5
            (some stored.object)
            (matching (record { revision = 4; ciphertext_sha256 = 99 })))
validate_write_policy_iff_example =
    validate_write_policy_iff 5 (some stored.object)
      (matching (record { revision = 4; ciphertext_sha256 = 99 }))

-- The second upload replaces the first.
abbrev second_upload : Upload
second_upload = record first_upload {
  mutation = record mutation {
    operation_id = 31;
    object = record bootstrap { revision = 5; ciphertext_sha256 = 100 };
    precondition = WritePreconditionV1.matching 4 99;
  };
  precondition = matching (record { revision = 4; ciphertext_sha256 = 99 });
  ciphertext_sha256 = 100;
}

abbrev uploads : List (Upload × Ack)
uploads =
    (first_upload, applied_unseen)
    ∷ (first_upload, acknowledged)
    ∷ (second_upload, acknowledged)
    ∷ []

second_bound : validate_upload_binding second_upload.mutation 7 7 512 100 ≡ ok tt
unfolding validate_upload_binding validate_mutation validate_precondition validate_header
    validate_scope non_nil is_nil safe_integer violates_class_contract is_bootstrap_shape
    is_account_bootstrap
second_bound = refl

run_uploads-IsStore_example : IsStore (run_uploads uploads fresh)
run_uploads-IsStore_example =
    run_uploads-IsStore uploads fresh (bound, (bound, (second_bound, tt))) fresh_IsStore

abbrev holding : Database
holding = record fresh { objects = new_row first_upload 4 3 ∷ [] }

first_held : find_row 7 7 holding.objects ≡ some (new_row first_upload 4 3)
unfolding find_row find new_row
first_held = refl

run_uploads_monotone_example :
    (later : ObjectRow) × (find_row 7 7 (run_uploads uploads holding).objects ≡ some later)
    × ((new_row first_upload 4 3).revision ≤ later.revision)
run_uploads_monotone_example =
    run_uploads_monotone uploads holding 7 7 (new_row first_upload 4 3) first_held

page-IsPage_example : IsPage holding 7 2 10 (page holding 7 2 10)
page-IsPage_example = page-IsPage holding 7 2 10
