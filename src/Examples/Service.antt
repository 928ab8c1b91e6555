-- ===== src/Examples/Service.antt =====
-- A bootstrap is uploaded, sent again, and downloaded (apps/api/src/sync.rs).
use safeory.Base.{
  ℕ, suc, zero, ◌+◌, String, ◌≡◌, ◌⊎◌, refl, true, false, none, some, List, [], ◌∷◌, ok, err,
  nat_eq, option_eq, string_eq, contains, any, in→contains, find, In, arith,
}
use safeory.Sync.Types.{TopologyAction}
use safeory.Sync.Checks.{is_nil}
use safeory.Sync.Scope.{non_nil, validate_scope, is_account_bootstrap}
use safeory.Sync.Protocol.{
  validate_upload_binding, validate_mutation, validate_precondition, validate_header, safe_integer,
  is_bootstrap_shape, violates_class_contract,
}
use safeory.Api.Policy.{validate_write_policy, match_policy, read_precondition, version}
use safeory.Api.Tables.{
  CommitError, parse_header, acknowledged, applied_unseen, find_row, row_to_object,
  row_to_operation,
}
use safeory.Api.Store.{
  new_row, new_operation, commit_object, commit_operation, commit_current, current_object,
  check_scope, write_rows, commit_result, replay,
}
use safeory.Api.Service.{
  Body, PutRequest, admit, admit_put, check_version, scope_authorized, read_operation, read_object,
}
use safeory.Api.Service.Server.{
  Server, Outcomes, put_done, put_object, get_object, after_admission, after_put, commit_put,
  finish_put, clean_up, reconcile, check_download, best_effort_delete,
}
use safeory.Api.Service.Content.{IsServer, content}
use safeory.Api.Service.Runs.{Put, Follows, keys_after, run_puts, run_puts-Follows}
use safeory.Api.Service.Downloads.{download_of, get_object-IsServer}
use safeory.Api.Service.Roundtrip.{put_object-get_object}
use safeory.Api.Service.Sources.{Sent, run_puts_download}
use safeory.Examples.Api.{mutation, first_upload, fresh, fresh_IsStore, stored, uploaded}

-- A hash function: the sum of the bytes.
abbrev checksum : Body → ℕ
checksum [] = 0
checksum (b ∷ body) = b + checksum body

abbrev zeros : ℕ → Body
zeros zero = []
zeros (suc n) = 0 ∷ zeros n

-- 512 bytes with the checksum 99.
abbrev payload : Body
payload = 99 ∷ zeros 511

abbrev empty : Server
empty = record { db = fresh; blobs = λ _. none }

empty-IsServer : IsServer checksum empty []
unfolding find_row find
empty-IsServer = record {
  store = fresh_IsStore;
  intact = λ a o row h. absurd (ground arith);
  keyed = λ a o row h. absurd (ground arith);
  apart = λ a o a' o' row row' h h' e. absurd (ground arith);
}

abbrev request : PutRequest
request = record {
  auth = record { account_id = 7; device_id = 4 };
  object_id = 7;
  body = payload;
  mutation = mutation;
  request_sha256 = 55;
  storage_key = "blob";
}

abbrev smooth : Outcomes
smooth = record { put = put_done; ack = acknowledged; reconciled = true; deleted = true }

admitted : admit_put checksum fresh request ≡ admit first_upload
unfolding admit_put validate_upload_binding validate_mutation validate_precondition validate_header
    validate_scope non_nil is_nil safe_integer violates_class_contract is_bootstrap_shape
    is_account_bootstrap scope_authorized read_operation check_version read_precondition read_object
    current_object find_row find validate_write_policy match_policy
admitted = refl

not_used : ¬ In {A = String} "blob" []
not_used h = elim h [ ]

put_object-get_object_example :
    get_object checksum true (put_object checksum fresh empty request smooth).1 request.auth 7
    ≡ ok (record {
      body = payload;
      etag = record { revision = 4; ciphertext_sha256 = checksum payload };
      change_seq = stored.object.change_seq;
    })
put_object-get_object_example =
    put_object-get_object checksum fresh empty [] request smooth first_upload stored empty-IsServer
      not_used admitted refl uploaded refl

-- The same request again, after a commit that was not seen, with a new storage key.
abbrev puts : List Put
puts =
    record {
      seen = fresh;
      request = request;
      outcomes = record { put = put_done; ack = applied_unseen; reconciled = true; deleted = true };
    }
    ∷ record {
      seen = fresh;
      request = record request { storage_key = "second" };
      outcomes = smooth;
    }
    ∷ []

not_listed : contains {A = String} ("blob" ∷ []) "second" ≡ false
unfolding contains any
not_listed = refl

second_not_used : ¬ In {A = String} "second" ("blob" ∷ [])
second_not_used h =
    let e : contains {A = String} ("blob" ∷ []) "second" ≡ true = in→contains h in
    ground (arith, e, not_listed)

run_puts-Follows_example :
    IsServer checksum (run_puts checksum puts empty) (keys_after [] puts)
    × Follows puts (content empty) (content (run_puts checksum puts empty))
run_puts-Follows_example =
    run_puts-Follows checksum puts empty [] empty-IsServer (not_used, (second_not_used, tt))

puts-IsServer : IsServer checksum (run_puts checksum puts empty) (keys_after [] puts)
puts-IsServer =
    (run_puts-Follows checksum puts empty [] empty-IsServer (not_used, (second_not_used, tt))).0

-- The second body is deleted again.
stored_row :
    find_row 7 7 (run_puts checksum puts empty).db.objects ≡ some (new_row first_upload 4 4)
unfolding run_puts put_object admit_put validate_upload_binding validate_mutation
    validate_precondition validate_header validate_scope non_nil is_nil safe_integer
    violates_class_contract is_bootstrap_shape is_account_bootstrap scope_authorized read_operation
    check_version read_precondition read_object current_object find_row find validate_write_policy
    match_policy after_admission after_put commit_put finish_put clean_up reconcile commit_object
    commit_operation commit_current check_scope write_rows commit_result new_row new_operation
    row_to_operation row_to_object parse_header replay best_effort_delete
stored_row = refl

bootstrap_readable :
    scope_authorized
      (run_puts checksum puts empty).db
      request.auth
      (new_row first_upload 4 4).header.scope
      TopologyAction.read
    ≡ ok true
unfolding scope_authorized new_row
bootstrap_readable = refl

get_object-IsServer_example :
    (body : Body) × (content (run_puts checksum puts empty) 7 7 ≡ some body)
    × (get_object checksum true (run_puts checksum puts empty) request.auth 7
        ≡ ok (download_of (new_row first_upload 4 4) body))
get_object-IsServer_example =
    get_object-IsServer checksum (run_puts checksum puts empty) (keys_after [] puts) request.auth 7
      (new_row first_upload 4 4) puts-IsServer stored_row bootstrap_readable

-- A stored header that is not valid does not read back.
invalid_header :
    row_to_object (record (new_row first_upload 4 4) {
      header = record mutation.object { payload_version = 2 };
    })
    ≡ err CommitError.store
unfolding row_to_object parse_header new_row validate_header validate_scope non_nil is_nil
    safe_integer violates_class_contract is_bootstrap_shape is_account_bootstrap
invalid_header = refl

downloaded :
    get_object checksum true (run_puts checksum puts empty) request.auth 7
    ≡ ok (download_of (new_row first_upload 4 4) payload)
unfolding run_puts put_object admit_put validate_upload_binding validate_mutation
    validate_precondition validate_header validate_scope non_nil is_nil safe_integer
    violates_class_contract is_bootstrap_shape is_account_bootstrap scope_authorized read_operation
    check_version read_precondition read_object current_object find_row find validate_write_policy
    match_policy after_admission after_put commit_put finish_put clean_up reconcile commit_object
    commit_operation commit_current check_scope write_rows commit_result new_row new_operation
    row_to_operation row_to_object parse_header replay best_effort_delete get_object check_download
    version
downloaded = refl

run_puts_download_example :
    (content empty 7 7 ≡ some (download_of (new_row first_upload 4 4) payload).body)
    ⊎ Sent puts 7 7 (download_of (new_row first_upload 4 4) payload).body
run_puts_download_example =
    run_puts_download checksum puts empty [] true request.auth 7
      (download_of (new_row first_upload 4 4) payload) empty-IsServer
      (not_used, (second_not_used, tt)) downloaded
