-- ===== src/Examples/Topologies.antt =====
-- The first topology of a household, and the same one sent again (apps/api/src).
use safeory.Base.{
  ℕ, ◌≡◌, ok, true, false, refl, none, some, [], if◌then◌else◌, nat_eq, list_eq, ◌==◌, find, any,
  all, contains, lookup, filter, same_set, arith,
}
use safeory.Sync.Types.{HouseholdTopologyV1, TopologyAction}
use safeory.Sync.Scope.{household}
use safeory.Sync.Equality.{topology_beq}
use safeory.Sync.Authorize.{
  authorizes_device_scope, device_authorized, scope_authorizes, find_account, membership_authorizes,
}
use safeory.Api.Tables.{AuthContext, Database, DeviceRow, acknowledged, row_to_topology}
use safeory.Sync.Scope.{space, ObjectClassV1}
use safeory.Sync.Protocol.{OpaqueObjectHeaderV1, WritePreconditionV1}
use safeory.Api.Policy.{WritePrecondition, validate_write_policy, match_policy}
use safeory.Api.Store.{
  Upload, check_scope, check_household, commit_object, commit_operation, commit_current,
  current_object, commit_result,
}
use safeory.Api.Tables.{CommitResult, find_row}
use safeory.Api.Store.Access.{MayWrite, commit_object-MayWrite}
use safeory.Api.Topologies.{
  put_household_topology, put_admitted, admit, manages, current_topology, topology_update_outcome,
  created, replayed, expected_devices, actual_accounts, actual_devices, same_devices,
  principal_sets_match, principals_known,
}
use safeory.Api.Topologies.Fence.{
  Installed, put_household_topology-Installed, put_household_topology_replayed,
}
use safeory.Examples.Sync.{home, home_valid, owner_may}

abbrev me : AuthContext
me = record { account_id = 1; device_id = 4 }

abbrev phone : DeviceRow
phone = record { account_id = 1; is_revoked = false }

-- One account with one device.
abbrev before : Database
before = record {
  cursors = λ a. if a == 1 then some 0 else none;
  objects = [];
  operations = λ _ _. none;
  topologies = λ _. none;
  devices = λ d. if d == 4 then some phone else none;
}

-- The household has its topology.
abbrev after : Database
after = record before {
  topologies = λ h. if h == 2 then some (record { revision = 0; topology = home }) else none;
}

abbrev json_len : HouseholdTopologyV1 → ℕ
json_len _ = 900

device_authorized-home : device_authorized home 1 4 (household 1 2) TopologyAction.manage ≡ true
unfolding device_authorized scope_authorizes find_account membership_authorizes find any contains
device_authorized-home = refl

home_managed : authorizes_device_scope home 1 4 (household 1 2) TopologyAction.manage ≡ ok true
unfolding authorizes_device_scope
home_managed = let d = device_authorized-home in ground (arith, home_valid)

home_created : (put_household_topology json_len before me home acknowledged).0 ≡ ok created
unfolding put_household_topology current_topology admit manages put_admitted principals_known
    principal_sets_match expected_devices actual_accounts actual_devices same_devices same_set
    contains any all filter lookup
home_created = ground (arith, home_valid, home_managed)

home_replayed : (put_household_topology json_len after me home acknowledged).0 ≡ ok replayed
unfolding put_household_topology current_topology row_to_topology admit manages put_admitted
    topology_update_outcome topology_beq
home_replayed = ground (arith, home_valid, home_managed)

put_household_topology-Installed_example :
    Installed before me home (put_household_topology json_len before me home acknowledged).1
put_household_topology-Installed_example =
    put_household_topology-Installed json_len before me home acknowledged created home_created
      (λ e. absurd (ground arith))

put_household_topology_replayed_example :
    ((put_household_topology json_len after me home acknowledged).1 ≡ after)
    × (current_topology after 2 ≡ ok (some home))
put_household_topology_replayed_example =
    put_household_topology_replayed json_len after me home acknowledged home_replayed

-- An item of the private space.
abbrev item : OpaqueObjectHeaderV1
item = record {
  format_version = 1;
  protocol_version = 1;
  object_id = 40;
  class = ObjectClassV1.item;
  scope = space 1 2 5;
  revision = 1;
  payload_version = 1;
  envelope_version = 1;
  ciphertext_size_bytes = 64;
  ciphertext_sha256 = 77;
  tombstone = false;
}

abbrev item_upload : Upload
item_upload = record {
  auth = me;
  mutation = record {
    format_version = 1;
    operation_id = 41;
    object = item;
    precondition = WritePreconditionV1.create_only;
  };
  precondition = WritePrecondition.create_only;
  ciphertext_size_bytes = 64;
  ciphertext_sha256 = 77;
  storage_key = "item";
  request_sha256 = 66;
}

abbrev item_stored : CommitResult
item_stored = record {
  object = record {
    object_id = 40;
    revision = 1;
    ciphertext_size_bytes = 64;
    ciphertext_sha256 = 77;
    change_seq = 1;
    storage_key = "item";
    header = item;
  };
  previous_storage_key = none;
  created = true;
  replayed = false;
}

space_writable : authorizes_device_scope home 1 4 (space 1 2 5) TopologyAction.write ≡ ok true
unfolding authorizes_device_scope
space_writable = let d = owner_may TopologyAction.write in ground (arith, home_valid)

space_checked : check_scope after me (space 1 2 5) ≡ ok tt
unfolding check_scope check_household row_to_topology
space_checked = ground (arith, home_valid, space_writable)

item_uploaded : (commit_object after item_upload acknowledged).0 ≡ ok item_stored
unfolding commit_object commit_operation commit_current current_object find_row find
    validate_write_policy match_policy commit_result
item_uploaded = ground (arith, space_checked)

commit_object-MayWrite_example : MayWrite after me (space 1 2 5)
commit_object-MayWrite_example =
    commit_object-MayWrite after item_upload acknowledged item_stored item_uploaded
