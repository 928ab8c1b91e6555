-- ===== src/Lib.antt =====
-- Safeory: a household vault. The server and the clients share a contract on who belongs to a
-- household and which device may touch which encrypted object (crates/vault-sync); the owner
-- writes access policies for trusted people (crates/vault-models); and a local engine decides and
-- times the release of what the policies promise (crates/vault-emergency). The server (apps/api)
-- keeps the encrypted objects under revisions and change numbers, and knows which devices of an
-- account may speak for it.
--
-- Parts and files:
-- - Sync/Types, Sync/Checks, Sync/Records: the records, enums and errors of
--   crates/vault-sync/src/lib.rs and the validators of single records.
-- - Sync/Topology: `HouseholdTopologyV1::validate`, one function per loop. The map of devices is
--   an association list, hash sets are lists that are compared as sets. Topology/Spec says what a
--   valid topology is without any loop; Topology/Exact relates the two.
-- - Sync/Authorize: `authorizes_device_scope`, which starts with `validate`; Authorize/Spec says
--   by membership who may act.
-- - Sync/Migration: `SingleOwnerMigrationV1::new` and `validate`; the random identifiers are an
--   argument.
-- - Sync/Scope, Sync/Compatibility, Sync/Protocol: crates/vault-sync/src/sync_protocol.rs. A
--   header names a scope of the topology; a mutation carries a header and a precondition.
-- - Models/Policy: grants and policies of crates/vault-models/src/lib.rs. The trust engine asks
--   `validate_access_policy` before it decides or starts a release.
-- - Models/Identity: the emergency card of crates/vault-models/src/lib.rs with the principals and
--   devices that the owner trusts. Identity/Card is `validate_emergency_card`; Identity/Continuity
--   is what an update must keep, the retirements that it carries forward, and the stored card,
--   which `VaultSession::set_emergency_card` of crates/vault-core/src/lib.rs replaces.
-- - Models/Reminders: dates and day numbers of crates/vault-models/src/reminders.rs.
-- - Emergency/Access: `evaluate`. Emergency/Release: `ReleaseRequest`, its calls and
--   `begin_release_request`; a call on `&mut self` is a function from the request to the result
--   and the request as the call leaves it, on an error too. Release/Steps runs sequences of calls,
--   Release/Transitions gives them as a relation, from which the invariant and the history follow.
-- - Api/Policy: the write policy of apps/api/src/model.rs. Api/Tables: the tables of
--   apps/api/migrations, a list of object rows and functions from keys, and how
--   apps/api/src/store.rs reads a row, with the validation of its stored header. Api/Store:
--   `commit_object` of that file; a transaction is one step, rolled back on an error, and what the
--   server learns of `COMMIT` is an argument. A device writes a household's object when
--   Sync/Authorize admits it under the stored topology. Store/Rows looks rows up, Store/Writes
--   lists the ways through the call, Store/Uploads runs sequences of calls.
-- - Api/Listing: `list_objects`; its `ORDER BY` is an insertion sort, its `LIMIT` the front of the
--   list.
-- - Api/Topologies: `put_household_topology`. Sync/Topology validates what is sent, Sync/Authorize
--   admits the writer under the topology that stands, Sync/Equality recognises a replay, and the
--   accounts and devices that it names are looked up. The length of its JSON text, which serde
--   writes, is an argument.
-- - Api/Devices: the accounts, devices and enrollments of apps/api/src/store.rs. Devices/Create,
--   Devices/Enroll and Devices/Revoke are the calls; Devices/Changes gives them as a relation, and
--   Devices/History and Devices/Live run sequences of calls.
-- - Api/Auth: apps/api/src/auth.rs, which makes and reads device tokens, and the registration
--   secret of apps/api/src/sync.rs.
-- - Api/Service: `put_object`, `get_object` and `get_object_metadata` of apps/api/src/sync.rs, on
--   a server that is its tables and a map from storage keys to bodies. The checks before the
--   upload read tables that may be older than those of the commit. Service/Server has the
--   handlers; Service/Runs runs sequences of uploads against a plain map from objects to bodies.
--   Another request does not come between a commit, its reconciliation and its deletions.
-- - Base: equality tests, lists, tables of rows, sets, bytes, hexadecimal text, integers, machine
--   words and results.
-- - Examples: the theorems at concrete inputs.
--
-- Conventions: a UUID and a SHA-256 value are the numbers that they spell, the nil UUID is 0. A
-- `BTreeSet<Uuid>` is a strictly ascending list. `u64` arithmetic is `checked_add` as in the code,
-- with its bound written out; a value of `u8` needs no bound where the code only compares it. An
-- i64 is an integer ℤ over ℕ, cut to an i32 where the code casts. A byte string is a list of
-- numbers, a key or a token text that is not looked into a number. A time of the database is a
-- number of microseconds, and `now()` of a transaction is an argument of its call. SHA-256, the
-- random source (a new storage key is one that has not been used) and the checks of the curve
-- crates are parameters. No function runs on fuel: every loop is structural recursion on a list.
--
-- Not modelled: serialization (serde), encryption and secret sharing (crates/vault-crypto,
-- crates/vault-sharing, the threshold library), local storage, the browser bindings, the items of
-- the vault with their deadlines and the pairing of devices, the server's reading of HTTP headers
-- and of JSON texts, its signed requests to the object storage, its handlers of devices,
-- topologies and listings, and the user interfaces.

pub mod Api
pub mod Base
pub mod Sync
pub mod Models
pub mod Emergency
pub mod Examples
