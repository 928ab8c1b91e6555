-- ===== src/Api/Topologies/Fence.antt =====
-- Which topologies a household may get, and after which (apps/api/src/store.rs).
use safeory.Base.{
  ℕ, ◌+◌, ◌≡◌, ◌≢◌, inl, inr, refl, sym, subst, ◌∙◌, ap, true, Option, none, some, List, [], ◌∷◌,
  ok, nat_eq, option_eq, Result-cases, arith, checked_add,
}
use safeory.Sync.Types.{Uuid, AccountV1, HouseholdTopologyV1, TopologyAction}
use safeory.Sync.Equality.{topology_beq_iff}
use safeory.Sync.Scope.{household}
use safeory.Sync.Topology.{validate}
use safeory.Sync.Topology.Spec.{IsValid}
use safeory.Sync.Topology.Exact.{validate_iff}
use safeory.Sync.Authorize.{authorizes_device_scope}
use safeory.Api.Tables.{AuthContext, Ack, acknowledged, applied_unseen, dropped_unseen, Database}
use safeory.Api.Topologies.Principals.{IsKnown, principals_known-IsKnown}
use safeory.Api.Topologies.{
  TopologyWriteOutcome, created, updated, replayed, topology_update_outcome, current_topology,
  manages, is_only_account, admit, principals_known, write_topology, put_admitted,
  put_household_topology,
}

-- The device manages the household under `t`.
abbrev pub Manages : AuthContext → HouseholdTopologyV1 → Type 0
Manages auth t =
    authorizes_device_scope t auth.account_id auth.device_id
      (household auth.account_id t.household.household_id) TopologyAction.manage
    ≡ ok true

-- `t` may follow what the household has.
abbrev pub Follows : AuthContext → Option HouseholdTopologyV1 → HouseholdTopologyV1 → Type 0
Follows auth none t =
    ((a : AccountV1) × (t.accounts ≡ a ∷ []) × (a.account_id ≡ auth.account_id))
    × (t.household.revision ≡ 0)
    × Manages auth t
Follows auth (some current) t =
    (t.household.revision ≡ current.household.revision + 1) × Manages auth current

manages-Manages :
    (auth : AuthContext) (t : HouseholdTopologyV1) → manages auth t ≡ ok true → Manages auth t
unfolding manages
manages-Manages auth t h = ground arith

only_account :
    (id : Uuid) (accounts : List AccountV1)
    → is_only_account id accounts ≡ true
    → (a : AccountV1) × (accounts ≡ a ∷ []) × (a.account_id ≡ id)
only_account id [] h = absurd (ground arith)
only_account id (a ∷ []) h = (a, refl, ground arith)
only_account id (a ∷ b ∷ accounts) h = absurd (ground arith)

admit-Follows :
    (auth : AuthContext) (current : Option HouseholdTopologyV1) (t : HouseholdTopologyV1)
    (o : TopologyWriteOutcome)
    → admit auth current t ≡ ok o
    → o ≢ replayed
    → Follows auth current t
unfolding admit topology_update_outcome checked_add
admit-Follows auth none t o h n = (
  only_account auth.account_id t.accounts (ground arith),
  ground arith,
  manages-Manages auth t (ground arith),
)
admit-Follows auth (some c) t o h n = (ground arith, manages-Manages auth c (ground arith))

admit_replayed :
    (auth : AuthContext) (current : Option HouseholdTopologyV1) (t : HouseholdTopologyV1)
    → admit auth current t ≡ ok replayed
    → (current ≡ some t) × Manages auth t
unfolding admit topology_update_outcome
admit_replayed auth none t h = absurd (ground arith)
admit_replayed auth (some c) t h =
    let m = manages-Manages auth c (ground arith) in
    let q : t ≡ c = (topology_beq_iff t c).0 (ground arith) in
    (ap some (sym q), subst (Manages auth) (sym q) m)

-- A call that answers got through every check.
record Passed (db : Database) (auth : AuthContext) (t : HouseholdTopologyV1)
    (o : TopologyWriteOutcome) : Type 0 where
  valid : validate t ≡ ok tt
  current : Option HouseholdTopologyV1
  read : current_topology db t.household.household_id ≡ ok current
  admitted : admit auth current t ≡ ok o

module _ (json_len : HouseholdTopologyV1 → ℕ) (db : Database) (auth : AuthContext)
    (t : HouseholdTopologyV1) (ack : Ack) where
  put_cases :
      (o : TopologyWriteOutcome)
      → (put_household_topology json_len db auth t ack).0 ≡ ok o
      → (p : TopologyWriteOutcome) × Passed db auth t p
        × (put_household_topology json_len db auth t ack ≡ put_admitted db t ack p)
  unfolding put_household_topology
  put_cases o h = elim (Result-cases (validate t)) [
    | inr (e, v) ↦ absurd (ground arith)
    | inl (_, v) ↦ elim (Result-cases (current_topology db t.household.household_id)) [
      | inr (e, c) ↦ absurd (ground arith)
      | inl (current, c) ↦ elim (Result-cases (admit auth current t)) [
        | inr (e, a) ↦ absurd (ground arith)
        | inl (p, a) ↦
            (p, record { valid = v; current = current; read = c; admitted = a }, ground arith)
      ]
    ]
  ]

unseen :
    (db : Database) (t : HouseholdTopologyV1) (ack : Ack) (p o : TopologyWriteOutcome)
    → ack ≢ acknowledged
    → (put_admitted db t ack p).0 ≢ ok o
unfolding put_admitted
unseen db t acknowledged p o n h = n refl
unseen db t applied_unseen created o n h = ground arith
unseen db t applied_unseen updated o n h = ground arith
unseen db t applied_unseen replayed o n h = ground arith
unseen db t dropped_unseen created o n h = ground arith
unseen db t dropped_unseen updated o n h = ground arith
unseen db t dropped_unseen replayed o n h = ground arith

put_admitted_replays :
    (db : Database) (t : HouseholdTopologyV1) (ack : Ack) (p : TopologyWriteOutcome)
    → (put_admitted db t ack p).0 ≡ ok replayed
    → (p ≡ replayed) × ((put_admitted db t ack p).1 ≡ db)
unfolding put_admitted
put_admitted_replays db t acknowledged created h = absurd (ground arith)
put_admitted_replays db t acknowledged updated h = absurd (ground arith)
put_admitted_replays db t acknowledged replayed h = (refl, refl)
put_admitted_replays db t applied_unseen p h =
    absurd (unseen db t applied_unseen p replayed (λ e. absurd (ground arith)) h)
put_admitted_replays db t dropped_unseen p h =
    absurd (unseen db t dropped_unseen p replayed (λ e. absurd (ground arith)) h)

-- What an answer that is no replay leaves: a valid topology that may follow the one before, whose
-- accounts and devices were known, and nothing else changed.
pub record Installed (db : Database) (auth : AuthContext) (t : HouseholdTopologyV1) (db' : Database)
    : Type 0 where
  pub valid : IsValid t
  pub before : Option HouseholdTopologyV1
  pub read : current_topology db t.household.household_id ≡ ok before
  pub follows : Follows auth before t
  pub known : IsKnown db t
  pub stored :
      db'.topologies t.household.household_id
      ≡ some (record { revision = t.household.revision; topology = t })
  pub other : (h : Uuid) → h ≢ t.household.household_id → db'.topologies h ≡ db.topologies h
  pub objects : (db'.objects ≡ db.objects)

put_admitted_installs :
    (db : Database) (t : HouseholdTopologyV1) (ack : Ack) (p o : TopologyWriteOutcome)
    → (put_admitted db t ack p).0 ≡ ok o
    → o ≢ replayed
    → (p ≢ replayed)
      × (principals_known db t ≡ true)
      × ((put_admitted db t ack p).1 ≡ write_topology db t)
unfolding put_admitted
put_admitted_installs db t acknowledged created o h n = ground arith
put_admitted_installs db t acknowledged updated o h n = ground arith
put_admitted_installs db t acknowledged replayed o h n = absurd (ground arith)
put_admitted_installs db t applied_unseen p o h n =
    absurd (unseen db t applied_unseen p o (λ e. absurd (ground arith)) h)
put_admitted_installs db t dropped_unseen p o h n =
    absurd (unseen db t dropped_unseen p o (λ e. absurd (ground arith)) h)

module _ (json_len : HouseholdTopologyV1 → ℕ) (db : Database) (auth : AuthContext)
    (t : HouseholdTopologyV1) (ack : Ack) where
  -- A topology write that is no replay stores a valid topology whose accounts are known and whose
  -- devices are active for their accounts. The first one of a household has revision 0 and the
  -- writer's account alone; a later one counts one more revision, and the writer's device managed
  -- the household before it. The other households and all objects stay.
  pub put_household_topology-Installed :
      (o : TopologyWriteOutcome)
      → (put_household_topology json_len db auth t ack).0 ≡ ok o
      → o ≢ replayed
      → Installed db auth t (put_household_topology json_len db auth t ack).1
  unfolding write_topology
  put_household_topology-Installed o h n =
      let (p, a, q) = put_cases json_len db auth t ack o h in
      let (m, k, w) = put_admitted_installs db t ack p o (sym (ap (λ r. r.0) q) ∙ h) n in
      subst (Installed db auth t) (sym (ap (λ r. r.1) q ∙ w)) (record {
        valid = (validate_iff t).0 a.valid;
        before = a.current;
        read = a.read;
        follows = admit-Follows auth a.current t p a.admitted m;
        known = principals_known-IsKnown db t k;
        stored = ground arith;
        other = λ x y. ground arith;
        objects = refl;
      })

  -- A replayed topology write changes nothing, and answers for a topology that the household
  -- already has.
  pub put_household_topology_replayed :
      (put_household_topology json_len db auth t ack).0 ≡ ok replayed
      → ((put_household_topology json_len db auth t ack).1 ≡ db)
        × (current_topology db t.household.household_id ≡ ok (some t))
  put_household_topology_replayed h =
      let (p, a, q) = put_cases json_len db auth t ack replayed h in
      let (e, w) = put_admitted_replays db t ack p (sym (ap (λ r. r.0) q) ∙ h) in
      let (c, _) = admit_replayed auth a.current t (rw (← e) a.admitted) in
      (ap (λ r. r.1) q ∙ w, a.read ∙ ap ok c)
