-- ===== src/Sync/Authorize/Consequences.antt =====
-- What follows for the people of a household (`authorizes_device_scope`,
-- crates/vault-sync/src/lib.rs).
use safeory.Base.{
  ◌≡◌, ◌≢◌, inl, inr, sym, ◌∙◌, ap, In, nat_eq, pair_eq, key-injective, ok, true, false, Bool-cases,
  arith,
}
use safeory.Sync.Types.{
  Uuid, MembershipV1, SpaceMemberV1, SpaceV1, HouseholdTopologyV1, TopologyAction, SpaceAccess,
  active, private,
}
use safeory.Sync.Scope.{ObjectScopeV1, account, household, space}
use safeory.Sync.Topology.{validate}
use safeory.Sync.Topology.Spec.{IsValid, Entitles}
use safeory.Sync.Authorize.{authorizes_device_scope, device_authorized}
use safeory.Sync.Authorize.Spec.{RoleAllows, AccessAllows, MayInSpace, MayInScope, May, Organizes}
use safeory.Sync.Authorize.Exact.{authorizes_device_scope_iff}

-- `weaker` asks for no more than `stronger`.
abbrev pub Weaker : TopologyAction → TopologyAction → Type 0
Weaker TopologyAction.read stronger = Unit
Weaker TopologyAction.write TopologyAction.read = ⊥
Weaker TopologyAction.write TopologyAction.write = Unit
Weaker TopologyAction.write TopologyAction.manage = Unit
Weaker TopologyAction.manage TopologyAction.read = ⊥
Weaker TopologyAction.manage TopologyAction.write = ⊥
Weaker TopologyAction.manage TopologyAction.manage = Unit

role-Weaker :
    (w s : TopologyAction) (m : MembershipV1)
    → Weaker w s
    → RoleAllows s m.role
    → RoleAllows w m.role
role-Weaker TopologyAction.read TopologyAction.read m h r = r
role-Weaker TopologyAction.read TopologyAction.write m h r = ground arith
role-Weaker TopologyAction.read TopologyAction.manage m h r = ground arith
role-Weaker TopologyAction.write TopologyAction.read m h r = absurd h
role-Weaker TopologyAction.write TopologyAction.write m h r = r
role-Weaker TopologyAction.write TopologyAction.manage m h r = r
role-Weaker TopologyAction.manage TopologyAction.read m h r = absurd h
role-Weaker TopologyAction.manage TopologyAction.write m h r = absurd h
role-Weaker TopologyAction.manage TopologyAction.manage m h r = r

access-Weaker :
    (w s : TopologyAction) (e : SpaceAccess) → Weaker w s → AccessAllows s e → AccessAllows w e
access-Weaker TopologyAction.read s e h r = tt
access-Weaker TopologyAction.write TopologyAction.read e h r = absurd h
access-Weaker TopologyAction.write TopologyAction.write e h r = r
access-Weaker TopologyAction.write TopologyAction.manage e h r = inr r
access-Weaker TopologyAction.manage TopologyAction.read e h r = absurd h
access-Weaker TopologyAction.manage TopologyAction.write e h r = absurd h
access-Weaker TopologyAction.manage TopologyAction.manage e h r = r

scope-Weaker :
    (t : HouseholdTopologyV1) (a d : Uuid) (scope : ObjectScopeV1) (w s : TopologyAction)
    → Weaker w s
    → MayInScope t a d scope s
    → MayInScope t a d scope w
scope-Weaker t a d (account b) w s h e = e
scope-Weaker t a d (household b hid) w s h (p, q, (m, e)) = (
  p,
  q,
  (
    m,
    record {
      listed = e.listed;
      is_account = e.is_account;
      is_active = e.is_active;
      allowed = role-Weaker w s m h e.allowed;
    },
  ),
)
scope-Weaker t a d (space b hid sid) w s h (p, q, (x, m, e)) = (
  p,
  q,
  (
    x,
    m,
    record {
      listed = e.listed;
      is_space = e.is_space;
      is_device = e.is_device;
      membership = e.membership;
      named = e.named;
      is_account = e.is_account;
      is_active = e.is_active;
      allowed = access-Weaker w s x.access h e.allowed;
    },
  ),
)

-- A device that may do an action may do every weaker one: who manages may write, and who writes
-- may read.
pub authorizes-Weaker :
    (t : HouseholdTopologyV1) (a d : Uuid) (scope : ObjectScopeV1) (w s : TopologyAction)
    → Weaker w s
    → authorizes_device_scope t a d scope s ≡ ok true
    → authorizes_device_scope t a d scope w ≡ ok true
authorizes-Weaker t a d scope w s h e =
    let (v, (owns, may)) = (authorizes_device_scope_iff t a d scope s).0 e in
    (authorizes_device_scope_iff t a d scope w).1 (v, (owns, scope-Weaker t a d scope w s h may))

-- The membership behind an authorized space member is the one that entitles it.
entitled :
    (t : HouseholdTopologyV1) (a d sid : Uuid) (action : TopologyAction) (s : SpaceMemberV1)
    (m : MembershipV1)
    → IsValid t
    → MayInSpace t a d sid action s m
    → Entitles t m s
entitled t a d sid action s m v e =
    let (_, (n, en), _) = v.space_member s e.listed in
    let same =
      key-injective (λ (x : MembershipV1). x.membership_id) t.memberships v.collected.membership_ids
        en.listed e.membership (en.named ∙ sym e.named) in
    rw same at en

-- Two devices that may read a private space belong to one account.
pub private_space_one_account :
    (t : HouseholdTopologyV1) (sp : SpaceV1) (a b d e scope_a scope_b hid hid' : Uuid)
    → In sp t.spaces
    → sp.kind ≡ private
    → authorizes_device_scope t a d (space scope_a hid sp.space_id) TopologyAction.read ≡ ok true
    → authorizes_device_scope t b e (space scope_b hid' sp.space_id) TopologyAction.read ≡ ok true
    → a ≡ b
private_space_one_account t sp a b d e scope_a scope_b hid hid' i k ha hb =
    let (v, (_, (_, _, (s, m, x)))) =
      (authorizes_device_scope_iff t a d (space scope_a hid sp.space_id) TopologyAction.read).0
        ha in
    let (_, (_, (_, _, (s', m', y)))) =
      (authorizes_device_scope_iff t b e (space scope_b hid' sp.space_id) TopologyAction.read).0
        hb in
    let (id, only) = v.private_space sp i k in
    let same =
      key-injective (λ (z : MembershipV1). z.membership_id) t.memberships v.collected.membership_ids
        x.membership y.membership
        (x.named
          ∙ only.only s x.listed x.is_space
          ∙ sym (y.named ∙ only.only s' y.listed y.is_space)) in
    sym x.is_account ∙ ap (λ (z : MembershipV1). z.account_id) same ∙ y.is_account

-- A device that is authorized to manage a space belongs to an account with an active membership as
-- owner or organizer.
pub manager-Organizes :
    (t : HouseholdTopologyV1) (a d scope_account hid sid : Uuid)
    → authorizes_device_scope t a d (space scope_account hid sid) TopologyAction.manage ≡ ok true
    → (m : MembershipV1) × In m t.memberships
      × (m.account_id ≡ a)
      × (m.state ≡ active)
      × Organizes m.role
manager-Organizes t a d b hid sid h =
    let scope = space b hid sid in
    let (v, (_, (_, _, (s, m, e)))) =
      (authorizes_device_scope_iff t a d scope TopologyAction.manage).0 h in
    let en = entitled t a d sid TopologyAction.manage s m v e in
    (m, e.membership, e.is_account, e.is_active, en.manages e.allowed)

-- Under a valid topology, a device that may not act gets the answer false, not an error.
pub authorizes_decided :
    (t : HouseholdTopologyV1) (a d : Uuid) (scope : ObjectScopeV1) (action : TopologyAction)
    → validate t ≡ ok tt
    → (¬ May t a d scope action)
    → authorizes_device_scope t a d scope action ≡ ok false
unfolding authorizes_device_scope
authorizes_decided t a d scope action h denied =
    elim (Bool-cases (device_authorized t a d scope action)) [
      | inl e ↦
          let allowed = (authorizes_device_scope_iff t a d scope action).0 (ground arith) in
          absurd (denied allowed.1)
      | inr e ↦ ground arith
    ]

-- Under a valid topology, an account with no active membership has no access to its household or
-- to any space.
pub inactive_account_denied :
    (t : HouseholdTopologyV1) (a d scope_account hid sid : Uuid) (action : TopologyAction)
    → validate t ≡ ok tt
    → ((m : MembershipV1) → In m t.memberships → m.account_id ≡ a → m.state ≢ active)
    → (authorizes_device_scope t a d (household scope_account hid) action ≡ ok false)
      × (authorizes_device_scope t a d (space scope_account hid sid) action ≡ ok false)
inactive_account_denied t a d b hid sid action h inactive = (
  authorizes_decided t a d (household b hid) action h
      (λ (_, (_, _, (m, e))). inactive m e.listed e.is_account e.is_active),
  authorizes_decided t a d (space b hid sid) action h
      (λ (_, (_, _, (s, m, e))). inactive m e.membership e.is_account e.is_active),
)
