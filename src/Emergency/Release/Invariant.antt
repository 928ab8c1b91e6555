-- ===== src/Emergency/Release/Invariant.antt =====
-- The invariant of a release request (crates/vault-emergency/src/lib.rs).
use safeory.Base.{
  String, ℕ, ◌+◌, ◌≤◌, ◌≡◌, inl, inr, refl, subst, List, [], ◌∷◌, false, ok, u64_max, nat_eq, In,
  in-set_insert, IsAscending, set_insert-IsAscending, arith,
}
use safeory.Sync.Types.{Uuid}
use safeory.Models.Policy.{AccessPolicy, AccessCondition, wait_seconds, duration_seconds}
use safeory.Emergency.Access.{lacks_approvals}
use safeory.Emergency.Release.{ReleaseRequest, ReleaseRequestState, pending, begin_release_request}
use safeory.Emergency.Release.Transitions.{Transition, stay, approved, expiry, step-Transition}
use safeory.Emergency.Release.Begin.{Began, begin-Began}
use safeory.Emergency.Release.Steps.{Event, step, run}

-- What the state records agrees with the grant, the approvals and the time stamps.
abbrev pub IsState : ReleaseRequest → ReleaseRequestState → Type 0
IsState r pending = Unit
IsState r (ReleaseRequestState.denied at) = (r.requested_at ≤ at) × (at ≤ r.last_event_at)
IsState r (ReleaseRequestState.revoked at) = (r.requested_at ≤ at) × (at ≤ r.last_event_at)
IsState r (ReleaseRequestState.released at expires_at) =
    (lacks_approvals r.grant r.approvals ≡ false)
    × (r.requested_at + wait_seconds r.grant.wait_period ≤ at)
    × (at ≤ r.last_event_at)
    × (expires_at ≡ expiry at (duration_seconds r.grant.duration))

pub record IsRequest (r : ReleaseRequest) : Type 0 where
  pub ordered : r.requested_at ≤ r.last_event_at
  pub window : r.requested_at + wait_seconds r.grant.wait_period ≤ u64_max
  pub ascending : IsAscending r.approvals
  pub members : (a : Uuid) → In a r.approvals → In a r.grant.approver_ids
  pub state_agrees : IsState r r.state

begin-IsRequest :
    {p : AccessPolicy} {what : String} {c : AccessCondition} {trustee : Uuid} {rev t : ℕ}
    (r : ReleaseRequest)
    → Began p what c trustee rev t r
    → IsRequest r
begin-IsRequest {t = t} r b = record {
  ordered = rw (b.requested_at, b.last_event_at) (omega arith);
  window = rw b.requested_at b.window;
  ascending = rw b.approvals tt;
  members = λ a m. elim (subst (λ l. In a l) b.approvals m) [ ];
  state_agrees = rw b.is_open tt;
}

moved :
    (r : ReleaseRequest) (e : Event) (r' : ReleaseRequest)
    → Transition r e r'
    → IsRequest r
    → IsRequest r'
moved r e r' (stay q) i = rw q i
moved r e r' (approved a now n _ t h m q) i = rw q (record {
  ordered = omega (arith, t, i.ordered);
  window = i.window;
  ascending = set_insert-IsAscending a r.approvals i.ascending;
  members =
      λ b k. elim ((in-set_insert a b r.approvals).0 k) [ inl e ↦ rw e m | inr l ↦ i.members b l ];
  state_agrees = rw h tt;
})
moved r e r' (Transition.denied now n _ t h q) i = rw q (record {
  ordered = omega (arith, t, i.ordered);
  window = i.window;
  ascending = i.ascending;
  members = i.members;
  state_agrees = (omega (arith, t, i.ordered), omega arith);
})
moved r e r' (Transition.revoked now n _ t h k q) i = rw q (record {
  ordered = omega (arith, t, i.ordered);
  window = i.window;
  ascending = i.ascending;
  members = i.members;
  state_agrees = (omega (arith, t, i.ordered), omega arith);
})
moved r e r' (Transition.released p rev now n _ t h m l w q) i = rw q (record {
  ordered = omega (arith, t, i.ordered);
  window = i.window;
  ascending = i.ascending;
  members = i.members;
  state_agrees = (l, w, omega arith, refl);
})

run-IsRequest : (events : List Event) (r : ReleaseRequest) → IsRequest r → IsRequest (run events r)
unfolding run
run-IsRequest [] r i = i
run-IsRequest (e ∷ events) r i =
    run-IsRequest events (step e r) (moved r e (step e r) (step-Transition e r) i)

-- Whatever calls follow begin_release_request, the request keeps the invariant: time stamps in
-- order, a window within u64, distinct approvals of listed approvers only, and a state that the
-- grant, the approvals and the time stamps justify.
pub run-begin_release_request-IsRequest :
    (id : Uuid) (p : AccessPolicy) (what : String) (c : AccessCondition) (trustee : Uuid)
    (rev t : ℕ) (r : ReleaseRequest) (events : List Event)
    → begin_release_request id p what c trustee rev t ≡ ok r
    → IsRequest (run events r)
run-begin_release_request-IsRequest id p what c trustee rev t r events h =
    run-IsRequest events r (begin-IsRequest r (begin-Began id p what c trustee rev t r h))
