-- ===== src/Emergency/Release/History.antt =====
-- What the state of a request says about the calls that led to it
-- (crates/vault-emergency/src/lib.rs).
use safeory.Base.{
  String, ℕ, ◌+◌, ◌≤◌, ◌≡◌, ◌⊎◌, inl, inr, refl, sym, ◌∙◌, subst, List, [], ◌∷◌, true, false,
  Option, ok, In, here, there, in-set_insert, arith, count_common,
}
use safeory.Sync.Types.{Uuid}
use safeory.Models.Policy.{
  AccessPolicy, AccessGrant, AccessCondition, wait_seconds, duration_seconds,
}
use safeory.Emergency.Access.{lacks_approvals}
use safeory.Emergency.Release.{
  ReleaseRequest, ReleaseRequestState, pending, begin_release_request, policy_matches,
}
use safeory.Emergency.Release.Transitions.{Transition, stay, approved, expiry, step-Transition}
use safeory.Emergency.Release.Begin.{begin-Began}
use safeory.Emergency.Release.Steps.{Event, step, run, SameTerms, step-SameTerms}
use safeory.Emergency.Release.Invariant.{IsRequest, IsState, run-begin_release_request-IsRequest}

-- An approval that was not there comes from a call of that approver.
step-approvals :
    (e : Event) (r : ReleaseRequest) (a : Uuid)
    → In a (step e r).approvals
    → In a r.approvals ⊎ ((now : ℕ) × (e ≡ Event.approve a now))
step-approvals e' r a m = elim (step-Transition e' r) [
  | stay q ↦ inl (subst (λ x. In a x.approvals) q m)
  | approved b now n e t h k q ↦
      elim ((in-set_insert b a r.approvals).0 (subst (λ x. In a x.approvals) q m)) [
        | inl s ↦ inr (now, rw s e)
        | inr o ↦ inl o
      ]
  | Transition.denied now n e t h q ↦ inl (subst (λ x. In a x.approvals) q m)
  | Transition.revoked now n e t h k q ↦ inl (subst (λ x. In a x.approvals) q m)
  | Transition.released p rev now n e t h ma l w q ↦ inl (subst (λ x. In a x.approvals) q m)
]

approvals_from :
    (events : List Event) (r : ReleaseRequest) (a : Uuid)
    → In a (run events r).approvals
    → In a r.approvals ⊎ ((now : ℕ) × In (Event.approve a now) events)
unfolding run
approvals_from [] r a m = inl m
approvals_from (e ∷ events) r a m = elim (approvals_from events (step e r) a m) [
  | inr (now, k) ↦ inr (now, there k)
  | inl k ↦ elim (step-approvals e r a k) [
    | inl o ↦ inl o
    | inr (now, q) ↦ inr (now, rw (sym q) here)
  ]
]

same_matches :
    (r r' : ReleaseRequest) (p : AccessPolicy) (rev : ℕ)
    → SameTerms r r'
    → policy_matches r' p rev ≡ policy_matches r p rev
unfolding policy_matches
same_matches r r' p rev s = rw (s.item_revision, s.condition, s.grant) refl

-- A release call among `events` whose policy and item revision the terms of `r` match.
abbrev pub Matched : ReleaseRequest → ℕ → List Event → Type 0
Matched r at events =
    (p : AccessPolicy) × (rev : ℕ) × In (Event.release p rev at) events
    × (policy_matches r p rev ≡ true)

step-released :
    (e : Event) (r : ReleaseRequest) (at : ℕ) (x : Option ℕ)
    → (step e r).state ≡ ReleaseRequestState.released at x
    → (r.state ≡ ReleaseRequestState.released at x)
      ⊎ ((p : AccessPolicy) × (rev : ℕ) × (e ≡ Event.release p rev at)
          × (policy_matches r p rev ≡ true))
step-released e' r at x m = elim (step-Transition e' r) [
  | stay q ↦ inl (subst (λ y. y.state ≡ ReleaseRequestState.released at x) q m)
  | approved b now n e t h k q ↦ inl (subst (λ y. y.state ≡ ReleaseRequestState.released at x) q m)
  | Transition.denied now n e t h q ↦ absurd (ground arith)
  | Transition.revoked now n e t h k q ↦ absurd (ground arith)
  | Transition.released p rev now n e t h ma l w q ↦ inr (p, rev, ground arith, ma)
]

released_from :
    (events : List Event) (r : ReleaseRequest) (at : ℕ) (x : Option ℕ)
    → (run events r).state ≡ ReleaseRequestState.released at x
    → (r.state ≡ ReleaseRequestState.released at x) ⊎ Matched r at events
unfolding run
released_from [] r at x h = inl h
released_from (e ∷ events) r at x h = elim (released_from events (step e r) at x h) [
  | inr (p, rev, m, q) ↦
      inr (p, rev, there m, sym (same_matches r (step e r) p rev (step-SameTerms e r)) ∙ q)
  | inl k ↦ elim (step-released e r at x k) [
    | inl o ↦ inl o
    | inr (p, rev, q, m) ↦ inr (p, rev, rw (sym q) here, m)
  ]
]

-- The evidence behind a release at `at` that ends at `x`, for a request that began as `r`, stands
-- as `r'` and saw `events` in between.
pub record Justified (r r' : ReleaseRequest) (events : List Event) (at : ℕ) (x : Option ℕ)
    : Type 0 where
  pub enough : r.grant.approvals_required ≤ count_common r.grant.approver_ids r'.approvals
  pub listed : (a : Uuid) → In a r'.approvals → In a r.grant.approver_ids
  pub approved : (a : Uuid) → In a r'.approvals → (now : ℕ) × In (Event.approve a now) events
  pub waited : r.requested_at + wait_seconds r.grant.wait_period ≤ at
  pub called : Matched r at events
  pub ends : x ≡ expiry at (duration_seconds r.grant.duration)

enough_approvals :
    (g : AccessGrant) (l : List Uuid)
    → lacks_approvals g l ≡ false
    → g.approvals_required ≤ count_common g.approver_ids l
unfolding lacks_approvals
enough_approvals g l h = ground arith

-- The calls keep the terms of a request.
pub run-SameTerms : (events : List Event) (r : ReleaseRequest) → SameTerms r (run events r)
unfolding run
run-SameTerms [] r = record {
  request_id = refl;
  trustee_id = refl;
  what = refl;
  condition = refl;
  item_revision = refl;
  requested_at = refl;
  grant = refl;
}
run-SameTerms (e ∷ events) r =
    let a = step-SameTerms e r in
    let b = run-SameTerms events (step e r) in
    record {
      request_id = b.request_id ∙ a.request_id;
      trustee_id = b.trustee_id ∙ a.trustee_id;
      what = b.what ∙ a.what;
      condition = b.condition ∙ a.condition;
      item_revision = b.item_revision ∙ a.item_revision;
      requested_at = b.requested_at ∙ a.requested_at;
      grant = b.grant ∙ a.grant;
    }

began_Justified :
    (r : ReleaseRequest) (events : List Event) (at : ℕ) (x : Option ℕ)
    → r.state ≡ pending
    → r.approvals ≡ []
    → IsRequest (run events r)
    → (run events r).state ≡ ReleaseRequestState.released at x
    → Justified r (run events r) events at x
began_Justified r events at x o n i s =
    let k = run-SameTerms events r in
    let f = subst (λ z. IsState (run events r) z) s i.state_agrees in
    record {
      enough =
          subst (λ g. g.approvals_required ≤ count_common g.approver_ids (run events r).approvals)
            k.grant (enough_approvals (run events r).grant (run events r).approvals f.0);
      listed = λ a m. subst (λ g. In a g.approver_ids) k.grant (i.members a m);
      approved = λ a m. elim (approvals_from events r a m) [
        | inl l ↦ elim (subst (λ z. In a z) n l) [ ]
        | inr e ↦ e
      ];
      waited =
          subst (λ g. r.requested_at + wait_seconds g.wait_period ≤ at) k.grant
            (subst (λ n. n + wait_seconds (run events r).grant.wait_period ≤ at) k.requested_at
              f.1);
      called = elim (released_from events r at x s) [ inl q ↦ absurd (ground arith) | inr m ↦ m ];
      ends = subst (λ g. x ≡ expiry at (duration_seconds g.duration)) k.grant f.3;
    }

-- A request that stands released was released by a call of release under a policy that still holds
-- its exact grant, after the waiting period, with as many distinct listed approvers as required,
-- each of whom made a call of approve; the release ends with the duration.
pub released-Justified :
    (id : Uuid) (p : AccessPolicy) (what : String) (c : AccessCondition) (trustee : Uuid)
    (rev t : ℕ) (r : ReleaseRequest) (events : List Event) (at : ℕ) (x : Option ℕ)
    → begin_release_request id p what c trustee rev t ≡ ok r
    → (run events r).state ≡ ReleaseRequestState.released at x
    → Justified r (run events r) events at x
released-Justified id p what c trustee rev t r events at x h s =
    let b = begin-Began id p what c trustee rev t r h in
    let i = run-begin_release_request-IsRequest id p what c trustee rev t r events h in
    began_Justified r events at x b.is_open b.approvals i s
