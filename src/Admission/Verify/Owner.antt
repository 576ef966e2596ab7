-- ===== src/Admission/Verify/Owner.antt =====
-- The owner boundary: no result is allowed without an authenticated owner decision.
use goalrail.Admission.Binding.Spine.{has_required_spine-Requires}
use goalrail.Admission.Verify.Allowed.{Grounds, verify-IsAllowed}
use goalrail.Admission.Completeness.Required.{is_effective, classify-missing}
use goalrail.Admission.Candidates.Vouched.{IsVouched, evaluate_candidates-Vouched}
use goalrail.Base.{
  true, List, none, some, ◌≡◌, arith, contains, any, Option-cases, after, Elem, inl, false, inr,
  eq_iff, Bool-cases, contains_iff, Elem-empty, Elem-keep,
}
use goalrail.Domain.{
  Codec, lineage_owner_decision, AdmissionPacket, ProjectPolicy, Sha256Digest, LineageRequirement,
  owner_decision_allow, relation_single,
}
use goalrail.Admission.Types.{Input, WorkUnitGraph, pass, ChangedPath, ProviderCandidate}
use goalrail.Admission.Candidates.{
  evaluate_candidates, in_range, trusted_at, candidate_satisfies, evaluation_instant,
  has_bounded_evaluation_time,
}
use goalrail.Admission.Effective.{EffectiveView, build_effective_view, view_satisfied, view_present}
use goalrail.Admission.Completeness.{
  Completeness, EventScan, evaluate_completeness, classify, scan_events, not_closure,
}
use goalrail.Admission.Binding.{verify_graph_binding, has_required_spine}
use goalrail.Admission.Verify.{
  Time, String, Authority, without_closure, utc, [], is_empty, AdmissionResult, verify,
  PolicyEvaluation, AdmissionOutcome, resolve_authority, evaluated_at, evaluate_policy,
}

pub build_effective_view-eq-pass :
    (codec : Codec) (input : Input) (policy : ProjectPolicy) (view : EffectiveView)
    → build_effective_view codec input policy ≡ pass view
    → (evaluate_candidates codec input.candidates input.frozen policy input.packet
        ≡ pass view.satisfied)
      × (contains view.suppressed lineage_owner_decision ≡ true)
unfolding build_effective_view contains any
build_effective_view-eq-pass codec input policy view h = ground arith

pub evaluate_completeness-classify :
    (codec : Codec) (graph : WorkUnitGraph) (now : Time) (view : EffectiveView) (c : Completeness)
    → evaluate_completeness codec graph now view ≡ some c
    → (scan : EventScan) × (scan_events codec graph
          (utc now)
          graph.events
          (record { present = []; expired = [] })
        ≡ some scan)
      × (classify view graph scan ≡ c)
unfolding evaluate_completeness
evaluate_completeness-classify codec graph now view c h =
    elim (Option-cases
      (scan_events codec graph (utc now) graph.events (record { present = []; expired = [] }))) [
        | inl e ↦ absurd (ground arith)
        | inr (scan, e) ↦ (scan, e, ground arith)
      ]

pub verify_graph_binding-spine :
    (codec : Codec) (graph : WorkUnitGraph) (packet : AdmissionPacket) (commits : List String)
    (changes : List ChangedPath) (material_paths : List String) (d p : Sha256Digest)
    → verify_graph_binding codec graph packet commits changes material_paths d p ≡ none
    → has_required_spine graph.unit.required_relations ≡ true
unfolding verify_graph_binding
verify_graph_binding-spine codec graph packet commits changes material_paths d p h = ground arith

module _ (codec : Codec) (input : Input) where
  -- An authenticated observation of this invocation: an authority that the policy in force names
  -- has decided `allow` on exactly the frozen range, no later than the evaluation time.
  pub record IsOwnerAllow (a : Authority) (c : ProviderCandidate) : Type 0 where
    pub relates : c.relation ≡ lineage_owner_decision
    pub base : c.base_revision ≡ input.frozen.base_revision
    pub head : c.head_revision ≡ input.frozen.head_revision
    pub authenticated : c.authenticated ≡ true
    pub timely : after (utc c.observed_at) (evaluation_instant input.packet) ≡ false
    pub authorized : Elem c.authority_ref a.policy.owner_decision.authority_refs
    pub allows : c.outcome ≡ owner_decision_allow

  IsVouched-owner :
      (a : Authority) (c : ProviderCandidate)
      → IsVouched codec input.frozen a.policy
          (evaluation_instant input.packet)
          lineage_owner_decision
          c
      → IsOwnerAllow a c
  unfolding in_range trusted_at candidate_satisfies
  IsVouched-owner a c v = ground (
    arith,
    eq_iff c.relation lineage_owner_decision,
    eq_iff c.base_revision input.frozen.base_revision,
    eq_iff c.head_revision input.frozen.head_revision,
    eq_iff c.outcome owner_decision_allow,
    contains_iff a.policy.owner_decision.authority_refs c.authority_ref,
  )

  -- A required relation that is not closure and that a complete evaluation leaves out of `Missing`
  -- is effective.
  pub Complete-effective :
      (view : EffectiveView) (c : Completeness) (scan : EventScan) (r : LineageRequirement)
      → classify view input.frozen.graph scan ≡ c
      → Elem r input.frozen.graph.unit.required_relations
      → not_closure r ≡ true
      → is_empty (without_closure c.missing) ≡ true
      → is_effective view input.frozen.graph scan.present r.relation ≡ true
  unfolding without_closure
  Complete-effective view c scan r e m other h =
      elim (Bool-cases (is_effective view input.frozen.graph scan.present r.relation)) [
        | inl yes_ ↦ yes_
        | inr no_ ↦
            let listed = rw e at (classify-missing view input.frozen.graph scan r m other no_) in
            absurd (
              Elem-empty (without_closure c.missing) h r.relation
                ((Elem-keep _ c.missing r.relation).1 (listed, other)))
      ]

  owner_satisfied :
      (a : Authority) (e : PolicyEvaluation) (g : Grounds codec input a e)
      → contains g.view.satisfied lineage_owner_decision ≡ true
  unfolding view_satisfied view_present
  owner_satisfied a e g = elim g.route [
    | inl (yes_, _) ↦ yes_
    | inr (nothing, _) ↦
        let graph = input.frozen.graph in
        let (_, suppressed) = build_effective_view-eq-pass codec input a.policy g.view g.viewed in
        let spine = has_required_spine-Requires graph.unit.required_relations (
          verify_graph_binding-spine codec graph input.packet input.frozen.commits
            input.frozen.changes e.material_paths a.declaration_digest a.policy_digest g.bound) in
        let (r, r_in, same, _) =
          spine.1 (record { relation = lineage_owner_decision; cardinality = relation_single })
            (ground arith) in
        let (scan, _, classified) =
          evaluate_completeness-classify codec graph (evaluated_at input) g.view g.completeness
            g.complete in
        let effective =
          rw same at
            (Complete-effective g.view g.completeness scan r classified r_in (rw same) nothing) in
        ground arith
  ]

-- Every allowed result, on the exception routes, the bootstrap route and the ordinary one, rests on
-- an owner `allow` among the candidates of this invocation, judged by the policy of the resolved
-- authority; and the packet carries a bounded evaluation time.
pub verify-IsOwnerAllow :
    (codec : Codec) (input : Input) (r : AdmissionResult)
    → verify codec input ≡ some r
    → r.outcome ≡ AdmissionOutcome.allow
    → (a : Authority) × (resolve_authority codec input.frozen ≡ pass a)
      × (has_bounded_evaluation_time codec input.packet ≡ true)
      × ((c : ProviderCandidate) × Elem c input.candidates × IsOwnerAllow codec input a c)
verify-IsOwnerAllow codec input r v h =
    let allowance = verify-IsAllowed codec input r v h in
    let a = allowance.authority in
    let e = evaluate_policy a.policy input.frozen.changes in
    let g = allowance.grounds in
    let (evaluated, _) = build_effective_view-eq-pass codec input a.policy g.view g.viewed in
    let satisfied =
      (contains_iff g.view.satisfied lineage_owner_decision).0
        (owner_satisfied codec input a e g) in
    let (timed, (c, c_in, vouched)) =
      evaluate_candidates-Vouched codec input.candidates input.frozen a.policy input.packet
        g.view.satisfied lineage_owner_decision evaluated satisfied in
    (a, allowance.resolved, timed, (c, c_in, IsVouched-owner codec input a c vouched))
