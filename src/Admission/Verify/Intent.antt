-- ===== src/Admission/Verify/Intent.antt =====
-- The confirmed intent under an allowed result.
use goalrail.Base.{
  keep, true, false, List, ◌≡◌, refl, arith, contains, any, Elem, some, any-eq-true, eq_iff,
  contains_iff, ◌==◌, &&-eq-true, ◌∙◌, inr, inl,
}
use goalrail.Domain.{
  Codec, LineageEvent, ContentAddressedEvidenceReference, lineage_confirmed_intent, AdmissionResult,
  AdmissionOutcome, relation_single, lineage_terminal_receipt, ProjectPolicy,
}
use goalrail.Admission.Types.{Input, WorkUnitGraph, SemanticProjection, pass, Checked-cases}
use goalrail.Admission.Projections.{
  evaluate_projections, projection_contract, well_formed_projection, projection_satisfies,
  projection_binds_committed_target,
}
use goalrail.Admission.Projections.Vouched.{IsProjected, evaluate_projections-Projected}
use goalrail.Admission.Effective.{EffectiveView, build_effective_view}
use goalrail.Admission.Verify.Allowed.{verify-IsAllowed}
use goalrail.Admission.Verify.Lineage.{spine-Committed, is_committed}
use goalrail.Admission.Verify.{verify, LineageRelation}

-- The snapshot of an intent in the state `confirmed`, with the committed target that it addresses.
pub record IsConfirmed (graph : WorkUnitGraph) (p : SemanticProjection) : Type 0 where
  pub relates : p.relation ≡ lineage_confirmed_intent
  pub is_intent : p.kind ≡ "intent"
  pub confirmed : p.state ≡ "confirmed"
  pub decoded : p.is_valid ≡ true
  pub event : LineageEvent
  pub recorded : Elem event graph.events
  pub event_relates : event.relation ≡ lineage_confirmed_intent
  pub target : ContentAddressedEvidenceReference
  pub targeted : Elem target event.targets
  pub same_kind : target.artifact_kind ≡ p.kind
  pub same_identity : target.identity ≡ p.identity
  pub same_version : target.version ≡ p.version
  pub same_digest : target.digest ≡ p.digest

intent_contract :
    (codec : Codec) (p : SemanticProjection)
    → p.relation ≡ lineage_confirmed_intent
    → well_formed_projection codec p ≡ true
    → projection_satisfies codec p ≡ true
    → (p.kind ≡ "intent") × (p.state ≡ "confirmed") × (p.is_valid ≡ true)
unfolding well_formed_projection projection_satisfies projection_contract
intent_contract codec p e w s =
    let differs : (p.relation == lineage_terminal_receipt) ≡ false = rw e refl in
    ground (arith, differs, eq_iff p.kind "intent", eq_iff p.state "confirmed")

IsProjected-IsConfirmed :
    (codec : Codec) (graph : WorkUnitGraph) (p : SemanticProjection)
    → IsProjected codec graph lineage_confirmed_intent p
    → IsConfirmed graph p
unfolding projection_binds_committed_target
IsProjected-IsConfirmed codec graph p h =
    let (kind, state, decoded) = intent_contract codec p h.relates h.well_formed h.satisfies in
    let (event, recorded, event_test) = any-eq-true _ graph.events h.bound in
    let (event_relation, targets_test) = &&-eq-true (event.relation == p.relation) _ event_test in
    let (target, targeted, same) = any-eq-true _ event.targets targets_test in
    let (same_kind, same') = &&-eq-true (target.artifact_kind == p.kind) _ same in
    let (same_identity, same'') = &&-eq-true (target.identity == p.identity) _ same' in
    let (same_version, same_digest) = &&-eq-true (target.version == p.version) _ same'' in
    record {
      relates = h.relates;
      is_intent = kind;
      confirmed = state;
      decoded = decoded;
      event = event;
      recorded = recorded;
      event_relates = (eq_iff event.relation p.relation).0 event_relation ∙ h.relates;
      target = target;
      targeted = targeted;
      same_kind = (eq_iff target.artifact_kind p.kind).0 same_kind;
      same_identity = (eq_iff target.identity p.identity).0 same_identity;
      same_version = (eq_iff target.version p.version).0 same_version;
      same_digest = (eq_iff target.digest p.digest).0 same_digest;
    }

suppressed_intent :
    (codec : Codec) (input : Input) (policy : ProjectPolicy) (view : EffectiveView)
    → build_effective_view codec input policy ≡ pass view
    → contains view.suppressed lineage_confirmed_intent ≡ false
    → (projected : List LineageRelation) × (evaluate_projections codec input.frozen.graph
          input.frozen.projections
        ≡ pass projected)
      × (contains projected lineage_confirmed_intent ≡ true)
unfolding build_effective_view contains any keep
suppressed_intent codec input policy view h s =
    elim (Checked-cases (evaluate_projections codec input.frozen.graph input.frozen.projections)) [
      | inr (f, e) ↦ absurd (ground arith)
      | inl (projected, e) ↦ (projected, e, ground arith)
    ]

intent_is_committed : is_committed lineage_confirmed_intent ≡ true
unfolding contains any
intent_is_committed = refl

-- Every allowed result, on every route, rests on an intent whose snapshot is in the state
-- `confirmed` and addresses, with its identity, version and digest, a committed target of the work
-- unit's lineage.
pub verify-IsConfirmed :
    (codec : Codec) (input : Input) (r : AdmissionResult)
    → verify codec input ≡ some r
    → r.outcome ≡ AdmissionOutcome.allow
    → (p : SemanticProjection) × Elem p input.frozen.projections × IsConfirmed input.frozen.graph p
verify-IsConfirmed codec input r v h =
    let allowance = verify-IsAllowed codec input r v h in
    let g = allowance.grounds in
    let graph = input.frozen.graph in
    let (kept, _) =
      spine-Committed codec input allowance.authority _ g
        (record { relation = lineage_confirmed_intent; cardinality = relation_single })
        (ground arith) intent_is_committed in
    let (projected, evaluated, listed) =
      suppressed_intent codec input allowance.authority.policy g.view g.viewed kept in
    let (p, p_in, ok) =
      evaluate_projections-Projected codec graph input.frozen.projections projected
        lineage_confirmed_intent evaluated
        ((contains_iff projected lineage_confirmed_intent).0 listed) in
    (p, p_in, IsProjected-IsConfirmed codec graph p ok)
