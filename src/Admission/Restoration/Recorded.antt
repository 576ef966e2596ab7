-- ===== src/Admission/Restoration/Recorded.antt =====
-- The requirement that a restoration claim is bound to.
use goalrail.Base.{
  String, true, ◌≡◌, ◌≢◌, none, ◌==◌, ◌&&◌, ◌||◌, not, any, any-eq-true, arith, eq_iff, Elem,
  &&-eq-true, List,
}
use goalrail.Domain.{
  LineageEvent, ContentAddressedEvidenceReference, ProjectPolicy, ExceptionEnvelope,
  lineage_confirmed_intent,
}
use goalrail.Admission.Types.{WorkUnitGraph, FrozenRange}
use goalrail.Admission.Restoration.{bound_to_recorded_artifact, restoration_failure}

-- A confirmed intent event of the graph has the requirement's reference and digest in one target.
pub record IsRecorded (graph : WorkUnitGraph) (envelope : ExceptionEnvelope) : Type 0 where
  pub has_digest : envelope.requirement_digest ≢ ""
  pub has_ref : envelope.requirement_ref ≢ ""
  pub event : LineageEvent
  pub recorded : Elem event graph.events
  pub relates : event.relation ≡ lineage_confirmed_intent
  pub target : ContentAddressedEvidenceReference
  pub targeted : Elem target event.targets
  pub same_ref : target.source_ref ≡ envelope.requirement_ref
  pub same_digest : target.digest ≡ envelope.requirement_digest

bound_to_recorded_artifact-IsRecorded :
    (graph : WorkUnitGraph) (envelope : ExceptionEnvelope)
    → bound_to_recorded_artifact graph envelope ≡ true
    → IsRecorded graph envelope
unfolding bound_to_recorded_artifact
bound_to_recorded_artifact-IsRecorded graph envelope h =
    let is_bound = λ (target : ContentAddressedEvidenceReference).
      target.source_ref == envelope.requirement_ref
      && target.digest == envelope.requirement_digest in
    let (filled, found) =
      &&-eq-true (not (envelope.requirement_digest == "" || envelope.requirement_ref == "")) _ h in
    let (event, recorded, e) =
      any-eq-true
        (λ event. event.relation == lineage_confirmed_intent && any is_bound event.targets)
        graph.events found in
    let (relates, some_target) = &&-eq-true (event.relation == lineage_confirmed_intent) _ e in
    let (target, targeted, t) = any-eq-true is_bound event.targets some_target in
    let (ref, digest) = &&-eq-true (target.source_ref == envelope.requirement_ref) _ t in
    record {
      has_digest = λ empty. ground (arith, eq_iff envelope.requirement_digest "");
      has_ref = λ empty. ground (arith, eq_iff envelope.requirement_ref "");
      event = event;
      recorded = recorded;
      relates = (eq_iff event.relation lineage_confirmed_intent).0 relates;
      target = target;
      targeted = targeted;
      same_ref = (eq_iff target.source_ref envelope.requirement_ref).0 ref;
      same_digest = (eq_iff target.digest envelope.requirement_digest).0 digest;
    }

-- A claim that stands is bound to a requirement that the lineage records.
pub restoration_failure-IsRecorded :
    (frozen : FrozenRange) (policy : ProjectPolicy) (event : LineageEvent)
    (envelope : ExceptionEnvelope) (material_paths : List String)
    → restoration_failure frozen policy event envelope material_paths ≡ none
    → IsRecorded frozen.graph envelope
unfolding restoration_failure
restoration_failure-IsRecorded frozen policy event envelope material_paths h =
    bound_to_recorded_artifact-IsRecorded frozen.graph envelope (ground arith)
