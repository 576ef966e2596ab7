-- ===== src/Admission/Verify/Refusals.antt =====
-- Every refusal of a check of internal/admission names a reference.
use goalrail.Base.{
  not, ◌&&◌, add_key, false, List, [], ◌∷◌, ◌++◌, some, none, ◌≡◌, arith, is_empty, Option-cases,
  Bool, inl, sort_by, Option, inr, if◌then◌else◌, ◌∙◌, refl,
}
use goalrail.Domain.{
  AdmissionReasonCode, lineage_exception, Codec, AdmissionPacket, LineageEvent,
  ContentAddressedEvidenceReference, ProjectPolicy,
}
use goalrail.Admission.Types.{
  refusal, Input, Refusal, refuse, WorkUnitGraph, SemanticProjection, ProviderCandidate,
  FrozenRange,
}
use goalrail.Admission.Evidence.{
  has_relation, has_trusted_evaluation_time, verify_packet_evidence, packet_refs_fault,
  target_fault, targets_fault, events_fault,
}
use goalrail.Admission.Projections.{
  projection_satisfies, projection_fault, accept_projections, evaluate_projections, projection_lt,
}
use goalrail.Admission.Candidates.{
  has_bounded_evaluation_time, candidate_satisfies, candidate_conflict, candidate_fault,
  accept_candidates, evaluate_candidates, evaluation_instant, candidate_lt,
}
use goalrail.Admission.Effective.{build_effective_view}
use goalrail.Domain.{LineageRelation}
use goalrail.Base.{Time}

-- What the refusal names.
abbrev pub Names : Refusal → Type 0
Names f = is_empty f.refs ≡ false

module _ (packet : AdmissionPacket) (f : Refusal) where
  target_fault-Names :
      (t : ContentAddressedEvidenceReference) → target_fault packet t ≡ some f → Names f
  unfolding target_fault
  target_fault-Names t h = ground arith

  targets_fault-Names :
      (ts : List ContentAddressedEvidenceReference) → targets_fault packet ts ≡ some f → Names f
  unfolding targets_fault
  targets_fault-Names [] h = cc
  targets_fault-Names (t ∷ ts) h = ground (arith, target_fault-Names t, targets_fault-Names ts)

  events_fault-Names : (es : List LineageEvent) → events_fault packet es ≡ some f → Names f
  unfolding events_fault
  events_fault-Names [] h = cc
  events_fault-Names (e ∷ es) h =
      ground (arith, targets_fault-Names e.targets, events_fault-Names es)

packet_refs_fault-Names :
    (f : Refusal) (seen rs : List ContentAddressedEvidenceReference)
    → packet_refs_fault seen rs ≡ some f
    → Names f
unfolding packet_refs_fault
packet_refs_fault-Names f seen [] h = cc
packet_refs_fault-Names f seen (r ∷ rs) h =
    ground (arith, packet_refs_fault-Names f (seen ++ r ∷ []) rs)

-- Two guards of one refusal, before a check.
guarded :
    (f untimed : Refusal) (a b : Bool) (rest : Option Refusal)
    → Names untimed
    → (rest ≡ some f → Names f)
    → (if a then some untimed else (if b then some untimed else rest)) ≡ some f
    → Names f
guarded f untimed a b rest n k h = ground arith

pub verify_packet_evidence-Names :
    (codec : Codec) (graph : WorkUnitGraph) (packet : AdmissionPacket) (f : Refusal)
    → verify_packet_evidence codec graph packet ≡ some f
    → Names f
unfolding verify_packet_evidence
verify_packet_evidence-Names codec graph packet f h =
    guarded f (refusal AdmissionReasonCode.trusted_time_missing ("packet:evaluation-time" ∷ []))
      (not (is_empty packet.provenance) && not (has_bounded_evaluation_time codec packet))
      (has_relation graph lineage_exception && not (has_trusted_evaluation_time codec packet))
      (elim (packet_refs_fault [] packet.evidence) [
        | some fault ↦ some fault
        | none ↦ events_fault packet graph.events
      ])
      refl rest h
  where
    rest :
        (elim (packet_refs_fault [] packet.evidence) [
          | some fault ↦ some fault
          | none ↦ events_fault packet graph.events
        ])
          ≡ some f
        → Names f
    rest e = elim (Option-cases (packet_refs_fault [] packet.evidence)) [
      | inl clear ↦ events_fault-Names packet f graph.events (rw clear at e)
      | inr (g, fault) ↦ packet_refs_fault-Names f [] packet.evidence (fault ∙ (rw fault at e))
    ]

module _ (codec : Codec) (f : Refusal) where
  projection_fault-Names :
      (graph : WorkUnitGraph) (claimed : List SemanticProjection) (p : SemanticProjection)
      → projection_fault codec graph claimed p ≡ some f
      → Names f
  unfolding projection_fault
  projection_fault-Names graph claimed p h = ground arith

  accept_projections-Names :
      (graph : WorkUnitGraph) (ps : List SemanticProjection) (satisfied : List LineageRelation)
      (claimed : List SemanticProjection)
      → accept_projections codec graph ps satisfied claimed ≡ refuse f
      → Names f
  unfolding accept_projections
  accept_projections-Names graph [] satisfied claimed h = cc
  accept_projections-Names graph (p ∷ ps) satisfied claimed h = ground (
    arith,
    projection_fault-Names graph claimed p,
    accept_projections-Names graph ps
        (if projection_satisfies codec p then add_key p.relation satisfied else satisfied)
        (p ∷ claimed),
  )

  candidate_fault-Names :
      (frozen : FrozenRange) (policy : ProjectPolicy) (now : Time)
      (claimed : List ProviderCandidate) (c : ProviderCandidate)
      → candidate_fault codec frozen policy now claimed c ≡ some f
      → Names f
  unfolding candidate_fault candidate_conflict
  candidate_fault-Names frozen policy now claimed c h = ground arith

  accept_candidates-Names :
      (frozen : FrozenRange) (policy : ProjectPolicy) (now : Time) (cs : List ProviderCandidate)
      (satisfied : List LineageRelation) (claimed : List ProviderCandidate)
      → accept_candidates codec frozen policy now cs satisfied claimed ≡ refuse f
      → Names f
  unfolding accept_candidates
  accept_candidates-Names frozen policy now [] satisfied claimed h = cc
  accept_candidates-Names frozen policy now (c ∷ cs) satisfied claimed h = ground (
    arith,
    candidate_fault-Names frozen policy now claimed c,
    accept_candidates-Names frozen policy now cs
        (if candidate_satisfies codec policy c then add_key c.relation satisfied else satisfied)
        (c ∷ claimed),
  )

  pub build_effective_view-Names :
      (input : Input) (policy : ProjectPolicy)
      → build_effective_view codec input policy ≡ refuse f
      → Names f
  unfolding build_effective_view evaluate_projections evaluate_candidates
  build_effective_view-Names input policy h = ground (
    arith,
    accept_projections-Names input.frozen.graph (sort_by projection_lt input.frozen.projections) []
        [],
    accept_candidates-Names input.frozen policy (evaluation_instant input.packet)
        (sort_by candidate_lt input.candidates) [] [],
  )
