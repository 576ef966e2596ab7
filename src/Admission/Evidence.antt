-- ===== src/Admission/Evidence.antt =====
-- `verifyPacketEvidence`, `missingEvidenceKinds` and their helpers in internal/admission/evaluate.go.
pub mod Trusted
use goalrail.Base.{
  String, Bool, true, false, List, [], ◌∷◌, ◌++◌, Option, none, some, ◌&&◌, ◌||◌, not, ◌==◌,
  starts_with, any, keep, is_empty, find_last, after, if◌then◌else◌,
}
use goalrail.Domain.{
  LineageRelation, LineageEvent, Codec, ContentAddressedEvidenceReference, AdmissionPacket,
  AdmissionProviderProvenance, AdmissionReasonCode, reference_eq, lineage_exception, Sha256Digest,
}
use goalrail.Admission.Types.{WorkUnitGraph, Refusal, refusal}
use goalrail.Admission.Candidates.{has_bounded_evaluation_time, evaluation_instant}

unfoldable pub has_trusted_evaluation_time : Codec → AdmissionPacket → Bool
has_trusted_evaluation_time codec packet =
    has_bounded_evaluation_time codec packet
    && any
        (λ item.
          item.authenticated
          && (item.provider_ref == packet.time_authority_ref
              && not (after item.observed_at (evaluation_instant packet))))
        packet.provenance

unfoldable pub has_relation : WorkUnitGraph → LineageRelation → Bool
has_relation graph relation =
    any (λ event. event.relation == relation && not (is_empty event.targets)) graph.events

unfoldable pub trusted_without_packet : ContentAddressedEvidenceReference → AdmissionPacket → Bool
trusted_without_packet reference packet =
    if starts_with reference.source_ref "repo:root/" || reference.artifact_kind == "commit"
    then true
    else starts_with reference.source_ref "git:"
      && ((reference.artifact_kind == "project_declaration"
            && reference.digest == packet.declaration_digest)
          || (reference.artifact_kind == "project_policy"
              && reference.digest == packet.policy_digest))

-- The loop that fills `packetRefs`: two references of one identity must be equal.
unfoldable pub packet_refs_fault :
    List ContentAddressedEvidenceReference → List ContentAddressedEvidenceReference → Option Refusal
packet_refs_fault seen [] = none
packet_refs_fault seen (reference ∷ references) =
    let rest = packet_refs_fault (seen ++ reference ∷ []) references in
    elim (find_last (λ r. r.identity == reference.identity) seen) [
      | none ↦ rest
      | some previous ↦
          if not (reference_eq previous reference)
          then some (
              refusal AdmissionReasonCode.lineage_conflict
                (previous.digest ∷ reference.digest ∷ []))
          else rest
    ]

-- The map's key is the adapter and the digest, joined by a NUL that neither holds.
unfoldable pub provenance_of :
    AdmissionPacket → String → Sha256Digest → Option AdmissionProviderProvenance
provenance_of packet adapter_id digest =
    find_last (λ i. i.adapter_id == adapter_id && i.evidence_digest == digest) packet.provenance

unfoldable pub trusted_item : AdmissionPacket → Option AdmissionProviderProvenance → Bool
trusted_item packet none = false
trusted_item packet (some item) =
    item.authenticated && not (after item.observed_at (evaluation_instant packet))

-- The body of the loop over an event's targets.
unfoldable pub target_fault : AdmissionPacket → ContentAddressedEvidenceReference → Option Refusal
target_fault packet reference =
    if trusted_without_packet reference packet
    then none
    else elim (find_last (λ r. r.identity == reference.identity) packet.evidence) [
      | none ↦ some (refusal AdmissionReasonCode.material_path_unbound (reference.identity ∷ []))
      | some claimed ↦
          if not (reference_eq claimed reference)
          then some (refusal AdmissionReasonCode.packet_invalid (reference.identity ∷ []))
          else (if not
                (trusted_item packet (provenance_of packet reference.adapter_id reference.digest))
              then some (refusal AdmissionReasonCode.provenance_untrusted (reference.identity ∷ []))
              else none)
    ]

unfoldable pub targets_fault :
    AdmissionPacket → List ContentAddressedEvidenceReference → Option Refusal
targets_fault packet [] = none
targets_fault packet (target ∷ targets) = elim (target_fault packet target) [
  | some fault ↦ some fault
  | none ↦ targets_fault packet targets
]

unfoldable pub events_fault : AdmissionPacket → List LineageEvent → Option Refusal
events_fault packet [] = none
events_fault packet (event ∷ events) = elim (targets_fault packet event.targets) [
  | some fault ↦ some fault
  | none ↦ events_fault packet events
]

unfoldable pub verify_packet_evidence : Codec → WorkUnitGraph → AdmissionPacket → Option Refusal
verify_packet_evidence codec graph packet =
    let untimed =
      refusal AdmissionReasonCode.trusted_time_missing ("packet:evaluation-time" ∷ []) in
    if not (is_empty packet.provenance) && not (has_bounded_evaluation_time codec packet)
    then some untimed
    else (if has_relation graph lineage_exception && not (has_trusted_evaluation_time codec packet)
        then some untimed
        else elim (packet_refs_fault [] packet.evidence) [
          | some fault ↦ some fault
          | none ↦ events_fault packet graph.events
        ])

unfoldable pub evidence_kind_present : WorkUnitGraph → AdmissionPacket → String → Bool
evidence_kind_present graph packet kind =
    any (λ r. r.artifact_kind == kind) packet.evidence
    || any (λ event. any (λ r. r.artifact_kind == kind) event.targets) graph.events

unfoldable pub missing_evidence_kinds : List String → WorkUnitGraph → AdmissionPacket → List String
missing_evidence_kinds required graph packet =
    keep (λ kind. not (evidence_kind_present graph packet kind)) required
