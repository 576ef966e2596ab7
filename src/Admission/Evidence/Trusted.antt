-- ===== src/Admission/Evidence/Trusted.antt =====
-- What `verifyPacketEvidence` has checked of the lineage's targets.
use goalrail.Base.{
  Option, Bool, not, is_empty, if◌then◌else◌, true, false, List, [], ◌∷◌, none, some, ◌≡◌, refl,
  ◌⊎◌, inl, inr, arith, Elem, Option-cases, Bool-cases, find_last, find_last-eq-some, eq_iff,
  &&-eq-true, after, ◌&&◌, ◌==◌,
}
use goalrail.Domain.{
  AdmissionReasonCode, lineage_exception, LineageEvent, Codec, ContentAddressedEvidenceReference,
  AdmissionPacket, AdmissionProviderProvenance, reference_eq, reference_eq_iff,
}
use goalrail.Admission.Types.{Refusal, refusal, WorkUnitGraph}
use goalrail.Admission.Candidates.{has_bounded_evaluation_time, evaluation_instant}
use goalrail.Admission.Evidence.{
  has_relation, has_trusted_evaluation_time, verify_packet_evidence, packet_refs_fault,
  target_fault, targets_fault, events_fault, trusted_without_packet, trusted_item, provenance_of,
}

-- The packet claims the reference as it is, and an authenticated provider has observed its digest
-- no later than the evaluation time.
pub record IsClaimed (packet : AdmissionPacket) (reference : ContentAddressedEvidenceReference)
    : Type 0 where
  pub claimed : Elem reference packet.evidence
  pub item : AdmissionProviderProvenance
  pub provided : Elem item packet.provenance
  pub adapter : item.adapter_id ≡ reference.adapter_id
  pub digest : item.evidence_digest ≡ reference.digest
  pub authenticated : item.authenticated ≡ true
  pub timely : after item.observed_at (evaluation_instant packet) ≡ false

trusted_item-eq-true :
    (packet : AdmissionPacket) (o : Option AdmissionProviderProvenance)
    → trusted_item packet o ≡ true
    → (item : AdmissionProviderProvenance) × (o ≡ some item)
      × (item.authenticated ≡ true)
      × (after item.observed_at (evaluation_instant packet) ≡ false)
unfolding trusted_item
trusted_item-eq-true packet none h = cc
trusted_item-eq-true packet (some item) h = (item, refl, ground arith, ground arith)

target_fault-eq-none :
    (packet : AdmissionPacket) (reference : ContentAddressedEvidenceReference)
    → target_fault packet reference ≡ none
    → (trusted_without_packet reference packet ≡ true) ⊎ IsClaimed packet reference
unfolding target_fault provenance_of
target_fault-eq-none packet reference h =
    elim (Bool-cases (trusted_without_packet reference packet)) [
      | inl yes_ ↦ inl yes_
      | inr no_ ↦
          elim (Option-cases (find_last (λ r. r.identity == reference.identity) packet.evidence)) [
            | inl e ↦ absurd (ground arith)
            | inr (claimed, e) ↦
                let (claimed_in, _) =
                  find_last-eq-some (λ r. r.identity == reference.identity) packet.evidence claimed
                    e in
                let equal : reference_eq claimed reference ≡ true = ground arith in
                let trusted : trusted_item packet
                      (provenance_of packet reference.adapter_id reference.digest)
                    ≡ true =
                  ground arith in
                let (item, f, authenticated, timely) =
                  trusted_item-eq-true packet
                    (provenance_of packet reference.adapter_id reference.digest) trusted in
                let (provided, keys) =
                  find_last-eq-some
                    (λ i.
                      i.adapter_id == reference.adapter_id && i.evidence_digest == reference.digest)
                    packet.provenance item f in
                let (adapter, digest) =
                  &&-eq-true (item.adapter_id == reference.adapter_id) _ keys in
                inr (record {
                  claimed = rw ((reference_eq_iff claimed reference).0 equal) at claimed_in;
                  item = item;
                  provided = provided;
                  adapter = (eq_iff item.adapter_id reference.adapter_id).0 adapter;
                  digest = (eq_iff item.evidence_digest reference.digest).0 digest;
                  authenticated = authenticated;
                  timely = timely;
                })
          ]
    ]

targets_fault-eq-none :
    (packet : AdmissionPacket) (targets : List ContentAddressedEvidenceReference)
    (reference : ContentAddressedEvidenceReference)
    → targets_fault packet targets ≡ none
    → Elem reference targets
    → target_fault packet reference ≡ none
unfolding targets_fault
targets_fault-eq-none packet [] reference h m = absurd m
targets_fault-eq-none packet (t ∷ ts) reference h (inl e) = rw e (ground arith)
targets_fault-eq-none packet (t ∷ ts) reference h (inr m) =
    targets_fault-eq-none packet ts reference (ground arith) m

events_fault-eq-none :
    (packet : AdmissionPacket) (events : List LineageEvent) (event : LineageEvent)
    → events_fault packet events ≡ none
    → Elem event events
    → targets_fault packet event.targets ≡ none
unfolding events_fault
events_fault-eq-none packet [] event h m = absurd m
events_fault-eq-none packet (x ∷ xs) event h (inl e) = rw e (ground arith)
events_fault-eq-none packet (x ∷ xs) event h (inr m) =
    events_fault-eq-none packet xs event (ground arith) m

unguarded :
    (untimed : Refusal) (a b : Bool) (refs rest : Option Refusal)
    → (if a
        then some untimed
        else (if b then some untimed else (elim refs [ some fault ↦ some fault | none ↦ rest ])))
      ≡ none
    → rest ≡ none
unguarded untimed a b refs rest h = ground arith

-- Where the check passes, every target of every event is trusted without the packet, being
-- committed to the repository, or is claimed by the packet and vouched for by an authenticated
-- provider.
pub verify_packet_evidence-IsClaimed :
    (codec : Codec) (graph : WorkUnitGraph) (packet : AdmissionPacket) (event : LineageEvent)
    (target : ContentAddressedEvidenceReference)
    → verify_packet_evidence codec graph packet ≡ none
    → Elem event graph.events
    → Elem target event.targets
    → (trusted_without_packet target packet ≡ true) ⊎ IsClaimed packet target
unfolding verify_packet_evidence
verify_packet_evidence-IsClaimed codec graph packet event target h m m' =
    let clear : events_fault packet graph.events ≡ none =
      unguarded (refusal AdmissionReasonCode.trusted_time_missing ("packet:evaluation-time" ∷ []))
        (not (is_empty packet.provenance) && not (has_bounded_evaluation_time codec packet))
        (has_relation graph lineage_exception && not (has_trusted_evaluation_time codec packet))
        (packet_refs_fault [] packet.evidence) (events_fault packet graph.events) h in
    target_fault-eq-none packet target (
      targets_fault-eq-none packet event.targets target
        (events_fault-eq-none packet graph.events event clear m) m')
