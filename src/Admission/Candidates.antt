-- ===== src/Admission/Candidates.antt =====
-- `evaluateCandidates` of internal/admission/effective.go.
pub mod Vouched
use goalrail.Base.{
  String, Bool, false, List, [], ◌∷◌, Option, none, some, ◌&&◌, ◌||◌, not, ◌==◌, concat, contains,
  add_key, sort_by, text_lt, Time, utc, is_zero, before, after, is_empty, find_first, if◌then◌else◌,
}
use goalrail.Domain.{
  AdmissionPacket, AdmissionReasonCode, Codec, ProjectPolicy, owner_decision_allow,
  lineage_pull_request, lineage_review_index, lineage_check_set, lineage_owner_decision,
  lineage_closure, LineageRelation,
}
use goalrail.Admission.Types.{
  ProviderCandidate, FrozenRange, Refusal, refusal, Checked, pass, refuse, candidate_eq,
}

abbrev pub candidate_relations : List LineageRelation
candidate_relations =
    lineage_pull_request ∷ lineage_review_index ∷ lineage_check_set ∷ lineage_owner_decision
    ∷ lineage_closure ∷ []

abbrev pub candidate_ref : ProviderCandidate → String
candidate_ref c = if not (c.identity == "") then c.identity else concat "candidate:" c.relation

abbrev pub candidate_lt : ProviderCandidate → ProviderCandidate → Bool
candidate_lt a b =
    if not (a.relation == b.relation)
    then text_lt a.relation b.relation
    else (if not (a.identity == b.identity)
        then text_lt a.identity b.identity
        else (if not (a.digest == b.digest)
            then text_lt a.digest b.digest
            else (if not (a.actor_ref == b.actor_ref)
                then text_lt a.actor_ref b.actor_ref
                else before (utc a.observed_at) (utc b.observed_at))))

unfoldable pub has_bounded_evaluation_time : Codec → AdmissionPacket → Bool
has_bounded_evaluation_time codec packet = elim packet.evaluation_time [
  | none ↦ false
  | some t ↦ not (is_zero t) && codec.is_evidence_reference packet.time_authority_ref
]

-- Read only behind `has_bounded_evaluation_time`.
abbrev pub evaluation_instant : AdmissionPacket → Time
evaluation_instant packet = elim packet.evaluation_time [
  | none ↦ record { instant = 0; zone = 0 }
  | some t ↦ utc t
]

unfoldable pub supported_owner_outcome : ProjectPolicy → String → Bool
supported_owner_outcome policy outcome = contains policy.owner_decision.outcomes outcome

module _ (codec : Codec) where
  unfoldable pub well_formed_candidate : ProviderCandidate → Bool
  well_formed_candidate c =
      contains candidate_relations c.relation
      && (codec.is_evidence_reference c.identity
          && (not (c.adapter_id == "")
              && (codec.is_sha256_digest c.digest && codec.is_evidence_reference c.provider_ref)))

  unfoldable pub in_range : FrozenRange → ProviderCandidate → Bool
  in_range frozen c =
      c.base_revision == frozen.base_revision && c.head_revision == frozen.head_revision

  unfoldable pub trusted_at : Time → ProviderCandidate → Bool
  trusted_at now c =
      c.authenticated && (not (is_zero c.observed_at) && not (after (utc c.observed_at) now))

  unfoldable pub well_formed_owner_decision : ProjectPolicy → ProviderCandidate → Bool
  well_formed_owner_decision policy c =
      codec.is_evidence_reference c.actor_ref
      && (codec.is_evidence_reference c.authority_ref && supported_owner_outcome policy c.outcome)

  unfoldable pub candidate_conflict : List ProviderCandidate → ProviderCandidate → Option Refusal
  candidate_conflict claimed c = elim (find_first (λ q. q.relation == c.relation) claimed) [
    | none ↦ none
    | some q ↦
        if not (candidate_eq q c)
        then some
            (refusal AdmissionReasonCode.lineage_conflict (candidate_ref q ∷ candidate_ref c ∷ []))
        else none
  ]

  unfoldable pub candidate_fault :
      FrozenRange
      → ProjectPolicy
      → Time
      → List ProviderCandidate
      → ProviderCandidate
      → Option Refusal
  candidate_fault frozen policy now claimed c =
      if not (well_formed_candidate c)
      then some (refusal AdmissionReasonCode.packet_invalid (candidate_ref c ∷ []))
      else (if not (in_range frozen c)
          then some (refusal AdmissionReasonCode.range_mismatch (candidate_ref c ∷ []))
          else (if not (trusted_at now c)
              then some (refusal AdmissionReasonCode.provenance_untrusted (candidate_ref c ∷ []))
              else elim (candidate_conflict claimed c) [
                | some fault ↦ some fault
                | none ↦
                    if c.relation == lineage_owner_decision
                      && not (well_formed_owner_decision policy c)
                    then some (refusal AdmissionReasonCode.packet_invalid (candidate_ref c ∷ []))
                    else none
              ]))

  unfoldable pub candidate_satisfies : ProjectPolicy → ProviderCandidate → Bool
  candidate_satisfies policy c =
      not (c.relation == lineage_owner_decision)
      || (contains policy.owner_decision.authority_refs c.authority_ref
          && c.outcome == owner_decision_allow)

  unfoldable pub accept_candidates :
      FrozenRange
      → ProjectPolicy
      → Time
      → List ProviderCandidate
      → List LineageRelation
      → List ProviderCandidate
      → Checked (List LineageRelation)
  accept_candidates frozen policy now [] satisfied claimed = pass satisfied
  accept_candidates frozen policy now (c ∷ cs) satisfied claimed =
      elim (candidate_fault frozen policy now claimed c) [
        | some fault ↦ refuse fault
        | none ↦
            accept_candidates frozen policy now cs
              (if candidate_satisfies policy c then add_key c.relation satisfied else satisfied)
              (c ∷ claimed)
      ]

  unfoldable pub evaluate_candidates :
      List ProviderCandidate
      → FrozenRange
      → ProjectPolicy
      → AdmissionPacket
      → Checked (List LineageRelation)
  evaluate_candidates candidates frozen policy packet =
      if is_empty candidates
      then pass []
      else (if not (has_bounded_evaluation_time codec packet)
          then refuse
              (refusal AdmissionReasonCode.trusted_time_missing ("packet:evaluation-time" ∷ []))
          else accept_candidates frozen policy (evaluation_instant packet)
              (sort_by candidate_lt candidates) [] [])
