-- ===== src/Admission/Denial.antt =====
-- `baseResult`, `deny`, `denyMany` and `missingLineageReason` of internal/admission/evaluate.go, and
-- the classification of each refused check.
use goalrail.Base.{String, List, [], ◌∷◌, map, none, some, concat, contains, sort_texts, find_first}
use goalrail.Domain.{
  LineageRelation, AdmissionPacket, AdmissionResult, AdmissionReason, AdmissionReasonCode,
  AdmissionClassification, AdmissionOutcome, lineage_project_policy, lineage_confirmed_intent,
  lineage_change, lineage_work_spec, lineage_run_session, lineage_commit, lineage_pull_request,
  lineage_review_index, lineage_check_set, lineage_terminal_receipt, lineage_owner_decision,
}
use goalrail.Admission.Policy.{add_keys}

unfoldable pub base_result : AdmissionPacket → AdmissionResult
base_result packet = record {
  schema = "goalrail.admission-result/v1";
  project_id = packet.project_id;
  policy_digest = packet.policy_digest;
  base_revision = packet.base_revision;
  head_revision = packet.head_revision;
  material_paths = [];
  work_unit_ref = packet.work_unit_ref;
  classification = AdmissionClassification.invalid;
  outcome = AdmissionOutcome.deny;
  reasons = [];
  missing_refs = [];
  conflict_refs = [];
  verifier_version = "goalrail-admission-v1";
}

-- `uniqueStrings` and `uniqueRelations`: the keys of a map.
unfoldable pub unique_strings : List String → List String
unique_strings values = add_keys values []

abbrev pub missing_refs_for : AdmissionClassification → List String → List String → List String
missing_refs_for AdmissionClassification.missing refs old = refs
missing_refs_for _ refs old = old

abbrev pub conflict_refs_for : AdmissionClassification → List String → List String → List String
conflict_refs_for AdmissionClassification.ambiguous refs old = refs
conflict_refs_for _ refs old = old

unfoldable pub deny_many :
    AdmissionResult → AdmissionClassification → AdmissionReasonCode → List String → AdmissionResult
deny_many result classification reason references =
    let refs = sort_texts (unique_strings references) in
    record result {
      classification = classification;
      outcome = AdmissionOutcome.deny;
      reasons = record { code = reason; evidence_refs = refs } ∷ [];
      missing_refs = missing_refs_for classification refs result.missing_refs;
      conflict_refs = conflict_refs_for classification refs result.conflict_refs;
    }

abbrev pub deny :
    AdmissionResult → AdmissionClassification → AdmissionReasonCode → String → AdmissionResult
deny result classification reason reference =
    deny_many result classification reason (reference ∷ [])

abbrev pub preferred_reasons : List (LineageRelation × AdmissionReasonCode)
preferred_reasons =
    (lineage_project_policy, AdmissionReasonCode.declaration_invalid)
    ∷ (lineage_confirmed_intent, AdmissionReasonCode.intent_unconfirmed)
    ∷ (lineage_change, AdmissionReasonCode.change_mismatch)
    ∷ (lineage_work_spec, AdmissionReasonCode.work_spec_missing)
    ∷ (lineage_run_session, AdmissionReasonCode.run_session_missing)
    ∷ (lineage_commit, AdmissionReasonCode.change_mismatch)
    ∷ (lineage_pull_request, AdmissionReasonCode.pull_request_missing)
    ∷ (lineage_review_index, AdmissionReasonCode.review_missing)
    ∷ (lineage_check_set, AdmissionReasonCode.check_missing)
    ∷ (lineage_terminal_receipt, AdmissionReasonCode.receipt_missing)
    ∷ (lineage_owner_decision, AdmissionReasonCode.owner_decision_missing)
    ∷ []

unfoldable pub missing_reason : List LineageRelation → AdmissionReasonCode
missing_reason relations = elim (find_first (λ p. contains relations p.0) preferred_reasons) [
  | none ↦ AdmissionReasonCode.material_path_unbound
  | some (_, reason) ↦ reason
]

-- `missingLineageReason`, and the denial that every caller makes of it.
unfoldable pub deny_missing : AdmissionResult → List LineageRelation → AdmissionResult
deny_missing result relations =
    deny_many result AdmissionClassification.missing (missing_reason relations)
      (map (concat "lineage:") (sort_texts relations))

abbrev pub allow_with :
    AdmissionResult → AdmissionClassification → List AdmissionReason → AdmissionResult
allow_with result classification reasons = record result {
  classification = classification;
  outcome = AdmissionOutcome.allow;
  reasons = reasons;
}

-- The classification of a refused graph binding, of refused packet evidence, of a refused view.
unfoldable pub binding_class : AdmissionReasonCode → AdmissionClassification
binding_class AdmissionReasonCode.lineage_conflict = AdmissionClassification.ambiguous
binding_class _ = AdmissionClassification.invalid

unfoldable pub evidence_class : AdmissionReasonCode → AdmissionClassification
evidence_class AdmissionReasonCode.material_path_unbound = AdmissionClassification.missing
evidence_class AdmissionReasonCode.trusted_time_missing = AdmissionClassification.missing
evidence_class AdmissionReasonCode.lineage_conflict = AdmissionClassification.ambiguous
evidence_class _ = AdmissionClassification.invalid

unfoldable pub view_class : AdmissionReasonCode → AdmissionClassification
view_class AdmissionReasonCode.trusted_time_missing = AdmissionClassification.missing
view_class AdmissionReasonCode.lineage_conflict = AdmissionClassification.ambiguous
view_class _ = AdmissionClassification.invalid
