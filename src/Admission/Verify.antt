-- ===== src/Admission/Verify.antt =====
-- `Verify` and `CanonicalResult` of internal/admission/evaluate.go. The verifier is cut at its early
-- returns: each stage returns its own denials and calls the next one.
pub mod Allowed
pub mod Owner
pub mod Refusals
pub mod Coherent
pub mod Decided
pub mod Lineage
pub mod Intent
pub mod Covered
use goalrail.Base.{
  String, List, [], ◌∷◌, ◌++◌, map, Option, none, some, ◌&&◌, ◌||◌, not, ◌==◌, concat, keep,
  is_empty, Time, utc, if◌then◌else◌, ℕ,
}
use goalrail.Domain.{
  LineageRelation, Codec, AdmissionResult, AdmissionReasonCode, AdmissionClassification,
  AdmissionOutcome, work_unit_admission_ready, work_unit_closed, lineage_owner_decision,
  lineage_closure,
}
use goalrail.Admission.Types.{Input, refuse, pass}
use goalrail.Admission.Policy.{PolicyEvaluation, evaluate_policy}
use goalrail.Admission.Effective.{EffectiveView, view_satisfied, build_effective_view}
use goalrail.Admission.Completeness.{Completeness, evaluate_completeness}
use goalrail.Admission.Binding.{verify_graph_binding, graph_conflict_refs, digests_to_refs}
use goalrail.Admission.Authority.{Authority, resolve_authority}
use goalrail.Admission.Evidence.{verify_packet_evidence, missing_evidence_kinds}
use goalrail.Admission.Exception.{
  granted, open_verdict, authorized_exception, exception_may_bypass, admission_class,
}
use goalrail.Admission.Denial.{
  base_result, unique_strings, deny_many, deny, deny_missing, allow_with, binding_class,
  evidence_class, view_class,
}

unfoldable pub without_closure : List LineageRelation → List LineageRelation
without_closure values = keep (λ value. not (value == lineage_closure)) values

unfoldable pub evaluated_at : Input → Time
evaluated_at input = elim input.packet.evaluation_time [
  | none ↦ utc input.frozen.graph.unit.created_at
  | some t ↦ utc t
]

-- After the exception: what the ordinary route still lacks, and the two ways to be allowed.
unfoldable pub verify_lifecycle :
    Input → Authority → Completeness → AdmissionResult → AdmissionResult
verify_lifecycle input authority c result =
    if not (is_empty (without_closure c.missing)) || not (is_empty c.unavailable)
    then deny_missing result (unique_strings (without_closure c.missing ++ c.unavailable))
    else (if not (c.lifecycle == work_unit_admission_ready) && not (c.lifecycle == work_unit_closed)
        then deny result AdmissionClassification.missing AdmissionReasonCode.material_path_unbound
            "lineage:lifecycle"
        else (if authority.bootstrap
            then allow_with result AdmissionClassification.bootstrap (
                record {
                  code = AdmissionReasonCode.bootstrap_range;
                  evidence_refs = concat "git:head/" input.packet.head_revision ∷ [];
                }
                ∷ [])
            else allow_with result AdmissionClassification.valid result.reasons))

unfoldable pub apply_exception :
    EffectiveView → Completeness → String → AdmissionResult → AdmissionResult
apply_exception view c exception_class result =
    if not (view_satisfied view lineage_owner_decision)
    then deny result AdmissionClassification.missing AdmissionReasonCode.owner_decision_missing
        "lineage:owner_decision"
    else (if not (exception_may_bypass c.missing)
        then deny_missing result c.missing
        else allow_with result (admission_class exception_class) (
            record {
              code = AdmissionReasonCode.exception_applied;
              evidence_refs = "lineage:exception" ∷ [];
            }
            ∷ []))

module _ (codec : Codec) (input : Input) (authority : Authority) where
  unfoldable pub verify_exception : EffectiveView → Completeness → AdmissionResult → AdmissionResult
  verify_exception view c result =
      elim (authorized_exception codec input.frozen authority.policy result.material_paths
        (evaluated_at input)) [
          | granted exception_class ↦ apply_exception view c exception_class result
          | open_verdict observed (some denial) ↦
              deny result AdmissionClassification.invalid denial "lineage:exception"
          | open_verdict observed none ↦
              if observed
              then deny result AdmissionClassification.invalid
                  AdmissionReasonCode.exception_scope_mismatch "lineage:exception"
              else verify_lifecycle input authority c result
        ]

  unfoldable pub verify_completeness : EffectiveView → AdmissionResult → AdmissionResult
  verify_completeness view result =
      elim (evaluate_completeness codec input.frozen.graph (evaluated_at input) view) [
        | none ↦
            deny result AdmissionClassification.invalid AdmissionReasonCode.packet_invalid
              "lineage:exception"
        | some c ↦
            if not (is_empty c.expired_exceptions)
            then deny_many result AdmissionClassification.invalid
                AdmissionReasonCode.exception_expired (digests_to_refs c.expired_exceptions)
            else (if not (is_empty c.ambiguous)
                then deny_many result AdmissionClassification.ambiguous
                    AdmissionReasonCode.lineage_conflict (graph_conflict_refs input.frozen.graph)
                else verify_exception view c result)
      ]

  unfoldable pub verify_view : AdmissionResult → AdmissionResult
  verify_view result = elim (build_effective_view codec input authority.policy) [
    | refuse fault ↦ deny_many result (view_class fault.code) fault.code fault.refs
    | pass view ↦ verify_completeness view result
  ]

  unfoldable pub verify_evidence : PolicyEvaluation → AdmissionResult → AdmissionResult
  verify_evidence evaluation result =
      elim (verify_packet_evidence codec input.frozen.graph input.packet) [
        | some fault ↦ deny_many result (evidence_class fault.code) fault.code fault.refs
        | none ↦
            let kinds =
              missing_evidence_kinds evaluation.required_evidence_kinds input.frozen.graph
                input.packet in
            if not (is_empty kinds)
            then deny_many result AdmissionClassification.missing
                AdmissionReasonCode.generated_evidence_missing (map (concat "evidence-kind:") kinds)
            else verify_view result
      ]

  unfoldable pub verify_binding : PolicyEvaluation → AdmissionResult → AdmissionResult
  verify_binding evaluation result =
      elim (verify_graph_binding codec input.frozen.graph input.packet input.frozen.commits
        input.frozen.changes evaluation.material_paths authority.declaration_digest
        authority.policy_digest) [
          | some fault ↦ deny_many result (binding_class fault.code) fault.code fault.refs
          | none ↦ verify_evidence evaluation result
        ]

  unfoldable pub verify_policy : AdmissionResult → AdmissionResult
  verify_policy bare =
      let evaluation = evaluate_policy authority.policy input.frozen.changes in
      let result = record bare { material_paths = evaluation.material_paths } in
      if not (is_empty evaluation.conflict_refs)
      then record result {
        classification = AdmissionClassification.ambiguous;
        outcome = AdmissionOutcome.deny;
        reasons =
            record {
              code = AdmissionReasonCode.policy_conflict;
              evidence_refs = evaluation.conflict_refs;
            }
            ∷ [];
        conflict_refs = evaluation.conflict_refs;
      }
      else verify_binding evaluation result

  unfoldable pub verify_authority : AdmissionResult → AdmissionResult
  verify_authority bare =
      let result = record bare {
        project_id = authority.declaration.project_id;
        policy_digest = authority.policy_digest;
      } in
      if not (input.packet.project_id == authority.declaration.project_id)
        || (not (input.packet.declaration_digest == authority.declaration_digest)
            || not (input.packet.policy_digest == authority.policy_digest))
      then deny result AdmissionClassification.invalid AdmissionReasonCode.declaration_invalid
          "packet:authority"
      else verify_policy result

unfoldable pub verify_range : Codec → Input → AdmissionResult → AdmissionResult
verify_range codec input result =
    if not (input.packet.base_revision == input.frozen.base_revision)
      || not (input.packet.head_revision == input.frozen.head_revision)
    then deny result AdmissionClassification.invalid AdmissionReasonCode.range_mismatch
        "packet:range"
    else elim (resolve_authority codec input.frozen) [
      | refuse fault ↦
          deny result AdmissionClassification.invalid fault.code "repo:root/.goalrail/project.json"
      | pass authority ↦ verify_authority codec input authority result
    ]

-- `none` is the error of a packet that is not valid.
unfoldable pub verify : Codec → Input → Option AdmissionResult
verify codec input =
    if codec.validate_packet input.packet
    then some (verify_range codec input (base_result input.packet))
    else none

-- The exit code beside the frozen bytes, which `freeze_result` stands for.
unfoldable pub canonical_result : Codec → AdmissionResult → Option (String × ℕ)
canonical_result codec result = elim (codec.freeze_result result) [
  | none ↦ none
  | some encoded ↦ some (
    concat encoded "\n",
    elim result.outcome [ AdmissionOutcome.allow ↦ 0 | AdmissionOutcome.deny ↦ 3 ],
  )
]
