-- ===== src/Admission/Opened.antt =====
-- A name that opens the whole verifier of internal/admission for evaluation.
use goalrail.Admission.Ancestry.{
  ancestor_within_range, ancestor_outcome, walk, scan_parents, visit_parent,
}
use goalrail.Admission.Restoration.{
  restoration_failure, anchored_before, precedes, material_touches, claim_anchor, commits_touching,
  amends_normative_path, bound_to_recorded_artifact,
}
use goalrail.Admission.Exception.{
  authorized_exception, try_events, try_targets, try_target, current_envelope, try_authorities,
  authority_admits, restoration_of, scope_admitted, duration_admitted, matches_authority,
  exceeds_limit, exception_may_bypass, admission_class,
}
use goalrail.Admission.Evidence.{
  verify_packet_evidence, events_fault, targets_fault, target_fault, trusted_item, provenance_of,
  packet_refs_fault, trusted_without_packet, has_relation, has_trusted_evaluation_time,
  missing_evidence_kinds, evidence_kind_present,
}
use goalrail.Admission.Binding.{
  verify_graph_binding, verify_commits, graph_conflict_refs, conflict_digests, digests_to_refs,
  graph_commit_set_matches, unlinked_changes, unlinked, link_events, link_targets, commit_revision,
  relation_targets, contains_evidence_reference, has_required_spine,
}
use goalrail.Admission.Authority.{
  resolve_authority, base_authority, governed, valid_governance, digest_is,
}
use goalrail.Admission.Completeness.{
  evaluate_completeness, classify, blocks_admission, blocks_closed, ambiguous_relations,
  retained_unavailable, missing_relations, scan_events, expired_targets, exception_expired,
  required_relation,
}
use goalrail.Admission.Effective.{build_effective_view, view_satisfied, view_present}
use goalrail.Admission.Candidates.{
  evaluate_candidates, accept_candidates, candidate_satisfies, candidate_fault, candidate_conflict,
  well_formed_owner_decision, trusted_at, in_range, well_formed_candidate, supported_owner_outcome,
  has_bounded_evaluation_time,
}
use goalrail.Admission.Projections.{
  evaluate_projections, accept_projections, projection_satisfies, projection_fault,
  well_formed_projection, projection_binds_committed_target, projection_states, projection_contract,
}
use goalrail.Admission.Paths.{prefix_covers, paths_covered, subset, repository_path}
use goalrail.Admission.Policy.{
  evaluate_policy, evaluate_changes, evaluate_paths, change_paths, record_decision, add_keys,
  evaluate_path, scan_rules, offer_rule, rule_matches,
}
use goalrail.Admission.Denial.{
  base_result, unique_strings, deny_many, missing_reason, deny_missing, binding_class,
  evidence_class, view_class,
}
use goalrail.Admission.Verify.{
  verify, verify_range, verify_authority, verify_policy, verify_binding, verify_evidence,
  verify_view, verify_completeness, verify_exception, apply_exception, verify_lifecycle,
  without_closure, evaluated_at,
}
use goalrail.Base.{any, all, keep, find_first, find_last, sort_by, contains, add_key}
use goalrail.Domain.{reference_eq}
use goalrail.Admission.Types.{projection_eq, candidate_eq}

-- Opens the verifier for evaluation.
unfoldable pub run : Unit {0}
unfolding verify verify_range verify_authority verify_policy verify_binding verify_evidence
    verify_view verify_completeness verify_exception apply_exception verify_lifecycle
    without_closure evaluated_at base_result unique_strings deny_many missing_reason deny_missing
    binding_class evidence_class view_class evaluate_policy evaluate_changes evaluate_paths
    change_paths record_decision add_keys evaluate_path scan_rules offer_rule rule_matches
    prefix_covers paths_covered subset repository_path evaluate_projections accept_projections
    projection_satisfies projection_fault well_formed_projection projection_binds_committed_target
    projection_states projection_contract projection_eq evaluate_candidates accept_candidates
    candidate_satisfies candidate_fault candidate_conflict well_formed_owner_decision trusted_at
    in_range well_formed_candidate supported_owner_outcome has_bounded_evaluation_time candidate_eq
    build_effective_view view_satisfied view_present evaluate_completeness classify blocks_admission
    blocks_closed ambiguous_relations retained_unavailable missing_relations scan_events
    expired_targets exception_expired required_relation resolve_authority base_authority governed
    valid_governance digest_is verify_graph_binding verify_commits graph_conflict_refs
    conflict_digests digests_to_refs graph_commit_set_matches unlinked_changes unlinked link_events
    link_targets commit_revision relation_targets contains_evidence_reference has_required_spine
    verify_packet_evidence events_fault targets_fault target_fault trusted_item provenance_of
    packet_refs_fault trusted_without_packet has_relation has_trusted_evaluation_time
    missing_evidence_kinds evidence_kind_present reference_eq authorized_exception try_events
    try_targets try_target current_envelope try_authorities authority_admits restoration_of
    scope_admitted duration_admitted matches_authority exceeds_limit exception_may_bypass
    admission_class restoration_failure anchored_before precedes material_touches claim_anchor
    commits_touching amends_normative_path bound_to_recorded_artifact ancestor_within_range
    ancestor_outcome walk scan_parents visit_parent any all keep find_first find_last sort_by
    contains add_key
run = tt
