-- ===== src/LocalRun/Opened.antt =====
-- A name that opens the local run of internal/localrun for evaluation.
use goalrail.Base.{
  all_chars, char_count, byte_length, is_blank, split_slash, join_slash, clean_parts, clean_path,
  any, find_first, find_last, keep, sort_by, contains, add_key,
}
use goalrail.Domain.{
  is_canonical_id, is_hex_digest, has_unsafe_control, validate_escalation_payload, freeze_work_spec,
  open_frozen_work_spec,
}
use goalrail.LocalRun.Store.{
  store_path, prepared_path, run_path, find_file, write_bytes_once, read_bytes, write_json_once,
  read_json,
}
use goalrail.LocalRun.Checks.{
  append_reason, validate_check_result, admits_result, results_by_id, result_for, tally_result,
  tally_checks, normalize_check_results,
}
use goalrail.LocalRun.Delta.{
  entry_eq, entry_at, paths_of, path_in_scope, is_violation, changed_between, compare_worktrees,
}
use goalrail.LocalRun.Escalation.{
  escalation_entry, observation_has_escalation, has_in_scope_edits, apply_escalation_rules,
}
use goalrail.LocalRun.Validate.{
  validate_launch_claim, valid_identity, validate_provider_observation, valid_receipt_metadata,
  valid_receipt_schema, same_checks, validate_terminal_receipt, state_for_observation,
}
use goalrail.LocalRun.Inspect.{
  observation_of, receipt_of, read_own, read_claim, read_observation, read_receipt, inspect_run,
  claimed_state, with_claim, inspect_prepared,
}
use goalrail.LocalRun.Receipt.{
  note_if, unavailable_result, build_receipt, failure_record, failure_receipt,
}
use goalrail.LocalRun.Prepare.{
  admit_work_spec, prepare_anew, reuse_or_prepare, prepare_frozen, prepare,
}
use goalrail.LocalRun.Start.{
  is_awaiting, retained_record, changed_since, retain_bytes, capture_entry, capture_escalation,
  keep_escalation, observed_launch, still_pinned, activate, ready_run, new_claim, claim_work_spec,
  claim_run, make_claim, conclude, record_launch, launch_run, start,
}
use goalrail.LocalRun.Finish.{
  finished_status, terminal_observation, retained_escalation, awaiting_run, left_by,
  finished_receipt, publish_receipt, finish,
}

-- Opens the local run for evaluation.
unfoldable pub run : Unit {0}
unfolding store_path prepared_path run_path find_file write_bytes_once read_bytes write_json_once
    read_json append_reason validate_check_result admits_result results_by_id result_for
    tally_result tally_checks normalize_check_results entry_eq entry_at paths_of path_in_scope
    is_violation changed_between compare_worktrees escalation_entry observation_has_escalation
    has_in_scope_edits apply_escalation_rules validate_launch_claim valid_identity
    validate_provider_observation valid_receipt_metadata valid_receipt_schema same_checks
    validate_terminal_receipt state_for_observation observation_of receipt_of read_own read_claim
    read_observation read_receipt inspect_run claimed_state with_claim inspect_prepared note_if
    unavailable_result build_receipt failure_record failure_receipt admit_work_spec prepare_anew
    reuse_or_prepare prepare_frozen prepare is_awaiting retained_record changed_since retain_bytes
    capture_entry capture_escalation keep_escalation observed_launch still_pinned activate ready_run
    new_claim claim_work_spec claim_run make_claim conclude record_launch launch_run start
    finished_status terminal_observation retained_escalation awaiting_run left_by finished_receipt
    publish_receipt finish is_canonical_id is_hex_digest has_unsafe_control
    validate_escalation_payload freeze_work_spec open_frozen_work_spec all_chars char_count
    byte_length is_blank split_slash join_slash clean_parts clean_path any find_first find_last keep
    sort_by contains add_key
run = tt
