-- ===== src/LocalRun/Receipt.antt =====
-- The terminal receipts: buildReceipt and failureReceipt of internal/localrun/service.go.
use goalrail.Base.{
  String, Bool, true, false, List, [], ◌∷◌, Option, some, ◌==◌, not, is_empty, is_none, map, Time,
  sort_texts, if◌then◌else◌,
}
use goalrail.Domain.{WorkSpecCheck, result_unavailable}
use goalrail.LocalRun.Types.{
  CheckResult, EscalationRecord, LaunchClaim, ProviderObservation, RunState, TerminalReceipt,
  WorktreeDelta, WorktreeObservation, identity_verified, IdentityStatus, terminal_receipt_schema_v1,
}
use goalrail.LocalRun.Action.{Action, pure, raise_if, ◌>>◌, failed_with}
use goalrail.LocalRun.Store.{Disk, write_json_once, run_path}
use goalrail.LocalRun.Checks.{append_reason}
use goalrail.LocalRun.Delta.{compare_worktrees}
use goalrail.LocalRun.Validate.{validate_terminal_receipt, state_for_observation}
use goalrail.LocalRun.Host.{Host}
use goalrail.LocalRun.Inspect.{PreparedRun}

abbrev pub has_verified_identity : IdentityStatus → Bool
has_verified_identity identity_verified = true
has_verified_identity _ = false

-- `if test { reasons = appendReason(reasons, reason) }`
unfoldable pub note_if : Bool → String → List String → List String
note_if test reason reasons = if test then append_reason reasons reason else reasons

unfoldable pub unavailable_result : WorkSpecCheck → CheckResult
unavailable_result check = record {
  id = check.id;
  state = result_unavailable;
  evidence_ref = "";
  evidence_digest = "";
}

module _ {Bytes : Type 0} where
  unfoldable pub build_receipt :
      PreparedRun Bytes
      → LaunchClaim
      → ProviderObservation
      → List CheckResult
      → RunState
      → List String
      → WorktreeObservation
      → WorktreeDelta
      → Option EscalationRecord
      → Time
      → TerminalReceipt
  build_receipt prepared claim observation results status reasons terminal delta escalation at =
      let spec = prepared.work_spec.spec in
      record {
        schema = terminal_receipt_schema_v1;
        work_spec_id = spec.id;
        work_spec_version = spec.version;
        work_spec_digest = prepared.work_spec.digest;
        intent = some (record {
          id = spec.intent.id;
          version = spec.intent.version;
          digest = spec.intent.digest;
        });
        escalation = escalation;
        run_id = claim.run_id;
        adapter = claim.adapter;
        adapter_version = claim.adapter_version;
        root_session_ref =
            if has_verified_identity observation.identity_status
            then observation.root_session_ref
            else "";
        unlinked_reason =
            if has_verified_identity observation.identity_status then "" else observation.reason;
        base_revision = spec.repository.base_revision;
        terminal_head = terminal.head;
        effective_paths = spec.paths;
        checks = spec.checks;
        check_results = results;
        status = status;
        reasons = sort_texts reasons;
        worktree_delta = delta;
        prepared_at = prepared.preparation.prepared_at;
        launch_attempted_at = claim.attempted_at;
        provider_observed_at = observation.observed_at;
        terminal_at = at;
      }

  -- The receipt that `failureReceipt` builds.
  unfoldable pub failure_record :
      PreparedRun Bytes
      → LaunchClaim
      → ProviderObservation
      → WorktreeObservation
      → Option EscalationRecord
      → Time
      → TerminalReceipt
  failure_record prepared claim observation terminal escalation at =
      let spec = prepared.work_spec.spec in
      let delta = compare_worktrees prepared.preparation.baseline terminal spec.paths in
      let stated = if observation.reason == "" then [] else observation.reason ∷ [] in
      build_receipt prepared claim observation (map unavailable_result spec.checks)
        (state_for_observation observation)
        (note_if (not (is_none escalation)) "ESCALATION_RECORDED" (
          note_if (not (is_empty delta.scope_violations)) "SCOPE_VIOLATION"
            (note_if delta.head_changed "HEAD_CHANGED" stated)))
        terminal delta escalation at

  unfoldable pub failure_receipt :
      Host Bytes
      → Disk
      → PreparedRun Bytes
      → LaunchClaim
      → ProviderObservation
      → WorktreeObservation
      → Option EscalationRecord
      → Time
      → Action Bytes TerminalReceipt
  failure_receipt host disk prepared claim observation terminal escalation at = do
    let receipt = failure_record prepared claim observation terminal escalation at
    raise_if (not (validate_terminal_receipt receipt)) (failed_with "invalid terminal receipt")
    write_json_once host.receipts disk (run_path claim.run_id "terminal-receipt.json") receipt
    pure receipt
