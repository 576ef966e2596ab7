-- ===== src/LocalRun/Finish.antt =====
-- Service.Finish of internal/localrun/service.go, with terminalObservation and retainedEscalation
-- of escalation.go.
pub mod Final
pub mod Passed
pub mod Recorded
use goalrail.Base.{String, List, Option, none, some, ◌&&◌, not, is_empty, is_none, if◌then◌else◌}
use goalrail.LocalRun.Types.{
  LaunchClaim, CheckResult, ProviderObservation, EscalationRecord, WorktreeObservation,
  TerminalReceipt, RunState, failed,
}
use goalrail.LocalRun.Action.{
  Action, pure, optional, or_raise, raise_if, if_exists, ◌>>=◌, ◌>>◌, failed_with,
  terminal_receipt_exists,
}
use goalrail.LocalRun.Store.{read_json, write_json_once, run_path}
use goalrail.LocalRun.Checks.{Tally, normalize_check_results}
use goalrail.LocalRun.Delta.{compare_worktrees}
use goalrail.LocalRun.Validate.{validate_terminal_receipt}
use goalrail.LocalRun.Escalation.{observation_has_escalation, apply_escalation_rules}
use goalrail.LocalRun.Host.{Host, FinishCall}
use goalrail.LocalRun.Inspect.{PreparedRun, inspect_prepared, inspect_run}
use goalrail.LocalRun.Receipt.{build_receipt, note_if}
use goalrail.LocalRun.Start.{is_awaiting}

pub record FinishInput : Type 0 where
  pub run_id : String
  pub results : List CheckResult

-- The status and the reasons: the delta's, then the escalation's.
unfoldable pub finished_status :
    {Bytes : Type 0}
    → PreparedRun Bytes
    → Tally
    → WorktreeObservation
    → Option EscalationRecord
    → RunState × List String
finished_status run tally terminal escalation =
    let paths = run.work_spec.spec.paths in
    let delta = compare_worktrees run.preparation.baseline terminal paths in
    let strayed = not (is_empty delta.scope_violations) in
    apply_escalation_rules
      (if strayed then failed else if delta.head_changed then failed else tally.status)
      (note_if strayed "SCOPE_VIOLATION" (note_if delta.head_changed "HEAD_CHANGED" tally.reasons))
      escalation delta paths

pub record AwaitingRun (Bytes : Type 0) : Type 0 where
  pub claim : LaunchClaim
  pub observation : ProviderObservation
  pub run : PreparedRun Bytes

-- What is stored, and the fresh observation where nothing is.
abbrev pub stored_or :
    Option WorktreeObservation → Option WorktreeObservation → Option WorktreeObservation
stored_or observed none = observed
stored_or observed (some stored) = some stored

module _ {Bytes : Type 0} (host : Host Bytes) (call : FinishCall) where
  unfoldable pub terminal_observation : String → Action Bytes WorktreeObservation
  terminal_observation run_id = do
    stored ←
        optional (read_json host.worktrees call.disk (run_path run_id "terminal-observation.json"))
    or_raise (failed_with "observe worktree") (stored_or call.observed stored)

  unfoldable pub retained_escalation : String → Action Bytes (Option EscalationRecord)
  retained_escalation run_id =
      optional (read_json host.escalations call.disk (run_path run_id "escalation.json"))

  -- The run that `Finish` goes on from: it has an observation that awaits its checks, and no
  -- receipt.
  unfoldable pub awaiting_run : String → Action Bytes (AwaitingRun Bytes)
  awaiting_run run_id = do
    inspection ← inspect_run host call.disk run_id
    raise_if (not (is_none inspection.receipt)) terminal_receipt_exists
    observation ← or_raise (failed_with "no provider observation") inspection.observation
    raise_if (not (is_awaiting observation)) (failed_with "run is not awaiting verification")
    run ← inspect_prepared host call.disk inspection.claim.work_spec_digest
    pure (record { claim = inspection.claim; observation = observation; run = run })

  -- What the run has left in the store.
  unfoldable pub left_by : String → Action Bytes (WorktreeObservation × Option EscalationRecord)
  left_by run_id = do
    terminal ← terminal_observation run_id
    escalation ← retained_escalation run_id
    raise_if (is_none escalation && observation_has_escalation terminal)
        (failed_with "no retained escalation record")
    pure (terminal, escalation)

  -- The receipt that `Finish` builds.
  unfoldable pub finished_receipt :
      AwaitingRun Bytes → Tally → WorktreeObservation → Option EscalationRecord → TerminalReceipt
  finished_receipt w tally terminal escalation =
      let (status, reasons) = finished_status w.run tally terminal escalation in
      build_receipt w.run w.claim w.observation tally.results status reasons terminal
        (compare_worktrees w.run.preparation.baseline terminal w.run.work_spec.spec.paths)
        escalation call.now

  -- The write of the receipt.
  unfoldable pub publish_receipt : String → TerminalReceipt → Action Bytes TerminalReceipt
  publish_receipt run_id receipt = do
    raise_if (not (validate_terminal_receipt receipt)) (failed_with "invalid terminal receipt")
    if_exists terminal_receipt_exists
        (write_json_once host.receipts call.disk (run_path run_id "terminal-receipt.json") receipt)
    pure receipt

  unfoldable pub finish : FinishInput → Action Bytes TerminalReceipt
  finish input = do
    w ← awaiting_run input.run_id
    tally ← or_raise (failed_with "check results") (
        normalize_check_results host.is_evidence_reference w.run.work_spec.spec.checks
          input.results)
    (terminal, escalation) ← left_by input.run_id
    publish_receipt input.run_id (finished_receipt w tally terminal escalation)
