-- ===== src/LocalRun/Escalation.antt =====
-- The escalation rules of internal/localrun/escalation.go.
pub mod Ends
use goalrail.Base.{
  String, Bool, List, Option, none, some, ◌==◌, ◌&&◌, ◌||◌, not, if◌then◌else◌, any, find_first,
  is_empty, is_none,
}
use goalrail.LocalRun.Types.{
  WorktreeEntry, WorktreeObservation, WorktreeDelta, EscalationRecord, RunState, failed, blocked,
  is_failed, reserved_escalation_path,
}
use goalrail.LocalRun.Checks.{append_reason}
use goalrail.LocalRun.Delta.{path_in_scope}

unfoldable pub escalation_entry : WorktreeObservation → Option WorktreeEntry
escalation_entry observation =
    find_first (λ e. e.path == reserved_escalation_path) observation.entries

unfoldable pub observation_has_escalation : WorktreeObservation → Bool
observation_has_escalation observation = not (is_none (escalation_entry observation))

unfoldable pub has_in_scope_edits : WorktreeDelta → List String → Bool
has_in_scope_edits delta scope =
    any (λ path. not (path == reserved_escalation_path) && path_in_scope path scope)
      delta.changed_paths

unfoldable pub apply_escalation_rules :
    RunState
    → List String
    → Option EscalationRecord
    → WorktreeDelta
    → List String
    → RunState × List String
apply_escalation_rules status reasons none delta scope = (status, reasons)
apply_escalation_rules status reasons (some escalation) delta scope =
    let recorded = append_reason reasons "ESCALATION_RECORDED" in
    if not escalation.valid
    then (
      failed,
      append_reason recorded
          (if escalation.reason == "" then "ESCALATION_ARTIFACT_INVALID" else escalation.reason),
    )
    else if delta.head_changed || not (is_empty delta.scope_violations)
    then (failed, recorded)
    else if has_in_scope_edits delta scope
    then (failed, append_reason recorded "BLOCKED_WITH_EDITS")
    else if is_failed status
    then (failed, recorded)
    else (blocked, append_reason recorded "ESCALATION_PENDING")
