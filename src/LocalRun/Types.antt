-- ===== src/LocalRun/Types.antt =====
-- The records of internal/localrun/types.go and EscalationRecord of escalation.go. An enum of
-- strings is a data type with one more constructor for the strings that the source does not name.
use goalrail.Base.{ℤ, concat, String, ℕ, Bool, List, Option, Time, true, false}
use goalrail.Domain.{WorkSpecDigest, WorkSpecCheck, CheckResultState}

pub data RunState : Type 0 where
  prepared launch_attempted awaiting_verification launch_failed unlinked : RunState
  launch_attempted_unknown passed failed verification_incomplete blocked : RunState
  state_other : String → RunState

pub data ProviderOutcome : Type 0 where
  provider_completed provider_denied provider_launch_failed : ProviderOutcome
  outcome_other : String → ProviderOutcome

pub data IdentityStatus : Type 0 where
  identity_verified identity_unlinked : IdentityStatus
  identity_other : String → IdentityStatus

pub record WorktreeEntry : Type 0 where
  pub path : String
  pub status : String
  pub mode : ℕ
  pub digest : String

pub record WorktreeObservation : Type 0 where
  pub head : String
  pub entries : List WorktreeEntry
  pub digest : String

pub record WorktreeDelta : Type 0 where
  pub baseline_digest : String
  pub terminal_digest : String
  pub head_changed : Bool
  pub changed_paths : List String
  pub scope_violations : List String

pub record Preparation : Type 0 where
  pub work_spec_digest : WorkSpecDigest
  pub prepared_at : Time
  pub baseline : WorktreeObservation
  pub state : RunState

pub record LaunchClaim : Type 0 where
  pub work_spec_digest : WorkSpecDigest
  pub run_id : String
  pub adapter : String
  pub adapter_version : String
  pub attempted_at : Time

pub record ProviderObservation : Type 0 where
  pub work_spec_digest : WorkSpecDigest
  pub run_id : String
  pub adapter : String
  pub adapter_version : String
  pub outcome : ProviderOutcome
  pub exit_code : ℤ
  pub identity_status : IdentityStatus
  pub root_session_ref : String
  pub reason : String
  pub observed_at : Time

pub record CheckResult : Type 0 where
  pub id : String
  pub state : CheckResultState
  pub evidence_ref : String
  pub evidence_digest : String

pub record ReceiptIntentReference : Type 0 where
  pub id : String
  pub version : ℕ
  pub digest : String

pub record EscalationRecord : Type 0 where
  pub path : String
  pub digest : String
  pub retained_ref : String
  pub valid : Bool
  pub reason : String

pub record TerminalReceipt : Type 0 where
  pub schema : String
  pub work_spec_id : String
  pub work_spec_version : ℕ
  pub work_spec_digest : WorkSpecDigest
  pub intent : Option ReceiptIntentReference
  pub escalation : Option EscalationRecord
  pub run_id : String
  pub adapter : String
  pub adapter_version : String
  pub root_session_ref : String
  pub unlinked_reason : String
  pub base_revision : String
  pub terminal_head : String
  pub effective_paths : List String
  pub checks : List WorkSpecCheck
  pub check_results : List CheckResult
  pub status : RunState
  pub reasons : List String
  pub worktree_delta : WorktreeDelta
  pub prepared_at : Time
  pub launch_attempted_at : Time
  pub provider_observed_at : Time
  pub terminal_at : Time

abbrev pub terminal_receipt_schema_v1 : String
terminal_receipt_schema_v1 = "goalrail.terminal-receipt/v1"

abbrev pub reserved_escalation_path : String
reserved_escalation_path = ".goalrail/blocked.md"

-- The text that every run is told.
abbrev pub escalation_announcement : String
escalation_announcement = concat "This run has one escalation channel.\n\n" (
    concat "If the work item cannot be completed as specified from this repository alone,\n" (
      concat "write the question to " (
        concat reserved_escalation_path (
          concat " and change nothing else.\n" (
            concat
              "The run then ends as blocked, and the question goes to the owner for a decision.\n"
              (concat "Answering it starts a new run; this one does not resume.\n\n" (
                concat
                  "The escalation only stands on an otherwise untouched scope. A question that\n"
                  (concat
                    "arrives together with edits inside the declared scope is recorded as a failure,\n"
                    (concat "not as a question.\n\n"
                      ("The payload format is goalrail.escalation/v0."))))))))))

abbrev pub is_failed : RunState → Bool
is_failed failed = true
is_failed _ = false

abbrev pub is_passed : RunState → Bool
is_passed passed = true
is_passed _ = false
