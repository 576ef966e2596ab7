-- ===== src/LocalRun/Validate.antt =====
-- The validators of the stored records, and the state that an observation stands for, of
-- internal/localrun/service.go. `true` is no error.
use goalrail.Base.{
  String, Bool, true, false, List, [], ◌∷◌, Option, none, some, ◌==◌, ◌&&◌, ◌||◌, not, nat_eq, leb,
  is_zero, is_blank, byte_length,
}
use goalrail.Domain.{WorkSpecCheck, is_canonical_id, is_hex_digest}
use goalrail.LocalRun.Types.{
  RunState, passed, failed, verification_incomplete, launch_failed, unlinked, blocked,
  awaiting_verification, ProviderOutcome, provider_completed, provider_denied, outcome_other,
  identity_verified, identity_unlinked, identity_other, LaunchClaim, ProviderObservation,
  CheckResult, EscalationRecord, ReceiptIntentReference, TerminalReceipt,
  terminal_receipt_schema_v1, reserved_escalation_path, is_passed, prepared, launch_attempted,
  launch_attempted_unknown, state_other,
}

abbrev pub valid_version : String → Bool
valid_version version = not (is_blank version) && leb (byte_length version) 128

unfoldable pub validate_launch_claim : LaunchClaim → Bool
validate_launch_claim claim =
    is_hex_digest claim.work_spec_digest
    && (is_canonical_id claim.run_id
        && (is_canonical_id claim.adapter
            && (valid_version claim.adapter_version && not (is_zero claim.attempted_at))))

abbrev pub known_outcome : ProviderOutcome → Bool
known_outcome (outcome_other _) = false
known_outcome _ = true

-- The switch on the identity status.
unfoldable pub valid_identity : ProviderObservation → Bool
valid_identity observation = elim observation.identity_status [
  | identity_verified ↦ is_canonical_id observation.root_session_ref && observation.reason == ""
  | identity_unlinked ↦ observation.root_session_ref == "" && is_canonical_id observation.reason
  | identity_other _ ↦ false
]

unfoldable pub validate_provider_observation : ProviderObservation → Bool
validate_provider_observation observation =
    is_hex_digest observation.work_spec_digest
    && (is_canonical_id observation.run_id
        && (is_canonical_id observation.adapter
            && (valid_version observation.adapter_version
                && (not (is_zero observation.observed_at)
                    && (known_outcome observation.outcome && valid_identity observation)))))

unfoldable pub valid_receipt_metadata : TerminalReceipt → Bool
valid_receipt_metadata receipt =
    is_canonical_id receipt.work_spec_id
    && (not (nat_eq receipt.work_spec_version 0)
        && (is_hex_digest receipt.work_spec_digest
            && (is_canonical_id receipt.run_id
                && (is_canonical_id receipt.adapter
                    && (not (receipt.base_revision == "")
                        && (not (receipt.terminal_head == "")
                            && (not (is_zero receipt.prepared_at)
                                && (not (is_zero receipt.launch_attempted_at)
                                    && (not (is_zero receipt.provider_observed_at)
                                        && not (is_zero receipt.terminal_at))))))))))

abbrev pub usable_intent : Option ReceiptIntentReference → Bool
usable_intent none = false
usable_intent (some intent) =
    is_canonical_id intent.id && (not (nat_eq intent.version 0) && is_hex_digest intent.digest)

-- The switch on the schema.
unfoldable pub valid_receipt_schema : TerminalReceipt → Bool
valid_receipt_schema receipt =
    receipt.schema == ""
    || (receipt.schema == terminal_receipt_schema_v1 && usable_intent receipt.intent)

abbrev pub retained_valid : Option EscalationRecord → Bool
retained_valid none = false
retained_valid (some escalation) = escalation.valid

-- The switch on the status.
abbrev pub terminal_status : RunState → Option EscalationRecord → Bool
terminal_status passed _ = true
terminal_status failed _ = true
terminal_status verification_incomplete _ = true
terminal_status launch_failed _ = true
terminal_status unlinked _ = true
terminal_status blocked escalation = retained_valid escalation
terminal_status prepared _ = false
terminal_status launch_attempted _ = false
terminal_status awaiting_verification _ = false
terminal_status launch_attempted_unknown _ = false
terminal_status (state_other _) _ = false

abbrev pub valid_receipt_escalation : RunState → Option EscalationRecord → Bool
valid_receipt_escalation status none = true
valid_receipt_escalation status (some escalation) =
    escalation.path == reserved_escalation_path
    && ((not escalation.valid
          || (is_hex_digest escalation.digest && not (escalation.retained_ref == "")))
        && not (is_passed status))

-- The lengths and the loop over the checks.
unfoldable pub same_checks : List WorkSpecCheck → List CheckResult → Bool
same_checks [] [] = true
same_checks [] (_ ∷ _) = false
same_checks (_ ∷ _) [] = false
same_checks (check ∷ checks) (result ∷ results) =
    result.id == check.id && same_checks checks results

unfoldable pub validate_terminal_receipt : TerminalReceipt → Bool
validate_terminal_receipt receipt =
    valid_receipt_metadata receipt
    && (valid_receipt_schema receipt
        && (terminal_status receipt.status receipt.escalation
            && (valid_receipt_escalation receipt.status receipt.escalation
                && (same_checks receipt.checks receipt.check_results
                    && not (receipt.worktree_delta.head_changed && is_passed receipt.status)))))

-- `stateForObservation`
unfoldable pub state_for_observation : ProviderObservation → RunState
state_for_observation observation = elim observation.identity_status [
  | identity_unlinked ↦ unlinked
  | _ ↦ elim observation.outcome [
    | provider_completed ↦ awaiting_verification
    | provider_denied ↦ failed
    | _ ↦ launch_failed
  ]
]
