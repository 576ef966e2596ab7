-- ===== src/LocalRun/Start.antt =====
-- Service.Start of internal/localrun/service.go and captureEscalation of escalation.go.
pub mod Once
use goalrail.Base.{
  pos, is_none, String, Bool, true, false, List, Option, none, some, ◌==◌, ◌&&◌, not, is_zero,
  if◌then◌else◌,
}
use goalrail.Domain.{WorkSpecDigest, is_canonical_id, validate_escalation_payload}
use goalrail.LocalRun.Types.{
  WorktreeEntry, LaunchClaim, ProviderObservation, EscalationRecord, WorktreeObservation,
  TerminalReceipt, ProviderOutcome, provider_completed, provider_launch_failed, identity_unlinked,
  RunState, awaiting_verification, reserved_escalation_path, escalation_announcement,
}
use goalrail.LocalRun.Action.{
  Action, pure, raise, or_raise, raise_if, if_exists, ◌>>=◌, ◌>>◌, failed_with, activation_required,
  launch_already_claimed, announcement_undeliverable, escalation_artifact_present,
}
use goalrail.LocalRun.Store.{write_bytes_once, write_json_once, prepared_path, run_path}
use goalrail.LocalRun.Validate.{validate_launch_claim, validate_provider_observation}
use goalrail.LocalRun.Escalation.{escalation_entry}
use goalrail.LocalRun.Host.{Host, Adapter, StartCall}
use goalrail.LocalRun.Inspect.{PreparedRun, inspect_prepared}
use goalrail.LocalRun.Receipt.{failure_receipt, has_verified_identity}

pub record StartInput : Type 0 where
  pub work_spec_digest : WorkSpecDigest
  pub adapter : String
  pub arguments : List String

pub record StartResult : Type 0 where
  pub claim : LaunchClaim
  pub observation : ProviderObservation
  pub state : RunState
  pub receipt : Option TerminalReceipt

abbrev pub is_completed : ProviderOutcome → Bool
is_completed provider_completed = true
is_completed _ = false

-- The outcome that `Finish` goes on from.
unfoldable pub is_awaiting : ProviderObservation → Bool
is_awaiting o = is_completed o.outcome && has_verified_identity o.identity_status

abbrev pub invalid_record : String → EscalationRecord
invalid_record reason = record {
  path = reserved_escalation_path;
  digest = "";
  retained_ref = "";
  valid = false;
  reason = reason;
}

module _ {Bytes : Type 0} (host : Host Bytes) (call : StartCall Bytes) where
  unfoldable pub retained_record : String → Bytes → EscalationRecord
  retained_record run_id raw =
      let hygienic =
        validate_escalation_payload host.has_secret (host.byte_count raw) (host.text_of raw) in
      record {
        path = reserved_escalation_path;
        digest = host.specs.digest_of raw;
        retained_ref = run_path run_id "escalation/payload.md";
        valid = hygienic;
        reason = if hygienic then "" else "ESCALATION_ARTIFACT_INVALID";
      }

  -- The observation hashed other bytes than those that were read.
  unfoldable pub changed_since : WorktreeEntry → Bytes → Bool
  changed_since observed raw =
      not (observed.digest == "") && not (observed.digest == host.specs.digest_of raw)

  unfoldable pub retain_bytes : String → Bool → Bytes → Action Bytes (Option EscalationRecord)
  retain_bytes run_id true raw = pure (some (invalid_record "ESCALATION_ARTIFACT_CHANGED"))
  retain_bytes run_id false raw = do
    write_bytes_once call.disk host.specs.bytes_eq (run_path run_id "escalation/payload.md") raw
        true
    pure (some (retained_record run_id raw))

  unfoldable pub capture_entry :
      String → Option WorktreeEntry → Option Bytes → Action Bytes (Option EscalationRecord)
  capture_entry run_id none artifact = pure none
  capture_entry run_id (some observed) none =
      pure (some (invalid_record "ESCALATION_ARTIFACT_UNREADABLE"))
  capture_entry run_id (some observed) (some raw) =
      retain_bytes run_id (changed_since observed raw) raw

  -- `captureEscalation`: what is retained of the reserved path.
  unfoldable pub capture_escalation :
      String → WorktreeObservation → Action Bytes (Option EscalationRecord)
  capture_escalation run_id observation =
      capture_entry run_id (escalation_entry observation) call.artifact

  unfoldable pub keep_escalation : String → Option EscalationRecord → Action Bytes (Unit {0})
  keep_escalation run_id none = pure tt
  keep_escalation run_id (some e) =
      write_json_once host.escalations call.disk (run_path run_id "escalation.json") e

  -- What the adapter reported, under the run's own identity, or an observation of its invalidity.
  unfoldable pub observed_launch :
      Adapter Bytes → LaunchClaim → ProviderObservation → ProviderObservation
  observed_launch adapter claim reported =
      let own = record reported {
        work_spec_digest = claim.work_spec_digest;
        run_id = claim.run_id;
        adapter = adapter.name;
        adapter_version = adapter.version;
        observed_at =
            if is_zero reported.observed_at then call.observed_at else reported.observed_at;
      } in
      if validate_provider_observation own then own else record {
        work_spec_digest = claim.work_spec_digest;
        run_id = claim.run_id;
        adapter = adapter.name;
        adapter_version = adapter.version;
        outcome = provider_launch_failed;
        exit_code = pos 0;
        identity_status = identity_unlinked;
        root_session_ref = "";
        reason = "INVALID_PROVIDER_OBSERVATION";
        observed_at = call.rejected_at;
      }

  -- The pinned repository is still the one of the WorkSpec.
  unfoldable pub still_pinned : PreparedRun Bytes → Bool
  still_pinned run = elim call.resolved [
    | none ↦ false
    | some (root, revision) ↦
        root == run.work_spec.spec.repository.root
        && revision == run.work_spec.spec.repository.base_revision
  ]

  -- The activation of an adapter other than the fixture, which is the last parameter.
  unfoldable pub activate : PreparedRun Bytes → Bool → Action Bytes (Unit {0})
  activate run true = pure tt
  activate run false = do
    raise_if (not call.activated) activation_required
    raise_if (not (still_pinned run)) activation_required
    raise_if (not (call.admission_consumed run.work_spec)) activation_required

  -- The prepared run that may be launched.
  unfoldable pub ready_run : Adapter Bytes → StartInput → Action Bytes (PreparedRun Bytes)
  ready_run adapter input = do
    raise_if (not (input.adapter == adapter.name)) (failed_with "no such adapter")
    run ← inspect_prepared host call.disk input.work_spec_digest
    raise_if (not (is_none run.claim)) launch_already_claimed
    raise_if (not adapter.announcement_delivered) announcement_undeliverable
    activate run (adapter.name == "fixture")
    pure run

  -- The claim that is about to be made.
  unfoldable pub new_claim : Adapter Bytes → WorkSpecDigest → Action Bytes LaunchClaim
  new_claim adapter digest = do
    present ← or_raise (failed_with "inspect reserved escalation path") call.artifact_present
    raise_if present escalation_artifact_present
    run_id ← or_raise (failed_with "generate run ID") call.new_run_id
    raise_if (not (is_canonical_id run_id)) (failed_with "generated run ID is not canonical")
    let claim : LaunchClaim = record {
      work_spec_digest = digest;
      run_id = run_id;
      adapter = adapter.name;
      adapter_version = adapter.version;
      attempted_at = call.attempted_at;
    }
    raise_if (not (validate_launch_claim claim)) (failed_with "invalid launch claim")
    pure claim

  -- The write that only one call can make.
  unfoldable pub claim_work_spec : LaunchClaim → Action Bytes (Unit {0})
  claim_work_spec claim = if_exists launch_already_claimed (
      write_json_once host.claims call.disk
        (prepared_path claim.work_spec_digest "launch-claim.json") claim)

  unfoldable pub claim_run : LaunchClaim → Action Bytes (Unit {0})
  claim_run claim =
      write_json_once host.claims call.disk (run_path claim.run_id "launch-claim.json") claim

  unfoldable pub make_claim : LaunchClaim → Action Bytes (Unit {0})
  make_claim claim = do claim_work_spec claim; claim_run claim

  -- The end of a launch: the run awaits its checks, or it ends with a failure receipt.
  unfoldable pub conclude :
      PreparedRun Bytes
      → LaunchClaim
      → ProviderObservation
      → WorktreeObservation
      → Option EscalationRecord
      → Bool
      → Action Bytes StartResult
  conclude run claim observation terminal escalation true = pure (record {
    claim = claim;
    observation = observation;
    state = awaiting_verification;
    receipt = none;
  })
  conclude run claim observation terminal escalation false = do
    receipt ←
        failure_receipt host call.disk run claim observation terminal escalation call.terminal_at
    pure (record {
      claim = claim;
      observation = observation;
      state = receipt.status;
      receipt = some receipt;
    })

  -- From the provider's return on.
  unfoldable pub record_launch :
      PreparedRun Bytes → LaunchClaim → ProviderObservation → Action Bytes StartResult
  record_launch run claim observation = do
    write_json_once host.observations call.disk (run_path claim.run_id "provider-observation.json")
        observation
    terminal ← or_raise (failed_with "observe worktree") call.terminal
    escalation ← capture_escalation claim.run_id terminal
    keep_escalation claim.run_id escalation
    write_json_once host.worktrees call.disk (run_path claim.run_id "terminal-observation.json")
        terminal
    conclude run claim observation terminal escalation (is_awaiting observation)

  -- The launch itself: the request that the adapter gets.
  unfoldable pub launch_run :
      Adapter Bytes → List String → PreparedRun Bytes → LaunchClaim → ProviderObservation
  launch_run adapter arguments run claim = observed_launch adapter claim (
      adapter.launch (record {
        run_id = claim.run_id;
        work_spec = run.work_spec;
        arguments = arguments;
        escalation_announcement = escalation_announcement;
      }))

  unfoldable pub start : Option (Adapter Bytes) → StartInput → Action Bytes StartResult
  start none input = raise activation_required
  start (some adapter) input = do
    run ← ready_run adapter input
    claim ← new_claim adapter input.work_spec_digest
    make_claim claim
    record_launch run claim (launch_run adapter input.arguments run claim)
