-- ===== src/LocalRun/Retained.antt =====
-- The calls of the service change the state directory by publications alone.
use goalrail.LocalRun.Receipt.{failure_receipt}
use goalrail.LocalRun.Types.{
  WorktreeObservation, LaunchClaim, Preparation, WorktreeEntry, EscalationRecord,
  ProviderObservation, TerminalReceipt,
}
use goalrail.LocalRun.Finish.{
  finish, terminal_observation, retained_escalation, FinishInput, awaiting_run, left_by,
  publish_receipt,
}
use goalrail.LocalRun.Start.{
  retain_bytes, capture_entry, capture_escalation, keep_escalation, activate, conclude,
  record_launch, make_claim, start, StartInput, ready_run, new_claim, claim_work_spec, claim_run,
}
use goalrail.LocalRun.Prepare.{
  reuse_or_prepare, prepare, prepare_anew, admit_work_spec, prepare_frozen,
}
use goalrail.Domain.{WorkSpecDigest, FrozenWorkSpec, WorkSpec}
use goalrail.Base.{false, String, Bool, Option, some, none, true}
use goalrail.LocalRun.Store.Once.{
  Grows, >>=-Grows, pure-Grows, raise_if-Grows, or_raise-Grows, optional-Grows, if_exists-Grows,
  read_json-Grows, write_json_once-Grows, write_bytes_once-Grows, read_bytes-Grows, nothing_more,
}
use goalrail.LocalRun.Inspect.{
  inspect_run, with_claim, inspect_prepared, claimed_state, PreparedRun, read_claim,
  read_observation, read_receipt, read_own,
}
use goalrail.LocalRun.Host.{Host, PrepareCall, StartCall, FinishCall, Adapter}
use goalrail.LocalRun.Store.{Disk}

pub ruleset growing = (
  >>=-Grows, pure-Grows, raise_if-Grows, or_raise-Grows, optional-Grows, if_exists-Grows,
  read_json-Grows, write_json_once-Grows, write_bytes_once-Grows,
)

module _ {Bytes : Type 0} (host : Host Bytes) (disk : Disk) where
  pub inspect_run-Grows : (run_id : String) → Grows (inspect_run host disk run_id)
  unfolding inspect_run read_claim read_observation read_receipt read_own
  inspect_run-Grows run_id = search growing depth 30 fits 5000

  pub with_claim-Grows :
      (digest : WorkSpecDigest) (frozen : FrozenWorkSpec Bytes) (preparation : Preparation)
      (claim : Option LaunchClaim)
      → Grows (with_claim host disk digest frozen preparation claim)
  unfolding with_claim claimed_state
  with_claim-Grows digest frozen preparation none = search growing
  with_claim-Grows digest frozen preparation (some claim) =
      search (growing, inspect_run-Grows) depth 30 fits 5000

  pub inspect_prepared-Grows : (digest : WorkSpecDigest) → Grows (inspect_prepared host disk digest)
  unfolding inspect_prepared
  inspect_prepared-Grows digest =
      search (growing, read_bytes-Grows, with_claim-Grows) depth 30 fits 5000

module _ {Bytes : Type 0} (host : Host Bytes) (call : PrepareCall) where
  reuse_or_prepare-Grows :
      (frozen : FrozenWorkSpec Bytes) (found : Option (PreparedRun Bytes))
      → Grows (reuse_or_prepare host call frozen found)
  unfolding reuse_or_prepare prepare_anew
  reuse_or_prepare-Grows frozen none = search growing depth 30 fits 5000
  reuse_or_prepare-Grows frozen (some run) = search growing depth 30 fits 5000

  admit_work_spec-Grows :
      (legacy : Bool) (spec : WorkSpec) → Grows (admit_work_spec host call legacy spec)
  unfolding admit_work_spec
  admit_work_spec-Grows legacy spec = search growing depth 40 fits 9000

  prepare_frozen-Grows : (frozen : FrozenWorkSpec Bytes) → Grows (prepare_frozen host call frozen)
  unfolding prepare_frozen
  prepare_frozen-Grows frozen =
      search (growing, inspect_prepared-Grows, reuse_or_prepare-Grows) depth 20 fits 2000

  pub prepare-Grows : (legacy : Bool) (raw : Bytes) → Grows (prepare host call legacy raw)
  unfolding prepare
  prepare-Grows legacy raw =
      search (growing, admit_work_spec-Grows, prepare_frozen-Grows) depth 20 fits 2000

module _ {Bytes : Type 0} (host : Host Bytes) (call : StartCall Bytes) where
  retain_bytes-Grows :
      (run_id : String) (changed : Bool) (raw : Bytes)
      → Grows (retain_bytes host call run_id changed raw)
  unfolding retain_bytes
  retain_bytes-Grows run_id true raw = search growing
  retain_bytes-Grows run_id false raw = search growing depth 30 fits 5000

  capture_entry-Grows :
      (run_id : String) (entry : Option WorktreeEntry) (artifact : Option Bytes)
      → Grows (capture_entry host call run_id entry artifact)
  unfolding capture_entry
  capture_entry-Grows run_id none artifact = search growing
  capture_entry-Grows run_id (some observed) none = search growing
  capture_entry-Grows run_id (some observed) (some raw) = retain_bytes-Grows run_id _ raw

  capture_escalation-Grows :
      (run_id : String) (o : WorktreeObservation) → Grows (capture_escalation host call run_id o)
  unfolding capture_escalation
  capture_escalation-Grows run_id o = capture_entry-Grows run_id _ _

  keep_escalation-Grows :
      (run_id : String) (e : Option EscalationRecord) → Grows (keep_escalation host call run_id e)
  unfolding keep_escalation
  keep_escalation-Grows run_id none = pure-Grows tt
  keep_escalation-Grows run_id (some e) = search growing

  activate-Grows :
      (run : PreparedRun Bytes) (fixture : Bool) → Grows (activate host call run fixture)
  unfolding activate
  activate-Grows run true = pure-Grows tt
  activate-Grows run false = search growing depth 20 fits 2000

  conclude-Grows :
      (run : PreparedRun Bytes) (claim : LaunchClaim) (o : ProviderObservation)
      (t : WorktreeObservation) (e : Option EscalationRecord) (awaiting : Bool)
      → Grows (conclude host call run claim o t e awaiting)
  unfolding conclude failure_receipt
  conclude-Grows run claim o t e true = search growing
  conclude-Grows run claim o t e false = search growing depth 30 fits 5000

  pub record_launch-Grows :
      (run : PreparedRun Bytes) (claim : LaunchClaim) (o : ProviderObservation)
      → Grows (record_launch host call run claim o)
  unfolding record_launch
  record_launch-Grows run claim o =
      search (growing, capture_escalation-Grows, keep_escalation-Grows, conclude-Grows) depth 40
        fits 9000

  pub ready_run-Grows :
      (adapter : Adapter Bytes) (input : StartInput) → Grows (ready_run host call adapter input)
  unfolding ready_run
  ready_run-Grows adapter input =
      search (growing, inspect_prepared-Grows, activate-Grows) depth 20 fits 2000

  pub new_claim-Grows :
      (adapter : Adapter Bytes) (digest : WorkSpecDigest)
      → Grows (new_claim host call adapter digest)
  unfolding new_claim
  new_claim-Grows adapter digest = search growing depth 20 fits 2000

  pub make_claim-Grows : (claim : LaunchClaim) → Grows (make_claim host call claim)
  unfolding make_claim claim_work_spec claim_run
  make_claim-Grows claim = search growing depth 20 fits 2000

  pub start-Grows :
      (adapter : Option (Adapter Bytes)) (input : StartInput)
      → Grows (start host call adapter input)
  unfolding start
  start-Grows none input = λ s. nothing_more
  start-Grows (some adapter) input =
      search (growing, ready_run-Grows, new_claim-Grows, make_claim-Grows, record_launch-Grows)
        depth 20 fits 2000

module _ {Bytes : Type 0} (host : Host Bytes) (call : FinishCall) where
  pub awaiting_run-Grows : (run_id : String) → Grows (awaiting_run host call run_id)
  unfolding awaiting_run
  awaiting_run-Grows run_id =
      search (growing, inspect_run-Grows, inspect_prepared-Grows) depth 20 fits 2000

  pub left_by-Grows : (run_id : String) → Grows (left_by host call run_id)
  unfolding left_by terminal_observation retained_escalation
  left_by-Grows run_id = search growing depth 20 fits 2000

  pub publish_receipt-Grows :
      (run_id : String) (r : TerminalReceipt) → Grows (publish_receipt host call run_id r)
  unfolding publish_receipt
  publish_receipt-Grows run_id r = search growing depth 20 fits 2000

  pub finish-Grows : (input : FinishInput) → Grows (finish host call input)
  unfolding finish
  finish-Grows input =
      search (growing, awaiting_run-Grows, left_by-Grows, publish_receipt-Grows) depth 20 fits 2000
