-- ===== src/LocalRun/Inspect.antt =====
-- InspectRun and InspectPrepared of internal/localrun/service.go.
pub mod Parts
pub mod Opens
use goalrail.Base.{String, Bool, Option, none, some, ◌==◌, ◌&&◌, not, true, false}
use goalrail.Domain.{
  WorkSpecDigest, FrozenWorkSpec, is_canonical_id, is_hex_digest, open_frozen_work_spec,
}
use goalrail.LocalRun.Types.{
  LaunchClaim, Preparation, ProviderObservation, TerminalReceipt, RunState, prepared,
  launch_attempted_unknown,
}
use goalrail.LocalRun.Action.{
  RunError, Action, pure, optional, or_raise, raise_if, ◌>>=◌, ◌>>◌, failed_with,
}
use goalrail.LocalRun.Store.{Json, Disk, read_bytes, read_json, prepared_path, run_path}
use goalrail.LocalRun.Validate.{
  validate_launch_claim, validate_provider_observation, validate_terminal_receipt,
  state_for_observation,
}
use goalrail.LocalRun.Host.{Host}

pub record RunInspection : Type 0 where
  pub claim : LaunchClaim
  pub observation : Option ProviderObservation
  pub receipt : Option TerminalReceipt
  pub state : RunState

pub record PreparedRun (Bytes : Type 0) : Type 0 where
  pub work_spec : FrozenWorkSpec Bytes
  pub preparation : Preparation
  pub claim : Option LaunchClaim
  pub state : RunState

abbrev pub is_prepared : RunState → Bool
is_prepared prepared = true
is_prepared _ = false

-- The stored observation belongs to the claim.
unfoldable pub observation_of : LaunchClaim → ProviderObservation → Bool
observation_of claim o =
    validate_provider_observation o
    && (o.run_id == claim.run_id
        && (o.work_spec_digest == claim.work_spec_digest
            && (o.adapter == claim.adapter && o.adapter_version == claim.adapter_version)))

-- The stored receipt belongs to the claim.
unfoldable pub receipt_of : LaunchClaim → TerminalReceipt → Bool
receipt_of claim r =
    validate_terminal_receipt r
    && (r.run_id == claim.run_id
        && (r.work_spec_digest == claim.work_spec_digest
            && (r.adapter == claim.adapter && r.adapter_version == claim.adapter_version)))

abbrev pub belongs : {A : Type 0} → (A → Bool) → Option A → Bool
belongs test none = true
belongs test (some a) = test a

-- The state of an inspection: the latest record decides.
abbrev pub inspected_state : Option ProviderObservation → Option TerminalReceipt → RunState
inspected_state _ (some receipt) = receipt.status
inspected_state (some observation) none = state_for_observation observation
inspected_state none none = launch_attempted_unknown

-- The state of a claim whose run may not be there.
abbrev pub known_state : Option RunInspection → RunState
known_state none = launch_attempted_unknown
known_state (some inspection) = inspection.state

-- A record that may be there: what is there belongs to the claim.
unfoldable pub read_own :
    {Bytes A : Type 0}
    → Json A Bytes
    → Disk
    → (A → Bool)
    → RunError
    → String
    → Action Bytes (Option A)
read_own json disk test error path = do
  stored ← optional (read_json json disk path)
  raise_if (not (belongs test stored)) error
  pure stored

module _ {Bytes : Type 0} (host : Host Bytes) (disk : Disk) where
  unfoldable pub read_claim : String → Action Bytes LaunchClaim
  read_claim run_id = do
    raise_if (not (is_canonical_id run_id)) (failed_with "invalid run ID")
    claim ← read_json host.claims disk (run_path run_id "launch-claim.json")
    raise_if (not (validate_launch_claim claim && claim.run_id == run_id))
        (failed_with "invalid stored launch claim")
    pure claim

  unfoldable pub read_observation : String → LaunchClaim → Action Bytes (Option ProviderObservation)
  read_observation run_id claim =
      read_own host.observations disk (observation_of claim)
        (failed_with "invalid stored provider observation")
        (run_path run_id "provider-observation.json")

  unfoldable pub read_receipt : String → LaunchClaim → Action Bytes (Option TerminalReceipt)
  read_receipt run_id claim =
      read_own host.receipts disk (receipt_of claim) (failed_with "invalid stored terminal receipt")
        (run_path run_id "terminal-receipt.json")

  unfoldable pub inspect_run : String → Action Bytes RunInspection
  inspect_run run_id = do
    claim ← read_claim run_id
    observation ← read_observation run_id claim
    receipt ← read_receipt run_id claim
    pure (record {
      claim = claim;
      observation = observation;
      receipt = receipt;
      state = inspected_state observation receipt;
    })

  -- The state of a prepared run that has a claim.
  unfoldable pub claimed_state : LaunchClaim → Action Bytes RunState
  claimed_state claim = do
    inspection ← optional (inspect_run claim.run_id)
    pure (known_state inspection)

  unfoldable pub with_claim :
      WorkSpecDigest
      → FrozenWorkSpec Bytes
      → Preparation
      → Option LaunchClaim
      → Action Bytes (PreparedRun Bytes)
  with_claim digest frozen preparation none =
      pure
        (record { work_spec = frozen; preparation = preparation; claim = none; state = prepared })
  with_claim digest frozen preparation (some claim) = do
    raise_if (not (validate_launch_claim claim && claim.work_spec_digest == digest))
        (failed_with "invalid stored launch claim")
    state ← claimed_state claim
    pure (record {
      work_spec = frozen;
      preparation = preparation;
      claim = some claim;
      state = state;
    })

  unfoldable pub inspect_prepared : WorkSpecDigest → Action Bytes (PreparedRun Bytes)
  inspect_prepared digest = do
    raise_if (not (is_hex_digest digest)) (failed_with "invalid WorkSpec digest")
    canonical ← read_bytes disk (prepared_path digest "work-spec.json")
    frozen ←
        or_raise (failed_with "open WorkSpec") (open_frozen_work_spec host.specs canonical digest)
    preparation ← read_json host.preparations disk (prepared_path digest "preparation.json")
    raise_if (not (preparation.work_spec_digest == digest && is_prepared preparation.state))
        (failed_with "invalid preparation state")
    claim ← optional (read_json host.claims disk (prepared_path digest "launch-claim.json"))
    with_claim digest frozen preparation claim
