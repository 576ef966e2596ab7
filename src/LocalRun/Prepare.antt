-- ===== src/LocalRun/Prepare.antt =====
-- Service.Prepare of internal/localrun/service.go, for a service with all its dependencies.
pub mod Resumed
use goalrail.Base.{String, Bool, true, [], ◌∷◌, none, some, ◌==◌, ◌&&◌, not, Option}
use goalrail.Domain.{WorkSpec, FrozenWorkSpec, freeze_work_spec}
use goalrail.LocalRun.Types.{Preparation, prepared, reserved_escalation_path}
use goalrail.LocalRun.Action.{
  Action, pure, optional, or_raise, raise_if, ◌>>=◌, ◌>>◌, failed_with, legacy_work_spec_authority,
  escalation_artifact_present,
}
use goalrail.LocalRun.Store.{write_bytes_once, write_json_once, prepared_path}
use goalrail.LocalRun.Escalation.{observation_has_escalation}
use goalrail.LocalRun.Host.{Host, PrepareCall}
use goalrail.LocalRun.Inspect.{PreparedRun, inspect_prepared}

abbrev pub work_spec_schema_v0 : String
work_spec_schema_v0 = "goalrail.work-spec/v0"

abbrev pub work_spec_schema_v1 : String
work_spec_schema_v1 = "goalrail.work-spec/v1"

module _ {Bytes : Type 0} (host : Host Bytes) (call : PrepareCall) where
  -- The checks up to the look at the store: the frozen WorkSpec.
  unfoldable pub admit_work_spec : Bool → WorkSpec → Action Bytes (FrozenWorkSpec Bytes)
  admit_work_spec allow_legacy_fixture spec = do
    raise_if (spec.schema == work_spec_schema_v0 && not allow_legacy_fixture)
        legacy_work_spec_authority
    (root, revision) ← or_raise (failed_with "resolve repository") call.resolved
    raise_if (call.store_within root) (failed_with "state root inside the repository")
    let located : WorkSpec = record spec {
      repository = record { root = root; base_revision = revision };
    }
    raise_if (not (call.within_boundaries root spec.paths)) (failed_with "scoped path escapes")
    raise_if (not (call.within_boundaries root (reserved_escalation_path ∷ [])))
        (failed_with "scoped path escapes")
    frozen ← or_raise (failed_with "invalid WorkSpec") (freeze_work_spec host.specs located)
    raise_if (not call.intent_verified) (failed_with "intent")
    raise_if (spec.schema == work_spec_schema_v1 && not call.authority_verified)
        (failed_with "managed authority")
    pure frozen

  -- The first preparation of a WorkSpec.
  unfoldable pub prepare_anew : FrozenWorkSpec Bytes → Action Bytes (PreparedRun Bytes)
  prepare_anew frozen = do
    baseline ← or_raise (failed_with "observe worktree") call.baseline
    raise_if (observation_has_escalation baseline) escalation_artifact_present
    let preparation : Preparation = record {
      work_spec_digest = frozen.digest;
      prepared_at = call.now;
      baseline = baseline;
      state = prepared;
    }
    write_bytes_once call.disk host.specs.bytes_eq (prepared_path frozen.digest "work-spec.json")
        frozen.canonical true
    write_json_once host.preparations call.disk (prepared_path frozen.digest "preparation.json")
        preparation
    pure (record { work_spec = frozen; preparation = preparation; claim = none; state = prepared })

  -- A WorkSpec that is prepared already is not prepared again.
  unfoldable pub reuse_or_prepare :
      FrozenWorkSpec Bytes → Option (PreparedRun Bytes) → Action Bytes (PreparedRun Bytes)
  reuse_or_prepare frozen none = prepare_anew frozen
  reuse_or_prepare frozen (some run) = do
    raise_if (not (host.specs.bytes_eq run.work_spec.canonical frozen.canonical))
        (failed_with "prepared WorkSpec digest collision")
    pure run

  unfoldable pub prepare_frozen : FrozenWorkSpec Bytes → Action Bytes (PreparedRun Bytes)
  prepare_frozen frozen = do
    found ← optional (inspect_prepared host call.disk frozen.digest)
    reuse_or_prepare frozen found

  unfoldable pub prepare : Bool → Bytes → Action Bytes (PreparedRun Bytes)
  prepare allow_legacy_fixture raw = do
    spec ← or_raise (failed_with "decode WorkSpec") (host.specs.decode_work_spec raw)
    frozen ← admit_work_spec allow_legacy_fixture spec
    prepare_frozen frozen
