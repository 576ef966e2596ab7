-- ===== src/LocalRun/Sample.antt =====
-- A host, a WorkSpec and the answers of a quiet machine, for the tests of the local run.
use goalrail.Base.{
  pos, String, Bool, true, false, ℕ, [], ◌∷◌, Option, none, some, ◌==◌, not, refl, Time,
}
use goalrail.Domain.{WorkSpec, result_pass}
use goalrail.LocalRun.Types.{
  LaunchClaim, Preparation, ProviderObservation, WorktreeObservation, EscalationRecord,
  TerminalReceipt, CheckResult, provider_completed, identity_verified,
}
use goalrail.LocalRun.Store.{Disk}
use goalrail.LocalRun.Host.{Host, Adapter, PrepareCall, StartCall, FinishCall}
use goalrail.LocalRun.Start.{StartInput}
use goalrail.LocalRun.Finish.{FinishInput}

pub data Content : Type 0 where
  of_spec : WorkSpec → Content
  of_preparation : Preparation → Content
  of_claim : LaunchClaim → Content
  of_observation : ProviderObservation → Content
  of_worktree : WorktreeObservation → Content
  of_escalation : EscalationRecord → Content
  of_receipt : TerminalReceipt → Content

abbrev decode_spec : Content → Option WorkSpec
decode_spec (of_spec x) = some x
decode_spec _ = none

abbrev decode_preparation : Content → Option Preparation
decode_preparation (of_preparation x) = some x
decode_preparation _ = none

abbrev decode_claim : Content → Option LaunchClaim
decode_claim (of_claim x) = some x
decode_claim _ = none

abbrev decode_observation : Content → Option ProviderObservation
decode_observation (of_observation x) = some x
decode_observation _ = none

abbrev decode_worktree : Content → Option WorktreeObservation
decode_worktree (of_worktree x) = some x
decode_worktree _ = none

abbrev decode_escalation : Content → Option EscalationRecord
decode_escalation (of_escalation x) = some x
decode_escalation _ = none

abbrev decode_receipt : Content → Option TerminalReceipt
decode_receipt (of_receipt x) = some x
decode_receipt _ = none

abbrev same_content : Content → Content → Bool
same_content (of_spec x) (of_spec y) = x.id == y.id
same_content _ _ = false

abbrev pub work_spec_digest : String
work_spec_digest = "sha256:00112233445566778899aabbccddeeff00112233445566778899aabbccddeeff"

abbrev pub host : Host Content
host = record {
  specs = record {
    decode_work_spec = decode_spec;
    normalize_work_spec = λ spec. spec;
    is_valid_work_spec = λ spec. not (spec.id == "");
    marshal_work_spec = of_spec;
    digest_of = λ _. work_spec_digest;
    bytes_eq = same_content;
  };
  preparations = record {
    encode = of_preparation;
    decode = decode_preparation;
    decode-encode = λ _. refl;
  };
  claims = record { encode = of_claim; decode = decode_claim; decode-encode = λ _. refl };
  observations = record {
    encode = of_observation;
    decode = decode_observation;
    decode-encode = λ _. refl;
  };
  worktrees = record { encode = of_worktree; decode = decode_worktree; decode-encode = λ _. refl };
  escalations = record {
    encode = of_escalation;
    decode = decode_escalation;
    decode-encode = λ _. refl;
  };
  receipts = record { encode = of_receipt; decode = decode_receipt; decode-encode = λ _. refl };
  text_of = λ _. none;
  byte_count = λ _. 0;
  has_secret = λ _. false;
  is_evidence_reference = λ s. not (s == "");
}

abbrev at_ : ℕ → Time
at_ n = record { instant = n; zone = 0 }

abbrev pub disk : Disk
disk = record { refuses = λ _. false; unreadable = λ _. false }

abbrev pub work_spec : WorkSpec
work_spec = record {
  schema = "goalrail.work-spec/v0";
  id = "spec-1";
  version = 1;
  project = none;
  policy = none;
  change = none;
  work_unit = none;
  repository = record { root = "/repo"; base_revision = "c0ffee" };
  intent = record {
    id = "intent-1";
    version = 1;
    artifact_ref = "intent.json";
    digest = work_spec_digest;
  };
  task = "Fix the parser.";
  paths = "src" ∷ [];
  checks = (record { id = "unit"; argv = "go" ∷ [] }) ∷ [];
  stop_conditions = [];
  posture = "trusted-local-provider-enforced-v0";
}

abbrev pub clean_tree : WorktreeObservation
clean_tree = record { head = "c0ffee"; entries = []; digest = "d0" }

abbrev pub edited_tree : WorktreeObservation
edited_tree = record {
  head = "c0ffee";
  entries = (record { path = "src/parser.go"; status = " M"; mode = 420; digest = "e1" }) ∷ [];
  digest = "d1";
}

abbrev pub prepare_call : PrepareCall
prepare_call = record {
  disk = disk;
  resolved = some ("/repo", "c0ffee");
  store_within = λ _. false;
  within_boundaries = λ _ _. true;
  intent_verified = true;
  authority_verified = true;
  baseline = some clean_tree;
  now = at_ 1;
}

abbrev pub start_call : StartCall Content
start_call = record {
  disk = disk;
  activated = false;
  resolved = none;
  admission_consumed = λ _. false;
  artifact_present = some false;
  new_run_id = some "run-1";
  attempted_at = at_ 2;
  observed_at = at_ 3;
  rejected_at = at_ 4;
  terminal = some edited_tree;
  artifact = none;
  terminal_at = at_ 5;
}

abbrev pub finish_call : FinishCall
finish_call = record { disk = disk; observed = none; now = at_ 6 }

abbrev pub adapter : Adapter Content
adapter = record {
  name = "fixture";
  version = "v0";
  announcement_delivered = true;
  launch = λ request. record {
    work_spec_digest = "";
    run_id = "";
    adapter = "";
    adapter_version = "";
    outcome = provider_completed;
    exit_code = pos 0;
    identity_status = identity_verified;
    root_session_ref = "session-1";
    reason = "";
    observed_at = at_ 0;
  };
}

abbrev pub start_input : StartInput
start_input = record { work_spec_digest = work_spec_digest; adapter = "fixture"; arguments = [] }

abbrev pub unit_result : CheckResult
unit_result = record { id = "unit"; state = result_pass; evidence_ref = ""; evidence_digest = "" }

abbrev pub finish_input : FinishInput
finish_input = record { run_id = "run-1"; results = unit_result ∷ [] }
