-- ===== src/Admission/Sample.antt =====
-- A frozen range with its packet and candidates, for the tests.
use goalrail.Base.{
  true, false, List, [], ◌∷◌, none, some, ◌==◌, not, Time, ℕ, String, concat, if◌then◌else◌,
}
use goalrail.Domain.{
  Codec, WorkUnit, ContentAddressedEvidenceReference, work_unit_open, ProjectPolicy,
  ProjectDeclaration, AdmissionPacket, LineageEvent, CommittedArtifactReference, relation_single,
}
use goalrail.Admission.Types.{
  Input, WorkUnitGraph, FrozenRange, required_spine, SemanticProjection, ProviderCandidate,
  ChangedPath,
}

abbrev pub codec : Codec
codec = record {
  validate_packet = λ _. true;
  freeze_declaration = λ _. some "sha256:declaration";
  freeze_policy = λ _. some "sha256:policy";
  freeze_work_unit = λ _. some "sha256:unit";
  freeze_result = λ _. some "{}";
  is_evidence_reference = λ s. not (s == "");
  is_sha256_digest = λ s. not (s == "");
  unmarshal_exception = λ _. none;
  unmarshal_expiry = λ _. none;
}

abbrev pub at_ : ℕ → Time
at_ n = record { instant = n; zone = 0 }

abbrev pub artifact : String → String → ContentAddressedEvidenceReference
artifact kind name = record {
  artifact_kind = kind;
  identity = concat "id:" name;
  version = "v1";
  digest = concat "sha256:" name;
  source_ref = concat "repo:root/" name;
  adapter_id = "git";
}

abbrev pub unit_ref : ContentAddressedEvidenceReference
unit_ref = record {
  artifact_kind = "work_unit";
  identity = "work-unit:wu_1";
  version = "v1";
  digest = "sha256:unit";
  source_ref = "repo:root/unit";
  adapter_id = "git";
}

abbrev pub event : String → String → List ContentAddressedEvidenceReference → LineageEvent
event relation name targets = record {
  schema = "goalrail.lineage-event/v1";
  work_unit_id = "wu_1";
  relation = relation;
  cardinality = relation_single;
  sources = unit_ref ∷ [];
  targets = targets;
  actor_ref = "user:dev";
  adapter_id = "git";
  observed_at = at_ 5;
  semantic_digest = concat "sha256:event-" name;
}

abbrev pub commit_ref : ContentAddressedEvidenceReference
commit_ref = record {
  artifact_kind = "commit";
  identity = "git-commit:c2";
  version = "v1";
  digest = "sha256:c2";
  source_ref = "git:commit/c2";
  adapter_id = "git";
}

abbrev pub unit : WorkUnit
unit = record {
  schema = "goalrail.work-unit/v1";
  id = "wu_1";
  project_id = "prj_1";
  declaration_digest = "sha256:declaration";
  policy_digest = "sha256:policy";
  intent_ref = artifact "intent" "intent";
  change_ref = artifact "change" "change";
  created_at = at_ 1;
  lifecycle = work_unit_open;
  required_relations = required_spine;
}

abbrev pub graph : WorkUnitGraph
graph = record {
  unit = unit;
  events =
      event "project_policy" "p" (artifact "project_policy" "policy.json" ∷ [])
      ∷ event "confirmed_intent" "i" (artifact "intent" "intent" ∷ [])
      ∷ event "change" "c" (artifact "change" "change" ∷ [])
      ∷ event "work_spec" "w" (artifact "work_spec" "spec" ∷ [])
      ∷ event "run_session" "r" (artifact "run_session" "run" ∷ [])
      ∷ event "commit" "k" (commit_ref ∷ [])
      ∷ event "terminal_receipt" "t" (artifact "terminal_receipt" "receipt" ∷ [])
      ∷ [];
  conflicts = [];
  unavailable = [];
  replicas = λ _. "";
}

abbrev pub projection : String → String → String → String → SemanticProjection
projection relation kind name state = record {
  relation = relation;
  kind = kind;
  identity = concat "id:" name;
  version = "v1";
  digest = concat "sha256:" name;
  codec_id =
      if kind == "intent" then "goalrail.intent-snapshot/v1" else "goalrail.terminal-receipt/v1";
  state = state;
  is_valid = true;
}

abbrev pub candidate : String → String → ProviderCandidate
candidate relation outcome = record {
  relation = relation;
  identity = concat "github:" relation;
  digest = concat "sha256:" relation;
  adapter_id = "github";
  provider_ref = "github:api";
  base_revision = "c1";
  head_revision = "c2";
  actor_ref = "user:owner";
  authority_ref = "team:owners";
  outcome = outcome;
  observed_at = at_ 9;
  authenticated = true;
}

abbrev pub policy : ProjectPolicy
policy = record {
  schema = "goalrail.policy/v1";
  project_id = "prj_1";
  version = 1;
  rules =
      record {
        id = "code";
        matcher = record { kind = "prefix"; path = "." };
        change_kinds = "modify" ∷ [];
        priority = 10;
        classification = "material";
        required_evidence_kinds = "commit" ∷ [];
      }
      ∷ record {
        id = "docs";
        matcher = record { kind = "prefix"; path = "docs/" };
        change_kinds = "modify" ∷ [];
        priority = 20;
        classification = "non_material";
        required_evidence_kinds = [];
      }
      ∷ [];
  exception_authorities = [];
  owner_decision = record {
    required = true;
    authority_refs = "team:owners" ∷ [];
    outcomes = "allow" ∷ "reject" ∷ [];
  };
  normative_path_prefixes = [];
}

abbrev pub reference : String → String → CommittedArtifactReference
reference path digest = record { schema = "s"; path = path; digest = digest }

abbrev pub declaration : ProjectDeclaration
declaration = record {
  schema = "goalrail.project/v1";
  project_id = "prj_1";
  contract_version = "goalrail-governance-v1";
  policy = reference ".goalrail/policy.json" "sha256:policy";
  bootstrap = reference ".goalrail/bootstrap.md" "sha256:bootstrap";
  setup_profile = reference ".goalrail/setup-profile.json" "sha256:setup";
}

abbrev pub change : String → ChangedPath
change path = record {
  path = path;
  previous_path = "";
  kind = "modify";
  old_mode = "100644";
  new_mode = "100644";
  old_object = "o1";
  new_object = "o2";
  commits = "c2" ∷ [];
}

abbrev pub frozen : FrozenRange
frozen = record {
  base_revision = "c1";
  head_revision = "c2";
  base_declaration = some declaration;
  base_declaration_digest = "sha256:declaration";
  base_policy = some policy;
  base_policy_digest = "sha256:policy";
  base_governance_invalid = false;
  head_declaration = some declaration;
  head_declaration_digest = "sha256:declaration";
  head_policy = some policy;
  head_policy_digest = "sha256:policy";
  head_governance_invalid = false;
  changes = change "src/main.go" ∷ change "docs/readme.md" ∷ [];
  commits = "c2" ∷ [];
  commit_parents = λ _. "c1" ∷ [];
  graph = graph;
  projections =
      projection "confirmed_intent" "intent" "intent" "confirmed"
      ∷ projection "terminal_receipt" "terminal_receipt" "receipt" "passed"
      ∷ [];
}

abbrev pub packet : AdmissionPacket
packet = record {
  schema = "goalrail.admission-packet/v1";
  project_id = "prj_1";
  declaration_digest = "sha256:declaration";
  policy_digest = "sha256:policy";
  base_revision = "c1";
  head_revision = "c2";
  work_unit_ref = unit_ref;
  evaluation_time = some (at_ 10);
  time_authority_ref = "clock:ci";
  evidence = [];
  provenance = [];
}

abbrev pub input : Input
input = record {
  frozen = frozen;
  packet = packet;
  candidates =
      candidate "pull_request" ""
      ∷ candidate "review_index" ""
      ∷ candidate "check_set" ""
      ∷ candidate "owner_decision" "allow"
      ∷ [];
}
