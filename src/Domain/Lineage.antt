-- ===== src/Domain/Lineage.antt =====
-- internal/domain/lineage.go: work units, lineage events and evidence references. A named string
-- type of Go is `String`: a value outside its constants is possible there too.
use goalrail.Base.{String, Bool, true, ◌&&◌, ◌==◌, ◌≡◌, ◌↔◌, List, Time, arith, eq_iff}

abbrev pub Sha256Digest : Type 0
Sha256Digest = String

abbrev pub LineageRelation : Type 0
LineageRelation = String

abbrev pub RelationCardinality : Type 0
RelationCardinality = String

abbrev pub relation_single : RelationCardinality
relation_single = "single"

abbrev pub relation_set : RelationCardinality
relation_set = "set"

abbrev pub work_unit_open : String
work_unit_open = "open"

abbrev pub work_unit_admission_ready : String
work_unit_admission_ready = "admission_ready"

abbrev pub work_unit_closed : String
work_unit_closed = "closed"

abbrev pub lineage_project_policy : LineageRelation
lineage_project_policy = "project_policy"

abbrev pub lineage_confirmed_intent : LineageRelation
lineage_confirmed_intent = "confirmed_intent"

abbrev pub lineage_change : LineageRelation
lineage_change = "change"

abbrev pub lineage_work_spec : LineageRelation
lineage_work_spec = "work_spec"

abbrev pub lineage_run_session : LineageRelation
lineage_run_session = "run_session"

abbrev pub lineage_commit : LineageRelation
lineage_commit = "commit"

abbrev pub lineage_pull_request : LineageRelation
lineage_pull_request = "pull_request"

abbrev pub lineage_review_index : LineageRelation
lineage_review_index = "review_index"

abbrev pub lineage_check_set : LineageRelation
lineage_check_set = "check_set"

abbrev pub lineage_terminal_receipt : LineageRelation
lineage_terminal_receipt = "terminal_receipt"

abbrev pub lineage_owner_decision : LineageRelation
lineage_owner_decision = "owner_decision"

abbrev pub lineage_exception : LineageRelation
lineage_exception = "exception"

abbrev pub lineage_closure : LineageRelation
lineage_closure = "closure"

pub record ContentAddressedEvidenceReference : Type 0 where
  pub artifact_kind : String
  pub identity : String
  pub version : String
  pub digest : Sha256Digest
  pub source_ref : String
  pub adapter_id : String

-- `==` on the struct.
unfoldable pub reference_eq :
    ContentAddressedEvidenceReference → ContentAddressedEvidenceReference → Bool
reference_eq a b =
    a.artifact_kind == b.artifact_kind
    && (a.identity == b.identity
        && (a.version == b.version
            && (a.digest == b.digest
                && (a.source_ref == b.source_ref && a.adapter_id == b.adapter_id))))

pub reference_eq_iff :
    (a b : ContentAddressedEvidenceReference) → (reference_eq a b ≡ true) ↔ (a ≡ b)
unfolding reference_eq
reference_eq_iff a b = ground (
  arith,
  eq_iff a.artifact_kind b.artifact_kind,
  eq_iff a.identity b.identity,
  eq_iff a.version b.version,
  eq_iff a.digest b.digest,
  eq_iff a.source_ref b.source_ref,
  eq_iff a.adapter_id b.adapter_id,
)

pub record LineageRequirement : Type 0 where
  pub relation : LineageRelation
  pub cardinality : RelationCardinality

pub record WorkUnit : Type 0 where
  pub schema : String
  pub id : String
  pub project_id : String
  pub declaration_digest : Sha256Digest
  pub policy_digest : Sha256Digest
  pub intent_ref : ContentAddressedEvidenceReference
  pub change_ref : ContentAddressedEvidenceReference
  pub created_at : Time
  pub lifecycle : String
  pub required_relations : List LineageRequirement

pub record LineageEvent : Type 0 where
  pub schema : String
  pub work_unit_id : String
  pub relation : LineageRelation
  pub cardinality : RelationCardinality
  pub sources : List ContentAddressedEvidenceReference
  pub targets : List ContentAddressedEvidenceReference
  pub actor_ref : String
  pub adapter_id : String
  pub observed_at : Time
  pub semantic_digest : Sha256Digest
