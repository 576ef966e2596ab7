-- ===== src/Admission/Types.antt =====
-- internal/admission/graph.go and the types of evaluate.go and effective.go.
use goalrail.Base.{
  refl, String, Bool, List, [], ◌∷◌, Option, Time, ◌&&◌, ◌==◌, time_eq, bool_eq, ◌≡◌, ◌⊎◌, inl, inr,
}
use goalrail.Domain.{
  Sha256Digest, LineageRelation, RelationCardinality, LineageRequirement, WorkUnit, LineageEvent,
  ProjectDeclaration, ProjectPolicy, AdmissionPacket, AdmissionReasonCode, relation_single,
  relation_set, lineage_project_policy, lineage_confirmed_intent, lineage_change, lineage_work_spec,
  lineage_run_session, lineage_commit, lineage_pull_request, lineage_review_index,
  lineage_check_set, lineage_terminal_receipt, lineage_owner_decision, lineage_closure,
}

pub record RelationConflict : Type 0 where
  pub relation : LineageRelation
  pub digests : List Sha256Digest

-- A replica that the map lacks is the empty text.
pub record WorkUnitGraph : Type 0 where
  pub unit : WorkUnit
  pub events : List LineageEvent
  pub conflicts : List RelationConflict
  pub unavailable : List LineageRelation
  pub replicas : Sha256Digest → String

abbrev requires : LineageRelation → RelationCardinality → LineageRequirement
requires r c = record { relation = r; cardinality = c }

abbrev pub required_spine : List LineageRequirement
required_spine =
    requires lineage_project_policy relation_set
    ∷ requires lineage_confirmed_intent relation_single
    ∷ requires lineage_change relation_single
    ∷ requires lineage_work_spec relation_single
    ∷ requires lineage_run_session relation_single
    ∷ requires lineage_commit relation_set
    ∷ requires lineage_pull_request relation_single
    ∷ requires lineage_review_index relation_single
    ∷ requires lineage_check_set relation_single
    ∷ requires lineage_terminal_receipt relation_single
    ∷ requires lineage_owner_decision relation_single
    ∷ requires lineage_closure relation_single
    ∷ []

pub record ChangedPath : Type 0 where
  pub path : String
  pub previous_path : String
  pub kind : String
  pub old_mode : String
  pub new_mode : String
  pub old_object : String
  pub new_object : String
  pub commits : List String

pub record SemanticProjection : Type 0 where
  pub relation : LineageRelation
  pub kind : String
  pub identity : String
  pub version : String
  pub digest : Sha256Digest
  pub codec_id : String
  pub state : String
  pub is_valid : Bool

pub record ProviderCandidate : Type 0 where
  pub relation : LineageRelation
  pub identity : String
  pub digest : Sha256Digest
  pub adapter_id : String
  pub provider_ref : String
  pub base_revision : String
  pub head_revision : String
  pub actor_ref : String
  pub authority_ref : String
  pub outcome : String
  pub observed_at : Time
  pub authenticated : Bool

-- A pointer is an `Option`; a commit that the map of parents lacks has none.
pub record FrozenRange : Type 0 where
  pub base_revision : String
  pub head_revision : String
  pub base_declaration : Option ProjectDeclaration
  pub base_declaration_digest : Sha256Digest
  pub base_policy : Option ProjectPolicy
  pub base_policy_digest : Sha256Digest
  pub base_governance_invalid : Bool
  pub head_declaration : Option ProjectDeclaration
  pub head_declaration_digest : Sha256Digest
  pub head_policy : Option ProjectPolicy
  pub head_policy_digest : Sha256Digest
  pub head_governance_invalid : Bool
  pub changes : List ChangedPath
  pub commits : List String
  pub commit_parents : String → List String
  pub graph : WorkUnitGraph
  pub projections : List SemanticProjection

pub record Input : Type 0 where
  pub frozen : FrozenRange
  pub packet : AdmissionPacket
  pub candidates : List ProviderCandidate

-- `==` on the two structs.
unfoldable pub projection_eq : SemanticProjection → SemanticProjection → Bool
projection_eq a b =
    a.relation == b.relation
    && (a.kind == b.kind
        && (a.identity == b.identity
            && (a.version == b.version
                && (a.digest == b.digest
                    && (a.codec_id == b.codec_id
                        && (a.state == b.state && bool_eq a.is_valid b.is_valid))))))

unfoldable pub candidate_eq : ProviderCandidate → ProviderCandidate → Bool
candidate_eq a b =
    a.relation == b.relation
    && (a.identity == b.identity
        && (a.digest == b.digest
            && (a.adapter_id == b.adapter_id
                && (a.provider_ref == b.provider_ref
                    && (a.base_revision == b.base_revision
                        && (a.head_revision == b.head_revision
                            && (a.actor_ref == b.actor_ref
                                && (a.authority_ref == b.authority_ref
                                    && (a.outcome == b.outcome
                                        && (time_eq a.observed_at b.observed_at
                                            && bool_eq a.authenticated b.authenticated))))))))))

-- A reason code with its evidence references, as the checks return them.
pub record Refusal : Type 0 where
  pub code : AdmissionReasonCode
  pub refs : List String

abbrev pub refusal : AdmissionReasonCode → List String → Refusal
refusal c rs = record { code = c; refs = rs }

-- What a check returns beside a value: the value, or the reason that stops the evaluation.
pub data Checked (A : Type 0) : Type 0 where
  pass : A → Checked A
  refuse : Refusal → Checked A

pub Checked-cases :
    {A : Type 0} (x : Checked A) → ((a : A) × (x ≡ pass a)) ⊎ ((f : Refusal) × (x ≡ refuse f))
Checked-cases (pass a) = inl (a, refl)
Checked-cases (refuse f) = inr (f, refl)
