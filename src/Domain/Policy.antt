-- ===== src/Domain/Policy.antt =====
-- internal/domain/policy.go and project.go: the project policy and the project declaration. A
-- rule's priority is a natural number: the policy's validator refuses any that is not positive.
use goalrail.Base.{ℕ, String, Bool, List}
use goalrail.Domain.Lineage.{Sha256Digest}

abbrev pub path_matcher_exact : String
path_matcher_exact = "exact"

abbrev pub path_matcher_prefix : String
path_matcher_prefix = "prefix"

abbrev pub materiality_material : String
materiality_material = "material"

abbrev pub materiality_evidence : String
materiality_evidence = "evidence"

abbrev pub materiality_generated : String
materiality_generated = "generated"

abbrev pub materiality_non_material : String
materiality_non_material = "non_material"

abbrev pub exception_exempted : String
exception_exempted = "exempted"

abbrev pub exception_break_glass : String
exception_break_glass = "break_glass"

abbrev pub exception_bootstrap : String
exception_bootstrap = "bootstrap"

abbrev pub exception_restoration : String
exception_restoration = "restoration"

abbrev pub owner_decision_allow : String
owner_decision_allow = "allow"

abbrev pub owner_decision_reject : String
owner_decision_reject = "reject"

pub record PolicyPathMatcher : Type 0 where
  pub kind : String
  pub path : String

pub record PolicyPathRule : Type 0 where
  pub id : String
  pub matcher : PolicyPathMatcher
  pub change_kinds : List String
  pub priority : ℕ
  pub classification : String
  pub required_evidence_kinds : List String

pub record PolicyExceptionAuthority : Type 0 where
  pub id : String
  pub exception_class : String
  pub actor_refs : List String
  pub path_prefixes : List String
  pub effect_scopes : List String
  pub max_duration_seconds : ℕ
  pub owner_decision_required : Bool

pub record PolicyOwnerDecision : Type 0 where
  pub required : Bool
  pub authority_refs : List String
  pub outcomes : List String

pub record ProjectPolicy : Type 0 where
  pub schema : String
  pub project_id : String
  pub version : ℕ
  pub rules : List PolicyPathRule
  pub exception_authorities : List PolicyExceptionAuthority
  pub owner_decision : PolicyOwnerDecision
  pub normative_path_prefixes : List String

pub record CommittedArtifactReference : Type 0 where
  pub schema : String
  pub path : String
  pub digest : Sha256Digest

pub record ProjectDeclaration : Type 0 where
  pub schema : String
  pub project_id : String
  pub contract_version : String
  pub policy : CommittedArtifactReference
  pub bootstrap : CommittedArtifactReference
  pub setup_profile : CommittedArtifactReference
