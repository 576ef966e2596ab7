-- ===== src/Domain/Packet.antt =====
-- internal/domain/admission_v1.go: the admission packet, the admission result and their enums.
use goalrail.Base.{String, Bool, List, Option, Time}
use goalrail.Domain.Lineage.{Sha256Digest, ContentAddressedEvidenceReference}

-- The string constants of the Go types are constructors: the verifier sets these fields, and never
-- reads a foreign one.
pub data AdmissionClassification : Type 0 where
  valid missing ambiguous invalid exempted break_glass bootstrap : AdmissionClassification

pub data AdmissionOutcome : Type 0 where
  allow deny : AdmissionOutcome

pub data AdmissionReasonCode : Type 0 where
  declaration_invalid policy_conflict material_path_unbound intent_unconfirmed change_mismatch :
      AdmissionReasonCode
  work_spec_missing run_session_missing pull_request_missing review_missing check_missing :
      AdmissionReasonCode
  receipt_missing owner_decision_missing lineage_conflict exception_expired : AdmissionReasonCode
  exception_scope_mismatch activation_unverified bootstrap_range exception_applied :
      AdmissionReasonCode
  trusted_time_missing packet_invalid provenance_untrusted range_mismatch : AdmissionReasonCode
  generated_evidence_missing restoration_not_anchored restoration_unbound : AdmissionReasonCode

pub record AdmissionProviderProvenance : Type 0 where
  pub adapter_id : String
  pub provider_ref : String
  pub evidence_digest : Sha256Digest
  pub observed_at : Time
  pub authenticated : Bool

pub record AdmissionPacket : Type 0 where
  pub schema : String
  pub project_id : String
  pub declaration_digest : Sha256Digest
  pub policy_digest : Sha256Digest
  pub base_revision : String
  pub head_revision : String
  pub work_unit_ref : ContentAddressedEvidenceReference
  pub evaluation_time : Option Time
  pub time_authority_ref : String
  pub evidence : List ContentAddressedEvidenceReference
  pub provenance : List AdmissionProviderProvenance

pub record AdmissionReason : Type 0 where
  pub code : AdmissionReasonCode
  pub evidence_refs : List String

pub record AdmissionResult : Type 0 where
  pub schema : String
  pub project_id : String
  pub policy_digest : Sha256Digest
  pub base_revision : String
  pub head_revision : String
  pub material_paths : List String
  pub work_unit_ref : ContentAddressedEvidenceReference
  pub classification : AdmissionClassification
  pub outcome : AdmissionOutcome
  pub reasons : List AdmissionReason
  pub missing_refs : List String
  pub conflict_refs : List String
  pub verifier_version : String
