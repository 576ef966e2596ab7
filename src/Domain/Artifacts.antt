-- ===== src/Domain/Artifacts.antt =====
-- The interface through which the verifier calls the domain package's codecs and validators: JSON
-- encoding and SHA-256 stand behind the digests. A `freeze` returns the digest of the canonical
-- artifact, and `none` where the source returns an error.
use goalrail.Base.{String, Bool, List, Option, Time}
use goalrail.Domain.Lineage.{Sha256Digest, WorkUnit}
use goalrail.Domain.Policy.{ProjectPolicy, ProjectDeclaration}
use goalrail.Domain.Packet.{AdmissionPacket, AdmissionResult}

-- `exceptionEnvelope` of internal/admission/evaluate.go.
pub record ExceptionEnvelope : Type 0 where
  pub schema : String
  pub authority_id : String
  pub exception_class : String
  pub actor_ref : String
  pub path_prefixes : List String
  pub effect_scopes : List String
  pub issued_at : Time
  pub expires_at : Time
  pub requirement_ref : String
  pub requirement_digest : Sha256Digest

-- The anonymous struct of `exceptionExpired`.
pub record ExpiryEnvelope : Type 0 where
  pub schema : String
  pub expires_at : Time

pub record Codec : Type 0 where
  pub validate_packet : AdmissionPacket → Bool
  pub freeze_declaration : ProjectDeclaration → Option Sha256Digest
  pub freeze_policy : ProjectPolicy → Option Sha256Digest
  pub freeze_work_unit : WorkUnit → Option Sha256Digest
  pub freeze_result : AdmissionResult → Option String
  pub is_evidence_reference : String → Bool
  pub is_sha256_digest : Sha256Digest → Bool
  -- `json.Unmarshal` into the two structs.
  pub unmarshal_exception : String → Option ExceptionEnvelope
  pub unmarshal_expiry : String → Option ExpiryEnvelope
