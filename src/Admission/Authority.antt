-- ===== src/Admission/Authority.antt =====
-- `resolveAuthority` and `validGovernance` of internal/admission/evaluate.go.
pub mod Governs
use goalrail.Base.{Bool, true, false, [], Option, none, some, ◌&&◌, ◌==◌, if◌then◌else◌}
use goalrail.Domain.{Sha256Digest, Codec, ProjectDeclaration, ProjectPolicy, AdmissionReasonCode}
use goalrail.Admission.Types.{FrozenRange, refusal, Checked, pass, refuse}

-- What `resolveAuthority` returns beside the reason.
pub record Authority : Type 0 where
  pub declaration : ProjectDeclaration
  pub declaration_digest : Sha256Digest
  pub policy : ProjectPolicy
  pub policy_digest : Sha256Digest
  pub bootstrap : Bool

unfoldable pub digest_is : Option Sha256Digest → Sha256Digest → Bool
digest_is none digest = false
digest_is (some d) digest = d == digest

unfoldable pub valid_governance :
    Codec → ProjectDeclaration → Sha256Digest → ProjectPolicy → Sha256Digest → Bool
valid_governance codec declaration declaration_digest policy policy_digest =
    digest_is (codec.freeze_declaration declaration) declaration_digest
    && (digest_is (codec.freeze_policy policy) policy_digest
        && (declaration.policy.digest == policy_digest
            && policy.project_id == declaration.project_id))

-- A declaration and a policy that are both present and valid together.
unfoldable pub governed :
    Codec
    → Option ProjectDeclaration
    → Sha256Digest
    → Option ProjectPolicy
    → Sha256Digest
    → Option (ProjectDeclaration × ProjectPolicy)
governed codec none dd p pd = none
governed codec (some d) dd none pd = none
governed codec (some d) dd (some p) pd =
    if valid_governance codec d dd p pd then some (d, p) else none

abbrev declaration_refused : Checked Authority
declaration_refused = refuse (refusal AdmissionReasonCode.declaration_invalid [])

unfoldable pub base_authority :
    Codec
    → FrozenRange
    → ProjectDeclaration
    → ProjectPolicy
    → Option ProjectDeclaration
    → Checked Authority
base_authority codec frozen head head_policy none =
    if frozen.base_governance_invalid
    then declaration_refused
    else pass (record {
      declaration = head;
      declaration_digest = frozen.head_declaration_digest;
      policy = head_policy;
      policy_digest = frozen.head_policy_digest;
      bootstrap = true;
    })
base_authority codec frozen head head_policy (some base) =
    if frozen.base_governance_invalid
    then declaration_refused
    else elim (governed codec (some base) frozen.base_declaration_digest frozen.base_policy
        frozen.base_policy_digest) [
          | none ↦ declaration_refused
          | some (base', base_policy) ↦
              if head.project_id == base'.project_id
              then pass (record {
                declaration = base';
                declaration_digest = frozen.base_declaration_digest;
                policy = base_policy;
                policy_digest = frozen.base_policy_digest;
                bootstrap = false;
              })
              else declaration_refused
        ]

unfoldable pub resolve_authority : Codec → FrozenRange → Checked Authority
resolve_authority codec frozen =
    if frozen.head_governance_invalid
    then declaration_refused
    else elim (governed codec frozen.head_declaration frozen.head_declaration_digest
        frozen.head_policy frozen.head_policy_digest) [
          | none ↦ declaration_refused
          | some (head, head_policy) ↦
              base_authority codec frozen head head_policy frozen.base_declaration
        ]
