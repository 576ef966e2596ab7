-- ===== src/Admission/Exception.antt =====
-- `authorizedException`, `exceptionMayBypass` and `admissionClass` of internal/admission/evaluate.go.
pub mod Duration
pub mod Admitted
pub mod Granted
use goalrail.Base.{
  ℕ, ◌-◌, ◌*◌, ◌%◌, ◌^◌, min, String, Bool, true, false, List, [], ◌∷◌, Option, none, some, ◌&&◌,
  not, ◌==◌, all, contains, Time, utc, is_zero, before, ltb, if◌then◌else◌,
}
use goalrail.Domain.{
  LineageEvent, LineageRelation, ContentAddressedEvidenceReference, Codec, ProjectPolicy,
  PolicyExceptionAuthority, AdmissionReasonCode, AdmissionClassification, ExceptionEnvelope,
  exception_exempted, exception_break_glass, exception_restoration, lineage_exception,
  lineage_run_session, lineage_pull_request, lineage_review_index, lineage_check_set,
  lineage_terminal_receipt, lineage_closure,
}
use goalrail.Admission.Types.{FrozenRange}
use goalrail.Admission.Paths.{subset, paths_covered}
use goalrail.Admission.Completeness.{lineage_exception_schema}
use goalrail.Admission.Restoration.{restoration_failure}

-- The four results of `authorizedException`: an exception of a class is allowed, or none is, and
-- then whether one was observed, and the first restoration denial.
pub data Verdict : Type 0 where
  granted : String → Verdict
  open_verdict : Bool → Option AdmissionReasonCode → Verdict

-- `time.Duration(seconds) * time.Second` as the bit pattern of an int64, which wraps.
abbrev pub duration_bits : ℕ → ℕ
duration_bits seconds = (seconds * 1000000000) % 2 ^ 64

-- `elapsed > limit` for int64 values: `Sub` saturates, and a set sign bit is a negative limit.
unfoldable pub exceeds_limit : ℕ → ℕ → Bool
exceeds_limit elapsed seconds =
    if ltb (duration_bits seconds) (2 ^ 63)
    then ltb (duration_bits seconds) (min elapsed (2 ^ 63 - 1))
    else true

unfoldable pub matches_authority :
    LineageEvent → ExceptionEnvelope → PolicyExceptionAuthority → Bool
matches_authority event envelope authority =
    authority.id == envelope.authority_id
    && (authority.exception_class == envelope.exception_class
        && (contains authority.actor_refs envelope.actor_ref
            && contains authority.actor_refs event.actor_ref))

unfoldable pub duration_admitted : ExceptionEnvelope → PolicyExceptionAuthority → Bool
duration_admitted envelope authority =
    not (is_zero envelope.issued_at)
    && (not (before envelope.expires_at envelope.issued_at)
        && not (
            exceeds_limit (envelope.expires_at.instant - envelope.issued_at.instant)
              authority.max_duration_seconds))

unfoldable pub scope_admitted : ExceptionEnvelope → List String → PolicyExceptionAuthority → Bool
scope_admitted envelope material_paths authority =
    subset envelope.effect_scopes authority.effect_scopes
    && (paths_covered material_paths authority.path_prefixes
        && paths_covered material_paths envelope.path_prefixes)

abbrev pub first_denial :
    Option AdmissionReasonCode → AdmissionReasonCode → Option AdmissionReasonCode
first_denial none failure = some failure
first_denial (some denial) failure = some denial

module _ (frozen : FrozenRange) (policy : ProjectPolicy) (material_paths : List String) where
  unfoldable pub restoration_of : LineageEvent → ExceptionEnvelope → Option AdmissionReasonCode
  restoration_of event envelope =
      if envelope.exception_class == exception_restoration
      then restoration_failure frozen policy event envelope material_paths
      else none

  unfoldable pub authority_admits :
      LineageEvent → ExceptionEnvelope → PolicyExceptionAuthority → Bool
  authority_admits event envelope authority =
      matches_authority event envelope authority
      && (duration_admitted envelope authority && scope_admitted envelope material_paths authority)

  unfoldable pub try_authorities :
      LineageEvent
      → ExceptionEnvelope
      → List PolicyExceptionAuthority
      → Option AdmissionReasonCode
      → Verdict
  try_authorities event envelope [] denial = open_verdict true denial
  try_authorities event envelope (authority ∷ authorities) denial =
      if authority_admits event envelope authority
      then elim (restoration_of event envelope) [
        | none ↦ granted envelope.exception_class
        | some failure ↦ try_authorities event envelope authorities (first_denial denial failure)
      ]
      else try_authorities event envelope authorities denial

  module _ (codec : Codec) (evaluated_at : Time) where
    abbrev pub is_current : ExceptionEnvelope → Bool
    is_current envelope =
        envelope.schema == lineage_exception_schema
        && (not (is_zero envelope.expires_at) && before evaluated_at (utc envelope.expires_at))

    -- The replica of a target, if it is an unexpired exception.
    unfoldable pub current_envelope : ContentAddressedEvidenceReference → Option ExceptionEnvelope
    current_envelope target =
        let raw = frozen.graph.replicas target.digest in
        if raw == "" then none else elim (codec.unmarshal_exception raw) [
          | none ↦ none
          | some envelope ↦ if is_current envelope then some envelope else none
        ]

    unfoldable pub try_target :
        LineageEvent
        → ContentAddressedEvidenceReference
        → Bool
        → Option AdmissionReasonCode
        → Verdict
    try_target event target observed denial = elim (current_envelope target) [
      | none ↦ open_verdict observed denial
      | some envelope ↦ try_authorities event envelope policy.exception_authorities denial
    ]

    unfoldable pub try_targets :
        LineageEvent
        → List ContentAddressedEvidenceReference
        → Bool
        → Option AdmissionReasonCode
        → Verdict
    try_targets event [] observed denial = open_verdict observed denial
    try_targets event (target ∷ targets) observed denial =
        elim (try_target event target observed denial) [
          | granted exception_class ↦ granted exception_class
          | open_verdict observed' denial' ↦ try_targets event targets observed' denial'
        ]

    abbrev pub exception_targets : LineageEvent → List ContentAddressedEvidenceReference
    exception_targets event = if event.relation == lineage_exception then event.targets else []

    unfoldable pub try_events : List LineageEvent → Bool → Option AdmissionReasonCode → Verdict
    try_events [] observed denial = open_verdict observed denial
    try_events (event ∷ events) observed denial =
        elim (try_targets event (exception_targets event) observed denial) [
          | granted exception_class ↦ granted exception_class
          | open_verdict observed' denial' ↦ try_events events observed' denial'
        ]

unfoldable pub authorized_exception :
    Codec → FrozenRange → ProjectPolicy → List String → Time → Verdict
authorized_exception codec frozen policy material_paths evaluated_at =
    try_events frozen policy material_paths codec evaluated_at frozen.graph.events false none

abbrev pub bypassable : List LineageRelation
bypassable =
    lineage_run_session ∷ lineage_pull_request ∷ lineage_review_index ∷ lineage_check_set
    ∷ lineage_terminal_receipt ∷ lineage_closure ∷ []

unfoldable pub exception_may_bypass : List LineageRelation → Bool
exception_may_bypass missing = all (contains bypassable) missing

unfoldable pub admission_class : String → AdmissionClassification
admission_class c =
    if c == exception_exempted
    then AdmissionClassification.exempted
    else (if c == exception_break_glass
        then AdmissionClassification.break_glass
        else (if c == exception_restoration
            then AdmissionClassification.exempted
            else AdmissionClassification.bootstrap))
