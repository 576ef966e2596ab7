-- ===== src/Admission/Exception/Admitted.antt =====
-- What the tests of an envelope and of an authority establish.
use goalrail.Base.{
  ap, subst, ◌≢◌, ◌≤◌, ◌<◌, ◌-◌, ◌*◌, ◌==◌, contains, contains_iff, starts_with, concat,
  trim_suffix, any, all-eq-true, any-eq-true, ◌∙◌, String, true, List, none, some, ◌≡◌, ◌⊎◌, inl,
  inr, arith, Elem, Time, eq_iff, Option-cases, Bool-cases,
}
use goalrail.Domain.{
  LineageEvent, ContentAddressedEvidenceReference, Codec, ProjectPolicy, PolicyExceptionAuthority,
  ExceptionEnvelope, exception_restoration,
}
use goalrail.Admission.Types.{FrozenRange}
use goalrail.Admission.Exception.{
  current_envelope, authority_admits, restoration_of, is_current, matches_authority,
  duration_admitted, scope_admitted,
}
use goalrail.Admission.Completeness.{lineage_exception_schema}
use goalrail.Admission.Paths.{subset, paths_covered, prefix_covers}
use goalrail.Admission.Restoration.{restoration_failure}
use goalrail.Admission.Exception.Duration.{exceeds_limit_sound}
use goalrail.Admission.Restoration.Recorded.{IsRecorded, restoration_failure-IsRecorded}

-- A path at a prefix or below it.
abbrev pub IsCovered : String → List String → Type 0
IsCovered path prefixes =
    (prefix : String) × Elem prefix prefixes
    × ((path ≡ prefix) ⊎ (starts_with path (concat (trim_suffix prefix "/") "/") ≡ true))

paths_covered-eq-true :
    (paths prefixes : List String)
    → paths_covered paths prefixes ≡ true
    → (path : String) → Elem path paths
    → IsCovered path prefixes
unfolding paths_covered prefix_covers
paths_covered-eq-true paths prefixes h path m =
    let (prefix, m_prefix, covers) =
      any-eq-true (λ prefix. prefix_covers prefix path) prefixes
        (all-eq-true (λ path. any (λ prefix. prefix_covers prefix path) prefixes) paths h path m) in
    (prefix, m_prefix, ground (arith, eq_iff path prefix))

subset-eq-true :
    (values allowed : List String)
    → subset values allowed ≡ true
    → (value : String) → Elem value values
    → Elem value allowed
unfolding subset
subset-eq-true values allowed h value m =
    (contains_iff allowed value).0 (all-eq-true (contains allowed) values h value m)

module _ (frozen : FrozenRange) (policy : ProjectPolicy) (material_paths : List String)
    (codec : Codec) (now : Time) where
  -- An envelope as its replica holds it: of the schema, and not expired.
  pub record IsCurrent (target : ContentAddressedEvidenceReference) (envelope : ExceptionEnvelope)
      : Type 0 where
    pub retained : frozen.graph.replicas target.digest ≢ ""
    pub decoded : codec.unmarshal_exception (frozen.graph.replicas target.digest) ≡ some envelope
    pub schema_of : envelope.schema ≡ lineage_exception_schema
    pub expires : envelope.expires_at.instant ≢ 0
    pub unexpired : now.instant < envelope.expires_at.instant

  -- An authority that admits an envelope: its class, both actors, the time from issue to expiry in
  -- nanoseconds, the effects and the paths.
  pub record IsAuthority (event : LineageEvent) (envelope : ExceptionEnvelope)
      (authority : PolicyExceptionAuthority) : Type 0 where
    pub named : authority.id ≡ envelope.authority_id
    pub class_admitted : authority.exception_class ≡ envelope.exception_class
    pub actor : Elem envelope.actor_ref authority.actor_refs
    pub recorder : Elem event.actor_ref authority.actor_refs
    pub issued : envelope.issued_at.instant ≢ 0
    pub in_order : envelope.issued_at.instant ≤ envelope.expires_at.instant
    pub in_time :
        envelope.expires_at.instant - envelope.issued_at.instant
        ≤ authority.max_duration_seconds * 1000000000
    pub effects :
        (effect : String) → Elem effect envelope.effect_scopes → Elem effect authority.effect_scopes
    pub allowed_paths :
        (path : String) → Elem path material_paths → IsCovered path authority.path_prefixes
    pub claimed_paths :
        (path : String) → Elem path material_paths → IsCovered path envelope.path_prefixes

  pub current_envelope-IsCurrent :
      (target : ContentAddressedEvidenceReference) (envelope : ExceptionEnvelope)
      → current_envelope frozen policy material_paths codec now target ≡ some envelope
      → IsCurrent target envelope
  unfolding current_envelope
  current_envelope-IsCurrent target envelope h =
      let raw : String = frozen.graph.replicas target.digest in
      elim (Option-cases (codec.unmarshal_exception raw)) [
        | inl none_ ↦ absurd (ground arith)
        | inr (e, decoded) ↦ elim (Bool-cases (raw == "")) [
          | inl empty ↦ absurd (ground arith)
          | inr there ↦
              let same : e ≡ envelope = ground arith in
              let live : is_current frozen policy material_paths codec now e ≡ true =
                ground arith in
              let live_ : is_current frozen policy material_paths codec now envelope ≡ true =
                subst (λ x. is_current frozen policy material_paths codec now x ≡ true) same live in
              record {
                retained = λ e. ground (arith, eq_iff raw "");
                decoded = decoded ∙ ap some same;
                schema_of = ground (arith, eq_iff envelope.schema lineage_exception_schema);
                expires = λ e. ground arith;
                unexpired = ground arith;
              }
        ]
      ]

  matches_authority-eq-true :
      (event : LineageEvent) (envelope : ExceptionEnvelope) (authority : PolicyExceptionAuthority)
      → matches_authority event envelope authority ≡ true
      → (authority.id ≡ envelope.authority_id)
        × (authority.exception_class ≡ envelope.exception_class)
        × Elem envelope.actor_ref authority.actor_refs
        × Elem event.actor_ref authority.actor_refs
  unfolding matches_authority
  matches_authority-eq-true event envelope authority h = ground (
    arith,
    eq_iff authority.id envelope.authority_id,
    eq_iff authority.exception_class envelope.exception_class,
    contains_iff authority.actor_refs envelope.actor_ref,
    contains_iff authority.actor_refs event.actor_ref,
  )

  duration_admitted-eq-true :
      (envelope : ExceptionEnvelope) (authority : PolicyExceptionAuthority)
      → duration_admitted envelope authority ≡ true
      → (envelope.issued_at.instant ≢ 0)
        × (envelope.issued_at.instant ≤ envelope.expires_at.instant)
        × (envelope.expires_at.instant - envelope.issued_at.instant
            ≤ authority.max_duration_seconds * 1000000000)
  unfolding duration_admitted
  duration_admitted-eq-true envelope authority h = (
    (λ e. ground arith),
    ground arith,
    exceeds_limit_sound (envelope.expires_at.instant - envelope.issued_at.instant)
        authority.max_duration_seconds (ground arith),
  )

  pub authority_admits-IsAuthority :
      (event : LineageEvent) (envelope : ExceptionEnvelope) (authority : PolicyExceptionAuthority)
      → authority_admits frozen policy material_paths event envelope authority ≡ true
      → IsAuthority event envelope authority
  unfolding authority_admits scope_admitted
  authority_admits-IsAuthority event envelope authority h =
      let (named, class_admitted, actor, recorder) =
        matches_authority-eq-true event envelope authority (ground arith) in
      let (issued, in_order, in_time) =
        duration_admitted-eq-true envelope authority (ground arith) in
      let effects_in : subset envelope.effect_scopes authority.effect_scopes ≡ true =
        ground arith in
      record {
        named = named;
        class_admitted = class_admitted;
        actor = actor;
        recorder = recorder;
        issued = issued;
        in_order = in_order;
        in_time = in_time;
        effects = subset-eq-true envelope.effect_scopes authority.effect_scopes effects_in;
        allowed_paths = paths_covered-eq-true material_paths authority.path_prefixes (ground arith);
        claimed_paths = paths_covered-eq-true material_paths envelope.path_prefixes (ground arith);
      }

  -- A claim of restoration has passed its checks, and is bound to a recorded requirement.
  abbrev pub IsRestored : LineageEvent → ExceptionEnvelope → Type 0
  IsRestored event envelope =
      (envelope.exception_class ≢ exception_restoration)
      ⊎ ((restoration_failure frozen policy event envelope material_paths ≡ none)
          × IsRecorded frozen.graph envelope)

  pub restoration_of-IsRestored :
      (event : LineageEvent) (envelope : ExceptionEnvelope)
      → restoration_of frozen policy material_paths event envelope ≡ none
      → IsRestored event envelope
  unfolding restoration_of
  restoration_of-IsRestored event envelope h =
      let same = eq_iff envelope.exception_class exception_restoration in
      elim (Bool-cases (envelope.exception_class == exception_restoration)) [
        | inl yes_ ↦
            let stands : restoration_failure frozen policy event envelope material_paths ≡ none =
              ground arith in
            inr (
              stands,
              restoration_failure-IsRecorded frozen policy event envelope material_paths stands,
            )
        | inr no_ ↦ inl (λ e. ground (arith, same))
      ]
