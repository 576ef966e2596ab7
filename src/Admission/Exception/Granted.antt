-- ===== src/Admission/Exception/Granted.antt =====
-- What an exception that `authorizedException` grants rests on.
use goalrail.Base.{
  ◌∙◌, String, Bool, true, false, List, [], ◌∷◌, Option, none, some, ◌≡◌, refl, ◌⊎◌, inl, inr,
  arith, Elem, Time, eq_iff, Option-cases, Bool-cases,
}
use goalrail.Domain.{
  LineageEvent, ContentAddressedEvidenceReference, Codec, ProjectPolicy, PolicyExceptionAuthority,
  AdmissionReasonCode, ExceptionEnvelope, lineage_exception,
}
use goalrail.Admission.Types.{FrozenRange}
use goalrail.Admission.Exception.{
  exception_targets, first_denial, Verdict, granted, open_verdict, authorized_exception, try_events,
  try_targets, try_target, try_authorities, current_envelope, authority_admits, restoration_of,
}
use goalrail.Admission.Exception.Admitted.{
  IsCurrent, IsAuthority, IsRestored, current_envelope-IsCurrent, authority_admits-IsAuthority,
  restoration_of-IsRestored,
}

Verdict-cases :
    (v : Verdict)
    → ((k : String) × (v ≡ granted k))
      ⊎ ((b : Bool) × (d : Option AdmissionReasonCode) × (v ≡ open_verdict b d))
Verdict-cases (granted k) = inl (k, refl)
Verdict-cases (open_verdict b d) = inr (b, d, refl)

module _ (frozen : FrozenRange) (policy : ProjectPolicy) (material_paths : List String)
    (codec : Codec) (now : Time) where
  pub record IsGranted (k : String) : Type 0 where
    pub event : LineageEvent
    pub recorded : Elem event frozen.graph.events
    pub relates : event.relation ≡ lineage_exception
    pub target : ContentAddressedEvidenceReference
    pub targeted : Elem target event.targets
    pub envelope : ExceptionEnvelope
    pub current : IsCurrent frozen policy material_paths codec now target envelope
    pub class_of : envelope.exception_class ≡ k
    pub authority : PolicyExceptionAuthority
    pub listed : Elem authority policy.exception_authorities
    pub admitted : IsAuthority frozen policy material_paths codec now event envelope authority
    pub restored : IsRestored frozen policy material_paths codec now event envelope

  abbrev Admits : LineageEvent → ExceptionEnvelope → List PolicyExceptionAuthority → String → Type 0
  Admits event envelope authorities k =
      (authority : PolicyExceptionAuthority) × Elem authority authorities
      × (authority_admits frozen policy material_paths event envelope authority ≡ true)
      × (restoration_of frozen policy material_paths event envelope ≡ none)
      × (envelope.exception_class ≡ k)

  exception_targets-Elem :
      (event : LineageEvent) (target : ContentAddressedEvidenceReference)
      → Elem target (exception_targets frozen policy material_paths codec now event)
      → (event.relation ≡ lineage_exception) × Elem target event.targets
  exception_targets-Elem event target m = ground (arith, eq_iff event.relation lineage_exception)

  try_authorities-granted :
      (event : LineageEvent) (envelope : ExceptionEnvelope)
      (authorities : List PolicyExceptionAuthority) (denial : Option AdmissionReasonCode)
      (k : String)
      → try_authorities frozen policy material_paths event envelope authorities denial ≡ granted k
      → Admits event envelope authorities k
  unfolding try_authorities
  try_authorities-granted event envelope [] denial k h = cc
  try_authorities-granted event envelope (a ∷ rest) denial k h =
      elim (Bool-cases (authority_admits frozen policy material_paths event envelope a)) [
        | inr no_ ↦
            let (b, b_in, ok, clear, same) =
              try_authorities-granted event envelope rest denial k
                (rw (no_, try_authorities) at h) in
            (b, inr b_in, ok, clear, same)
        | inl yes_ ↦
            elim (Option-cases (restoration_of frozen policy material_paths event envelope)) [
              | inl clear ↦ (a, inl refl, yes_, clear, ground arith)
              | inr (failure, e) ↦
                  let (b, b_in, ok, clear, same) =
                    try_authorities-granted event envelope rest (first_denial denial failure) k
                      (rw (yes_, e, try_authorities) at h) in
                  (b, inr b_in, ok, clear, same)
            ]
      ]

  try_target-granted :
      (event : LineageEvent) (target : ContentAddressedEvidenceReference) (observed : Bool)
      (denial : Option AdmissionReasonCode) (k : String)
      → try_target frozen policy material_paths codec now event target observed denial ≡ granted k
      → (envelope : ExceptionEnvelope) × (current_envelope frozen policy material_paths codec now
            target
          ≡ some envelope)
        × Admits event envelope policy.exception_authorities k
  unfolding try_target
  try_target-granted event target observed denial k h =
      elim (Option-cases (current_envelope frozen policy material_paths codec now target)) [
        | inl e ↦ cc (rw (e, try_target) at h)
        | inr (envelope, e) ↦ (
          envelope,
          e,
          try_authorities-granted event envelope policy.exception_authorities denial k
              (rw (e, try_target) at h),
        )
      ]

  try_targets-granted :
      (event : LineageEvent) (targets : List ContentAddressedEvidenceReference) (observed : Bool)
      (denial : Option AdmissionReasonCode) (k : String)
      → try_targets frozen policy material_paths codec now event targets observed denial ≡ granted k
      → (target : ContentAddressedEvidenceReference) × Elem target targets
        × (envelope : ExceptionEnvelope) × (current_envelope frozen policy material_paths codec now
              target
            ≡ some envelope)
        × Admits event envelope policy.exception_authorities k
  unfolding try_targets
  try_targets-granted event [] observed denial k h = cc
  try_targets-granted event (target ∷ targets) observed denial k h =
      elim (Verdict-cases
        (try_target frozen policy material_paths codec now event target observed denial)) [
          | inl (k', e) ↦
              let (envelope, decoded, found) =
                try_target-granted event target observed denial k
                  (e ∙ (rw (e, try_targets) at h)) in
              (target, inl refl, envelope, decoded, found)
          | inr (observed', denial', e) ↦
              let (t, t_in, envelope, decoded, found) =
                try_targets-granted event targets observed' denial' k (rw (e, try_targets) at h) in
              (t, inr t_in, envelope, decoded, found)
        ]

  try_events-granted :
      (events : List LineageEvent) (observed : Bool) (denial : Option AdmissionReasonCode)
      (k : String)
      → ((event : LineageEvent) → Elem event events → Elem event frozen.graph.events)
      → try_events frozen policy material_paths codec now events observed denial ≡ granted k
      → IsGranted k
  unfolding try_events
  try_events-granted [] observed denial k sub h = cc
  try_events-granted (event ∷ events) observed denial k sub h =
      elim (Verdict-cases (
        try_targets frozen policy material_paths codec now event
          (exception_targets frozen policy material_paths codec now event) observed denial)) [
            | inr (observed', denial', e) ↦
                try_events-granted events observed' denial' k (λ x m. sub x (inr m))
                  (rw (e, try_events) at h)
            | inl (k', e) ↦
                let (
                  target,
                  t_in,
                  envelope,
                  decoded,
                  (authority, listed, admitted, restored, class_of),
                ) =
                  try_targets-granted event
                    (exception_targets frozen policy material_paths codec now event) observed denial
                    k (e ∙ (rw (e, try_events) at h)) in
                let (relates, targeted) = exception_targets-Elem event target t_in in
                record {
                  event = event;
                  recorded = sub event (inl refl);
                  relates = relates;
                  target = target;
                  targeted = targeted;
                  envelope = envelope;
                  current =
                      current_envelope-IsCurrent frozen policy material_paths codec now target
                        envelope decoded;
                  class_of = class_of;
                  authority = authority;
                  listed = listed;
                  admitted =
                      authority_admits-IsAuthority frozen policy material_paths codec now event
                        envelope authority admitted;
                  restored =
                      restoration_of-IsRestored frozen policy material_paths codec now event
                        envelope restored;
                }
          ]

-- An exception of class `k` is granted only by an exception event of the work unit's graph, with a
-- target whose replica decodes to an envelope of that class that expires after the evaluation; an
-- authority of the policy has the envelope's identity and class, lists both actors, allows the time
-- from issue to expiry, which are in order, and admits the effects; the prefixes of the authority
-- and those of the envelope each cover every material path; and a restoration claim passes its own
-- checks and is bound to a requirement that a confirmed intent event of the lineage records.
pub authorized_exception-IsGranted :
    (codec : Codec) (frozen : FrozenRange) (policy : ProjectPolicy) (material_paths : List String)
    (now : Time) (k : String)
    → authorized_exception codec frozen policy material_paths now ≡ granted k
    → IsGranted frozen policy material_paths codec now k
unfolding authorized_exception
authorized_exception-IsGranted codec frozen policy material_paths now k h =
    try_events-granted frozen policy material_paths codec now frozen.graph.events false none k
      (λ _ m. m) h
