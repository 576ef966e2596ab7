-- ===== src/Admission/Verify/Coherent.antt =====
-- What `ValidateAdmissionResult` asks of a classification, on every branch of `Verify`.
use goalrail.Admission.Verify.{
  verify_lifecycle, apply_exception, Authority, EffectiveView, Completeness, not, without_closure,
}
use goalrail.Admission.Exception.{admission_class, exception_may_bypass}
use goalrail.Admission.Policy.Keys.{Elem-add_keys}
use goalrail.Base.{
  true, false, List, [], ◌∷◌, ◌++◌, ◌≡◌, refl, inl, ◌↔◌, arith, is_empty, Bool, String,
  Elem-sort_by, Elem-map, sort_texts, text_lt, all, concat, nonempty_elem, is_empty-Elem, ◌||◌, sym,
}
use goalrail.Domain.{
  AdmissionResult, AdmissionOutcome, AdmissionClassification, AdmissionReasonCode, LineageRelation,
  AdmissionReason,
}
use goalrail.Admission.Types.{Input}
use goalrail.Admission.Denial.{deny_many, deny_missing, unique_strings, missing_reason, allow_with}

abbrev pub admits : AdmissionClassification → Bool
admits AdmissionClassification.valid = true
admits AdmissionClassification.missing = false
admits AdmissionClassification.ambiguous = false
admits AdmissionClassification.invalid = false
admits AdmissionClassification.exempted = true
admits AdmissionClassification.break_glass = true
admits AdmissionClassification.bootstrap = true

abbrev pub is_missing : AdmissionClassification → Bool
is_missing AdmissionClassification.missing = true
is_missing _ = false

abbrev pub is_valid : AdmissionClassification → Bool
is_valid AdmissionClassification.valid = true
is_valid _ = false

pub record IsCoherent (r : AdmissionResult) : Type 0 where
  pub decided : (r.outcome ≡ AdmissionOutcome.allow) ↔ (admits r.classification ≡ true)
  pub clean : is_valid r.classification ≡ true → (r.missing_refs ≡ []) × (r.conflict_refs ≡ [])
  pub reasoned : is_valid r.classification ≡ false → is_empty r.reasons ≡ false
  pub named : is_missing r.classification ≡ true → is_empty r.missing_refs ≡ false

-- A result before its first denial.
abbrev pub IsBlank : AdmissionResult → Type 0
IsBlank r = (r.missing_refs ≡ []) × (r.conflict_refs ≡ [])

refs_nonempty :
    (xs : List String) → is_empty xs ≡ false → is_empty (sort_texts (unique_strings xs)) ≡ false
unfolding unique_strings
refs_nonempty xs h =
    let (x, m) = nonempty_elem xs h in
    is_empty-Elem _ x ((Elem-sort_by text_lt _ x).1 ((Elem-add_keys xs [] x).1 (inl m)))

pub deny_many-IsCoherent :
    (r : AdmissionResult) (k : AdmissionClassification) (code : AdmissionReasonCode)
    (refs : List String)
    → admits k ≡ false
    → (is_missing k ≡ true → is_empty refs ≡ false)
    → IsCoherent (deny_many r k code refs)
unfolding deny_many
deny_many-IsCoherent r k code refs h n = record {
  decided = ground arith;
  clean = ground arith;
  reasoned = λ _. refl;
  named = ground (arith, refs_nonempty refs);
}

deny_missing-IsCoherent :
    (r : AdmissionResult) (relations : List LineageRelation)
    → is_empty relations ≡ false
    → IsCoherent (deny_missing r relations)
unfolding deny_missing
deny_missing-IsCoherent r relations h =
    let (x, m) = nonempty_elem relations h in
    deny_many-IsCoherent r AdmissionClassification.missing (missing_reason relations) _ refl (λ _.
      is_empty-Elem _ (concat "lineage:" x)
        (Elem-map (concat "lineage:") _ x ((Elem-sort_by text_lt relations x).1 m)))

admission_class-admits :
    (k : String) → (admits (admission_class k) ≡ true) × (is_valid (admission_class k) ≡ false)
unfolding admission_class
admission_class-admits k = ground arith

allow_with-IsCoherent :
    (r : AdmissionResult) (k : AdmissionClassification) (reason : AdmissionReason)
    → (admits k ≡ true) × (is_valid k ≡ false)
    → IsCoherent (allow_with r k (reason ∷ []))
allow_with-IsCoherent r k reason h = record {
  decided = ground arith;
  clean = ground arith;
  reasoned = λ _. refl;
  named = ground arith;
}

allow_with-valid-IsCoherent :
    (r : AdmissionResult) (reasons : List AdmissionReason)
    → IsBlank r
    → IsCoherent (allow_with r AdmissionClassification.valid reasons)
allow_with-valid-IsCoherent r reasons blank = record {
  decided = ground arith;
  clean = λ _. blank;
  reasoned = ground arith;
  named = ground arith;
}

lacking :
    (missing unavailable : List LineageRelation)
    → (not (is_empty missing) || not (is_empty unavailable)) ≡ true
    → is_empty (unique_strings (missing ++ unavailable)) ≡ false
unfolding unique_strings
lacking missing unavailable h =
    let (x, m) = nonempty_elem (missing ++ unavailable) (append_nonempty missing unavailable h) in
    is_empty-Elem _ x ((Elem-add_keys _ [] x).1 (inl m))
  where
    append_nonempty :
        (xs ys : List String)
        → (not (is_empty xs) || not (is_empty ys)) ≡ true
        → is_empty (xs ++ ys) ≡ false
    append_nonempty [] ys h = ground arith
    append_nonempty (x ∷ xs) ys h = refl

not_bypassed :
    (missing : List LineageRelation)
    → not (exception_may_bypass missing) ≡ true
    → is_empty missing ≡ false
unfolding exception_may_bypass all
not_bypassed [] h = sym h
not_bypassed (x ∷ xs) h = refl

-- A denial that is not MISSING, and one that names a single reference.
denied :
    (r : AdmissionResult) (k : AdmissionClassification) (code : AdmissionReasonCode)
    (refs : List String)
    → admits k ≡ false
    → is_empty refs ≡ false
    → IsCoherent (deny_many r k code refs)
denied r k code refs h n = deny_many-IsCoherent r k code refs h (λ _. n)

pub verify_lifecycle-IsCoherent :
    (input : Input) (a : Authority) (c : Completeness) (r : AdmissionResult)
    → IsBlank r
    → IsCoherent (verify_lifecycle input a c r)
unfolding verify_lifecycle
verify_lifecycle-IsCoherent input a c r blank =
    let k = AdmissionClassification.missing in
    ground (
      arith,
      lacking (without_closure c.missing) c.unavailable,
      deny_missing-IsCoherent r (unique_strings (without_closure c.missing ++ c.unavailable)),
      deny_many-IsCoherent r k AdmissionReasonCode.material_path_unbound ("lineage:lifecycle" ∷ [])
          refl (λ _. refl),
      allow_with-IsCoherent r AdmissionClassification.bootstrap
          (record {
            code = AdmissionReasonCode.bootstrap_range;
            evidence_refs = concat "git:head/" input.packet.head_revision ∷ [];
          })
          (refl, refl),
      allow_with-valid-IsCoherent r r.reasons blank,
    )

pub apply_exception-IsCoherent :
    (view : EffectiveView) (c : Completeness) (k : String) (r : AdmissionResult)
    → IsCoherent (apply_exception view c k r)
unfolding apply_exception
apply_exception-IsCoherent view c k r =
    let missing = AdmissionClassification.missing in
    ground (
      arith,
      not_bypassed c.missing,
      deny_missing-IsCoherent r c.missing,
      deny_many-IsCoherent r missing AdmissionReasonCode.owner_decision_missing
          ("lineage:owner_decision" ∷ []) refl (λ _. refl),
      allow_with-IsCoherent r (admission_class k)
          (record {
            code = AdmissionReasonCode.exception_applied;
            evidence_refs = "lineage:exception" ∷ [];
          })
          (admission_class-admits k),
    )
