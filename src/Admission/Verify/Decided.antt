-- ===== src/Admission/Verify/Decided.antt =====
-- Every result of `Verify` agrees with its own classification.
use goalrail.Base.{
  true, false, List, [], ◌∷◌, map, none, some, ◌≡◌, refl, inl, inr, arith, is_empty, String,
  Bool-cases, Option-cases, concat,
}
use goalrail.Domain.{
  AdmissionPacket, Codec, AdmissionResult, AdmissionClassification, AdmissionReasonCode,
}
use goalrail.Admission.Types.{Checked-cases, Input}
use goalrail.Admission.Policy.{PolicyEvaluation, evaluate_policy}
use goalrail.Admission.Effective.{EffectiveView, build_effective_view}
use goalrail.Admission.Completeness.{Completeness, evaluate_completeness}
use goalrail.Admission.Authority.{Authority, resolve_authority}
use goalrail.Admission.Binding.{verify_graph_binding, graph_conflict_refs, digests_to_refs}
use goalrail.Admission.Evidence.{verify_packet_evidence, missing_evidence_kinds}
use goalrail.Admission.Denial.{deny_many, base_result, binding_class, evidence_class, view_class}
use goalrail.Admission.Exception.{Verdict, granted, open_verdict, authorized_exception}
use goalrail.Admission.Verify.Coherent.{
  IsCoherent, IsBlank, admits, is_missing, deny_many-IsCoherent, verify_lifecycle-IsCoherent,
  apply_exception-IsCoherent,
}
use goalrail.Admission.Verify.Refusals.{verify_packet_evidence-Names, build_effective_view-Names}
use goalrail.Admission.Verify.{
  verify_exception, evaluated_at, verify_completeness, verify_evidence, verify_policy, verify,
  verify_view, verify_binding, verify_range, verify_authority,
}

-- The classes of a refused check are denials; that of a graph binding is never MISSING.
classes :
    (code : AdmissionReasonCode)
    → (admits (binding_class code) ≡ false)
      × (is_missing (binding_class code) ≡ false)
      × (admits (evidence_class code) ≡ false)
      × (admits (view_class code) ≡ false)
unfolding binding_class evidence_class view_class
classes code = ground arith

refused :
    (r : AdmissionResult) (k : AdmissionClassification) (code : AdmissionReasonCode)
    (refs : List String)
    → admits k ≡ false
    → is_missing k ≡ false
    → IsCoherent (deny_many r k code refs)
refused r k code refs h n = deny_many-IsCoherent r k code refs h (ground arith)

module _ (codec : Codec) (input : Input) (a : Authority) where
  verify_exception-IsCoherent :
      (view : EffectiveView) (c : Completeness) (r : AdmissionResult)
      → IsBlank r
      → IsCoherent (verify_exception codec input a view c r)
  unfolding verify_exception
  verify_exception-IsCoherent view c r blank =
      go (authorized_exception codec input.frozen a.policy r.material_paths (evaluated_at input))
        refl
    where
      go :
          (v : Verdict)
          → authorized_exception codec input.frozen a.policy r.material_paths (evaluated_at input)
            ≡ v
          → IsCoherent (verify_exception codec input a view c r)
      go (granted k) e = rw (e, verify_exception) (apply_exception-IsCoherent view c k r)
      go (open_verdict b (some d)) e =
          rw (e, verify_exception)
            (refused r AdmissionClassification.invalid d ("lineage:exception" ∷ []) refl refl)
      go (open_verdict true none) e =
          rw (e, verify_exception)
            (refused r AdmissionClassification.invalid AdmissionReasonCode.exception_scope_mismatch
              ("lineage:exception" ∷ []) refl refl)
      go (open_verdict false none) e =
          rw (e, verify_exception) (verify_lifecycle-IsCoherent input a c r blank)

  verify_completeness-IsCoherent :
      (view : EffectiveView) (r : AdmissionResult)
      → IsBlank r
      → IsCoherent (verify_completeness codec input a view r)
  unfolding verify_completeness
  verify_completeness-IsCoherent view r blank =
      elim (Option-cases
        (evaluate_completeness codec input.frozen.graph (evaluated_at input) view)) [
          | inl e ↦
              rw (e, verify_completeness)
                (refused r AdmissionClassification.invalid AdmissionReasonCode.packet_invalid
                  ("lineage:exception" ∷ []) refl refl)
          | inr (c, e) ↦
              rw (e, verify_completeness)
                (ground (
                  arith,
                  refused r AdmissionClassification.invalid AdmissionReasonCode.exception_expired
                      (digests_to_refs c.expired_exceptions) refl refl,
                  refused r AdmissionClassification.ambiguous AdmissionReasonCode.lineage_conflict
                      (graph_conflict_refs input.frozen.graph) refl refl,
                  verify_exception-IsCoherent view c r blank,
                ))
        ]

  verify_view-IsCoherent :
      (r : AdmissionResult) → IsBlank r → IsCoherent (verify_view codec input a r)
  unfolding verify_view
  verify_view-IsCoherent r blank =
      elim (Checked-cases (build_effective_view codec input a.policy)) [
        | inr (f, e) ↦
            rw (e, verify_view)
              (deny_many-IsCoherent r (view_class f.code) f.code f.refs (classes f.code).3
                (λ _. build_effective_view-Names codec f input a.policy e))
        | inl (view, e) ↦ rw (e, verify_view) (verify_completeness-IsCoherent view r blank)
      ]

  verify_evidence-IsCoherent :
      (e : PolicyEvaluation) (r : AdmissionResult)
      → IsBlank r
      → IsCoherent (verify_evidence codec input a e r)
  unfolding verify_evidence
  verify_evidence-IsCoherent e r blank =
      elim (Option-cases (verify_packet_evidence codec input.frozen.graph input.packet)) [
        | inr (f, p) ↦
            rw (p, verify_evidence)
              (deny_many-IsCoherent r (evidence_class f.code) f.code f.refs (classes f.code).2
                (λ _. verify_packet_evidence-Names codec input.frozen.graph input.packet f p))
        | inl p ↦
            let kinds =
              missing_evidence_kinds e.required_evidence_kinds input.frozen.graph input.packet in
            rw (p, verify_evidence)
              (ground (
                arith,
                verify_view-IsCoherent r blank,
                deny_many-IsCoherent r AdmissionClassification.missing
                    AdmissionReasonCode.generated_evidence_missing
                    (map (concat "evidence-kind:") kinds) refl,
                kinds_named kinds,
              ))
      ]
    where
      kinds_named :
          (kinds : List String)
          → is_empty kinds ≡ false
          → is_empty (map (concat "evidence-kind:") kinds) ≡ false
      kinds_named [] h = h
      kinds_named (k ∷ ks) h = refl

  verify_binding-IsCoherent :
      (e : PolicyEvaluation) (r : AdmissionResult)
      → IsBlank r
      → IsCoherent (verify_binding codec input a e r)
  unfolding verify_binding
  verify_binding-IsCoherent e r blank =
      elim (Option-cases (
        verify_graph_binding codec input.frozen.graph input.packet input.frozen.commits
          input.frozen.changes e.material_paths a.declaration_digest a.policy_digest)) [
            | inr (f, p) ↦
                rw (p, verify_binding)
                  (refused r (binding_class f.code) f.code f.refs (classes f.code).0
                    (classes f.code).1)
            | inl p ↦ rw (p, verify_binding) (verify_evidence-IsCoherent e r blank)
          ]

  verify_policy-IsCoherent :
      (r : AdmissionResult) → IsBlank r → IsCoherent (verify_policy codec input a r)
  unfolding verify_policy
  verify_policy-IsCoherent r blank =
      let e = evaluate_policy a.policy input.frozen.changes in
      let bound =
        verify_binding-IsCoherent e (record r { material_paths = e.material_paths }) blank in
      elim (Bool-cases (is_empty e.conflict_refs)) [
        | inl h ↦ rw (h, verify_policy) bound
        | inr h ↦
            rw (h, verify_policy)
              (record {
                decided = ground arith;
                clean = ground arith;
                reasoned = λ _. refl;
                named = ground arith;
              })
      ]

  verify_authority-IsCoherent :
      (r : AdmissionResult) → IsBlank r → IsCoherent (verify_authority codec input a r)
  unfolding verify_authority
  verify_authority-IsCoherent r blank =
      let r' = record r {
        project_id = a.declaration.project_id;
        policy_digest = a.policy_digest;
      } in
      ground (
        arith,
        verify_policy-IsCoherent r' blank,
        refused r' AdmissionClassification.invalid AdmissionReasonCode.declaration_invalid
            ("packet:authority" ∷ []) refl refl,
      )

verify_range-IsCoherent :
    (codec : Codec) (input : Input) (r : AdmissionResult)
    → IsBlank r
    → IsCoherent (verify_range codec input r)
unfolding verify_range
verify_range-IsCoherent codec input r blank =
    let mismatch =
      refused r AdmissionClassification.invalid AdmissionReasonCode.range_mismatch
        ("packet:range" ∷ []) refl refl in
    elim (Checked-cases (resolve_authority codec input.frozen)) [
      | inr (f, e) ↦
          rw (e, verify_range)
            (ground (
              arith,
              mismatch,
              refused r AdmissionClassification.invalid f.code
                  ("repo:root/.goalrail/project.json" ∷ []) refl refl,
            ))
      | inl (a, e) ↦
          rw (e, verify_range)
            (ground (arith, mismatch, verify_authority-IsCoherent codec input a r blank))
    ]

base_result-IsBlank : (packet : AdmissionPacket) → IsBlank (base_result packet)
unfolding base_result
base_result-IsBlank packet = (refl, refl)

-- Every result agrees with its classification: it allows exactly under VALID, EXEMPTED, BREAK_GLASS
-- and BOOTSTRAP; under VALID it names nothing missing and no conflict; under any other class it
-- gives a reason; and under MISSING it names what is missing.
pub verify-IsCoherent :
    (codec : Codec) (input : Input) (r : AdmissionResult)
    → verify codec input ≡ some r
    → IsCoherent r
unfolding verify
verify-IsCoherent codec input r v = ground (
  arith,
  verify_range-IsCoherent codec input (base_result input.packet) (base_result-IsBlank input.packet),
)
