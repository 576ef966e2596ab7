-- ===== src/Admission/Verify/Allowed.antt =====
-- What an allowed result of `Verify` rests on, stage by stage.
use goalrail.Base.{
  String, true, false, none, some, ◌≡◌, refl, ◌⊎◌, inl, inr, arith, is_empty, Option-cases, eq_iff,
}
use goalrail.Domain.{Codec, AdmissionResult, AdmissionOutcome, lineage_owner_decision}
use goalrail.Admission.Types.{Checked-cases, Input, pass}
use goalrail.Admission.Policy.{PolicyEvaluation, evaluate_policy}
use goalrail.Admission.Effective.{EffectiveView, view_satisfied, build_effective_view}
use goalrail.Admission.Completeness.{Completeness, evaluate_completeness}
use goalrail.Admission.Authority.{Authority, resolve_authority}
use goalrail.Admission.Binding.{verify_graph_binding}
use goalrail.Admission.Evidence.{verify_packet_evidence, missing_evidence_kinds}
use goalrail.Admission.Denial.{deny_many, deny_missing, base_result}
use goalrail.Admission.Exception.{
  Verdict, granted, open_verdict, authorized_exception, exception_may_bypass,
}
use goalrail.Admission.Verify.{
  verify_lifecycle, apply_exception, verify_exception, without_closure, evaluated_at,
  verify_completeness, verify_evidence, verify_policy, verify, verify_view, verify_binding,
  verify_range, verify_authority,
}

abbrev pub IsAllowed : AdmissionResult → Type 0
IsAllowed r = r.outcome ≡ AdmissionOutcome.allow

-- The two routes to an allowed result: by an exception, and with nothing missing.
abbrev pub Excepted : EffectiveView → Completeness → Type 0
Excepted view c =
    (view_satisfied view lineage_owner_decision ≡ true) × (exception_may_bypass c.missing ≡ true)

abbrev pub Complete : Completeness → Type 0
Complete c = (is_empty (without_closure c.missing) ≡ true) × (is_empty c.unavailable ≡ true)

pub verify_lifecycle-IsAllowed :
    (input : Input) (a : Authority) (c : Completeness) (r : AdmissionResult)
    → IsAllowed (verify_lifecycle input a c r)
    → Complete c
unfolding verify_lifecycle deny_missing deny_many
verify_lifecycle-IsAllowed input a c r h = ground arith

pub apply_exception-IsAllowed :
    (view : EffectiveView) (c : Completeness) (k : String) (r : AdmissionResult)
    → IsAllowed (apply_exception view c k r)
    → Excepted view c
unfolding apply_exception deny_missing deny_many
apply_exception-IsAllowed view c k r h = ground arith

module _ (codec : Codec) (input : Input) where
  pub record Grounds (a : Authority) (e : PolicyEvaluation) : Type 0 where
    pub bound :
        verify_graph_binding codec input.frozen.graph input.packet input.frozen.commits
          input.frozen.changes e.material_paths a.declaration_digest a.policy_digest
        ≡ none
    pub evidenced : verify_packet_evidence codec input.frozen.graph input.packet ≡ none
    pub kinds :
        is_empty (missing_evidence_kinds e.required_evidence_kinds input.frozen.graph input.packet)
        ≡ true
    pub view : EffectiveView
    pub viewed : build_effective_view codec input a.policy ≡ pass view
    pub completeness : Completeness
    pub complete :
        evaluate_completeness codec input.frozen.graph (evaluated_at input) view ≡ some completeness
    pub unexpired : is_empty completeness.expired_exceptions ≡ true
    pub unambiguous : is_empty completeness.ambiguous ≡ true
    pub route : Excepted view completeness ⊎ Complete completeness

  verify_exception-IsAllowed :
      (a : Authority) (view : EffectiveView) (c : Completeness) (r : AdmissionResult)
      → IsAllowed (verify_exception codec input a view c r)
      → Excepted view c ⊎ Complete c
  unfolding verify_exception deny_many
  verify_exception-IsAllowed a view c r h =
      go (authorized_exception codec input.frozen a.policy r.material_paths (evaluated_at input))
        refl
    where
      go :
          (v : Verdict)
          → authorized_exception codec input.frozen a.policy r.material_paths (evaluated_at input)
            ≡ v
          → Excepted view c ⊎ Complete c
      go (granted k) e = inl (apply_exception-IsAllowed view c k r (rw (e, verify_exception) at h))
      go (open_verdict b (some d)) e = cc (rw (e, verify_exception) at h)
      go (open_verdict true none) e = cc (rw (e, verify_exception) at h)
      go (open_verdict false none) e =
          inr (verify_lifecycle-IsAllowed input a c r (rw (e, verify_exception) at h))

  verify_completeness-IsAllowed :
      (a : Authority) (view : EffectiveView) (r : AdmissionResult)
      → IsAllowed (verify_completeness codec input a view r)
      → (c : Completeness) × (evaluate_completeness codec input.frozen.graph
            (evaluated_at input)
            view
          ≡ some c)
        × (is_empty c.expired_exceptions ≡ true)
        × (is_empty c.ambiguous ≡ true)
        × (Excepted view c ⊎ Complete c)
  unfolding verify_completeness deny_many
  verify_completeness-IsAllowed a view r h =
      elim (Option-cases
        (evaluate_completeness codec input.frozen.graph (evaluated_at input) view)) [
          | inl e ↦ cc (rw (e, verify_completeness) at h)
          | inr (c, e) ↦
              let h' = rw (e, verify_completeness) at h in
              (
                c,
                e,
                ground arith,
                ground arith,
                verify_exception-IsAllowed a view c r (ground arith),
              )
        ]

  verify_evidence-IsAllowed :
      (a : Authority) (e : PolicyEvaluation) (r : AdmissionResult)
      → IsAllowed (verify_evidence codec input a e r)
      → verify_graph_binding codec input.frozen.graph input.packet input.frozen.commits
          input.frozen.changes e.material_paths a.declaration_digest a.policy_digest
        ≡ none
      → Grounds a e
  unfolding verify_evidence verify_view deny_many
  verify_evidence-IsAllowed a e r h bound =
      elim (Checked-cases (build_effective_view codec input a.policy)) [
        | inr (f, v) ↦ ground arith
        | inl (view, v) ↦
            let h' : IsAllowed (verify_completeness codec input a view r) = ground arith in
            let (c, complete, unexpired, unambiguous, route) =
              verify_completeness-IsAllowed a view r h' in
            record {
              bound = bound;
              evidenced = ground arith;
              kinds = ground arith;
              view = view;
              viewed = v;
              completeness = c;
              complete = complete;
              unexpired = unexpired;
              unambiguous = unambiguous;
              route = route;
            }
      ]

  verify_policy-IsAllowed :
      (a : Authority) (r : AdmissionResult)
      → IsAllowed (verify_policy codec input a r)
      → Grounds a (evaluate_policy a.policy input.frozen.changes)
        × (is_empty (evaluate_policy a.policy input.frozen.changes).conflict_refs ≡ true)
  unfolding verify_policy verify_binding deny_many
  verify_policy-IsAllowed a r h =
      let e = evaluate_policy a.policy input.frozen.changes in
      let r' = record r { material_paths = e.material_paths } in
      (verify_evidence-IsAllowed a e r' (ground arith) (ground arith), ground arith)

  -- An authority and everything that was checked under it.
  pub record Allowance : Type 0 where
    pub range_base : input.packet.base_revision ≡ input.frozen.base_revision
    pub range_head : input.packet.head_revision ≡ input.frozen.head_revision
    pub authority : Authority
    pub resolved : resolve_authority codec input.frozen ≡ pass authority
    pub grounds : Grounds authority (evaluate_policy authority.policy input.frozen.changes)
    pub classified :
        is_empty (evaluate_policy authority.policy input.frozen.changes).conflict_refs ≡ true

  pub verify-IsAllowed :
      (r : AdmissionResult) → verify codec input ≡ some r → IsAllowed r → Allowance
  unfolding verify verify_range verify_authority deny_many
  verify-IsAllowed r v h = elim (Checked-cases (resolve_authority codec input.frozen)) [
    | inr (f, resolved) ↦ ground arith
    | inl (a, resolved) ↦
        let r' = record (base_result input.packet) {
          project_id = a.declaration.project_id;
          policy_digest = a.policy_digest;
        } in
        let h' : IsAllowed (verify_policy codec input a r') = ground arith in
        let (grounds, classified) = verify_policy-IsAllowed a r' h' in
        record {
          range_base = ground (arith, eq_iff input.packet.base_revision input.frozen.base_revision);
          range_head = ground (arith, eq_iff input.packet.head_revision input.frozen.head_revision);
          authority = a;
          resolved = resolved;
          grounds = grounds;
          classified = classified;
        }
  ]
