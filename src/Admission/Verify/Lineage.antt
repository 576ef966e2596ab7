-- ===== src/Admission/Verify/Lineage.antt =====
-- The committed lineage under an allowed result: on no route is the intent, the change, the work
-- spec, the commits or the project policy missing.
use goalrail.Base.{
  sym, utc, ◌&&◌, Bool, true, false, List, [], ◌∷◌, some, ◌≡◌, refl, inl, inr, arith, contains, any,
  all-eq-true, Elem, not, Bool-cases, contains_iff, eq_iff, Bool, ◌&&◌, ◌==◌,
}
use goalrail.Domain.{
  Codec, LineageRelation, LineageRequirement, lineage_confirmed_intent, lineage_project_policy,
  lineage_change, lineage_work_spec, lineage_commit, AdmissionResult, AdmissionOutcome,
  relation_single, relation_set,
}
use goalrail.Admission.Types.{Input, WorkUnitGraph, required_spine}
use goalrail.Admission.Binding.Spine.{has_required_spine-Requires}
use goalrail.Admission.Completeness.{Completeness, EventScan, classify, scan_events}
use goalrail.Admission.Completeness.Committed.{Committed, scan_events-Committed}
use goalrail.Admission.Completeness.Required.{is_effective, classify-missing}
use goalrail.Admission.Exception.{bypassable, exception_may_bypass}
use goalrail.Admission.Policy.{PolicyEvaluation}
use goalrail.Admission.Authority.{Authority}
use goalrail.Admission.Candidates.{candidate_relations, well_formed_candidate}
use goalrail.Admission.Candidates.Vouched.{evaluate_candidates-Vouched}
use goalrail.Admission.Effective.{EffectiveView, view_present}
use goalrail.Admission.Verify.Allowed.{Grounds, verify-IsAllowed}
use goalrail.Admission.Verify.Owner.{
  build_effective_view-eq-pass, evaluate_completeness-classify, verify_graph_binding-spine,
  Complete-effective,
}
use goalrail.Admission.Verify.{verify, evaluated_at, lineage_closure}

-- A relation that no exception and no candidate stands in for.
abbrev pub is_committed : LineageRelation → Bool
is_committed r = not (contains bypassable r) && not (contains candidate_relations r)

closure_bypassed :
    (r : LineageRelation) → contains bypassable r ≡ false → not (r == lineage_closure) ≡ true
unfolding contains any
closure_bypassed r h = ground (arith, eq_iff r lineage_closure, eq_iff lineage_closure r)

Excepted-effective :
    (view : EffectiveView) (graph : WorkUnitGraph) (scan : EventScan) (c : Completeness)
    (r : LineageRequirement)
    → classify view graph scan ≡ c
    → Elem r graph.unit.required_relations
    → contains bypassable r.relation ≡ false
    → exception_may_bypass c.missing ≡ true
    → is_effective view graph scan.present r.relation ≡ true
unfolding exception_may_bypass
Excepted-effective view graph scan c r e m held h =
    elim (Bool-cases (is_effective view graph scan.present r.relation)) [
      | inl yes_ ↦ yes_
      | inr no_ ↦
          let listed =
            rw e at (classify-missing view graph scan r m (closure_bypassed r.relation held) no_) in
          let passed = all-eq-true (contains bypassable) c.missing h r.relation listed in cc
    ]

module _ (codec : Codec) (input : Input) (a : Authority) (e : PolicyEvaluation)
    (g : Grounds codec input a e) where
  abbrev graph : WorkUnitGraph
  graph = input.frozen.graph

  -- What no exception stands in for is effective on both routes.
  spine-effective :
      (want : LineageRequirement)
      → Elem want required_spine
      → contains bypassable want.relation ≡ false
      → (scan : EventScan) × (scan_events codec graph
            (utc (evaluated_at input))
            graph.events
            (record { present = []; expired = [] })
          ≡ some scan)
        × (is_effective g.view graph scan.present want.relation ≡ true)
  spine-effective want m held =
      let spine = has_required_spine-Requires graph.unit.required_relations (
        verify_graph_binding-spine codec graph input.packet input.frozen.commits
          input.frozen.changes e.material_paths a.declaration_digest a.policy_digest g.bound) in
      let (r, r_in, same, _) = spine.1 want m in
      let (scan, scanned, classified) =
        evaluate_completeness-classify codec graph (evaluated_at input) g.view g.completeness
          g.complete in
      let held' : contains bypassable r.relation ≡ false = rw same held in
      let effective : is_effective g.view graph scan.present r.relation ≡ true = elim g.route [
        | inl (_, bypassed) ↦
            Excepted-effective g.view graph scan g.completeness r classified r_in held' bypassed
        | inr (nothing, _) ↦
            Complete-effective codec input g.view g.completeness scan r classified r_in
              (closure_bypassed r.relation held') nothing
      ] in
      (scan, scanned, rw same at effective)

  unclaimed :
      (r : LineageRelation)
      → contains candidate_relations r ≡ false
      → contains g.view.satisfied r ≡ false
  unfolding well_formed_candidate
  unclaimed r h = elim (Bool-cases (contains g.view.satisfied r)) [
    | inr no_ ↦ no_
    | inl yes_ ↦
        let (evaluated, _) = build_effective_view-eq-pass codec input a.policy g.view g.viewed in
        let (_, (c, _, vouched)) =
          evaluate_candidates-Vouched codec input.candidates input.frozen a.policy input.packet
            g.view.satisfied r evaluated ((contains_iff g.view.satisfied r).0 yes_) in
        let related = vouched.relates in let formed = vouched.well_formed in absurd (ground arith)
  ]

  pub spine-Committed :
      (want : LineageRequirement)
      → Elem want required_spine
      → is_committed want.relation ≡ true
      → (contains g.view.suppressed want.relation ≡ false) × Committed graph want.relation
  unfolding view_present
  spine-Committed want m h =
      let (scan, scanned, effective) = spine-effective want m (ground arith) in
      let free = unclaimed want.relation (ground arith) in
      let present : contains scan.present want.relation ≡ true = ground arith in
      (
        ground arith,
        elim (scan_events-Committed codec graph (utc (evaluated_at input)) graph.events
            (record { present = []; expired = [] }) scan want.relation (λ _ m'. m') scanned
            ((contains_iff scan.present want.relation).0 present)) [
              | inl nothing ↦ absurd nothing
              | inr found ↦ found
            ],
      )

-- The relations of the spine that only committed evidence provides.
abbrev pub committed_relations : List LineageRelation
committed_relations =
    lineage_project_policy ∷ lineage_confirmed_intent ∷ lineage_change ∷ lineage_work_spec
    ∷ lineage_commit ∷ []

committed_requirement :
    (r : LineageRelation)
    → Elem r committed_relations
    → (want : LineageRequirement) × (want.relation ≡ r)
      × Elem want required_spine
      × (is_committed want.relation ≡ true)
unfolding contains any
committed_requirement r (inl e) = (
  record { relation = lineage_project_policy; cardinality = relation_set },
  sym e,
  ground arith,
  refl,
)
committed_requirement r (inr (inl e)) = (
  record { relation = lineage_confirmed_intent; cardinality = relation_single },
  sym e,
  ground arith,
  refl,
)
committed_requirement r (inr (inr (inl e))) =
    (record { relation = lineage_change; cardinality = relation_single }, sym e, ground arith, refl)
committed_requirement r (inr (inr (inr (inl e)))) = (
  record { relation = lineage_work_spec; cardinality = relation_single },
  sym e,
  ground arith,
  refl,
)
committed_requirement r (inr (inr (inr (inr (inr none_left))))) = absurd none_left
committed_requirement r (inr (inr (inr (inr (inl e))))) =
    (record { relation = lineage_commit; cardinality = relation_set }, sym e, ground arith, refl)

-- No allowed result, on any route, lacks the project policy, the confirmed intent, the change, the
-- work spec or the commits: the committed lineage has an event of each of these relations with a
-- target that does not stand for an unavailable one.
pub verify-Committed :
    (codec : Codec) (input : Input) (r : AdmissionResult) (relation : LineageRelation)
    → verify codec input ≡ some r
    → r.outcome ≡ AdmissionOutcome.allow
    → Elem relation committed_relations
    → Committed input.frozen.graph relation
verify-Committed codec input r relation v h m =
    let allowance = verify-IsAllowed codec input r v h in
    let (want, same, want_in, committed) = committed_requirement relation m in
    rw same at
      (spine-Committed codec input allowance.authority _ allowance.grounds want want_in committed).1
