-- ===== src/Admission/Completeness/Required.antt =====
-- No required relation is dropped: whatever is not in `Missing` is effective.
use goalrail.Base.{
  Bool, true, false, List, ◌≡◌, refl, arith, Elem, Elem-keep, Elem-map, Elem-sort_by, contains,
  is_empty, text_lt, Elem-empty,
}
use goalrail.Domain.{LineageRequirement, LineageRelation}
use goalrail.Admission.Types.{WorkUnitGraph}
use goalrail.Admission.Effective.{EffectiveView, view_present}
use goalrail.Admission.Completeness.{EventScan, classify, missing_relations, not_closure}

module _ (view : EffectiveView) (graph : WorkUnitGraph) (present : List LineageRelation) where
  -- What the source calls `effective`.
  abbrev pub is_effective : LineageRelation → Bool
  is_effective r = view_present view r (contains present r) (contains graph.unavailable r)

  pub missing_relations_complete :
      (counts : LineageRequirement → Bool) (r : LineageRequirement)
      → Elem r graph.unit.required_relations
      → counts r ≡ true
      → is_effective r.relation ≡ false
      → Elem r.relation (missing_relations view graph present counts)
  unfolding missing_relations
  missing_relations_complete counts r m c absent =
      (Elem-sort_by text_lt _ r.relation).1
        (Elem-map (λ q. q.relation) _ r ((Elem-keep _ _ r).1 (m, ground arith)))

-- A required relation other than closure that is not effective is reported as missing, in every
-- lifecycle state.
pub classify-missing :
    (view : EffectiveView) (graph : WorkUnitGraph) (scan : EventScan) (r : LineageRequirement)
    → Elem r graph.unit.required_relations
    → not_closure r ≡ true
    → is_effective view graph scan.present r.relation ≡ false
    → Elem r.relation (classify view graph scan).missing
unfolding classify
classify-missing view graph scan r m other absent =
    let closed = missing_relations view graph scan.present (λ _. true) in
    let in_closed =
      missing_relations_complete view graph scan.present (λ _. true) r m refl absent in
    let in_admission =
      missing_relations_complete view graph scan.present not_closure r m other absent in
    ground (
      arith,
      in_closed,
      in_admission,
      λ (e : is_empty closed ≡ true). Elem-empty closed e r.relation in_closed,
    )
