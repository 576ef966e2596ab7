-- ===== src/Admission/Completeness/Lifecycle.antt =====
-- The lifecycle state that `evaluateCompleteness` reports, against the required relations.
use goalrail.Base.{
  any-eq-true, String, ◌≢◌, Bool, true, false, ◌≡◌, refl, arith, Elem, Elem-map, Elem-sort_by,
  is_empty, text_lt, Elem-empty, Bool-cases, inl, inr, any_intro, eq_iff, not, ◌&&◌, ◌==◌,
}
use goalrail.Domain.{
  LineageRequirement, work_unit_closed, work_unit_admission_ready, work_unit_open, lineage_closure,
}
use goalrail.Admission.Types.{WorkUnitGraph, RelationConflict}
use goalrail.Admission.Effective.{EffectiveView}
use goalrail.Admission.Completeness.{
  EventScan, classify, missing_relations, not_closure, ambiguous_relations, blocks_closed,
  blocks_admission, required_relation, LineageRelation, List, any,
}
use goalrail.Admission.Completeness.Required.{is_effective, missing_relations_complete}

module _ (view : EffectiveView) (graph : WorkUnitGraph) (scan : EventScan) where
  -- The relation is effective and not in conflict, and no exception has expired.
  abbrev pub IsSettled : LineageRelation → Type 0
  IsSettled r =
      (is_effective view graph scan.present r ≡ true)
      × (is_empty (classify view graph scan).expired_exceptions ≡ true)
      × (any (λ c. c.relation == r) graph.conflicts ≡ false)

  missing-empty :
      (counts : LineageRequirement → Bool)
      → is_empty (missing_relations view graph scan.present counts) ≡ true
      → (r : LineageRequirement) → Elem r graph.unit.required_relations
      → counts r ≡ true
      → is_effective view graph scan.present r.relation ≡ true
  missing-empty counts h r m c =
      elim (Bool-cases (is_effective view graph scan.present r.relation)) [
        | inl yes_ ↦ yes_
        | inr no_ ↦ absurd (
            Elem-empty _ h r.relation
              (missing_relations_complete view graph scan.present counts r m c no_))
      ]

  conflict-listed :
      (c : RelationConflict) → Elem c graph.conflicts → Elem c.relation (ambiguous_relations graph)
  unfolding ambiguous_relations
  conflict-listed c m =
      (Elem-sort_by text_lt _ c.relation).1 (Elem-map (λ x. x.relation) graph.conflicts c m)

  required :
      (r : LineageRequirement)
      → Elem r graph.unit.required_relations
      → required_relation graph.unit.required_relations r.relation ≡ true
  unfolding required_relation
  required r m =
      any_intro (λ q. q.relation == r.relation) graph.unit.required_relations r m
        ((eq_iff r.relation r.relation).1 refl)

  blocked_closed :
      (r : LineageRequirement) (c : RelationConflict)
      → Elem r graph.unit.required_relations
      → Elem c graph.conflicts
      → c.relation ≡ r.relation
      → blocks_closed graph.unit.required_relations (ambiguous_relations graph) ≡ true
  unfolding blocks_closed
  blocked_closed r c m m' e =
      any_intro (required_relation graph.unit.required_relations) (ambiguous_relations graph)
        c.relation (conflict-listed c m') (rw e (required r m))

  blocked_admission :
      (r : LineageRequirement) (c : RelationConflict)
      → Elem r graph.unit.required_relations
      → not_closure r ≡ true
      → Elem c graph.conflicts
      → c.relation ≡ r.relation
      → blocks_admission graph.unit.required_relations (ambiguous_relations graph) ≡ true
  unfolding blocks_admission
  blocked_admission r c m k m' e =
      any_intro
        (λ x. required_relation graph.unit.required_relations x && not (x == lineage_closure))
        (ambiguous_relations graph) c.relation (conflict-listed c m')
        (rw e (ground (arith, required r m)))

unconflicted :
    (conflicts : List RelationConflict) (relation : LineageRelation) (blocked : Bool)
    → ((c : RelationConflict) → Elem c conflicts → c.relation ≡ relation → blocked ≡ true)
    → blocked ≡ false
    → any (λ c. c.relation == relation) conflicts ≡ false
unconflicted conflicts relation blocked h clear =
    elim (Bool-cases (any (λ c. c.relation == relation) conflicts)) [
      | inr no_ ↦ no_
      | inl yes_ ↦
          let (c, m, same) = any-eq-true (λ c. c.relation == relation) conflicts yes_ in
          absurd (ground (arith, h c m ((eq_iff c.relation relation).0 same)))
    ]

apart : (a b : String) → (a == b) ≡ false → a ≢ b
apart a b h e = ground (arith, eq_iff a b)

module _ (view : EffectiveView) (graph : WorkUnitGraph) (scan : EventScan) where
  classify-closed :
      (classify view graph scan).lifecycle ≡ work_unit_closed
      → (is_empty (missing_relations view graph scan.present (λ _. true)) ≡ true)
        × (is_empty (classify view graph scan).expired_exceptions ≡ true)
        × (blocks_closed graph.unit.required_relations (ambiguous_relations graph) ≡ false)
  unfolding classify
  classify-closed h = ground (
    arith,
    apart work_unit_admission_ready work_unit_closed refl,
    apart work_unit_open work_unit_closed refl,
  )

  classify-ready :
      (classify view graph scan).lifecycle ≡ work_unit_admission_ready
      → (is_empty (missing_relations view graph scan.present not_closure) ≡ true)
        × (is_empty (classify view graph scan).expired_exceptions ≡ true)
        × (blocks_admission graph.unit.required_relations (ambiguous_relations graph) ≡ false)
  unfolding classify
  classify-ready h = ground (
    arith,
    apart work_unit_closed work_unit_admission_ready refl,
    apart work_unit_open work_unit_admission_ready refl,
  )

-- Where a work unit is reported closed, every required relation is effective and not in conflict,
-- and no exception has expired.
pub classify_closed-IsSettled :
    (view : EffectiveView) (graph : WorkUnitGraph) (scan : EventScan) (r : LineageRequirement)
    → (classify view graph scan).lifecycle ≡ work_unit_closed
    → Elem r graph.unit.required_relations
    → IsSettled view graph scan r.relation
classify_closed-IsSettled view graph scan r h m =
    let (nothing, unexpired, clear) = classify-closed view graph scan h in
    (
      missing-empty view graph scan (λ _. true) nothing r m refl,
      unexpired,
      unconflicted graph.conflicts r.relation _
          (λ c m' e. blocked_closed view graph scan r c m m' e) clear,
    )

-- Where a work unit is reported admission-ready, every required relation other than closure is
-- effective and not in conflict, and no exception has expired.
pub classify_ready-IsSettled :
    (view : EffectiveView) (graph : WorkUnitGraph) (scan : EventScan) (r : LineageRequirement)
    → (classify view graph scan).lifecycle ≡ work_unit_admission_ready
    → Elem r graph.unit.required_relations
    → not_closure r ≡ true
    → IsSettled view graph scan r.relation
classify_ready-IsSettled view graph scan r h m k =
    let (nothing, unexpired, clear) = classify-ready view graph scan h in
    (
      missing-empty view graph scan not_closure nothing r m k,
      unexpired,
      unconflicted graph.conflicts r.relation _
          (λ c m' e. blocked_admission view graph scan r c m k m' e) clear,
    )
