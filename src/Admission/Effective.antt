-- ===== src/Admission/Effective.antt =====
-- `EffectiveView` and `buildEffectiveView` of internal/admission/effective.go: the per-call view of
-- semantic projections and authenticated provider candidates.
use goalrail.Base.{Bool, true, false, List, [], ◌∷◌, ◌&&◌, not, contains, keep, if◌then◌else◌}
use goalrail.Domain.{
  Codec, ProjectPolicy, lineage_confirmed_intent, lineage_terminal_receipt, lineage_owner_decision,
  LineageRelation,
}
use goalrail.Admission.Types.{Input, Checked, pass, refuse}
use goalrail.Admission.Projections.{evaluate_projections}
use goalrail.Admission.Candidates.{evaluate_candidates}

-- The relations whose map entry is true.
pub record EffectiveView : Type 0 where
  pub satisfied : List LineageRelation
  pub suppressed : List LineageRelation

unfoldable pub view_satisfied : EffectiveView → LineageRelation → Bool
view_satisfied view relation = contains view.satisfied relation

unfoldable pub view_present : EffectiveView → LineageRelation → Bool → Bool → Bool
view_present view relation committed unavailable =
    if contains view.satisfied relation
    then true
    else (if contains view.suppressed relation then false else committed && not unavailable)

abbrev pub semantic_relations : List LineageRelation
semantic_relations = lineage_confirmed_intent ∷ lineage_terminal_receipt ∷ []

module _ (codec : Codec) where
  unfoldable pub build_effective_view : Input → ProjectPolicy → Checked EffectiveView
  build_effective_view input policy =
      elim (evaluate_projections codec input.frozen.graph input.frozen.projections) [
        | refuse fault ↦ refuse fault
        | pass projected ↦
            elim (evaluate_candidates codec input.candidates input.frozen policy input.packet) [
              | refuse fault ↦ refuse fault
              | pass satisfied ↦ pass (record {
                satisfied = satisfied;
                suppressed =
                    lineage_owner_decision
                    ∷ keep (λ r. not (contains projected r)) semantic_relations;
              })
            ]
      ]
