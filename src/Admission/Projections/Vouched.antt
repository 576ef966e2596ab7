-- ===== src/Admission/Projections/Vouched.antt =====
-- A relation that `evaluateProjections` reports rests on one projection that passed every check.
use goalrail.Base.{
  Bool, true, List, [], ◌∷◌, none, ◌≡◌, refl, ◌⊎◌, inl, inr, arith, Elem, sort_by, Elem-sort_by,
  Option-cases, add_key, if◌then◌else◌, Elem-add_key,
}
use goalrail.Domain.{Codec, LineageRelation}
use goalrail.Admission.Types.{SemanticProjection, WorkUnitGraph, pass}
use goalrail.Admission.Projections.{
  accept_projections, evaluate_projections, projection_fault, projection_satisfies,
  projection_binds_committed_target, well_formed_projection, projection_lt,
}

module _ (codec : Codec) (graph : WorkUnitGraph) where
  pub record IsProjected (r : LineageRelation) (p : SemanticProjection) : Type 0 where
    pub relates : p.relation ≡ r
    pub well_formed : well_formed_projection codec p ≡ true
    pub bound : projection_binds_committed_target graph p ≡ true
    pub satisfies : projection_satisfies codec p ≡ true

  abbrev Projected : LineageRelation → List SemanticProjection → Type 0
  Projected r ps = (p : SemanticProjection) × Elem p ps × IsProjected r p

  projection_fault-eq-none :
      (claimed : List SemanticProjection) (p : SemanticProjection)
      → projection_fault codec graph claimed p ≡ none
      → projection_satisfies codec p ≡ true
      → IsProjected p.relation p
  unfolding projection_fault
  projection_fault-eq-none claimed p h s = ground arith

  added_cases :
      (b : Bool) (x r : LineageRelation) (s : List LineageRelation)
      → Elem r (if b then add_key x s else s)
      → Elem r s ⊎ (b ≡ true) × (r ≡ x)
  added_cases b x r s m = ground (arith, Elem-add_key x s r)

  pub accept_projections-Projected :
      (ps : List SemanticProjection) (satisfied : List LineageRelation)
      (claimed : List SemanticProjection) (result : List LineageRelation) (r : LineageRelation)
      → accept_projections codec graph ps satisfied claimed ≡ pass result
      → Elem r result
      → Elem r satisfied ⊎ Projected r ps
  unfolding accept_projections
  accept_projections-Projected [] satisfied claimed result r h m = ground arith
  accept_projections-Projected (p ∷ ps) satisfied claimed result r h m =
      elim (Option-cases (projection_fault codec graph claimed p)) [
        | inr (f, e) ↦ cc (rw (e, accept_projections) at h)
        | inl e ↦
            let b = projection_satisfies codec p in
            let satisfied' = if b then add_key p.relation satisfied else satisfied in
            elim (accept_projections-Projected ps satisfied' (p ∷ claimed) result r
              (rw (e, accept_projections) at h) m) [
                | inr (d, d_in, ok) ↦ inr (d, inr d_in, ok)
                | inl old ↦ elim (added_cases b p.relation r satisfied old) [
                  | inl before ↦ inl before
                  | inr (s, same) ↦
                      inr (p, inl refl, rw same (projection_fault-eq-none claimed p e s))
                ]
              ]
      ]

-- Every relation in the result of `evaluateProjections` is that of a projection of the input, which
-- is well formed, addresses a committed target, and is in its contract's accepting state.
pub evaluate_projections-Projected :
    (codec : Codec) (graph : WorkUnitGraph) (ps : List SemanticProjection)
    (result : List LineageRelation) (r : LineageRelation)
    → evaluate_projections codec graph ps ≡ pass result
    → Elem r result
    → Projected codec graph r ps
unfolding evaluate_projections
evaluate_projections-Projected codec graph ps result r h m =
    elim (accept_projections-Projected codec graph (sort_by projection_lt ps) [] [] result r h m) [
      | inl before ↦ absurd before
      | inr (p, p_in, ok) ↦ (p, (Elem-sort_by projection_lt ps p).0 p_in, ok)
    ]
