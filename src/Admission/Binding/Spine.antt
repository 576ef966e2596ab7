-- ===== src/Admission/Binding/Spine.antt =====
-- The required spine: a work unit that passes the check requires each of its relations.
use goalrail.Base.{
  Bool, true, none, some, ◌≡◌, arith, Elem, all-eq-true, find_last, find_last-eq-some, Option-cases,
  eq_iff, &&-eq-true, ◌==◌, inl, inr,
}
use goalrail.Domain.{LineageRequirement}
use goalrail.Admission.Types.{required_spine}
use goalrail.Admission.Binding.{has_required_spine, List, length, nat_eq, false, all}

abbrev pub Requires : List LineageRequirement → LineageRequirement → Type 0
Requires requirements want =
    (r : LineageRequirement) × Elem r requirements
    × (r.relation ≡ want.relation)
    × (r.cardinality ≡ want.cardinality)

-- The test of the second loop of `hasRequiredSpine`.
spine_test : List LineageRequirement → LineageRequirement → Bool
spine_test requirements want = elim (find_last (λ r. r.relation == want.relation) requirements) [
  | none ↦ false
  | some actual ↦ actual.cardinality == want.cardinality
]

spine_test-Requires :
    (requirements : List LineageRequirement) (want : LineageRequirement)
    → spine_test requirements want ≡ true
    → Requires requirements want
unfolding spine_test
spine_test-Requires requirements want h =
    let test = λ (r : LineageRequirement). r.relation == want.relation in
    elim (Option-cases (find_last test requirements)) [
      | inl e ↦ absurd (ground arith)
      | inr (r, e) ↦
          let (r_in, same) = find_last-eq-some test requirements r e in
          (
            r,
            r_in,
            (eq_iff r.relation want.relation).0 same,
            ground (arith, eq_iff r.cardinality want.cardinality),
          )
    ]

-- Requirements that pass the check number as many as the spine, and for each relation of the spine
-- one of them requires it with the spine's cardinality.
pub has_required_spine-Requires :
    (requirements : List LineageRequirement)
    → has_required_spine requirements ≡ true
    → (length requirements ≡ length required_spine)
      × ((want : LineageRequirement) → Elem want required_spine → Requires requirements want)
unfolding has_required_spine spine_test
has_required_spine-Requires requirements h =
    let parts =
      &&-eq-true (nat_eq (length requirements) (length required_spine))
        (all (spine_test requirements) required_spine) h in
    (
      ground (arith, parts.0),
      λ want m.
          spine_test-Requires requirements want
            (all-eq-true (spine_test requirements) required_spine parts.1 want m),
    )
