-- ===== src/Lineage/Graph/Lookup.antt =====
-- The lookup of a work unit by any of its durable identifiers.
use goalrail.Base.{
  String, true, List, [], ◌∷◌, ◌≡◌, ◌↔◌, ◌⊎◌, inl, inr, Elem, arith, refl, map, some, Option,
  Option-cases, Bool-cases, subst,
}
use goalrail.Admission.Types.{WorkUnitGraph}
use goalrail.Lineage.Graph.{
  graph_matches, matching, resolve, Resolution, resolution_status, resolution_missing,
}

module _ (load : String → Option WorkUnitGraph) (query : String) where
  -- The work unit has a graph that the query matches.
  abbrev pub IsMatch : String → Type 0
  IsMatch id = (g : WorkUnitGraph) × (load id ≡ some g) × (graph_matches g query ≡ true)

  matching_iff :
      (ids : List String) (found : List (String × WorkUnitGraph)) (id : String)
      → matching load query ids ≡ some found
      → Elem id (map (λ p. p.0) found) ↔ (Elem id ids × IsMatch id)
  unfolding matching
  matching_iff [] found id h =
      let whole : [] ≡ found = ground arith in
      subst (λ y. Elem id (map (λ p. p.0) y) ↔ (⊥ × IsMatch id)) whole (λ m. absurd m, λ (z, _). z)
  matching_iff (x ∷ ids) found id h = elim (Option-cases (load x)) [
    | inl failed_ ↦ absurd (ground arith)
    | inr (g, e) ↦ elim (Option-cases (matching load query ids)) [
      | inl failed_ ↦ absurd (ground arith)
      | inr (rest, f) ↦
          let later = matching_iff ids rest id f in
          elim (Bool-cases (graph_matches g query)) [
            | inl yes_ ↦
                let whole : (x, g) ∷ rest ≡ found = ground arith in
                subst (λ y. Elem id (map (λ p. p.0) y) ↔ (((id ≡ x) ⊎ Elem id ids) × IsMatch id))
                  whole
                  (
                    λ m. elim m [
                      | inl same ↦ (inl same, (g, rw same e, yes_))
                      | inr n ↦ let (a, b) = later.0 n in (inr a, b)
                    ],
                    λ (m, w). elim m [ inl same ↦ inl same | inr n ↦ inr (later.1 (n, w)) ],
                  )
            | inr no_ ↦
                let whole : rest ≡ found = ground arith in
                subst (λ y. Elem id (map (λ p. p.0) y) ↔ (((id ≡ x) ⊎ Elem id ids) × IsMatch id))
                  whole
                  (
                    λ n. let (a, b) = later.0 n in (inr a, b),
                    λ (m, w). elim m [
                      | inl same ↦
                          let (k, l, t) = w in
                          let here_ : load x ≡ some k = subst (λ y. load y ≡ some k) same l in
                          absurd (ground arith)
                      | inr n ↦ later.1 (n, w)
                    ],
                  )
          ]
    ]
  ]

  missing_iff :
      (ids : List String) (found : List (String × WorkUnitGraph))
      → ((id : String) → Elem id (map (λ p. p.0) found) ↔ (Elem id ids × IsMatch id))
      → (resolution_status found ≡ resolution_missing)
        ↔ ((id : String) → Elem id ids → IsMatch id → ⊥)
  missing_iff ids [] exact = (λ _ id m w. (exact id).1 (m, w), λ _. refl)
  missing_iff ids (p ∷ []) exact = (
    λ e. absurd (ground arith),
    λ free. let (m, w) = (exact p.0).0 (inl refl) in absurd (free p.0 m w),
  )
  missing_iff ids (p ∷ q ∷ rest) exact = (
    λ e. absurd (ground arith),
    λ free. let (m, w) = (exact p.0).0 (inl refl) in absurd (free p.0 m w),
  )

  -- A resolution lists exactly the work units whose graph the query matches, and it is missing
  -- exactly where there is none.
  pub resolve_iff :
      (ids : List String) (r : Resolution)
      → resolve load ids query ≡ some r
      → ((id : String) → Elem id r.work_unit_ids ↔ (Elem id ids × IsMatch id))
        × ((r.status ≡ resolution_missing) ↔ ((id : String) → Elem id ids → IsMatch id → ⊥))
  unfolding resolve
  resolve_iff ids r h = elim (Option-cases (matching load query ids)) [
    | inl failed_ ↦ absurd (ground arith)
    | inr (found, e) ↦
        let listed : map (λ p. p.0) found ≡ r.work_unit_ids = ground arith in
        let status : resolution_status found ≡ r.status = ground arith in
        let exact : (id : String) → Elem id (map (λ p. p.0) found) ↔ (Elem id ids × IsMatch id) =
          λ id. matching_iff ids found id e in
        (
          λ id. subst (λ y. Elem id y ↔ (Elem id ids × IsMatch id)) listed (exact id),
          subst (λ y. (y ≡ resolution_missing) ↔ ((id : String) → Elem id ids → IsMatch id → ⊥))
              status (missing_iff ids found exact),
        )
  ]
