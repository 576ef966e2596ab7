-- ===== src/Lineage/Graph/Conflicts.antt =====
-- The conflicts of a graph.
use goalrail.Base.{
  String, true, false, List, [], ◌∷◌, ◌≡◌, ◌≢◌, ◌↔◌, inl, inr, Elem, Elem-add_key, Elem-keep,
  Elem-sort_by, add_key, length, ltb, arith, eq_iff, refl, map, some, none, keep, Elem-map, ap, ◌∙◌,
  sym, ◌==◌, text_lt, contains, contains_iff, Bool-cases, Option-cases, subst, Option,
}
use goalrail.Domain.{LineageRelation, LineageEvent, WorkUnit, relation_single, Sha256Digest}
use goalrail.Admission.Types.{WorkUnitGraph, RelationConflict}
use goalrail.Lineage.Graph.{
  Claim, claims_of, keys_of, claimed_relations, is_conflicting, conflict_of, conflicts_of,
  reference_set_key, graph, ReplicaFile, mark_events,
}

-- The event claims the relation with the key.
abbrev pub Claims : LineageEvent → LineageRelation → Type 0
Claims e r = (e.cardinality ≡ relation_single) × (e.relation ≡ r)

Elem-keys_of :
    (r : LineageRelation) (cs : List Claim) (k : String)
    → Elem k (keys_of r cs) ↔ ((c : Claim) × Elem c cs × (c.relation ≡ r) × (c.key ≡ k))
unfolding keys_of
Elem-keys_of r [] k = (λ m. absurd m, λ (c, m, _, _). m)
Elem-keys_of r (c ∷ cs) k = elim (Bool-cases (c.relation == r)) [
  | inl same ↦ (
    λ m. elim ((Elem-add_key c.key (keys_of r cs) k).0 (rw (same, keys_of) at m)) [
      | inl e ↦ (c, inl refl, (eq_iff c.relation r).0 same, sym e)
      | inr n ↦ let (d, l, q, f) = (Elem-keys_of r cs k).0 n in (d, inr l, q, f)
    ],
    λ (d, l, q, f).
        rw (same, keys_of)
          ((Elem-add_key c.key (keys_of r cs) k).1 (elim l [
            | inl this ↦ inl (sym f ∙ ap (λ x. x.key) this)
            | inr later ↦ inr ((Elem-keys_of r cs k).1 (d, later, q, f))
          ])),
  )
  | inr other ↦ (
    λ m. let (d, l, q, f) = (Elem-keys_of r cs k).0 (rw (other, keys_of) at m) in (d, inr l, q, f),
    λ (d, l, q, f).
        rw (other, keys_of)
          (elim l [
            | inl this ↦
                let named : (c.relation == r) ≡ true =
                  (eq_iff c.relation r).1 (ap (λ x. x.relation) (sym this) ∙ q) in
                absurd (ground arith)
            | inr later ↦ (Elem-keys_of r cs k).1 (d, later, q, f)
          ]),
  )
]

-- Each key once.
abbrev Unrepeated : List String → Type 0
Unrepeated [] = Unit {0}
Unrepeated (x ∷ xs) = (contains xs x ≡ false) × Unrepeated xs

add_key-Unrepeated : (k : String) (ks : List String) → Unrepeated ks → Unrepeated (add_key k ks)
unfolding add_key
add_key-Unrepeated k ks h = elim (Bool-cases (contains ks k)) [
  | inl seen ↦ rw (seen, add_key) h
  | inr fresh ↦ rw (fresh, add_key) (fresh, h)
]

keys_of-Unrepeated : (r : LineageRelation) (cs : List Claim) → Unrepeated (keys_of r cs)
unfolding keys_of
keys_of-Unrepeated r [] = tt
keys_of-Unrepeated r (c ∷ cs) = elim (Bool-cases (c.relation == r)) [
  | inl same ↦
      rw (same, keys_of) (add_key-Unrepeated c.key (keys_of r cs) (keys_of-Unrepeated r cs))
  | inr other ↦ rw (other, keys_of) (keys_of-Unrepeated r cs)
]

-- Two keys that differ, where a list of keys, each once, has two or more.
two_keys :
    (xs : List String)
    → Unrepeated xs
    → (ltb (length xs) 2 ≡ false) ↔ ((a : String) × (b : String) × Elem a xs × Elem b xs × (a ≢ b))
two_keys [] h = (λ e. cc, λ (a, b, m, _, _). absurd m)
two_keys (x ∷ []) h = (
  λ e. cc,
  λ (a, b, m, n, apart). elim m [
    | inl p ↦ elim n [ inl q ↦ absurd (apart (p ∙ sym q)) | inr z ↦ absurd z ]
    | inr z ↦ absurd z
  ],
)
two_keys (x ∷ y ∷ rest) (fresh, _) = (
  λ e. (
    x,
    y,
    inl refl,
    inr (inl refl),
    λ same. absurd (ground (arith, (contains_iff (y ∷ rest) x).1 (inl same))),
  ),
  λ _. ground arith,
)

-- The claims are those of the single events.
Elem-claims_of :
    (es : List LineageEvent) (r : LineageRelation) (k : String)
    → ((c : Claim) × Elem c (claims_of es) × (c.relation ≡ r) × (c.key ≡ k))
      ↔ ((e : LineageEvent) × Elem e es × Claims e r × (reference_set_key e.targets ≡ k))
unfolding claims_of
Elem-claims_of [] r k = (λ (c, m, _, _). absurd m, λ (e, m, _, _). absurd m)
Elem-claims_of (x ∷ es) r k = elim (Bool-cases (x.cardinality == relation_single)) [
  | inl single ↦
      let is_single = (eq_iff x.cardinality relation_single).0 single in
      (
        λ (c, m, q, f). elim (rw (single, claims_of) at m) [
          | inl this ↦ (
            x,
            inl refl,
            (is_single, ap (λ y. y.relation) (sym this) ∙ q),
            ap (λ y. y.key) (sym this) ∙ f,
          )
          | inr later ↦
              let (e, n, p, g) = (Elem-claims_of es r k).0 (c, later, q, f) in (e, inr n, p, g)
        ],
        λ (e, m, (s, q), f). elim m [
          | inl this ↦ (
            record {
              relation = x.relation;
              key = reference_set_key x.targets;
              digest = x.semantic_digest;
            },
            rw (single, claims_of) (inl refl),
            ap (λ y. y.relation) (sym this) ∙ q,
            ap (λ y. reference_set_key y.targets) (sym this) ∙ f,
          )
          | inr later ↦
              let (c, n, p, g) = (Elem-claims_of es r k).1 (e, later, (s, q), f) in
              (c, rw (single, claims_of) (inr n), p, g)
        ],
      )
  | inr set ↦ (
    λ (c, m, q, f).
        let (e, n, p, g) = (Elem-claims_of es r k).0 (c, (rw (set, claims_of) at m), q, f) in
        (e, inr n, p, g),
    λ (e, m, (s, q), f). elim m [
      | inl this ↦
          let named : (x.cardinality == relation_single) ≡ true =
            (eq_iff x.cardinality relation_single).1 (ap (λ y. y.cardinality) (sym this) ∙ s) in
          absurd (ground arith)
      | inr later ↦
          let (c, n, p, g) = (Elem-claims_of es r k).1 (e, later, (s, q), f) in
          (c, rw (set, claims_of) n, p, g)
    ],
  )
]

Elem-claimed_relations :
    (cs : List Claim) (r : LineageRelation) (c : Claim)
    → Elem c cs
    → c.relation ≡ r
    → Elem r (claimed_relations cs)
unfolding claimed_relations
Elem-claimed_relations [] r c m e = absurd m
Elem-claimed_relations (x ∷ cs) r c (inl this) e =
    (Elem-add_key x.relation (claimed_relations cs) r).1 (inl (sym e ∙ ap (λ y. y.relation) this))
Elem-claimed_relations (x ∷ cs) r c (inr m) e =
    (Elem-add_key x.relation (claimed_relations cs) r).1 (inr (Elem-claimed_relations cs r c m e))

Elem-unmap :
    {A B : Type 0} (f : A → B) (xs : List A) (y : B)
    → Elem y (map f xs)
    → (x : A) × Elem x xs × (y ≡ f x)
Elem-unmap f [] y m = absurd m
Elem-unmap f (x ∷ xs) y (inl e) = (x, inl refl, e)
Elem-unmap f (x ∷ xs) y (inr m) = let (z, n, e) = Elem-unmap f xs y m in (z, inr n, e)

-- A relation is in conflict exactly where two of its claims have different keys.
is_conflicting_iff :
    (cs : List Claim) (r : LineageRelation)
    → (is_conflicting cs r ≡ true)
      ↔ ((a : String) × (b : String) × Elem a (keys_of r cs) × Elem b (keys_of r cs) × (a ≢ b))
unfolding is_conflicting
is_conflicting_iff cs r =
    let two = two_keys (keys_of r cs) (keys_of-Unrepeated r cs) in
    (λ h. two.0 (ground arith), λ h. ground (arith, two.1 h))

conflicts_of_iff :
    (cs : List Claim) (r : LineageRelation)
    → ((c : RelationConflict) × Elem c (conflicts_of cs) × (c.relation ≡ r))
      ↔ ((is_conflicting cs r ≡ true) × Elem r (claimed_relations cs))
unfolding conflicts_of conflict_of
conflicts_of_iff cs r =
    let kept : List LineageRelation = keep (is_conflicting cs) (claimed_relations cs) in
    let sorted = Elem-sort_by (λ a b. text_lt a.relation b.relation) (map (conflict_of cs) kept) in
    (
      λ (c, m, e).
          let (q, n, same) = Elem-unmap (conflict_of cs) kept c ((sorted c).0 m) in
          let (there, test) = (Elem-keep (is_conflicting cs) (claimed_relations cs) q).0 n in
          let this : q ≡ r = ap (λ x. x.relation) (sym same) ∙ e in
          (
            subst (λ x. is_conflicting cs x ≡ true) this test,
            subst (λ x. Elem x (claimed_relations cs)) this there,
          ),
      λ (test, there). (
        conflict_of cs r,
        (sorted (conflict_of cs r)).1 (
            Elem-map (conflict_of cs) kept r
              ((Elem-keep (is_conflicting cs) (claimed_relations cs) r).1 (there, test))),
        refl,
      ),
    )

graph-conflicts :
    (read_file : Sha256Digest → ReplicaFile) (digest_of : String → Sha256Digest) (unit : WorkUnit)
    (events : List LineageEvent) (g : WorkUnitGraph)
    → graph read_file digest_of unit events ≡ some g
    → conflicts_of (claims_of events) ≡ g.conflicts
unfolding graph
graph-conflicts read_file digest_of unit events g h =
    elim (Option-cases (
      mark_events read_file digest_of events
        (record { unavailable = []; available = []; replicas = [] }))) [
          | inl failed_ ↦ absurd (ground arith)
          | inr (marks, e) ↦ ap conflicts_in (rw (e, graph) at h)
        ]
  where
    conflicts_in : Option WorkUnitGraph → List RelationConflict
    conflicts_in none = []
    conflicts_in (some x) = x.conflicts

-- A graph reports a conflict in a relation exactly where two single events of the relation have
-- target sets with different keys.
pub graph-conflicts_iff :
    (read_file : Sha256Digest → ReplicaFile) (digest_of : String → Sha256Digest) (unit : WorkUnit)
    (events : List LineageEvent) (g : WorkUnitGraph) (r : LineageRelation)
    → graph read_file digest_of unit events ≡ some g
    → ((c : RelationConflict) × Elem c g.conflicts × (c.relation ≡ r)) ↔ (
        (a : LineageEvent) × (b : LineageEvent) × Elem a events
        × Elem b events
        × Claims a r
        × Claims b r
        × (reference_set_key a.targets ≢ reference_set_key b.targets))
graph-conflicts_iff read_file digest_of unit events g r h =
    let cs : List Claim = claims_of events in
    let same = graph-conflicts read_file digest_of unit events g h in
    let exact = conflicts_of_iff cs r in
    (
      λ (c, m, e).
          let (test, _) = exact.0 (c, subst (λ x. Elem c x) (sym same) m, e) in
          let (k, l, in_k, in_l, apart) = (is_conflicting_iff cs r).0 test in
          let (a, m_a, claims_a, f) =
            (Elem-claims_of events r k).0 ((Elem-keys_of r cs k).0 in_k) in
          let (b, m_b, claims_b, g_) =
            (Elem-claims_of events r l).0 ((Elem-keys_of r cs l).0 in_l) in
          (a, b, m_a, m_b, claims_a, claims_b, λ q. apart (sym f ∙ q ∙ g_)),
      λ (a, b, m_a, m_b, claims_a, claims_b, apart).
          let (c, n, p, f) =
            (Elem-claims_of events r (reference_set_key a.targets)).1 (a, m_a, claims_a, refl) in
          let (d, o, q, e) =
            (Elem-claims_of events r (reference_set_key b.targets)).1 (b, m_b, claims_b, refl) in
          let test : is_conflicting cs r ≡ true = (is_conflicting_iff cs r).1 (
            reference_set_key a.targets,
            reference_set_key b.targets,
            (Elem-keys_of r cs (reference_set_key a.targets)).1 (c, n, p, f),
            (Elem-keys_of r cs (reference_set_key b.targets)).1 (d, o, q, e),
            apart,
          ) in
          let (x, m, z) = exact.1 (test, Elem-claimed_relations cs r c n p) in
          (x, subst (λ y. Elem x y) same m, z),
    )
