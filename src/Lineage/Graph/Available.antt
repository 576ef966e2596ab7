-- ===== src/Lineage/Graph/Available.antt =====
-- The relations that a graph reports as unavailable.
use goalrail.Base.{
  String, true, false, List, [], ◌∷◌, ◌≡◌, ◌↔◌, ◌⊎◌, inl, inr, Elem, Elem-add_key, Elem-keep,
  Elem-sort_by, add_key, not, arith, refl, some, none, keep, ap, text_lt, contains, contains_iff,
  Bool-cases, Option-cases, Any, sort_texts, subst, Option,
}
use goalrail.Domain.{
  LineageRelation, LineageEvent, WorkUnit, Sha256Digest, ContentAddressedEvidenceReference,
}
use goalrail.Admission.Types.{WorkUnitGraph}
use goalrail.Lineage.Graph.{
  graph, ReplicaFile, replica_absent, replica_bytes, replica_unreadable, read_replica,
  is_replica_reference, Marks, mark_target, mark_targets, mark_events, is_provider_unavailable,
}

module _ (read_file : Sha256Digest → ReplicaFile) (digest_of : String → Sha256Digest) where
  -- The bytes of the target's replica are there, or it names no replica and its provider answers.
  abbrev pub IsAvailable : ContentAddressedEvidenceReference → Type 0
  IsAvailable t =
      ((raw : String) × (read_replica read_file digest_of t ≡ replica_bytes raw))
      ⊎ ((is_replica_reference t ≡ false) × (is_provider_unavailable read_file digest_of t ≡ false))

  -- The target is a replica whose file is absent, or one that the provider could not give.
  abbrev pub IsUnavailable : ContentAddressedEvidenceReference → Type 0
  IsUnavailable t =
      (is_provider_unavailable read_file digest_of t ≡ true)
      ⊎ ((is_replica_reference t ≡ true) × (read_replica read_file digest_of t ≡ replica_absent))

  mark_target-available :
      (r q : LineageRelation) (t : ContentAddressedEvidenceReference) (m n : Marks)
      → mark_target read_file digest_of r t m ≡ some n
      → (Elem q n.available ↔ (((q ≡ r) × IsAvailable t) ⊎ Elem q m.available))
        × (Elem q n.unavailable ↔ (((q ≡ r) × IsUnavailable t) ⊎ Elem q m.unavailable))
  unfolding mark_target
  mark_target-available r q t m n h = by_file (read_replica read_file digest_of t) refl
    where
      by_file :
          (f : ReplicaFile)
          → read_replica read_file digest_of t ≡ f
          → (Elem q n.available ↔ (((q ≡ r) × IsAvailable t) ⊎ Elem q m.available))
            × (Elem q n.unavailable ↔ (((q ≡ r) × IsUnavailable t) ⊎ Elem q m.unavailable))
      by_file replica_unreadable e = absurd (ground arith)
      by_file (replica_bytes raw) e =
          elim (Bool-cases (is_provider_unavailable read_file digest_of t)) [
            | inl gone ↦
                ground (arith, Elem-add_key r m.available q, Elem-add_key r m.unavailable q)
            | inr here_ ↦
                ground (arith, Elem-add_key r m.available q, Elem-add_key r m.unavailable q)
          ]
      by_file replica_absent e = elim (Bool-cases (is_replica_reference t)) [
        | inl replica ↦ elim (Bool-cases (is_provider_unavailable read_file digest_of t)) [
          | inl gone ↦
              ground
                (arith, Elem-add_key r (add_key r m.unavailable) q, Elem-add_key r m.unavailable q)
          | inr here_ ↦ ground (arith, Elem-add_key r m.unavailable q)
        ]
        | inr other ↦ ground (arith, Elem-add_key r m.available q, Elem-add_key r m.unavailable q)
      ]

  mark_targets-available :
      (r q : LineageRelation) (ts : List ContentAddressedEvidenceReference) (m n : Marks)
      → mark_targets read_file digest_of r ts m ≡ some n
      → (Elem q n.available ↔ (((q ≡ r) × Any IsAvailable ts) ⊎ Elem q m.available))
        × (Elem q n.unavailable ↔ (((q ≡ r) × Any IsUnavailable ts) ⊎ Elem q m.unavailable))
  unfolding mark_targets
  mark_targets-available r q [] m n h = ground arith
  mark_targets-available r q (t ∷ ts) m n h =
      elim (Option-cases (mark_target read_file digest_of r t m)) [
        | inl failed_ ↦ absurd (ground arith)
        | inr (k, e) ↦
            let (first, second) = mark_target-available r q t m k e in
            let (third, fourth) = mark_targets-available r q ts k n (ground arith) in
            (ground arith, ground arith)
      ]

  -- Some event of the relation has a target with the property.
  abbrev pub SomeTarget :
      (ContentAddressedEvidenceReference → Type 0) → LineageRelation → List LineageEvent → Type 0
  SomeTarget P q es = Any (λ e. (q ≡ e.relation) × Any P e.targets) es

  mark_events-available :
      (q : LineageRelation) (es : List LineageEvent) (m n : Marks)
      → mark_events read_file digest_of es m ≡ some n
      → (Elem q n.available ↔ (SomeTarget IsAvailable q es ⊎ Elem q m.available))
        × (Elem q n.unavailable ↔ (SomeTarget IsUnavailable q es ⊎ Elem q m.unavailable))
  unfolding mark_events
  mark_events-available q [] m n h = ground arith
  mark_events-available q (e ∷ es) m n h =
      elim (Option-cases (mark_targets read_file digest_of e.relation e.targets m)) [
        | inl failed_ ↦ absurd (ground arith)
        | inr (k, f) ↦
            let (first, second) = mark_targets-available e.relation q e.targets m k f in
            let (third, fourth) = mark_events-available q es k n (ground arith) in
            (ground arith, ground arith)
      ]

  graph-unavailable :
      (unit : WorkUnit) (events : List LineageEvent) (g : WorkUnitGraph) (marks : Marks)
      → mark_events read_file digest_of events
          (record { unavailable = []; available = []; replicas = [] })
        ≡ some marks
      → graph read_file digest_of unit events ≡ some g
      → sort_texts (keep (λ r. not (contains marks.available r)) marks.unavailable) ≡ g.unavailable
  unfolding graph
  graph-unavailable unit events g marks e h = ap unavailable_in (rw (e, graph) at h)
    where
      unavailable_in : Option WorkUnitGraph → List LineageRelation
      unavailable_in none = []
      unavailable_in (some x) = x.unavailable

  graph_refused :
      (unit : WorkUnit) (events : List LineageEvent) (g : WorkUnitGraph)
      → mark_events read_file digest_of events
          (record { unavailable = []; available = []; replicas = [] })
        ≡ none
      → graph read_file digest_of unit events ≡ some g
      → ⊥
  unfolding graph
  graph_refused unit events g e h = ground arith

  -- A graph reports a relation as unavailable exactly where some event of the relation has a target
  -- that is unavailable, and none has a target that is available.
  pub graph-unavailable_iff :
      (unit : WorkUnit) (events : List LineageEvent) (g : WorkUnitGraph) (q : LineageRelation)
      → graph read_file digest_of unit events ≡ some g
      → Elem q g.unavailable
        ↔ (SomeTarget IsUnavailable q events × (SomeTarget IsAvailable q events → ⊥))
  graph-unavailable_iff unit events g q h =
      elim (Option-cases (
        mark_events read_file digest_of events
          (record { unavailable = []; available = []; replicas = [] }))) [
            | inl failed_ ↦ absurd (graph_refused unit events g failed_ h)
            | inr (marks, e) ↦
                let same = graph-unavailable unit events g marks e h in
                let (available, unavailable) = mark_events-available q events _ marks e in
                let sorted =
                  Elem-sort_by text_lt
                    (keep (λ r. not (contains marks.available r)) marks.unavailable) q in
                let kept = Elem-keep (λ r. not (contains marks.available r)) marks.unavailable q in
                let known = contains_iff marks.available q in
                subst
                  (λ xs.
                    Elem q xs
                    ↔ (SomeTarget IsUnavailable q events × (SomeTarget IsAvailable q events → ⊥)))
                  same
                  (
                    λ m.
                        let (there, fresh) = kept.0 (sorted.0 m) in
                        (
                          elim (unavailable.0 there) [ inl p ↦ p | inr z ↦ absurd z ],
                          λ p. absurd (ground (arith, known.1 (available.1 (inl p)))),
                        ),
                    λ (p, free). sorted.1 (
                        kept.1 (
                          unavailable.1 (inl p),
                          elim (Bool-cases (contains marks.available q)) [
                            | inl seen ↦
                                absurd
                                  (elim (available.0 (known.0 seen)) [ inl z ↦ free z | inr z ↦ z ])
                            | inr unseen ↦ ground arith
                          ],
                        )),
                  )
          ]
