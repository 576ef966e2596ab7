-- ===== src/Admission/Binding/Commits.antt =====
-- `graphCommitSetMatches`: the commits of every material change are linked by the lineage.
use goalrail.Base.{
  String, true, false, List, [], ◌∷◌, ◌++◌, ◌≡◌, refl, ◌⊎◌, inl, inr, arith, Elem, Elem-add_key,
  contains, contains_iff, eq_iff, is_empty, Bool-cases, not, ◌||◌, ◌==◌, add_key, if◌then◌else◌,
  concat,
}
use goalrail.Domain.{LineageEvent, ContentAddressedEvidenceReference, lineage_commit}
use goalrail.Admission.Types.{ChangedPath, WorkUnitGraph}
use goalrail.Admission.Binding.{
  CommitScan, link_targets, link_events, commit_revision, unlinked, unlinked_changes,
  graph_commit_set_matches,
}

-- An event of the relation `commit` with a target for the revision, which is one of the allowed.
pub record IsLinked (events : List LineageEvent) (allowed : List String) (revision : String)
    : Type 0 where
  pub event : LineageEvent
  pub recorded : Elem event events
  pub relates : event.relation ≡ lineage_commit
  pub target : ContentAddressedEvidenceReference
  pub targeted : Elem target event.targets
  pub is_commit : target.artifact_kind ≡ "commit"
  pub names : commit_revision target ≡ revision
  pub in_range : Elem revision allowed

module _ (allowed : List String) where
  abbrev Targets : List ContentAddressedEvidenceReference → String → Type 0
  Targets ts revision =
      (t : ContentAddressedEvidenceReference) × Elem t ts
      × (t.artifact_kind ≡ "commit")
      × (commit_revision t ≡ revision)
      × Elem revision allowed

  link_targets-linked :
      (ts : List ContentAddressedEvidenceReference) (s : CommitScan) (revision : String)
      → Elem revision (link_targets allowed ts s).linked
      → Elem revision s.linked ⊎ Targets ts revision
  unfolding link_targets
  link_targets-linked [] s revision m = inl m
  link_targets-linked (t ∷ ts) s revision m =
      let next : CommitScan =
        if not (t.artifact_kind == "commit")
        then record s { invalid = s.invalid ++ t.identity ∷ [] }
        else (if not (contains allowed (commit_revision t))
            then record s { invalid = s.invalid ++ concat "git:commit/" (commit_revision t) ∷ [] }
            else record s { seen = true; linked = add_key (commit_revision t) s.linked }) in
      elim (link_targets-linked ts next revision m) [
        | inr (u, u_in, kind, names, in_range) ↦ inr (u, inr u_in, kind, names, in_range)
        | inl old ↦
            let step : Elem revision s.linked
                ⊎ (t.artifact_kind ≡ "commit")
                  × (commit_revision t ≡ revision)
                  × Elem revision allowed =
              ground (
                arith,
                eq_iff t.artifact_kind "commit",
                contains_iff allowed (commit_revision t),
                Elem-add_key (commit_revision t) s.linked revision,
              ) in
            elim step [
              | inl before ↦ inl before
              | inr (kind, names, in_range) ↦ inr (t, inl refl, kind, names, in_range)
            ]
      ]

  link_events-linked :
      (es : List LineageEvent) (s : CommitScan) (revision : String)
      → Elem revision (link_events allowed es s).linked
      → Elem revision s.linked ⊎ IsLinked es allowed revision
  unfolding link_events
  link_events-linked [] s revision m = inl m
  link_events-linked (e ∷ es) s revision m =
      let next : CommitScan =
        if e.relation == lineage_commit then link_targets allowed e.targets s else s in
      elim (link_events-linked es next revision m) [
        | inr l ↦ inr (record {
          event = l.event;
          recorded = inr l.recorded;
          relates = l.relates;
          target = l.target;
          targeted = l.targeted;
          is_commit = l.is_commit;
          names = l.names;
          in_range = l.in_range;
        })
        | inl old ↦ elim (Bool-cases (e.relation == lineage_commit)) [
          | inr no_ ↦ inl (rw no_ at old)
          | inl yes_ ↦ elim (link_targets-linked e.targets s revision (rw yes_ at old)) [
            | inl before ↦ inl before
            | inr (t, t_in, is_commit, names, in_range) ↦ inr (record {
              event = e;
              recorded = inl refl;
              relates = (eq_iff e.relation lineage_commit).0 yes_;
              target = t;
              targeted = t_in;
              is_commit = is_commit;
              names = names;
              in_range = in_range;
            })
          ]
        ]
      ]

unlinked-empty :
    (linked commits : List String)
    → is_empty (unlinked linked commits) ≡ true
    → (c : String) → Elem c commits
    → Elem c linked
unfolding unlinked
unlinked-empty linked [] h c m = absurd m
unlinked-empty linked (x ∷ xs) h c (inl e) = rw e (ground (arith, contains_iff linked x))
unlinked-empty linked (x ∷ xs) h c (inr m) = unlinked-empty linked xs (ground arith) c m

append_empty :
    (xs ys : List String) → is_empty (xs ++ ys) ≡ true → (is_empty xs ≡ true) × (is_empty ys ≡ true)
append_empty [] ys h = (refl, h)
append_empty (x ∷ xs) ys h = cc

unlinked_changes-empty :
    (linked material : List String) (changes : List ChangedPath)
    → is_empty (unlinked_changes linked material changes) ≡ true
    → (change : ChangedPath) → Elem change changes
    → (contains material change.path || contains material change.previous_path) ≡ true
    → (c : String) → Elem c change.commits
    → Elem c linked
unfolding unlinked_changes
unlinked_changes-empty linked material [] h change m t c k = absurd m
unlinked_changes-empty linked material (x ∷ xs) h change (inr m) t c k =
    unlinked_changes-empty linked material xs
      (append_empty _ (unlinked_changes linked material xs) h).1 change m t c k
unlinked_changes-empty linked material (x ∷ xs) h change (inl e) t c k =
    let here = (append_empty _ (unlinked_changes linked material xs) h).0 in
    unlinked-empty linked x.commits (rw (rw e at t) at here) c (rw e at k)

-- Where the check passes, each commit of a change that names a material path, as its new path or
-- as the previous one, is a commit of the range that an event of the relation `commit` targets.
pub graph_commit_set_matches-IsLinked :
    (graph : WorkUnitGraph) (revisions : List String) (changes : List ChangedPath)
    (material_paths : List String) (change : ChangedPath) (commit : String)
    → (graph_commit_set_matches graph revisions changes material_paths).0 ≡ true
    → Elem change changes
    → (contains material_paths change.path || contains material_paths change.previous_path) ≡ true
    → Elem commit change.commits
    → IsLinked graph.events revisions commit
unfolding graph_commit_set_matches
graph_commit_set_matches-IsLinked graph revisions changes material_paths change commit h m t c =
    let s =
      link_events revisions graph.events (record { seen = false; linked = []; invalid = [] }) in
    let found = s.invalid ++ unlinked_changes s.linked material_paths changes in
    let nothing : is_empty found ≡ true = ground arith in
    let linked =
      unlinked_changes-empty s.linked material_paths changes (append_empty s.invalid _ nothing).1
        change m t commit c in
    elim (link_events-linked revisions graph.events
      (record { seen = false; linked = []; invalid = [] }) commit linked) [
        | inl before ↦ absurd before
        | inr l ↦ l
      ]
