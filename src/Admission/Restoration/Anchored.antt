-- ===== src/Admission/Restoration/Anchored.antt =====
-- What a restoration claim that `restorationFailure` lets stand has established.
use goalrail.Base.{
  Option-cases, find_first, find_first-eq-none, ◌⊎◌, all, is_empty-Elem, String, Bool, true, List,
  [], ◌∷◌, none, ◌≡◌, ◌≢◌, inl, inr, arith, Elem, Elem-keep, contains, contains_iff, eq_iff,
  Bool-cases, all-eq-true, not, ◌==◌, keep, &&-eq-true,
}
use goalrail.Admission.Restoration.Artifact.{
  touches, widen, commits_touching_intro, IsArtifactTouch, IsArtifactTouch-listed, IsAddressable,
  claim_paths-IsAddressable, IsAnchor, find_first-IsAnchor,
}
use goalrail.Domain.{LineageEvent, ProjectPolicy, ExceptionEnvelope}
use goalrail.Admission.Types.{ChangedPath, FrozenRange}
use goalrail.Admission.Paths.{paths_covered}
use goalrail.Admission.Ancestry.Reach.{IsAncestor, ancestor_within_range_iff}
use goalrail.Admission.Restoration.{
  restoration_failure, commits_touching, claim_anchor, claim_paths, material_touches,
  anchored_before, precedes, is_empty,
}

precedes-IsAncestor :
    (frozen : FrozenRange) (anchor touch : String)
    → precedes frozen anchor touch ≡ true
    → (anchor ≢ touch)
      × Elem anchor frozen.commits
      × IsAncestor frozen.commits frozen.commit_parents anchor touch
unfolding precedes
precedes-IsAncestor frozen anchor touch h =
    let (distinct, ancestral) = &&-eq-true (not (anchor == touch)) _ h in
    let (in_range, ancestor) =
      (ancestor_within_range_iff frozen.commits frozen.commit_parents anchor touch).0 ancestral in
    (λ e. ground (arith, eq_iff anchor touch), in_range, ancestor)

-- A commit of the range that changes a material path in the claim's scope.
pub record IsMaterialTouch (frozen : FrozenRange) (material_paths prefixes : List String)
    (commit : String) : Type 0 where
  pub in_range : Elem commit frozen.commits
  pub change : ChangedPath
  pub changed : Elem change frozen.changes
  pub by_commit : Elem commit change.commits
  pub path : String
  pub material : Elem path material_paths
  pub scoped : paths_covered (path ∷ []) prefixes ≡ true
  pub touched : touches change (path ∷ []) ≡ true

IsMaterialTouch-listed :
    (frozen : FrozenRange) (material_paths prefixes : List String) (commit : String)
    → IsMaterialTouch frozen material_paths prefixes commit
    → Elem commit (material_touches frozen material_paths prefixes)
unfolding material_touches
IsMaterialTouch-listed frozen material_paths prefixes commit t =
    let in_scope = keep (λ path. paths_covered (path ∷ []) prefixes) material_paths in
    let path_in : Elem t.path in_scope =
      (Elem-keep _ material_paths t.path).1 (t.material, t.scoped) in
    let touching =
      commits_touching_intro frozen.changes in_scope t.change commit t.changed
        (widen t.change t.path in_scope path_in t.touched) t.by_commit in
    let kept =
      (Elem-keep (contains (commits_touching frozen.changes in_scope)) frozen.commits commit).1
        (t.in_range, (contains_iff (commits_touching frozen.changes in_scope) commit).1 touching) in
    rw (is_empty-Elem in_scope t.path path_in) kept

-- What the anchor of a claim establishes before a commit: no commit of the range changes an artifact
-- of the claim, so that the claim was there before the range; or the first that does is a proper
-- ancestor of the commit.
abbrev pub IsAnchoredBefore : FrozenRange → LineageEvent → String → Type 0
IsAnchoredBefore frozen event touch =
    ((commit : String) → Elem commit frozen.commits → ¬ IsArtifactTouch frozen event commit)
    ⊎ ((anchor : String) × IsAnchor frozen event anchor
        × (anchor ≢ touch)
        × IsAncestor frozen.commits frozen.commit_parents anchor touch)

anchored_before-IsAnchoredBefore :
    (frozen : FrozenRange) (event : LineageEvent) (touch : String) (touches_ : List String)
    → ¬ Elem "" frozen.commits
    → anchored_before frozen (claim_anchor frozen event) touches_ ≡ true
    → Elem touch touches_
    → IsAddressable event × IsAnchoredBefore frozen event touch
unfolding anchored_before claim_anchor
anchored_before-IsAnchoredBefore frozen event touch touches_ named h m =
    let paths : List String = claim_paths event in
    let test : String → Bool = contains (commits_touching frozen.changes paths) in
    elim (Bool-cases (is_empty paths)) [
      | inl empty ↦
          let before_all : all (precedes frozen "") touches_ ≡ true = rw empty at h in
          let (_, in_range, _) =
            precedes-IsAncestor frozen "" touch
              (all-eq-true (precedes frozen "") touches_ before_all touch m) in
          absurd (named in_range)
      | inr there ↦ (
        claim_paths-IsAddressable event there,
        elim (Option-cases (find_first test frozen.commits)) [
          | inl none_ ↦ inl (λ commit c t.
              let listed = IsArtifactTouch-listed frozen event commit t in
              let missed = find_first-eq-none test frozen.commits commit none_ c in
              absurd (ground (arith, contains_iff (commits_touching frozen.changes paths) commit)))
          | inr (anchor, e) ↦
              let before_all : all (precedes frozen anchor) touches_ ≡ true = rw (there, e) at h in
              let (distinct, in_range, ancestor) =
                precedes-IsAncestor frozen anchor touch
                  (all-eq-true (precedes frozen anchor) touches_ before_all touch m) in
              inr (anchor, find_first-IsAnchor frozen event anchor e, distinct, ancestor)
        ],
      )
    ]

-- Where a claim stands in a range that has no commit with an empty name, and a commit changes a
-- material path in the claim's scope, some target of the claim's event addresses a path of the
-- repository, and either no commit of the range changes such a path, or the first one that does is a
-- proper ancestor of that commit.
pub restoration_failure-IsAncestor :
    (frozen : FrozenRange) (policy : ProjectPolicy) (event : LineageEvent)
    (envelope : ExceptionEnvelope) (material_paths : List String) (touch : String)
    → restoration_failure frozen policy event envelope material_paths ≡ none
    → ¬ Elem "" frozen.commits
    → IsMaterialTouch frozen material_paths envelope.path_prefixes touch
    → IsAddressable event × IsAnchoredBefore frozen event touch
unfolding restoration_failure
restoration_failure-IsAncestor frozen policy event envelope material_paths touch h named t =
    let listed = IsMaterialTouch-listed frozen material_paths envelope.path_prefixes touch t in
    let some_touch = is_empty-Elem _ touch listed in
    anchored_before-IsAnchoredBefore frozen event touch _ named (ground arith) listed
