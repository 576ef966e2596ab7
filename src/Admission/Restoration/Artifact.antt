-- ===== src/Admission/Restoration/Artifact.antt =====
-- The artifacts of a restoration claim and the commits that change them.
use goalrail.Base.{
  String, Bool, true, false, List, [], ◌∷◌, ◌++◌, map, some, ◌≡◌, ◌≢◌, inl, inr, refl, arith, Elem,
  Elem-append, Elem-keep, Elem-map, map-Elem, contains, contains_iff, eq_iff, eq_refl, Bool-cases,
  any, not, ◌||◌, ◌==◌, find_first, find_first-split, is_empty, nonempty_elem, subst, ◌∙◌,
}
use goalrail.Domain.{LineageEvent, ContentAddressedEvidenceReference}
use goalrail.Admission.Types.{ChangedPath, FrozenRange}
use goalrail.Admission.Paths.{repository_path}
use goalrail.Admission.Restoration.{commits_touching, claim_paths}

-- The change names one of the paths, as its new path or as the previous one.
abbrev pub touches : ChangedPath → List String → Bool
touches change paths = contains paths change.path || contains paths change.previous_path

pub widen :
    (change : ChangedPath) (path : String) (paths : List String)
    → Elem path paths
    → touches change (path ∷ []) ≡ true
    → touches change paths ≡ true
unfolding contains any
widen change path paths m h = ground (
  arith,
  eq_iff path change.path,
  eq_iff path change.previous_path,
  contains_iff paths change.path,
  contains_iff paths change.previous_path,
)

pub commits_touching_intro :
    (changes : List ChangedPath) (paths : List String) (change : ChangedPath) (commit : String)
    → Elem change changes
    → touches change paths ≡ true
    → Elem commit change.commits
    → Elem commit (commits_touching changes paths)
unfolding commits_touching
commits_touching_intro [] paths change commit m t c = m
commits_touching_intro (first ∷ changes) paths change commit (inl e) t c =
    (Elem-append _ (commits_touching changes paths) commit).1 (inl (rw (rw e at t) (rw e at c)))
commits_touching_intro (first ∷ changes) paths change commit (inr m) t c =
    (Elem-append _ (commits_touching changes paths) commit).1
      (inr (commits_touching_intro changes paths change commit m t c))

-- A change that names one of the paths names a path of them.
touches-Elem :
    (change : ChangedPath) (paths : List String)
    → touches change paths ≡ true
    → (path : String) × Elem path paths × (touches change (path ∷ []) ≡ true)
unfolding contains any
touches-Elem change paths h = elim (Bool-cases (contains paths change.path)) [
  | inl new ↦
      (change.path, (contains_iff paths change.path).0 new, ground (arith, eq_refl change.path))
  | inr old ↦ (
    change.previous_path,
    (contains_iff paths change.previous_path).0 (ground arith),
    ground (arith, eq_refl change.previous_path),
  )
]

commits_touching-Elem :
    (changes : List ChangedPath) (paths : List String) (commit : String)
    → Elem commit (commits_touching changes paths)
    → (change : ChangedPath) × Elem change changes
      × Elem commit change.commits
      × (touches change paths ≡ true)
unfolding commits_touching
commits_touching-Elem [] paths commit m = absurd m
commits_touching-Elem (first ∷ changes) paths commit m = elim (Bool-cases (touches first paths)) [
  | inl yes_ ↦
      elim ((Elem-append first.commits (commits_touching changes paths) commit).0 (rw yes_ at m)) [
        | inl here ↦ (first, inl refl, here, yes_)
        | inr later ↦
            let (c, c_in, by_, t) = commits_touching-Elem changes paths commit later in
            (c, inr c_in, by_, t)
      ]
  | inr no_ ↦
      let (c, c_in, by_, t) = commits_touching-Elem changes paths commit (rw no_ at m) in
      (c, inr c_in, by_, t)
]

-- A commit that changes an artifact of the claim: the repository path that a target addresses.
pub record IsArtifactTouch (frozen : FrozenRange) (event : LineageEvent) (commit : String)
    : Type 0 where
  pub target : ContentAddressedEvidenceReference
  pub targeted : Elem target event.targets
  pub addressable : repository_path target.source_ref ≢ ""
  pub change : ChangedPath
  pub changed : Elem change frozen.changes
  pub by_commit : Elem commit change.commits
  pub touched : touches change (repository_path target.source_ref ∷ []) ≡ true

-- Some target addresses a path of the repository.
abbrev pub IsAddressable : LineageEvent → Type 0
IsAddressable event =
    (target : ContentAddressedEvidenceReference) × Elem target event.targets
    × (repository_path target.source_ref ≢ "")

-- The claim's paths are those that its targets address.
claim_paths-Elem :
    (event : LineageEvent) (path : String)
    → Elem path (claim_paths event)
    → (target : ContentAddressedEvidenceReference) × Elem target event.targets
      × (path ≡ repository_path target.source_ref)
      × (path ≢ "")
claim_paths-Elem event path m =
    let f = λ (t : ContentAddressedEvidenceReference). repository_path t.source_ref in
    let (listed, filled) = (Elem-keep (λ x. not (x == "")) (map f event.targets) path).0 m in
    let (target, targeted, e) = map-Elem f event.targets path listed in
    (target, targeted, e, λ empty. ground (arith, eq_iff path ""))

claim_paths_intro :
    (event : LineageEvent) (target : ContentAddressedEvidenceReference)
    → Elem target event.targets
    → repository_path target.source_ref ≢ ""
    → Elem (repository_path target.source_ref) (claim_paths event)
claim_paths_intro event target m filled =
    let f = λ (t : ContentAddressedEvidenceReference). repository_path t.source_ref in
    let path : String = repository_path target.source_ref in
    let test : not (path == "") ≡ true = elim (Bool-cases (path == "")) [
      | inl empty ↦ absurd (filled ((eq_iff path "").0 empty))
      | inr no_ ↦ ground arith
    ] in
    (Elem-keep (λ x. not (x == "")) (map f event.targets) path).1
      (Elem-map f event.targets target m, test)

pub claim_paths-IsAddressable :
    (event : LineageEvent) → is_empty (claim_paths event) ≡ false → IsAddressable event
claim_paths-IsAddressable event h =
    let (path, m) = nonempty_elem (claim_paths event) h in
    let (target, targeted, e, filled) = claim_paths-Elem event path m in
    (target, targeted, λ empty. filled (e ∙ empty))

pub IsArtifactTouch-listed :
    (frozen : FrozenRange) (event : LineageEvent) (commit : String)
    → IsArtifactTouch frozen event commit
    → Elem commit (commits_touching frozen.changes (claim_paths event))
IsArtifactTouch-listed frozen event commit t =
    let path : String = repository_path t.target.source_ref in
    let path_in = claim_paths_intro event t.target t.targeted t.addressable in
    commits_touching_intro frozen.changes (claim_paths event) t.change commit t.changed
      (widen t.change path (claim_paths event) path_in t.touched) t.by_commit

listed-IsArtifactTouch :
    (frozen : FrozenRange) (event : LineageEvent) (commit : String)
    → Elem commit (commits_touching frozen.changes (claim_paths event))
    → IsArtifactTouch frozen event commit
listed-IsArtifactTouch frozen event commit m =
    let (change, changed, by_commit, t) =
      commits_touching-Elem frozen.changes (claim_paths event) commit m in
    let (path, path_in, touched) = touches-Elem change (claim_paths event) t in
    let (target, targeted, e, filled) = claim_paths-Elem event path path_in in
    record {
      target = target;
      targeted = targeted;
      addressable = λ empty. filled (e ∙ empty);
      change = change;
      changed = changed;
      by_commit = by_commit;
      touched = subst (λ x. touches change (x ∷ []) ≡ true) e touched;
    }

-- The first commit of the range that changes an artifact of the claim.
pub record IsAnchor (frozen : FrozenRange) (event : LineageEvent) (anchor : String) : Type 0 where
  pub earlier : List String
  pub later : List String
  pub in_order : frozen.commits ≡ earlier ++ (anchor ∷ later)
  pub touching : IsArtifactTouch frozen event anchor
  pub first : (commit : String) → Elem commit earlier → ¬ IsArtifactTouch frozen event commit

pub find_first-IsAnchor :
    (frozen : FrozenRange) (event : LineageEvent) (anchor : String)
    → find_first (contains (commits_touching frozen.changes (claim_paths event))) frozen.commits
      ≡ some anchor
    → IsAnchor frozen event anchor
find_first-IsAnchor frozen event anchor h =
    let all_touching : List String = commits_touching frozen.changes (claim_paths event) in
    let (earlier, later, split, misses, hit) =
      find_first-split (contains all_touching) frozen.commits anchor h in
    record {
      earlier = earlier;
      later = later;
      in_order = split;
      touching =
          listed-IsArtifactTouch frozen event anchor ((contains_iff all_touching anchor).0 hit);
      first = λ commit m t.
          let missed = misses commit m in
          let listed = IsArtifactTouch-listed frozen event commit t in
          absurd (ground (arith, contains_iff all_touching commit));
    }
