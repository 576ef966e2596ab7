-- ===== src/Admission/Restoration.antt =====
-- `restorationFailure` and its helpers in internal/admission/evaluate.go.
pub mod Recorded
pub mod Artifact
pub mod Anchored
use goalrail.Base.{
  String, Bool, true, List, [], ◌∷◌, ◌++◌, map, Option, none, some, ◌&&◌, ◌||◌, not, ◌==◌, any, all,
  keep, contains, is_empty, find_first, if◌then◌else◌,
}
use goalrail.Domain.{
  LineageEvent, ProjectPolicy, AdmissionReasonCode, ExceptionEnvelope, lineage_confirmed_intent,
}
use goalrail.Admission.Types.{WorkUnitGraph, ChangedPath, FrozenRange}
use goalrail.Admission.Paths.{paths_covered, repository_path}
use goalrail.Admission.Ancestry.{ancestor_within_range}

unfoldable pub bound_to_recorded_artifact : WorkUnitGraph → ExceptionEnvelope → Bool
bound_to_recorded_artifact graph envelope =
    not (envelope.requirement_digest == "" || envelope.requirement_ref == "")
    && any
        (λ event.
          event.relation == lineage_confirmed_intent
          && any
              (λ target.
                target.source_ref == envelope.requirement_ref
                && target.digest == envelope.requirement_digest)
              event.targets)
        graph.events

abbrev pub amends : ProjectPolicy → List String → String → Bool
amends policy prefixes path =
    not (path == "")
    && (paths_covered (path ∷ []) prefixes
        && paths_covered (path ∷ []) policy.normative_path_prefixes)

unfoldable pub amends_normative_path : FrozenRange → ProjectPolicy → List String → Bool
amends_normative_path frozen policy prefixes =
    any
      (λ change. amends policy prefixes change.path || amends policy prefixes change.previous_path)
      frozen.changes

unfoldable pub commits_touching : List ChangedPath → List String → List String
commits_touching [] paths = []
commits_touching (change ∷ changes) paths =
    (if contains paths change.path || contains paths change.previous_path
      then change.commits
      else [])
    ++ commits_touching changes paths

-- The paths of the claim's own artifacts.
abbrev pub claim_paths : LineageEvent → List String
claim_paths event =
    keep (λ path. not (path == "")) (map (λ t. repository_path t.source_ref) event.targets)

-- `none` is "not in range"; an anchor that no path establishes is the empty revision.
unfoldable pub claim_anchor : FrozenRange → LineageEvent → Option String
claim_anchor frozen event =
    let paths = claim_paths event in
    if is_empty paths
    then some ""
    else find_first (contains (commits_touching frozen.changes paths)) frozen.commits

unfoldable pub material_touches : FrozenRange → List String → List String → List String
material_touches frozen material_paths prefixes =
    let in_scope = keep (λ path. paths_covered (path ∷ []) prefixes) material_paths in
    if is_empty in_scope
    then []
    else keep (contains (commits_touching frozen.changes in_scope)) frozen.commits

unfoldable pub precedes : FrozenRange → String → String → Bool
precedes frozen anchor touch =
    not (anchor == touch) && ancestor_within_range frozen.commits frozen.commit_parents anchor touch

unfoldable pub anchored_before : FrozenRange → Option String → List String → Bool
anchored_before frozen none touches = true
anchored_before frozen (some anchor) touches = all (precedes frozen anchor) touches

-- `none` is the empty code: the claim stands.
unfoldable pub restoration_failure :
    FrozenRange
    → ProjectPolicy
    → LineageEvent
    → ExceptionEnvelope
    → List String
    → Option AdmissionReasonCode
restoration_failure frozen policy event envelope material_paths =
    if not (bound_to_recorded_artifact frozen.graph envelope)
    then some AdmissionReasonCode.restoration_unbound
    else (if is_empty policy.normative_path_prefixes
        then some AdmissionReasonCode.restoration_unbound
        else (if amends_normative_path frozen policy envelope.path_prefixes
            then some AdmissionReasonCode.restoration_unbound
            else (if is_empty (material_touches frozen material_paths envelope.path_prefixes)
                then none
                else (if anchored_before frozen (claim_anchor frozen event)
                      (material_touches frozen material_paths envelope.path_prefixes)
                    then none
                    else some AdmissionReasonCode.restoration_not_anchored))))
