-- ===== src/Admission/Tests.antt =====
-- The theorems of the verifier at a concrete range, and runs of it.
use goalrail.Admission.Policy.Conflicts.{IsDecided, evaluate_policy-conflicts}
use goalrail.Admission.Completeness.{EventScan, classify}
use goalrail.Admission.Effective.{EffectiveView}
use goalrail.Admission.Completeness.Lifecycle.{
  IsSettled, classify_closed-IsSettled, classify_ready-IsSettled,
}
use goalrail.Admission.Verify.Coherent.{IsCoherent}
use goalrail.Admission.Verify.Decided.{verify-IsCoherent}
use goalrail.Admission.Completeness.Committed.{Committed}
use goalrail.Admission.Verify.Lineage.{verify-Committed}
use goalrail.Admission.Verify.Intent.{IsConfirmed, verify-IsConfirmed}
use goalrail.Admission.Verify.Covered.{verify-IsLinked, verify-IsClaimed}
use goalrail.Admission.Binding.Commits.{IsLinked}
use goalrail.Admission.Evidence.{trusted_without_packet}
use goalrail.Admission.Evidence.Trusted.{IsClaimed}
use goalrail.Admission.Authority.Governs.{IsGoverning, resolve_authority-IsGoverning}
use goalrail.Admission.Policy.Material.{
  MaterialIn, evaluate_policy-material_iff, evaluate_policy-unmatched,
}
use goalrail.Admission.Verify.Owner.{IsOwnerAllow, verify-IsOwnerAllow}
use goalrail.Admission.Policy.Rules.{IsTop, evaluate_path-IsTop}
use goalrail.Admission.Candidates.{has_bounded_evaluation_time}
use goalrail.Admission.Ancestry.Reach.{
  IsAncestor, ancestor_outcome-ne-out_of_fuel, ancestor_within_range_iff,
}
use goalrail.Admission.Policy.Keys.{IsNamed}
use goalrail.Admission.Policy.{evaluate_policy, rule_matches, evaluate_path}
use goalrail.Admission.Ancestry.{ancestor_within_range, ancestor_outcome, out_of_fuel}
use goalrail.Admission.Authority.{Authority, resolve_authority}
use goalrail.Admission.Verify.{verify}
use goalrail.Base.{
  is_empty, contains, ◌||◌, ◌⊎◌, inl, inr, true, false, List, [], ◌∷◌, some, ◌≡◌, refl, Elem,
  String, if◌then◌else◌, ◌≢◌, ◌↔◌, ◌==◌,
}
use goalrail.Domain.{
  relation_single, work_unit_closed, work_unit_admission_ready, lineage_change, AdmissionResult,
  AdmissionClassification, AdmissionOutcome, PolicyPathRule,
}
use goalrail.Admission.Types.{ChangedPath, SemanticProjection, pass, ProviderCandidate}
use goalrail.Admission.Opened.{run}
use goalrail.Admission.Sample.{
  declaration, commit_ref, event, change, codec, input, unit_ref, frozen, packet, policy,
}

abbrev allowed_result : AdmissionResult
allowed_result = record {
  schema = "goalrail.admission-result/v1";
  project_id = "prj_1";
  policy_digest = "sha256:policy";
  base_revision = "c1";
  head_revision = "c2";
  material_paths = "src/main.go" ∷ [];
  work_unit_ref = unit_ref;
  classification = AdmissionClassification.valid;
  outcome = AdmissionOutcome.allow;
  reasons = [];
  missing_refs = [];
  conflict_refs = [];
  verifier_version = "goalrail-admission-v1";
}

verify_allows : verify codec input ≡ some allowed_result
unfolding run
verify_allows = refl

abbrev authority : Authority
authority = record {
  declaration = declaration;
  declaration_digest = "sha256:declaration";
  policy = policy;
  policy_digest = "sha256:policy";
  bootstrap = false;
}

resolved : resolve_authority codec frozen ≡ pass authority
unfolding run
resolved = refl

verify-IsOwnerAllow_example :
    (a : Authority) × (resolve_authority codec frozen ≡ pass a)
    × (has_bounded_evaluation_time codec packet ≡ true)
    × ((c : ProviderCandidate) × Elem c input.candidates × IsOwnerAllow codec input a c)
verify-IsOwnerAllow_example = verify-IsOwnerAllow codec input allowed_result verify_allows refl

evaluate_path-IsTop_example : Elem "code" (evaluate_path policy "src/main.go" "modify").rule_ids ↔ (
    (rule : PolicyPathRule) × IsTop "src/main.go" "modify" policy.rules rule × (rule.id ≡ "code"))
evaluate_path-IsTop_example = evaluate_path-IsTop policy "src/main.go" "modify" "code"

-- A diamond: c4 has the parents c2 and c3, which have the parent c1.
abbrev diamond : String → List String
diamond c =
    if c == "c4"
    then "c2" ∷ "c3" ∷ []
    else (if c == "c2" then "c1" ∷ [] else (if c == "c3" then "c1" ∷ [] else "c0" ∷ []))

abbrev diamond_commits : List String
diamond_commits = "c1" ∷ "c2" ∷ "c3" ∷ "c4" ∷ []

diamond_ancestors :
    (ancestor_within_range diamond_commits diamond "c1" "c4" ≡ true)
    × (ancestor_within_range diamond_commits diamond "c2" "c3" ≡ false)
    × (ancestor_within_range diamond_commits diamond "c0" "c4" ≡ false)
unfolding run
diamond_ancestors = (refl, refl, refl)

ancestor_outcome-ne-out_of_fuel_example :
    ancestor_outcome diamond_commits diamond "c2" "c3" ≢ out_of_fuel
ancestor_outcome-ne-out_of_fuel_example =
    ancestor_outcome-ne-out_of_fuel diamond_commits diamond "c2" "c3"

ancestor_within_range_iff_example :
    (ancestor_within_range diamond_commits diamond "c1" "c4" ≡ true)
    ↔ (Elem "c1" diamond_commits × IsAncestor diamond_commits diamond "c1" "c4")
ancestor_within_range_iff_example = ancestor_within_range_iff diamond_commits diamond "c1" "c4"

verify-IsCoherent_example : IsCoherent allowed_result
verify-IsCoherent_example = verify-IsCoherent codec input allowed_result verify_allows

verify-Committed_example : Committed frozen.graph lineage_change
verify-Committed_example =
    verify-Committed codec input allowed_result lineage_change verify_allows refl
      (inr (inr (inl refl)))

verify-IsConfirmed_example :
    (p : SemanticProjection) × Elem p frozen.projections × IsConfirmed frozen.graph p
verify-IsConfirmed_example = verify-IsConfirmed codec input allowed_result verify_allows refl

main_is_material :
    (contains (evaluate_policy policy frozen.changes).material_paths "src/main.go"
      || contains (evaluate_policy policy frozen.changes).material_paths "")
    ≡ true
unfolding run
main_is_material = refl

verify-IsLinked_example : IsLinked frozen.graph.events frozen.commits "c2"
verify-IsLinked_example =
    verify-IsLinked codec input allowed_result authority (change "src/main.go") "c2" verify_allows
      refl resolved (inl refl) main_is_material (inl refl)

verify-IsClaimed_example :
    (trusted_without_packet commit_ref packet ≡ true) ⊎ IsClaimed packet commit_ref
verify-IsClaimed_example =
    verify-IsClaimed codec input allowed_result (event "commit" "k" (commit_ref ∷ [])) commit_ref
      verify_allows refl (inr (inr (inr (inr (inr (inl refl)))))) (inl refl)

resolve_authority-IsGoverning_example : IsGoverning codec frozen authority
resolve_authority-IsGoverning_example =
    resolve_authority-IsGoverning codec frozen authority resolved

evaluate_policy-material_iff_example :
    Elem "src/main.go" (evaluate_policy policy frozen.changes).material_paths
    ↔ MaterialIn policy "src/main.go" frozen.changes
evaluate_policy-material_iff_example =
    evaluate_policy-material_iff policy frozen.changes "src/main.go"

-- No rule of the policy takes a deletion.
abbrev deletion : ChangedPath
deletion = record (change "src/old.go") { kind = "delete" }

unruled :
    (rule : PolicyPathRule)
    → Elem rule policy.rules
    → rule_matches rule "src/old.go" "delete" ≡ false
unfolding run
unruled rule (inl e) = rw e refl
unruled rule (inr (inl e)) = rw e refl
unruled rule (inr (inr none_left)) = absurd none_left

only_path : IsNamed deletion "src/old.go"
unfolding run
only_path = inl refl

evaluate_policy-unmatched_example :
    Elem "src/old.go" (evaluate_policy policy (deletion ∷ [])).material_paths
evaluate_policy-unmatched_example =
    evaluate_policy-unmatched policy (deletion ∷ []) deletion "src/old.go" (inl refl) only_path
      unruled

no_conflict : is_empty (evaluate_policy policy frozen.changes).conflict_refs ≡ true
unfolding run
no_conflict = refl

readme_path : IsNamed (change "docs/readme.md") "docs/readme.md"
unfolding run
readme_path = inl refl

evaluate_policy-conflicts_example : IsDecided (evaluate_path policy "docs/readme.md" "modify")
evaluate_policy-conflicts_example =
    evaluate_policy-conflicts policy frozen.changes (change "docs/readme.md") "docs/readme.md"
      no_conflict (inr (inl refl)) readme_path

-- Everything but closure has an event or a candidate.
abbrev ready_view : EffectiveView
ready_view = record {
  satisfied = "owner_decision" ∷ "check_set" ∷ "review_index" ∷ "pull_request" ∷ [];
  suppressed = "owner_decision" ∷ [];
}

abbrev ready_scan : EventScan
ready_scan = record {
  present =
      "terminal_receipt" ∷ "commit" ∷ "run_session" ∷ "work_spec" ∷ "change" ∷ "confirmed_intent"
      ∷ "project_policy" ∷ [];
  expired = [];
}

is_ready : (classify ready_view frozen.graph ready_scan).lifecycle ≡ work_unit_admission_ready
unfolding run
is_ready = refl

classify_ready-IsSettled_example : IsSettled ready_view frozen.graph ready_scan lineage_change
classify_ready-IsSettled_example =
    classify_ready-IsSettled ready_view frozen.graph ready_scan
      (record { relation = lineage_change; cardinality = relation_single }) is_ready
      (inr (inr (inl refl))) refl

abbrev closed_scan : EventScan
closed_scan = record ready_scan { present = "closure" ∷ ready_scan.present }

is_closed : (classify ready_view frozen.graph closed_scan).lifecycle ≡ work_unit_closed
unfolding run
is_closed = refl

classify_closed-IsSettled_example : IsSettled ready_view frozen.graph closed_scan lineage_change
classify_closed-IsSettled_example =
    classify_closed-IsSettled ready_view frozen.graph closed_scan
      (record { relation = lineage_change; cardinality = relation_single }) is_closed
      (inr (inr (inl refl)))
