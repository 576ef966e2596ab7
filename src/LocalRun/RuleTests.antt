-- ===== src/LocalRun/RuleTests.antt =====
-- The theorems on check results, worktree deltas and escalations at concrete inputs.
use goalrail.LocalRun.Escalation.Ends.{apply_escalation_rules-blocked_iff}
use goalrail.LocalRun.Delta.Exact.{compare_worktrees-changed_iff, compare_worktrees-violations_iff}
use goalrail.LocalRun.Checks.Verdict.{
  Reports, normalize_check_results_accepts, normalize_check_results-passed_iff,
  normalize_check_results-failed_iff,
}
use goalrail.LocalRun.Checks.Accepted.{IsAdmissible, IdsDistinct}
use goalrail.LocalRun.Delta.{path_in_scope, compare_worktrees, entry_at}
use goalrail.LocalRun.Escalation.{apply_escalation_rules, has_in_scope_edits}
use goalrail.LocalRun.Checks.{Tally, normalize_check_results}
use goalrail.Domain.{WorkSpecCheck, result_pass, result_fail}
use goalrail.Base.{false, true, [], some, ◌≡◌, refl, ◌∷◌, ◌↔◌, Elem, clean_path, ◌⊎◌, is_empty, ◌≢◌}
use goalrail.LocalRun.Sample.{
  host, finish_input, work_spec, work_spec_digest, clean_tree, unit_result, edited_tree,
}
use goalrail.LocalRun.Opened.{run}
use goalrail.LocalRun.Types.{
  passed, failed, EscalationRecord, WorktreeDelta, CheckResult, reserved_escalation_path, blocked,
}

normalize_check_results_accepts_example :
    ((t : Tally) × (normalize_check_results host.is_evidence_reference work_spec.checks
          finish_input.results
        ≡ some t))
    ↔ (((r : CheckResult)
          → Elem r finish_input.results
          → IsAdmissible host.is_evidence_reference work_spec.checks r)
        × IdsDistinct finish_input.results)
normalize_check_results_accepts_example =
    normalize_check_results_accepts host.is_evidence_reference work_spec.checks finish_input.results

abbrev tally : Tally
tally = record { results = unit_result ∷ []; status = passed; reasons = [] }

tallied :
    normalize_check_results host.is_evidence_reference work_spec.checks finish_input.results
    ≡ some tally
unfolding run
tallied = refl

normalize_check_results-passed_iff_example : (tally.status ≡ passed) ↔ (
    (check : WorkSpecCheck)
    → Elem check work_spec.checks
    → Reports finish_input.results check result_pass)
normalize_check_results-passed_iff_example =
    normalize_check_results-passed_iff host.is_evidence_reference work_spec.checks
      finish_input.results tally tallied

normalize_check_results-failed_iff_example : (tally.status ≡ failed) ↔ (
    (check : WorkSpecCheck) × Elem check work_spec.checks
    × Reports finish_input.results check result_fail)
normalize_check_results-failed_iff_example =
    normalize_check_results-failed_iff host.is_evidence_reference work_spec.checks
      finish_input.results tally tallied

compare_worktrees-changed_iff_example :
    Elem "src/parser.go" (compare_worktrees clean_tree edited_tree ("src" ∷ [])).changed_paths
    ↔ (entry_at clean_tree.entries "src/parser.go" ≢ entry_at edited_tree.entries "src/parser.go")
compare_worktrees-changed_iff_example =
    compare_worktrees-changed_iff clean_tree edited_tree ("src" ∷ []) "src/parser.go"

compare_worktrees-violations_iff_example :
    Elem "src/parser.go" (compare_worktrees clean_tree edited_tree ("doc" ∷ [])).scope_violations
    ↔ ((entry_at clean_tree.entries "src/parser.go" ≢ entry_at edited_tree.entries "src/parser.go")
        × ("src/parser.go" ≢ reserved_escalation_path)
        × (path_in_scope "src/parser.go" ("doc" ∷ []) ≡ false))
compare_worktrees-violations_iff_example =
    compare_worktrees-violations_iff clean_tree edited_tree ("doc" ∷ []) "src/parser.go"

abbrev question : EscalationRecord
question = record {
  path = reserved_escalation_path;
  digest = work_spec_digest;
  retained_ref = "runs/run-1/escalation/payload.md";
  valid = true;
  reason = "";
}

abbrev delta : WorktreeDelta
delta = compare_worktrees clean_tree edited_tree ("doc" ∷ [])

apply_escalation_rules-blocked_iff_example :
    (((apply_escalation_rules passed [] (some question) delta ("doc" ∷ [])).0 ≡ blocked)
      ⊎ ((apply_escalation_rules passed [] (some question) delta ("doc" ∷ [])).0 ≡ failed))
    × (((apply_escalation_rules passed [] (some question) delta ("doc" ∷ [])).0 ≡ blocked) ↔ (
        (question.valid ≡ true)
        × (delta.head_changed ≡ false)
        × (is_empty delta.scope_violations ≡ true)
        × (has_in_scope_edits delta ("doc" ∷ []) ≡ false)
        × (passed ≢ failed)))
apply_escalation_rules-blocked_iff_example =
    apply_escalation_rules-blocked_iff passed [] question delta ("doc" ∷ [])

-- Paths in their shortest form.
cleaned : clean_path "a//b/../c/./" ≡ "a/c"
unfolding run
cleaned = refl

cleaned_up : clean_path "/../x/" ≡ "/x"
unfolding run
cleaned_up = refl

cleaned_out : clean_path "../../a" ≡ "../../a"
unfolding run
cleaned_out = refl

cleaned_empty : clean_path "" ≡ "."
unfolding run
cleaned_empty = refl

in_scope : path_in_scope "src/parser.go" ("./src/" ∷ []) ≡ true
unfolding run
in_scope = refl

out_of_scope : path_in_scope "src-old/parser.go" ("src" ∷ []) ≡ false
unfolding run
out_of_scope = refl

-- A run with a question and no edits is blocked; with edits in the scope it fails.
ends_blocked :
    (apply_escalation_rules passed []
      (some question)
      (compare_worktrees clean_tree clean_tree ("src" ∷ []))
      ("src" ∷ [])).0
    ≡ blocked
unfolding run
ends_blocked = refl

ends_failed :
    (apply_escalation_rules passed []
      (some question)
      (compare_worktrees clean_tree edited_tree ("src" ∷ []))
      ("src" ∷ [])).0
    ≡ failed
unfolding run
ends_failed = refl
