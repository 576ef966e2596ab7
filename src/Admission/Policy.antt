-- ===== src/Admission/Policy.antt =====
-- `EvaluatePolicy`, `evaluatePath` and `ruleMatches` of internal/admission/evaluate.go.
pub mod Rules
pub mod Keys
pub mod Material
pub mod Conflicts
use goalrail.Base.{
  ℕ, String, Bool, true, false, List, [], ◌∷◌, ◌++◌, map, Option, none, some, ◌&&◌, ◌||◌, not, ◌==◌,
  concat, any, add_key, sort_texts, sort_by, text_lt, ltb, nat_eq, length, if◌then◌else◌,
}
use goalrail.Domain.{
  ProjectPolicy, PolicyPathRule, path_matcher_exact, path_matcher_prefix, materiality_material,
  materiality_evidence, materiality_generated, materiality_non_material,
}
use goalrail.Admission.Types.{ChangedPath}
use goalrail.Admission.Paths.{prefix_covers}

pub record PathDecision : Type 0 where
  pub path : String
  pub kind : String
  pub classification : String
  pub rule_ids : List String
  pub required_evidence_kinds : List String

-- The sets are the keys of the source's maps, each once.
pub record PolicyEvaluation : Type 0 where
  pub decisions : List PathDecision
  pub material_paths : List String
  pub evidence_paths : List String
  pub required_evidence_kinds : List String
  pub conflict_refs : List String

unfoldable pub rule_matches : PolicyPathRule → String → String → Bool
rule_matches rule path kind =
    any (λ allowed. allowed == kind) rule.change_kinds
    && (if rule.matcher.kind == path_matcher_exact
        then path == rule.matcher.path
        else (if rule.matcher.kind == path_matcher_prefix
            then rule.matcher.path == "." || prefix_covers rule.matcher.path path
            else false))

-- `none` is the initial priority -1, below that of every rule.
abbrev pub above : ℕ → Option ℕ → Bool
above n none = true
above n (some p) = ltb p n

abbrev pub same_priority : ℕ → Option ℕ → Bool
same_priority n none = false
same_priority n (some p) = nat_eq n p

pub record RuleScan : Type 0 where
  pub priority : Option ℕ
  pub decision : PathDecision

-- One round of the loop over the policy's rules.
unfoldable pub offer_rule : String → String → RuleScan → PolicyPathRule → RuleScan
offer_rule path kind s rule =
    if rule_matches rule path kind
    then (if above rule.priority s.priority
        then record {
          priority = some rule.priority;
          decision = record s.decision {
            classification = rule.classification;
            required_evidence_kinds = rule.required_evidence_kinds;
            rule_ids = rule.id ∷ [];
          };
        }
        else (if same_priority rule.priority s.priority
            then record s {
              decision = record s.decision { rule_ids = s.decision.rule_ids ++ rule.id ∷ [] };
            }
            else s))
    else s

unfoldable pub scan_rules : String → String → RuleScan → List PolicyPathRule → RuleScan
scan_rules path kind s [] = s
scan_rules path kind s (rule ∷ rules) = scan_rules path kind (offer_rule path kind s rule) rules

abbrev pub blank_scan : String → String → RuleScan
blank_scan path kind = record {
  priority = none;
  decision = record {
    path = path;
    kind = kind;
    classification = materiality_material;
    rule_ids = [];
    required_evidence_kinds = [];
  };
}

unfoldable pub evaluate_path : ProjectPolicy → String → String → PathDecision
evaluate_path policy path kind =
    let decision = (scan_rules path kind (blank_scan path kind) policy.rules).decision in
    record decision {
      rule_ids = sort_texts decision.rule_ids;
      required_evidence_kinds = sort_texts decision.required_evidence_kinds;
    }

unfoldable pub add_keys : List String → List String → List String
add_keys [] ks = ks
add_keys (x ∷ xs) ks = add_keys xs (add_key x ks)

abbrev pub rule_refs : List String → List String
rule_refs ids = map (concat "policy-rule:") ids

-- The body of the loop over a change's paths, after the decision is taken.
unfoldable pub record_decision : PathDecision → PolicyEvaluation → PolicyEvaluation
record_decision d e =
    if ltb 1 (length d.rule_ids)
    then record e {
      decisions = e.decisions ++ d ∷ [];
      conflict_refs = add_keys (rule_refs d.rule_ids) e.conflict_refs;
    }
    else (if d.classification == materiality_evidence
        then record e {
          decisions = e.decisions ++ d ∷ [];
          evidence_paths = add_key d.path e.evidence_paths;
        }
        else (if d.classification == materiality_generated
            then record e {
              decisions = e.decisions ++ d ∷ [];
              required_evidence_kinds =
                  add_keys d.required_evidence_kinds e.required_evidence_kinds;
            }
            else (if d.classification == materiality_non_material
                then record e { decisions = e.decisions ++ d ∷ [] }
                else record e {
                  decisions = e.decisions ++ d ∷ [];
                  material_paths = add_key d.path e.material_paths;
                  required_evidence_kinds =
                      add_keys d.required_evidence_kinds e.required_evidence_kinds;
                })))

-- The new path, and the previous one of a rename.
unfoldable pub change_paths : ChangedPath → List String
change_paths change =
    if not (change.previous_path == "") && not (change.previous_path == change.path)
    then change.path ∷ change.previous_path ∷ []
    else change.path ∷ []

module _ (policy : ProjectPolicy) where
  unfoldable pub evaluate_paths : String → List String → PolicyEvaluation → PolicyEvaluation
  evaluate_paths kind [] e = e
  evaluate_paths kind (path ∷ paths) e =
      evaluate_paths kind paths (record_decision (evaluate_path policy path kind) e)

  unfoldable pub evaluate_changes : List ChangedPath → PolicyEvaluation → PolicyEvaluation
  evaluate_changes [] e = e
  evaluate_changes (change ∷ changes) e =
      evaluate_changes changes (evaluate_paths change.kind (change_paths change) e)

abbrev pub decision_lt : PathDecision → PathDecision → Bool
decision_lt a b = if not (a.path == b.path) then text_lt a.path b.path else text_lt a.kind b.kind

abbrev pub blank_evaluation : PolicyEvaluation
blank_evaluation = record {
  decisions = [];
  material_paths = [];
  evidence_paths = [];
  required_evidence_kinds = [];
  conflict_refs = [];
}

unfoldable pub evaluate_policy : ProjectPolicy → List ChangedPath → PolicyEvaluation
evaluate_policy policy changes =
    let e = evaluate_changes policy changes blank_evaluation in
    record {
      decisions = sort_by decision_lt e.decisions;
      material_paths = sort_texts e.material_paths;
      evidence_paths = sort_texts e.evidence_paths;
      required_evidence_kinds = sort_texts e.required_evidence_kinds;
      conflict_refs = sort_texts e.conflict_refs;
    }
