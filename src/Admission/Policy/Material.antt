-- ===== src/Admission/Policy/Material.antt =====
-- `EvaluatePolicy` against its reference: which paths are material, and when rules conflict.
use goalrail.Base.{
  sort_by, sort_texts, String, Bool, true, false, List, [], ◌∷◌, ◌≡◌, refl, ◌↔◌, ◌⊎◌, inl, inr,
  arith, Elem, Elem-sort_by, Elem-add_key, ltb, length, not, ◌&&◌, ◌||◌, ◌==◌, text_lt, ◌∙◌, ap,
}
use goalrail.Domain.{
  ProjectPolicy, PolicyPathRule, materiality_evidence, materiality_generated,
  materiality_non_material,
}
use goalrail.Admission.Types.{ChangedPath}
use goalrail.Admission.Policy.Keys.{IsNamed, change_paths_iff}
use goalrail.Admission.Policy.{
  PathDecision, PolicyEvaluation, evaluate_path, evaluate_paths, evaluate_changes, evaluate_policy,
  record_decision, change_paths, blank_evaluation, rule_matches, scan_rules, offer_rule, blank_scan,
  RuleScan,
}

-- Neither in conflict nor of a class that exempts it.
abbrev pub is_material : PathDecision → Bool
is_material d =
    not (ltb 1 (length d.rule_ids))
    && not (
        d.classification == materiality_evidence
        || (d.classification == materiality_generated
            || d.classification == materiality_non_material))

record_decision-material :
    (d : PathDecision) (e : PolicyEvaluation) (path : String)
    → Elem path (record_decision d e).material_paths
      ↔ (Elem path e.material_paths ⊎ (path ≡ d.path) × (is_material d ≡ true))
unfolding record_decision
record_decision-material d e path = ground (arith, Elem-add_key d.path e.material_paths path)

module _ (policy : ProjectPolicy) where
  evaluate_path-path : (path kind : String) → (evaluate_path policy path kind).path ≡ path
  unfolding evaluate_path scan_rules offer_rule
  evaluate_path-path path kind = scanned (blank_scan path kind) policy.rules
    where
      scanned :
          (s : RuleScan) (rules : List PolicyPathRule)
          → (scan_rules path kind s rules).decision.path ≡ s.decision.path
      scanned s [] = refl
      scanned s (rule ∷ rules) = scanned (offer_rule path kind s rule) rules ∙ ground arith

  abbrev MaterialAt : String → String → List String → Type 0
  MaterialAt path kind paths =
      Elem path paths × (is_material (evaluate_path policy path kind) ≡ true)

  evaluate_paths-material :
      (kind : String) (paths : List String) (e : PolicyEvaluation) (path : String)
      → Elem path (evaluate_paths policy kind paths e).material_paths
        ↔ (Elem path e.material_paths ⊎ MaterialAt path kind paths)
  unfolding evaluate_paths
  evaluate_paths-material kind [] e path = ground arith
  evaluate_paths-material kind (q ∷ paths) e path =
      let d = evaluate_path policy q kind in
      ground (
        arith,
        evaluate_path-path q kind,
        record_decision-material d e path,
        evaluate_paths-material kind paths (record_decision d e) path,
      )

  -- Some change names the path, under a kind for which the path is material.
  abbrev pub MaterialIn : String → List ChangedPath → Type 0
  MaterialIn path changes =
      (change : ChangedPath) × Elem change changes
      × IsNamed change path
      × (is_material (evaluate_path policy path change.kind) ≡ true)

  evaluate_changes-material :
      (changes : List ChangedPath) (e : PolicyEvaluation) (path : String)
      → Elem path (evaluate_changes policy changes e).material_paths
        ↔ (Elem path e.material_paths ⊎ MaterialIn path changes)
  unfolding evaluate_changes
  evaluate_changes-material [] e path =
      (λ m. inl m, λ h. elim h [ inl m ↦ m | inr (_, none_in, _, _) ↦ absurd none_in ])
  evaluate_changes-material (change ∷ changes) e path =
      let e' = evaluate_paths policy change.kind (change_paths change) e in
      let here = evaluate_paths-material change.kind (change_paths change) e path in
      let below = evaluate_changes-material changes e' path in
      (
        λ m. elim (below.0 m) [
          | inr (c, c_in, in_paths, yes_) ↦ inr (c, inr c_in, in_paths, yes_)
          | inl before ↦ elim (here.0 before) [
            | inl m' ↦ inl m'
            | inr (in_paths, yes_) ↦
                inr (change, inl refl, (change_paths_iff change path).0 in_paths, yes_)
          ]
        ],
        λ h. elim h [
          | inl m ↦ below.1 (inl (here.1 (inl m)))
          | inr (c, inr c_in, in_paths, yes_) ↦ below.1 (inr (c, c_in, in_paths, yes_))
          | inr (c, inl same, in_paths, yes_) ↦ below.1 (
              inl (
                here.1
                  (inr ((change_paths_iff change path).1 (rw same at in_paths), rw same at yes_))))
        ],
      )

-- A path is material exactly where some change names it, as its new path or as the previous one of
-- a rename, and the policy's decision for it under that change's kind is no conflict and not
-- evidence, generated or non-material.
pub evaluate_policy-material_iff :
    (policy : ProjectPolicy) (changes : List ChangedPath) (path : String)
    → Elem path (evaluate_policy policy changes).material_paths ↔ MaterialIn policy path changes
unfolding evaluate_policy
evaluate_policy-material_iff policy changes path = ground (
  arith,
  Elem-sort_by text_lt (evaluate_changes policy changes blank_evaluation).material_paths path,
  evaluate_changes-material policy changes blank_evaluation path,
)

scan_unmatched :
    (path kind : String) (s : RuleScan) (rules : List PolicyPathRule)
    → ((rule : PolicyPathRule) → Elem rule rules → rule_matches rule path kind ≡ false)
    → scan_rules path kind s rules ≡ s
unfolding scan_rules offer_rule
scan_unmatched path kind s [] h = refl
scan_unmatched path kind s (rule ∷ rules) h =
    rw (h rule (inl refl)) (scan_unmatched path kind s rules (λ r m. h r (inr m)))

unmatched_material :
    (policy : ProjectPolicy) (path kind : String)
    → ((rule : PolicyPathRule) → Elem rule policy.rules → rule_matches rule path kind ≡ false)
    → is_material (evaluate_path policy path kind) ≡ true
unfolding evaluate_path sort_by
unmatched_material policy path kind h =
    let kept : evaluate_path policy path kind ≡ (blank_scan path kind).decision =
      ap
        (λ (s : RuleScan). record s.decision {
          rule_ids = sort_texts s.decision.rule_ids;
          required_evidence_kinds = sort_texts s.decision.required_evidence_kinds;
        })
        (scan_unmatched path kind (blank_scan path kind) policy.rules h) in
    ap is_material kept

-- A path of a change that no rule of the policy matches is material.
pub evaluate_policy-unmatched :
    (policy : ProjectPolicy) (changes : List ChangedPath) (change : ChangedPath) (path : String)
    → Elem change changes
    → IsNamed change path
    → ((rule : PolicyPathRule)
        → Elem rule policy.rules
        → rule_matches rule path change.kind ≡ false)
    → Elem path (evaluate_policy policy changes).material_paths
evaluate_policy-unmatched policy changes change path m m' h =
    (evaluate_policy-material_iff policy changes path).1
      (change, m, m', unmatched_material policy path change.kind h)
