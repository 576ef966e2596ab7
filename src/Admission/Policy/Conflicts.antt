-- ===== src/Admission/Policy/Conflicts.antt =====
-- `EvaluatePolicy`: no conflict reference means that no two rules contend for a path.
use goalrail.Base.{
  String, true, false, List, [], ◌∷◌, ◌≡◌, refl, inl, inr, arith, Elem, Elem-sort_by, ltb, length,
  is_empty, Bool-cases, text_lt, Elem-map, concat, nonempty_elem, Elem-empty,
}
use goalrail.Domain.{ProjectPolicy}
use goalrail.Admission.Types.{ChangedPath}
use goalrail.Admission.Policy.Keys.{IsNamed, change_paths_iff}
use goalrail.Admission.Policy.{
  PathDecision, PolicyEvaluation, evaluate_path, evaluate_paths, evaluate_changes, evaluate_policy,
  record_decision, change_paths, blank_evaluation, rule_refs, sort_by,
}
use goalrail.Admission.Policy.Keys.{Elem-add_keys}

-- At most one rule of the highest matching priority.
abbrev pub IsDecided : PathDecision → Type 0
IsDecided d = ltb 1 (length d.rule_ids) ≡ false

sole : {A : Type 0} (xs : List A) → ltb 1 (length xs) ≡ true → is_empty xs ≡ false
sole [] h = ground arith
sole (x ∷ xs) h = refl

record_decision-conflicts :
    (d : PathDecision) (e : PolicyEvaluation)
    → is_empty (record_decision d e).conflict_refs ≡ true
    → (is_empty e.conflict_refs ≡ true) × IsDecided d
unfolding record_decision
record_decision-conflicts d e h = elim (Bool-cases (ltb 1 (length d.rule_ids))) [
  | inr no_ ↦ (ground arith, no_)
  | inl yes_ ↦
      let (x, m) = nonempty_elem d.rule_ids (sole d.rule_ids yes_) in
      let listed =
        (Elem-add_keys (rule_refs d.rule_ids) e.conflict_refs (concat "policy-rule:" x)).1
          (inl (Elem-map (concat "policy-rule:") d.rule_ids x m)) in
      absurd (Elem-empty _ (rw (yes_, record_decision) at h) _ listed)
]

module _ (policy : ProjectPolicy) where
  evaluate_paths-conflicts :
      (kind : String) (paths : List String) (e : PolicyEvaluation)
      → is_empty (evaluate_paths policy kind paths e).conflict_refs ≡ true
      → (is_empty e.conflict_refs ≡ true)
        × ((path : String) → Elem path paths → IsDecided (evaluate_path policy path kind))
  unfolding evaluate_paths
  evaluate_paths-conflicts kind [] e h = (h, λ path m. absurd m)
  evaluate_paths-conflicts kind (q ∷ paths) e h =
      let (later, others) =
        evaluate_paths-conflicts kind paths (record_decision (evaluate_path policy q kind) e) h in
      let (before, here) = record_decision-conflicts (evaluate_path policy q kind) e later in
      (before, λ path m. elim m [ inl same ↦ rw same here | inr m' ↦ others path m' ])

  evaluate_changes-conflicts :
      (changes : List ChangedPath) (e : PolicyEvaluation)
      → is_empty (evaluate_changes policy changes e).conflict_refs ≡ true
      → (is_empty e.conflict_refs ≡ true)
        × ((change : ChangedPath) (path : String)
            → Elem change changes
            → Elem path (change_paths change)
            → IsDecided (evaluate_path policy path change.kind))
  unfolding evaluate_changes
  evaluate_changes-conflicts [] e h = (h, λ change path m. absurd m)
  evaluate_changes-conflicts (c ∷ changes) e h =
      let (later, others) =
        evaluate_changes-conflicts changes (evaluate_paths policy c.kind (change_paths c) e) h in
      let (before, here) = evaluate_paths-conflicts c.kind (change_paths c) e later in
      (
        before,
        λ change path m p. elim m [
          | inl same ↦ rw same (here path (rw same at p))
          | inr m' ↦ others change path m' p
        ],
      )

-- Without a conflict reference, no path of any change is decided by more than one rule.
pub evaluate_policy-conflicts :
    (policy : ProjectPolicy) (changes : List ChangedPath) (change : ChangedPath) (path : String)
    → is_empty (evaluate_policy policy changes).conflict_refs ≡ true
    → Elem change changes
    → IsNamed change path
    → IsDecided (evaluate_path policy path change.kind)
unfolding evaluate_policy
evaluate_policy-conflicts policy changes change path h m p =
    let e = evaluate_changes policy changes blank_evaluation in
    (evaluate_changes-conflicts policy changes blank_evaluation (unsorted e.conflict_refs h)).1
      change path m ((change_paths_iff change path).1 p)
  where
    unsorted : (xs : List String) → is_empty (sort_by text_lt xs) ≡ true → is_empty xs ≡ true
    unsorted [] s = refl
    unsorted (x ∷ xs) s = absurd (Elem-empty _ s x ((Elem-sort_by text_lt (x ∷ xs) x).1 (inl refl)))
