-- ===== src/LocalRun/Delta/Exact.antt =====
-- The difference of two observations is exact.
use goalrail.Base.{
  String, true, false, List, [], ◌∷◌, ◌≡◌, refl, ◌⊎◌, inl, inr, ◌↔◌, ◌≢◌, ◌==◌, eq_iff, Elem,
  Elem-keep, Elem-sort_by, Elem-add_key, arith, find_last, find_last-eq-some, Option-cases,
  Bool-cases, text_lt, keep, sym, ◌∙◌, ap, contains, contains_iff,
}
use goalrail.LocalRun.Types.{WorktreeEntry, WorktreeObservation, reserved_escalation_path}
use goalrail.LocalRun.Delta.{
  entry_eq, entry_at, paths_of, changed_between, is_violation, path_in_scope, compare_worktrees,
}

entry_eq_iff : (a b : WorktreeEntry) → (entry_eq a b ≡ true) ↔ (a ≡ b)
unfolding entry_eq
entry_eq_iff a b =
    ground (arith, eq_iff a.path b.path, eq_iff a.status b.status, eq_iff a.digest b.digest)

Elem-paths_of :
    (es : List WorktreeEntry) (keys : List String) (p : String)
    → Elem p (paths_of es keys) ↔ (((e : WorktreeEntry) × Elem e es × (e.path ≡ p)) ⊎ Elem p keys)
unfolding paths_of
Elem-paths_of [] keys p = (λ m. inr m, λ h. elim h [ inl (e, m, _) ↦ absurd m | inr m ↦ m ])
Elem-paths_of (x ∷ es) keys p =
    let step = Elem-add_key x.path (paths_of es keys) p in
    let rest = Elem-paths_of es keys p in
    (
      λ m. elim (step.0 m) [
        | inl same ↦ inl (x, inl refl, sym same)
        | inr later ↦ elim (rest.0 later) [ inl (e, n, s) ↦ inl (e, inr n, s) | inr n ↦ inr n ]
      ],
      λ h. elim h [
        | inl (e, inl same, s) ↦ step.1 (inl (sym s ∙ ap (λ y. y.path) same))
        | inl (e, inr n, s) ↦ step.1 (inr (rest.1 (inl (e, n, s))))
        | inr n ↦ step.1 (inr (rest.1 (inr n)))
      ],
    )

-- A path that no entry has is the zero entry's.
entry_at-absent :
    (es : List WorktreeEntry) (p : String)
    → ((e : WorktreeEntry) × Elem e es × (e.path ≡ p) → ⊥)
    → entry_at es p ≡ record { path = ""; status = ""; mode = 0; digest = "" }
unfolding entry_at
entry_at-absent es p h = elim (Option-cases (find_last (λ e. e.path == p) es)) [
  | inl no_ ↦ rw (no_, entry_at) refl
  | inr (e, found) ↦
      let (m, same) = find_last-eq-some (λ x. x.path == p) es e found in
      absurd (h (e, m, (eq_iff e.path p).0 same))
]

changed_between_iff :
    (baseline terminal : WorktreeObservation) (path : String)
    → (changed_between baseline terminal path ≡ true)
      ↔ (entry_at baseline.entries path ≢ entry_at terminal.entries path)
unfolding changed_between
changed_between_iff baseline terminal path =
    ground (arith, entry_eq_iff (entry_at baseline.entries path) (entry_at terminal.entries path))

-- The keys that the loop goes through, with the test that it makes.
Elem-changed :
    (baseline terminal : WorktreeObservation) (path : String)
    → Elem path (
        keep
          (changed_between baseline terminal)
          (paths_of baseline.entries (paths_of terminal.entries [])))
      ↔ (entry_at baseline.entries path ≢ entry_at terminal.entries path)
Elem-changed baseline terminal path =
    let keys : List String = paths_of baseline.entries (paths_of terminal.entries []) in
    let kept = Elem-keep (changed_between baseline terminal) keys path in
    let exact = changed_between_iff baseline terminal path in
    let both = Elem-paths_of baseline.entries (paths_of terminal.entries []) path in
    let second = Elem-paths_of terminal.entries [] path in
    (
      λ m. exact.0 (kept.0 m).1,
      λ differ. elim (Bool-cases (contains keys path)) [
        | inl seen ↦ kept.1 ((contains_iff keys path).0 seen, exact.1 differ)
        | inr unseen ↦
            let nowhere : Elem path keys → ⊥ = λ m. ground (arith, (contains_iff keys path).1 m) in
            let first : entry_at baseline.entries path ≡ _ =
              entry_at-absent baseline.entries path (λ h. nowhere (both.1 (inl h))) in
            let last : entry_at terminal.entries path ≡ _ =
              entry_at-absent terminal.entries path
                (λ h. nowhere (both.1 (inr (second.1 (inl h))))) in
            absurd (differ (first ∙ sym last))
      ],
    )

-- A path is a changed one exactly where the two observations have different entries for it.
pub compare_worktrees-changed_iff :
    (baseline terminal : WorktreeObservation) (scope : List String) (path : String)
    → Elem path (compare_worktrees baseline terminal scope).changed_paths
      ↔ (entry_at baseline.entries path ≢ entry_at terminal.entries path)
unfolding compare_worktrees
compare_worktrees-changed_iff baseline terminal scope path =
    let keys : List String =
      keep (changed_between baseline terminal)
        (paths_of baseline.entries (paths_of terminal.entries [])) in
    let sorted = Elem-sort_by text_lt keys path in
    let exact = Elem-changed baseline terminal path in
    (λ m. exact.0 (sorted.0 m), λ d. sorted.1 (exact.1 d))

is_violation_iff :
    (scope : List String) (path : String)
    → (is_violation scope path ≡ true)
      ↔ ((path ≢ reserved_escalation_path) × (path_in_scope path scope ≡ false))
unfolding is_violation
is_violation_iff scope path = ground (arith, eq_iff path reserved_escalation_path)

-- A path is a scope violation exactly where the two observations have different entries for it, it is
-- not the reserved path, and it is outside the scope.
pub compare_worktrees-violations_iff :
    (baseline terminal : WorktreeObservation) (scope : List String) (path : String)
    → Elem path (compare_worktrees baseline terminal scope).scope_violations ↔ (
        (entry_at baseline.entries path ≢ entry_at terminal.entries path)
        × (path ≢ reserved_escalation_path)
        × (path_in_scope path scope ≡ false))
unfolding compare_worktrees
compare_worktrees-violations_iff baseline terminal scope path =
    let keys : List String =
      keep (changed_between baseline terminal)
        (paths_of baseline.entries (paths_of terminal.entries [])) in
    let sorted = Elem-sort_by text_lt (keep (is_violation scope) keys) path in
    let kept = Elem-keep (is_violation scope) keys path in
    let exact = Elem-changed baseline terminal path in
    let test = is_violation_iff scope path in
    (
      λ m. let (n, t) = kept.0 (sorted.0 m) in let (a, b) = test.0 t in (exact.0 n, a, b),
      λ (d, a, b). sorted.1 (kept.1 (exact.1 d, test.1 (a, b))),
    )
