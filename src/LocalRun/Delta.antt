-- ===== src/LocalRun/Delta.antt =====
-- The difference of two observations: CompareWorktrees and pathInScope of
-- internal/localrun/git_observer.go.
pub mod Exact
use goalrail.Base.{
  String, Bool, List, [], ◌∷◌, some, none, ◌==◌, ◌&&◌, ◌||◌, not, nat_eq, any, keep, find_last,
  add_key, sort_texts, starts_with, concat, clean_path,
}
use goalrail.LocalRun.Types.{
  WorktreeEntry, WorktreeObservation, WorktreeDelta, reserved_escalation_path,
}

-- `==` on two entries.
unfoldable pub entry_eq : WorktreeEntry → WorktreeEntry → Bool
entry_eq a b =
    a.path == b.path && (a.status == b.status && (nat_eq a.mode b.mode && a.digest == b.digest))

-- `before[path]`: the last entry of the path, and the zero entry where there is none.
unfoldable pub entry_at : List WorktreeEntry → String → WorktreeEntry
entry_at entries path = elim (find_last (λ e. e.path == path) entries) [
  | some e ↦ e
  | none ↦ record { path = ""; status = ""; mode = 0; digest = "" }
]

-- The keys of `paths`.
unfoldable pub paths_of : List WorktreeEntry → List String → List String
paths_of [] keys = keys
paths_of (e ∷ es) keys = add_key e.path (paths_of es keys)

unfoldable pub path_in_scope : String → List String → Bool
path_in_scope path scope =
    let cleaned = clean_path path in
    any
      (λ c.
        clean_path c == "."
        || (cleaned == clean_path c || starts_with cleaned (concat (clean_path c) "/")))
      scope

unfoldable pub is_violation : List String → String → Bool
is_violation scope path = not (path == reserved_escalation_path) && not (path_in_scope path scope)

unfoldable pub changed_between : WorktreeObservation → WorktreeObservation → String → Bool
changed_between baseline terminal path =
    not (entry_eq (entry_at baseline.entries path) (entry_at terminal.entries path))

unfoldable pub compare_worktrees :
    WorktreeObservation → WorktreeObservation → List String → WorktreeDelta
compare_worktrees baseline terminal scope =
    let changed =
      keep (changed_between baseline terminal)
        (paths_of baseline.entries (paths_of terminal.entries [])) in
    record {
      baseline_digest = baseline.digest;
      terminal_digest = terminal.digest;
      head_changed = not (baseline.head == terminal.head);
      changed_paths = sort_texts changed;
      scope_violations = sort_texts (keep (is_violation scope) changed);
    }
