-- ===== src/Admission/Ancestry.antt =====
-- `ancestorWithinRange` of internal/admission/evaluate.go: a breadth-first walk along parents inside
-- the frozen commits.
pub mod Parents
pub mod Reach
use goalrail.Base.{
  ℕ, zero, suc, String, Bool, true, false, List, [], ◌∷◌, ◌++◌, ◌==◌, ◌||◌, not, contains, length,
  if◌then◌else◌,
}

-- `seen` is the set, `queue` the slice.
pub record Walk : Type 0 where
  pub seen : List String
  pub queue : List String

-- The inner loop returns at once where it meets the anchor.
pub data Scan : Type 0 where
  hit : Scan
  miss : Walk → Scan

pub data Outcome : Type 0 where
  found exhausted out_of_fuel : Outcome

-- The loop's body behind the test for the anchor: a parent outside the range, or seen, is skipped.
unfoldable pub visit_parent : List String → Walk → String → Walk
visit_parent commits w parent =
    if not (contains commits parent) || contains w.seen parent
    then w
    else record { seen = parent ∷ w.seen; queue = w.queue ++ parent ∷ [] }

module _ (commits : List String) (anchor : String) where
  unfoldable pub scan_parents : List String → Walk → Scan
  scan_parents [] w = miss w
  scan_parents (parent ∷ parents) w =
      let rest = scan_parents parents (visit_parent commits w parent) in
      if parent == anchor then hit else rest

  module _ (commit_parents : String → List String) where
    -- One unit of fuel for each commit that leaves the queue.
    unfoldable pub walk : ℕ → List String → List String → Outcome
    walk fuel seen [] = exhausted
    walk zero seen (current ∷ queue) = out_of_fuel
    walk (suc fuel) seen (current ∷ queue) =
        elim (scan_parents (commit_parents current) (record { seen = seen; queue = queue })) [
          | hit ↦ found
          | miss w ↦ walk fuel w.seen w.queue
        ]

abbrev pub is_found : Outcome → Bool
is_found found = true
is_found exhausted = false
is_found out_of_fuel = false

-- Every commit of the range leaves the queue at most once, and so does the descendant.
unfoldable pub ancestor_outcome : List String → (String → List String) → String → String → Outcome
ancestor_outcome commits commit_parents anchor descendant =
    if contains commits anchor
    then walk commits anchor commit_parents (suc (length commits)) (descendant ∷ [])
        (descendant ∷ [])
    else exhausted

unfoldable pub ancestor_within_range : List String → (String → List String) → String → String → Bool
ancestor_within_range commits commit_parents anchor descendant =
    is_found (ancestor_outcome commits commit_parents anchor descendant)
