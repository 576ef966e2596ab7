-- ===== src/Project/Block/Holds.antt =====
-- A plan that is not refused leaves the desired block in the file.
use goalrail.Base.{
  String, Bool, true, false, List, [], ◌++◌, some, ◌≡◌, ◌≢◌, inl, inr, ap, sym, ◌∙◌, arith,
  Bool-cases, Option-cases, append-nil,
}
use goalrail.Project.Block.{
  Bytes, bytes_equal, first_bytes, rest_bytes, plan_managed_block, plan_existing, plan_replacement,
  block_range, BlockRange, block_bytes, block_refused,
}
use goalrail.Project.Block.Preserved.{bytes_equal-eq, block_bytes-split}
use goalrail.Project.Block.Delimited.{block_range-ordered}

plan_replacement-holds :
    (path : String) (current desired : Bytes) (discard : Bool) (known_previous : List Bytes)
    (r : BlockRange)
    → block_range current ≡ some r
    → (plan_replacement path current desired discard known_previous r).action ≢ block_refused
    → (plan_replacement path current desired discard known_previous r).content
      ≡ first_bytes r.start_index current ++ (desired ++ rest_bytes r.end_index current)
unfolding plan_replacement
plan_replacement-holds path current desired discard known_previous r found h =
    let split : first_bytes r.start_index current
          ++ (block_bytes current r ++ rest_bytes r.end_index current)
        ≡ current =
      block_bytes-split current r (block_range-ordered current r found) in
    elim (Bool-cases (bytes_equal (block_bytes current r) desired)) [
      | inl e ↦
          let same : block_bytes current r ≡ desired =
            bytes_equal-eq (block_bytes current r) desired e in
          let unchanged : (plan_replacement path current desired discard known_previous r).content
              ≡ current =
            ground arith in
          unchanged
          ∙ sym split
          ∙ ap (λ b. first_bytes r.start_index current ++ (b ++ rest_bytes r.end_index current))
              same
      | inr n ↦ ground arith
    ]

plan_existing-holds :
    (path : String) (current desired : Bytes) (discard : Bool) (known_previous : List Bytes)
    → (plan_existing path current desired discard known_previous).action ≢ block_refused
    → (r : BlockRange) × ((plan_existing path current desired discard known_previous).content
        ≡ first_bytes r.start_index current ++ (desired ++ rest_bytes r.end_index current))
unfolding plan_existing
plan_existing-holds path current desired discard known_previous h =
    elim (Option-cases (block_range current)) [
      | inl n ↦ absurd (ground arith)
      | inr (r, e) ↦
          let holds = plan_replacement-holds path current desired discard known_previous r e in
          (r, ground arith)
    ]

-- A plan that is not refused, whether it creates the file, updates it or leaves it as it is, has a
-- content in which the desired bytes stand.
pub plan_managed_block-holds :
    (path : String) (current desired : Bytes) (exists_ discard : Bool) (known_previous : List Bytes)
    → (plan_managed_block path current exists_ desired discard known_previous).action
      ≢ block_refused
    → (before : Bytes) × (rest : Bytes) × ((plan_managed_block path current exists_ desired discard
          known_previous).content
        ≡ before ++ (desired ++ rest))
unfolding plan_managed_block
plan_managed_block-holds path current desired false discard known_previous h =
    ([], [], sym (append-nil desired))
plan_managed_block-holds path current desired true discard known_previous h =
    let (r, holds) = plan_existing-holds path current desired discard known_previous h in
    (first_bytes r.start_index current, rest_bytes r.end_index current, holds)
