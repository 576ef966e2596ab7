-- ===== src/Project/Block/Preserved.antt =====
-- An update replaces the block between the markers and keeps every other byte.
use goalrail.Base.{
  String, Bool, true, false, ◌+◌, ◌-◌, ◌≤◌, List, [], ◌∷◌, ◌++◌, some, ◌≡◌, ◌⊎◌, inl, inr, refl, ap,
  sym, ◌∙◌, arith, Elem, any, any-eq-true, Option-cases, subst,
}
use goalrail.Project.Block.Delimited.{IsBlock, block_range-IsBlock, block_range-ordered}
use goalrail.Project.Block.Slices.{first_bytes-rest_bytes, rest_bytes-rest_bytes}
use goalrail.Project.Block.{
  count_from, managed_block_start_prefix, managed_block_end, Bytes, bytes_equal, first_bytes,
  rest_bytes, plan_managed_block, plan_existing, plan_replacement, block_range, BlockRange,
  block_bytes, block_updated,
}

pub bytes_equal-eq : (xs ys : Bytes) → bytes_equal xs ys ≡ true → xs ≡ ys
unfolding bytes_equal
bytes_equal-eq [] [] h = refl
bytes_equal-eq [] (y ∷ ys) h = absurd (ground arith)
bytes_equal-eq (x ∷ xs) [] h = absurd (ground arith)
bytes_equal-eq (x ∷ xs) (y ∷ ys) h = ground (arith, bytes_equal-eq xs ys)

-- The file is the bytes before the block, the block, and the bytes after it.
pub block_bytes-split :
    (current : Bytes) (r : BlockRange)
    → r.start_index ≤ r.end_index
    → first_bytes r.start_index current ++ (block_bytes current r ++ rest_bytes r.end_index current)
      ≡ current
block_bytes-split current r ordered =
    let width : r.start_index + (r.end_index - r.start_index) ≡ r.end_index = omega arith in
    let last : rest_bytes (r.end_index - r.start_index) (rest_bytes r.start_index current)
        ≡ rest_bytes r.end_index current =
      rest_bytes-rest_bytes r.start_index (r.end_index - r.start_index) current
      ∙ ap (λ n. rest_bytes n current) width in
    ap (λ ys. first_bytes r.start_index current ++ (block_bytes current r ++ ys)) (sym last)
    ∙ ap (λ ys. first_bytes r.start_index current ++ ys)
        (first_bytes-rest_bytes (r.end_index - r.start_index) (rest_bytes r.start_index current))
    ∙ first_bytes-rest_bytes r.start_index current

plan_replacement-updated :
    (path : String) (current desired : Bytes) (discard : Bool) (known_previous : List Bytes)
    (r : BlockRange)
    → (plan_replacement path current desired discard known_previous r).action ≡ block_updated
    → ((plan_replacement path current desired discard known_previous r).content
        ≡ first_bytes r.start_index current ++ (desired ++ rest_bytes r.end_index current))
      × (count_from 0 managed_block_start_prefix
            (plan_replacement path current desired discard known_previous r).content
          ≡ 1)
      × ((any (λ previous. bytes_equal (block_bytes current r) previous) known_previous ≡ true)
          ⊎ (discard ≡ true))
unfolding plan_replacement
plan_replacement-updated path current desired discard known_previous r h = ground arith

plan_existing-updated :
    (path : String) (current desired : Bytes) (discard : Bool) (known_previous : List Bytes)
    → (plan_existing path current desired discard known_previous).action ≡ block_updated
    → (r : BlockRange) × (block_range current ≡ some r)
      × (count_from 0 managed_block_start_prefix current ≡ 1)
      × (count_from 0 managed_block_end current ≡ 1)
      × (plan_existing path current desired discard known_previous
          ≡ plan_replacement path current desired discard known_previous r)
unfolding plan_existing
plan_existing-updated path current desired discard known_previous h =
    elim (Option-cases (block_range current)) [
      | inl n ↦ absurd (ground arith)
      | inr (r, e) ↦ (r, e, ground arith, ground arith, ground arith)
    ]

-- What an update is: the file is the bytes `before`, a block and the bytes `rest`, and holds each
-- marker once; the content is the same with the desired bytes as the block, and holds the start
-- marker once.
pub record IsReplaced (current desired content existing : Bytes) : Type 0 where
  pub before : Bytes
  pub rest : Bytes
  pub whole : current ≡ before ++ (existing ++ rest)
  pub block : IsBlock existing rest
  pub one_start : count_from 0 managed_block_start_prefix current ≡ 1
  pub one_end : count_from 0 managed_block_end current ≡ 1
  pub replaced : content ≡ before ++ (desired ++ rest)
  pub still_one : count_from 0 managed_block_start_prefix content ≡ 1

-- An update of a file finds in it one block, from the one start marker to the one end marker and the
-- line feed that follows, if one does. It puts the desired bytes in its place, so that the file still
-- has one start marker, and keeps every byte before and after it. The block is one of the retained
-- ones, unless the call may discard it.
pub plan_managed_block-updated :
    (path : String) (current desired : Bytes) (exists_ discard : Bool) (known_previous : List Bytes)
    → (plan_managed_block path current exists_ desired discard known_previous).action
      ≡ block_updated
    → (existing : Bytes) × IsReplaced current desired
        (plan_managed_block path current exists_ desired discard known_previous).content
        existing
      × (Elem existing known_previous ⊎ (discard ≡ true))
unfolding plan_managed_block
plan_managed_block-updated path current desired false discard known_previous h = absurd cc
plan_managed_block-updated path current desired true discard known_previous h =
    let (r, found, starts, ends, same) =
      plan_existing-updated path current desired discard known_previous h in
    let (content, still, known) =
      plan_replacement-updated path current desired discard known_previous r
        (ap (λ p. p.action) (sym same) ∙ h) in
    (
      block_bytes current r,
      record {
        before = first_bytes r.start_index current;
        rest = rest_bytes r.end_index current;
        whole = sym (block_bytes-split current r (block_range-ordered current r found));
        block = block_range-IsBlock current r found;
        one_start = starts;
        one_end = ends;
        replaced = ap (λ p. p.content) same ∙ content;
        still_one = ap (λ p. count_from 0 managed_block_start_prefix p.content) same ∙ still;
      },
      elim known [
        | inl k ↦
            let (previous, m, e) =
              any-eq-true (λ previous. bytes_equal (block_bytes current r) previous) known_previous
                k in
            inl (
              subst (λ b. Elem b known_previous)
                (sym (bytes_equal-eq (block_bytes current r) previous e)) m)
        | inr d ↦ inr d
      ],
    )
