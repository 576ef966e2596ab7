-- ===== src/Project/ClaimTests.antt =====
-- The update of a managed block at a file with the owner's text before and after it.
use goalrail.Base.{String, true, false, [], ◌∷◌, ◌++◌, ◌≡◌, ◌≢◌, ◌⊎◌, refl, arith, Elem, any}
use goalrail.Project.Block.{
  Bytes, bytes_of, plan_managed_block, plan_existing, plan_replacement, block_range, block_stop,
  index_of, count_from, has_prefix, bytes_equal, first_bytes, rest_bytes, block_updated,
  block_unchanged, block_refused, managed_block_start_prefix, managed_block_end,
}
use goalrail.Project.Block.Preserved.{IsReplaced, plan_managed_block-updated}
use goalrail.Project.Block.Holds.{plan_managed_block-holds}

abbrev block : String → Bytes
block text = managed_block_start_prefix ++ (bytes_of text ++ (10 ∷ managed_block_end ++ (10 ∷ [])))

abbrev owner_file : Bytes
owner_file = bytes_of "A" ++ (10 ∷ block "1" ++ bytes_of "B")

owner_file_updated :
    (plan_managed_block "AGENTS.md" owner_file true (block "2") false (block "1" ∷ [])).action
    ≡ block_updated
unfolding plan_managed_block plan_existing plan_replacement block_range block_stop index_of
    count_from has_prefix bytes_equal first_bytes rest_bytes any
owner_file_updated = refl

plan_managed_block-updated_example :
    (existing : Bytes) × IsReplaced owner_file
      (block "2")
      (plan_managed_block "AGENTS.md" owner_file true (block "2") false (block "1" ∷ [])).content
      existing
    × (Elem existing (block "1" ∷ []) ⊎ (false ≡ true))
plan_managed_block-updated_example =
    plan_managed_block-updated "AGENTS.md" owner_file (block "2") true false (block "1" ∷ [])
      owner_file_updated

owner_file_unchanged :
    (plan_managed_block "AGENTS.md" owner_file true (block "1") false []).action ≡ block_unchanged
unfolding plan_managed_block plan_existing plan_replacement block_range block_stop index_of
    count_from has_prefix bytes_equal first_bytes rest_bytes any
owner_file_unchanged = refl

owner_file_kept :
    (plan_managed_block "AGENTS.md" owner_file true (block "1") false []).action ≢ block_refused
owner_file_kept e = absurd (ground (arith, owner_file_unchanged))

plan_managed_block-holds_example :
    (before : Bytes) × (rest : Bytes) × ((plan_managed_block "AGENTS.md" owner_file true
        (block "1")
        false
        []).content
      ≡ before ++ (block "1" ++ rest))
plan_managed_block-holds_example =
    plan_managed_block-holds "AGENTS.md" owner_file (block "1") true false [] owner_file_kept
