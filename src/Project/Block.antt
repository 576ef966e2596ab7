-- ===== src/Project/Block.antt =====
-- planManagedBlock of internal/project/managed_block.go. A file is the list of its bytes.
pub mod Slices
pub mod Delimited
pub mod Preserved
pub mod Holds
use Prim.Native.Char.{code}
use goalrail.Base.{
  String, Bool, true, false, ℕ, zero, suc, ◌+◌, ◌-◌, List, [], ◌∷◌, ◌++◌, Option, none, some, ◌&&◌,
  ◌||◌, not, nat_eq, ltb, if◌then◌else◌, length, any,
}

abbrev pub Bytes : Type 0
Bytes = List ℕ

-- The bytes of a text of ASCII characters.
abbrev pub bytes_of : String → Bytes
bytes_of String.[] = []
bytes_of (String.◌∷◌ c s) = code c ∷ bytes_of s

-- `bytes.Equal`
unfoldable pub bytes_equal : Bytes → Bytes → Bool
bytes_equal [] [] = true
bytes_equal [] (_ ∷ _) = false
bytes_equal (_ ∷ _) [] = false
bytes_equal (x ∷ xs) (y ∷ ys) = nat_eq x y && bytes_equal xs ys

-- `bytes.HasPrefix`
unfoldable pub has_prefix : Bytes → Bytes → Bool
has_prefix xs [] = true
has_prefix [] (_ ∷ _) = false
has_prefix (x ∷ xs) (p ∷ ps) = nat_eq x p && has_prefix xs ps

-- `xs[:n]` and `xs[n:]`
unfoldable pub first_bytes : ℕ → Bytes → Bytes
first_bytes zero xs = []
first_bytes (suc n) [] = []
first_bytes (suc n) (x ∷ xs) = x ∷ first_bytes n xs

unfoldable pub rest_bytes : ℕ → Bytes → Bytes
rest_bytes zero xs = xs
rest_bytes (suc n) [] = []
rest_bytes (suc n) (x ∷ xs) = rest_bytes n xs

-- `bytes.Index`, `none` for -1, of a pattern that is not empty.
unfoldable pub index_of : Bytes → Bytes → Option ℕ
index_of pattern_ [] = none
index_of pattern_ (x ∷ xs) =
    let later = index_of pattern_ xs in
    if has_prefix (x ∷ xs) pattern_
    then some 0
    else elim later [ none ↦ none | some n ↦ some (suc n) ]

-- `bytes.Count` of a pattern that is not empty: the first parameter counts down the bytes of the
-- occurrence just counted.
unfoldable pub count_from : ℕ → Bytes → Bytes → ℕ
count_from skip pattern_ [] = 0
count_from (suc n) pattern_ (x ∷ xs) = count_from n pattern_ xs
count_from zero pattern_ (x ∷ xs) =
    let inside = count_from (length pattern_ - 1) pattern_ xs in
    let outside = count_from 0 pattern_ xs in
    if has_prefix (x ∷ xs) pattern_ then suc inside else outside

abbrev pub managed_block_start_prefix : Bytes
managed_block_start_prefix =
    bytes_of "<!-- goalrail:managed-start schema=goalrail.agent-bootstrap/v1 digest="

abbrev pub managed_block_end : Bytes
managed_block_end = bytes_of "<!-- goalrail:managed-end -->"

abbrev pub max_owner_instruction_bytes : ℕ
max_owner_instruction_bytes = 131072

pub data ManagedBlockAction : Type 0 where
  block_created block_updated block_unchanged block_refused : ManagedBlockAction

pub record ManagedBlockPlan : Type 0 where
  pub path : String
  pub action : ManagedBlockAction
  pub reason : String
  pub content : Bytes

abbrev pub refused : String → String → ManagedBlockPlan
refused path reason = record { path = path; action = block_refused; reason = reason; content = [] }

-- Where the block stands: its start and the end of its end marker with a line feed that follows.
pub record BlockRange : Type 0 where
  pub start_index : ℕ
  pub end_index : ℕ

-- `end += len(managedBlockEnd)`, and past a line feed.
unfoldable pub block_stop : Bytes → ℕ → ℕ
block_stop current end_ =
    let after_marker = end_ + length managed_block_end in
    if has_prefix (rest_bytes after_marker current) (10 ∷ [])
    then after_marker + 1
    else after_marker

-- The markers are in order, and the start marker's line holds no other.
unfoldable pub block_range : Bytes → Option BlockRange
block_range current = elim (index_of managed_block_start_prefix current) [
  | none ↦ none
  | some start ↦ elim (index_of (10 ∷ []) (rest_bytes start current)) [
    | none ↦ none
    | some line_end ↦ elim (index_of managed_block_end current) [
      | none ↦ none
      | some end_ ↦
          let prefix_length = length managed_block_start_prefix in
          let line =
            first_bytes (line_end - prefix_length) (rest_bytes (start + prefix_length) current) in
          let nested : Bool = elim (index_of (bytes_of "<!--") line) [
            | none ↦ false
            | some _ ↦ true
          ] in
          if ltb end_ start || nested
          then none
          else some (record { start_index = start; end_index = block_stop current end_ })
    ]
  ]
]

abbrev pub block_bytes : Bytes → BlockRange → Bytes
block_bytes current r = first_bytes (r.end_index - r.start_index) (rest_bytes r.start_index current)

-- The replacement of the block.
unfoldable pub plan_replacement :
    String → Bytes → Bytes → Bool → List Bytes → BlockRange → ManagedBlockPlan
plan_replacement path current desired discard known_previous r =
    let existing = block_bytes current r in
    let updated =
      first_bytes r.start_index current ++ (desired ++ rest_bytes r.end_index current) in
    if bytes_equal existing desired
    then record { path = path; action = block_unchanged; reason = ""; content = current }
    else if not (any (λ previous. bytes_equal existing previous) known_previous) && not discard
    then refused path "managed block differs from every retained canon"
    else if not (nat_eq (count_from 0 managed_block_start_prefix updated) 1)
    then refused path "managed block replacement would be ambiguous"
    else record { path = path; action = block_updated; reason = ""; content = updated }

-- A file that is there.
unfoldable pub plan_existing : String → Bytes → Bytes → Bool → List Bytes → ManagedBlockPlan
plan_existing path current desired discard known_previous =
    let starts = count_from 0 managed_block_start_prefix current in
    let ends = count_from 0 managed_block_end current in
    if ltb max_owner_instruction_bytes (length current)
    then refused path "owner instruction file exceeds the managed-block bound"
    else if nat_eq starts 0 && nat_eq ends 0
    then refused path "owner instruction file has no Goalrail managed block"
    else if not (nat_eq starts 1) || not (nat_eq ends 1)
    then refused path "managed block markers are duplicate or malformed"
    else elim (block_range current) [
      | none ↦ refused path "managed block markers are nested or malformed"
      | some r ↦ plan_replacement path current desired discard known_previous r
    ]

unfoldable pub plan_managed_block :
    String → Bytes → Bool → Bytes → Bool → List Bytes → ManagedBlockPlan
plan_managed_block path current false desired discard known_previous = record {
  path = path;
  action = block_created;
  reason = "";
  content = desired;
}
plan_managed_block path current true desired discard known_previous =
    plan_existing path current desired discard known_previous
