-- ===== src/Project/Block/Delimited.antt =====
-- The block that is found stands between its markers.
use goalrail.Base.{
  ltb, true, false, ℕ, zero, suc, ◌+◌, ◌-◌, ◌≤◌, [], ◌∷◌, ◌++◌, some, ◌≡◌, inl, inr, refl, ap, sym,
  ◌∙◌, arith, Option-cases, Bool-cases, subst, length, all, ◌⊎◌,
}
use goalrail.Project.Block.{
  bytes_of, Bytes, has_prefix, first_bytes, rest_bytes, index_of, block_range, block_stop,
  BlockRange, managed_block_start_prefix, managed_block_end, block_bytes,
}
use goalrail.Project.Block.Slices.{
  first_bytes-rest_bytes, rest_bytes-rest_bytes, first_bytes-add, has_prefix-eq,
  index_of-has_prefix, no_start_within,
}

-- The start marker behind its first byte.
abbrev start_tail : Bytes
start_tail = bytes_of "!-- goalrail:managed-start schema=goalrail.agent-bootstrap/v1 digest="

abbrev end_tail : Bytes
end_tail = bytes_of "!-- goalrail:managed-end -->"

-- No end marker starts within the start marker.
no_end_within :
    (d : ℕ) (rest : Bytes)
    → suc d ≤ length managed_block_start_prefix
    → has_prefix (rest_bytes d (managed_block_start_prefix ++ rest)) managed_block_end ≡ false
unfolding has_prefix rest_bytes all
no_end_within zero rest h = refl
no_end_within (suc d) rest h = no_start_within 60 end_tail start_tail rest d refl (omega arith)

-- The markers of the block that is found, in order.
record IsFound (current : Bytes) (r : BlockRange) : Type 0 where
  end_marker : ℕ
  starts : has_prefix (rest_bytes r.start_index current) managed_block_start_prefix ≡ true
  ends : has_prefix (rest_bytes end_marker current) managed_block_end ≡ true
  ordered : r.start_index ≤ end_marker
  stops : r.end_index ≡ block_stop current end_marker

block_range-IsFound :
    (current : Bytes) (r : BlockRange) → block_range current ≡ some r → IsFound current r
unfolding block_range
block_range-IsFound current r h =
    elim (Option-cases (index_of managed_block_start_prefix current)) [
      | inl none_ ↦ absurd (ground arith)
      | inr (start, e) ↦ elim (Option-cases (index_of (10 ∷ []) (rest_bytes start current))) [
        | inl none_ ↦ absurd (ground arith)
        | inr (line_end, f) ↦ elim (Option-cases (index_of managed_block_end current)) [
          | inl none_ ↦ absurd (ground arith)
          | inr (end_, g) ↦
              let begins : start ≡ r.start_index = ground arith in
              record {
                end_marker = end_;
                starts =
                    subst (λ k. has_prefix (rest_bytes k current) managed_block_start_prefix ≡ true)
                      begins (index_of-has_prefix managed_block_start_prefix current start e);
                ends = index_of-has_prefix managed_block_end current end_ g;
                ordered = ground arith;
                stops = ground arith;
              }
        ]
      ]
    ]

-- The end marker stands behind the whole start marker.
IsFound-apart :
    (current : Bytes) (r : BlockRange) (f : IsFound current r)
    → r.start_index + length managed_block_start_prefix ≤ f.end_marker
IsFound-apart current r f =
    let opening : Bytes = rest_bytes r.start_index current in
    let d : ℕ = f.end_marker - r.start_index in
    let at_end : r.start_index + d ≡ f.end_marker = let o = f.ordered in omega arith in
    let rest : Bytes = rest_bytes (length managed_block_start_prefix) opening in
    let split : managed_block_start_prefix ++ rest ≡ opening =
      ap (λ ys. ys ++ rest) (sym (has_prefix-eq opening managed_block_start_prefix f.starts))
      ∙ first_bytes-rest_bytes (length managed_block_start_prefix) opening in
    let there : has_prefix (rest_bytes d (managed_block_start_prefix ++ rest)) managed_block_end
        ≡ true =
      ap (λ ys. has_prefix (rest_bytes d ys) managed_block_end) split
      ∙ ap (λ ys. has_prefix ys managed_block_end) (rest_bytes-rest_bytes r.start_index d current)
      ∙ ap (λ k. has_prefix (rest_bytes k current) managed_block_end) at_end
      ∙ f.ends in
    elim (Bool-cases (ltb d (length managed_block_start_prefix))) [
      | inr far ↦ let far_ : length managed_block_start_prefix ≤ d = ground arith in omega arith
      | inl near ↦
          let near_ : suc d ≤ length managed_block_start_prefix = ground arith in
          let never = no_end_within d rest near_ in absurd (ground arith)
    ]

-- The stop is behind the end marker, and behind a line feed that follows it.
block_stop-cases :
    (current : Bytes) (n : ℕ)
    → ((has_prefix (rest_bytes (n + length managed_block_end) current) (10 ∷ []) ≡ true)
        × (block_stop current n ≡ (n + length managed_block_end) + 1))
      ⊎ ((has_prefix (rest_bytes (n + length managed_block_end) current) (10 ∷ []) ≡ false)
          × (block_stop current n ≡ (n + length managed_block_end) + 0))
unfolding block_stop
block_stop-cases current n = ground arith

-- The bytes of the block: the start marker, some bytes, the end marker and `extra` bytes.
block_bytes-eq :
    (current : Bytes) (r : BlockRange) (f : IsFound current r) (extra : ℕ)
    → r.end_index ≡ (f.end_marker + length managed_block_end) + extra
    → (inside : Bytes) × (block_bytes current r
        ≡ managed_block_start_prefix
          ++ (inside
              ++ (managed_block_end
                  ++ first_bytes extra
                      (rest_bytes (f.end_marker + length managed_block_end) current))))
block_bytes-eq current r f extra stop =
    let m : ℕ = length managed_block_start_prefix in
    let n : ℕ = length managed_block_end in
    let opening : Bytes = rest_bytes r.start_index current in
    let gap : ℕ = f.end_marker - (r.start_index + m) in
    let apart : r.start_index + m ≤ f.end_marker = IsFound-apart current r f in
    let inside : Bytes = first_bytes gap (rest_bytes m opening) in
    let width : r.end_index - r.start_index ≡ m + (gap + (n + extra)) = omega arith in
    let at_end : (r.start_index + m) + gap ≡ f.end_marker = omega arith in
    let closing : Bytes = rest_bytes f.end_marker current in
    let to_closing : rest_bytes gap (rest_bytes m opening) ≡ closing =
      ap (λ ys. rest_bytes gap ys) (rest_bytes-rest_bytes r.start_index m current)
      ∙ rest_bytes-rest_bytes (r.start_index + m) gap current
      ∙ ap (λ k. rest_bytes k current) at_end in
    let last : first_bytes (n + extra) closing
        ≡ managed_block_end ++ first_bytes extra (rest_bytes (f.end_marker + n) current) =
      first_bytes-add n extra closing
      ∙ ap (λ ys. ys ++ first_bytes extra (rest_bytes n closing))
          (has_prefix-eq closing managed_block_end f.ends)
      ∙ ap (λ ys. managed_block_end ++ first_bytes extra ys)
          (rest_bytes-rest_bytes f.end_marker n current) in
    (
      inside,
      ap (λ k. first_bytes k opening) width
          ∙ first_bytes-add m (gap + (n + extra)) opening
          ∙ ap (λ ys. ys ++ first_bytes (gap + (n + extra)) (rest_bytes m opening))
              (has_prefix-eq opening managed_block_start_prefix f.starts)
          ∙ ap (λ ys. managed_block_start_prefix ++ ys)
              (first_bytes-add gap (n + extra) (rest_bytes m opening)
                ∙ ap (λ ys. inside ++ first_bytes (n + extra) ys) to_closing
                ∙ ap (λ ys. inside ++ ys) last),
    )

-- A block: the start marker, some bytes, the end marker, and the line feed if one follows.
pub record IsBlock (existing rest : Bytes) : Type 0 where
  pub inside : Bytes
  pub ending : Bytes
  pub delimited : existing ≡ managed_block_start_prefix ++ (inside ++ (managed_block_end ++ ending))
  pub ends : (ending ≡ 10 ∷ []) ⊎ ((ending ≡ []) × (has_prefix rest (10 ∷ []) ≡ false))

pub block_range-IsBlock :
    (current : Bytes) (r : BlockRange)
    → block_range current ≡ some r
    → IsBlock (block_bytes current r) (rest_bytes r.end_index current)
unfolding first_bytes
block_range-IsBlock current r h =
    let f = block_range-IsFound current r h in
    elim (block_stop-cases current f.end_marker) [
      | inl (feed, stop) ↦
          let (inside, same) = block_bytes-eq current r f 1 (f.stops ∙ stop) in
          record {
            inside = inside;
            ending = first_bytes 1 (rest_bytes (f.end_marker + length managed_block_end) current);
            delimited = same;
            ends = inl (has_prefix-eq _ (10 ∷ []) feed);
          }
      | inr (other, stop) ↦
          let (inside, same) = block_bytes-eq current r f 0 (f.stops ∙ stop) in
          let here : f.end_marker + length managed_block_end ≡ r.end_index =
            let e : r.end_index ≡ (f.end_marker + length managed_block_end) + 0 = f.stops ∙ stop in
            omega arith in
          record {
            inside = inside;
            ending = [];
            delimited = same;
            ends =
                inr (
                  refl,
                  subst (λ k. has_prefix (rest_bytes k current) (10 ∷ []) ≡ false) here other,
                );
          }
    ]

pub block_range-ordered :
    (current : Bytes) (r : BlockRange) → block_range current ≡ some r → r.start_index ≤ r.end_index
block_range-ordered current r h =
    let f = block_range-IsFound current r h in
    let a = f.ordered in
    let b = f.stops in
    elim (block_stop-cases current f.end_marker) [
      | inl (_, stop) ↦ omega arith
      | inr (_, stop) ↦ omega arith
    ]
