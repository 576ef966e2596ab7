-- ===== src/Project/Block/Slices.antt =====
-- Prefixes, searches and slices of bytes.
use goalrail.Base.{
  true, false, ℕ, zero, suc, ◌+◌, ◌≤◌, [], ◌∷◌, ◌++◌, some, ◌≡◌, inl, inr, refl, ap, ◌∙◌, arith,
  Option-cases, Bool-cases, subst, length, not, nat_eq, all,
}
use goalrail.Project.Block.{Bytes, has_prefix, first_bytes, rest_bytes, index_of}

pub first_bytes-rest_bytes : (n : ℕ) (xs : Bytes) → first_bytes n xs ++ rest_bytes n xs ≡ xs
unfolding first_bytes rest_bytes
first_bytes-rest_bytes zero xs = refl
first_bytes-rest_bytes (suc n) [] = refl
first_bytes-rest_bytes (suc n) (x ∷ xs) = ap (λ ys. x ∷ ys) (first_bytes-rest_bytes n xs)

pub rest_bytes-rest_bytes :
    (m n : ℕ) (xs : Bytes) → rest_bytes n (rest_bytes m xs) ≡ rest_bytes (m + n) xs
unfolding rest_bytes
rest_bytes-rest_bytes zero n xs = ap (λ k. rest_bytes k xs) (omega arith)
rest_bytes-rest_bytes (suc m) zero [] =
    let e : suc m ≡ suc m + zero = omega arith in ap (λ k. rest_bytes k []) e
rest_bytes-rest_bytes (suc m) (suc n) [] =
    let e : suc (m + suc n) ≡ suc m + suc n = omega arith in ap (λ k. rest_bytes k []) e
rest_bytes-rest_bytes (suc m) n (x ∷ xs) =
    let e : suc (m + n) ≡ suc m + n = omega arith in
    rest_bytes-rest_bytes m n xs ∙ ap (λ k. rest_bytes k (x ∷ xs)) e

pub first_bytes-add :
    (m n : ℕ) (xs : Bytes)
    → first_bytes (m + n) xs ≡ first_bytes m xs ++ first_bytes n (rest_bytes m xs)
unfolding first_bytes rest_bytes
first_bytes-add zero n xs = let e : zero + n ≡ n = omega arith in ap (λ k. first_bytes k xs) e
first_bytes-add (suc m) zero [] =
    let e : suc m + zero ≡ suc m = omega arith in ap (λ k. first_bytes k []) e
first_bytes-add (suc m) (suc n) [] =
    let e : suc m + suc n ≡ suc (m + suc n) = omega arith in ap (λ k. first_bytes k []) e
first_bytes-add (suc m) n (x ∷ xs) =
    let e : suc m + n ≡ suc (m + n) = omega arith in
    ap (λ k. first_bytes k (x ∷ xs)) e ∙ ap (λ ys. x ∷ ys) (first_bytes-add m n xs)

-- A prefix is what the first bytes are.
pub has_prefix-eq : (xs ps : Bytes) → has_prefix xs ps ≡ true → first_bytes (length ps) xs ≡ ps
unfolding has_prefix first_bytes
has_prefix-eq xs [] h = refl
has_prefix-eq [] (p ∷ ps) h = absurd (ground arith)
has_prefix-eq (x ∷ xs) (p ∷ ps) h = ground (arith, has_prefix-eq xs ps)

-- Where the pattern is found it stands.
pub index_of-has_prefix :
    (pattern_ xs : Bytes) (n : ℕ)
    → index_of pattern_ xs ≡ some n
    → has_prefix (rest_bytes n xs) pattern_ ≡ true
unfolding index_of rest_bytes
index_of-has_prefix pattern_ [] n h = absurd (ground arith)
index_of-has_prefix pattern_ (x ∷ xs) n h = elim (Bool-cases (has_prefix (x ∷ xs) pattern_)) [
  | inl yes_ ↦
      let first : 0 ≡ n = ground arith in
      subst (λ k. has_prefix (rest_bytes k (x ∷ xs)) pattern_ ≡ true) first yes_
  | inr no_ ↦ elim (Option-cases (index_of pattern_ xs)) [
    | inl missing ↦ absurd (ground arith)
    | inr (m, e) ↦
        let later : suc m ≡ n = ground arith in
        subst (λ k. has_prefix (rest_bytes k (x ∷ xs)) pattern_ ≡ true) later
          (index_of-has_prefix pattern_ xs m e)
  ]
]

-- Within bytes of which none is `b`, no pattern that begins with `b` starts.
pub no_start_within :
    (b : ℕ) (pattern_ ys rest : Bytes) (d : ℕ)
    → all (λ y. not (nat_eq y b)) ys ≡ true
    → suc d ≤ length ys
    → has_prefix (rest_bytes d (ys ++ rest)) (b ∷ pattern_) ≡ false
unfolding all has_prefix rest_bytes
no_start_within b pattern_ [] rest d h k = absurd (omega arith)
no_start_within b pattern_ (y ∷ ys) rest zero h k = ground arith
no_start_within b pattern_ (y ∷ ys) rest (suc d) h k =
    no_start_within b pattern_ ys rest d (ground arith) (omega arith)
