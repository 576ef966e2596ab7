-- ===== src/Base/Lists.antt =====
-- Lists: length by native numbers, membership by recursion, and the two loops with an early return.
use Prim.Native.Nat.{ℕ, suc, ◌+◌}
use mathlib.Core.Path.{◌≡◌, refl, subst, ap, sym}
use mathlib.Core.Logic.{◌↔◌, ◌⊎◌, inl, inr}
use mathlib.Core.Bool.{Bool, true, false, ◌&&◌, ◌||◌}
use mathlib.Core.List.{List, [], ◌∷◌, ◌++◌, map}
use mathlib.Core.Option.{Option, none, some}
use native.Mathlib.Omega.{arith}
use goalrail.Base.Tests.{if◌then◌else◌, Bool-cases}

module _ {A : Type 0} where
  abbrev pub length : List A → ℕ
  length [] = 0
  length (x ∷ xs) = suc (length xs)

  abbrev pub Elem : A → List A → Type 0
  Elem a [] = ⊥
  Elem a (x ∷ xs) = (a ≡ x) ⊎ Elem a xs

  -- `for … { if test { return true } } return false`
  unfoldable pub any : (A → Bool) → List A → Bool
  any p [] = false
  any p (x ∷ xs) = p x || any p xs

  -- `for … { if !test { return false } } return true`
  unfoldable pub all : (A → Bool) → List A → Bool
  all p [] = true
  all p (x ∷ xs) = p x && all p xs

  unfoldable pub keep : (A → Bool) → List A → List A
  keep p [] = []
  keep p (x ∷ xs) = if p x then x ∷ keep p xs else keep p xs

  abbrev pub is_empty : List A → Bool
  is_empty [] = true
  is_empty (_ ∷ _) = false

  pub any-eq-true :
      (p : A → Bool) (xs : List A) → any p xs ≡ true → (x : A) × Elem x xs × (p x ≡ true)
  unfolding any
  any-eq-true p [] h = cc
  any-eq-true p (x ∷ xs) h = elim (Bool-cases (p x)) [
    | inl yes_ ↦ (x, inl refl, yes_)
    | inr no_ ↦ let (y, m, e) = any-eq-true p xs (ground arith) in (y, inr m, e)
  ]

  pub any_intro : (p : A → Bool) (xs : List A) (x : A) → Elem x xs → p x ≡ true → any p xs ≡ true
  unfolding any
  any_intro p [] x m h = absurd m
  any_intro p (y ∷ xs) x (inl e) h = rw (← e) (ground arith)
  any_intro p (y ∷ xs) x (inr m) h = ground (arith, any_intro p xs x m h)

  pub all-eq-true :
      (p : A → Bool) (xs : List A) → all p xs ≡ true → (x : A) → Elem x xs → p x ≡ true
  unfolding all
  all-eq-true p [] h x m = absurd m
  all-eq-true p (y ∷ xs) h x (inl e) = rw e (ground arith)
  all-eq-true p (y ∷ xs) h x (inr m) = all-eq-true p xs (ground arith) x m

  pub all_intro :
      (p : A → Bool) (xs : List A) → ((x : A) → Elem x xs → p x ≡ true) → all p xs ≡ true
  unfolding all
  all_intro p [] h = refl
  all_intro p (y ∷ xs) h = ground (arith, h y (inl refl), all_intro p xs (λ x m. h x (inr m)))

  pub Elem-keep :
      (p : A → Bool) (xs : List A) (x : A) → Elem x (keep p xs) ↔ (Elem x xs × (p x ≡ true))
  unfolding keep
  Elem-keep p [] x = ground arith
  Elem-keep p (y ∷ xs) x = ground (arith, Elem-keep p xs x)

  pub Elem-append : (xs ys : List A) (x : A) → Elem x (xs ++ ys) ↔ (Elem x xs ⊎ Elem x ys)
  Elem-append [] ys x = ground arith
  Elem-append (y ∷ xs) ys x = ground (arith, Elem-append xs ys x)

  pub length-append : (xs ys : List A) → length (xs ++ ys) ≡ length xs + length ys
  length-append [] ys = omega arith
  length-append (x ∷ xs) ys = omega (arith, length-append xs ys)

  pub Elem-empty : (xs : List A) → is_empty xs ≡ true → (x : A) → Elem x xs → ⊥
  Elem-empty [] h x m = m
  Elem-empty (y ∷ xs) h x m = cc

  -- The first that passes the test.
  unfoldable pub find_first : (A → Bool) → List A → Option A
  find_first p [] = none
  find_first p (x ∷ xs) = if p x then some x else find_first p xs

  -- The last that passes the test: what a map holds after a loop that stores each entry.
  unfoldable pub find_last : (A → Bool) → List A → Option A
  find_last p [] = none
  find_last p (x ∷ xs) = elim (find_last p xs) [
    | some y ↦ some y
    | none ↦ if p x then some x else none
  ]

  pub is_empty-Elem : (xs : List A) (x : A) → Elem x xs → is_empty xs ≡ false
  is_empty-Elem [] x m = absurd m
  is_empty-Elem (y ∷ ys) x m = refl

  pub nonempty_elem : (xs : List A) → is_empty xs ≡ false → (x : A) × Elem x xs
  nonempty_elem [] h = cc
  nonempty_elem (y ∷ ys) h = (y, inl refl)

  pub is_empty-eq : (xs : List A) → is_empty xs ≡ true → xs ≡ []
  is_empty-eq [] h = refl
  is_empty-eq (x ∷ xs) h = cc

  pub find_last-eq-some :
      (p : A → Bool) (xs : List A) (x : A) → find_last p xs ≡ some x → Elem x xs × (p x ≡ true)
  unfolding find_last
  find_last-eq-some p [] x h = cc
  find_last-eq-some p (y ∷ xs) x h = ground (arith, find_last-eq-some p xs x)

  pub find_first-eq-some :
      (p : A → Bool) (xs : List A) (x : A) → find_first p xs ≡ some x → Elem x xs × (p x ≡ true)
  unfolding find_first
  find_first-eq-some p [] x h = cc
  find_first-eq-some p (y ∷ xs) x h = ground (arith, find_first-eq-some p xs x)

  -- What stands before the first that passes does not pass.
  pub find_first-split :
      (p : A → Bool) (xs : List A) (x : A)
      → find_first p xs ≡ some x
      → (earlier : List A) × (later : List A) × (xs ≡ earlier ++ (x ∷ later))
        × ((y : A) → Elem y earlier → p y ≡ false)
        × (p x ≡ true)
  unfolding find_first
  find_first-split p [] x h = cc
  find_first-split p (y ∷ xs) x h = elim (Bool-cases (p y)) [
    | inl yes_ ↦
        let same : y ≡ x = ground arith in
        ([], xs, ap (λ z. z ∷ xs) same, (λ z m. absurd m), subst (λ z. p z ≡ true) same yes_)
    | inr no_ ↦
        let (earlier, later, split, misses, hit) = find_first-split p xs x (ground arith) in
        (
          y ∷ earlier,
          later,
          ap (λ zs. y ∷ zs) split,
          (λ z m. elim m [ inl e ↦ subst (λ w. p w ≡ false) (sym e) no_ | inr n ↦ misses z n ]),
          hit,
        )
  ]

  pub find_first-eq-none :
      (p : A → Bool) (xs : List A) (x : A) → find_first p xs ≡ none → Elem x xs → p x ≡ false
  unfolding find_first
  find_first-eq-none p [] x h m = absurd m
  find_first-eq-none p (y ∷ xs) x h m = ground (arith, find_first-eq-none p xs x)

pub Elem-map : {A B : Type 0} (f : A → B) (xs : List A) (x : A) → Elem x xs → Elem (f x) (map f xs)
Elem-map f [] x m = m
Elem-map f (y ∷ xs) x m = ground (arith, Elem-map f xs x)

pub map-Elem :
    {A B : Type 0} (f : A → B) (xs : List A) (y : B)
    → Elem y (map f xs)
    → (x : A) × Elem x xs × (y ≡ f x)
map-Elem f [] y m = absurd m
map-Elem f (x ∷ xs) y (inl e) = (x, inl refl, e)
map-Elem f (x ∷ xs) y (inr m) = let (z, n, e) = map-Elem f xs y m in (z, inr n, e)

-- Some element of the list has the property.
abbrev pub Any : {A : Type 0} → (A → Type 0) → List A → Type 0
Any P [] = ⊥
Any P (x ∷ xs) = P x ⊎ Any P xs

pub Any-iff : {A : Type 0} (P : A → Type 0) (xs : List A) → Any P xs ↔ ((x : A) × Elem x xs × P x)
Any-iff {A} P xs = (forward xs, λ (x, m, h). back xs x m h)
  where
    forward : (xs : List A) → Any P xs → (x : A) × Elem x xs × P x
    forward [] h = absurd h
    forward (y ∷ xs) (inl h) = (y, inl refl, h)
    forward (y ∷ xs) (inr h) = let (x, m, p) = forward xs h in (x, inr m, p)

    back : (xs : List A) (x : A) → Elem x xs → P x → Any P xs
    back [] x m h = m
    back (y ∷ xs) x (inl e) h = inl (subst P e h)
    back (y ∷ xs) x (inr m) h = inr (back xs x m h)
