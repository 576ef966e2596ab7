-- ===== src/Base/Sort.antt =====
-- Sets of keys as lists, and sorting.
use Prim.Native.String.{String}
use mathlib.Core.Path.{◌≡◌}
use mathlib.Core.Logic.{◌↔◌, ◌⊎◌, inl, inr}
use mathlib.Core.Bool.{Bool, true}
use mathlib.Core.List.{List, [], ◌∷◌}
use native.Mathlib.Omega.{arith}
use text.Mathlib.Text.{◌==◌}
use text.Mathlib.TextEquality.{eq_iff}
use goalrail.Base.Tests.{if◌then◌else◌, Bool-cases}
use goalrail.Base.Lists.{Elem, any}
use goalrail.Base.Text.{text_lt}

module _ {A : Type 0} (less : A → A → Bool) where
  -- Equal keys keep their order.
  unfoldable pub insert_by : A → List A → List A
  insert_by x [] = x ∷ []
  insert_by x (y ∷ ys) = if less y x then y ∷ insert_by x ys else x ∷ y ∷ ys

  -- `sort.Slice`, as a stable sort.
  unfoldable pub sort_by : List A → List A
  unfolding insert_by
  sort_by [] = []
  sort_by (x ∷ xs) = insert_by x (sort_by xs)

  pub Elem-insert_by :
      (x : A) (ys : List A) (z : A) → Elem z (insert_by x ys) ↔ ((z ≡ x) ⊎ Elem z ys)
  unfolding insert_by
  Elem-insert_by x [] z = ground arith
  Elem-insert_by x (y ∷ ys) z = ground (arith, Elem-insert_by x ys z)

  pub Elem-sort_by : (xs : List A) (z : A) → Elem z (sort_by xs) ↔ Elem z xs
  unfolding sort_by
  Elem-sort_by [] z = ground arith
  Elem-sort_by (x ∷ xs) z = ground (arith, Elem-sort_by xs z, Elem-insert_by x (sort_by xs) z)

-- `contains` of evaluate.go, and the lookup of a key in a map that stands for a set.
unfoldable pub contains : List String → String → Bool
unfolding any
contains xs s = any (λ x. x == s) xs

abbrev pub sort_texts : List String → List String
sort_texts = sort_by text_lt

-- A map's key is stored once.
unfoldable pub add_key : String → List String → List String
unfolding contains
add_key k ks = if contains ks k then ks else k ∷ ks

pub contains_iff : (xs : List String) (s : String) → (contains xs s ≡ true) ↔ Elem s xs
unfolding contains
contains_iff [] s = ground arith
contains_iff (x ∷ xs) s = ground (arith, eq_iff x s, contains_iff xs s)

pub Elem-add_key :
    (k : String) (ks : List String) (x : String) → Elem x (add_key k ks) ↔ ((x ≡ k) ⊎ Elem x ks)
unfolding add_key
Elem-add_key k ks x = elim (Bool-cases (contains ks k)) [
  | inl e ↦ (
    λ m. inr (rw e at m),
    λ h. rw e (elim h [ inl same ↦ rw same ((contains_iff ks k).0 e) | inr m ↦ m ]),
  )
  | inr e ↦ ground arith
]
