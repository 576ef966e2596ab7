-- ===== src/Admission/Policy/Keys.antt =====
-- The keys of a map that a loop fills, as `uniqueStrings` of internal/admission/evaluate.go has them.
use goalrail.Base.{
  ◌≡◌, ◌≢◌, eq_iff, List, [], ◌∷◌, String, Elem, ◌↔◌, ◌⊎◌, arith, Elem-add_key, add_key,
}
use goalrail.Admission.Policy.{add_keys, change_paths}
use goalrail.Admission.Types.{ChangedPath}

pub Elem-add_keys :
    (xs ks : List String) (x : String) → Elem x (add_keys xs ks) ↔ (Elem x xs ⊎ Elem x ks)
unfolding add_keys
Elem-add_keys [] ks x = ground arith
Elem-add_keys (y ∷ ys) ks x = ground (arith, Elem-add_keys ys (add_key y ks) x, Elem-add_key y ks x)

-- The path is the new path of the change, or the previous one that a rename has.
abbrev pub IsNamed : ChangedPath → String → Type 0
IsNamed change path = (path ≡ change.path) ⊎ ((path ≡ change.previous_path) × (path ≢ ""))

pub change_paths_iff :
    (change : ChangedPath) (path : String) → Elem path (change_paths change) ↔ IsNamed change path
unfolding change_paths
change_paths_iff change path =
    ground (arith, eq_iff change.previous_path "", eq_iff change.previous_path change.path)
