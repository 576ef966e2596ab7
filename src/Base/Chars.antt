-- ===== src/Base/Chars.antt =====
-- Texts by their characters: the functions of Go's `strings`, `unicode` and `path/filepath` that
-- look at single code points. A path is read as on Unix, where `ToSlash` and `FromSlash` do nothing.
use Prim.Native.Char.{code}
use Prim.Native.Nat.{ℕ, suc, ◌+◌}
use Prim.Native.String.{String}
use mathlib.Core.Bool.{Bool, true, false, ◌&&◌, ◌||◌}
use mathlib.Core.List.{List, [], ◌∷◌}
use text.Mathlib.Text.{◌==◌, starts_with}
use goalrail.Base.Tests.{ltb, leb, nat_eq, if◌then◌else◌}
use goalrail.Base.Text.{concat}

-- Every character, as a number, passes the test.
unfoldable pub all_chars : (ℕ → Bool) → String → Bool
all_chars p String.[] = true
all_chars p (String.◌∷◌ c s) = p (code c) && all_chars p s

unfoldable pub char_count : String → ℕ
char_count String.[] = 0
char_count (String.◌∷◌ c s) = suc (char_count s)

-- `len` of a string: its bytes in UTF-8.
unfoldable pub byte_length : String → ℕ
byte_length String.[] = 0
byte_length (String.◌∷◌ c s) =
    let width =
      if ltb (code c) 128
      then 1
      else if ltb (code c) 2048
      then 2
      else if ltb (code c) 65536
      then 3
      else 4 in
    width + byte_length s

abbrev pub is_digit : ℕ → Bool
is_digit c = leb 48 c && leb c 57

abbrev pub is_lower : ℕ → Bool
is_lower c = leb 97 c && leb c 122

abbrev pub is_upper : ℕ → Bool
is_upper c = leb 65 c && leb c 90

-- `unicode.IsSpace`
abbrev pub is_space : ℕ → Bool
is_space c =
    (leb 9 c && leb c 13)
    || (nat_eq c 32
        || (nat_eq c 133
            || (nat_eq c 160
                || (nat_eq c 5760
                    || ((leb 8192 c && leb c 8202)
                        || (nat_eq c 8232
                            || (nat_eq c 8233
                                || (nat_eq c 8239 || (nat_eq c 8287 || nat_eq c 12288)))))))))

-- `strings.TrimSpace(s) == ""`
unfoldable pub is_blank : String → Bool
unfolding all_chars
is_blank s = all_chars is_space s

-- `strings.Split(s, "/")`
unfoldable pub split_slash : String → List String
split_slash String.[] = "" ∷ []
split_slash (String.◌∷◌ c s) =
    let rest = split_slash s in
    if nat_eq (code c) 47
    then "" ∷ rest
    else elim rest [ [] ↦ String.◌∷◌ c "" ∷ [] | part ∷ parts ↦ String.◌∷◌ c part ∷ parts ]

unfoldable pub join_slash : List String → String
join_slash [] = ""
join_slash (part ∷ []) = part
join_slash (part ∷ next ∷ parts) = concat part (concat "/" (join_slash (next ∷ parts)))

-- The parts that remain: the last parameter but one holds those so far, the latest first.
unfoldable pub clean_parts : Bool → List String → List String → List String
clean_parts rooted kept [] = backwards [] kept
  where
    backwards : List String → List String → List String
    backwards done [] = done
    backwards done (x ∷ xs) = backwards (x ∷ done) xs
clean_parts rooted kept (part ∷ parts) =
    if part == "" || part == "."
    then clean_parts rooted kept parts
    else if part == ".."
    then clean_parts rooted (climb rooted kept) parts
    else clean_parts rooted (part ∷ kept) parts
  where
    climb : Bool → List String → List String
    climb true [] = []
    climb false [] = ".." ∷ []
    climb r (top ∷ below) = if top == ".." then ".." ∷ top ∷ below else below

-- `filepath.Clean`
unfoldable pub clean_path : String → String
unfolding split_slash join_slash clean_parts
clean_path path =
    let rooted = starts_with path "/" in
    let joined = join_slash (clean_parts rooted [] (split_slash path)) in
    if rooted then concat "/" joined else if joined == "" then "." else joined
