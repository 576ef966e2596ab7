-- ===== src/LocalRun/Store/Written.antt =====
-- What a write that succeeded has done, and what it leaves for reads and for other writes.
use goalrail.LocalRun.Store.Once.{Extends}
use goalrail.Base.{
  refl, String, false, some, ◌≡◌, arith, Option-cases, Bool-cases, eq_refl, inl, inr, ◌∙◌, ap, none,
  Bool, ◌∷◌, true,
}
use goalrail.LocalRun.Action.{
  Files, ok, err, state_already_exists, RunError, failed_with, Result, state_not_found,
}
use goalrail.LocalRun.Store.{
  Disk, Json, find_file, write_bytes_once, read_bytes, read_json, write_json_once, store_path,
}

module _ {Bytes A : Type 0} (json : Json A Bytes) (relative : String) where
  -- The file holds the value.
  abbrev pub Holds : A → Files Bytes → Type 0
  Holds a s =
      (key : String) × (store_path relative ≡ some key) × (find_file key s ≡ some (json.encode a))

  pub write_json_once-Holds :
      (disk : Disk) (a : A) (s t : Files Bytes)
      → write_json_once json disk relative a s ≡ (ok tt, t)
      → Holds a t
  unfolding write_json_once write_bytes_once find_file
  write_json_once-Holds disk a s t h = elim (Option-cases (store_path relative)) [
    | inl bad ↦ absurd (ground arith)
    | inr (key, e) ↦ elim (Option-cases (find_file key s)) [
      | inl free ↦ (key, e, ground (arith, eq_refl key))
      | inr (existing, f) ↦ absurd (ground arith)
    ]
  ]

  -- A file that is there is not written again.
  pub write_json_once_taken :
      (disk : Disk) (a b : A) (s : Files Bytes)
      → Holds a s
      → (e : RunError) × (write_json_once json disk relative b s ≡ (err e, s))
  unfolding write_json_once write_bytes_once
  write_json_once_taken disk a b s (key, e, f) = elim (Bool-cases (disk.refuses key)) [
    | inl refused ↦ (failed_with "publish state", ground arith)
    | inr free ↦ (state_already_exists, ground arith)
  ]

  pub write_json_once_exists :
      (disk : Disk) (a b : A) (s : Files Bytes) (key : String)
      → Holds a s
      → store_path relative ≡ some key
      → disk.refuses key ≡ false
      → write_json_once json disk relative b s ≡ (err state_already_exists, s)
  unfolding write_json_once write_bytes_once
  write_json_once_exists disk a b s key (k, e, f) g free = ground arith

  pub read_json-Holds :
      (disk : Disk) (a : A) (s : Files Bytes) (key : String)
      → Holds a s
      → store_path relative ≡ some key
      → disk.unreadable key ≡ false
      → read_json json disk relative s ≡ (ok a, s)
  unfolding read_json read_bytes
  read_json-Holds disk a s key (k, e, f) g readable =
      let got : read_bytes disk relative s ≡ (ok (json.encode a), s) = ground arith in
      rw (got, json.decode-encode a)

  -- The file decodes to the value.
  abbrev pub Reads : A → Files Bytes → Type 0
  Reads a s =
      (key : String) × (content : Bytes) × (store_path relative ≡ some key)
      × (find_file key s ≡ some content)
      × (json.decode content ≡ some a)

  pub Reads-Extends : (a : A) (s t : Files Bytes) → Reads a s → Extends s t → Reads a t
  Reads-Extends a s t (key, content, e, f, d) g = (key, content, e, g key content f, d)

  pub Holds-Reads : (a : A) (s : Files Bytes) → Holds a s → Reads a s
  Holds-Reads a s (key, e, f) = (key, json.encode a, e, f, json.decode-encode a)

  pub read_json-Reads :
      (disk : Disk) (a : A) (s : Files Bytes)
      → ((key : String) → disk.unreadable key ≡ false)
      → Reads a s
      → read_json json disk relative s ≡ (ok a, s)
  unfolding read_json read_bytes
  read_json-Reads disk a s readable (key, content, e, f, d) =
      let seen : disk.unreadable key ≡ false = readable key in
      let got : read_bytes disk relative s ≡ (ok content, s) = ground arith in rw (got, d)

  pub read_json-eq-ok :
      (disk : Disk) (a : A) (s t : Files Bytes)
      → read_json json disk relative s ≡ (ok a, t)
      → Reads a s × (s ≡ t)
  unfolding read_json read_bytes
  read_json-eq-ok disk a s t h = elim (Option-cases (store_path relative)) [
    | inl bad ↦ absurd (ground arith)
    | inr (key, e) ↦ elim (Option-cases (find_file key s)) [
      | inl free ↦ absurd (ground arith)
      | inr (content, f) ↦ elim (Option-cases (json.decode content)) [
        | inl undecoded ↦ absurd (ground arith)
        | inr (value, d) ↦
            let got : read_bytes disk relative s ≡ (ok content, s) = ground arith in
            let ended : ◌≡◌ {A = Result A × Files Bytes} (ok value, s) (ok a, t) =
              rw (got, d) at h in
            let same : value ≡ a = ground arith in
            ((key, content, e, f, d ∙ ap some same), ground arith)
      ]
    ]
  ]

-- Reads and writes of one file on a disk that serves it.
module _ {Bytes : Type 0} (disk : Disk) (relative key : String) where
  pub read_bytes_absent :
      (s : Files Bytes)
      → store_path relative ≡ some key
      → disk.unreadable key ≡ false
      → find_file key s ≡ none
      → read_bytes disk relative s ≡ (err state_not_found, s)
  unfolding read_bytes
  read_bytes_absent s e readable f = ground arith

  pub read_bytes_there :
      (c : Bytes) (s : Files Bytes)
      → store_path relative ≡ some key
      → disk.unreadable key ≡ false
      → find_file key s ≡ some c
      → read_bytes disk relative s ≡ (ok c, s)
  unfolding read_bytes
  read_bytes_there c s e readable f = ground arith

  pub read_json_absent :
      {A : Type 0} (json : Json A Bytes) (s : Files Bytes)
      → store_path relative ≡ some key
      → disk.unreadable key ≡ false
      → find_file key s ≡ none
      → read_json json disk relative s ≡ (err state_not_found, s)
  unfolding read_json
  read_json_absent json s e readable f = rw (read_bytes_absent s e readable f) refl

  pub write_bytes_once_new :
      (same : Bytes → Bytes → Bool) (c : Bytes) (allow : Bool) (s : Files Bytes)
      → store_path relative ≡ some key
      → disk.refuses key ≡ false
      → find_file key s ≡ none
      → write_bytes_once disk same relative c allow s ≡ (ok tt, (key, c) ∷ s)
  unfolding write_bytes_once
  write_bytes_once_new same c allow s e serves f = ground arith

  pub write_bytes_once_again :
      (same : Bytes → Bytes → Bool) (c : Bytes) (s : Files Bytes)
      → store_path relative ≡ some key
      → disk.refuses key ≡ false
      → disk.unreadable key ≡ false
      → find_file key s ≡ some c
      → same c c ≡ true
      → write_bytes_once disk same relative c true s ≡ (ok tt, s)
  unfolding write_bytes_once
  write_bytes_once_again same c s e serves readable f equal = ground arith

  pub write_json_once_new :
      {A : Type 0} (json : Json A Bytes) (a : A) (s : Files Bytes)
      → store_path relative ≡ some key
      → disk.refuses key ≡ false
      → find_file key s ≡ none
      → write_json_once json disk relative a s ≡ (ok tt, (key, json.encode a) ∷ s)
  unfolding write_json_once
  write_json_once_new json a s e serves f =
      write_bytes_once_new (λ _ _. false) (json.encode a) false s e serves f
