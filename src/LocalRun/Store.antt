-- ===== src/LocalRun/Store.antt =====
-- The store of internal/localrun/store.go: files that are published once, by a hard link, and never
-- replaced. A failure of the file system ends a write or a read with an error.
pub mod Once
pub mod Written
use goalrail.Base.{
  String, Bool, false, [], ◌∷◌, Option, none, some, ◌==◌, ◌&&◌, ◌||◌, if◌then◌else◌, starts_with,
  clean_path, concat, not, trim_prefix, all_chars, nat_eq, ◌≡◌,
}
use goalrail.LocalRun.Action.{
  Action, Files, ok, err, or_raise, ◌>>=◌, failed_with, state_not_found, state_already_exists,
}

-- JSON of one type. `decode` refuses unknown fields and trailing values.
pub record Json (A Bytes : Type 0) : Type 0 where
  pub encode : A → Bytes
  pub decode : Bytes → Option A
  pub decode-encode : (a : A) → decode (encode a) ≡ some a

-- The file system during one call: where a write and where a read fails, by key.
pub record Disk : Type 0 where
  pub refuses : String → Bool
  pub unreadable : String → Bool

-- `Store.path`: `none` is its error.
unfoldable pub store_path : String → Option String
store_path relative =
    let cleaned = clean_path relative in
    if relative == ""
      || (starts_with relative "/" || not (all_chars (λ c. not (nat_eq c 0)) relative))
    then none
    else if cleaned == "." || (cleaned == ".." || starts_with cleaned "../")
    then none
    else some cleaned

-- `filepath.Join` of the fixed names.
unfoldable pub prepared_path : String → String → String
prepared_path digest name =
    clean_path (concat "prepared/" (concat (trim_prefix digest "sha256:") (concat "/" name)))

unfoldable pub run_path : String → String → String
run_path run_id name = clean_path (concat "runs/" (concat run_id (concat "/" name)))

module _ {Bytes : Type 0} where
  unfoldable pub find_file : String → Files Bytes → Option Bytes
  find_file key [] = none
  find_file key ((k, content) ∷ files) = if k == key then some content else find_file key files

  unfoldable pub write_bytes_once :
      Disk → (Bytes → Bytes → Bool) → String → Bytes → Bool → Action Bytes (Unit {0})
  write_bytes_once disk bytes_eq relative content allow_identical files =
      elim (store_path relative) [
        | none ↦ (err (failed_with "invalid state path"), files)
        | some key ↦
            if disk.refuses key
            then (err (failed_with "publish state"), files)
            else elim (find_file key files) [
              | none ↦ (ok tt, (key, content) ∷ files)
              | some existing ↦
                  if allow_identical && disk.unreadable key
                  then (err (failed_with "read existing state"), files)
                  else if allow_identical && bytes_eq existing content
                  then (ok tt, files)
                  else (err state_already_exists, files)
            ]
      ]

  unfoldable pub read_bytes : Disk → String → Action Bytes Bytes
  read_bytes disk relative files = elim (store_path relative) [
    | none ↦ (err (failed_with "invalid state path"), files)
    | some key ↦
        if disk.unreadable key
        then (err (failed_with "read local-run state"), files)
        else elim (find_file key files) [
          | none ↦ (err state_not_found, files)
          | some content ↦ (ok content, files)
        ]
  ]

  -- `WriteJSONOnce` with `allowIdentical` false, as every caller has it.
  unfoldable pub write_json_once :
      {A : Type 0} → Json A Bytes → Disk → String → A → Action Bytes (Unit {0})
  write_json_once json disk relative value =
      write_bytes_once disk (λ _ _. false) relative (json.encode value) false

  unfoldable pub read_json : {A : Type 0} → Json A Bytes → Disk → String → Action Bytes A
  read_json json disk relative = read_bytes disk relative >>= λ content.
      or_raise (failed_with "decode local-run state") (json.decode content)
