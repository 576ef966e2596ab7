-- ===== src/LocalRun/Store/Once.antt =====
-- What was published stays: a call changes the files by publications alone, and these only add files.
use goalrail.Base.{
  Bool-cases, String, Bool, false, ◌∷◌, Option, none, some, ◌≡◌, refl, arith, Option-cases, eq_iff,
  inl, inr, ◌∙◌, subst, sym,
}
use goalrail.LocalRun.Action.{
  Action, Files, Result, ok, err, pure, optional, if_exists, or_raise, raise_if, ◌>>=◌, RunError,
  found, renamed, continue_with,
}
use goalrail.LocalRun.Store.{
  Disk, Json, find_file, write_bytes_once, read_bytes, read_json, write_json_once, store_path,
}

module _ {Bytes : Type 0} where
  -- Each file of the first is in the second, with the same content.
  abbrev pub Extends : Files Bytes → Files Bytes → Type 0
  Extends s t = (key : String) (c : Bytes) → find_file key s ≡ some c → find_file key t ≡ some c

  -- A sequence of publications: each adds a file under a key that has none. The writes of calls that
  -- run at the same time are such a sequence in the order in which they take effect, and so are those
  -- of a part of a call.
  pub data Publications (s : Files Bytes) : Files Bytes → Type 0 where
    nothing_more : Publications s s
    published :
        {t : Files Bytes} (before : Publications s t) (key : String) (content : Bytes)
        → find_file key t ≡ none
        → Publications s ((key, content) ∷ t)

  -- A call that changes the files by publications alone.
  abbrev pub Grows : {A : Type 0} → Action Bytes A → Type 0
  Grows m = (s : Files Bytes) → Publications s (m s).1

  pub Publications-trans :
      {s t u : Files Bytes} → Publications s t → Publications t u → Publications s u
  Publications-trans f nothing_more = f
  Publications-trans f (published g key content free) =
      published (Publications-trans f g) key content free

  pub Extends-trans : (s t u : Files Bytes) → Extends s t → Extends t u → Extends s u
  Extends-trans s t u f g key c h = g key c (f key c h)

  pub Extends-add :
      (key : String) (c : Bytes) (s : Files Bytes)
      → find_file key s ≡ none
      → Extends s ((key, c) ∷ s)
  unfolding find_file
  Extends-add key c s free k d h = ground (arith, eq_iff key k)

  -- Publications keep each file with its content.
  pub Publications-Extends : {s t : Files Bytes} → Publications s t → Extends s t
  Publications-Extends nothing_more = λ key c h. h
  Publications-Extends {s = s} (published {t} g key content free) =
      Extends-trans s t ((key, content) ∷ t) (Publications-Extends g)
        (Extends-add key content t free)

  -- A call that ended in the second state has only added to the first.
  pub Grows-ended :
      {A : Type 0} (m : Action Bytes A) (s : Files Bytes) {r : Result A} {t : Files Bytes}
      → Grows m
      → m s ≡ (r, t)
      → Extends s t
  Grows-ended m s g h = Publications-Extends (subst (λ p. Publications s p.1) h (g s))

  -- A call that leaves the files as they are.
  unchanged-Publications : {s t : Files Bytes} → t ≡ s → Publications s t
  unchanged-Publications {s = s} e = subst (λ x. Publications s x) (sym e) nothing_more

  pub write_bytes_once-Grows :
      (disk : Disk) (same : Bytes → Bytes → Bool) (relative : String) (content : Bytes)
      (allow : Bool)
      → Grows (write_bytes_once disk same relative content allow)
  unfolding write_bytes_once
  write_bytes_once-Grows disk same relative content allow s =
      let written : Files Bytes = (write_bytes_once disk same relative content allow s).1 in
      elim (Option-cases (store_path relative)) [
        | inl bad ↦ unchanged-Publications (ground arith)
        | inr (key, e) ↦ elim (Option-cases (find_file key s)) [
          | inr (existing, f) ↦ unchanged-Publications (ground arith)
          | inl free ↦ elim (Bool-cases (disk.refuses key)) [
            | inl refused ↦ unchanged-Publications (ground arith)
            | inr served ↦
                let added : (key, content) ∷ s ≡ written = ground arith in
                subst (λ t. Publications s t) added (published nothing_more key content free)
          ]
        ]
      ]

  pub read_bytes_same :
      (disk : Disk) (relative : String) (s : Files Bytes) → (read_bytes disk relative s).1 ≡ s
  unfolding read_bytes
  read_bytes_same disk relative s = ground arith

  pub read_bytes-Grows : (disk : Disk) (relative : String) → Grows (read_bytes disk relative)
  read_bytes-Grows disk relative s = unchanged-Publications (read_bytes_same disk relative s)

  pub pure-Grows : {A : Type 0} (a : A) → Grows (pure a)
  pure-Grows a s = nothing_more

  pub raise_if-Grows : (b : Bool) (e : RunError) → Grows (raise_if b e)
  raise_if-Grows b e s = nothing_more

  pub or_raise-Grows : {A : Type 0} (e : RunError) (o : Option A) → Grows (or_raise e o)
  or_raise-Grows e none s = nothing_more
  or_raise-Grows e (some a) s = nothing_more

  or_raise_same :
      {A : Type 0} (e : RunError) (o : Option A) (t : Files Bytes) → (or_raise e o t).1 ≡ t
  or_raise_same e none t = refl
  or_raise_same e (some a) t = refl

module _ {Bytes A : Type 0} where
  continue_with-Publications :
      {B : Type 0} (f : A → Action Bytes B) (s : Files Bytes) (p : Result A × Files Bytes)
      → Publications s p.1
      → ((a : A) → Grows (f a))
      → Publications s (continue_with f p).1
  continue_with-Publications f s (ok a, t) e h = Publications-trans e (h a t)
  continue_with-Publications f s (err x, t) e h = e

  pub >>=-Grows :
      {B : Type 0} (m : Action Bytes A) (f : A → Action Bytes B)
      → Grows m
      → ((a : A) → Grows (f a))
      → Grows (m >>= f)
  >>=-Grows m f g h s = continue_with-Publications f s (m s) (g s) h

  pub optional-Grows : (m : Action Bytes A) → Grows m → Grows (optional m)
  optional-Grows m g s = found_same (m s) (g s)
    where
      found_same : (p : Result A × Files Bytes) → Publications s p.1 → Publications s (found p).1
      found_same (ok a, t) e = e
      found_same (err x, t) e =
          let same : t ≡ (found {A = A} (err x, t)).1 = ground arith in
          subst (λ u. Publications s u) same e

  pub if_exists-Grows :
      (other : RunError) (m : Action Bytes A) → Grows m → Grows (if_exists other m)
  if_exists-Grows other m g s = renamed_same (m s) (g s)
    where
      renamed_same :
          (p : Result A × Files Bytes) → Publications s p.1 → Publications s (renamed other p).1
      renamed_same (ok a, t) e = e
      renamed_same (err x, t) e =
          let same : t ≡ (renamed {A = A} other (err x, t)).1 = ground arith in
          subst (λ u. Publications s u) same e

  pub continue_with_same :
      {B : Type 0} (f : A → Action Bytes B) (s : Files Bytes) (p : Result A × Files Bytes)
      → p.1 ≡ s
      → ((a : A) (t : Files Bytes) → (f a t).1 ≡ t)
      → (continue_with f p).1 ≡ s
  continue_with_same f s (ok a, t) e h = h a t ∙ e
  continue_with_same f s (err x, t) e h = e

module _ {Bytes A : Type 0} where
  pub read_json_same :
      (json : Json A Bytes) (disk : Disk) (relative : String) (s : Files Bytes)
      → (read_json json disk relative s).1 ≡ s
  unfolding read_json
  read_json_same json disk relative s =
      continue_with_same _ s (read_bytes disk relative s) (read_bytes_same disk relative s)
        (λ content t. or_raise_same _ (json.decode content) t)

  pub read_json-Grows :
      (json : Json A Bytes) (disk : Disk) (relative : String) → Grows (read_json json disk relative)
  read_json-Grows json disk relative s =
      unchanged-Publications (read_json_same json disk relative s)

  pub write_json_once-Grows :
      (json : Json A Bytes) (disk : Disk) (relative : String) (a : A)
      → Grows (write_json_once json disk relative a)
  unfolding write_json_once
  write_json_once-Grows json disk relative a =
      write_bytes_once-Grows disk (λ _ _. false) relative (json.encode a) false
