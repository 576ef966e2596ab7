-- ===== src/LocalRun/Action.antt =====
-- A call on the state directory: it ends with a value or an error, and what was written stays
-- written. The errors are the sentinels of internal/localrun and one for every other error.
use goalrail.Base.{
  String, Bool, List, Option, none, some, ◌≡◌, refl, arith, if◌then◌else◌, ap, ◌⊎◌, false, inr,
  Bool-cases, inl, true,
}

pub data RunError : Type 0 where
  activation_required legacy_work_spec_authority launch_already_claimed : RunError
  terminal_receipt_exists escalation_artifact_present announcement_undeliverable : RunError
  state_already_exists state_not_found : RunError
  failed_with : String → RunError

pub data Result (A : Type 0) : Type 0 where
  ok : A → Result A
  err : RunError → Result A

-- The files below the state root: the key of each is its cleaned path relative to the root. The
-- first entry of a key is the file's content.
abbrev pub Files : Type 0 → Type 0
Files Bytes = List (String × Bytes)

abbrev pub Action : Type 0 → Type 0 → Type 0
Action Bytes A = Files Bytes → Result A × Files Bytes

-- `if errors.Is(err, ErrStateAlreadyExists) { return other }`
abbrev pub rename : RunError → RunError → RunError
rename other e = elim e [ state_already_exists ↦ other | x ↦ x ]

module _ {Bytes A : Type 0} where
  abbrev pub pure : A → Action Bytes A
  pure a s = (ok a, s)

  abbrev pub raise : RunError → Action Bytes A
  raise e s = (err e, s)

  -- `if errors.Is(err, ErrStateNotFound)`: nothing is there.
  abbrev pub found : Result A × Files Bytes → Result (Option A) × Files Bytes
  found (ok a, s) = (ok (some a), s)
  found (err e, s) = elim e [ state_not_found ↦ (ok none, s) | x ↦ (err x, s) ]

  abbrev pub optional : Action Bytes A → Action Bytes (Option A)
  optional m s = found (m s)

  abbrev pub renamed : RunError → Result A × Files Bytes → Result A × Files Bytes
  renamed other (ok a, s) = (ok a, s)
  renamed other (err e, s) = (err (rename other e), s)

  abbrev pub if_exists : RunError → Action Bytes A → Action Bytes A
  if_exists other m s = renamed other (m s)

  abbrev pub or_raise : RunError → Option A → Action Bytes A
  or_raise e none = raise e
  or_raise e (some a) = pure a

abbrev pub continue_with :
    {Bytes A B : Type 0} → (A → Action Bytes B) → Result A × Files Bytes → Result B × Files Bytes
continue_with f (ok a, s) = f a s
continue_with f (err e, s) = (err e, s)

infixl 5 ◌>>=◌ ◌>>◌
abbrev pub ◌>>=◌ : {Bytes A B : Type 0} → Action Bytes A → (A → Action Bytes B) → Action Bytes B
◌>>=◌ m f s = continue_with f (m s)

abbrev pub ◌>>◌ : {Bytes A B : Type 0} → Action Bytes A → Action Bytes B → Action Bytes B
m >> k = m >>= λ _. k

abbrev pub raise_if : {Bytes : Type 0} → Bool → RunError → Action Bytes (Unit {0})
raise_if c e s = (if c then err e else ok tt, s)

module _ {Bytes A : Type 0} where
  -- A call that ended with a value went through each of its parts.
  pub >>=-eq-ok :
      {B : Type 0} (m : Action Bytes A) (f : A → Action Bytes B) (s : Files Bytes) {b : B}
      {s' : Files Bytes}
      → (m >>= f) s ≡ (ok b, s')
      → (a : A) × (t : Files Bytes) × (m s ≡ (ok a, t)) × (f a t ≡ (ok b, s'))
  >>=-eq-ok {B} m f s {b} {s'} h = ended (m s) refl
    where
      ended :
          (p : Result A × Files Bytes)
          → m s ≡ p
          → (a : A) × (t : Files Bytes) × (m s ≡ (ok a, t)) × (f a t ≡ (ok b, s'))
      ended (ok a, t) e = (a, t, e, ground arith)
      ended (err x, t) e = absurd (ground arith)

  pub >>=-err :
      {B : Type 0} (m : Action Bytes A) (f : A → Action Bytes B) (s : Files Bytes) {e : RunError}
      {t : Files Bytes}
      → m s ≡ (err e, t)
      → (m >>= f) s ≡ (err e, t)
  >>=-err m f s h = ap (continue_with f) h

  pub if_exists-eq-ok :
      (other : RunError) (m : Action Bytes A) (s : Files Bytes) {a : A} {t : Files Bytes}
      → if_exists other m s ≡ (ok a, t)
      → m s ≡ (ok a, t)
  if_exists-eq-ok other m s {a} {t} h = ended (m s) h
    where
      ended : (p : Result A × Files Bytes) → renamed other p ≡ (ok a, t) → p ≡ (ok a, t)
      ended (ok b, u) e = e
      ended (err x, u) e = ground arith

  pub if_exists-err :
      (other : RunError) (m : Action Bytes A) (s : Files Bytes) {e : RunError} {t : Files Bytes}
      → m s ≡ (err e, t)
      → (x : RunError) × (if_exists other m s ≡ (err x, t))
  if_exists-err other m s {e} h = (rename other e, ap (renamed other) h)

  pub or_raise-eq-ok :
      (e : RunError) (o : Option A) (s : Files Bytes) {a : A} {t : Files Bytes}
      → or_raise e o s ≡ (ok a, t)
      → (o ≡ some a) × (s ≡ t)
  or_raise-eq-ok e none s h = absurd (ground arith)
  or_raise-eq-ok e (some a) s h = ground arith

  -- A call that was optional has read what is there, or nothing was.
  pub optional-eq-ok :
      (m : Action Bytes A) (s : Files Bytes) {o : Option A} {t : Files Bytes}
      → optional m s ≡ (ok o, t)
      → ((o ≡ none) × (m s ≡ (err state_not_found, t)))
        ⊎ ((a : A) × (o ≡ some a) × (m s ≡ (ok a, t)))
  optional-eq-ok m s {o} {t} h = ended (m s) h
    where
      ended :
          (p : Result A × Files Bytes)
          → found p ≡ (ok o, t)
          → ((o ≡ none) × (p ≡ (err state_not_found, t)))
            ⊎ ((a : A) × (o ≡ some a) × (p ≡ (ok a, t)))
      ended (ok a, u) e = inr (a, ground arith, ground arith)
      ended (err x, u) e = ground arith

-- A guard that let the call go on.
pub raise_if-eq-ok :
    {Bytes : Type 0} (c : Bool) (e : RunError) (s : Files Bytes) {u : Unit {0}} {t : Files Bytes}
    → raise_if c e s ≡ (ok u, t)
    → (c ≡ false) × (s ≡ t)
raise_if-eq-ok c e s h = elim (Bool-cases c) [
  | inl yes_ ↦ absurd (ground arith)
  | inr no_ ↦ ground arith
]

module _ {Bytes A : Type 0} where
  pub guarded-eq-ok :
      (c : Bool) (e : RunError) (m : Action Bytes A) (s : Files Bytes) {a : A} {t : Files Bytes}
      → (raise_if c e >> m) s ≡ (ok a, t)
      → (c ≡ false) × (m s ≡ (ok a, t))
  guarded-eq-ok true e m s h = absurd (ground arith)
  guarded-eq-ok false e m s h = (refl, h)

  pub pure-eq-ok : (a b : A) (s t : Files Bytes) → pure a s ≡ (ok b, t) → (a ≡ b) × (s ≡ t)
  pure-eq-ok a b s t h = ground arith

  pub optional_same :
      (m : Action Bytes A) (s : Files Bytes) {r : Result (Option A)} {t : Files Bytes}
      → (m s).1 ≡ s
      → optional m s ≡ (r, t)
      → s ≡ t
  optional_same m s {r} {t} same h = ended (m s) same h
    where
      ended : (p : Result A × Files Bytes) → p.1 ≡ s → found p ≡ (r, t) → s ≡ t
      ended (ok a, u) e g = ground arith
      ended (err x, u) e g = ground arith
