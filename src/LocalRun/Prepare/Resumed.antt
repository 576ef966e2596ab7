-- ===== src/LocalRun/Prepare/Resumed.antt =====
-- A preparation that stopped part of the way is completed by the next one.
use goalrail.Base.{
  String, Bool, true, false, none, some, ◌≡◌, ◌≢◌, ◌⊎◌, inl, inr, refl, arith, eq_iff, eq_refl, ◌∷◌,
}
use goalrail.Domain.{WorkSpec, FrozenWorkSpec, open_frozen_work_spec, is_hex_digest}
use goalrail.LocalRun.Types.{Preparation, WorktreeObservation, prepared}
use goalrail.LocalRun.Action.{Files, ok, err, state_not_found}
use goalrail.LocalRun.Store.{Disk, find_file, store_path, prepared_path, read_bytes, read_json}
use goalrail.LocalRun.Store.Written.{
  Holds, read_bytes_absent, read_bytes_there, read_json_absent, write_bytes_once_new,
  write_json_once_new, write_bytes_once_again,
}
use goalrail.LocalRun.Escalation.{observation_has_escalation}
use goalrail.LocalRun.Host.{Host, PrepareCall}
use goalrail.LocalRun.Inspect.{PreparedRun, inspect_prepared}
use goalrail.LocalRun.Prepare.{
  prepare, admit_work_spec, prepare_frozen, prepare_anew, reuse_or_prepare,
}

find_file_apart :
    {Bytes : Type 0} (j k : String) (c : Bytes) (s : Files Bytes)
    → j ≢ k
    → find_file k s ≡ none
    → find_file k ((j, c) ∷ s) ≡ none
unfolding find_file
find_file_apart j k c s apart f = ground (arith, eq_iff j k)

find_file_first :
    {Bytes : Type 0} (k : String) (c : Bytes) (s : Files Bytes) → find_file k ((k, c) ∷ s) ≡ some c
unfolding find_file
find_file_first k c s = rw (eq_refl k) refl

-- A disk that serves the file.
abbrev pub Serves : Disk → String → Type 0
Serves disk key = (disk.unreadable key ≡ false) × (disk.refuses key ≡ false)

module _ {Bytes : Type 0} (host : Host Bytes) (call : PrepareCall) where
  -- A WorkSpec without a preparation, of which the canonical bytes may have been published.
  abbrev pub IsUnprepared : FrozenWorkSpec Bytes → String → String → Files Bytes → Type 0
  IsUnprepared frozen spec_key preparation_key s =
      (store_path (prepared_path frozen.digest "work-spec.json") ≡ some spec_key)
      × (store_path (prepared_path frozen.digest "preparation.json") ≡ some preparation_key)
      × (spec_key ≢ preparation_key)
      × ((find_file spec_key s ≡ none) ⊎ (find_file spec_key s ≡ some frozen.canonical))
      × (find_file preparation_key s ≡ none)

  inspect_prepared_absent :
      (frozen : FrozenWorkSpec Bytes) (j k : String) (s : Files Bytes)
      → IsUnprepared frozen j k s
      → Serves call.disk j
      → Serves call.disk k
      → is_hex_digest frozen.digest ≡ true
      → open_frozen_work_spec host.specs frozen.canonical frozen.digest ≡ some frozen
      → inspect_prepared host call.disk frozen.digest s ≡ (err state_not_found, s)
  unfolding inspect_prepared
  inspect_prepared_absent frozen j k s (at_j, at_k, apart, spec, free) (read_j, _) (read_k, _) hex
        opens =
      elim spec [
        | inl none_ ↦
            let gone : read_bytes call.disk (prepared_path frozen.digest "work-spec.json") s
                ≡ (err state_not_found, s) =
              read_bytes_absent call.disk _ j s at_j read_j none_ in
            rw (hex, gone) refl
        | inr there ↦
            let got : read_bytes call.disk (prepared_path frozen.digest "work-spec.json") s
                ≡ (ok frozen.canonical, s) =
              read_bytes_there call.disk _ j frozen.canonical s at_j read_j there in
            let gone : read_json host.preparations call.disk
                  (prepared_path frozen.digest "preparation.json") s
                ≡ (err state_not_found, s) =
              read_json_absent call.disk _ k host.preparations s at_k read_k free in
            rw (hex, got, opens, gone) refl
      ]

  prepare_frozen_resumes :
      (frozen : FrozenWorkSpec Bytes) (j k : String) (baseline : WorktreeObservation)
      (s : Files Bytes)
      → IsUnprepared frozen j k s
      → Serves call.disk j
      → Serves call.disk k
      → is_hex_digest frozen.digest ≡ true
      → open_frozen_work_spec host.specs frozen.canonical frozen.digest ≡ some frozen
      → host.specs.bytes_eq frozen.canonical frozen.canonical ≡ true
      → call.baseline ≡ some baseline
      → observation_has_escalation baseline ≡ false
      → (run : PreparedRun Bytes) × (t : Files Bytes) × (prepare_frozen host call frozen s
          ≡ (ok run, t))
        × (run.work_spec ≡ frozen)
        × (run.claim ≡ none)
        × (run.preparation.baseline ≡ baseline)
        × Holds host.preparations (prepared_path frozen.digest "preparation.json") run.preparation t
  unfolding prepare_frozen reuse_or_prepare prepare_anew
  prepare_frozen_resumes frozen j k baseline s un serves_j serves_k hex opens same base calm =
      let (at_j, at_k, apart, spec, free) = un in
      let absent = inspect_prepared_absent frozen j k s un serves_j serves_k hex opens in
      let preparation : Preparation = record {
        work_spec_digest = frozen.digest;
        prepared_at = call.now;
        baseline = baseline;
        state = prepared;
      } in
      let run : PreparedRun Bytes = record {
        work_spec = frozen;
        preparation = preparation;
        claim = none;
        state = prepared;
      } in
      let content : Bytes = host.preparations.encode preparation in
      elim spec [
        | inl none_ ↦
            let first =
              write_bytes_once_new call.disk (prepared_path frozen.digest "work-spec.json") j
                host.specs.bytes_eq frozen.canonical true s at_j serves_j.1 none_ in
            let published : Files Bytes = (j, frozen.canonical) ∷ s in
            let last =
              write_json_once_new call.disk (prepared_path frozen.digest "preparation.json") k
                host.preparations preparation published at_k serves_k.1
                (find_file_apart j k frozen.canonical s apart free) in
            (
              run,
              (k, content) ∷ published,
              rw (absent, base, calm, first, last) refl,
              refl,
              refl,
              refl,
              (k, at_k, find_file_first k content published),
            )
        | inr there ↦
            let first =
              write_bytes_once_again call.disk (prepared_path frozen.digest "work-spec.json") j
                host.specs.bytes_eq frozen.canonical s at_j serves_j.1 serves_j.0 there same in
            let last =
              write_json_once_new call.disk (prepared_path frozen.digest "preparation.json") k
                host.preparations preparation s at_k serves_k.1 free in
            (
              run,
              (k, content) ∷ s,
              rw (absent, base, calm, first, last) refl,
              refl,
              refl,
              refl,
              (k, at_k, find_file_first k content s),
            )
      ]

  -- Where Prepare admits a WorkSpec that has no preparation, whose state paths are valid and differ,
  -- the digest is hexadecimal, the frozen WorkSpec opens again from its canonical bytes and these
  -- bytes compare equal to themselves, a baseline of the worktree is observed with nothing at the
  -- reserved escalation path, and the disk serves the two files, the call ends with a prepared run of
  -- that WorkSpec without a claim, and the preparation with that baseline is stored; also where an
  -- earlier call stopped after it had published the canonical bytes.
  pub prepare_resumes :
      (allow_legacy_fixture : Bool) (raw : Bytes) (spec : WorkSpec) (frozen : FrozenWorkSpec Bytes)
      (j k : String) (baseline : WorktreeObservation) (s : Files Bytes)
      → host.specs.decode_work_spec raw ≡ some spec
      → admit_work_spec host call allow_legacy_fixture spec s ≡ (ok frozen, s)
      → IsUnprepared frozen j k s
      → Serves call.disk j
      → Serves call.disk k
      → is_hex_digest frozen.digest ≡ true
      → open_frozen_work_spec host.specs frozen.canonical frozen.digest ≡ some frozen
      → host.specs.bytes_eq frozen.canonical frozen.canonical ≡ true
      → call.baseline ≡ some baseline
      → observation_has_escalation baseline ≡ false
      → (run : PreparedRun Bytes) × (t : Files Bytes) × (prepare host call allow_legacy_fixture raw
            s
          ≡ (ok run, t))
        × (run.work_spec ≡ frozen)
        × (run.claim ≡ none)
        × (run.preparation.baseline ≡ baseline)
        × Holds host.preparations (prepared_path frozen.digest "preparation.json") run.preparation t
  unfolding prepare
  prepare_resumes allow_legacy_fixture raw spec frozen j k baseline s decoded admitted un serves_j
        serves_k hex opens same base calm =
      let (run, t, done, own, unclaimed, observed, held) =
        prepare_frozen_resumes frozen j k baseline s un serves_j serves_k hex opens same base
          calm in
      (run, t, rw (decoded, admitted, done) refl, own, unclaimed, observed, held)
