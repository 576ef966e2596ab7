-- ===== src/LocalRun/ClaimTests.antt =====
-- The theorems of the local run at a run that is prepared, started, finished and inspected.
use goalrail.LocalRun.Escalation.{observation_has_escalation}
use goalrail.LocalRun.Store.Written.{Holds}
use goalrail.LocalRun.Finish.Recorded.{finish_again, finish-inspect_run, finish-inspected}
use goalrail.LocalRun.Start.Once.{start_once, make_claim_once}
use goalrail.LocalRun.Prepare.Resumed.{IsUnprepared, prepare_resumes}
use goalrail.Domain.{FrozenWorkSpec, is_hex_digest, open_frozen_work_spec}
use goalrail.LocalRun.Inspect.{RunInspection, PreparedRun, inspect_run}
use goalrail.LocalRun.Store.{find_file, prepared_path}
use goalrail.LocalRun.Life.{Reach, next, Reach-find_file, here, by_finish}
use goalrail.Base.{eq_iff, false, true, [], some, ◌≡◌, refl, String, ◌∷◌, inr, none}
use goalrail.LocalRun.Sample.{
  Content, host, prepare_call, start_call, finish_call, adapter, start_input, finish_input,
  work_spec, work_spec_digest, disk, clean_tree,
}
use goalrail.LocalRun.Opened.{run}
use goalrail.LocalRun.Types.{TerminalReceipt, ProviderObservation, passed, LaunchClaim}
use goalrail.LocalRun.Action.{Files, ok, RunError, err, terminal_receipt_exists}
use goalrail.LocalRun.Prepare.{prepare, admit_work_spec}
use goalrail.LocalRun.Store.Once.{published, nothing_more}
use goalrail.LocalRun.Start.{start, StartResult, make_claim, claim_work_spec}
use goalrail.LocalRun.Finish.{finish}
use goalrail.LocalRun.Finish.Passed.{IsClean, finish-IsClean}

abbrev prepared_files : Files Content
prepared_files = (prepare host prepare_call true (Content.of_spec work_spec) []).1

abbrev started_files : Files Content
started_files = (start host start_call (some adapter) start_input prepared_files).1

abbrev sample_claim : LaunchClaim
sample_claim = record {
  work_spec_digest = work_spec_digest;
  run_id = "run-1";
  adapter = "fixture";
  adapter_version = "v0";
  attempted_at = record { instant = 2; zone = 0 };
}

abbrev spec_key : String
spec_key =
    "prepared/00112233445566778899aabbccddeeff00112233445566778899aabbccddeeff/work-spec.json"

abbrev preparation_key : String
preparation_key =
    "prepared/00112233445566778899aabbccddeeff00112233445566778899aabbccddeeff/preparation.json"

finished :
    (r : TerminalReceipt) × (t : Files Content) × (finish host finish_call finish_input
        started_files
      ≡ (ok r, t))
    × (r.status ≡ passed)
unfolding run
finished = (_, _, refl, refl)

finish-IsClean_example : IsClean finish_input finished.0
finish-IsClean_example =
    finish-IsClean host finish_call finish_input finished.0 started_files finished.1 finished.2
      finished.3

started :
    (r : StartResult) × (start host start_call (some adapter) start_input prepared_files
      ≡ (ok r, started_files))
unfolding run
started = (_, refl)

restarted : Reach host started_files (finish host finish_call finish_input started_files).1
restarted = next here (by_finish finish_call finish_input started_files)

Reach-find_file_example :
    find_file "runs/run-1/launch-claim.json" (finish host finish_call finish_input started_files).1
    ≡ some (Content.of_claim sample_claim)
unfolding run
Reach-find_file_example =
    Reach-find_file host started_files (finish host finish_call finish_input started_files).1
      "runs/run-1/launch-claim.json" (Content.of_claim sample_claim)
      (next here (by_finish finish_call finish_input started_files)) refl

start_once_example :
    (e : RunError) × (v : Files Content) × (start host start_call
        (some adapter)
        start_input
        (finish host finish_call finish_input started_files).1
      ≡ (err e, v))
start_once_example =
    start_once host start_call start_call (some adapter) (some adapter) start_input start_input
      prepared_files started_files (finish host finish_call finish_input started_files).1 started.0
      started.1 restarted refl

abbrev claimed_files : Files Content
claimed_files = (claim_work_spec host start_call sample_claim prepared_files).1

written : claim_work_spec host start_call sample_claim prepared_files ≡ (ok tt, claimed_files)
unfolding run
written = refl

-- The first call goes on with its claim of the run while the other call has not yet claimed.
abbrev claimed_run_files : Files Content
claimed_run_files = ("runs/run-1/launch-claim.json", Content.of_claim sample_claim) ∷ claimed_files

no_run_yet : find_file "runs/run-1/launch-claim.json" claimed_files ≡ none
unfolding run
no_run_yet = refl

make_claim_once_example :
    (e : RunError) × (make_claim host start_call
        (record sample_claim { run_id = "run-2" })
        claimed_run_files
      ≡ (err e, claimed_run_files))
make_claim_once_example =
    make_claim_once host start_call start_call sample_claim
      (record sample_claim { run_id = "run-2" }) prepared_files claimed_files claimed_run_files
      written
      (published nothing_more "runs/run-1/launch-claim.json" (Content.of_claim sample_claim)
        no_run_yet)
      refl

finish-inspect_run_example :
    (i : RunInspection) × (inspect_run host disk "run-1" finished.1 ≡ (ok i, finished.1))
    × (i.receipt ≡ some finished.0)
    × (i.state ≡ finished.0.status)
finish-inspect_run_example =
    finish-inspect_run host finish_call disk finish_input finished.0 started_files finished.1
      finished.1 finished.2 here (λ _. refl)

inspected :
    (i : RunInspection) × (o : ProviderObservation) × (inspect_run host disk "run-1" finished.1
      ≡ (ok i, finished.1))
    × (i.observation ≡ some o)
    × (i.receipt ≡ some finished.0)
    × (i.state ≡ finished.0.status)
inspected =
    finish-inspected host finish_call disk finish_input finished.0 started_files finished.1
      finished.1 finished.2 here (λ _. refl)

finish_again_example :
    finish host finish_call finish_input finished.1 ≡ (err terminal_receipt_exists, finished.1)
finish_again_example =
    finish_again host disk finish_call finish_input inspected.0 inspected.1 finished.0 finished.1
      finished.1 finished.1 inspected.2 inspected.3 inspected.4 here (λ _. refl)

abbrev frozen : FrozenWorkSpec Content
frozen = record {
  spec = work_spec;
  canonical = Content.of_spec work_spec;
  digest = work_spec_digest;
}

abbrev half_prepared : Files Content
half_prepared = (spec_key, Content.of_spec work_spec) ∷ []

unprepared : IsUnprepared host prepare_call frozen spec_key preparation_key half_prepared
unfolding run
unprepared = (
  refl,
  refl,
  λ e. let both : false ≡ true = (eq_iff spec_key preparation_key).1 e in cc,
  inr refl,
  refl,
)

admitted :
    admit_work_spec host prepare_call true work_spec half_prepared ≡ (ok frozen, half_prepared)
unfolding run
admitted = refl

opened :
    (is_hex_digest frozen.digest ≡ true)
    × (open_frozen_work_spec host.specs frozen.canonical frozen.digest ≡ some frozen)
    × (host.specs.bytes_eq frozen.canonical frozen.canonical ≡ true)
    × (observation_has_escalation clean_tree ≡ false)
unfolding run
opened = (refl, refl, refl, refl)

prepare_resumes_example :
    (r : PreparedRun Content) × (t : Files Content) × (prepare host prepare_call true
        (Content.of_spec work_spec)
        half_prepared
      ≡ (ok r, t))
    × (r.work_spec ≡ frozen)
    × (r.claim ≡ none)
    × (r.preparation.baseline ≡ clean_tree)
    × Holds host.preparations (prepared_path frozen.digest "preparation.json") r.preparation t
prepare_resumes_example =
    prepare_resumes host prepare_call true (Content.of_spec work_spec) work_spec frozen spec_key
      preparation_key clean_tree half_prepared refl admitted unprepared (refl, refl) (refl, refl)
      opened.0 opened.1 opened.2 refl opened.3
