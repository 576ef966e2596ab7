-- ===== src/LocalRun/Finish/Final.antt =====
-- What a Finish that succeeded has checked and written.
use goalrail.Base.{
  Option, none, some, ◌≡◌, sym, not, true, false, arith, String, is_none, subst, refl,
}
use goalrail.LocalRun.Types.{
  TerminalReceipt, WorktreeObservation, EscalationRecord, ProviderObservation,
}
use goalrail.LocalRun.Action.{
  Files, ok, Action, >>=-eq-ok, guarded-eq-ok, or_raise-eq-ok, pure-eq-ok, or_raise, raise_if, pure,
  ◌>>◌, ◌>>=◌, failed_with, if_exists, if_exists-eq-ok, terminal_receipt_exists,
}
use goalrail.LocalRun.Store.{run_path, write_json_once}
use goalrail.LocalRun.Store.Written.{Holds, write_json_once-Holds}
use goalrail.LocalRun.Checks.{Tally, normalize_check_results}
use goalrail.LocalRun.Validate.{validate_terminal_receipt}
use goalrail.LocalRun.Host.{Host, FinishCall}
use goalrail.LocalRun.Inspect.{PreparedRun, RunInspection, inspect_run, inspect_prepared}
use goalrail.LocalRun.Inspect.Opens.{inspect_prepared-digest}
use goalrail.LocalRun.Start.{is_awaiting}
use goalrail.LocalRun.Finish.{
  FinishInput, AwaitingRun, finish, finished_receipt, awaiting_run, left_by, publish_receipt,
}

module _ {Bytes : Type 0} (host : Host Bytes) (call : FinishCall) where
  pub publish_receipt-eq-ok :
      (run_id : String) (r q : TerminalReceipt) (s t : Files Bytes)
      → publish_receipt host call run_id r s ≡ (ok q, t)
      → (r ≡ q)
        × (validate_terminal_receipt r ≡ true)
        × Holds host.receipts (run_path run_id "terminal-receipt.json") r t
  unfolding publish_receipt
  publish_receipt-eq-ok run_id r q s t h =
      let path : String = run_path run_id "terminal-receipt.json" in
      let write : Action Bytes (Unit {0}) = write_json_once host.receipts call.disk path r in
      let (valid, h0) =
        guarded-eq-ok (not (validate_terminal_receipt r)) (failed_with "invalid terminal receipt")
          (if_exists terminal_receipt_exists write >> pure r) s h in
      let (_, u, wrote, h1) =
        >>=-eq-ok (if_exists terminal_receipt_exists write) (λ _. pure r) s h0 in
      let (same, stay) = pure-eq-ok r q u t h1 in
      let held : Holds host.receipts path r u =
        write_json_once-Holds host.receipts path call.disk r s u
          (if_exists-eq-ok terminal_receipt_exists write s wrote) in
      (same, ground arith, subst (Holds host.receipts path r) stay held)

  -- The run that a Finish goes on from, as its inspection has it.
  pub awaiting_run-eq-ok :
      (run_id : String) (w : AwaitingRun Bytes) (s t : Files Bytes)
      → awaiting_run host call run_id s ≡ (ok w, t)
      → (i : RunInspection) × (u : Files Bytes) × (inspect_run host call.disk run_id s ≡ (ok i, u))
        × (i.claim ≡ w.claim)
        × (i.observation ≡ some w.observation)
        × (i.receipt ≡ none)
        × (is_awaiting w.observation ≡ true)
        × (w.run.work_spec.digest ≡ w.claim.work_spec_digest)
  unfolding awaiting_run
  awaiting_run-eq-ok run_id w s t h =
      let view : RunInspection → ProviderObservation → PreparedRun Bytes → AwaitingRun Bytes =
        λ i o run. record { claim = i.claim; observation = o; run = run } in
      let opening : RunInspection → ProviderObservation → Action Bytes (AwaitingRun Bytes) = λ i o.
        inspect_prepared host call.disk i.claim.work_spec_digest >>= λ run. pure (view i o run) in
      let waiting : RunInspection → ProviderObservation → Action Bytes (AwaitingRun Bytes) = λ i o.
        raise_if (not (is_awaiting o)) (failed_with "run is not awaiting verification")
        >> opening i o in
      let observed : RunInspection → Action Bytes (AwaitingRun Bytes) =
        λ i. or_raise (failed_with "no provider observation") i.observation >>= waiting i in
      let (i, s1, got, h1) =
        >>=-eq-ok (inspect_run host call.disk run_id)
          (λ i. raise_if (not (is_none i.receipt)) terminal_receipt_exists >> observed i) s h in
      let (free, h2) =
        guarded-eq-ok (not (is_none i.receipt)) terminal_receipt_exists (observed i) s1 h1 in
      let (o, s2, seen, h3) =
        >>=-eq-ok (or_raise (failed_with "no provider observation") i.observation) (waiting i) s1
          h2 in
      let (awaits, h4) =
        guarded-eq-ok (not (is_awaiting o)) (failed_with "run is not awaiting verification")
          (opening i o) s2 h3 in
      let (run, s3, found, h5) =
        >>=-eq-ok (inspect_prepared host call.disk i.claim.work_spec_digest)
          (λ run. pure (view i o run)) s2 h4 in
      let (same, stay) = pure-eq-ok (view i o run) w s3 t h5 in
      let digest : run.work_spec.digest ≡ i.claim.work_spec_digest =
        inspect_prepared-digest host call.disk i.claim.work_spec_digest run s2 s3 found in
      let there : i.observation ≡ some o =
        (or_raise-eq-ok (failed_with "no provider observation") i.observation s1 seen).0 in
      let nothing : i.receipt ≡ none = is_none-eq-none i.receipt free in
      let waits : is_awaiting o ≡ true = ground arith in
      subst
        (λ x.
          (j : RunInspection) × (u : Files Bytes) × (inspect_run host call.disk run_id s
            ≡ (ok j, u))
          × (j.claim ≡ x.claim)
          × (j.observation ≡ some x.observation)
          × (j.receipt ≡ none)
          × (is_awaiting x.observation ≡ true)
          × (x.run.work_spec.digest ≡ x.claim.work_spec_digest))
        same (i, s1, got, refl, there, nothing, waits, digest)
    where
      is_none-eq-none : (o : Option TerminalReceipt) → not (is_none o) ≡ false → o ≡ none
      is_none-eq-none none e = refl
      is_none-eq-none (some r) e = cc

  -- The parts of a Finish that succeeded.
  pub finish-eq-ok :
      (input : FinishInput) (r : TerminalReceipt) (s t : Files Bytes)
      → finish host call input s ≡ (ok r, t)
      → (w : AwaitingRun Bytes) × (tally : Tally) × (terminal : WorktreeObservation)
        × (escalation : Option EscalationRecord) × (s1 : Files Bytes) × (s2 : Files Bytes)
        × (awaiting_run host call input.run_id s ≡ (ok w, s1))
        × (normalize_check_results host.is_evidence_reference w.run.work_spec.spec.checks
              input.results
            ≡ some tally)
        × (left_by host call input.run_id s1 ≡ (ok (terminal, escalation), s2))
        × (finished_receipt host call w tally terminal escalation ≡ r)
        × (validate_terminal_receipt r ≡ true)
        × Holds host.receipts (run_path input.run_id "terminal-receipt.json") r t
  unfolding finish
  finish-eq-ok input r s t h =
      let results : AwaitingRun Bytes → Option Tally = λ w.
        normalize_check_results host.is_evidence_reference w.run.work_spec.spec.checks
          input.results in
      let publish : AwaitingRun Bytes
          → Tally
          → WorktreeObservation × Option EscalationRecord
          → Action Bytes TerminalReceipt =
        λ w tally left.
          publish_receipt host call input.run_id
            (finished_receipt host call w tally left.0 left.1) in
      let leaving : AwaitingRun Bytes → Tally → Action Bytes TerminalReceipt =
        λ w tally. left_by host call input.run_id >>= publish w tally in
      let (w, s1, waiting, h1) =
        >>=-eq-ok (awaiting_run host call input.run_id)
          (λ w. or_raise (failed_with "check results") (results w) >>= leaving w) s h in
      let (tally, s2, tallied, h2) =
        >>=-eq-ok (or_raise (failed_with "check results") (results w)) (leaving w) s1 h1 in
      let (made, stay) = or_raise-eq-ok (failed_with "check results") (results w) s1 tallied in
      let (left, s3, got, h3) =
        >>=-eq-ok (left_by host call input.run_id) (publish w tally) s2 h2 in
      let receipt : TerminalReceipt = finished_receipt host call w tally left.0 left.1 in
      let (same, valid, held) = publish_receipt-eq-ok input.run_id receipt r s3 t h3 in
      (
        w,
        tally,
        left.0,
        left.1,
        s1,
        s3,
        waiting,
        made,
        subst (λ x. left_by host call input.run_id x ≡ (ok left, s3)) (sym stay) got,
        same,
        subst (λ x. validate_terminal_receipt x ≡ true) same valid,
        subst (λ x. Holds host.receipts (run_path input.run_id "terminal-receipt.json") x t) same
            held,
      )
