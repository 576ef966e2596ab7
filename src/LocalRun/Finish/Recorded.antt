-- ===== src/LocalRun/Finish/Recorded.antt =====
-- A receipt, once written, is what every later inspection finds.
use goalrail.Base.{Option, some, ◌≡◌, ap, ◌∙◌, sym, true, false, arith, String, refl, subst, eq_iff}
use goalrail.LocalRun.Types.{TerminalReceipt, ProviderObservation}
use goalrail.LocalRun.Action.{Files, ok, err, terminal_receipt_exists}
use goalrail.LocalRun.Store.{Disk, run_path}
use goalrail.LocalRun.Store.Once.{Extends, Extends-trans, Grows-ended}
use goalrail.LocalRun.Store.Written.{Holds-Reads, Reads-Extends, Reads}
use goalrail.LocalRun.Receipt.{build_receipt}
use goalrail.LocalRun.Host.{Host, FinishCall}
use goalrail.LocalRun.Inspect.{RunInspection, inspect_run, receipt_of, belongs, observation_of}
use goalrail.LocalRun.Inspect.Parts.{inspect_run-eq-ok, inspect_run-Reads, Present}
use goalrail.LocalRun.Finish.{
  FinishInput, finish, finished_receipt, awaiting_run, LaunchClaim, AwaitingRun, Tally,
  WorktreeObservation, EscalationRecord, validate_terminal_receipt,
}
use goalrail.LocalRun.Finish.Final.{finish-eq-ok, awaiting_run-eq-ok}
use goalrail.LocalRun.Retained.{finish-Grows}
use goalrail.LocalRun.Life.{Reach, Reach-Extends}

-- Every file can be read.
abbrev pub IsReadable : Disk → Type 0
IsReadable disk = (key : String) → disk.unreadable key ≡ false

module _ {Bytes : Type 0} (host : Host Bytes) where
  receipt_of_finished :
      (call : FinishCall) (c : LaunchClaim) (w : AwaitingRun Bytes) (tally : Tally)
      (terminal : WorktreeObservation) (e : Option EscalationRecord) (r : TerminalReceipt)
      → c ≡ w.claim
      → w.run.work_spec.digest ≡ w.claim.work_spec_digest
      → finished_receipt host call w tally terminal e ≡ r
      → validate_terminal_receipt r ≡ true
      → receipt_of c r ≡ true
  unfolding receipt_of finished_receipt build_receipt
  receipt_of_finished call c w tally terminal e r claim digest same valid =
      let run_id : r.run_id ≡ c.run_id =
        ap (λ x. x.run_id) (sym same) ∙ ap (λ x. x.run_id) (sym claim) in
      let spec : r.work_spec_digest ≡ c.work_spec_digest =
        ap (λ x. x.work_spec_digest) (sym same)
        ∙ digest
        ∙ ap (λ x. x.work_spec_digest) (sym claim) in
      let adapter : r.adapter ≡ c.adapter =
        ap (λ x. x.adapter) (sym same) ∙ ap (λ x. x.adapter) (sym claim) in
      let version : r.adapter_version ≡ c.adapter_version =
        ap (λ x. x.adapter_version) (sym same) ∙ ap (λ x. x.adapter_version) (sym claim) in
      ground (
        arith,
        eq_iff r.run_id c.run_id,
        eq_iff r.work_spec_digest c.work_spec_digest,
        eq_iff r.adapter c.adapter,
        eq_iff r.adapter_version c.adapter_version,
      )

  -- What an inspection finds once a Finish has ended with a receipt: the run's observation too.
  pub finish-inspected :
      (call : FinishCall) (disk : Disk) (input : FinishInput) (r : TerminalReceipt)
      (s t u : Files Bytes)
      → finish host call input s ≡ (ok r, t)
      → Reach host t u
      → IsReadable disk
      → (i : RunInspection) × (o : ProviderObservation) × (inspect_run host disk input.run_id u
          ≡ (ok i, u))
        × (i.observation ≡ some o)
        × (i.receipt ≡ some r)
        × (i.state ≡ r.status)
  finish-inspected call disk input r s t u h reach readable =
      let (w, tally, terminal, e, s1, s2, waiting, tallied, left, same, valid, held) =
        finish-eq-ok host call input r s t h in
      let (i, v, seen, claim, there, _, _, digest) =
        awaiting_run-eq-ok host call input.run_id w s s1 waiting in
      let (canonical, claim_read, claim_valid, own, observation_read, _, _, _) =
        inspect_run-eq-ok host call.disk input.run_id i s v seen in
      let moved : Extends s u =
        Extends-trans s t u
          (Grows-ended (finish host call input) s (finish-Grows host call input) h)
          (Reach-Extends host reach) in
      let own_ : observation_of i.claim w.observation ≡ true =
        subst (λ o. belongs (observation_of i.claim) o ≡ true) there own in
      let read_ : Reads host.observations (run_path input.run_id "provider-observation.json")
          w.observation s =
        subst
          (λ o. Present host.observations (run_path input.run_id "provider-observation.json") o s)
          there observation_read in
      let mine : receipt_of i.claim r ≡ true =
        receipt_of_finished call i.claim w tally terminal e r claim digest same valid in
      (
        _,
        w.observation,
        inspect_run-Reads host disk input.run_id i.claim w.observation r u readable canonical
            (Reads-Extends host.claims _ i.claim s u claim_read moved) claim_valid own_
            (Reads-Extends host.observations _ w.observation s u read_ moved) mine
            (Reads-Extends host.receipts _ r t u (Holds-Reads host.receipts _ r t held)
              (Reach-Extends host reach)),
        refl,
        refl,
        refl,
      )

  -- After a Finish that ended with a receipt, and any further calls of the service, an inspection of
  -- the run on a readable disk finds that receipt and its status.
  pub finish-inspect_run :
      (call : FinishCall) (disk : Disk) (input : FinishInput) (r : TerminalReceipt)
      (s t u : Files Bytes)
      → finish host call input s ≡ (ok r, t)
      → Reach host t u
      → IsReadable disk
      → (i : RunInspection) × (inspect_run host disk input.run_id u ≡ (ok i, u))
        × (i.receipt ≡ some r)
        × (i.state ≡ r.status)
  finish-inspect_run call disk input r s t u h reach readable =
      let (i, _, seen, _, received, state) =
        finish-inspected call disk input r s t u h reach readable in
      (i, seen, received, state)

  -- Once an inspection of a run has found its provider observation and its receipt, by a Finish or by
  -- a Start that failed, then after any further calls of the service every Finish of that run on a
  -- readable disk is refused because the receipt exists, and writes nothing.
  pub finish_again :
      (disk : Disk) (again : FinishCall) (next : FinishInput) (i : RunInspection)
      (o : ProviderObservation) (r : TerminalReceipt) (s t u : Files Bytes)
      → inspect_run host disk next.run_id s ≡ (ok i, t)
      → i.observation ≡ some o
      → i.receipt ≡ some r
      → Reach host t u
      → IsReadable again.disk
      → finish host again next u ≡ (err terminal_receipt_exists, u)
  unfolding finish awaiting_run
  finish_again disk again next i o r s t u h observed received reach readable =
      let (canonical, claim_read, claim_valid, own, observation_read, mine, receipt_read, same) =
        inspect_run-eq-ok host disk next.run_id i s t h in
      let moved : Extends s u = subst (λ x. Extends x u) (sym same) (Reach-Extends host reach) in
      let own_ : observation_of i.claim o ≡ true =
        subst (λ x. belongs (observation_of i.claim) x ≡ true) observed own in
      let read_ : Reads host.observations (run_path next.run_id "provider-observation.json") o s =
        subst
          (λ x. Present host.observations (run_path next.run_id "provider-observation.json") x s)
          observed observation_read in
      let mine_ : receipt_of i.claim r ≡ true =
        subst (λ x. belongs (receipt_of i.claim) x ≡ true) received mine in
      let there : Reads host.receipts (run_path next.run_id "terminal-receipt.json") r s =
        subst (λ x. Present host.receipts (run_path next.run_id "terminal-receipt.json") x s)
          received receipt_read in
      rw
        (inspect_run-Reads host again.disk next.run_id i.claim o r u readable canonical
          (Reads-Extends host.claims _ i.claim s u claim_read moved) claim_valid own_
          (Reads-Extends host.observations _ o s u read_ moved) mine_
          (Reads-Extends host.receipts _ r s u there moved))
        refl
