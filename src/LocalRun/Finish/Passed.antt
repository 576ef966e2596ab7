-- ===== src/LocalRun/Finish/Passed.antt =====
-- What it takes to pass.
use goalrail.Base.{
  Option, none, some, ◌≡◌, ap, ◌∙◌, true, false, arith, String, List, Elem, is_empty, Elem-empty,
  inl, inr, ◌≢◌, Bool-cases, refl, &&-eq-true, subst,
}
use goalrail.Domain.{WorkSpecCheck, result_pass, is_canonical_id}
use goalrail.LocalRun.Types.{
  TerminalReceipt, WorktreeObservation, EscalationRecord, ProviderObservation, passed,
  identity_verified, IdentityStatus, reserved_escalation_path, WorktreeDelta, identity_other,
  identity_unlinked,
}
use goalrail.LocalRun.Action.{Files, ok}
use goalrail.LocalRun.Checks.{Tally}
use goalrail.LocalRun.Checks.Verdict.{Reports, normalize_check_results-passed_iff}
use goalrail.LocalRun.Delta.{compare_worktrees, path_in_scope}
use goalrail.LocalRun.Delta.Exact.{compare_worktrees-changed_iff, compare_worktrees-violations_iff}
use goalrail.LocalRun.Escalation.{apply_escalation_rules}
use goalrail.LocalRun.Escalation.Ends.{apply_escalation_rules_not_passed}
use goalrail.LocalRun.Validate.{validate_provider_observation, valid_identity}
use goalrail.LocalRun.Receipt.{build_receipt, has_verified_identity}
use goalrail.LocalRun.Host.{Host, FinishCall}
use goalrail.LocalRun.Inspect.{PreparedRun, observation_of, belongs}
use goalrail.LocalRun.Inspect.Parts.{inspect_run-eq-ok}
use goalrail.LocalRun.Start.{is_awaiting}
use goalrail.LocalRun.Finish.{FinishInput, finish, finished_receipt, finished_status, LaunchClaim}
use goalrail.LocalRun.Finish.Final.{finish-eq-ok, awaiting_run-eq-ok}

-- The receipt of a run whose every check passes, whose HEAD stays, whose changes are in the scope or
-- at the reserved path, that left no question and that has a session.
abbrev pub IsClean : FinishInput → TerminalReceipt → Type 0
IsClean input r =
    ((check : WorkSpecCheck) → Elem check r.checks → Reports input.results check result_pass)
    × (r.worktree_delta.head_changed ≡ false)
    × ((path : String)
        → Elem path r.worktree_delta.changed_paths
        → path ≢ reserved_escalation_path
        → path_in_scope path r.effective_paths ≡ true)
    × (r.escalation ≡ none)
    × (is_canonical_id r.root_session_ref ≡ true)

abbrev delta_of : {Bytes : Type 0} → PreparedRun Bytes → WorktreeObservation → WorktreeDelta
delta_of run terminal = compare_worktrees run.preparation.baseline terminal run.work_spec.spec.paths

finished_status-passed :
    {Bytes : Type 0} (run : PreparedRun Bytes) (tally : Tally) (terminal : WorktreeObservation)
    (e : Option EscalationRecord)
    → (finished_status run tally terminal e).0 ≡ passed
    → (tally.status ≡ passed)
      × (e ≡ none)
      × ((delta_of run terminal).head_changed ≡ false)
      × (is_empty (delta_of run terminal).scope_violations ≡ true)
unfolding finished_status apply_escalation_rules
finished_status-passed run tally terminal none h = ground arith
finished_status-passed run tally terminal (some e) h =
    absurd (apply_escalation_rules_not_passed _ _ e _ _ h)

-- A change that is neither in the scope nor at the reserved path is a violation.
no_violation_in_scope :
    (b t : WorktreeObservation) (scope : List String)
    → is_empty (compare_worktrees b t scope).scope_violations ≡ true
    → (path : String) → Elem path (compare_worktrees b t scope).changed_paths
    → path ≢ reserved_escalation_path
    → path_in_scope path scope ≡ true
no_violation_in_scope b t scope h path m apart = elim (Bool-cases (path_in_scope path scope)) [
  | inl inside ↦ inside
  | inr outside ↦ absurd (
      Elem-empty (compare_worktrees b t scope).scope_violations h path (
        (compare_worktrees-violations_iff b t scope path).1
          ((compare_worktrees-changed_iff b t scope path).0 m, apart, outside)))
]

module _ {Bytes : Type 0} (host : Host Bytes) (call : FinishCall) where
  -- An observation that is stored and awaits its checks has a session.
  awaiting_session :
      (o : ProviderObservation)
      → validate_provider_observation o ≡ true
      → is_awaiting o ≡ true
      → (has_verified_identity o.identity_status ≡ true)
        × (is_canonical_id o.root_session_ref ≡ true)
  unfolding validate_provider_observation valid_identity is_awaiting
  awaiting_session o valid awaits = by_status o.identity_status refl
    where
      by_status :
          (q : IdentityStatus)
          → o.identity_status ≡ q
          → (has_verified_identity o.identity_status ≡ true)
            × (is_canonical_id o.root_session_ref ≡ true)
      by_status identity_verified e = ground arith
      by_status identity_unlinked e = ground arith
      by_status (identity_other x) e = ground arith

  observation_of-valid :
      (claim : LaunchClaim) (o : ProviderObservation)
      → observation_of claim o ≡ true
      → validate_provider_observation o ≡ true
  unfolding observation_of
  observation_of-valid claim o h = (&&-eq-true _ _ h).0

  -- A Finish that ends with a receipt of status passed has a result that passes for each check of the
  -- frozen WorkSpec, an unmoved HEAD, no change outside the scope but at the reserved path, no retained
  -- escalation, and the canonical reference of a verified session.
  pub finish-IsClean :
      (input : FinishInput) (r : TerminalReceipt) (s t : Files Bytes)
      → finish host call input s ≡ (ok r, t)
      → r.status ≡ passed
      → IsClean input r
  unfolding finished_receipt build_receipt
  finish-IsClean input r s t h status =
      let (w, tally, terminal, e, s1, s2, waiting, tallied, left, same, _, _) =
        finish-eq-ok host call input r s t h in
      let (i, u, seen, _, there, _, awaits, _) =
        awaiting_run-eq-ok host call input.run_id w s s1 waiting in
      let (_, _, _, own, _, _, _, _) = inspect_run-eq-ok host call.disk input.run_id i s u seen in
      let delta : WorktreeDelta = delta_of w.run terminal in
      let passes : (finished_status w.run tally terminal e).0 ≡ passed =
        ap (λ x. x.status) same ∙ status in
      let (all_pass, no_question, head, inside) =
        finished_status-passed w.run tally terminal e passes in
      let own_ : observation_of i.claim w.observation ≡ true =
        subst (λ o. belongs (observation_of i.claim) o ≡ true) there own in
      let (verified, session) =
        awaiting_session w.observation (observation_of-valid i.claim w.observation own_) awaits in
      subst (IsClean input) same (
        (normalize_check_results-passed_iff host.is_evidence_reference w.run.work_spec.spec.checks
              input.results tally tallied).0
            all_pass,
        head,
        no_violation_in_scope w.run.preparation.baseline terminal w.run.work_spec.spec.paths inside,
        no_question,
        rw verified session,
      )
