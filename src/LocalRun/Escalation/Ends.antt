-- ===== src/LocalRun/Escalation/Ends.antt =====
-- How a run with a retained escalation ends.
use goalrail.Base.{String, true, false, List, some, ◌≡◌, ◌⊎◌, ◌↔◌, ◌≢◌, arith, is_empty, inl, inr}
use goalrail.LocalRun.Types.{
  is_failed, prepared, launch_attempted, awaiting_verification, launch_failed, unlinked,
  launch_attempted_unknown, verification_incomplete, state_other, EscalationRecord, RunState,
  WorktreeDelta, passed, failed, blocked,
}
use goalrail.LocalRun.Escalation.{apply_escalation_rules, has_in_scope_edits}

is_failed_iff : (s : RunState) → (is_failed s ≡ true) ↔ (s ≡ failed)
is_failed_iff failed = ground arith
is_failed_iff prepared = ground arith
is_failed_iff launch_attempted = ground arith
is_failed_iff awaiting_verification = ground arith
is_failed_iff launch_failed = ground arith
is_failed_iff unlinked = ground arith
is_failed_iff launch_attempted_unknown = ground arith
is_failed_iff passed = ground arith
is_failed_iff verification_incomplete = ground arith
is_failed_iff blocked = ground arith
is_failed_iff (state_other x) = ground arith

-- With a retained escalation the status is blocked or failed. It is blocked exactly where the
-- escalation is valid, HEAD has not moved, nothing outside the scope has changed, nothing in the
-- scope has changed, and the status had not failed.
pub apply_escalation_rules-blocked_iff :
    (status : RunState) (reasons : List String) (e : EscalationRecord) (delta : WorktreeDelta)
    (scope : List String)
    → (((apply_escalation_rules status reasons (some e) delta scope).0 ≡ blocked)
        ⊎ ((apply_escalation_rules status reasons (some e) delta scope).0 ≡ failed))
      × (((apply_escalation_rules status reasons (some e) delta scope).0 ≡ blocked) ↔ (
          (e.valid ≡ true)
          × (delta.head_changed ≡ false)
          × (is_empty delta.scope_violations ≡ true)
          × (has_in_scope_edits delta scope ≡ false)
          × (status ≢ failed)))
unfolding apply_escalation_rules
apply_escalation_rules-blocked_iff status reasons e delta scope =
    ground (arith, is_failed_iff status)

-- No combination passes while an escalation is retained.
pub apply_escalation_rules_not_passed :
    (status : RunState) (reasons : List String) (e : EscalationRecord) (delta : WorktreeDelta)
    (scope : List String)
    → (apply_escalation_rules status reasons (some e) delta scope).0 ≢ passed
apply_escalation_rules_not_passed status reasons e delta scope h =
    elim (apply_escalation_rules-blocked_iff status reasons e delta scope).0 [
      | inl b ↦ ground arith
      | inr f ↦ ground arith
    ]
