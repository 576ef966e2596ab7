-- ===== src/LocalRun/Checks.antt =====
-- The results of the checks: validateCheckResult and normalizeCheckResults of
-- internal/localrun/service.go. The map of the results by id is the list of those accepted so far.
pub mod Accepted
pub mod Verdict
use goalrail.Base.{
  String, Bool, true, false, List, [], ◌∷◌, ◌++◌, Option, none, some, ◌==◌, ◌&&◌, ◌||◌, not,
  if◌then◌else◌, any, find_first, contains, leb, byte_length,
}
use goalrail.Domain.{
  WorkSpecCheck, CheckResultState, result_pass, result_fail, result_unavailable, result_missing,
  result_other, is_canonical_id, is_hex_digest,
}
use goalrail.LocalRun.Types.{
  CheckResult, RunState, passed, failed, verification_incomplete, is_failed,
}

-- `appendReason`
unfoldable pub append_reason : List String → String → List String
append_reason reasons reason = if contains reasons reason then reasons else reasons ++ reason ∷ []

abbrev pub is_reported : CheckResultState → Bool
is_reported result_pass = true
is_reported result_fail = true
is_reported result_unavailable = true
is_reported result_missing = false
is_reported (result_other _) = false

-- `is_evidence_reference` is the domain's, a regular expression and the search for secrets.
module _ (is_evidence_reference : String → Bool) where
  unfoldable pub validate_check_result : CheckResult → Bool
  validate_check_result result =
      is_canonical_id result.id
      && (is_reported result.state
          && ((result.evidence_ref == ""
                || (leb (byte_length result.evidence_ref) 512
                    && is_evidence_reference result.evidence_ref))
              && (result.evidence_digest == "" || is_hex_digest result.evidence_digest)))

  -- Whether a supplied result enters the map.
  unfoldable pub admits_result : List WorkSpecCheck → List CheckResult → CheckResult → Bool
  admits_result checks accepted result =
      any (λ check. check.id == result.id) checks
      && (not (any (λ other. other.id == result.id) accepted) && validate_check_result result)

  -- The loop over the supplied results.
  unfoldable pub results_by_id :
      List WorkSpecCheck → List CheckResult → List CheckResult → Option (List CheckResult)
  results_by_id checks accepted [] = some accepted
  results_by_id checks accepted (result ∷ rest) =
      if admits_result checks accepted result
      then results_by_id checks (accepted ++ result ∷ []) rest
      else none

-- `byID[check.ID]`, and a missing result where there is none.
unfoldable pub result_for : List CheckResult → WorkSpecCheck → CheckResult
result_for accepted check = elim (find_first (λ result. result.id == check.id) accepted) [
  | some result ↦ result
  | none ↦ record { id = check.id; state = result_missing; evidence_ref = ""; evidence_digest = "" }
]

pub record Tally : Type 0 where
  pub results : List CheckResult
  pub status : RunState
  pub reasons : List String

-- One turn of the loop over the checks.
unfoldable pub tally_result : Tally → CheckResult → Tally
tally_result t result =
    let next = record t { results = t.results ++ result ∷ [] } in
    elim result.state [
      | result_fail ↦ record next {
        status = failed;
        reasons = append_reason t.reasons "CHECK_FAILED";
      }
      | result_unavailable ↦ incomplete next
      | result_missing ↦ incomplete next
      | _ ↦ next
    ]
  where
    incomplete : Tally → Tally
    incomplete n = record n {
      status = if is_failed n.status then n.status else verification_incomplete;
      reasons = append_reason n.reasons "CHECK_RESULT_INCOMPLETE";
    }

unfoldable pub tally_checks : List CheckResult → Tally → List WorkSpecCheck → Tally
tally_checks accepted t [] = t
tally_checks accepted t (check ∷ checks) =
    tally_checks accepted (tally_result t (result_for accepted check)) checks

-- `normalizeCheckResults`: `none` is its error.
unfoldable pub normalize_check_results :
    (String → Bool) → List WorkSpecCheck → List CheckResult → Option Tally
normalize_check_results is_evidence_reference checks supplied =
    elim (results_by_id is_evidence_reference checks [] supplied) [
      | none ↦ none
      | some accepted ↦
          some
            (tally_checks accepted (record { results = []; status = passed; reasons = [] }) checks)
    ]
