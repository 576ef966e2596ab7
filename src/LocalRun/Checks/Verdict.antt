-- ===== src/LocalRun/Checks/Verdict.antt =====
-- The verdict of the checks: it is that of the results, one for each check.
use goalrail.Base.{
  String, Bool, true, List, [], ◌∷◌, ◌++◌, some, ◌≡◌, refl, ◌==◌, ◌⊎◌, inl, inr, Elem, arith,
  eq_iff, ◌↔◌, map, find_first, find_first-eq-some, find_first-eq-none, Option-cases, append-nil,
  append_assoc, ◌∙◌, sym, ap, subst,
}
use goalrail.Domain.{
  WorkSpecCheck, CheckResultState, result_pass, result_fail, result_unavailable, result_missing,
  result_other,
}
use goalrail.LocalRun.Types.{CheckResult, passed, failed}
use goalrail.LocalRun.Checks.{
  results_by_id, validate_check_result, normalize_check_results, Tally, tally_result, tally_checks,
  result_for, is_reported,
}
use goalrail.LocalRun.Checks.Accepted.{
  IdsDistinct, IsAdmissible, results_by_id-eq-some, results_by_id_total,
}

-- The supplied result of the check.
abbrev pub Reports : List CheckResult → WorkSpecCheck → CheckResultState → Type 0
Reports supplied check state =
    (r : CheckResult) × Elem r supplied × (r.id ≡ check.id) × (r.state ≡ state)

IdsDistinct-eq :
    (xs : List CheckResult) (a b : CheckResult)
    → IdsDistinct xs
    → Elem a xs
    → Elem b xs
    → a.id ≡ b.id
    → a ≡ b
IdsDistinct-eq [] a b d m n e = absurd m
IdsDistinct-eq (x ∷ xs) a b (f, d) (inl p) (inl q) e = p ∙ sym q
IdsDistinct-eq (x ∷ xs) a b (f, d) (inl p) (inr n) e = absurd (f b n (ap (λ r. r.id) (sym p) ∙ e))
IdsDistinct-eq (x ∷ xs) a b (f, d) (inr m) (inl q) e =
    absurd (f a m (ap (λ r. r.id) (sym q) ∙ sym e))
IdsDistinct-eq (x ∷ xs) a b (f, d) (inr m) (inr n) e = IdsDistinct-eq xs a b d m n e

-- The result of a check is the supplied one, wherever it stands.
result_for-eq :
    (supplied : List CheckResult) (check : WorkSpecCheck) (r : CheckResult)
    → IdsDistinct supplied
    → Elem r supplied
    → r.id ≡ check.id
    → result_for supplied check ≡ r
unfolding result_for
result_for-eq supplied check r d m e =
    elim (Option-cases (find_first (λ x. x.id == check.id) supplied)) [
      | inl no_ ↦ absurd (
          ground (
            arith,
            find_first-eq-none (λ x. x.id == check.id) supplied r no_ m,
            eq_iff r.id check.id,
          ))
      | inr (q, found) ↦
          let (n, same) = find_first-eq-some (λ x. x.id == check.id) supplied q found in
          rw (found, result_for)
            (IdsDistinct-eq supplied q r d n m ((eq_iff q.id check.id).0 same ∙ sym e))
    ]

-- A result that is not missing was supplied.
result_for-cases :
    (supplied : List CheckResult) (check : WorkSpecCheck)
    → ((result_for supplied check).state ≡ result_missing)
      ⊎ (Elem (result_for supplied check) supplied × ((result_for supplied check).id ≡ check.id))
unfolding result_for
result_for-cases supplied check =
    elim (Option-cases (find_first (λ x. x.id == check.id) supplied)) [
      | inl no_ ↦ inl (rw (no_, result_for))
      | inr (q, found) ↦
          let (n, same) = find_first-eq-some (λ x. x.id == check.id) supplied q found in
          inr (rw (found, result_for) (n, (eq_iff q.id check.id).0 same))
    ]

-- A status that the loop leaves alone, and the two others.
tally_result-passed :
    (t : Tally) (r : CheckResult)
    → is_reported r.state ≡ true ⊎ (r.state ≡ result_missing)
    → ((tally_result t r).status ≡ passed) ↔ ((t.status ≡ passed) × (r.state ≡ result_pass))
unfolding tally_result
tally_result-passed t r h = by_state r.state refl
  where
    by_state :
        (q : CheckResultState)
        → r.state ≡ q
        → ((tally_result t r).status ≡ passed) ↔ ((t.status ≡ passed) × (r.state ≡ result_pass))
    by_state result_pass e = rw e (ground arith)
    by_state result_fail e = rw e (ground arith)
    by_state result_unavailable e = rw e (ground arith)
    by_state result_missing e = rw e (ground arith)
    by_state (result_other x) e = absurd (ground arith)

tally_result-failed :
    (t : Tally) (r : CheckResult)
    → ((tally_result t r).status ≡ failed) ↔ ((t.status ≡ failed) ⊎ (r.state ≡ result_fail))
unfolding tally_result
tally_result-failed t r = by_state r.state refl
  where
    by_state :
        (q : CheckResultState)
        → r.state ≡ q
        → ((tally_result t r).status ≡ failed) ↔ ((t.status ≡ failed) ⊎ (r.state ≡ result_fail))
    by_state result_pass e = rw e (ground arith)
    by_state result_fail e = rw e (ground arith)
    by_state result_unavailable e = rw e (ground arith)
    by_state result_missing e = rw e (ground arith)
    by_state (result_other x) e = rw e (ground arith)

abbrev Known : CheckResult → Type 0
Known r = (is_reported r.state ≡ true) ⊎ (r.state ≡ result_missing)

tally_checks-passed :
    (accepted : List CheckResult) (t : Tally) (checks : List WorkSpecCheck)
    → ((c : WorkSpecCheck) → Elem c checks → Known (result_for accepted c))
    → ((tally_checks accepted t checks).status ≡ passed) ↔ (
        (t.status ≡ passed)
        × ((c : WorkSpecCheck) → Elem c checks → (result_for accepted c).state ≡ result_pass))
unfolding tally_checks
tally_checks-passed accepted t [] named = (λ e. (e, λ c m. absurd m), λ (e, _). e)
tally_checks-passed accepted t (c ∷ cs) named =
    let step = tally_result-passed t (result_for accepted c) (named c (inl refl)) in
    let rest =
      tally_checks-passed accepted (tally_result t (result_for accepted c)) cs
        (λ d m. named d (inr m)) in
    (
      λ e.
          let (first, others) = rest.0 e in
          let (whole, this) = step.0 first in
          (whole, λ d m. elim m [ inl same ↦ rw same this | inr later ↦ others d later ]),
      λ (e, all_pass). rest.1 (step.1 (e, all_pass c (inl refl)), λ d m. all_pass d (inr m)),
    )

tally_checks-failed :
    (accepted : List CheckResult) (t : Tally) (checks : List WorkSpecCheck)
    → ((tally_checks accepted t checks).status ≡ failed) ↔ (
        (t.status ≡ failed)
        ⊎ ((c : WorkSpecCheck) × Elem c checks × ((result_for accepted c).state ≡ result_fail)))
unfolding tally_checks
tally_checks-failed accepted t [] = ground arith
tally_checks-failed accepted t (c ∷ cs) =
    let step = tally_result-failed t (result_for accepted c) in
    let rest = tally_checks-failed accepted (tally_result t (result_for accepted c)) cs in
    (
      λ e. elim (rest.0 e) [
        | inl first ↦ elim (step.0 first) [
          | inl before_ ↦ inl before_
          | inr this ↦ inr (c, inl refl, this)
        ]
        | inr (d, m, f) ↦ inr (d, inr m, f)
      ],
      λ h. elim h [
        | inl before_ ↦ rest.1 (inl (step.1 (inl before_)))
        | inr (d, inl same, f) ↦
            rest.1
              (inl (step.1 (inr (subst (λ x. (result_for accepted x).state ≡ result_fail) same f))))
        | inr (d, inr m, f) ↦ rest.1 (inr (d, m, f))
      ],
    )

tally_result-results :
    (t : Tally) (r : CheckResult) → (tally_result t r).results ≡ t.results ++ r ∷ []
unfolding tally_result
tally_result-results t r = by_state r.state refl
  where
    by_state :
        (q : CheckResultState) → r.state ≡ q → (tally_result t r).results ≡ t.results ++ r ∷ []
    by_state result_pass e = rw e refl
    by_state result_fail e = rw e refl
    by_state result_unavailable e = rw e refl
    by_state result_missing e = rw e refl
    by_state (result_other x) e = rw e refl

-- Each check has one result, in the order of the checks.
pub tally_checks-results :
    (accepted : List CheckResult) (t : Tally) (checks : List WorkSpecCheck)
    → (tally_checks accepted t checks).results ≡ t.results ++ map (result_for accepted) checks
unfolding tally_checks
tally_checks-results accepted t [] = sym (append-nil t.results)
tally_checks-results accepted t (c ∷ cs) =
    tally_checks-results accepted (tally_result t (result_for accepted c)) cs
    ∙ ap (λ xs. xs ++ map (result_for accepted) cs) (tally_result-results t (result_for accepted c))
    ∙ append_assoc t.results (result_for accepted c ∷ []) (map (result_for accepted) cs)

module _ (is_evidence_reference : String → Bool) (checks : List WorkSpecCheck)
    (supplied : List CheckResult) where
  -- What was normalized.
  normalize_check_results-eq-some :
      (t : Tally)
      → normalize_check_results is_evidence_reference checks supplied ≡ some t
      → (t ≡ tally_checks supplied (record { results = []; status = passed; reasons = [] }) checks)
        × ((r : CheckResult) → Elem r supplied → IsAdmissible is_evidence_reference checks r)
        × IdsDistinct supplied
  unfolding normalize_check_results
  normalize_check_results-eq-some t h =
      elim (Option-cases (results_by_id is_evidence_reference checks [] supplied)) [
        | inl bad ↦ absurd (ground arith)
        | inr (out, e) ↦
            let (whole, each, distinct) =
              results_by_id-eq-some is_evidence_reference checks [] supplied out e in
            let start : Tally = record { results = []; status = passed; reasons = [] } in
            let made : some (tally_checks out start checks) ≡ some t =
              rw (e, normalize_check_results) at h in
            let same : tally_checks out start checks ≡ t = ground arith in
            (
              sym same ∙ ap (λ xs. tally_checks xs start checks) whole,
              λ r m. (each r m).0,
              distinct,
            )
      ]

  validate_check_result-reported :
      (r : CheckResult)
      → validate_check_result is_evidence_reference r ≡ true
      → is_reported r.state ≡ true
  unfolding validate_check_result
  validate_check_result-reported r h = ground arith

  normalized-Known :
      ((r : CheckResult) → Elem r supplied → IsAdmissible is_evidence_reference checks r)
      → (check : WorkSpecCheck) → Known (result_for supplied check)
  normalized-Known each check = elim (result_for-cases supplied check) [
    | inl missing ↦ inr missing
    | inr (m, _) ↦ inl (
        validate_check_result-reported (result_for supplied check)
          (each (result_for supplied check) m).1)
  ]

  -- The supplied results are normalized, and not refused, exactly where each is of one of the checks
  -- and well formed and no two of them have one id.
  pub normalize_check_results_accepts :
      ((t : Tally) × (normalize_check_results is_evidence_reference checks supplied ≡ some t)) ↔ (
        ((r : CheckResult) → Elem r supplied → IsAdmissible is_evidence_reference checks r)
        × IdsDistinct supplied)
  unfolding normalize_check_results
  normalize_check_results_accepts = (
    λ (t, h). let (_, each, distinct) = normalize_check_results-eq-some t h in (each, distinct),
    λ (each, distinct).
        let whole : results_by_id is_evidence_reference checks [] supplied ≡ some supplied =
          results_by_id_total is_evidence_reference checks [] supplied
            (λ x m. (each x m, λ y n. absurd n)) distinct in
        (
          tally_checks supplied (record { results = []; status = passed; reasons = [] }) checks,
          rw (whole, normalize_check_results) refl,
        ),
  )

  supplied_of :
      (check : WorkSpecCheck) (state : CheckResultState)
      → (result_for supplied check).state ≡ state
      → is_reported state ≡ true
      → Reports supplied check state
  supplied_of check state e reported = elim (result_for-cases supplied check) [
    | inl missing ↦ absurd (ground arith)
    | inr (m, same) ↦ (result_for supplied check, m, same, e)
  ]

  -- The verdict of normalized results is passed exactly where each check has a supplied result that
  -- passes.
  pub normalize_check_results-passed_iff :
      (t : Tally)
      → normalize_check_results is_evidence_reference checks supplied ≡ some t
      → (t.status ≡ passed)
        ↔ ((check : WorkSpecCheck) → Elem check checks → Reports supplied check result_pass)
  normalize_check_results-passed_iff t h =
      let (made, each, distinct) = normalize_check_results-eq-some t h in
      let verdict =
        tally_checks-passed supplied (record { results = []; status = passed; reasons = [] }) checks
          (λ c m. normalized-Known each c) in
      (
        λ e. λ c m.
            supplied_of c result_pass ((verdict.0 (ap (λ x. x.status) (sym made) ∙ e)).1 c m) refl,
        λ reports.
            ap (λ x. x.status) made
            ∙ verdict.1 (
              refl,
              λ c m.
                  let (r, n, same, state) = reports c m in
                  ap (λ x. x.state) (result_for-eq supplied c r distinct n same) ∙ state,
            ),
      )

  -- The verdict of normalized results is failed exactly where some check has a supplied result that
  -- fails.
  pub normalize_check_results-failed_iff :
      (t : Tally)
      → normalize_check_results is_evidence_reference checks supplied ≡ some t
      → (t.status ≡ failed)
        ↔ ((check : WorkSpecCheck) × Elem check checks × Reports supplied check result_fail)
  normalize_check_results-failed_iff t h =
      let (made, each, distinct) = normalize_check_results-eq-some t h in
      let verdict =
        tally_checks-failed supplied (record { results = []; status = passed; reasons = [] })
          checks in
      (
        λ e. elim (verdict.0 (ap (λ x. x.status) (sym made) ∙ e)) [
          | inl started ↦ absurd (ground arith)
          | inr (c, m, f) ↦ (c, m, supplied_of c result_fail f refl)
        ],
        λ (c, m, (r, n, same, state)).
            ap (λ x. x.status) made
            ∙ verdict.1 (
                inr (c, m, ap (λ x. x.state) (result_for-eq supplied c r distinct n same) ∙ state)),
      )
