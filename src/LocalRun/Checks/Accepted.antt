-- ===== src/LocalRun/Checks/Accepted.antt =====
-- Which results of checks are accepted: each of a known check, well formed, and no two of one check.
use goalrail.Base.{
  append-nil, append_assoc, String, Bool, true, false, List, [], ◌∷◌, ◌++◌, some, ◌≡◌, refl, ◌==◌,
  inl, inr, Elem, any, any_intro, any-eq-true, arith, Bool-cases, eq_iff, Elem-append, ◌↔◌, ◌≢◌,
  not, &&-eq-true, ap, sym, ◌∙◌,
}
use goalrail.Domain.{WorkSpecCheck}
use goalrail.LocalRun.Types.{CheckResult}
use goalrail.LocalRun.Checks.{admits_result, results_by_id, validate_check_result}

-- No two results have one id.
abbrev pub IdsDistinct : List CheckResult → Type 0
IdsDistinct [] = Unit {0}
IdsDistinct (x ∷ xs) = ((y : CheckResult) → Elem y xs → x.id ≢ y.id) × IdsDistinct xs

module _ (is_evidence_reference : String → Bool) (checks : List WorkSpecCheck) where
  -- The result is of one of the checks, and well formed.
  abbrev pub IsAdmissible : CheckResult → Type 0
  IsAdmissible r =
      ((check : WorkSpecCheck) × Elem check checks × (check.id ≡ r.id))
      × (validate_check_result is_evidence_reference r ≡ true)

  abbrev Apart : List CheckResult → CheckResult → Type 0
  Apart accepted x = (y : CheckResult) → Elem y accepted → y.id ≢ x.id

  admits_result_iff :
      (accepted : List CheckResult) (r : CheckResult)
      → (admits_result is_evidence_reference checks accepted r ≡ true)
        ↔ (IsAdmissible r × Apart accepted r)
  unfolding admits_result
  admits_result_iff accepted r = (forward, backward)
    where
      forward :
          admits_result is_evidence_reference checks accepted r ≡ true
          → IsAdmissible r × Apart accepted r
      forward h =
          let (known, rest) = &&-eq-true _ _ h in
          let (fresh, valid) = &&-eq-true _ _ rest in
          let (check, m, e) = any-eq-true (λ c. c.id == r.id) checks known in
          (
            ((check, m, (eq_iff check.id r.id).0 e), valid),
            λ y n same. absurd (clash y n same fresh),
          )
        where
          clash :
              (y : CheckResult)
              → Elem y accepted
              → y.id ≡ r.id
              → not (any (λ o. o.id == r.id) accepted) ≡ true
              → ⊥
          clash y n same fresh =
              let seen : any (λ o. o.id == r.id) accepted ≡ true =
                any_intro (λ o. o.id == r.id) accepted y n ((eq_iff y.id r.id).1 same) in
              ground arith

      backward :
          IsAdmissible r × Apart accepted r
          → admits_result is_evidence_reference checks accepted r ≡ true
      backward (((check, m, e), valid), apart) =
          let known : any (λ c. c.id == r.id) checks ≡ true =
            any_intro (λ c. c.id == r.id) checks check m ((eq_iff check.id r.id).1 e) in
          let fresh : any (λ o. o.id == r.id) accepted ≡ false =
            elim (Bool-cases (any (λ o. o.id == r.id) accepted)) [
              | inl seen ↦
                  let (y, n, same) = any-eq-true (λ o. o.id == r.id) accepted seen in
                  absurd (apart y n ((eq_iff y.id r.id).0 same))
              | inr no_ ↦ no_
            ] in
          ground arith

  pub results_by_id-eq-some :
      (accepted supplied out : List CheckResult)
      → results_by_id is_evidence_reference checks accepted supplied ≡ some out
      → (out ≡ accepted ++ supplied)
        × ((x : CheckResult) → Elem x supplied → IsAdmissible x × Apart accepted x)
        × IdsDistinct supplied
  unfolding results_by_id
  results_by_id-eq-some accepted [] out h =
      (ground (arith, append-nil accepted), λ x m. absurd m, tt)
  results_by_id-eq-some accepted (r ∷ rest) out h =
      elim (Bool-cases (admits_result is_evidence_reference checks accepted r)) [
        | inl admitted ↦
            let (whole, each, distinct) =
              results_by_id-eq-some (accepted ++ r ∷ []) rest out (ground arith) in
            let (fine, apart) = (admits_result_iff accepted r).0 admitted in
            (
              whole ∙ append_assoc accepted (r ∷ []) rest,
              λ x m. elim m [
                | inl same ↦ rw same (fine, apart)
                | inr later ↦ (
                  (each x later).0,
                  λ y n. (each x later).1 y ((Elem-append accepted (r ∷ []) y).1 (inl n)),
                )
              ],
              (
                λ y n. (each y n).1 r ((Elem-append accepted (r ∷ []) r).1 (inr (inl refl))),
                distinct,
              ),
            )
        | inr refused ↦ absurd (ground arith)
      ]

  pub results_by_id_total :
      (accepted supplied : List CheckResult)
      → ((x : CheckResult) → Elem x supplied → IsAdmissible x × Apart accepted x)
      → IdsDistinct supplied
      → results_by_id is_evidence_reference checks accepted supplied ≡ some (accepted ++ supplied)
  unfolding results_by_id
  results_by_id_total accepted [] h d = ap some (sym (append-nil accepted))
  results_by_id_total accepted (r ∷ rest) h (fresh, distinct) =
      let admitted : admits_result is_evidence_reference checks accepted r ≡ true =
        (admits_result_iff accepted r).1 (h r (inl refl)) in
      let later : results_by_id is_evidence_reference checks (accepted ++ r ∷ []) rest
          ≡ some ((accepted ++ r ∷ []) ++ rest) =
        results_by_id_total (accepted ++ r ∷ []) rest
          (λ x m. (
            (h x (inr m)).0,
            λ y n. elim ((Elem-append accepted (r ∷ []) y).0 n) [
              | inl before_ ↦ (h x (inr m)).1 y before_
              | inr (inl this) ↦ rw this (fresh x m)
              | inr (inr none_) ↦ absurd none_
            ],
          ))
          distinct in
      rw admitted (later ∙ ap some (append_assoc accepted (r ∷ []) rest))
