-- ===== src/Admission/Candidates/Vouched.antt =====
-- A relation that `evaluateCandidates` reports as satisfied rests on one candidate that passed every
-- check.
use goalrail.Base.{
  Bool, true, List, [], ◌∷◌, none, ◌≡◌, refl, ◌⊎◌, inl, inr, arith, Elem, Time, sort_by,
  Elem-sort_by, Option-cases, is_empty, add_key, Bool-cases, if◌then◌else◌,
}
use goalrail.Domain.{Codec, ProjectPolicy, LineageRelation, AdmissionPacket}
use goalrail.Admission.Types.{FrozenRange, ProviderCandidate, pass}
use goalrail.Admission.Candidates.{
  accept_candidates, evaluate_candidates, candidate_fault, candidate_satisfies,
  well_formed_candidate, in_range, trusted_at, has_bounded_evaluation_time, evaluation_instant,
  candidate_lt,
}

module _ (codec : Codec) (frozen : FrozenRange) (policy : ProjectPolicy) (now : Time) where
  pub record IsVouched (r : LineageRelation) (c : ProviderCandidate) : Type 0 where
    pub relates : c.relation ≡ r
    pub well_formed : well_formed_candidate codec c ≡ true
    pub ranged : in_range codec frozen c ≡ true
    pub trusted : trusted_at codec now c ≡ true
    pub satisfies : candidate_satisfies codec policy c ≡ true

  abbrev Vouched : LineageRelation → List ProviderCandidate → Type 0
  Vouched r cs = (c : ProviderCandidate) × Elem c cs × IsVouched r c

  candidate_fault-eq-none :
      (claimed : List ProviderCandidate) (c : ProviderCandidate)
      → candidate_fault codec frozen policy now claimed c ≡ none
      → candidate_satisfies codec policy c ≡ true
      → IsVouched c.relation c
  unfolding candidate_fault
  candidate_fault-eq-none claimed c h s = ground arith

  added_cases :
      (b : Bool) (x r : LineageRelation) (s : List LineageRelation)
      → Elem r (if b then add_key x s else s)
      → Elem r s ⊎ (b ≡ true) × (r ≡ x)
  unfolding add_key
  added_cases b x r s m = ground arith

  pub accept_candidates-Vouched :
      (cs : List ProviderCandidate) (satisfied : List LineageRelation)
      (claimed : List ProviderCandidate) (result : List LineageRelation) (r : LineageRelation)
      → accept_candidates codec frozen policy now cs satisfied claimed ≡ pass result
      → Elem r result
      → Elem r satisfied ⊎ Vouched r cs
  unfolding accept_candidates
  accept_candidates-Vouched [] satisfied claimed result r h m = ground arith
  accept_candidates-Vouched (c ∷ cs) satisfied claimed result r h m =
      elim (Option-cases (candidate_fault codec frozen policy now claimed c)) [
        | inr (f, e) ↦ cc (rw (e, accept_candidates) at h)
        | inl e ↦
            let b = candidate_satisfies codec policy c in
            let satisfied' = if b then add_key c.relation satisfied else satisfied in
            elim (accept_candidates-Vouched cs satisfied' (c ∷ claimed) result r
              (rw (e, accept_candidates) at h) m) [
                | inr (d, d_in, vouched) ↦ inr (d, inr d_in, vouched)
                | inl old ↦ elim (added_cases b c.relation r satisfied old) [
                  | inl before ↦ inl before
                  | inr (s, same) ↦
                      inr (c, inl refl, rw same (candidate_fault-eq-none claimed c e s))
                ]
              ]
      ]

-- Every relation in the result of `evaluateCandidates` is that of one of the candidates, which is
-- well formed, in the frozen range, authenticated, observed no later than the evaluation time, and
-- for an owner decision an `allow` under an authority of the policy. The packet then carries a
-- bounded evaluation time.
pub evaluate_candidates-Vouched :
    (codec : Codec) (cs : List ProviderCandidate) (frozen : FrozenRange) (policy : ProjectPolicy)
    (packet : AdmissionPacket) (result : List LineageRelation) (r : LineageRelation)
    → evaluate_candidates codec cs frozen policy packet ≡ pass result
    → Elem r result
    → (has_bounded_evaluation_time codec packet ≡ true)
      × Vouched codec frozen policy (evaluation_instant packet) r cs
unfolding evaluate_candidates
evaluate_candidates-Vouched codec cs frozen policy packet result r h m =
    let now = evaluation_instant packet in
    elim (Bool-cases (is_empty cs)) [
      | inl e ↦ absurd (ground arith)
      | inr e ↦
          elim (accept_candidates-Vouched codec frozen policy now (sort_by candidate_lt cs) [] []
            result r (ground arith) m) [
              | inl none_yet ↦ absurd none_yet
              | inr (c, c_in, vouched) ↦
                  (ground arith, (c, (Elem-sort_by candidate_lt cs c).0 c_in, vouched))
            ]
    ]
