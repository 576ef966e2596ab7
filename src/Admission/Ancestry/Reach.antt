-- ===== src/Admission/Ancestry/Reach.antt =====
-- The walk decides ancestry inside the frozen range, and its fuel suffices.
use goalrail.Base.{
  ℕ, zero, suc, ◌≤◌, String, true, List, [], ◌∷◌, ◌≡◌, ◌≢◌, ◌↔◌, ◌⊎◌, inl, inr, refl, arith, Elem,
  contains, contains_iff, length, subst, Bool-cases, sym,
}
use goalrail.Admission.Ancestry.{
  Walk, Outcome, found, exhausted, out_of_fuel, scan_parents, walk, ancestor_outcome,
  ancestor_within_range,
}
use goalrail.Admission.Ancestry.Parents.{
  work, unseen-le_length, Extends, scan_parents-miss, scan_parents-hit, Scan-cases,
}

module _ (commits : List String) (parents : String → List String) where
  -- The commits that a chain of parents inside the range leads to.
  pub data Descends (descendant : String) : String → Type 0 where
    here : Descends descendant descendant
    step :
        {u v : String}
        → Descends descendant u
        → Elem v (parents u)
        → Elem v commits
        → Descends descendant v

  -- The anchor is a parent of a commit that such a chain leads to.
  abbrev pub IsAncestor : String → String → Type 0
  IsAncestor anchor descendant = (u : String) × Descends descendant u × Elem anchor (parents u)

  module _ (anchor descendant : String) where
    record Inv (seen queue : List String) : Type 0 where
      queued : (x : String) → Elem x queue → Descends descendant x
      started : Elem descendant seen
      closed :
          (x y : String)
          → Elem x seen
          → Elem y (parents x)
          → Elem y commits
          → Elem x queue ⊎ Elem y seen
      clear : (x : String) → Elem x seen → Elem x queue ⊎ ¬ (Elem anchor (parents x))

    Inv-round :
        (current : String) (seen queue : List String) (w : Walk)
        → Inv seen (current ∷ queue)
        → Extends commits (parents current) (record { seen = seen; queue = queue }) w
        → ¬ (Elem anchor (parents current))
        → Inv w.seen w.queue
    Inv-round current seen queue w h ext absent = record {
      queued = λ x m. elim (ext.queue_from x m) [
        | inl old ↦ h.queued x (inr old)
        | inr (p, c) ↦ step (h.queued current (inl refl)) p c
      ];
      started = ext.seen_kept descendant h.started;
      closed = λ x y m p c. elim (ext.new_queued x m) [
        | inr q ↦ inl q
        | inl old ↦ elim (h.closed x y old p c) [
          | inl (inl e) ↦ inr (ext.covered y (subst (λ z. Elem y (parents z)) e p) c)
          | inl (inr q) ↦ inl (ext.queue_kept x q)
          | inr seen_y ↦ inr (ext.seen_kept y seen_y)
        ]
      ];
      clear = λ x m. elim (ext.new_queued x m) [
        | inr q ↦ inl q
        | inl old ↦ elim (h.clear x old) [
          | inl (inl e) ↦ inr (λ p. absent (subst (λ z. Elem anchor (parents z)) e p))
          | inl (inr q) ↦ inl (ext.queue_kept x q)
          | inr no_anchor ↦ inr no_anchor
        ]
      ];
    }

    complete :
        (seen : List String) → Inv seen [] → (u : String) → Descends descendant u → Elem u seen
    complete seen h u here = h.started
    complete seen h u (step {u = t} d p c) = elim (h.closed t u (complete seen h t d) p c) [
      | inl waiting ↦ absurd waiting
      | inr m ↦ m
    ]

    walk-found :
        (fuel : ℕ) (seen queue : List String)
        → Inv seen queue
        → walk commits anchor parents fuel seen queue ≡ found
        → IsAncestor anchor descendant
    unfolding walk
    walk-found fuel seen [] h e = cc
    walk-found zero seen (c ∷ queue) h e = cc
    walk-found (suc fuel) seen (c ∷ queue) h e =
        elim (Scan-cases commits anchor
          (scan_parents commits anchor (parents c) (record { seen = seen; queue = queue }))) [
            | inl s ↦ (c, h.queued c (inl refl), scan_parents-hit commits anchor (parents c) _ s)
            | inr (w, s) ↦
                let (ext, absent) = scan_parents-miss commits anchor (parents c) _ w s in
                walk-found fuel w.seen w.queue (Inv-round c seen queue w h ext absent)
                  (rw (s, walk) at e)
          ]

    walk-exhausted :
        (fuel : ℕ) (seen queue : List String)
        → Inv seen queue
        → walk commits anchor parents fuel seen queue ≡ exhausted
        → ¬ (IsAncestor anchor descendant)
    unfolding walk
    walk-exhausted fuel seen [] h e (u, d, p) = elim (h.clear u (complete seen h u d)) [
      | inl waiting ↦ waiting
      | inr absent ↦ absent p
    ]
    walk-exhausted zero seen (c ∷ queue) h e ancestor = cc
    walk-exhausted (suc fuel) seen (c ∷ queue) h e ancestor =
        elim (Scan-cases commits anchor
          (scan_parents commits anchor (parents c) (record { seen = seen; queue = queue }))) [
            | inl s ↦ cc (rw (s, walk) at e)
            | inr (w, s) ↦
                let (ext, absent) = scan_parents-miss commits anchor (parents c) _ w s in
                walk-exhausted fuel w.seen w.queue (Inv-round c seen queue w h ext absent)
                  (rw (s, walk) at e) ancestor
          ]

    walk-fuel :
        (fuel : ℕ) (seen queue : List String)
        → work commits (record { seen = seen; queue = queue }) ≤ fuel
        → walk commits anchor parents fuel seen queue ≢ out_of_fuel
    unfolding walk
    walk-fuel fuel seen [] h e = cc
    walk-fuel zero seen (c ∷ queue) h e = absurd (omega arith)
    walk-fuel (suc fuel) seen (c ∷ queue) h e =
        elim (Scan-cases commits anchor
          (scan_parents commits anchor (parents c) (record { seen = seen; queue = queue }))) [
            | inl s ↦ cc (rw (s, walk) at e)
            | inr (w, s) ↦
                let (ext, absent) = scan_parents-miss commits anchor (parents c) _ w s in
                walk-fuel fuel w.seen w.queue (omega (arith, ext.worked)) (rw (s, walk) at e)
          ]

    Inv-start : Inv (descendant ∷ []) (descendant ∷ [])
    Inv-start = record {
      queued = λ x m. elim m [
        | inl e ↦ subst (Descends descendant) (sym e) here
        | inr none_left ↦ absurd none_left
      ];
      started = inl refl;
      closed = λ x y m p c. inl m;
      clear = λ x m. inl m;
    }

Outcome-cases : (o : Outcome) → (o ≡ found) ⊎ (o ≡ exhausted) ⊎ (o ≡ out_of_fuel)
Outcome-cases found = inl refl
Outcome-cases exhausted = inr (inl refl)
Outcome-cases out_of_fuel = inr (inr refl)

-- The walk never runs out of fuel: one unit for each commit of the range and one for the
-- descendant are enough.
pub ancestor_outcome-ne-out_of_fuel :
    (commits : List String) (parents : String → List String) (anchor descendant : String)
    → ancestor_outcome commits parents anchor descendant ≢ out_of_fuel
unfolding ancestor_outcome
ancestor_outcome-ne-out_of_fuel commits parents anchor descendant =
    let start : Walk = record { seen = descendant ∷ []; queue = descendant ∷ [] } in
    let enough : work commits start ≤ suc (length commits) =
      omega (arith, unseen-le_length commits (descendant ∷ [])) in
    ground (
      arith,
      walk-fuel commits parents anchor descendant (suc (length commits)) (descendant ∷ [])
          (descendant ∷ []) enough,
    )

-- The test holds exactly when the anchor is a commit of the range and a parent of a commit that a
-- chain of parents inside the range leads to from the descendant.
pub ancestor_within_range_iff :
    (commits : List String) (parents : String → List String) (anchor descendant : String)
    → (ancestor_within_range commits parents anchor descendant ≡ true)
      ↔ (Elem anchor commits × IsAncestor commits parents anchor descendant)
unfolding ancestor_within_range ancestor_outcome
ancestor_within_range_iff commits parents anchor descendant =
    let start = descendant ∷ [] in
    let inv = Inv-start commits parents anchor descendant in
    let fuel = suc (length commits) in
    let unfinished = ancestor_outcome-ne-out_of_fuel commits parents anchor descendant in
    elim (Bool-cases (contains commits anchor)) [
      | inr e ↦ (λ h. ground arith, λ (m, _). ground (arith, contains_iff commits anchor))
      | inl e ↦ elim (Outcome-cases (walk commits anchor parents fuel start start)) [
        | inl hit_it ↦ (
          λ h. (
            (contains_iff commits anchor).0 e,
            walk-found commits parents anchor descendant fuel start start inv hit_it,
          ),
          λ _. ground arith,
        )
        | inr (inl ended) ↦ (
          λ h. ground arith,
          λ (_, ancestor). absurd (
              walk-exhausted commits parents anchor descendant fuel start start inv ended ancestor),
        )
        | inr (inr dry) ↦ absurd (unfinished (rw (e, ancestor_outcome) dry))
      ]
    ]
