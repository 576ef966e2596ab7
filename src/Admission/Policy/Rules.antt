-- ===== src/Admission/Policy/Rules.antt =====
-- `evaluatePath` against its reference: the matching rules of the highest priority.
use goalrail.Base.{
  ℕ, ◌≤◌, true, List, [], ◌∷◌, Option, none, some, ◌≡◌, refl, ◌↔◌, ◌⊎◌, inl, inr, arith, Elem,
  Elem-append, Elem-sort_by, if◌then◌else◌, Bool-cases, Any, ◌&&◌, Option-cases, sym, ◌∙◌, Any-iff,
}
use goalrail.Domain.{ProjectPolicy, PolicyPathRule}
use goalrail.Admission.Policy.{
  RuleScan, offer_rule, scan_rules, blank_scan, evaluate_path, rule_matches, String, above, ltb,
  nat_eq, text_lt,
}

module _ (path kind : String) where
  abbrev pub Matches : PolicyPathRule → Type 0
  Matches rule = rule_matches rule path kind ≡ true

  -- The rule matches, and no matching rule of the list has a higher priority.
  abbrev pub IsTop : List PolicyPathRule → PolicyPathRule → Type 0
  IsTop rules rule =
      Elem rule rules
      × Matches rule
      × ((other : PolicyPathRule)
          → Elem other rules
          → Matches other
          → other.priority ≤ rule.priority)

  -- The highest priority of a matching rule, if it is above the given one.
  best : Option ℕ → List PolicyPathRule → Option ℕ
  best b [] = b
  best b (rule ∷ rules) =
      best (if rule_matches rule path kind && above rule.priority b then some rule.priority else b)
        rules

  scan_rules-priority :
      (s : RuleScan) (rules : List PolicyPathRule)
      → (scan_rules path kind s rules).priority ≡ best s.priority rules
  unfolding scan_rules best offer_rule
  scan_rules-priority s [] = refl
  scan_rules-priority s (rule ∷ rules) =
      ground (arith, scan_rules-priority (offer_rule path kind s rule) rules)

  best-some :
      (p : ℕ) (rules : List PolicyPathRule) → (q : ℕ) × (best (some p) rules ≡ some q) × (p ≤ q)
  unfolding best
  best-some p [] = (p, refl, omega arith)
  best-some p (rule ∷ rules) =
      elim (Bool-cases (rule_matches rule path kind && above rule.priority (some p))) [
        | inl e ↦
            let (q, found, le) = best-some rule.priority rules in (q, ground arith, ground arith)
        | inr e ↦ let (q, found, le) = best-some p rules in (q, ground arith, le)
      ]

  best-le :
      (b : Option ℕ) (rules : List PolicyPathRule) (rule : PolicyPathRule)
      → Elem rule rules
      → Matches rule
      → (q : ℕ) × (best b rules ≡ some q) × (rule.priority ≤ q)
  unfolding best
  best-le b [] rule m h = absurd m
  best-le b (first ∷ rules) rule (inr m) h =
      best-le
        (if rule_matches first path kind && above first.priority b then some first.priority else b)
        rules rule m h
  best-le b (first ∷ rules) rule (inl e) h = elim (Bool-cases (above first.priority b)) [
    | inl a ↦ let (q, found, le) = best-some first.priority rules in (q, ground arith, ground arith)
    | inr a ↦ elim (Option-cases b) [
      | inl e' ↦ absurd (ground arith)
      | inr (p, e') ↦ let (q, found, le) = best-some p rules in (q, ground arith, ground arith)
    ]
  ]

  best-above :
      (b : Option ℕ) (rules : List PolicyPathRule) (n : ℕ)
      → b ≡ some n
      → (q : ℕ) × (best b rules ≡ some q) × (n ≤ q)
  best-above b rules n e = rw e (best-some n rules)

  offer_rule-priority :
      (s : RuleScan) (rule : PolicyPathRule)
      → (offer_rule path kind s rule).priority ≡ (
          if rule_matches rule path kind && above rule.priority s.priority
          then some rule.priority
          else s.priority)
  unfolding offer_rule
  offer_rule-priority s rule = ground arith

  best-attained :
      (b : Option ℕ) (rules : List PolicyPathRule) (q : ℕ)
      → best b rules ≡ some q
      → (b ≡ some q) ⊎ Any (λ r. Matches r × (r.priority ≡ q)) rules
  unfolding best
  best-attained b [] q h = inl h
  best-attained b (rule ∷ rules) q h = ground (
    arith,
    best-attained
        (if rule_matches rule path kind && above rule.priority b then some rule.priority else b)
        rules q h,
  )

  abbrev IsBest : Option ℕ → String → PolicyPathRule → Type 0
  IsBest final id rule = Matches rule × (some rule.priority ≡ final) × (rule.id ≡ id)

  -- What one round does to the priority and the identifiers.
  offer_rule_step :
      (s : RuleScan) (rule : PolicyPathRule) (m : Option ℕ) (id : String)
      → ((n : ℕ)
          → (offer_rule path kind s rule).priority ≡ some n
          → (q : ℕ) × (m ≡ some q) × (n ≤ q))
      → (Elem id (offer_rule path kind s rule).decision.rule_ids
          × (m ≡ (offer_rule path kind s rule).priority))
        ↔ ((Elem id s.decision.rule_ids × (m ≡ s.priority)) ⊎ (IsBest m id rule))
  unfolding offer_rule
  offer_rule_step s rule m id mono = elim (Bool-cases (rule_matches rule path kind)) [
    | inr no_ ↦ rw no_ (ground arith)
    | inl yes_ ↦ elim (Option-cases s.priority) [
      | inl e ↦
          let (q, found, le) = mono rule.priority (rw (yes_, e)) in
          rw (yes_, e) (ground (arith, Elem-append s.decision.rule_ids (rule.id ∷ []) id))
      | inr (p, e) ↦ elim (Bool-cases (ltb p rule.priority)) [
        | inl a ↦
            let (q, found, le) = mono rule.priority (rw (yes_, e, a)) in
            rw (yes_, e, a) (ground arith)
        | inr a ↦ elim (Bool-cases (nat_eq rule.priority p)) [
          | inl b ↦
              rw (yes_, e, a, b) (ground (arith, Elem-append s.decision.rule_ids (rule.id ∷ []) id))
          | inr b ↦
              let (q, found, le) = mono p (rw (yes_, e, a, b)) in rw (yes_, e, a, b) (ground arith)
        ]
      ]
    ]
  ]

  best-offer_rule :
      (s : RuleScan) (rule : PolicyPathRule) (rules : List PolicyPathRule)
      → best s.priority (rule ∷ rules) ≡ best (offer_rule path kind s rule).priority rules
  unfolding best
  best-offer_rule s rule rules = rw (offer_rule-priority s rule)

  -- The loop's identifiers, for every state that it may start from.
  scan_rules-ids :
      (s : RuleScan) (rules : List PolicyPathRule) (id : String) (m : Option ℕ)
      → best s.priority rules ≡ m
      → Elem id (scan_rules path kind s rules).decision.rule_ids
        ↔ ((Elem id s.decision.rule_ids × (m ≡ s.priority)) ⊎ Any (IsBest m id) rules)
  unfolding scan_rules best
  scan_rules-ids s [] id m e = ground arith
  scan_rules-ids s (rule ∷ rules) id m e =
      let s' = offer_rule path kind s rule in
      let e' = sym (best-offer_rule s rule rules) ∙ e in
      let mono =
        λ (n : ℕ) (at_n : s'.priority ≡ some n). rw e' at (best-above s'.priority rules n at_n) in
      ground (arith, scan_rules-ids s' rules id m e', offer_rule_step s rule m id mono)

  IsTop-of_best :
      (rules : List PolicyPathRule) (id : String)
      → Any (IsBest (best none rules) id) rules
        ↔ ((rule : PolicyPathRule) × IsTop rules rule × (rule.id ≡ id))
  IsTop-of_best rules id = (forward, backward)
    where
      forward :
          Any (IsBest (best none rules) id) rules
          → (rule : PolicyPathRule) × IsTop rules rule × (rule.id ≡ id)
      forward h =
          let (rule, m, (hit, top, same)) = (Any-iff (IsBest (best none rules) id) rules).0 h in
          (
            rule,
            (
              m,
              hit,
              λ other other_in other_hit.
                  let (q, found, le) = best-le none rules other other_in other_hit in ground arith,
            ),
            same,
          )

      backward :
          ((rule : PolicyPathRule) × IsTop rules rule × (rule.id ≡ id))
          → Any (IsBest (best none rules) id) rules
      backward (rule, (m, hit, top), same) =
          let (q, found, le) = best-le none rules rule m hit in
          let attained = λ (r : PolicyPathRule). Matches r × (r.priority ≡ q) in
          let other_is : Any attained rules = ground (arith, best-attained none rules q found) in
          let (other, other_in, (other_hit, at_q)) = (Any-iff attained rules).0 other_is in
          (Any-iff (IsBest (best none rules) id) rules).1
            (rule, m, (hit, ground (arith, top other other_in other_hit), same))

-- A path's decision names exactly the rules that match the path and the kind of change and that no
-- matching rule outranks.
pub evaluate_path-IsTop :
    (policy : ProjectPolicy) (path kind id : String)
    → Elem id (evaluate_path policy path kind).rule_ids
      ↔ ((rule : PolicyPathRule) × IsTop path kind policy.rules rule × (rule.id ≡ id))
unfolding evaluate_path
evaluate_path-IsTop policy path kind id = ground (
  arith,
  Elem-sort_by text_lt (scan_rules path kind (blank_scan path kind) policy.rules).decision.rule_ids
      id,
  scan_rules-ids path kind (blank_scan path kind) policy.rules id (best path kind none policy.rules)
      refl,
  IsTop-of_best path kind policy.rules id,
)
