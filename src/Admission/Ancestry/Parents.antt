-- ===== src/Admission/Ancestry/Parents.antt =====
-- The inner loop of the walk: what one commit's parents add to the set and to the queue.
use goalrail.Base.{
  ℕ, ◌+◌, ◌≤◌, String, true, false, List, [], ◌∷◌, ◌≡◌, ◌⊎◌, inl, inr, arith, Elem, contains,
  contains_iff, length, eq_iff, Elem-append, length-append, if◌then◌else◌, any, ◌==◌, ◌||◌, refl,
  Bool-cases,
}
use goalrail.Admission.Ancestry.{Walk, Scan, hit, miss, scan_parents, visit_parent}

-- The commits of the range that are not yet seen, as often as they stand in the list.
pub unseen : List String → List String → ℕ
unseen [] seen = 0
unseen (c ∷ cs) seen = (if contains seen c then 0 else 1) + unseen cs seen

pub unseen-le_length : (cs seen : List String) → unseen cs seen ≤ length cs
unfolding unseen
unseen-le_length [] seen = omega arith
unseen-le_length (c ∷ cs) seen = ground (arith, unseen-le_length cs seen)

contains-cons : (x y : String) (xs : List String) → contains (x ∷ xs) y ≡ (x == y || contains xs y)
unfolding contains any
contains-cons x y xs = refl

unseen-cons_le : (cs seen : List String) (x : String) → unseen cs (x ∷ seen) ≤ unseen cs seen
unfolding unseen
unseen-cons_le [] seen x = omega arith
unseen-cons_le (c ∷ cs) seen x = ground (arith, unseen-cons_le cs seen x, contains-cons x c seen)

pub unseen-cons :
    (cs seen : List String) (x : String)
    → contains cs x ≡ true
    → contains seen x ≡ false
    → unseen cs (x ∷ seen) + 1 ≤ unseen cs seen
unfolding unseen contains any
unseen-cons [] seen x h new = cc
unseen-cons (c ∷ cs) seen x h new = ground (
  arith,
  unseen-cons cs seen x,
  unseen-cons_le cs seen x,
  contains-cons x c seen,
  eq_iff c x,
  eq_iff x c,
)

module _ (commits : List String) where
  abbrev pub work : Walk → ℕ
  work w = unseen commits w.seen + length w.queue

  -- What holds of `w'` after `w`, given the parents that were scanned.
  pub record Extends (parents : List String) (w w' : Walk) : Type 0 where
    pub seen_from : (x : String) → Elem x w'.seen → Elem x w.seen ⊎ Elem x parents × Elem x commits
    pub queue_from :
        (x : String) → Elem x w'.queue → Elem x w.queue ⊎ Elem x parents × Elem x commits
    pub new_queued : (x : String) → Elem x w'.seen → Elem x w.seen ⊎ Elem x w'.queue
    pub seen_kept : (x : String) → Elem x w.seen → Elem x w'.seen
    pub queue_kept : (x : String) → Elem x w.queue → Elem x w'.queue
    pub covered : (x : String) → Elem x parents → Elem x commits → Elem x w'.seen
    pub worked : work w' ≤ work w

  visit_parent-Extends : (w : Walk) (p : String) → Extends (p ∷ []) w (visit_parent commits w p)
  unfolding visit_parent
  visit_parent-Extends w p = record {
    seen_from = λ x m. ground (arith, contains_iff commits p);
    queue_from = λ x m. ground (arith, contains_iff commits p, Elem-append w.queue (p ∷ []) x);
    new_queued = λ x m. ground (arith, Elem-append w.queue (p ∷ []) x);
    seen_kept = λ x m. ground arith;
    queue_kept = λ x m. ground (arith, Elem-append w.queue (p ∷ []) x);
    covered = λ x m c. ground (arith, contains_iff commits p, contains_iff w.seen p);
    worked = ground (arith, unseen-cons commits w.seen p, length-append w.queue (p ∷ []));
  }

  Extends-trans :
      (p : String) (ps : List String) (u v w : Walk)
      → Extends (p ∷ []) u v
      → Extends ps v w
      → Extends (p ∷ ps) u w
  Extends-trans p ps u v w a b = record {
    seen_from = λ x m. ground (arith, b.seen_from x m, a.seen_from x);
    queue_from = λ x m. ground (arith, b.queue_from x m, a.queue_from x);
    new_queued = λ x m. ground (arith, b.new_queued x m, a.new_queued x, b.queue_kept x);
    seen_kept = λ x m. b.seen_kept x (a.seen_kept x m);
    queue_kept = λ x m. b.queue_kept x (a.queue_kept x m);
    covered = λ x m c. ground (arith, a.covered x, b.covered x, b.seen_kept x);
    worked = omega (arith, a.worked, b.worked);
  }

  Extends-refl : (w : Walk) → Extends [] w w
  Extends-refl w = record {
    seen_from = λ x m. inl m;
    queue_from = λ x m. inl m;
    new_queued = λ x m. inl m;
    seen_kept = λ x m. m;
    queue_kept = λ x m. m;
    covered = λ x m c. absurd m;
    worked = omega arith;
  }

  module _ (anchor : String) where
    -- The loop that does not meet the anchor: the anchor is no parent, and the walk is extended.
    pub scan_parents-miss :
        (ps : List String) (w w' : Walk)
        → scan_parents commits anchor ps w ≡ miss w'
        → Extends ps w w' × ¬ (Elem anchor ps)
    unfolding scan_parents
    scan_parents-miss [] w w' h = (cc_path (Extends-refl w) (ground arith), λ m. m)
      where
        cc_path : Extends [] w w → w ≡ w' → Extends [] w w'
        cc_path e same = rw (← same) e
    scan_parents-miss (p ∷ ps) w w' h = elim (Bool-cases (p == anchor)) [
      | inl e ↦ absurd (ground arith)
      | inr e ↦
          let v = visit_parent commits w p in
          let rest = scan_parents-miss ps v w' (ground arith) in
          (
            Extends-trans p ps w v w' (visit_parent-Extends w p) rest.0,
            λ m. ground (arith, rest.1, eq_iff p anchor),
          )
    ]

    pub scan_parents-hit :
        (ps : List String) (w : Walk) → scan_parents commits anchor ps w ≡ hit → Elem anchor ps
    unfolding scan_parents
    scan_parents-hit [] w h = cc
    scan_parents-hit (p ∷ ps) w h =
        ground (arith, scan_parents-hit ps (visit_parent commits w p), eq_iff p anchor)

    pub Scan-cases : (s : Scan) → (s ≡ hit) ⊎ ((w : Walk) × (s ≡ miss w))
    Scan-cases hit = inl refl
    Scan-cases (miss w) = inr (w, refl)
