-- ===== src/Admission/Completeness/Committed.antt =====
-- A relation that `evaluateCompleteness` marks present rests on a committed event.
use goalrail.Base.{
  &&-eq-true, ◌&&◌, Bool, true, List, [], ◌∷◌, some, ◌≡◌, refl, ◌⊎◌, inl, inr, arith, contains, any,
  Elem, not, Option-cases, Elem-add_key, if◌then◌else◌, add_key, any-eq-true, Bool, ◌&&◌,
}
use goalrail.Domain.{Codec, LineageRelation, LineageEvent, ContentAddressedEvidenceReference}
use goalrail.Admission.Types.{WorkUnitGraph}
use goalrail.Admission.Completeness.{expired_targets, EventScan, scan_events, is_verified, Time}

-- A committed event of the relation with a target that is not a mark of unavailability.
abbrev pub Committed : WorkUnitGraph → LineageRelation → Type 0
Committed graph r =
    (event : LineageEvent) × Elem event graph.events
    × (event.relation ≡ r)
    × ((target : ContentAddressedEvidenceReference) × Elem target event.targets
        × (is_verified target ≡ true))

added_cases :
    (b : Bool) (x r : LineageRelation) (s : List LineageRelation)
    → Elem r (if b then add_key x s else s)
    → Elem r s ⊎ (b ≡ true) × (r ≡ x)
added_cases b x r s m = ground (arith, Elem-add_key x s r)

verified_event :
    (graph : WorkUnitGraph) (event : LineageEvent)
    → any is_verified event.targets ≡ true
    → Elem event graph.events
    → Committed graph event.relation
verified_event graph event h m = (event, m, refl, any-eq-true is_verified event.targets h)

pub scan_events-Committed :
    (codec : Codec) (graph : WorkUnitGraph) (now : Time) (events : List LineageEvent)
    (s result : EventScan) (r : LineageRelation)
    → ((event : LineageEvent) → Elem event events → Elem event graph.events)
    → scan_events codec graph now events s ≡ some result
    → Elem r result.present
    → Elem r s.present ⊎ Committed graph r
unfolding scan_events
scan_events-Committed codec graph now [] s result r sub h m = inl (ground arith)
scan_events-Committed codec graph now (event ∷ events) s result r sub h m =
    elim (Option-cases (expired_targets codec graph now event.relation event.targets s.expired)) [
      | inl e ↦ cc (rw (e, scan_events) at h)
      | inr (expired, e) ↦
          let b =
            any is_verified event.targets && not (contains graph.unavailable event.relation) in
          let marked = if b then add_key event.relation s.present else s.present in
          elim (scan_events-Committed codec graph now events
            (record { present = marked; expired = expired }) result r (λ x x_in. sub x (inr x_in))
            (rw (e, scan_events) at h) m) [
              | inr found ↦ inr found
              | inl old ↦ elim (added_cases b event.relation r s.present old) [
                | inl before ↦ inl before
                | inr (yes_, same) ↦ inr (
                    rw same (
                      verified_event graph event
                        (&&-eq-true (any is_verified event.targets) _ yes_).0
                        (sub event (inl refl))))
              ]
            ]
    ]
