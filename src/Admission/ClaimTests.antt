-- ===== src/Admission/ClaimTests.antt =====
-- The theorems on exceptions and restoration claims at a concrete claim.
use goalrail.Base.{
  eq_iff, String, List, [], ◌∷◌, true, false, none, ◌≡◌, ◌↔◌, ◌*◌, ◌<◌, ◌≤◌, arith, refl, Elem, inr,
  inl,
}
use goalrail.Admission.Opened.{run}
use goalrail.Admission.Sample.{change, at_}
use goalrail.Admission.Claim.{claim_codec, claim_frozen, claim_policy, claim_event, claim_envelope}
use goalrail.Admission.Exception.{granted, authorized_exception, exceeds_limit}
use goalrail.Admission.Exception.Granted.{IsGranted, authorized_exception-IsGranted}
use goalrail.Admission.Exception.Duration.{
  exceeds_limit_iff, exceeds_limit_sound, exceeds_limit_wraps,
}
use goalrail.Admission.Restoration.{restoration_failure}
use goalrail.Admission.Restoration.Artifact.{IsAddressable}
use goalrail.Admission.Restoration.Anchored.{
  IsMaterialTouch, IsAnchoredBefore, restoration_failure-IsAncestor,
}

abbrev material : List String
material = "src/main.go" ∷ []

claim_granted :
    authorized_exception claim_codec claim_frozen claim_policy material (at_ 10)
    ≡ granted "restoration"
unfolding run
claim_granted = refl

authorized_exception-IsGranted_example :
    IsGranted claim_frozen claim_policy material claim_codec (at_ 10) "restoration"
authorized_exception-IsGranted_example =
    authorized_exception-IsGranted claim_codec claim_frozen claim_policy material (at_ 10)
      "restoration" claim_granted

claim_stands :
    restoration_failure claim_frozen claim_policy claim_event claim_envelope material ≡ none
unfolding run
claim_stands = refl

commits_named : ¬ Elem "" claim_frozen.commits
commits_named m = ground (arith, eq_iff "" "c2", eq_iff "" "c3")

src_touched : IsMaterialTouch claim_frozen material claim_envelope.path_prefixes "c3"
unfolding run
src_touched = record {
  in_range = inr (inl refl);
  change = record (change "src/main.go") { commits = "c3" ∷ [] };
  changed = inr (inl refl);
  by_commit = inl refl;
  path = "src/main.go";
  material = inl refl;
  scoped = refl;
  touched = refl;
}

restoration_failure-IsAncestor_example :
    IsAddressable claim_event × IsAnchoredBefore claim_frozen claim_event "c3"
restoration_failure-IsAncestor_example =
    restoration_failure-IsAncestor claim_frozen claim_policy claim_event claim_envelope material
      "c3" claim_stands commits_named src_touched

exceeds_limit_iff_example : (exceeds_limit 1000000001 1 ≡ true) ↔ (1 * 1000000000 < 1000000001)
exceeds_limit_iff_example = exceeds_limit_iff 1000000001 1 (omega arith)

within : exceeds_limit 1000000000 1 ≡ false
unfolding run
within = refl

exceeds_limit_sound_example : 1000000000 ≤ 1 * 1000000000
exceeds_limit_sound_example = exceeds_limit_sound 1000000000 1 within

exceeds_limit_wraps_example : exceeds_limit 0 9223372037 ≡ true
exceeds_limit_wraps_example = exceeds_limit_wraps 0 9223372037 (omega arith) (omega arith)
