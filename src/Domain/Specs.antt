-- ===== src/Domain/Specs.antt =====
-- The WorkSpec of internal/domain/work_spec.go: the input of one local run, and its frozen form.
use goalrail.Base.{
  String, ℕ, List, Option, Bool, none, some, not, ◌==◌, if◌then◌else◌, ◌≡◌, Option-cases, inl,
  arith, inr, eq_iff,
}
use goalrail.Domain.Lineage.{Sha256Digest}

abbrev pub WorkSpecDigest : Type 0
WorkSpecDigest = String

pub data CheckResultState : Type 0 where
  result_pass result_fail result_unavailable result_missing : CheckResultState
  -- A string that the source does not name.
  result_other : String → CheckResultState

pub record WorkSpecRepository : Type 0 where
  pub root : String
  pub base_revision : String

pub record WorkSpecIntentReference : Type 0 where
  pub id : String
  pub version : ℕ
  pub artifact_ref : String
  pub digest : String

pub record WorkSpecProjectReference : Type 0 where
  pub id : String
  pub artifact_ref : String
  pub digest : Sha256Digest

pub record WorkSpecPolicyReference : Type 0 where
  pub artifact_ref : String
  pub digest : Sha256Digest

pub record WorkSpecChangeReference : Type 0 where
  pub id : String
  pub artifact_ref : String
  pub digest : Sha256Digest
  pub intent_id : String
  pub intent_version : ℕ
  pub intent_digest : Sha256Digest

pub record WorkSpecWorkUnitReference : Type 0 where
  pub id : String
  pub artifact_ref : String
  pub digest : Sha256Digest

pub record WorkSpecCheck : Type 0 where
  pub id : String
  pub argv : List String

pub record WorkSpecStopCondition : Type 0 where
  pub id : String
  pub description : String

pub record WorkSpec : Type 0 where
  pub schema : String
  pub id : String
  pub version : ℕ
  pub project : Option WorkSpecProjectReference
  pub policy : Option WorkSpecPolicyReference
  pub change : Option WorkSpecChangeReference
  pub work_unit : Option WorkSpecWorkUnitReference
  pub repository : WorkSpecRepository
  pub intent : WorkSpecIntentReference
  pub task : String
  pub paths : List String
  pub checks : List WorkSpecCheck
  pub stop_conditions : List WorkSpecStopCondition
  pub posture : String

pub record FrozenWorkSpec (Bytes : Type 0) : Type 0 where
  pub spec : WorkSpec
  pub canonical : Bytes
  pub digest : WorkSpecDigest

-- What the freezing stands on: the normal form and the validation of a WorkSpec, JSON, SHA-256 and
-- the equality of bytes. `decode_work_spec` gives the normal form, and `none` for an error.
pub record WorkSpecCodec (Bytes : Type 0) : Type 0 where
  pub decode_work_spec : Bytes → Option WorkSpec
  pub normalize_work_spec : WorkSpec → WorkSpec
  pub is_valid_work_spec : WorkSpec → Bool
  pub marshal_work_spec : WorkSpec → Bytes
  pub digest_of : Bytes → String
  pub bytes_eq : Bytes → Bytes → Bool

module _ {Bytes : Type 0} (codec : WorkSpecCodec Bytes) where
  unfoldable pub freeze_work_spec : WorkSpec → Option (FrozenWorkSpec Bytes)
  freeze_work_spec spec =
      let normal = codec.normalize_work_spec spec in
      let canonical = codec.marshal_work_spec normal in
      if not (codec.is_valid_work_spec normal)
      then none
      else some (record {
        spec = codec.normalize_work_spec normal;
        canonical = canonical;
        digest = codec.digest_of canonical;
      })

  unfoldable pub open_frozen_work_spec : Bytes → WorkSpecDigest → Option (FrozenWorkSpec Bytes)
  open_frozen_work_spec canonical expected = elim (codec.decode_work_spec canonical) [
    | none ↦ none
    | some spec ↦ elim (freeze_work_spec spec) [
      | none ↦ none
      | some frozen ↦
          if not (codec.bytes_eq canonical frozen.canonical)
          then none
          else if not (frozen.digest == expected)
          then none
          else some frozen
    ]
  ]

  -- What is opened has the digest that was asked for.
  pub open_frozen_work_spec-digest :
      (canonical : Bytes) (expected : WorkSpecDigest) (frozen : FrozenWorkSpec Bytes)
      → open_frozen_work_spec canonical expected ≡ some frozen
      → frozen.digest ≡ expected
  unfolding open_frozen_work_spec
  open_frozen_work_spec-digest canonical expected frozen h =
      elim (Option-cases (codec.decode_work_spec canonical)) [
        | inl bad ↦ absurd (ground arith)
        | inr (spec, e) ↦ elim (Option-cases (freeze_work_spec spec)) [
          | inl bad ↦ absurd (ground arith)
          | inr (f, g) ↦ ground (arith, eq_iff f.digest expected)
        ]
      ]
