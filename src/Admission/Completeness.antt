-- ===== src/Admission/Completeness.antt =====
-- internal/admission/completeness.go: which required relations are missing, and the lifecycle state.
pub mod Required
pub mod Committed
pub mod Lifecycle
use goalrail.Base.{
  String, Bool, true, false, List, [], ◌∷◌, ◌++◌, map, Option, none, some, ◌&&◌, ◌||◌, not, ◌==◌,
  any, contains, add_key, keep, sort_texts, Time, utc, is_zero, before, is_empty, if◌then◌else◌,
}
use goalrail.Domain.{
  Sha256Digest, LineageRelation, LineageRequirement, LineageEvent,
  ContentAddressedEvidenceReference, Codec, lineage_exception, lineage_closure, work_unit_open,
  work_unit_admission_ready, work_unit_closed,
}
use goalrail.Admission.Types.{WorkUnitGraph}
use goalrail.Admission.Effective.{EffectiveView, view_present, view_satisfied}

pub record Completeness : Type 0 where
  pub lifecycle : String
  pub missing : List LineageRelation
  pub ambiguous : List LineageRelation
  pub unavailable : List LineageRelation
  pub expired_exceptions : List Sha256Digest

abbrev pub lineage_exception_schema : String
lineage_exception_schema = "goalrail.lineage-exception/v1"

abbrev pub is_verified : ContentAddressedEvidenceReference → Bool
is_verified target = not (target.artifact_kind == "provider_unavailable")

unfoldable pub required_relation : List LineageRequirement → LineageRelation → Bool
required_relation requirements relation = any (λ r. r.relation == relation) requirements

-- The loop's variables: the relations marked present, and the digests of expired exceptions.
pub record EventScan : Type 0 where
  pub present : List LineageRelation
  pub expired : List Sha256Digest

module _ (codec : Codec) where
  -- `none` is the error of a replica that does not decode.
  unfoldable pub exception_expired : String → Time → Option Bool
  exception_expired raw evaluated_at =
      if raw == "" then some false else elim (codec.unmarshal_expiry raw) [
        | none ↦ none
        | some envelope ↦
            if not (envelope.schema == lineage_exception_schema) || is_zero envelope.expires_at
            then none
            else some (not (before evaluated_at (utc envelope.expires_at)))
      ]

  -- The inner loop over an event's targets.
  unfoldable pub expired_targets :
      WorkUnitGraph
      → Time
      → LineageRelation
      → List ContentAddressedEvidenceReference
      → List Sha256Digest
      → Option (List Sha256Digest)
  expired_targets graph now relation [] expired = some expired
  expired_targets graph now relation (target ∷ targets) expired =
      let rest = expired_targets graph now relation targets expired in
      let rest_expired =
        expired_targets graph now relation targets (expired ++ target.digest ∷ []) in
      if is_verified target && relation == lineage_exception
      then elim (exception_expired (graph.replicas target.digest) now) [
        | none ↦ none
        | some has_expired ↦ if has_expired then rest_expired else rest
      ]
      else rest

  unfoldable pub scan_events :
      WorkUnitGraph → Time → List LineageEvent → EventScan → Option EventScan
  scan_events graph now [] s = some s
  scan_events graph now (event ∷ events) s =
      elim (expired_targets graph now event.relation event.targets s.expired) [
        | none ↦ none
        | some expired ↦ scan_events graph now events (record {
          present =
              if any is_verified event.targets && not (contains graph.unavailable event.relation)
              then add_key event.relation s.present
              else s.present;
          expired = expired;
        })
      ]

abbrev relations_of : List LineageRequirement → List LineageRelation
relations_of rs = map (λ r. r.relation) rs

-- The three lists that the source sorts.
unfoldable pub missing_relations :
    EffectiveView
    → WorkUnitGraph
    → List LineageRelation
    → (LineageRequirement → Bool)
    → List LineageRelation
missing_relations view graph present counts = sort_texts (
    relations_of (
      keep
        (λ r.
          counts r
          && not (
              view_present view r.relation (contains present r.relation)
                (contains graph.unavailable r.relation)))
        graph.unit.required_relations))

-- An unavailable relation that a candidate satisfies is dropped.
unfoldable pub retained_unavailable : EffectiveView → WorkUnitGraph → List LineageRelation
retained_unavailable view graph =
    sort_texts (keep (λ r. not (view_satisfied view r)) graph.unavailable)

unfoldable pub ambiguous_relations : WorkUnitGraph → List LineageRelation
ambiguous_relations graph = sort_texts (map (λ c. c.relation) graph.conflicts)

abbrev pub not_closure : LineageRequirement → Bool
not_closure r = not (r.relation == lineage_closure)

-- The blocking flags: closed and admission.
unfoldable pub blocks_closed : List LineageRequirement → List LineageRelation → Bool
blocks_closed requirements relations = any (required_relation requirements) relations

unfoldable pub blocks_admission : List LineageRequirement → List LineageRelation → Bool
blocks_admission requirements relations =
    any (λ r. required_relation requirements r && not (r == lineage_closure)) relations

unfoldable pub classify : EffectiveView → WorkUnitGraph → EventScan → Completeness
classify view graph scan =
    let requirements = graph.unit.required_relations in
    let admission_missing = missing_relations view graph scan.present not_closure in
    let closed_missing = missing_relations view graph scan.present (λ _. true) in
    let ambiguous = ambiguous_relations graph in
    let unavailable = retained_unavailable view graph in
    let expired = sort_texts scan.expired in
    let blocked_closed =
      not (is_empty expired)
      || (blocks_closed requirements ambiguous || blocks_closed requirements unavailable) in
    let blocked_admission =
      not (is_empty expired)
      || (blocks_admission requirements ambiguous || blocks_admission requirements unavailable) in
    let finish = λ (lifecycle : String) (missing : List LineageRelation).
      let c : Completeness = record {
        lifecycle = lifecycle;
        missing = missing;
        ambiguous = ambiguous;
        unavailable = unavailable;
        expired_exceptions = expired;
      } in
      c in
    if is_empty closed_missing && not blocked_closed
    then finish work_unit_closed []
    else (if is_empty admission_missing && not blocked_admission
        then finish work_unit_admission_ready closed_missing
        else finish work_unit_open admission_missing)

-- `none` is an error: no evaluation time, or an exception that does not decode.
unfoldable pub evaluate_completeness :
    Codec → WorkUnitGraph → Time → EffectiveView → Option Completeness
evaluate_completeness codec graph evaluated_at view =
    if is_zero evaluated_at
    then none
    else elim (scan_events codec graph (utc evaluated_at) graph.events
        (record { present = []; expired = [] })) [
          | none ↦ none
          | some scan ↦ some (classify view graph scan)
        ]
