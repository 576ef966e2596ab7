-- ===== src/Admission/Binding.antt =====
-- `verifyGraphBinding`, `hasRequiredSpine` and `graphCommitSetMatches` of
-- internal/admission/evaluate.go.
pub mod Spine
pub mod Commits
use mathlib.Core.List.{flat_map}
use goalrail.Base.{
  String, Bool, true, false, List, [], ◌∷◌, ◌++◌, Option, none, some, ◌&&◌, ◌||◌, not, ◌==◌, concat,
  trim_prefix, any, all, contains, add_key, sort_texts, length, nat_eq, is_empty, find_last,
  if◌then◌else◌,
}
use goalrail.Domain.{
  Sha256Digest, LineageRelation, LineageRequirement, LineageEvent, Codec,
  ContentAddressedEvidenceReference, AdmissionPacket, AdmissionReasonCode, reference_eq,
  lineage_commit, lineage_confirmed_intent, lineage_change,
}
use goalrail.Admission.Types.{WorkUnitGraph, ChangedPath, Refusal, refusal, required_spine}
use goalrail.Admission.Authority.{digest_is}

-- The map from relation to cardinality keeps the last entry.
unfoldable pub has_required_spine : List LineageRequirement → Bool
has_required_spine requirements =
    nat_eq (length requirements) (length required_spine)
    && all
        (λ want. elim (find_last (λ r. r.relation == want.relation) requirements) [
          | none ↦ false
          | some actual ↦ actual.cardinality == want.cardinality
        ])
        required_spine

unfoldable pub contains_evidence_reference :
    List ContentAddressedEvidenceReference → ContentAddressedEvidenceReference → Bool
contains_evidence_reference values want = any (λ value. reference_eq value want) values

unfoldable pub relation_targets :
    WorkUnitGraph → LineageRelation → ContentAddressedEvidenceReference → Bool
relation_targets graph relation reference =
    any (λ event. event.relation == relation && contains_evidence_reference event.targets reference)
      graph.events

unfoldable pub commit_revision : ContentAddressedEvidenceReference → String
commit_revision target =
    let by_identity = trim_prefix target.identity "git-commit:" in
    let by_source =
      if by_identity == target.identity
      then trim_prefix target.source_ref "git:commit/"
      else by_identity in
    if by_source == target.source_ref then trim_prefix target.source_ref "git:" else by_source

pub record CommitScan : Type 0 where
  pub seen : Bool
  pub linked : List String
  pub invalid : List String

unfoldable pub link_targets :
    List String → List ContentAddressedEvidenceReference → CommitScan → CommitScan
link_targets allowed [] s = s
link_targets allowed (target ∷ targets) s = link_targets allowed targets (
    if not (target.artifact_kind == "commit")
    then record s { invalid = s.invalid ++ target.identity ∷ [] }
    else (if not (contains allowed (commit_revision target))
        then record s { invalid = s.invalid ++ concat "git:commit/" (commit_revision target) ∷ [] }
        else record s { seen = true; linked = add_key (commit_revision target) s.linked }))

unfoldable pub link_events : List String → List LineageEvent → CommitScan → CommitScan
link_events allowed [] s = s
link_events allowed (event ∷ events) s =
    link_events allowed events
      (if event.relation == lineage_commit then link_targets allowed event.targets s else s)

unfoldable pub unlinked : List String → List String → List String
unlinked linked [] = []
unlinked linked (revision ∷ revisions) =
    if contains linked revision
    then unlinked linked revisions
    else concat "git:commit/" revision ∷ unlinked linked revisions

unfoldable pub unlinked_changes : List String → List String → List ChangedPath → List String
unlinked_changes linked material [] = []
unlinked_changes linked material (change ∷ changes) =
    (if contains material change.path || contains material change.previous_path
      then unlinked linked change.commits
      else [])
    ++ unlinked_changes linked material changes

-- The Boolean is that of the source; the references are the invalid ones.
unfoldable pub graph_commit_set_matches :
    WorkUnitGraph → List String → List ChangedPath → List String → Bool × List String
graph_commit_set_matches graph revisions changes material_paths =
    let s =
      link_events revisions graph.events (record { seen = false; linked = []; invalid = [] }) in
    let found = s.invalid ++ unlinked_changes s.linked material_paths changes in
    let invalid = if not s.seen && is_empty found then "lineage:commit" ∷ [] else found in
    (s.seen && is_empty invalid, sort_texts invalid)

unfoldable pub digests_to_refs : List Sha256Digest → List String
digests_to_refs digests = digests

unfoldable pub conflict_digests : WorkUnitGraph → List Sha256Digest
conflict_digests graph = flat_map (λ c. c.digests) graph.conflicts

unfoldable pub graph_conflict_refs : WorkUnitGraph → List String
graph_conflict_refs graph = sort_texts (conflict_digests graph)

unfoldable pub verify_commits :
    WorkUnitGraph → List String → List ChangedPath → List String → Option Refusal
verify_commits graph commits changes material_paths =
    let matched = graph_commit_set_matches graph commits changes material_paths in
    if not matched.0
    then some (refusal AdmissionReasonCode.change_mismatch matched.1)
    else (if not (is_empty graph.conflicts)
        then some (refusal AdmissionReasonCode.lineage_conflict (graph_conflict_refs graph))
        else none)

-- `none` is the empty reason.
unfoldable pub verify_graph_binding :
    Codec
    → WorkUnitGraph
    → AdmissionPacket
    → List String
    → List ChangedPath
    → List String
    → Sha256Digest
    → Sha256Digest
    → Option Refusal
verify_graph_binding codec graph packet commits changes material_paths declaration_digest
      policy_digest =
    let unit = graph.unit in
    if not (digest_is (codec.freeze_work_unit unit) packet.work_unit_ref.digest)
      || not (packet.work_unit_ref.identity == concat "work-unit:" unit.id)
    then some (refusal AdmissionReasonCode.change_mismatch ("packet:work-unit" ∷ []))
    else (if not (unit.project_id == packet.project_id)
          || (not (unit.declaration_digest == declaration_digest)
              || not (unit.policy_digest == policy_digest))
        then some (refusal AdmissionReasonCode.declaration_invalid ("lineage:work-unit" ∷ []))
        else (if not (has_required_spine unit.required_relations)
            then some
                (refusal AdmissionReasonCode.packet_invalid ("lineage:required-relations" ∷ []))
            else (if not (unit.intent_ref.artifact_kind == "intent")
                then some (
                    refusal AdmissionReasonCode.intent_unconfirmed
                      ("lineage:confirmed_intent" ∷ []))
                else (if not (unit.change_ref.artifact_kind == "change")
                    then some (refusal AdmissionReasonCode.change_mismatch ("lineage:change" ∷ []))
                    else (if not (relation_targets graph lineage_confirmed_intent unit.intent_ref)
                          || not (relation_targets graph lineage_change unit.change_ref)
                        then some (
                            refusal AdmissionReasonCode.lineage_conflict
                              (unit.intent_ref.digest ∷ unit.change_ref.digest ∷ []))
                        else (if not (
                              all
                                (λ event.
                                  contains_evidence_reference event.sources packet.work_unit_ref)
                                graph.events)
                            then some (
                                refusal AdmissionReasonCode.packet_invalid
                                  ("lineage:source-binding" ∷ []))
                            else verify_commits graph commits changes material_paths))))))
