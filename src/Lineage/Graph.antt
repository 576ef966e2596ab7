-- ===== src/Lineage/Graph.antt =====
-- The graph of a work unit and its lookup: Graph, Resolve, readReplica and graphMatches of
-- internal/lineage/graph.go. The events are those that the store lists; the files of replicas are
-- read by a parameter.
pub mod Conflicts
pub mod Available
pub mod Lookup
use goalrail.Base.{
  String, Bool, true, false, ℕ, List, [], ◌∷◌, ◌++◌, Option, none, some, ◌==◌, ◌&&◌, ◌||◌, not,
  if◌then◌else◌, any, keep, map, concat, trim_prefix, add_key, contains, sort_by, sort_texts,
  text_lt, length, ltb, leb, is_blank, byte_length, clean_path,
}
use goalrail.Domain.{
  Sha256Digest, LineageRelation, LineageEvent, WorkUnit, ContentAddressedEvidenceReference,
  relation_single,
}
use goalrail.Admission.Types.{WorkUnitGraph, RelationConflict}

-- What the file of a replica holds.
pub data ReplicaFile : Type 0 where
  replica_absent replica_unreadable : ReplicaFile
  replica_bytes : String → ReplicaFile

abbrev pub digest_component : Sha256Digest → String
digest_component digest = trim_prefix digest "sha256:"

unfoldable pub is_replica_reference : ContentAddressedEvidenceReference → Bool
is_replica_reference reference =
    reference.source_ref
    == concat "repo:root/" (
        trim_prefix
          (clean_path (concat ".goalrail/evidence/sha256/" (digest_component reference.digest)))
          "/")

abbrev pub reference_key : ContentAddressedEvidenceReference → String
reference_key r = concat r.artifact_kind (
    concat "\0" (
      concat r.identity (
        concat "\0" (
          concat r.version (
            concat "\0" (
              concat r.digest
                (concat "\0" (concat r.source_ref (concat "\0" (concat r.adapter_id "\0"))))))))))

-- `referenceSetKey`
unfoldable pub reference_set_key : List ContentAddressedEvidenceReference → String
reference_set_key [] = ""
reference_set_key (r ∷ rs) = concat (reference_key r) (reference_set_key rs)

-- A claim of a single relation: its key and its event.
pub record Claim : Type 0 where
  pub relation : LineageRelation
  pub key : String
  pub digest : Sha256Digest

unfoldable pub claims_of : List LineageEvent → List Claim
claims_of [] = []
claims_of (e ∷ es) =
    if e.cardinality == relation_single
    then record {
      relation = e.relation;
      key = reference_set_key e.targets;
      digest = e.semantic_digest;
    }
      ∷ claims_of es
    else claims_of es

-- The keys of `claims[relation]`.
unfoldable pub keys_of : LineageRelation → List Claim → List String
keys_of relation [] = []
keys_of relation (c ∷ cs) =
    if c.relation == relation then add_key c.key (keys_of relation cs) else keys_of relation cs

-- The keys of `claims`.
unfoldable pub claimed_relations : List Claim → List LineageRelation
claimed_relations [] = []
claimed_relations (c ∷ cs) = add_key c.relation (claimed_relations cs)

unfoldable pub is_conflicting : List Claim → LineageRelation → Bool
is_conflicting claims relation = not (ltb (length (keys_of relation claims)) 2)

unfoldable pub conflict_of : List Claim → LineageRelation → RelationConflict
conflict_of claims relation = record {
  relation = relation;
  digests = sort_texts (map (λ c. c.digest) (keep (λ c. c.relation == relation) claims));
}

-- The loop over the claims, and the sorting of its result.
unfoldable pub conflicts_of : List Claim → List RelationConflict
conflicts_of claims =
    sort_by (λ a b. text_lt a.relation b.relation)
      (map (conflict_of claims) (keep (is_conflicting claims) (claimed_relations claims)))

pub record Marks : Type 0 where
  pub unavailable : List LineageRelation
  pub available : List LineageRelation
  pub replicas : List (Sha256Digest × String)

module _ (read_file : Sha256Digest → ReplicaFile) (digest_of : String → Sha256Digest) where
  -- `readReplica`: absent for a reference that names no replica; bytes of another digest are an error.
  unfoldable pub read_replica : ContentAddressedEvidenceReference → ReplicaFile
  read_replica reference =
      if not (is_replica_reference reference)
      then replica_absent
      else elim (read_file reference.digest) [
        | replica_bytes raw ↦
            if digest_of raw == reference.digest then replica_bytes raw else replica_unreadable
        | other ↦ other
      ]

  abbrev pub is_provider_unavailable : ContentAddressedEvidenceReference → Bool
  is_provider_unavailable reference = reference.artifact_kind == "provider_unavailable"

  -- One turn of the loop over the targets of an event.
  unfoldable pub mark_target :
      LineageRelation → ContentAddressedEvidenceReference → Marks → Option Marks
  mark_target relation reference marks =
      let noted : Marks = record marks {
        unavailable =
            if is_provider_unavailable reference
            then add_key relation marks.unavailable
            else marks.unavailable;
      } in
      elim (read_replica reference) [
        | replica_unreadable ↦ none
        | replica_bytes raw ↦ some (record noted {
          available = add_key relation noted.available;
          replicas = (reference.digest, raw) ∷ noted.replicas;
        })
        | replica_absent ↦ some (
            if is_replica_reference reference
            then record noted { unavailable = add_key relation noted.unavailable }
            else if is_provider_unavailable reference
            then noted
            else record noted { available = add_key relation noted.available })
      ]

  unfoldable pub mark_targets :
      LineageRelation → List ContentAddressedEvidenceReference → Marks → Option Marks
  mark_targets relation [] marks = some marks
  mark_targets relation (r ∷ rs) marks = elim (mark_target relation r marks) [
    | none ↦ none
    | some next ↦ mark_targets relation rs next
  ]

  unfoldable pub mark_events : List LineageEvent → Marks → Option Marks
  mark_events [] marks = some marks
  mark_events (e ∷ es) marks = elim (mark_targets e.relation e.targets marks) [
    | none ↦ none
    | some next ↦ mark_events es next
  ]

  abbrev pub replica_in : List (Sha256Digest × String) → Sha256Digest → String
  replica_in [] digest = ""
  replica_in ((d, raw) ∷ rest) digest = if d == digest then raw else replica_in rest digest

  -- `Graph`, of the unit and the events that the store holds.
  unfoldable pub graph : WorkUnit → List LineageEvent → Option WorkUnitGraph
  graph unit events =
      elim (mark_events events (record { unavailable = []; available = []; replicas = [] })) [
        | none ↦ none
        | some marks ↦ some (record {
          unit = unit;
          events = events;
          conflicts = conflicts_of (claims_of events);
          unavailable = sort_texts (keep (λ r. not (contains marks.available r)) marks.unavailable);
          replicas = replica_in marks.replicas;
        })
      ]

unfoldable pub reference_matches : ContentAddressedEvidenceReference → String → Bool
reference_matches reference query =
    query == reference.identity || (query == reference.digest || query == reference.source_ref)

unfoldable pub graph_matches : WorkUnitGraph → String → Bool
graph_matches g query =
    (query == g.unit.id
      || (query == g.unit.project_id
          || (query == g.unit.declaration_digest || query == g.unit.policy_digest)))
    || ((reference_matches g.unit.intent_ref query || reference_matches g.unit.change_ref query)
        || any
            (λ e.
              query == e.semantic_digest
              || any (λ r. reference_matches r query) (e.sources ++ e.targets))
            g.events)

pub data ResolutionStatus : Type 0 where
  resolution_found resolution_missing resolution_ambiguous : ResolutionStatus

pub record Resolution : Type 0 where
  pub query : String
  pub status : ResolutionStatus
  pub work_unit_ids : List String
  pub graphs : List WorkUnitGraph

-- The loop over the work units: `load` is the graph of one, and `none` an error.
unfoldable pub matching :
    (String → Option WorkUnitGraph) → String → List String → Option (List (String × WorkUnitGraph))
matching load query [] = some []
matching load query (id ∷ ids) = elim (load id) [
  | none ↦ none
  | some g ↦ elim (matching load query ids) [
    | none ↦ none
    | some rest ↦ some (if graph_matches g query then (id, g) ∷ rest else rest)
  ]
]

abbrev pub resolution_status : List (String × WorkUnitGraph) → ResolutionStatus
resolution_status [] = resolution_missing
resolution_status (_ ∷ []) = resolution_found
resolution_status (_ ∷ _ ∷ _) = resolution_ambiguous

-- `Resolve`, of the identifiers that the store lists.
unfoldable pub resolve : (String → Option WorkUnitGraph) → List String → String → Option Resolution
resolve load ids query =
    if is_blank query || not (leb (byte_length query) 256)
    then none
    else elim (matching load query ids) [
      | none ↦ none
      | some found ↦ some (record {
        query = query;
        status = resolution_status found;
        work_unit_ids = map (λ p. p.0) found;
        graphs = map (λ p. p.1) found;
      })
    ]
