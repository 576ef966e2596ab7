-- ===== src/Lineage/ClaimTests.antt =====
-- The theorems of the lineage graph at a work unit with two intents and a lost replica.
use goalrail.Base.{
  String, List, [], ◌∷◌, Option, none, some, ◌≡◌, ◌≢◌, ◌↔◌, refl, Elem, concat, if◌then◌else◌, ◌==◌,
}
use goalrail.Domain.{
  LineageEvent, WorkUnit, ContentAddressedEvidenceReference, relation_single, Sha256Digest,
  LineageRelation,
}
use goalrail.Admission.Types.{WorkUnitGraph, RelationConflict}
use goalrail.Lineage.Opened.{run}
use goalrail.Lineage.Graph.{
  graph, ReplicaFile, replica_absent, resolve, Resolution, resolution_missing, resolution_found,
  reference_set_key,
}
use goalrail.Lineage.Graph.Conflicts.{Claims, graph-conflicts_iff}
use goalrail.Lineage.Graph.Available.{SomeTarget, IsUnavailable, IsAvailable, graph-unavailable_iff}
use goalrail.Lineage.Graph.Lookup.{IsMatch, resolve_iff}

abbrev reference : String → ContentAddressedEvidenceReference
reference name = record {
  artifact_kind = "intent";
  identity = name;
  version = "v1";
  digest = concat "sha256:" name;
  source_ref = concat "repo:root/" name;
  adapter_id = "git";
}

abbrev replica : ContentAddressedEvidenceReference
replica = record (reference "review") { source_ref = "repo:root/.goalrail/evidence/sha256/review" }

abbrev event : String → LineageRelation → ContentAddressedEvidenceReference → LineageEvent
event digest relation target = record {
  schema = "goalrail.lineage-event/v1";
  work_unit_id = "unit-1";
  relation = relation;
  cardinality = relation_single;
  sources = [];
  targets = target ∷ [];
  actor_ref = "actor:one";
  adapter_id = "git";
  observed_at = record { instant = 1; zone = 0 };
  semantic_digest = digest;
}

abbrev unit : WorkUnit
unit = record {
  schema = "goalrail.work-unit/v1";
  id = "unit-1";
  project_id = "project-1";
  declaration_digest = "sha256:d";
  policy_digest = "sha256:p";
  intent_ref = reference "first";
  change_ref = reference "change";
  created_at = record { instant = 1; zone = 0 };
  lifecycle = "open";
  required_relations = [];
}

abbrev events : List LineageEvent
events =
    event "e1" "confirmed_intent" (reference "first")
    ∷ event "e2" "confirmed_intent" (reference "second")
    ∷ event "e3" "review_index" replica
    ∷ []

-- No replica is there.
abbrev nothing : Sha256Digest → ReplicaFile
nothing _ = replica_absent

abbrev digest_of : String → Sha256Digest
digest_of raw = concat "sha256:" raw

made : (g : WorkUnitGraph) × (graph nothing digest_of unit events ≡ some g)
unfolding run
made = (_, refl)

graph-conflicts_iff_example :
    ((c : RelationConflict) × Elem c made.0.conflicts × (c.relation ≡ "confirmed_intent")) ↔ (
      (a : LineageEvent) × (b : LineageEvent) × Elem a events
      × Elem b events
      × Claims a "confirmed_intent"
      × Claims b "confirmed_intent"
      × (reference_set_key a.targets ≢ reference_set_key b.targets))
graph-conflicts_iff_example =
    graph-conflicts_iff nothing digest_of unit events made.0 "confirmed_intent" made.1

graph-unavailable_iff_example : Elem "review_index" made.0.unavailable ↔ (
    SomeTarget nothing digest_of (IsUnavailable nothing digest_of) "review_index" events
    × (SomeTarget nothing digest_of (IsAvailable nothing digest_of) "review_index" events → ⊥))
graph-unavailable_iff_example =
    graph-unavailable_iff nothing digest_of unit events made.0 "review_index" made.1

abbrev load : String → Option WorkUnitGraph
load id = if id == "unit-1" then graph nothing digest_of unit events else none

resolved :
    (r : Resolution) × (resolve load ("unit-1" ∷ []) "second" ≡ some r)
    × (r.status ≡ resolution_found)
unfolding run
resolved = (_, refl, refl)

resolve_iff_example :
    ((id : String)
      → Elem id resolved.0.work_unit_ids ↔ (Elem id ("unit-1" ∷ []) × IsMatch load "second" id))
    × ((resolved.0.status ≡ resolution_missing)
        ↔ ((id : String) → Elem id ("unit-1" ∷ []) → IsMatch load "second" id → ⊥))
resolve_iff_example = resolve_iff load "second" ("unit-1" ∷ []) resolved.0 resolved.1

-- The two intents are one conflict, the lost replica is unavailable, and its event is no conflict.
lists_conflict :
    graph nothing digest_of unit events
    ≡ some (record {
      unit = unit;
      events = events;
      conflicts = (record { relation = "confirmed_intent"; digests = "e1" ∷ "e2" ∷ [] }) ∷ [];
      unavailable = "review_index" ∷ [];
      replicas = λ _. "";
    })
unfolding run
lists_conflict = refl
