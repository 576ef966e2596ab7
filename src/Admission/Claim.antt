-- ===== src/Admission/Claim.antt =====
-- A range with a restoration claim, for the tests: c2 records the claim, and its child c3 changes a
-- material path in the claim's scope.
use goalrail.Base.{[], ◌∷◌, some, ◌==◌, if◌then◌else◌, ◌++◌, true}
use goalrail.Domain.{Codec, ExceptionEnvelope, LineageEvent, ProjectPolicy}
use goalrail.Admission.Types.{FrozenRange}
use goalrail.Admission.Sample.{codec, policy, frozen, event, artifact, change, at_, graph}

abbrev pub claim_event : LineageEvent
claim_event = event "exception" "x" (artifact "exception" "claim.json" ∷ [])

abbrev pub claim_envelope : ExceptionEnvelope
claim_envelope = record {
  schema = "goalrail.lineage-exception/v1";
  authority_id = "restore";
  exception_class = "restoration";
  actor_ref = "user:dev";
  path_prefixes = "src" ∷ [];
  effect_scopes = [];
  issued_at = at_ 2;
  expires_at = at_ 100;
  requirement_ref = "repo:root/intent";
  requirement_digest = "sha256:intent";
}

abbrev pub claim_codec : Codec
claim_codec = record codec { unmarshal_exception = λ _. some claim_envelope }

abbrev pub claim_policy : ProjectPolicy
claim_policy = record policy {
  normative_path_prefixes = "intents" ∷ [];
  exception_authorities =
      record {
        id = "restore";
        exception_class = "restoration";
        actor_refs = "user:dev" ∷ [];
        path_prefixes = "src" ∷ [];
        effect_scopes = [];
        max_duration_seconds = 1;
        owner_decision_required = true;
      }
      ∷ [];
}

abbrev pub claim_frozen : FrozenRange
claim_frozen = record frozen {
  commits = "c2" ∷ "c3" ∷ [];
  commit_parents = λ c. if c == "c3" then "c2" ∷ [] else "c1" ∷ [];
  changes =
      record (change "claim.json") { commits = "c2" ∷ [] }
      ∷ record (change "src/main.go") { commits = "c3" ∷ [] }
      ∷ [];
  graph = record graph { events = graph.events ++ claim_event ∷ []; replicas = λ _. "{}" };
}
