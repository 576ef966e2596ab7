-- ===== src/Admission/Projections.antt =====
-- `evaluateProjections` of internal/admission/effective.go.
pub mod Vouched
use goalrail.Base.{
  String, Bool, false, List, [], ◌∷◌, Option, none, some, ◌&&◌, not, ◌==◌, concat, any, contains,
  add_key, sort_by, text_lt, find_first, if◌then◌else◌,
}
use goalrail.Domain.{
  AdmissionReasonCode, Codec, lineage_confirmed_intent, lineage_terminal_receipt, LineageRelation,
}
use goalrail.Admission.Types.{
  SemanticProjection, WorkUnitGraph, Refusal, refusal, Checked, pass, refuse, projection_eq,
}

pub record ProjectionContract : Type 0 where
  pub relation : LineageRelation
  pub codec : String
  pub state : String

unfoldable pub projection_contract : String → Option ProjectionContract
projection_contract kind =
    if kind == "intent"
    then some (record {
      relation = lineage_confirmed_intent;
      codec = "goalrail.intent-snapshot/v1";
      state = "confirmed";
    })
    else (if kind == "terminal_receipt"
        then some (record {
          relation = lineage_terminal_receipt;
          codec = "goalrail.terminal-receipt/v1";
          state = "passed";
        })
        else none)

unfoldable pub projection_states : String → List String
projection_states kind =
    if kind == "intent"
    then "confirmed" ∷ "candidate" ∷ "invalid" ∷ []
    else (if kind == "terminal_receipt"
        then "passed" ∷ "failed" ∷ "blocked" ∷ "unlinked" ∷ "launch_failed"
          ∷ "launch_attempted_unknown" ∷ "verification_incomplete" ∷ "prepared" ∷ "launch_attempted"
          ∷ "awaiting_verification" ∷ "invalid" ∷ []
        else [])

abbrev pub projection_ref : SemanticProjection → String
projection_ref p = if not (p.identity == "") then p.identity else concat "projection:" p.kind

unfoldable pub projection_binds_committed_target : WorkUnitGraph → SemanticProjection → Bool
projection_binds_committed_target graph p =
    any
      (λ event.
        event.relation == p.relation
        && any
            (λ target.
              target.artifact_kind == p.kind
              && (target.identity == p.identity
                  && (target.version == p.version && target.digest == p.digest)))
            event.targets)
      graph.events

abbrev pub projection_lt : SemanticProjection → SemanticProjection → Bool
projection_lt a b =
    if not (a.relation == b.relation)
    then text_lt a.relation b.relation
    else (if not (a.identity == b.identity)
        then text_lt a.identity b.identity
        else text_lt a.digest b.digest)

module _ (codec : Codec) where
  unfoldable pub well_formed_projection : SemanticProjection → Bool
  well_formed_projection p = elim (projection_contract p.kind) [
    | none ↦ false
    | some c ↦
        p.relation == c.relation
        && (p.codec_id == c.codec
            && (contains (projection_states p.kind) p.state && codec.is_sha256_digest p.digest))
  ]

  -- `claimed` holds the projections accepted before; the latest stands first.
  unfoldable pub projection_fault :
      WorkUnitGraph → List SemanticProjection → SemanticProjection → Option Refusal
  projection_fault graph claimed p =
      if not (well_formed_projection p)
      then some (refusal AdmissionReasonCode.packet_invalid (projection_ref p ∷ []))
      else (if not (projection_binds_committed_target graph p)
          then some (refusal AdmissionReasonCode.packet_invalid (projection_ref p ∷ []))
          else elim (find_first (λ q. q.relation == p.relation) claimed) [
            | none ↦ none
            | some q ↦
                if not (projection_eq q p)
                then some (
                    refusal AdmissionReasonCode.lineage_conflict
                      (projection_ref q ∷ projection_ref p ∷ []))
                else none
          ])

  unfoldable pub projection_satisfies : SemanticProjection → Bool
  projection_satisfies p = elim (projection_contract p.kind) [
    | none ↦ false
    | some c ↦ p.is_valid && p.state == c.state
  ]

  unfoldable pub accept_projections :
      WorkUnitGraph
      → List SemanticProjection
      → List LineageRelation
      → List SemanticProjection
      → Checked (List LineageRelation)
  accept_projections graph [] satisfied claimed = pass satisfied
  accept_projections graph (p ∷ ps) satisfied claimed = elim (projection_fault graph claimed p) [
    | some fault ↦ refuse fault
    | none ↦
        accept_projections graph ps
          (if projection_satisfies p then add_key p.relation satisfied else satisfied) (p ∷ claimed)
  ]

  unfoldable pub evaluate_projections :
      WorkUnitGraph → List SemanticProjection → Checked (List LineageRelation)
  evaluate_projections graph projections =
      accept_projections graph (sort_by projection_lt projections) [] []
