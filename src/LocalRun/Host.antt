-- ===== src/LocalRun/Host.antt =====
-- What a service of internal/localrun stands on: the codecs of the stored records, the searches by
-- regular expression, and the adapter. The outside's answers to one call are a record of that call.
use goalrail.Base.{String, Bool, ℕ, Option, List, Time}
use goalrail.Domain.{FrozenWorkSpec, WorkSpecCodec}
use goalrail.LocalRun.Store.{Json, Disk}
use goalrail.LocalRun.Types.{
  LaunchClaim, Preparation, ProviderObservation, WorktreeObservation, EscalationRecord,
  TerminalReceipt,
}

pub record Host (Bytes : Type 0) : Type 0 where
  pub specs : WorkSpecCodec Bytes
  pub preparations : Json Preparation Bytes
  pub claims : Json LaunchClaim Bytes
  pub observations : Json ProviderObservation Bytes
  pub worktrees : Json WorktreeObservation Bytes
  pub escalations : Json EscalationRecord Bytes
  pub receipts : Json TerminalReceipt Bytes
  -- The bytes of a payload as text, where they are UTF-8, and their number.
  pub text_of : Bytes → Option String
  pub byte_count : Bytes → ℕ
  pub has_secret : String → Bool
  pub is_evidence_reference : String → Bool

pub record LaunchRequest (Bytes : Type 0) : Type 0 where
  pub run_id : String
  pub work_spec : FrozenWorkSpec Bytes
  pub arguments : List String
  pub escalation_announcement : String

pub record Adapter (Bytes : Type 0) : Type 0 where
  pub name : String
  pub version : String
  -- `VerifyAnnouncementDelivery` returns no error.
  pub announcement_delivered : Bool
  pub launch : LaunchRequest Bytes → ProviderObservation

-- The answers to a `Prepare`.
pub record PrepareCall : Type 0 where
  pub disk : Disk
  -- The repository's root and revision.
  pub resolved : Option (String × String)
  pub store_within : String → Bool
  -- `validateScopedPathBoundaries` returns no error.
  pub within_boundaries : String → List String → Bool
  pub intent_verified : Bool
  pub authority_verified : Bool
  pub baseline : Option WorktreeObservation
  pub now : Time

-- The answers to a `Start`, in their order.
pub record StartCall (Bytes : Type 0) : Type 0 where
  pub disk : Disk
  -- The service has an observer and an admission.
  pub activated : Bool
  pub resolved : Option (String × String)
  pub admission_consumed : FrozenWorkSpec Bytes → Bool
  -- `escalationArtifactPresent`, `none` for its error.
  pub artifact_present : Option Bool
  pub new_run_id : Option String
  pub attempted_at : Time
  pub observed_at : Time
  pub rejected_at : Time
  pub terminal : Option WorktreeObservation
  -- The bytes of the escalation artifact, `none` where it cannot be read.
  pub artifact : Option Bytes
  pub terminal_at : Time

-- The answers to a `Finish`.
pub record FinishCall : Type 0 where
  pub disk : Disk
  pub observed : Option WorktreeObservation
  pub now : Time
