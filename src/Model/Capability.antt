-- ===== src/Model/Capability.antt =====
-- Capability and Candidate of internal/model/capability.go, and Diagnostic of evaluation.go.
use capagent.Base.{List, Option, none, some}
use capagent.Model.Errors.{Error, or_else, capability_id, capability_state, capability_confidence}
use capagent.Model.States.{CapabilityState, ConfidenceLevel, state_is_valid, confidence_is_valid}
use capagent.Model.Scope.{EvaluationScope}
use capagent.Model.CapabilityId.{CapabilityId, id_validate}
use capagent.Model.Evidence.{Evidence, EvidenceRef, EvidencePrecedence}

-- Why a capability is in its state: the `Reason` strings that the code writes.
pub data Reason : Type 0 where
  no_complete_evidence conflicting_evidence no_reason : Reason
  selected_evidence : EvidencePrecedence → Reason
  prerequisite_unsupported : CapabilityId → Reason
  identity_unobserved : Reason

pub record Capability : Type 0 where
  pub scope : EvaluationScope
  pub id : CapabilityId
  pub state : CapabilityState
  pub confidence : ConfidenceLevel
  pub reason : Reason
  pub evidence : List EvidenceRef

pub record Candidate : Type 0 where
  pub scope : EvaluationScope
  pub capabilities : List Capability
  pub evidence : List Evidence

-- `fmt.Errorf("...: %w", err)` where `err` is not nil.
abbrev wrap : (Error → Error) → Option Error → Option Error
wrap f none = none
wrap f (some e) = some (f e)

unfoldable pub capability_validate : Capability → Option Error
capability_validate c = or_else (wrap capability_id (id_validate c.id)) (
    or_else (wrap capability_state (state_is_valid c.state))
      (wrap capability_confidence (confidence_is_valid c.confidence)))
