-- ===== src/Model/States.antt =====
-- internal/model/state.go and Completeness of evaluation.go: string types with a few canonical values.
-- `other` stands for any string that is none of these.
use capagent.Base.{
  ◌≡◌, refl, ap, Bool, true, false, Option, none, some, Text, text_eq, text_eq→eq, text_eq_refl,
  arith,
}
use capagent.Model.Errors.{Error, invalid_state, invalid_confidence, invalid_completeness}

pub data CapabilityState : Type 0 where
  supported unsupported misconfigured unavailable unknown : CapabilityState
  other : Text → CapabilityState

pub data ConfidenceLevel : Type 0 where
  verified derived heuristic unknown : ConfidenceLevel
  other : Text → ConfidenceLevel

pub data Completeness : Type 0 where
  complete partial unobserved : Completeness
  other : Text → Completeness

unfoldable pub state_is_valid : CapabilityState → Option Error
state_is_valid (CapabilityState.other s) = some invalid_state
state_is_valid _ = none

unfoldable pub confidence_is_valid : ConfidenceLevel → Option Error
confidence_is_valid (ConfidenceLevel.other s) = some invalid_confidence
confidence_is_valid _ = none

unfoldable pub completeness_is_valid : Completeness → Option Error
completeness_is_valid (Completeness.other s) = some invalid_completeness
completeness_is_valid _ = none

-- `a == b` on the strings.
unfoldable pub state_eq : CapabilityState → CapabilityState → Bool
state_eq supported supported = true
state_eq unsupported unsupported = true
state_eq misconfigured misconfigured = true
state_eq unavailable unavailable = true
state_eq CapabilityState.unknown CapabilityState.unknown = true
state_eq (CapabilityState.other s) (CapabilityState.other t) = text_eq s t
state_eq _ _ = false

abbrev pub is_complete : Completeness → Bool
is_complete complete = true
is_complete _ = false

pub state_eq→eq : (a b : CapabilityState) → state_eq a b ≡ true → a ≡ b
unfolding state_eq
state_eq→eq (CapabilityState.other s) (CapabilityState.other t) h =
    ap CapabilityState.other (text_eq→eq s t h)
state_eq→eq supported b h = ground arith
state_eq→eq unsupported b h = ground arith
state_eq→eq misconfigured b h = ground arith
state_eq→eq unavailable b h = ground arith
state_eq→eq CapabilityState.unknown b h = ground arith
state_eq→eq (CapabilityState.other s) b h = ground arith

pub state_eq_refl : (a : CapabilityState) → state_eq a a ≡ true
unfolding state_eq
state_eq_refl (CapabilityState.other s) = text_eq_refl s
state_eq_refl _ = refl
