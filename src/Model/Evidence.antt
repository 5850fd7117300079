-- ===== src/Model/Evidence.antt =====
-- internal/model/evidence.go, and the references of fact.go and capability.go.
-- A time is the nanoseconds since Go's zero time, so `IsZero` is a test for 0 and `After` is `>`.
use capagent.Base.{ℕ, ◌==◌, ltb, Bool, not, ◌&&◌, ◌||◌, List, Option, none, Text, is_empty}
use capagent.Model.Errors.{
  Error, failed, fail_if, or_else, invalid_precedence, evidence_without_id, evidence_without_source,
  evidence_without_claim, zero_timestamp,
}
use capagent.Model.States.{CapabilityState, ConfidenceLevel, Completeness}
use capagent.Model.Scope.{EvaluationScope}

-- A time.Time: nanoseconds since the first one that there is, whose int64 of seconds is -2^63.
abbrev pub Time : Type 0
Time = ℕ

-- `time.Time{}`, at second 0.
abbrev pub zero_time : Time
zero_time = 9223372036854775808000000000

-- `t.IsZero()`.
abbrev pub is_zero : Time → Bool
is_zero t = t == zero_time

-- `t.After(u)`.
abbrev pub after : Time → Time → Bool
after t u = ltb u t

-- A uint8: live 1, runtime 2, config 3, knowledge 4, heuristic 5.
abbrev pub EvidencePrecedence : Type 0
EvidencePrecedence = ℕ

abbrev pub precedence_live : EvidencePrecedence
precedence_live = 1

abbrev pub precedence_runtime : EvidencePrecedence
precedence_runtime = 2

abbrev pub precedence_config : EvidencePrecedence
precedence_config = 3

abbrev pub precedence_knowledge : EvidencePrecedence
precedence_knowledge = 4

abbrev pub precedence_heuristic : EvidencePrecedence
precedence_heuristic = 5

unfoldable pub precedence_is_valid : EvidencePrecedence → Option Error
precedence_is_valid p =
    fail_if
      (not (
        p == precedence_live
        || (p == precedence_runtime
            || (p == precedence_config
                || (p == precedence_knowledge || p == precedence_heuristic)))))
      (invalid_precedence p) none

unfoldable pub overrides : EvidencePrecedence → EvidencePrecedence → Bool
unfolding precedence_is_valid
overrides p q = not (failed (precedence_is_valid p) || failed (precedence_is_valid q)) && ltb p q

pub record ObservationRef : Type 0 where
  pub id : Text
  pub probe_id : Text

-- `EvidenceRef{ID: ...}`.
abbrev pub EvidenceRef : Type 0
EvidenceRef = Text

pub record Evidence : Type 0 where
  pub id : Text
  pub source : Text
  pub claim : Text
  pub precedence : EvidencePrecedence
  pub observations : List ObservationRef
  pub timestamp : Time
  pub scope : EvaluationScope
  pub completeness : Completeness
  pub state : CapabilityState
  pub confidence : ConfidenceLevel
  pub depends_on : List EvidenceRef

unfoldable pub evidence_validate : Evidence → Option Error
unfolding precedence_is_valid
evidence_validate e = fail_if (is_empty e.id) evidence_without_id (
    fail_if (is_empty e.source) evidence_without_source (
      fail_if (is_empty e.claim) evidence_without_claim (
        or_else (precedence_is_valid e.precedence)
          (fail_if (is_zero e.timestamp) zero_timestamp none))))
