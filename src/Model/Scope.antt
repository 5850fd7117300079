-- ===== src/Model/Scope.antt =====
-- EvaluationScope of internal/model/evaluation.go.
use capagent.Base.{
  ◌≡◌, Bool, true, false, not, ◌&&◌, ◌||◌, Option, none, Text, text_eq, is_empty, text_eq→eq,
  text_eq_refl, arith,
}
use capagent.Model.Errors.{Error, scope_incomplete, fail_if}

pub record EvaluationScope : Type 0 where
  pub run_id : Text
  pub context_id : Text
  pub runtime : Text
  pub endpoint : Text

-- `a != b` on Booleans.
abbrev differ : Bool → Bool → Bool
differ true b = not b
differ false b = b

unfoldable pub scope_is_valid : EvaluationScope → Option Error
scope_is_valid s =
    fail_if
      (is_empty s.run_id
        || (is_empty s.context_id || differ (is_empty s.runtime) (is_empty s.endpoint)))
      scope_incomplete none

-- `a == b` on the structs.
unfoldable pub scope_eq : EvaluationScope → EvaluationScope → Bool
scope_eq a b =
    text_eq a.run_id b.run_id
    && (text_eq a.context_id b.context_id
        && (text_eq a.runtime b.runtime && text_eq a.endpoint b.endpoint))

pub scope_eq_refl : (a : EvaluationScope) → scope_eq a a ≡ true
unfolding scope_eq
scope_eq_refl a = ground (
  arith,
  text_eq_refl a.run_id,
  text_eq_refl a.context_id,
  text_eq_refl a.runtime,
  text_eq_refl a.endpoint,
)

pub scope_eq→eq : (a b : EvaluationScope) → scope_eq a b ≡ true → a ≡ b
unfolding scope_eq
scope_eq→eq a b h = ground (
  arith,
  text_eq→eq a.run_id b.run_id,
  text_eq→eq a.context_id b.context_id,
  text_eq→eq a.runtime b.runtime,
  text_eq→eq a.endpoint b.endpoint,
)
