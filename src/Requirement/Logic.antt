-- ===== src/Requirement/Logic.antt =====
-- internal/requirement/state.go and logic.go. `other` is any string that is no canonical state.
use capagent.Base.{Bool, true, false, ◌||◌, List, [], ◌∷◌, Option, none, some, Text, if◌then◌else◌}
use capagent.Model.Errors.{Error, failed, invalid_requirement_state}

pub data RequirementState : Type 0 where
  satisfied unsatisfied indeterminate : RequirementState
  other : Text → RequirementState

unfoldable pub is_valid : RequirementState → Option Error
is_valid (other s) = some invalid_requirement_state
is_valid _ = none

abbrev pub is_satisfied : RequirementState → Bool
is_satisfied satisfied = true
is_satisfied _ = false

abbrev pub is_unsatisfied : RequirementState → Bool
is_unsatisfied unsatisfied = true
is_unsatisfied _ = false

abbrev pub is_indeterminate : RequirementState → Bool
is_indeterminate indeterminate = true
is_indeterminate _ = false

-- `a.IsValid() != nil || b.IsValid() != nil || a == INDETERMINATE || b == INDETERMINATE`.
unfoldable pub undetermined : RequirementState → RequirementState → Bool
unfolding is_valid
undetermined a b =
    failed (is_valid a) || (failed (is_valid b) || (is_indeterminate a || is_indeterminate b))

unfoldable pub and : RequirementState → RequirementState → RequirementState
unfolding undetermined
and a b =
    if is_unsatisfied a || is_unsatisfied b
    then unsatisfied
    else if undetermined a b
    then indeterminate
    else satisfied

unfoldable pub or : RequirementState → RequirementState → RequirementState
unfolding undetermined
or a b =
    if is_satisfied a || is_satisfied b
    then satisfied
    else if undetermined a b
    then indeterminate
    else unsatisfied

unfoldable pub not : RequirementState → RequirementState
not satisfied = unsatisfied
not unsatisfied = satisfied
not _ = indeterminate

-- The loop that `All`, `Any` and `evaluateNode` share: `res = op(res, s)`.
unfoldable pub fold :
    (RequirementState → RequirementState → RequirementState)
    → RequirementState
    → List RequirementState
    → RequirementState
fold op res [] = res
fold op res (s ∷ ss) = fold op (op res s) ss

unfoldable pub all : List RequirementState → RequirementState
unfolding fold and
all states = fold and satisfied states

unfoldable pub any : List RequirementState → RequirementState
unfolding fold or
any states = fold or unsatisfied states
