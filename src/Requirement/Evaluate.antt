-- ===== src/Requirement/Evaluate.antt =====
-- Evaluate and evaluateNode of internal/requirement/evaluate.go.
use capagent.Base.{
  ℕ, zero, suc, ◌==◌, ltb, if◌then◌else◌, not, ◌||◌, List, [], ◌∷◌, ◌++◌, Option, none, some,
  is_empty, length,
}
use capagent.Model.Errors.{Error}
use capagent.Model.Capability.{Candidate}
use capagent.Requirement.Logic.{RequirementState, satisfied, unsatisfied, indeterminate, and, or}
use capagent.Requirement.Logic
use capagent.Requirement.Node.{
  Pointer, Heap, Checked, valid, invalid, present, slice, enough_fuel, validate,
}
use capagent.Requirement.Predicate.{
  nil, cons, Result, result, CandidateIndex, all_operator, any_candidate, any_operator,
  append_child, candidate_count, check_candidate, diagnostics, error, index_of, invalid_candidate,
  invalid_candidates, invalid_requirement, max_candidates, not_operator, predicate, state,
  uncertain, with_scope,
}

-- A child's result folded into the result so far.
unfoldable pub add_child :
    (RequirementState → RequirementState → RequirementState) → Result → Result → Result
unfolding append_child
add_child op (result s reason scope ds children) child =
    result (op s (state child)) reason scope (ds ++ diagnostics child) (append_child children child)

-- The loop over the children; `none` where a child's evaluation panics.
unfoldable pub evaluate_children :
    (RequirementState → RequirementState → RequirementState)
    → (Pointer → Option Result)
    → List Pointer
    → Result
    → Option Result
unfolding add_child
evaluate_children op evaluate [] acc = some acc
evaluate_children op evaluate (p ∷ ps) acc = elim (evaluate p) [
  | none ↦ none
  | some child ↦ evaluate_children op evaluate ps (add_child op acc child)
]

abbrev pub negate_result : Option Result → Option Result
negate_result none = none
negate_result (some child) =
    some (result (Logic.not (state child)) not_operator none (diagnostics child) (cons child nil))

-- `none` is a panic on a nil pointer, or that the fuel ran out.
unfoldable pub evaluate_node : ℕ → Heap → CandidateIndex → Pointer → Option Result
unfolding evaluate_children predicate
evaluate_node zero heap index p = none
evaluate_node (suc fuel) heap index none = none
evaluate_node (suc fuel) heap index (some a) =
    let node = heap a in
    let child = negate_result (evaluate_node fuel heap index node.negated) in
    let some_of =
      evaluate_children or (evaluate_node fuel heap index) (slice node.any)
        (result unsatisfied any_operator none [] nil) in
    let all_of =
      evaluate_children and (evaluate_node fuel heap index) (slice node.all)
        (result satisfied all_operator none [] nil) in
    if not (is_empty node.capability)
    then some (predicate node.capability index)
    else if present node.negated
    then child
    else if present node.any
    then some_of
    else all_of

-- The result for one candidate.
abbrev pub candidate_outcome : Heap → Pointer → Candidate → Option Error → Option Result
candidate_outcome heap root c (some e) = some (uncertain invalid_candidate (error e))
candidate_outcome heap root c none = evaluate_node enough_fuel heap (index_of c) root

unfoldable pub evaluate_candidate : Heap → Pointer → Candidate → Option Result
unfolding check_candidate evaluate_node uncertain
evaluate_candidate heap root c = candidate_outcome heap root c (check_candidate c)

-- The loop over the candidates.
unfoldable pub evaluate_candidates :
    (Candidate → Option Result) → List Candidate → Result → Option Result
unfolding add_child
evaluate_candidates outcome [] acc = some acc
evaluate_candidates outcome (c ∷ cs) acc = elim (outcome c) [
  | none ↦ none
  | some child ↦ evaluate_candidates outcome cs (add_child or acc (with_scope c.scope child))
]

abbrev pub evaluate_checked : Heap → Pointer → List Candidate → Checked → Option Result
evaluate_checked heap root candidates (invalid e) = some (uncertain invalid_requirement (error e))
evaluate_checked heap root candidates (valid n) =
    if length candidates == 0 || ltb max_candidates (length candidates)
    then some (uncertain invalid_candidates candidate_count)
    else evaluate_candidates (evaluate_candidate heap root) candidates
        (result unsatisfied any_candidate none [] nil)

unfoldable pub evaluate : Heap → Pointer → List Candidate → Option Result
unfolding validate evaluate_candidate evaluate_candidates uncertain
evaluate heap root candidates = evaluate_checked heap root candidates (validate heap root)
