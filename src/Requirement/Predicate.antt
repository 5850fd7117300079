-- ===== src/Requirement/Predicate.antt =====
-- Results, indexCandidate and predicate of internal/requirement/evaluate.go.
use capagent.Base.{
  ℕ, ◌==◌, ltb, if◌then◌else◌, Bool, true, false, not, ◌&&◌, ◌||◌, List, [], ◌∷◌, Option, none,
  some, Text, text_eq, length,
}
use capagent.Model.Errors.{
  Error, failed, or_else, fail_if, candidate_size_limit, scope_differs, duplicate_capability,
  duplicate_evidence,
}
use capagent.Model.States.{
  CapabilityState, supported, unavailable, state_eq, confidence_is_valid, is_complete,
}
use capagent.Model.Scope.{EvaluationScope, scope_is_valid, scope_eq}
use capagent.Model.CapabilityId.{CapabilityId}
use capagent.Model.Evidence.{Evidence, EvidenceRef, evidence_validate}
use capagent.Model.Capability.{Capability, Candidate, capability_validate}
use capagent.Requirement.Logic.{RequirementState, satisfied, unsatisfied, indeterminate}
use capagent.Requirement.Node.{present}

pub data Code : Type 0 where
  invalid_requirement invalid_candidates invalid_candidate : Code
  missing_capability indeterminate_capability missing_evidence invalid_evidence : Code

-- The `Reason` of a result, with the values that the code formats into it.
pub data Explanation : Type 0 where
  error : Error → Explanation
  candidate_count any_candidate not_operator all_operator any_operator : Explanation
  not_evaluated no_evidence bad_evidence : CapabilityId → Explanation
  in_state : CapabilityId → CapabilityState → Explanation

pub record Diagnostic : Type 0 where
  pub code : Code
  pub message : Explanation

-- `Result`, and the slice of its children.
mutual
  pub data Result : Type 0 where
    result :
        RequirementState → Explanation → Option EvaluationScope → List Diagnostic → Results → Result

  pub data Results : Type 0 where
    nil : Results
    cons : Result → Results → Results

abbrev pub state : Result → RequirementState
state (result s reason scope ds children) = s

abbrev pub diagnostics : Result → List Diagnostic
diagnostics (result s reason scope ds children) = ds

-- `child.Scope = &scope`.
abbrev pub with_scope : EvaluationScope → Result → Result
with_scope scope (result s reason old ds children) = result s reason (some scope) ds children

-- `append(results, child)`.
unfoldable pub append_child : Results → Result → Results
append_child nil child = cons child nil
append_child (cons r rs) child = cons r (append_child rs child)

unfoldable pub uncertain : Code → Explanation → Result
uncertain code reason =
    result indeterminate reason none (record { code = code; message = reason } ∷ []) nil

abbrev pub max_candidates : ℕ
max_candidates = 128

abbrev pub max_candidate_entries : ℕ
max_candidate_entries = 4096

-- The maps hold each key once, so they are lists.
pub record CandidateIndex : Type 0 where
  pub scope : EvaluationScope
  pub caps : List Capability
  pub evidence : List Evidence

unfoldable pub find_capability : List Capability → CapabilityId → Option Capability
find_capability [] id = none
find_capability (c ∷ cs) id = if text_eq c.id id then some c else find_capability cs id

unfoldable pub find_evidence : List Evidence → Text → Option Evidence
find_evidence [] id = none
find_evidence (e ∷ es) id = if text_eq e.id id then some e else find_evidence es id

-- The loop over the capabilities of a candidate: the error that it returns, over the map so far.
unfoldable pub check_capabilities :
    EvaluationScope → List Capability → List Capability → Option Error
unfolding find_capability
check_capabilities scope caps [] = none
check_capabilities scope caps (c ∷ cs) = or_else (capability_validate c) (
    fail_if (not (scope_eq c.scope scope)) scope_differs (
      fail_if (present (find_capability caps c.id)) duplicate_capability
        (check_capabilities scope (c ∷ caps) cs)))

unfoldable pub check_evidence : List Evidence → List Evidence → Option Error
unfolding find_evidence
check_evidence seen [] = none
check_evidence seen (e ∷ es) =
    fail_if (present (find_evidence seen e.id)) duplicate_evidence (check_evidence (e ∷ seen) es)

-- The error of indexCandidate.
unfoldable pub check_candidate : Candidate → Option Error
unfolding check_capabilities check_evidence
check_candidate c = or_else (scope_is_valid c.scope) (
    fail_if
      (ltb max_candidate_entries (length c.capabilities)
        || ltb max_candidate_entries (length c.evidence))
      candidate_size_limit
      (or_else (check_capabilities c.scope [] c.capabilities) (check_evidence [] c.evidence)))

-- The index that indexCandidate returns without an error.
abbrev pub index_of : Candidate → CandidateIndex
index_of c = record { scope = c.scope; caps = c.capabilities; evidence = c.evidence }

-- The condition of the loop over the references, negated: the evidence supports the capability.
unfoldable pub supports : CandidateIndex → CapabilityId → CapabilityState → Evidence → Bool
supports index id s ev =
    not (failed (evidence_validate ev))
    && (scope_eq ev.scope index.scope
        && (is_complete ev.completeness
            && (state_eq ev.state s
                && (text_eq ev.claim id && not (failed (confidence_is_valid ev.confidence))))))

abbrev pub found_supports : CandidateIndex → CapabilityId → CapabilityState → Option Evidence → Bool
found_supports index id s none = false
found_supports index id s (some ev) = supports index id s ev

unfoldable pub references_support :
    CandidateIndex → CapabilityId → CapabilityState → List EvidenceRef → Bool
unfolding supports find_evidence
references_support index id s [] = true
references_support index id s (ref ∷ refs) =
    found_supports index id s (find_evidence index.evidence ref)
    && references_support index id s refs

-- `state == StateUnknown || state == StateUnavailable`.
abbrev pub is_undetermined : CapabilityState → Bool
is_undetermined CapabilityState.unknown = true
is_undetermined unavailable = true
is_undetermined _ = false

abbrev pub verdict : CapabilityState → RequirementState
verdict supported = satisfied
verdict _ = unsatisfied

-- The part of predicate behind the lookup.
unfoldable pub judge : CandidateIndex → CapabilityId → Capability → Result
unfolding references_support uncertain
judge index id c =
    if is_undetermined c.state
    then uncertain indeterminate_capability (in_state id c.state)
    else if length c.evidence == 0
    then uncertain missing_evidence (no_evidence id)
    else if references_support index id c.state c.evidence
    then result (verdict c.state) (in_state id c.state) none [] nil
    else uncertain invalid_evidence (bad_evidence id)

abbrev pub judge_found : CandidateIndex → CapabilityId → Option Capability → Result
judge_found index id none = uncertain missing_capability (not_evaluated id)
judge_found index id (some c) = judge index id c

unfoldable pub predicate : CapabilityId → CandidateIndex → Result
unfolding judge find_capability uncertain
predicate id index = judge_found index id (find_capability index.caps id)
