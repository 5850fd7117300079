-- ===== src/Evaluation/Evaluate.antt =====
-- Evaluate of internal/capability/registry.go.
use capagent.Model.Errors.{failed}
use capagent.Graph.Kahn.{update}
use capagent.Model.Evidence.{Evidence}
use capagent.Evaluation.Registry.{Evaluator, Registry, Definition}
use capagent.Model.CapabilityId.{CapabilityId}
use capagent.Dataset.Check.{validate_dataset}
use capagent.Dataset.Index.{is_some, Dataset, DatasetError}
use capagent.Capability.Resolver.{Code, resolve, Diagnostic, Resolution}
use capagent.Model.States.{supported, ConfidenceLevel, CapabilityState, state_eq}
use capagent.Model.Capability.{
  prerequisite_unsupported, identity_unobserved, no_reason, Reason, Capability, Candidate,
}
use capagent.Base.{
  ◌||◌, not, if◌then◌else◌, false, none, ◌∷◌, Bool, keep, some, ◌++◌, [], Option, text_eq, List,
  Text,
}
use capagent.Model.Identity.{EvaluationContext}
use capagent.Model.Scope.{scope_is_valid, scope_eq, EvaluationScope}

pub record Evaluation : Type 0 where
  pub candidate : Candidate
  pub resolutions : List Resolution
  pub diagnostics : List Diagnostic

pub data EvaluationError : Type 0 where
  foreign_candidate missing_candidate_context foreign_evidence : EvaluationError
  dataset : DatasetError → EvaluationError

-- What Evaluate returns: a result, a result with an error, or a panic.
pub data Evaluated : Type 0 where
  evaluated : Evaluation → Evaluated
  stopped : Evaluation → EvaluationError → Evaluated
  panicked : Evaluated

-- `resolved`, with the zero value at a missing key.
abbrev pub Resolved : Type 0
Resolved = Text → Capability

abbrev pub zero_capability : Capability
zero_capability = record {
  scope = record { run_id = []; context_id = []; runtime = []; endpoint = [] };
  id = [];
  state = CapabilityState.other [];
  confidence = ConfidenceLevel.other [];
  reason = no_reason;
  evidence = [];
}

-- The reason; none for the empty string.
unfoldable pub missing_prerequisite : List CapabilityId → Resolved → Option Reason
unfolding state_eq
missing_prerequisite [] resolved = none
missing_prerequisite (dep ∷ deps) resolved =
    let rest = missing_prerequisite deps resolved in
    if not (state_eq (resolved dep).state supported)
    then some (prerequisite_unsupported dep)
    else rest

-- The last context with an ID.
unfoldable pub context_at : List EvaluationContext → Text → Option EvaluationContext
unfolding text_eq
context_at [] id = none
context_at (c ∷ cs) id = elim (context_at cs id) [
  | some found ↦ some found
  | none ↦ if text_eq c.id id then some c else none
]

unfoldable pub reason_for : EvaluationContext → Definition → Resolved → Option Reason
unfolding missing_prerequisite
reason_for c def resolved =
    if not (is_some c.identity.current) || not (is_some c.identity.target)
    then some identity_unobserved
    else missing_prerequisite def.dependencies resolved

-- The resolution where a prerequisite is missing.
abbrev pub unresolved : EvaluationScope → CapabilityId → Reason → Resolution
unresolved scope id reason = record {
  capability = record {
    scope = scope;
    id = id;
    state = CapabilityState.unknown;
    confidence = ConfidenceLevel.unknown;
    reason = reason;
    evidence = [];
  };
  superseded = [];
  diagnostics = record { code = Code.missing_prerequisite; reference = id } ∷ [];
}

-- Some item is of another claim or scope.
unfoldable pub has_foreign : EvaluationScope → CapabilityId → List Evidence → Bool
unfolding text_eq scope_eq
has_foreign scope id [] = false
has_foreign scope id (ev ∷ evs) =
    (not (text_eq ev.claim id) || not (scope_eq ev.scope scope)) || has_foreign scope id evs

-- One turn of the loop: the evidence after it and the resolution.
pub data Turn : Type 0 where
  resolves : List Evidence → Resolution → Turn
  fails : EvaluationError → Turn
  panics : Turn

abbrev pub turn_of : List Evidence → Option Resolution → Turn
turn_of evidence none = panics
turn_of evidence (some r) = resolves evidence r

-- `result.Candidate.Capabilities = append(...)`, and the like.
abbrev pub append_resolution : Evaluation → Resolution → Evaluation
append_resolution result r = record {
  candidate = record result.candidate {
    capabilities = result.candidate.capabilities ++ (r.capability ∷ []);
  };
  resolutions = result.resolutions ++ (r ∷ []);
  diagnostics = result.diagnostics ++ r.diagnostics;
}

module _ (iterate : List Text → List Text) (scope : EvaluationScope) (data_set : Dataset) where
  abbrev pub with_evidence : List Evidence → Dataset
  with_evidence evidence = record data_set { evidence = evidence }

  -- The turn where the evaluator runs and returns `generated`.
  unfoldable pub resolve_generated : CapabilityId → List Evidence → List Evidence → Turn
  unfolding has_foreign validate_dataset resolve
  resolve_generated id evidence generated =
      let more = evidence ++ generated in
      if has_foreign scope id generated
      then fails foreign_evidence
      else elim (validate_dataset iterate (with_evidence more)) [
        | some e ↦ fails (dataset e)
        | none ↦ turn_of more (resolve scope id data_set.at_time more)
      ]

  abbrev pub run_evaluator : CapabilityId → List Evidence → Option Evaluator → Turn
  unfolding resolve_generated
  run_evaluator id evidence none = panics
  run_evaluator id evidence (some evaluator) =
      resolve_generated id evidence (evaluator scope data_set.observations)

  -- One turn, given the reason why the evaluator does not run.
  unfoldable pub turn : Definition → List Evidence → Option Reason → Turn
  unfolding resolve_generated
  turn def evidence (some cause) = resolves evidence (unresolved scope def.id cause)
  turn def evidence none = run_evaluator def.id evidence def.evaluate

  -- `result.Candidate.Evidence` at the end.
  abbrev pub finished : Evaluation → List Evidence → Evaluation
  unfolding keep scope_eq
  finished result evidence = record result {
    candidate = record result.candidate {
      evidence = keep (λ ev. scope_eq ev.scope scope) evidence;
    };
  }

  unfoldable pub evaluate_all :
      EvaluationContext → List Evidence → Resolved → Evaluation → List Definition → Evaluated
  unfolding turn reason_for keep scope_eq
  evaluate_all c evidence resolved result [] = evaluated (finished result evidence)
  evaluate_all c evidence resolved result (def ∷ defs) =
      elim (turn def evidence (reason_for c def resolved)) [
        | panics ↦ panicked
        | fails e ↦ stopped result e
        | resolves more r ↦
            evaluate_all c more (update resolved def.id r.capability) (append_resolution result r)
              defs
      ]

abbrev pub no_result : EvaluationScope → Evaluation
no_result scope = record {
  candidate = record { scope = scope; capabilities = []; evidence = [] };
  resolutions = [];
  diagnostics = [];
}

-- From the search of the context on.
unfoldable pub evaluate_in :
    (List Text → List Text)
    → Registry
    → EvaluationScope
    → Dataset
    → Option EvaluationContext
    → Evaluated
unfolding evaluate_all
evaluate_in iterate r scope d none = stopped (no_result scope) missing_candidate_context
evaluate_in iterate r scope d (some c) =
    evaluate_all iterate scope d c d.evidence (λ id. zero_capability) (no_result scope)
      r.definitions

unfoldable pub evaluate_registry :
    (List Text → List Text) → Registry → EvaluationScope → Dataset → Evaluated
unfolding evaluate_in validate_dataset context_at
evaluate_registry iterate r scope d =
    if failed (scope_is_valid scope) || not (text_eq scope.run_id d.run_id)
    then stopped (no_result scope) foreign_candidate
    else elim (validate_dataset iterate d) [
      | some e ↦ stopped (no_result scope) (dataset e)
      | none ↦ evaluate_in iterate r scope d (context_at d.contexts scope.context_id)
    ]
