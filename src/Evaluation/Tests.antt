-- ===== src/Evaluation/Tests.antt =====
-- A registry of two definitions, one of which needs the other, and its evaluation.
use capagent.Evaluation.Answers.{evaluate_registry-answers}
use capagent.Evaluation.Matched.{IsResolvedBy, Matched}
use capagent.Evaluation.Guarantee.{evaluate_registry-Matched, evaluate_registry-checked}
use capagent.Requirement.Predicate.{check_candidate}
use capagent.Capability.Topological.{topological}
use capagent.Model.Evidence.{evidence_validate, Evidence}
use capagent.Model.Scope.{EvaluationScope}
use capagent.Evaluation.Registry.{constructed, Definition, Registry, new_registry}
use capagent.Model.Observation.{Fact, Observation}
use capagent.Base.{
  ◌≢◌, refl, text_lt, occ, contains, text_eq, map, some, ◌++◌, ◌≡◌, none, true, ◌∷◌, codes, [],
  List, Text,
}
use capagent.Evaluation.Order.{new_registry-IsOrderOf, IsOrderOf}
use capagent.Dataset.Check.{check_graph, validate_indexed, validate_within, validate_dataset}
use capagent.Dataset.Index.{Dataset}
use capagent.Model.Identity.{ranges_is_valid, EvaluationContext, UserIdentity}
use capagent.Model.States.{verified, Completeness, unsupported, supported, CapabilityState}
use capagent.Evaluation.Evaluate.{
  no_result, stopped, panicked, Evaluation, evaluated, Evaluated, evaluate_registry,
}

program : Unit {0}
unfolding evaluate_registry new_registry validate_dataset validate_within validate_indexed
    check_graph topological text_eq contains occ text_lt evidence_validate ranges_is_valid
    check_candidate
program = tt

abbrev scope : EvaluationScope
scope = record { run_id = codes "run"; context_id = codes "here"; runtime = []; endpoint = [] }

abbrev fact : Fact
fact = record {
  id = codes "fact";
  scope = scope;
  completeness = Completeness.complete;
  source = codes "/proc/version";
  raw_data = [];
  text = [];
  timestamp = 1;
}

abbrev observation : Observation
observation = record {
  id = codes "seen";
  probe_id = codes "kernel";
  timestamp = 2;
  summary = [];
  scope = scope;
  completeness = Completeness.complete;
  facts = fact ∷ [];
}

abbrev user : UserIdentity
user = record { uid = 1000; gid = 1000; supplementary_groups = []; groups_known = true }

abbrev context : EvaluationContext
context = record {
  id = codes "here";
  namespaces = [];
  identity = record {
    execution = none;
    selection = [];
    current = some user;
    target = some user;
    sub_uid_ranges = [];
    sub_gid_ranges = [];
  };
}

abbrev item : Text → CapabilityState → Evidence
item claim state = record {
  id = claim;
  source = codes "kernel";
  claim = claim;
  precedence = 1;
  observations = record { id = codes "seen"; probe_id = codes "kernel" } ∷ [];
  timestamp = 3;
  scope = scope;
  completeness = Completeness.complete;
  state = state;
  confidence = verified;
  depends_on = [];
}

abbrev kernel : Text
kernel = codes "host.kernel"

abbrev overlay : Text
overlay = codes "storage.overlay"

-- The definitions, where the kernel is found to be in a state.
abbrev definitions_in : CapabilityState → List Definition
definitions_in state =
    record {
      id = overlay;
      description = codes "overlay";
      dependencies = kernel ∷ [];
      evaluate = some (λ s os. item overlay supported ∷ []);
    }
    ∷ record {
      id = kernel;
      description = codes "kernel";
      dependencies = [];
      evaluate = some (λ s os. item kernel state ∷ []);
    }
    ∷ []

abbrev data_set : Dataset
data_set = record {
  run_id = codes "run";
  at_time = 5;
  contexts = context ∷ [];
  observations = observation ∷ [];
  evidence = [];
}

abbrev registry_for : CapabilityState → Registry
registry_for state = elim (definitions_in state) [
  | [] ↦ record { definitions = [] }
  | ◌∷◌ first rest ↦ record { definitions = rest ++ (first ∷ []) }
]

new_registry-definitions :
    new_registry (definitions_in supported) ≡ constructed (registry_for supported)
unfolding program
new_registry-definitions = refl

new_registry-other :
    new_registry (definitions_in unsupported) ≡ constructed (registry_for unsupported)
unfolding program
new_registry-other = refl

-- The states of the capabilities that Evaluate returns.
abbrev states_of : Evaluated → List CapabilityState
states_of (evaluated e) = map (λ c. c.state) e.candidate.capabilities
states_of _ = []

evaluate-supported :
    states_of (evaluate_registry (λ keys. keys) (registry_for supported) scope data_set)
    ≡ supported ∷ supported ∷ []
unfolding program
evaluate-supported = refl

evaluate-unsupported :
    states_of (evaluate_registry (λ keys. keys) (registry_for unsupported) scope data_set)
    ≡ unsupported ∷ CapabilityState.unknown ∷ []
unfolding program
evaluate-unsupported = refl

new_registry-IsOrderOf_example :
    IsOrderOf (definitions_in supported) (registry_for supported).definitions
new_registry-IsOrderOf_example =
    new_registry-IsOrderOf (definitions_in supported) (registry_for supported)
      new_registry-definitions

-- The evaluation in an outcome.
abbrev evaluation_of : Evaluated → Evaluation
evaluation_of (evaluated e) = e
evaluation_of (stopped e error) = e
evaluation_of panicked = no_result scope

unfoldable result : Evaluation
unfolding evaluate_registry
result = evaluation_of (evaluate_registry (λ keys. keys) (registry_for supported) scope data_set)

evaluate-result :
    evaluate_registry (λ keys. keys) (registry_for supported) scope data_set ≡ evaluated result
unfolding program result
evaluate-result = refl

evaluate_registry-Matched_example :
    Matched
      (IsResolvedBy scope result.candidate.capabilities)
      (registry_for supported).definitions
      result.candidate.capabilities
evaluate_registry-Matched_example =
    evaluate_registry-Matched (λ keys. keys) (definitions_in supported) (registry_for supported)
      scope data_set result new_registry-definitions evaluate-result

evaluate_registry-checked_example : check_candidate result.candidate ≡ none
evaluate_registry-checked_example =
    evaluate_registry-checked (λ keys. keys) (definitions_in supported) (registry_for supported)
      scope data_set result new_registry-definitions evaluate-result (λ keys z. refl)

evaluate_registry-answers_example :
    evaluate_registry (λ keys. keys) (registry_for unsupported) scope data_set ≢ panicked
evaluate_registry-answers_example =
    evaluate_registry-answers (λ keys. keys) (definitions_in unsupported) (registry_for unsupported)
      scope data_set new_registry-other
