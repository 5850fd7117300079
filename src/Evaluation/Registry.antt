-- ===== src/Evaluation/Registry.antt =====
-- NewRegistry and Definitions of internal/capability/registry.go.
use capagent.Dataset.Index.{is_some}
use capagent.Model.Errors.{failed}
use capagent.Model.Evidence.{Evidence}
use capagent.Graph.Kahn.{update}
use capagent.Model.Observation.{Observation}
use capagent.Model.Scope.{EvaluationScope}
use capagent.Capability.Topological.{ok, err, EdgeMap, topological, GraphError, Outcome}
use capagent.Model.CapabilityId.{id_validate, CapabilityId}
use capagent.Base.{
  not, is_empty, ◌||◌, map, if◌then◌else◌, Option, Text, ◌∷◌, none, Bool, [], ◌++◌, List, contains,
}

-- An evaluator is a pure function.
abbrev pub Evaluator : Type 0
Evaluator = EvaluationScope → List Observation → List Evidence

-- A nil Evaluate is none.
pub record Definition : Type 0 where
  pub id : CapabilityId
  pub description : Text
  pub dependencies : List CapabilityId
  pub evaluate : Option Evaluator

pub record Registry : Type 0 where
  pub definitions : List Definition

pub data RegistryError : Type 0 where
  invalid_definition duplicate_definition : RegistryError
  dependency_graph : GraphError → RegistryError

-- `byID`, with its keys. The value of `edges` at a key is the dependencies of its definition.
pub record Collected : Type 0 where
  pub keys : List Text
  pub by_id : Text → Definition

pub data Construction (A : Type 0) : Type 0 where
  constructed : A → Construction A
  rejected : RegistryError → Construction A

abbrev pub zero_definition : Definition
zero_definition = record { id = []; description = []; dependencies = []; evaluate = none }

abbrev pub nothing_collected : Collected
nothing_collected = record { keys = []; by_id = λ id. zero_definition }

abbrev pub collect_one : Collected → Definition → Collected
collect_one c def = record { keys = c.keys ++ (def.id ∷ []); by_id = update c.by_id def.id def }

-- The condition under which a definition is invalid.
unfoldable pub is_invalid : Definition → Bool
unfolding id_validate
is_invalid def =
    failed (id_validate def.id) || (is_empty def.description || not (is_some def.evaluate))

unfoldable pub collect : Collected → List Definition → Construction Collected
unfolding contains is_invalid
collect c [] = constructed c
collect c (def ∷ defs) =
    let rest = collect (collect_one c def) defs in
    if is_invalid def
    then rejected invalid_definition
    else if contains c.keys def.id
    then rejected duplicate_definition
    else rest

abbrev pub edges_of : Collected → EdgeMap
edges_of c = record { keys = c.keys; dependencies = λ id. (c.by_id id).dependencies }

abbrev pub registry_of : Collected → Outcome (List Text) → Construction Registry
registry_of c (err e) = rejected (dependency_graph e)
registry_of c (ok order) = constructed (record { definitions = map c.by_id order })

abbrev pub construct : Construction Collected → Construction Registry
unfolding topological
construct (rejected e) = rejected e
construct (constructed c) = registry_of c (topological (edges_of c))

unfoldable pub new_registry : List Definition → Construction Registry
unfolding collect topological
new_registry definitions = construct (collect nothing_collected definitions)
