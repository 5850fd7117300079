-- ===== src/Dataset/Index.antt =====
-- The indexes of contexts and observations that ValidateDataset builds (internal/capability/graph.go).
-- The set of context IDs and the set of fact IDs are lists, the map of observations is the list of its
-- values, and the map of evidence is a function with the zero value at a missing key.
use capagent.Model.States.{is_complete, completeness_is_valid}
use capagent.Model.Identity.{identity_is_valid, EvaluationContext, Namespace}
use capagent.Model.Observation.{Fact, Observation}
use capagent.Model.Scope.{scope_is_valid, scope_eq}
use capagent.Model.Evidence.{is_zero, after, Time, Evidence}
use capagent.Base.{
  ◌&&◌, length, ltb, ◌+◌, ◌||◌, if◌then◌else◌, not, none, text_eq, true, some, ◌∷◌, false, is_empty,
  contains, Option, [], List, Text, Bool,
}
use capagent.Model.Errors.{failed, Error}
use capagent.Capability.Topological.{max_graph_entries, GraphError}

pub data DatasetError : Type 0 where
  missing_run dataset_size_limit invalid_context_id invalid_namespace : DatasetError
  invalid_observation duplicate_observation no_facts invalid_fact incomplete_fact fact_limit :
      DatasetError
  missing_context repeated_evidence too_many_references no_observation : DatasetError
  invalid_reference incomplete_observation : DatasetError
  incompatible_dependency incomplete_dependency : DatasetError
  invalid_data : Error → DatasetError
  invalid_graph : GraphError → DatasetError

pub data Indexed (A : Type 0) : Type 0 where
  accepted : A → Indexed A
  refused : DatasetError → Indexed A

pub record Dataset : Type 0 where
  pub run_id : Text
  pub at_time : Time
  pub contexts : List EvaluationContext
  pub observations : List Observation
  pub evidence : List Evidence

-- `if bad { return e }`, and then the rest.
abbrev pub refuse_if : Bool → DatasetError → Option DatasetError → Option DatasetError
refuse_if true e rest = some e
refuse_if false e rest = rest

-- `if err != nil { return err }`, and then the rest.
abbrev pub refuse_error : Option Error → Option DatasetError → Option DatasetError
refuse_error none rest = rest
refuse_error (some e) rest = some (invalid_data e)

-- One turn of a loop that returns the first error, and then the rest of the loop.
abbrev pub continue : {A : Type 0} → Option DatasetError → Indexed A → Indexed A
continue none rest = rest
continue (some e) rest = refused e

-- `len(xs) == 0`.
abbrev pub is_nil {ℓ} : {A : Type ℓ} → List A → Bool
is_nil [] = true
is_nil (x ∷ xs) = false

-- The loop over namespaces, where `seen` holds the kinds before.
unfoldable pub check_namespaces : List Text → List Namespace → Option DatasetError
unfolding contains
check_namespaces seen [] = none
check_namespaces seen (n ∷ ns) =
    refuse_if (is_empty n.kind || (is_empty n.id || contains seen n.kind)) invalid_namespace
      (check_namespaces (n.kind ∷ seen) ns)

unfoldable pub check_context : List Text → EvaluationContext → Option DatasetError
unfolding contains check_namespaces identity_is_valid
check_context ids c = refuse_error (identity_is_valid c.identity) (
    refuse_if (is_empty c.id || contains ids c.id) invalid_context_id
      (check_namespaces [] c.namespaces))

unfoldable pub index_contexts : List Text → List EvaluationContext → Indexed (List Text)
unfolding check_context
index_contexts ids [] = accepted ids
index_contexts ids (c ∷ cs) = continue (check_context ids c) (index_contexts (c.id ∷ ids) cs)

unfoldable pub check_fact : Observation → List Text → Fact → Option DatasetError
unfolding contains scope_eq completeness_is_valid
check_fact obs facts f =
    refuse_if
      (is_empty f.id
        || (contains facts f.id
            || (not (scope_eq f.scope obs.scope)
                || (is_zero f.timestamp
                    || (after f.timestamp obs.timestamp
                        || (is_empty f.source || failed (completeness_is_valid f.completeness)))))))
      invalid_fact
      (refuse_if (is_complete obs.completeness && not (is_complete f.completeness)) incomplete_fact
        (refuse_if (ltb max_graph_entries (length facts + 1)) fact_limit none))

unfoldable pub index_facts : Observation → List Text → List Fact → Indexed (List Text)
unfolding check_fact
index_facts obs facts [] = accepted facts
index_facts obs facts (f ∷ fs) =
    continue (check_fact obs facts f) (index_facts obs (f.id ∷ facts) fs)

-- `observations[id]`.
unfoldable pub observation_at : List Observation → Text → Option Observation
observation_at [] id = none
observation_at (o ∷ os) id =
    let rest = observation_at os id in if text_eq o.id id then some o else rest

abbrev pub is_some {ℓ} : {A : Type ℓ} → Option A → Bool
is_some none = false
is_some (some a) = true

unfoldable pub check_observation : List Text → List Observation → Observation → Option DatasetError
unfolding contains scope_is_valid completeness_is_valid observation_at
check_observation contexts seen o =
    refuse_if
      (is_empty o.id
        || (is_empty o.probe_id
            || (is_zero o.timestamp
                || (failed (scope_is_valid o.scope)
                    || (not (contains contexts o.scope.context_id)
                        || failed (completeness_is_valid o.completeness))))))
      invalid_observation
      (refuse_if (is_some (observation_at seen o.id)) duplicate_observation
        (refuse_if (is_nil o.facts) no_facts none))

-- The loop over observations, where `seen` and `facts` hold those before.
unfoldable pub index_observations :
    List Text → List Observation → List Text → List Observation → Indexed (List Observation)
unfolding check_observation index_facts
index_observations contexts seen facts [] = accepted seen
index_observations contexts seen facts (o ∷ os) =
    continue (check_observation contexts seen o) (elim (index_facts o facts o.facts) [
      | refused e ↦ refused e
      | accepted more ↦ index_observations contexts (o ∷ seen) more os
    ])
