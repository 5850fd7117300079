-- ===== src/Dataset/Check.antt =====
-- ValidateDataset of internal/capability/graph.go, and the loops that it calls.
use capagent.Model.CapabilityId.{id_validate}
use capagent.Model.States.{
  ConfidenceLevel, confidence_is_valid, is_complete, CapabilityState, state_is_valid, Completeness,
  completeness_is_valid,
}
use capagent.Model.Observation.{Observation}
use capagent.Model.Scope.{scope_is_valid, scope_eq}
use capagent.Model.Evidence.{zero_time, is_zero, after, ObservationRef, Evidence, evidence_validate}
use capagent.Base.{
  ◌&&◌, length, ltb, ◌+◌, ◌||◌, not, ℕ, none, ◌++◌, text_eq, some, ◌∷◌, is_empty, contains, Option,
  [], List, Text,
}
use capagent.Model.Errors.{or_else, Error}
use capagent.Graph.Kahn.{update}
use capagent.Capability.Topological.{
  max_graph_entries, max_graph_references, EdgeMap, ok, err, Outcome, topological,
}
use capagent.Dataset.Index.{
  dataset_size_limit, incompatible_dependency, incomplete_dependency, incomplete_observation,
  invalid_graph, invalid_reference, missing_context, missing_run, no_observation, repeated_evidence,
  too_many_references, Dataset, DatasetError, Indexed, accepted, continue, index_contexts,
  index_observations, is_nil, observation_at, refuse_error, refuse_if, refused,
}

unfoldable pub validate_evidence : Evidence → Option Error
unfolding evidence_validate scope_is_valid id_validate state_is_valid confidence_is_valid
    completeness_is_valid
validate_evidence ev = or_else (evidence_validate ev) (
    or_else (scope_is_valid ev.scope) (
      or_else (id_validate ev.claim) (
        or_else (state_is_valid ev.state)
          (or_else (confidence_is_valid ev.confidence) (completeness_is_valid ev.completeness)))))

unfoldable pub check_reference :
    Evidence → List Text → ObservationRef → Option Observation → Option DatasetError
unfolding contains text_eq scope_eq
check_reference ev seen ref none = some invalid_reference
check_reference ev seen ref (some o) =
    refuse_if
      (contains seen ref.id
        || (not (text_eq o.probe_id ref.probe_id)
            || (not (scope_eq o.scope ev.scope) || after o.timestamp ev.timestamp)))
      invalid_reference
      (refuse_if (is_complete ev.completeness && not (is_complete o.completeness))
        incomplete_observation none)

-- `a` if it is an error, and `rest` otherwise.
abbrev pub first_error : Option DatasetError → Option DatasetError → Option DatasetError
first_error none rest = rest
first_error (some e) rest = some e

unfoldable pub validate_observation_references :
    Evidence → List Observation → List Text → List ObservationRef → Option DatasetError
unfolding check_reference observation_at
validate_observation_references ev observations seen [] = none
validate_observation_references ev observations seen (ref ∷ refs) =
    first_error (check_reference ev seen ref (observation_at observations ref.id))
      (validate_observation_references ev observations (ref.id ∷ seen) refs)

-- `evidence`, `edges` and `references`.
pub record EvidenceIndex : Type 0 where
  pub evidence : Text → Evidence
  pub edges : EdgeMap
  pub references : ℕ

abbrev pub zero_evidence : Evidence
zero_evidence = record {
  id = [];
  source = [];
  claim = [];
  precedence = 0;
  observations = [];
  timestamp = zero_time;
  scope = record { run_id = []; context_id = []; runtime = []; endpoint = [] };
  completeness = Completeness.other [];
  state = CapabilityState.other [];
  confidence = ConfidenceLevel.other [];
  depends_on = [];
}

abbrev pub no_evidence : EvidenceIndex
no_evidence = record {
  evidence = λ id. zero_evidence;
  edges = record { keys = []; dependencies = λ id. [] };
  references = 0;
}

abbrev pub references_after : EvidenceIndex → Evidence → ℕ
references_after index ev = index.references + (length ev.observations + length ev.depends_on)

unfoldable pub check_item :
    List Text → List Observation → EvidenceIndex → Evidence → Option DatasetError
unfolding contains validate_evidence validate_observation_references
check_item contexts observations index ev = refuse_error (validate_evidence ev) (
    refuse_if (not (contains contexts ev.scope.context_id)) missing_context (
      refuse_if (contains index.edges.keys ev.id) repeated_evidence (
        refuse_if (ltb max_graph_references (references_after index ev)) too_many_references (
          refuse_if (is_nil ev.observations) no_observation
            (validate_observation_references ev observations [] ev.observations)))))

abbrev pub add_item : EvidenceIndex → Evidence → EvidenceIndex
add_item index ev = record {
  evidence = update index.evidence ev.id ev;
  edges = record {
    keys = index.edges.keys ++ (ev.id ∷ []);
    dependencies = update index.edges.dependencies ev.id ev.depends_on;
  };
  references = references_after index ev;
}

unfoldable pub index_evidence :
    List Text → List Observation → EvidenceIndex → List Evidence → Indexed EvidenceIndex
unfolding check_item
index_evidence contexts observations index [] = accepted index
index_evidence contexts observations index (ev ∷ evs) =
    continue (check_item contexts observations index ev)
      (index_evidence contexts observations (add_item index ev) evs)

unfoldable pub check_edge : Evidence → Evidence → Option DatasetError
unfolding scope_eq
check_edge item base = refuse_if (not (scope_eq base.scope item.scope)) incompatible_dependency (
    refuse_if
      (after base.timestamp item.timestamp
        || (is_complete item.completeness && not (is_complete base.completeness)))
      incomplete_dependency none)

unfoldable pub check_edges_of : (Text → Evidence) → Text → List Text → Option DatasetError
unfolding check_edge
check_edges_of evidence id [] = none
check_edges_of evidence id (dep ∷ deps) =
    first_error (check_edge (evidence id) (evidence dep)) (check_edges_of evidence id deps)

-- The loop over the keys of `edges`.
unfoldable pub check_edges : EvidenceIndex → List Text → Option DatasetError
unfolding check_edges_of
check_edges index [] = none
check_edges index (id ∷ ids) =
    first_error (check_edges_of index.evidence id (index.edges.dependencies id))
      (check_edges index ids)

abbrev pub graph_error : Outcome (List Text) → Option DatasetError
graph_error (ok order) = none
graph_error (err e) = some (invalid_graph e)

-- `iterate` is the order in which the range over the map `edges` visits its keys.
module _ (iterate : List Text → List Text) where
  unfoldable pub check_graph : Indexed EvidenceIndex → Option DatasetError
  unfolding check_edges topological
  check_graph (refused e) = some e
  check_graph (accepted index) =
      first_error (check_edges index (iterate index.edges.keys))
        (graph_error (topological index.edges))

  unfoldable pub validate_indexed :
      Dataset → List Text → Indexed (List Observation) → Option DatasetError
  unfolding check_graph index_evidence
  validate_indexed d contexts (refused e) = some e
  validate_indexed d contexts (accepted observations) =
      check_graph (index_evidence contexts observations no_evidence d.evidence)

  unfoldable pub validate_within : Dataset → Indexed (List Text) → Option DatasetError
  unfolding validate_indexed index_observations
  validate_within d (refused e) = some e
  validate_within d (accepted contexts) =
      validate_indexed d contexts (index_observations contexts [] [] d.observations)

  unfoldable pub validate_dataset : Dataset → Option DatasetError
  unfolding validate_within index_contexts
  validate_dataset d = refuse_if (is_empty d.run_id || is_zero d.at_time) missing_run (
      refuse_if
        (ltb max_graph_entries (length d.contexts + (length d.observations + length d.evidence)))
        dataset_size_limit (validate_within d (index_contexts [] d.contexts)))
