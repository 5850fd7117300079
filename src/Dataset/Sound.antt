-- ===== src/Dataset/Sound.antt =====
-- What ValidateDataset of internal/capability/graph.go guarantees of a dataset.
use capagent.Capability.GraphOrder.{topological_order}
use capagent.Graph.Rounds.{IsOrdered}
use capagent.Graph.Kahn.{Links}
use capagent.Dataset.Edges.{dependencies, IsDependency}
use capagent.Dataset.Accepted.{
  IsStoredIn, index_evidence-keys, index_evidence-IsStoredIn, index_evidence-IsGrounded,
  count_references, IsCited, IsGrounded,
}
use capagent.Model.Evidence.{zero_time, is_zero, ObservationRef, Evidence}
use capagent.Dataset.Steps.{first_error-none, Indexed-cases, refuse_if-none}
use capagent.Dataset.Observed.{
  index_observations-IsObserved, index_contexts-occ, IsObserved, fact_ids,
}
use capagent.Model.Observation.{Observation}
use capagent.Base.{
  ◌≤◌, ◌≤◌, ◌≤◌, ◌≤◌, ◌≤◌, ◌≤◌, ◌≤◌, ◌≤◌, ◌≤◌, ◌≤◌, ◌≤◌, ◌≤◌, ◌≤◌, ◌≤◌, ◌≤◌, ◌≤◌, ◌≤◌, ◌≤◌, ◌≤◌,
  ◌≤◌, ◌≤◌, ◌≤◌, ◌≤◌, ◌≤◌, ◌≤◌, ◌≤◌, ◌≤◌, ◌≤◌, ||-false, ◌≤◌, ◌≢◌, ◌≤◌, All-In, All-of,
  ltb-false→le, ◌<◌, inl, inr, false, refl, [], ◌||◌, arith, ◌∷◌, ◌≤◌, is_empty, ◌+◌, ltb, All,
  length, In, none, ◌≡◌, map, Text, IsDistinct, occ, List,
}
use capagent.Capability.Topological.{
  topological, max_graph_references, max_graph_entries, err, ok, Outcome,
}
use capagent.Dataset.Check.{
  check_edges, index_evidence, no_evidence, EvidenceIndex, graph_error, validate_indexed,
  validate_within, validate_dataset, check_graph,
}
use capagent.Dataset.Index.{
  index_observations, accepted, dataset_size_limit, index_contexts, missing_run, Dataset,
}

-- All IDs are distinct, the sizes within the limits, each observation is of a known context, each item of
-- evidence rests on observations and on other items, and no item rests on itself.
pub record IsSound (d : Dataset) : Type 0 where
  pub contexts_distinct : IsDistinct (map (λ c. c.id) d.contexts)
  pub observations_distinct : IsDistinct (map (λ o. o.id) d.observations)
  pub facts_distinct : IsDistinct (fact_ids d.observations)
  pub evidence_distinct : IsDistinct (map (λ ev. ev.id) d.evidence)
  pub bounded : length d.contexts + (length d.observations + length d.evidence) ≤ max_graph_entries
  pub references_bounded : count_references d.evidence ≤ max_graph_references
  pub observed : All (IsObserved (map (λ c. c.id) d.contexts)) d.observations
  pub grounded : All (IsGrounded (map (λ c. c.id) d.contexts) d.observations) d.evidence
  pub dependent : All (λ ev. All (IsDependency d.evidence ev) ev.depends_on) d.evidence
  pub order : List Text
  pub ordered_all : (z : Text) → occ z order ≡ occ z (map (λ ev. ev.id) d.evidence)
  pub dependencies : Links
  pub dependencies_of : All (λ ev. dependencies ev.id ≡ ev.depends_on) d.evidence
  pub ordered : IsOrdered (λ z dep. 0 < occ dep (dependencies z)) [] order

module _ (xs ys : List Text) (same : (z : Text) → occ z xs ≡ occ z ys) where
  IsObserved-in : (os : List Observation) → All (IsObserved xs) os → All (IsObserved ys) os
  IsObserved-in [] h = tt
  IsObserved-in (o ∷ os) h =
      ((omega (arith, same o.scope.context_id, h.0.0), h.0.1, h.0.2), IsObserved-in os h.1)

  module _ (os ps : List Observation) (sub : (o : Observation) → In o os → In o ps) where
    IsCited-in :
        (ev : Evidence) (refs : List ObservationRef)
        → All (IsCited os ev) refs
        → All (IsCited ps ev) refs
    IsCited-in ev [] h = tt
    IsCited-in ev (ref ∷ refs) h =
        let (o, m, a, b, c, e, f) = h.0 in ((o, sub o m, a, b, c, e, f), IsCited-in ev refs h.1)

    IsGrounded-in : (evs : List Evidence) → All (IsGrounded xs os) evs → All (IsGrounded ys ps) evs
    IsGrounded-in [] h = tt
    IsGrounded-in (ev ∷ evs) h = (
      (
        h.0.0,
        omega (arith, same ev.scope.context_id, h.0.1),
        h.0.2,
        IsCited-in ev ev.observations h.0.3,
      ),
      IsGrounded-in evs h.1,
    )

graph_error-none :
    (r : Outcome (List Text)) → graph_error r ≡ none → (order : List Text) × (r ≡ ok order)
graph_error-none (ok order) h = (order, refl)
graph_error-none (err e) h = absurd (ground arith)

-- The last part of ValidateDataset, once the indexes are built.
accepted_all :
    (iterate : List Text → List Text) (d : Dataset)
    → ((keys : List Text) (z : Text) → occ z (iterate keys) ≡ occ z keys)
    → (contexts : List Text) (observations : List Observation) (index : EvidenceIndex)
    → ltb max_graph_entries (length d.contexts + (length d.observations + length d.evidence))
      ≡ false
    → index_contexts [] d.contexts ≡ accepted contexts
    → index_observations contexts [] [] d.observations ≡ accepted observations
    → index_evidence contexts observations no_evidence d.evidence ≡ accepted index
    → check_graph iterate (accepted index) ≡ none
    → IsSound d
unfolding check_graph occ
accepted_all iterate d visits contexts observations index small q p r h =
    let (fine, acyclic) = first_error-none (check_edges index (iterate index.edges.keys)) _ h in
    let (order, sorted) = graph_error-none (topological index.edges) acyclic in
    let (context_count, contexts_once) = index_contexts-occ [] d.contexts contexts q in
    let (observed, origin, counted, once, unique) =
      index_observations-IsObserved contexts [] [] d.observations observations p in
    let (grounded, few) =
      index_evidence-IsGrounded contexts observations no_evidence d.evidence index r in
    let stored = index_evidence-IsStoredIn contexts observations no_evidence d.evidence index r in
    let (keys, keys_once) =
      index_evidence-keys contexts observations no_evidence d.evidence index r in
    let nothing : IsDistinct [] = λ z. omega arith in
    let distinct = keys_once nothing in
    let (full, ordered) = topological_order index.edges order distinct sorted in
    let all_keys : (z : Text) → occ z index.edges.keys ≡ occ z (map (λ ev. ev.id) d.evidence) =
      λ z. omega (arith, keys z) in
    let known : (z : Text) → occ z contexts ≡ occ z (map (λ c. c.id) d.contexts) =
      λ z. omega (arith, context_count z) in
    record {
      contexts_distinct = λ z. omega (arith, known z, contexts_once nothing z);
      observations_distinct = λ z. omega (arith, counted z, once nothing z);
      facts_distinct = λ z. omega (arith, unique nothing z);
      evidence_distinct = λ z. omega (arith, all_keys z, distinct z);
      bounded =
          ltb-false→le max_graph_entries
            (length d.contexts + (length d.observations + length d.evidence)) small;
      references_bounded = omega (arith, few (omega arith));
      observed = IsObserved-in contexts (map (λ c. c.id) d.contexts) known d.observations observed;
      grounded =
          IsGrounded-in contexts (map (λ c. c.id) d.contexts) known observations d.observations
            (λ o m. elim (origin o m) [ inl n ↦ absurd n | inr n ↦ n ]) d.evidence grounded;
      dependent =
          dependencies index d.evidence stored all_keys order full ordered
            (iterate index.edges.keys) (visits index.edges.keys) fine;
      order = order;
      ordered_all = λ z. omega (arith, full z, all_keys z);
      dependencies = index.edges.dependencies;
      dependencies_of =
          All-of (λ ev. index.edges.dependencies ev.id ≡ ev.depends_on) d.evidence
            (λ ev m. (All-In (IsStoredIn index) d.evidence stored ev m).1);
      ordered = ordered;
    }

-- A dataset that ValidateDataset accepts is sound, in whatever order it visits the edges: the IDs of
-- contexts, observations, facts and evidence are distinct, each observation belongs to a known context and
-- has facts of its scope no later than itself, each item of evidence cites observations of its scope no
-- later than itself and depends on such items, complete items on complete ones, there are no more than
-- 4096 entries and 16384 references, and the dependencies have no cycle.
pub validate_dataset-IsSound :
    (iterate : List Text → List Text) (d : Dataset)
    → ((keys : List Text) (z : Text) → occ z (iterate keys) ≡ occ z keys)
    → validate_dataset iterate d ≡ none
    → IsSound d
unfolding validate_dataset validate_within validate_indexed check_graph occ
validate_dataset-IsSound iterate d visits h =
    let (_, h1) = refuse_if-none (is_empty d.run_id || is_zero d.at_time) missing_run _ h in
    let (small, h2) =
      refuse_if-none
        (ltb max_graph_entries (length d.contexts + (length d.observations + length d.evidence)))
        dataset_size_limit _ h1 in
    elim (Indexed-cases (index_contexts [] d.contexts)) [
      | inr (e, q) ↦ absurd (ground (arith, (rw q at h2)))
      | inl (contexts, q) ↦
          let h3 = rw q at h2 in
          elim (Indexed-cases (index_observations contexts [] [] d.observations)) [
            | inr (e, p) ↦ absurd (ground (arith, (rw p at h3)))
            | inl (observations, p) ↦
                let h4 = rw p at h3 in
                elim (Indexed-cases (index_evidence contexts observations no_evidence d.evidence)) [
                  | inr (e, r) ↦ absurd (ground (arith, (rw r at h4)))
                  | inl (index, r) ↦
                      accepted_all iterate d visits contexts observations index small q p r
                        (rw r at h4)
                ]
          ]
    ]

-- An accepted dataset has a time.
pub validate_dataset-dated :
    (iterate : List Text → List Text) (d : Dataset)
    → validate_dataset iterate d ≡ none
    → d.at_time ≢ zero_time
unfolding validate_dataset
validate_dataset-dated iterate d h e =
    let (dated, _) = refuse_if-none (is_empty d.run_id || is_zero d.at_time) missing_run _ h in
    ground (arith, ||-false (is_empty d.run_id) (is_zero d.at_time) dated)
