-- ===== src/Dataset/Accepted.antt =====
-- The evidence that ValidateDataset of internal/capability/graph.go accepts, item by item.
use capagent.Model.Scope.{scope_eq→eq, scope_eq}
use capagent.Capability.Topological.{max_graph_references}
use capagent.Model.States.{is_complete}
use capagent.Dataset.Steps.{refuse_if-none, refuse_error-none, first_error-none, continue-accepted}
use capagent.Dataset.Observed.{observation_at-Source, Source}
use capagent.Model.Evidence.{ObservationRef, Evidence}
use capagent.Model.Observation.{Observation}
use capagent.Base.{
  contains_iff, refl, ltb-false→le, inr, not, text_eq→eq, text_eq_refl, ltb, absent, inl, occ_self,
  Bool-cases, cons-IsDistinct, occ-snoc, occ-append, true, text_eq, ◌++◌, IsDistinct, false, some,
  length, All, arith, contains, ◌<◌, ◌+◌, ◌≤◌, none, In, ◌∷◌, [], Option, occ, map, ℕ, ◌≡◌, Text,
  List,
}
use capagent.Dataset.Check.{
  references_after, add_item, validate_evidence, index_evidence, check_item, check_reference,
  EvidenceIndex, validate_observation_references,
}
use capagent.Dataset.Index.{
  no_observation, too_many_references, repeated_evidence, missing_context, is_nil, observation_at,
  accepted,
}

-- A reference to one of the observations, of the item's scope, no later than the item, and complete if it is.
abbrev pub IsCited : List Observation → Evidence → ObservationRef → Type 0
IsCited observations ev ref =
    (o : Observation) × In o observations
    × (o.id ≡ ref.id)
    × (o.probe_id ≡ ref.probe_id)
    × (o.scope ≡ ev.scope)
    × (o.timestamp ≤ ev.timestamp)
    × (is_complete ev.completeness ≡ true → is_complete o.completeness ≡ true)

abbrev pub IsGrounded : List Text → List Observation → Evidence → Type 0
IsGrounded contexts observations ev =
    (validate_evidence ev ≡ none)
    × (0 < occ ev.scope.context_id contexts)
    × (is_nil ev.observations ≡ false)
    × All (IsCited observations ev) ev.observations

cited :
    (observations : List Observation) (ev : Evidence) (seen : List Text) (ref : ObservationRef)
    (r : Option Observation)
    → Source observations ref.id r
    → check_reference ev seen ref r ≡ none
    → IsCited observations ev ref
unfolding check_reference
cited observations ev seen ref none s h = absurd (ground arith)
cited observations ev seen ref (some o) s h =
    let probe : text_eq o.probe_id ref.probe_id ≡ true = ground arith in
    let within : scope_eq o.scope ev.scope ≡ true = ground arith in
    let past : ltb ev.timestamp o.timestamp ≡ false = ground arith in
    (
      o,
      s.1,
      s.0,
      text_eq→eq o.probe_id ref.probe_id probe,
      scope_eq→eq o.scope ev.scope within,
      ltb-false→le ev.timestamp o.timestamp past,
      λ e. ground arith,
    )

all-IsCited :
    (observations : List Observation) (ev : Evidence) (seen : List Text)
    (refs : List ObservationRef)
    → validate_observation_references ev observations seen refs ≡ none
    → All (IsCited observations ev) refs
unfolding validate_observation_references
all-IsCited observations ev seen [] h = tt
all-IsCited observations ev seen (ref ∷ refs) h =
    let found = observation_at observations ref.id in
    let (here, rest) = first_error-none (check_reference ev seen ref found) _ h in
    (
      cited observations ev seen ref found (observation_at-Source observations ref.id) here,
      all-IsCited observations ev (ref.id ∷ seen) refs rest,
    )

check_item-IsGrounded :
    (contexts : List Text) (observations : List Observation) (index : EvidenceIndex) (ev : Evidence)
    → check_item contexts observations index ev ≡ none
    → IsGrounded contexts observations ev
      × (contains index.edges.keys ev.id ≡ false)
      × (references_after index ev ≤ max_graph_references)
unfolding check_item
check_item-IsGrounded contexts observations index ev h =
    let (valid, h1) = refuse_error-none (validate_evidence ev) _ h in
    let (known, h2) =
      refuse_if-none (not (contains contexts ev.scope.context_id)) missing_context _ h1 in
    let (new, h3) = refuse_if-none (contains index.edges.keys ev.id) repeated_evidence _ h2 in
    let (few, h4) =
      refuse_if-none (ltb max_graph_references (references_after index ev)) too_many_references _
        h3 in
    let (full, h5) = refuse_if-none (is_nil ev.observations) no_observation _ h4 in
    let there : contains contexts ev.scope.context_id ≡ true = ground arith in
    (
      (
        valid,
        (contains_iff contexts ev.scope.context_id).0 there,
        full,
        all-IsCited observations ev [] ev.observations h5,
      ),
      new,
      ltb-false→le max_graph_references (references_after index ev) few,
    )

-- All observations and dependencies that items cite.
unfoldable pub count_references : List Evidence → ℕ
count_references [] = 0
count_references (ev ∷ evs) = (length ev.observations + length ev.depends_on) + count_references evs

abbrev pub IsStoredIn : EvidenceIndex → Evidence → Type 0
IsStoredIn index ev = (index.evidence ev.id ≡ ev) × (index.edges.dependencies ev.id ≡ ev.depends_on)

abbrev ids_of : List Evidence → List Text
ids_of evs = map (λ ev. ev.id) evs

module _ (contexts : List Text) (observations : List Observation) where
  accepted_step :
      (index : EvidenceIndex) (ev : Evidence) (evs : List Evidence) (out : EvidenceIndex)
      → index_evidence contexts observations index (ev ∷ evs) ≡ accepted out
      → (check_item contexts observations index ev ≡ none)
        × (index_evidence contexts observations (add_item index ev) evs ≡ accepted out)
  unfolding index_evidence
  accepted_step index ev evs out h =
      continue-accepted (check_item contexts observations index ev) _ out h

  same_end :
      (index out : EvidenceIndex)
      → index_evidence contexts observations index [] ≡ accepted out
      → index ≡ out
  unfolding index_evidence
  same_end index out h = ground arith

  pub index_evidence-IsGrounded :
      (index : EvidenceIndex) (evs : List Evidence) (out : EvidenceIndex)
      → index_evidence contexts observations index evs ≡ accepted out
      → All (IsGrounded contexts observations) evs
        × (index.references ≤ max_graph_references
            → index.references + count_references evs ≤ max_graph_references)
  unfolding count_references
  index_evidence-IsGrounded index [] out h = (tt, λ k. omega (arith, k))
  index_evidence-IsGrounded index (ev ∷ evs) out h =
      let (good, rest) = accepted_step index ev evs out h in
      let (grounded, new, few) = check_item-IsGrounded contexts observations index ev good in
      let (more, bound) = index_evidence-IsGrounded (add_item index ev) evs out rest in
      ((grounded, more), λ k. omega (arith, bound few))

  -- What is stored stays.
  kept :
      (index : EvidenceIndex) (evs : List Evidence) (out : EvidenceIndex) (z : Text)
      → index_evidence contexts observations index evs ≡ accepted out
      → 0 < occ z index.edges.keys
      → (out.evidence z ≡ index.evidence z)
        × (out.edges.dependencies z ≡ index.edges.dependencies z)
  kept index [] out z h k = let e = same_end index out h in rw e (refl, refl)
  kept index (ev ∷ evs) out z h k =
      let (good, rest) = accepted_step index ev evs out h in
      let (_, new, few) = check_item-IsGrounded contexts observations index ev good in
      let more : 0 < occ z (index.edges.keys ++ (ev.id ∷ [])) =
        omega (arith, occ-append z index.edges.keys (ev.id ∷ [])) in
      let (item, deps) = kept (add_item index ev) evs out z rest more in
      elim (Bool-cases (text_eq ev.id z)) [
        | inl e ↦
            let none_there = rw (text_eq→eq ev.id z e) at (absent index.edges.keys ev.id new) in
            absurd (omega arith)
        | inr e ↦ (rw e at item, rw e at deps)
      ]

  pub index_evidence-IsStoredIn :
      (index : EvidenceIndex) (evs : List Evidence) (out : EvidenceIndex)
      → index_evidence contexts observations index evs ≡ accepted out
      → All (IsStoredIn out) evs
  index_evidence-IsStoredIn index [] out h = tt
  index_evidence-IsStoredIn index (ev ∷ evs) out h =
      let (good, rest) = accepted_step index ev evs out h in
      let last : 0 < occ ev.id (index.edges.keys ++ (ev.id ∷ [])) =
        omega (arith, occ-append ev.id index.edges.keys (ev.id ∷ []), occ_self ev.id []) in
      let (item, deps) = kept (add_item index ev) evs out ev.id rest last in
      (
        (rw (text_eq_refl ev.id) at item, rw (text_eq_refl ev.id) at deps),
        index_evidence-IsStoredIn (add_item index ev) evs out rest,
      )

  pub index_evidence-keys :
      (index : EvidenceIndex) (evs : List Evidence) (out : EvidenceIndex)
      → index_evidence contexts observations index evs ≡ accepted out
      → ((z : Text) → occ z out.edges.keys ≡ occ z index.edges.keys + occ z (ids_of evs))
        × (IsDistinct index.edges.keys → IsDistinct out.edges.keys)
  unfolding occ
  index_evidence-keys index [] out h =
      let e = same_end index out h in rw e (λ z. omega arith, λ d. d)
  index_evidence-keys index (ev ∷ evs) out h =
      let (good, rest) = accepted_step index ev evs out h in
      let (_, new, few) = check_item-IsGrounded contexts observations index ev good in
      let (count, distinct) = index_evidence-keys (add_item index ev) evs out rest in
      let keys = index.edges.keys in
      (
        λ z. omega (arith, count z, occ-snoc z keys ev.id),
        λ d. distinct (λ z.
            omega (
              arith,
              occ-snoc z keys ev.id,
              cons-IsDistinct ev.id keys (absent keys ev.id new) d z,
            )),
      )
