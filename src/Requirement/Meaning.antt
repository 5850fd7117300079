-- ===== src/Requirement/Meaning.antt =====
-- Evaluate computes the meaning of the tree that its document stands for, and never panics on it.
use capagent.Base.{
  ◌<◌, ◌≢◌, ap, ◌∙◌, ◌≡◌, refl, ℕ, zero, suc, ◌≤◌, ltb, ◌==◌, inl, inr, false, ◌||◌, List, [], ◌∷◌,
  Option, none, some, arith, Bool-cases, length, map,
}
use capagent.Model.CapabilityId.{CapabilityId}
use capagent.Model.Errors.{Error, out_of_fuel}
use capagent.Model.Capability.{Candidate}
use capagent.Requirement.Logic.{
  RequirementState, satisfied, unsatisfied, indeterminate, and, or, fold, all, any,
}
use capagent.Requirement.Node.{
  Pointer, Heap, Checked, valid, invalid, validate, max_depth, max_nodes, enough_fuel,
}
use capagent.Requirement.Tree.{
  Tree, Trees, size, depth, depth_list, IsNamed, Represents, RepresentsAll, meaning, meanings,
}
use capagent.Requirement.Evaluate.{
  negate_result, candidate_outcome, evaluate_checked, add_child, evaluate_children, evaluate_node,
  evaluate_candidate, evaluate_candidates, evaluate,
}
use capagent.Requirement.Predicate.{
  Result, result, Results, candidate_count, diagnostics, invalid_candidates, any_candidate,
  not_operator, error, invalid_requirement, invalid_candidate, any_operator, all_operator, state,
  CandidateIndex, index_of, predicate, check_candidate, with_scope, uncertain, max_candidates,
}
use capagent.Requirement.Logic
use capagent.Model.Scope.{EvaluationScope}
use capagent.Requirement.Completeness.{validate_complete}
use capagent.Requirement.Soundness.{validate_sound}
use capagent.Requirement.Accepting.{Checked-cases}
use capagent.Requirement.Fuel.{validate-ne-out_of_fuel}

-- The state that a candidate gives a capability.
unfoldable pub capability_state : CandidateIndex → CapabilityId → RequirementState
capability_state index id = state (predicate id index)

-- The run ends with a result in the state `s`.
abbrev pub EndsIn : Option Result → RequirementState → Type 0
EndsIn run s = (r : Result) × (run ≡ some r) × (state r ≡ s)

state-add_child :
    (op : RequirementState → RequirementState → RequirementState) (acc child : Result)
    → state (add_child op acc child) ≡ op (state acc) (state child)
unfolding add_child
state-add_child op (result s reason scope ds rs) child = refl

evaluate_children-cons :
    (op : RequirementState → RequirementState → RequirementState) (run : Pointer → Option Result)
    (p : Pointer) (ps : List Pointer) (acc child : Result)
    → run p ≡ some child
    → evaluate_children op run (p ∷ ps) acc ≡ evaluate_children op run ps (add_child op acc child)
unfolding evaluate_children
evaluate_children-cons op run p ps acc child e = rw (e, evaluate_children)

run_children :
    (assign : CapabilityId → RequirementState) (heap : Heap) (fuel : ℕ)
    (op : RequirementState → RequirementState → RequirementState) (run : Pointer → Option Result)
    → ((p : Pointer) (t : Tree)
        → Represents heap p t
        → depth t ≤ fuel
        → EndsIn (run p) (meaning assign t))
    → {ps : List Pointer} {ts : Trees} (acc : Result) → RepresentsAll heap ps ts
    → depth_list ts ≤ fuel
    → EndsIn (evaluate_children op run ps acc) (fold op (state acc) (meanings assign ts))
unfolding depth meaning fold evaluate_children
run_children assign heap fuel op run self acc RepresentsAll.nil_at low = (acc, refl, refl)
run_children assign heap fuel op run self acc
      (RepresentsAll.cons_at {p = p} {ps = ps} {t = t} {ts = ts} r rs) low =
    let (child, ran, means) = self p t r (omega arith) in
    let (last, rest, folded) =
      run_children assign heap fuel op run self (add_child op acc child) rs (omega arith) in
    (
      last,
      evaluate_children-cons op run p ps acc child ran ∙ rest,
      folded
          ∙ ap (λ s. fold op s (meanings assign ts))
              (state-add_child op acc child ∙ ap (op (state acc)) means),
    )

module _ (index : CandidateIndex) (heap : Heap) where
  pub run_node :
      (fuel : ℕ) (p : Pointer) (t : Tree)
      → Represents heap p t
      → depth t ≤ fuel
      → EndsIn (evaluate_node fuel heap index p) (meaning (capability_state index) t)
  unfolding evaluate_node depth meaning all any capability_state
  run_node zero p t (Represents.capability_at e full) low = absurd (omega arith)
  run_node zero p t (Represents.all_at e rs) low = absurd (omega arith)
  run_node zero p t (Represents.any_at e rs) low = absurd (omega arith)
  run_node zero p t (Represents.negation_at e r) low = absurd (omega arith)
  run_node (suc fuel) p t (Represents.capability_at {a = a} {id = id} e full) low =
      (predicate id index, rw (e, full), refl)
  run_node (suc fuel) p t (Represents.all_at {a = a} {ps = ps} e rs) low =
      let (last, ran, means) =
        run_children (capability_state index) heap fuel and (evaluate_node fuel heap index)
          (run_node fuel) (result satisfied all_operator none [] Results.nil) rs (omega arith) in
      (last, rw e ran, means)
  run_node (suc fuel) p t (Represents.any_at {a = a} {ps = ps} e rs) low =
      let (last, ran, means) =
        run_children (capability_state index) heap fuel or (evaluate_node fuel heap index)
          (run_node fuel) (result unsatisfied any_operator none [] Results.nil) rs (omega arith) in
      (last, rw e ran, means)
  run_node (suc fuel) p t (Represents.negation_at {a = a} {b = b} {t = u} e r) low =
      let (child, ran, means) = run_node fuel (some b) u r (omega arith) in
      (
        result (Logic.not (state child)) not_operator none (diagnostics child)
            (Results.cons child Results.nil),
        rw e (rw (ran, negate_result)),
        ap Logic.not means,
      )

scoped : (scope : EvaluationScope) (r : Result) → state (with_scope scope r) ≡ state r
scoped scope (result s reason old ds rs) = refl

-- 1 to 128 candidates pass the test of Evaluate.
count_ok :
    (cs : List Candidate)
    → 0 < length cs
    → length cs ≤ max_candidates
    → (length cs == 0 || ltb max_candidates (length cs)) ≡ false
count_ok cs h k = ground arith

abbrev outcome_state : Tree → Candidate → Option Error → RequirementState
outcome_state t c none = meaning (capability_state (index_of c)) t
outcome_state t c (some e) = indeterminate

-- A candidate that the index refuses is not known; any other gives the tree its meaning.
pub candidate_state : Tree → Candidate → RequirementState
candidate_state t c = outcome_state t c (check_candidate c)

-- The two definitions, with what they call shut.
candidate_step :
    (heap : Heap) (root : Pointer) (c : Candidate)
    → evaluate_candidate heap root c ≡ candidate_outcome heap root c (check_candidate c)
unfolding evaluate_candidate
candidate_step heap root c = refl

evaluate_step :
    (heap : Heap) (root : Pointer) (cs : List Candidate)
    → evaluate heap root cs ≡ evaluate_checked heap root cs (validate heap root)
unfolding evaluate
evaluate_step heap root cs = refl

module _ (heap : Heap) (root : Pointer) (t : Tree) (represents : Represents heap root t)
    (low : depth t ≤ max_depth) where
  run_outcome :
      (c : Candidate) (o : Option Error)
      → EndsIn (candidate_outcome heap root c o) (outcome_state t c o)
  unfolding uncertain
  run_outcome c none = run_node (index_of c) heap enough_fuel root t represents (omega arith)
  run_outcome c (some x) = (uncertain invalid_candidate (error x), refl, refl)

  run_candidate : (c : Candidate) → EndsIn (evaluate_candidate heap root c) (candidate_state t c)
  unfolding candidate_state
  run_candidate c = rw (candidate_step heap root c) (run_outcome c (check_candidate c))

  run_candidates :
      (cs : List Candidate) (acc : Result)
      → EndsIn
          (evaluate_candidates (evaluate_candidate heap root) cs acc)
          (fold or (state acc) (map (candidate_state t) cs))
  unfolding evaluate_candidates fold
  run_candidates [] acc = (acc, refl, refl)
  run_candidates (c ∷ cs) acc =
      let (child, ran, means) = run_candidate c in
      let (last, rest, folded) = run_candidates cs (add_child or acc (with_scope c.scope child)) in
      (
        last,
        rw (ran, evaluate_candidates) rest,
        folded
            ∙ ap (λ s. fold or s (map (candidate_state t) cs))
                (state-add_child or acc (with_scope c.scope child)
                  ∙ ap (or (state acc)) (scoped c.scope child ∙ means)),
      )

-- For a document of at most 512 nodes and depth 32 whose leaves are valid capability IDs, and for
-- 1 to 128 candidates, Evaluate returns a result. Its state is `Any` over the candidates of the
-- document's meaning for that candidate, where a refused candidate counts as not known.
pub evaluate-meaning :
    (heap : Heap) (root : Pointer) (t : Tree) (cs : List Candidate)
    → Represents heap root t
    → IsNamed t
    → size t ≤ max_nodes
    → depth t ≤ max_depth
    → 0 < length cs
    → length cs ≤ max_candidates
    → EndsIn (evaluate heap root cs) (any (map (candidate_state t) cs))
unfolding any
evaluate-meaning heap root t cs r v few low some_cs not_many = rw (evaluate_step heap root cs) (
    rw (validate_complete heap root t r v few low) (
      rw (count_ok cs some_cs not_many) (
        run_candidates heap root t r low cs
          (result unsatisfied any_candidate none [] Results.nil))))

evaluate_checked_total :
    (heap : Heap) (root : Pointer) (cs : List Candidate) (r : Checked) (e : validate heap root ≡ r)
    → (x : Result) × (evaluate_checked heap root cs r ≡ some x)
evaluate_checked_total heap root cs (invalid x) e = (uncertain invalid_requirement (error x), refl)
evaluate_checked_total heap root cs (valid n) e =
    let (t, r, names, counted, few, low) = validate_sound heap root n e in
    elim (Bool-cases (length cs == 0 || ltb max_candidates (length cs))) [
      | inl wrong ↦ (uncertain invalid_candidates candidate_count, rw wrong)
      | inr fine ↦
          let (x, ran, means) =
            run_candidates heap root t r low cs
              (result unsatisfied any_candidate none [] Results.nil) in
          (x, rw fine ran)
    ]

-- Evaluate returns a result for every document and every list of candidates: it meets no nil pointer,
-- and its recursion ends, also on a cyclic document. No call of validateNode is deeper than the limit on
-- the depth allows, so the check of the document is never cut short for lack of fuel.
pub evaluate_total :
    (heap : Heap) (root : Pointer) (cs : List Candidate)
    → (validate heap root ≢ invalid out_of_fuel) × ((r : Result) × (evaluate heap root cs ≡ some r))
evaluate_total heap root cs = (
  validate-ne-out_of_fuel heap root,
  rw (evaluate_step heap root cs) (evaluate_checked_total heap root cs (validate heap root) refl),
)

-- The root leads to a tree of at most 512 nodes and depth 32, whose leaves are valid capability IDs.
pub record HasTree (heap : Heap) (root : Pointer) : Type 0 where
  pub tree : Tree
  pub represents : Represents heap root tree
  pub named : IsNamed tree
  pub few : size tree ≤ max_nodes
  pub shallow : depth tree ≤ max_depth

-- If the root leads to no tree of at most 512 nodes and depth 32 whose leaves are valid capability IDs,
-- as when it leads into a cycle, or to a node without exactly one operator, then Validate returns an error,
-- which is not for lack of fuel, and for any candidates Evaluate returns a result that is neither
-- satisfied nor unsatisfied, with that error as an invalid requirement.
pub evaluate_refused :
    (heap : Heap) (root : Pointer) (cs : List Candidate)
    → (HasTree heap root → ⊥)
    → (e : Error) × (validate heap root ≡ invalid e)
      × (e ≢ out_of_fuel)
      × (evaluate heap root cs ≡ some (uncertain invalid_requirement (error e)))
      × (state (uncertain invalid_requirement (error e)) ≡ indeterminate)
unfolding uncertain
evaluate_refused heap root cs no_tree = elim (Checked-cases (validate heap root)) [
  | inl (n, e) ↦
      let (t, r, names, counted, few, low) = validate_sound heap root n e in
      absurd (
        no_tree
          (record { tree = t; represents = r; named = names; few = omega arith; shallow = low }))
  | inr (e, refused) ↦ (
    e,
    refused,
    λ f. validate-ne-out_of_fuel heap root (refused ∙ ap invalid f),
    rw (evaluate_step heap root cs) (rw refused refl),
    refl,
  )
]
