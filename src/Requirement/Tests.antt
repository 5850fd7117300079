-- ===== src/Requirement/Tests.antt =====
-- Documents and candidates of a few nodes, and the theorems about internal/requirement at them.
use capagent.Model.Errors.{Error, out_of_fuel, cyclic_document}
use capagent.Requirement.Kleene.{all-any_exact, ◌⊑◌}
use capagent.Requirement.Soundness.{validate_sound}
use capagent.Requirement.Completeness.{validate_complete}
use capagent.Requirement.Knowledge.{evaluate_node_mono, Extends}
use capagent.Requirement.Backing.{predicate-IsBacked, IsBacked}
use capagent.Requirement.Meaning.{
  evaluate-meaning, candidate_state, evaluate_refused, evaluate_total, EndsIn,
}
use capagent.Requirement.Logic.{any, unsatisfied, all, indeterminate, satisfied, or, and}
use capagent.Model.States.{
  supported, confidence_is_valid, state_is_valid, verified, complete, state_eq,
}
use capagent.Base.{
  inr, ◌≢◌, text_eq→eq, subst, inl, Bool-cases, All, In, arith, ◌↔◌, ◌≤◌, ℕ, contains, text_eq,
  zero, refl, suc, ◌≡◌, ◌∷◌, some, [], codes,
}
use capagent.Model.Evidence.{evidence_validate, Evidence}
use capagent.Model.CapabilityId.{CapabilityId, id_validate}
use capagent.Model.Scope.{scope_eq, scope_is_valid, EvaluationScope}
use capagent.Requirement.Evaluate.{evaluate_node, evaluate}
use capagent.Requirement.Predicate.{
  uncertain, invalid_requirement, error, Result, find_capability, state, index_of, predicate,
}
use capagent.Model.Capability.{no_reason, capability_validate, Candidate, Capability}
use capagent.Requirement.Tree.{
  depth, size, any_node, capability_node, AreNamed, RepresentsAll, all_node, not_node, Trees,
  IsNamed, Represents, Tree,
}
use capagent.Requirement.Node.{
  Pointer, max_depth, enough_fuel, max_nodes, valid, invalid, validate, Heap,
}
use capagent.Requirement.Logic

-- What a test computes with.
program : Unit {0}
unfolding evaluate id_validate capability_validate evidence_validate scope_is_valid scope_eq
    state_eq text_eq state_is_valid confidence_is_valid and or contains
    capagent.Requirement.Logic.not
program = tt

abbrev podman : CapabilityId
podman = codes "runtime.podman"

abbrev cgroups : CapabilityId
cgroups = codes "host.cgroups"

-- all(podman, any(podman, not(cgroups))), where the node for podman is shared.
abbrev sample : Heap
sample zero = all_node (some 1 ∷ some 2 ∷ [])
sample (suc zero) = capability_node podman
sample (suc (suc zero)) = any_node (some 1 ∷ some 3 ∷ [])
sample (suc (suc (suc zero))) = not_node 4
sample (suc (suc (suc (suc n)))) = capability_node cgroups

abbrev sample_tree : Tree
sample_tree = Tree.all (
    Trees.cons (Tree.capability podman) (
      Trees.cons
        (Tree.any (
          Trees.cons (Tree.capability podman)
            (Trees.cons (Tree.negation (Tree.capability cgroups)) Trees.nil)))
        Trees.nil))

sample-Represents : Represents sample (some 0) sample_tree
sample-Represents = Represents.all_at refl (
    RepresentsAll.cons_at (Represents.capability_at refl refl) (
      RepresentsAll.cons_at
        (Represents.any_at refl (
          RepresentsAll.cons_at (Represents.capability_at refl refl) (
            RepresentsAll.cons_at (Represents.negation_at refl (Represents.capability_at refl refl))
              RepresentsAll.nil_at)))
        RepresentsAll.nil_at))

sample-IsNamed : IsNamed sample_tree
unfolding program
sample-IsNamed = IsNamed.all_named (
    AreNamed.cons_named (IsNamed.named refl) (
      AreNamed.cons_named
        (IsNamed.any_named (
          AreNamed.cons_named (IsNamed.named refl)
            (AreNamed.cons_named (IsNamed.negation_named (IsNamed.named refl)) AreNamed.nil_named)))
        AreNamed.nil_named))

-- A node that is its own child.
abbrev loop : Heap
loop a = not_node a

abbrev here : EvaluationScope
here = record {
  run_id = codes "run";
  context_id = codes "ctx";
  runtime = codes "podman";
  endpoint = codes "local";
}

abbrev podman_evidence : Evidence
podman_evidence = record {
  id = codes "e1";
  source = codes "podman info";
  claim = podman;
  precedence = 2;
  observations = [];
  timestamp = 7;
  scope = here;
  completeness = complete;
  state = supported;
  confidence = verified;
  depends_on = [];
}

abbrev podman_capability : Capability
podman_capability = record {
  scope = here;
  id = podman;
  state = supported;
  confidence = verified;
  reason = no_reason;
  evidence = codes "e1" ∷ [];
}

abbrev able : Candidate
able = record {
  scope = here;
  capabilities = podman_capability ∷ [];
  evidence = podman_evidence ∷ [];
}

-- The same deployment before anything is known of it.
abbrev blank : Candidate
blank = record { scope = here; capabilities = []; evidence = [] }

validate-sample : validate sample (some 0) ≡ valid 6
unfolding program
validate-sample = refl

validate-loop : validate loop (some 0) ≡ invalid cyclic_document
unfolding program
validate-loop = refl

evaluate-able : EndsIn (evaluate sample (some 0) (able ∷ [])) satisfied
unfolding program
evaluate-able = (_, refl, refl)

evaluate-blank : EndsIn (evaluate sample (some 0) (blank ∷ [])) indeterminate
unfolding program
evaluate-blank = (_, refl, refl)

validate_sound_example :
    (t : Tree) × Represents sample (some 0) t
    × IsNamed t
    × (◌≡◌ {A = ℕ} 6 (size t))
    × (size t ≤ max_nodes)
    × (depth t ≤ max_depth)
validate_sound_example = validate_sound sample (some 0) 6 validate-sample

validate_complete_example : validate sample (some 0) ≡ valid (size sample_tree)
unfolding size depth
validate_complete_example =
    validate_complete sample (some 0) sample_tree sample-Represents sample-IsNamed (omega arith)
      (omega arith)

evaluate-meaning_example :
    EndsIn
      (evaluate sample (some 0) (able ∷ blank ∷ []))
      (any (candidate_state sample_tree able ∷ candidate_state sample_tree blank ∷ []))
unfolding size depth
evaluate-meaning_example =
    evaluate-meaning sample (some 0) sample_tree (able ∷ blank ∷ []) sample-Represents
      sample-IsNamed (omega arith) (omega arith) (omega arith) (omega arith)

evaluate_total_example :
    (validate loop (some 0) ≢ invalid out_of_fuel)
    × ((r : Result) × (evaluate loop (some 0) (able ∷ []) ≡ some r))
evaluate_total_example = evaluate_total loop (some 0) (able ∷ [])

-- A cycle is no tree.
loop_no_tree : {p : Pointer} {t : Tree} → Represents loop p t → ⊥
loop_no_tree (Represents.capability_at e full) = cc
loop_no_tree (Represents.all_at e rs) = cc
loop_no_tree (Represents.any_at e rs) = cc
loop_no_tree (Represents.negation_at e r) = loop_no_tree r

evaluate_refused_example :
    (e : Error) × (validate loop (some 0) ≡ invalid e)
    × (e ≢ out_of_fuel)
    × (evaluate loop (some 0) (able ∷ []) ≡ some (uncertain invalid_requirement (error e)))
    × (state (uncertain invalid_requirement (error e)) ≡ indeterminate)
evaluate_refused_example =
    evaluate_refused loop (some 0) (able ∷ []) (λ d. loop_no_tree d.represents)

all-any_exact_example :
    (all (satisfied ∷ indeterminate ∷ []) ≡ unsatisfied
      ↔ In unsatisfied (satisfied ∷ indeterminate ∷ []))
    × (all (satisfied ∷ indeterminate ∷ []) ≡ satisfied
        ↔ All (λ s. s ≡ satisfied) (satisfied ∷ indeterminate ∷ []))
    × (any (satisfied ∷ indeterminate ∷ []) ≡ satisfied
        ↔ In satisfied (satisfied ∷ indeterminate ∷ []))
    × (any (satisfied ∷ indeterminate ∷ []) ≡ unsatisfied
        ↔ All (λ s. s ≡ unsatisfied) (satisfied ∷ indeterminate ∷ []))
all-any_exact_example = all-any_exact (satisfied ∷ indeterminate ∷ [])

predicate-IsBacked_example : IsBacked (index_of able) podman satisfied
unfolding program
predicate-IsBacked_example = predicate-IsBacked (index_of able) podman satisfied refl (λ e. cc)

abbrev cgroups_evidence : Evidence
cgroups_evidence = record podman_evidence { id = codes "e2"; claim = cgroups; precedence = 1 }

-- The deployment with one more capability known.
abbrev known_more : Candidate
known_more = record {
  scope = here;
  capabilities =
      podman_capability
      ∷ record podman_capability { id = cgroups; evidence = codes "e2" ∷ [] }
      ∷ [];
  evidence = podman_evidence ∷ cgroups_evidence ∷ [];
}

able-Extends : Extends (index_of able) (index_of known_more)
unfolding program predicate
able-Extends id = elim (Bool-cases (text_eq podman id)) [
  | inl e ↦
      subst (λ j. state (predicate j (index_of able)) ⊑ state (predicate j (index_of known_more)))
        (text_eq→eq podman id e) refl
  | inr e ↦ rw (e, find_capability) tt
]

evaluate_node-able : EndsIn (evaluate_node enough_fuel sample (index_of able) (some 0)) satisfied
unfolding program
evaluate_node-able = (_, refl, refl)

evaluate_node-known_more :
    EndsIn (evaluate_node enough_fuel sample (index_of known_more) (some 0)) satisfied
unfolding program
evaluate_node-known_more = (_, refl, refl)

evaluate_node_mono_example : satisfied ⊑ satisfied
evaluate_node_mono_example =
    evaluate_node_mono sample (some 0) (index_of able) (index_of known_more) validate-sample
      able-Extends evaluate_node-able evaluate_node-known_more
