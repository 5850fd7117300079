-- ===== src/Evaluation/Guarantee.antt =====
-- What Evaluate of internal/capability/registry.go guarantees of its result.
use capagent.Model.Evidence.{Evidence}
use capagent.Evaluation.Candidate.{
  check_evidence-none, check_capabilities-none, keep-le, Matched-length,
}
use capagent.Dataset.Sound.{validate_dataset-IsSound, validate_dataset-dated}
use capagent.Model.Errors.{failed}
use capagent.Requirement.Predicate.{
  check_evidence, check_capabilities, max_candidate_entries, check_candidate,
}
use capagent.Evaluation.Loop.{evaluate_all-IsLoop, IsLoop}
use capagent.Evaluation.Order.{new_registry-IsOrderOf}
use capagent.Model.CapabilityId.{id_validate}
use capagent.Model.Identity.{EvaluationContext}
use capagent.Dataset.Check.{validate_dataset}
use capagent.Dataset.Index.{Dataset}
use capagent.Model.Scope.{scope_eq, scope_is_valid, EvaluationScope}
use capagent.Evaluation.Registry.{constructed, new_registry, is_invalid, Registry, Definition}
use capagent.Evaluation.Evaluate.{
  context_at, with_evidence, no_result, evaluate_all, evaluated, Evaluated, Evaluation,
  zero_capability, evaluate_in, evaluate_registry,
}
use capagent.Evaluation.Matched.{IsResolvedBy, Matched, IsKnown}
use capagent.Base.{
  le→ltb-false, keep, Bool, refl, ◌≤◌, length, Option-cases, inr, inl, text_eq, sym, subst, not,
  occ, some, ◌||◌, ◌∷◌, Bool-cases, none, Option, false, ◌≡◌, arith, All, [], Text, List,
}

-- What a result tells of the call.
record IsRun (iterate : List Text → List Text) (r : Registry) (scope : EvaluationScope)
    (d : Dataset) (out : Evaluated) : Type 0 where
  valid : scope_is_valid scope ≡ none
  accepted_data : validate_dataset iterate d ≡ none
  context : EvaluationContext
  loop :
      evaluate_all iterate scope d context d.evidence
        (λ id. zero_capability)
        (no_result scope)
        r.definitions
      ≡ out

evaluate_in-run :
    (iterate : List Text → List Text) (r : Registry) (scope : EvaluationScope) (d : Dataset)
    (o : Option EvaluationContext) (e : Evaluation)
    → evaluate_in iterate r scope d o ≡ evaluated e
    → (c : EvaluationContext) × (evaluate_all iterate scope d c d.evidence
          (λ id. zero_capability)
          (no_result scope)
          r.definitions
        ≡ evaluated e)
unfolding evaluate_in
evaluate_in-run iterate r scope d none e h = absurd (ground arith)
evaluate_in-run iterate r scope d (some c) e h = (c, h)

evaluate_registry-IsRun :
    (iterate : List Text → List Text) (r : Registry) (scope : EvaluationScope) (d : Dataset)
    (e : Evaluation)
    → evaluate_registry iterate r scope d ≡ evaluated e
    → IsRun iterate r scope d (evaluated e)
unfolding evaluate_registry
evaluate_registry-IsRun iterate r scope d e h =
    elim (Bool-cases (failed (scope_is_valid scope) || not (text_eq scope.run_id d.run_id))) [
      | inl q ↦ absurd (ground (arith, (rw (evaluate_registry, q) at h)))
      | inr q ↦ elim (Option-cases (validate_dataset iterate d)) [
        | inr (err, p) ↦ absurd (ground (arith, (rw (evaluate_registry, q, p) at h)))
        | inl p ↦
            let (c, ran) =
              evaluate_in-run iterate r scope d (context_at d.contexts scope.context_id) e
                (rw (evaluate_registry, q, p) at h) in
            record { valid = ground arith; accepted_data = p; context = c; loop = ran }
      ]
    ]

nothing-IsKnown : IsKnown [] (λ id. zero_capability)
nothing-IsKnown z h = absurd (ground arith)

all_named :
    (defs : List Definition)
    → All (λ def. is_invalid def ≡ false) defs
    → All (λ def. id_validate def.id ≡ none) defs
unfolding is_invalid
all_named [] h = tt
all_named (def ∷ defs) h = (ground (arith, h.0), all_named defs h.1)

module _ (iterate : List Text → List Text) (given : List Definition) (r : Registry)
    (scope : EvaluationScope) (d : Dataset) (e : Evaluation)
    (built : new_registry given ≡ constructed r)
    (done : evaluate_registry iterate r scope d ≡ evaluated e) where
  run : IsRun iterate r scope d (evaluated e)
  run = evaluate_registry-IsRun iterate r scope d e done

  named : All (λ def. id_validate def.id ≡ none) r.definitions
  named = all_named r.definitions (new_registry-IsOrderOf given r built).valid

  loop :
      IsLoop iterate scope d run.valid
        (validate_dataset-dated iterate d run.accepted_data)
        []
        r.definitions
        e
  loop =
      evaluate_all-IsLoop iterate scope d run.valid
        (validate_dataset-dated iterate d run.accepted_data) run.context d.evidence
        (λ id. zero_capability) (no_result scope) r.definitions e named run.accepted_data
        nothing-IsKnown refl run.loop

  -- A result of Evaluate over a registry from NewRegistry has one capability for each definition, in the
  -- order of the registry and of the scope asked for, with a valid state and confidence. A capability whose
  -- state is not unknown has all its prerequisites among the capabilities, in state supported.
  pub evaluate_registry-Matched :
      Matched (IsResolvedBy scope e.candidate.capabilities) r.definitions e.candidate.capabilities
  evaluate_registry-Matched =
      subst (Matched (IsResolvedBy scope e.candidate.capabilities) r.definitions)
        (sym loop.capabilities) loop.matched

  -- The candidate of a result of Evaluate, over a registry from NewRegistry and in whatever order maps are
  -- visited, passes every check that the evaluation of requirements makes on a candidate.
  pub evaluate_registry-checked :
      ((keys : List Text) (z : Text) → occ z (iterate keys) ≡ occ z keys)
      → check_candidate e.candidate ≡ none
  unfolding check_candidate occ
  evaluate_registry-checked visits =
      let order = new_registry-IsOrderOf given r built in
      let sound =
        validate_dataset-IsSound iterate (with_evidence iterate scope d loop.final_evidence) visits
          loop.sound in
      let caps = e.candidate.capabilities in
      let matched = evaluate_registry-Matched in
      let many : length caps ≤ max_candidate_entries = omega (
        arith,
        Matched-length (IsResolvedBy scope caps) r.definitions caps matched,
        order.bounded,
      ) in
      let inside : Evidence → Bool = λ ev. scope_eq ev.scope scope in
      let final = loop.final_evidence in
      let short : length (keep inside final) ≤ max_candidate_entries =
        omega (arith, (keep-le inside [] final).1, sound.bounded) in
      let caps_checked : check_capabilities scope [] caps ≡ none =
        check_capabilities-none scope caps [] caps r.definitions matched named
          (λ z. omega (arith, order.distinct z)) in
      let evidence_checked : check_evidence [] (keep inside final) ≡ none =
        check_evidence-none [] (keep inside final)
          (λ z. omega (arith, (keep-le inside z final).0, sound.evidence_distinct z)) in
      rw
        (
          loop.scope_same,
          loop.kept,
          run.valid,
          le→ltb-false max_candidate_entries (length caps) many,
          le→ltb-false max_candidate_entries (length (keep inside final)) short,
          caps_checked,
        )
        evidence_checked
