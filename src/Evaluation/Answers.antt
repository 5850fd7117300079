-- ===== src/Evaluation/Answers.antt =====
-- Evaluate of internal/capability/registry.go never panics.
use capagent.Evaluation.Order.{new_registry-IsOrderOf}
use capagent.Graph.Kahn.{update}
use capagent.Evaluation.Loop.{Turn-cases}
use capagent.Capability.Resolution.{resolve_total}
use capagent.Model.Capability.{Reason}
use capagent.Model.Errors.{failed}
use capagent.Model.CapabilityId.{id_validate, CapabilityId}
use capagent.Capability.Resolver.{resolve, Resolution}
use capagent.Model.Identity.{EvaluationContext}
use capagent.Model.Evidence.{Evidence}
use capagent.Dataset.Check.{validate_dataset}
use capagent.Dataset.Index.{is_some, Dataset}
use capagent.Model.Scope.{scope_is_valid, EvaluationScope}
use capagent.Evaluation.Evaluate.{
  context_at, with_evidence, append_resolution, reason_for, has_foreign, no_result, zero_capability,
  turn_of, Evaluation, panicked, panics, run_evaluator, Resolved, turn, evaluate_in,
  resolve_generated, evaluate_all, evaluate_registry,
}
use capagent.Evaluation.Registry.{
  Evaluator, constructed, new_registry, Registry, Definition, is_invalid,
}
use capagent.Base.{
  [], Option-cases, inr, inl, text_eq, ◌||◌, none, is_empty, Bool-cases, ◌∷◌, ◌++◌, refl, ◌≢◌, some,
  All, arith, ||-false, Option, true, false, ◌≡◌, Text, not, Bool, List,
}

not-false : (b : Bool) → not b ≡ false → b ≡ true
not-false true h = refl
not-false false h = absurd (ground arith)

has_evaluator : (def : Definition) → is_invalid def ≡ false → is_some def.evaluate ≡ true
unfolding is_invalid
has_evaluator def valid =
    let (_, rest) =
      ||-false (failed (id_validate def.id))
        (is_empty def.description || not (is_some def.evaluate)) valid in
    not-false (is_some def.evaluate)
      (||-false (is_empty def.description) (not (is_some def.evaluate)) rest).1

module _ (iterate : List Text → List Text) (scope : EvaluationScope) (d : Dataset) where
  turn_of-answers :
      (evidence : List Evidence) (r : Resolution) (o : Option Resolution)
      → o ≡ some r
      → turn_of evidence o ≢ panics
  turn_of-answers evidence r none e h = absurd (ground arith)
  turn_of-answers evidence r (some s) e h = absurd (ground arith)

  generated-answers :
      (id : CapabilityId) (evidence generated : List Evidence)
      → resolve_generated iterate scope d id evidence generated ≢ panics
  unfolding resolve_generated
  generated-answers id evidence generated h =
      let all = evidence ++ generated in
      let (r, found) = resolve_total scope id d.at_time all in
      elim (Bool-cases (has_foreign scope id generated)) [
        | inl e ↦ absurd (ground (arith, (rw (resolve_generated, e) at h)))
        | inr e ↦
            elim (Option-cases (validate_dataset iterate (with_evidence iterate scope d all))) [
              | inr (err, q) ↦ absurd (ground (arith, (rw (resolve_generated, e, q) at h)))
              | inl q ↦
                  turn_of-answers all r (resolve scope id d.at_time all) found
                    (rw (resolve_generated, e, q) at h)
            ]
      ]

  run-answers :
      (id : CapabilityId) (evidence : List Evidence) (o : Option Evaluator)
      → is_some o ≡ true
      → run_evaluator iterate scope d id evidence o ≢ panics
  unfolding resolve_generated
  run-answers id evidence none k h = absurd (ground arith)
  run-answers id evidence (some f) k h = generated-answers id evidence (f scope d.observations) h

  turn-answers :
      (def : Definition) (evidence : List Evidence) (reason : Option Reason)
      → is_invalid def ≡ false
      → turn iterate scope d def evidence reason ≢ panics
  unfolding turn is_invalid
  turn-answers def evidence (some cause) valid h = absurd (ground arith)
  turn-answers def evidence none valid h =
      run-answers def.id evidence def.evaluate (has_evaluator def valid) h

  evaluate_all-answers :
      (c : EvaluationContext) (evidence : List Evidence) (resolved : Resolved) (result : Evaluation)
      (defs : List Definition)
      → All (λ def. is_invalid def ≡ false) defs
      → evaluate_all iterate scope d c evidence resolved result defs ≢ panicked
  unfolding evaluate_all
  evaluate_all-answers c evidence resolved result [] valid h = absurd (ground arith)
  evaluate_all-answers c evidence resolved result (def ∷ defs) valid h =
      elim (Turn-cases (turn iterate scope d def evidence (reason_for c def resolved))) [
        | inl (more, r, q) ↦
            evaluate_all-answers c more (update resolved def.id r.capability)
              (append_resolution result r) defs valid.1 (rw (evaluate_all, q) at h)
        | inr (inl (err, q)) ↦ absurd (ground (arith, (rw (evaluate_all, q) at h)))
        | inr (inr q) ↦ turn-answers def evidence (reason_for c def resolved) valid.0 q
      ]

  evaluate_in-answers :
      (r : Registry) (o : Option EvaluationContext)
      → All (λ def. is_invalid def ≡ false) r.definitions
      → evaluate_in iterate r scope d o ≢ panicked
  unfolding evaluate_in
  evaluate_in-answers r none valid h = absurd (ground arith)
  evaluate_in-answers r (some c) valid h =
      evaluate_all-answers c d.evidence (λ id. zero_capability) (no_result scope) r.definitions
        valid h

-- Evaluate over a registry from NewRegistry never panics: it calls no nil evaluator, and Resolve answers
-- for whatever the evaluators return.
pub evaluate_registry-answers :
    (iterate : List Text → List Text) (given : List Definition) (r : Registry)
    (scope : EvaluationScope) (d : Dataset)
    → new_registry given ≡ constructed r
    → evaluate_registry iterate r scope d ≢ panicked
unfolding evaluate_registry
evaluate_registry-answers iterate given r scope d built h =
    elim (Bool-cases (failed (scope_is_valid scope) || not (text_eq scope.run_id d.run_id))) [
      | inl q ↦ absurd (ground (arith, (rw (evaluate_registry, q) at h)))
      | inr q ↦ elim (Option-cases (validate_dataset iterate d)) [
        | inr (err, p) ↦ absurd (ground (arith, (rw (evaluate_registry, q, p) at h)))
        | inl p ↦
            evaluate_in-answers iterate scope d r (context_at d.contexts scope.context_id)
              (new_registry-IsOrderOf given r built).valid (rw (evaluate_registry, q, p) at h)
      ]
    ]
