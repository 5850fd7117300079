-- ===== src/Evaluation/Matched.antt =====
-- What Evaluate of internal/capability/registry.go resolves, definition by definition.
use capagent.Capability.Validity.{resolve_valid}
use capagent.Capability.Resolver.{resolve, Resolution}
use capagent.Model.Identity.{EvaluationContext}
use capagent.Model.States.{
  state_eq→eq, state_eq, CapabilityState, confidence_is_valid, state_is_valid, supported,
}
use capagent.Model.Evidence.{zero_time, Evidence}
use capagent.Dataset.Check.{validate_dataset}
use capagent.Dataset.Index.{Dataset}
use capagent.Model.CapabilityId.{id_validate, CapabilityId}
use capagent.Model.Capability.{Capability}
use capagent.Evaluation.Registry.{Evaluator, Definition}
use capagent.Model.Scope.{scope_is_valid, EvaluationScope}
use capagent.Base.{
  refl, sym, inr, inl, Option-cases, ap, some, [], Bool-cases, ◌∷◌, ◌++◌, Option, ◌≢◌, arith, All,
  In, none, ◌≡◌, Text, List,
}
use capagent.Evaluation.Evaluate.{
  unresolved, has_foreign, with_evidence, run_evaluator, resolves, turn, turn_of, resolve_generated,
  reason_for, Resolved, missing_prerequisite,
}

-- Two lists of one length, related element by element.
abbrev pub Matched : (Definition → Capability → Type 0) → List Definition → List Capability → Type 0
Matched R [] [] = Unit
Matched R [] (c ∷ cs) = ⊥
Matched R (def ∷ defs) [] = ⊥
Matched R (def ∷ defs) (c ∷ cs) = R def c × Matched R defs cs

-- A prerequisite is among the capabilities, supported.
abbrev pub IsSupportedIn : List Capability → CapabilityId → Type 0
IsSupportedIn caps dep = (p : Capability) × In p caps × (p.id ≡ dep) × (p.state ≡ supported)

-- The capability of a definition: valid, of the scope, and known only if all prerequisites are supported.
abbrev pub IsResolvedBy : EvaluationScope → List Capability → Definition → Capability → Type 0
IsResolvedBy scope caps def c =
    (c.id ≡ def.id)
    × (c.scope ≡ scope)
    × (state_is_valid c.state ≡ none)
    × (confidence_is_valid c.confidence ≡ none)
    × (c.state ≢ CapabilityState.unknown → All (IsSupportedIn caps) def.dependencies)

abbrev pub IsKnown : List Capability → Resolved → Type 0
IsKnown caps resolved = (z : Text) → (resolved z).state ≡ supported → IsSupportedIn caps z

pub supported_all :
    (caps : List Capability) (resolved : Resolved) (deps : List CapabilityId)
    → IsKnown caps resolved
    → missing_prerequisite deps resolved ≡ none
    → All (IsSupportedIn caps) deps
unfolding missing_prerequisite
supported_all caps resolved [] known h = tt
supported_all caps resolved (dep ∷ deps) known h =
    elim (Bool-cases (state_eq (resolved dep).state supported)) [
      | inl e ↦ (
        known dep (state_eq→eq (resolved dep).state supported e),
        supported_all caps resolved deps known (rw e at h),
      )
      | inr e ↦ absurd (ground (arith, (rw e at h)))
    ]

module _ (iterate : List Text → List Text) (scope : EvaluationScope) (d : Dataset) where
  -- One turn gives a capability of the definition, and keeps the evidence valid.
  pub record IsTurn (def : Definition) (evidence : List Evidence) (resolved : Resolved)
      (more : List Evidence) (r : Resolution) : Type 0 where
    pub id : r.capability.id ≡ def.id
    pub scope_same : r.capability.scope ≡ scope
    pub state_valid : state_is_valid r.capability.state ≡ none
    pub confidence_valid : confidence_is_valid r.capability.confidence ≡ none
    pub prerequisites :
        r.capability.state ≢ CapabilityState.unknown
        → missing_prerequisite def.dependencies resolved ≡ none
    pub sound : validate_dataset iterate (with_evidence iterate scope d more) ≡ none

  resolves_inv :
      (xs ys : List Evidence) (r s : Resolution)
      → resolves xs r ≡ resolves ys s
      → (xs ≡ ys) × (r ≡ s)
  resolves_inv xs ys r s h = (ground arith, ground arith)

  turn_of-inv :
      (xs ys : List Evidence) (o : Option Resolution) (r : Resolution)
      → turn_of xs o ≡ resolves ys r
      → (xs ≡ ys) × (o ≡ some r)
  turn_of-inv xs ys none r h = absurd (ground arith)
  turn_of-inv xs ys (some s) r h = let (e, q) = resolves_inv xs ys s r h in (e, ap some q)

  generated_inv :
      (id : CapabilityId) (evidence generated more : List Evidence) (r : Resolution)
      → resolve_generated iterate scope d id evidence generated ≡ resolves more r
      → (validate_dataset iterate (with_evidence iterate scope d more) ≡ none)
        × (resolve scope id d.at_time more ≡ some r)
  unfolding resolve_generated
  generated_inv id evidence generated more r h =
      let all = evidence ++ generated in
      elim (Bool-cases (has_foreign scope id generated)) [
        | inl e ↦ absurd (ground (arith, (rw e at h)))
        | inr e ↦
            elim (Option-cases (validate_dataset iterate (with_evidence iterate scope d all))) [
              | inr (err, q) ↦ absurd (ground (arith, (rw (e, q) at h)))
              | inl q ↦
                  let (same, found) =
                    turn_of-inv all more (resolve scope id d.at_time all) r (rw (e, q) at h) in
                  (rw same at q, rw same at found)
            ]
      ]

  run_inv :
      (id : CapabilityId) (evidence more : List Evidence) (o : Option Evaluator) (r : Resolution)
      → run_evaluator iterate scope d id evidence o ≡ resolves more r
      → (validate_dataset iterate (with_evidence iterate scope d more) ≡ none)
        × (resolve scope id d.at_time more ≡ some r)
  unfolding resolve_generated
  run_inv id evidence more none r h = absurd (ground arith)
  run_inv id evidence more (some f) r h =
      generated_inv id evidence (f scope d.observations) more r h

  reason_for-none :
      (c : EvaluationContext) (def : Definition) (resolved : Resolved)
      → reason_for c def resolved ≡ none
      → missing_prerequisite def.dependencies resolved ≡ none
  unfolding reason_for
  reason_for-none c def resolved h = ground arith

  module _ (valid : scope_is_valid scope ≡ none) (dated : d.at_time ≢ zero_time) where
    pub turn-IsTurn :
        (c : EvaluationContext) (def : Definition) (evidence more : List Evidence)
        (resolved : Resolved) (r : Resolution)
        → id_validate def.id ≡ none
        → validate_dataset iterate (with_evidence iterate scope d evidence) ≡ none
        → turn iterate scope d def evidence (reason_for c def resolved) ≡ resolves more r
        → IsTurn def evidence resolved more r
    unfolding turn resolve_generated state_is_valid confidence_is_valid
    turn-IsTurn c def evidence more resolved r named sound h =
        elim (Option-cases (reason_for c def resolved)) [
          | inr (cause, q) ↦
              let (same, is) =
                resolves_inv evidence more (unresolved scope def.id cause) r (rw q at h) in
              rw (sym is) (record {
                id = refl;
                scope_same = refl;
                state_valid = refl;
                confidence_valid = refl;
                prerequisites = λ k. absurd (k refl);
                sound = rw same at sound;
              })
          | inl q ↦
              let (checked, found) = run_inv def.id evidence more def.evaluate r (rw q at h) in
              let (id_same, scope_same, state_valid, confidence_valid) =
                resolve_valid scope def.id d.at_time more r (valid, named, dated) found in
              record {
                id = id_same;
                scope_same = scope_same;
                state_valid = state_valid;
                confidence_valid = confidence_valid;
                prerequisites = λ k. reason_for-none c def resolved q;
                sound = checked;
              }
        ]
