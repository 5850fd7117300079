-- ===== src/Evaluation/Loop.antt =====
-- The loop of Evaluate in internal/capability/registry.go.
use capagent.Graph.Kahn.{update}
use capagent.Evaluation.Matched.{
  supported_all, turn-IsTurn, IsResolvedBy, Matched, IsSupportedIn, IsKnown,
}
use capagent.Model.CapabilityId.{id_validate, CapabilityId}
use capagent.Evaluation.Registry.{Definition}
use capagent.Model.Identity.{EvaluationContext}
use capagent.Model.Capability.{Capability}
use capagent.Dataset.Check.{validate_dataset}
use capagent.Dataset.Index.{Dataset}
use capagent.Model.Scope.{scope_eq, scope_is_valid, EvaluationScope}
use capagent.Capability.Resolver.{Resolution}
use capagent.Model.Evidence.{zero_time, Evidence}
use capagent.Base.{
  append_assoc, text_eq→eq, ◌∙◌, append-nil, In-append_right, sym, arith, text_eq, Bool-cases, keep,
  In-append_left, [], ◌∷◌, refl, ◌++◌, inr, inl, All, ◌≢◌, none, ◌⊎◌, ◌≡◌, Text, List,
}
use capagent.Evaluation.Evaluate.{
  append_resolution, reason_for, turn, finished, evaluated, with_evidence, Evaluation, panics,
  Resolved, evaluate_all, fails, EvaluationError, resolves, Turn,
}

pub Turn-cases :
    (t : Turn)
    → ((more : List Evidence) × (r : Resolution) × (t ≡ resolves more r))
      ⊎ (((e : EvaluationError) × (t ≡ fails e)) ⊎ (t ≡ panics))
Turn-cases (resolves more r) = inl (more, r, refl)
Turn-cases (fails e) = inr (inl (e, refl))
Turn-cases panics = inr (inr refl)

module _ (iterate : List Text → List Text) (scope : EvaluationScope) (d : Dataset)
    (valid : scope_is_valid scope ≡ none) (dated : d.at_time ≢ zero_time) where
  -- The whole loop.
  pub record IsLoop (before : List Capability) (defs : List Definition) (e : Evaluation)
      : Type 0 where
    pub added : List Capability
    pub capabilities : e.candidate.capabilities ≡ before ++ added
    pub matched : Matched (IsResolvedBy scope e.candidate.capabilities) defs added
    pub final_evidence : List Evidence
    pub kept : e.candidate.evidence ≡ keep (λ ev. scope_eq ev.scope scope) final_evidence
    pub sound : validate_dataset iterate (with_evidence iterate scope d final_evidence) ≡ none
    pub scope_same : e.candidate.scope ≡ scope

  IsKnown-snoc :
      (caps : List Capability) (resolved : Resolved) (id : CapabilityId) (k : Capability)
      → k.id ≡ id
      → IsKnown caps resolved
      → IsKnown (caps ++ (k ∷ [])) (update resolved id k)
  IsKnown-snoc caps resolved id k same known z h = elim (Bool-cases (text_eq id z)) [
    | inl e ↦ (k, In-append_right k caps (k ∷ []) (inl refl), same ∙ text_eq→eq id z e, (rw e at h))
    | inr e ↦ let (p, m, n, s) = known z (rw e at h) in (p, In-append_left p caps (k ∷ []) m, n, s)
  ]

  supported_later :
      (caps more : List Capability) (deps : List CapabilityId)
      → All (IsSupportedIn caps) deps
      → All (IsSupportedIn (caps ++ more)) deps
  supported_later caps more [] h = tt
  supported_later caps more (dep ∷ deps) h =
      let (p, m, n, s) = h.0 in
      ((p, In-append_left p caps more m, n, s), supported_later caps more deps h.1)

  pub evaluate_all-IsLoop :
      (c : EvaluationContext) (evidence : List Evidence) (resolved : Resolved) (result : Evaluation)
      (defs : List Definition) (e : Evaluation)
      → All (λ def. id_validate def.id ≡ none) defs
      → validate_dataset iterate (with_evidence iterate scope d evidence) ≡ none
      → IsKnown result.candidate.capabilities resolved
      → result.candidate.scope ≡ scope
      → evaluate_all iterate scope d c evidence resolved result defs ≡ evaluated e
      → IsLoop result.candidate.capabilities defs e
  unfolding evaluate_all
  evaluate_all-IsLoop c evidence resolved result [] e named sound known same h =
      let is : finished iterate scope d result evidence ≡ e = ground arith in
      rw (sym is) (record {
        added = [];
        capabilities = sym (append-nil result.candidate.capabilities);
        matched = tt;
        final_evidence = evidence;
        kept = refl;
        sound = sound;
        scope_same = same;
      })
  evaluate_all-IsLoop c evidence resolved result (def ∷ defs) e named sound known same h =
      elim (Turn-cases (turn iterate scope d def evidence (reason_for c def resolved))) [
        | inr (inl (err, q)) ↦ absurd (ground (arith, (rw (evaluate_all, q) at h)))
        | inr (inr q) ↦ absurd (ground (arith, (rw (evaluate_all, q) at h)))
        | inl (more, r, q) ↦
            let here =
              turn-IsTurn iterate scope d valid dated c def evidence more resolved r named.0 sound
                q in
            let before = result.candidate.capabilities in
            let rest =
              evaluate_all-IsLoop c more (update resolved def.id r.capability)
                (append_resolution result r) defs e named.1 here.sound
                (IsKnown-snoc before resolved def.id r.capability here.id known) same
                (rw (evaluate_all, q) at h) in
            let all : e.candidate.capabilities ≡ before ++ (r.capability ∷ rest.added) =
              rest.capabilities ∙ append_assoc before (r.capability ∷ []) rest.added in
            record {
              added = r.capability ∷ rest.added;
              capabilities = all;
              matched = (
                (
                  here.id,
                  here.scope_same,
                  here.state_valid,
                  here.confidence_valid,
                  λ k. rw all (
                      supported_later before (r.capability ∷ rest.added) def.dependencies (
                        supported_all before resolved def.dependencies known
                          (here.prerequisites k))),
                ),
                rest.matched,
              );
              final_evidence = rest.final_evidence;
              kept = rest.kept;
              sound = rest.sound;
              scope_same = rest.scope_same;
            }
      ]
