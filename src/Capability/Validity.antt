-- ===== src/Capability/Validity.antt =====
-- The capability that Resolve of internal/capability/resolver.go returns is valid.
use capagent.Capability.Resolution.{
  usable_items-In, usable_items, best_precedence, best_items, resolve-IsResolved, IsQuery,
}
use capagent.Model.Evidence.{Evidence, Time}
use capagent.Model.CapabilityId.{CapabilityId}
use capagent.Base.{
  refl, [], inr, inl, In-keep, Bool-cases, All-of, false, ◌∷◌, some, arith, All, true, none, ◌≡◌,
  List, Bool,
}
use capagent.Model.Scope.{EvaluationScope}
use capagent.Capability.Resolver.{resolve, Resolution, unusable}
use capagent.Model.States.{state_eq, CapabilityState, state_is_valid, confidence_is_valid}
use capagent.Capability.Selection.{is_usable}
use capagent.Capability.Choice.{is_best, joint_state}

joint_state-valid :
    (first : Bool) (s : CapabilityState) (es : List Evidence)
    → state_is_valid s ≡ none
    → All (λ e. state_is_valid e.state ≡ none) es
    → state_is_valid (joint_state first s es) ≡ none
unfolding joint_state state_is_valid
joint_state-valid first s [] h k = h
joint_state-valid true s (e ∷ es) h k = joint_state-valid false e.state es k.0 k.1
joint_state-valid false s (e ∷ es) h k = elim (Bool-cases (state_eq e.state s)) [
  | inl q ↦ rw q (joint_state-valid false s es h k.1)
  | inr q ↦ rw q (joint_state-valid false CapabilityState.unknown es refl k.1)
]

usable-valid :
    (scope : EvaluationScope) (id : CapabilityId) (at_time : Time) (e : Evidence)
    → is_usable scope id at_time e ≡ true
    → state_is_valid e.state ≡ none
unfolding is_usable unusable
usable-valid scope id at_time e u = ground arith

-- A valid query gets a capability of its scope and claim, with a valid state and confidence.
pub resolve_valid :
    (scope : EvaluationScope) (id : CapabilityId) (at_time : Time) (input : List Evidence)
    (r : Resolution)
    → IsQuery scope id at_time
    → resolve scope id at_time input ≡ some r
    → (r.capability.id ≡ id)
      × (r.capability.scope ≡ scope)
      × (state_is_valid r.capability.state ≡ none)
      × (confidence_is_valid r.capability.confidence ≡ none)
unfolding confidence_is_valid state_is_valid
resolve_valid scope id at_time input r query h =
    let done = resolve-IsResolved scope id at_time input query h in
    let all =
      All-of (λ e. state_is_valid e.state ≡ none) (best_items scope id at_time input)
        (λ e m.
          let (n, _) =
            In-keep (is_best (best_precedence scope id at_time input)) e
              (usable_items scope id at_time input) m in
          usable-valid scope id at_time e (usable_items-In scope id at_time input e n).1) in
    let joint : state_is_valid done.choice.state ≡ none = rw (done.ran.joint) (
      joint_state-valid true CapabilityState.unknown (best_items scope id at_time input) refl
        all) in
    let level = done.ran.level in rw (done.result) (refl, refl, joint, ground arith)
