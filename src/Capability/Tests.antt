-- ===== src/Capability/Tests.antt =====
-- Two items of evidence about one capability, and the theorems about resolver.go at them.
use capagent.Model.Capability.{selected_evidence}
use capagent.Model.States.{
  state_eq, supported, confidence_is_valid, state_is_valid, derived, complete, supported,
  misconfigured,
}
use capagent.Capability.Choice.{is_beaten, ids}
use capagent.Capability.Levels.{rank}
use capagent.Capability.Selection.{is_usable}
use capagent.Capability.InOrder.{IsInOrder}
use capagent.Capability.Resolution.{
  resolve_accounts, usable_items, resolve-IsAgreed, best_precedence, IsAgreed, best_items,
  resolve_total, IsQuery,
}
use capagent.Model.Scope.{scope_eq, scope_is_valid, EvaluationScope}
use capagent.Model.Evidence.{evidence_validate, Evidence}
use capagent.Base.{
  refl, true, In, text_lt, min, ◌≤◌, All, ◌↔◌, text_eq, keep, contains, [], codes, arith, some, ◌∷◌,
  List, ◌≡◌,
}
use capagent.Capability.Resolver.{ceiling, confidence, unusable, resolve, Resolution}
use capagent.Model.CapabilityId.{id_validate, CapabilityId}

program : Unit {0}
unfolding resolve id_validate contains text_eq scope_is_valid scope_eq unusable evidence_validate
    state_is_valid confidence_is_valid confidence text_lt state_eq
program = tt

abbrev podman : CapabilityId
podman = codes "runtime.podman"

abbrev here : EvaluationScope
here = record {
  run_id = codes "run";
  context_id = codes "ctx";
  runtime = codes "podman";
  endpoint = codes "local";
}

abbrev reported : Evidence
reported = record {
  id = codes "b";
  source = codes "podman info";
  claim = podman;
  precedence = 2;
  observations = [];
  timestamp = 7;
  scope = here;
  completeness = complete;
  state = supported;
  confidence = derived;
  depends_on = [];
}

-- A configuration file says otherwise, and is superseded.
abbrev configured : Evidence
configured = record reported { id = codes "a"; precedence = 3; state = misconfigured }

abbrev items : List Evidence
items = reported ∷ configured ∷ []

abbrev resolved : Resolution
resolved = record {
  capability = record {
    scope = here;
    id = podman;
    state = supported;
    confidence = derived;
    reason = selected_evidence 2;
    evidence = codes "b" ∷ [];
  };
  superseded = codes "a" ∷ [];
  diagnostics = [];
}

resolve-items : resolve here podman 9 items ≡ some resolved
unfolding program
resolve-items = refl

query : IsQuery here podman 9
unfolding program
query = (refl, refl, omega arith)

resolve_total_example : (r : Resolution) × (resolve here podman 9 items ≡ some r)
resolve_total_example = resolve_total here podman 9 items

resolve-IsAgreed_example :
    (resolved.capability.state ≡ supported) ↔ IsAgreed here podman 9 items supported
resolve-IsAgreed_example =
    resolve-IsAgreed here podman 9 items query {r = resolved} supported resolve-items (λ e. cc)

resolve_accounts_example :
    (resolved.capability.evidence ≡ ids (best_items here podman 9 items))
    × IsInOrder (best_items here podman 9 items)
    × ((e : Evidence)
        → In e (best_items here podman 9 items) ↔ (
            In e items
            × (is_usable here podman 9 e ≡ true)
            × (e.precedence ≡ best_precedence here podman 9 items)))
    × (resolved.superseded
        ≡ ids (
            keep
              (is_beaten (best_precedence here podman 9 items))
              (usable_items here podman 9 items)))
    × IsInOrder
        (keep (is_beaten (best_precedence here podman 9 items)) (usable_items here podman 9 items))
    × All
        (λ e.
          rank resolved.capability.confidence
          ≤ min (rank (ceiling e.precedence)) (rank e.confidence))
        (best_items here podman 9 items)
resolve_accounts_example = resolve_accounts here podman 9 items query {r = resolved} resolve-items
