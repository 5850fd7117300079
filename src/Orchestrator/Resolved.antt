-- ===== src/Orchestrator/Resolved.antt =====
-- Run over the plan of a resolved registry: internal/probe/registry.go and internal/probe/orchestrator.go.
use capagent.Base.{
  ℕ, ◌<◌, ◌≡◌, ◌↔◌, Text, Option, none, some, occ, false, true, get_elem?, length, arith, ◌∙◌,
  subst,
}
use capagent.Model.Scope.{EvaluationScope}
use capagent.Probe.Execution.{ExecutionPlan}
use capagent.Probe.Registry.{Registry, captured, resolve}
use capagent.Probe.Invariant.{IsRegistry}
use capagent.Probe.Resolve.{resolve_compiled}
use capagent.Orchestrator.Outcome.{ContextError}
use capagent.Orchestrator.Scheduler.{States, is_success}
use capagent.Orchestrator.Machine.{System, Reach, initial, output, returned}
use capagent.Orchestrator.Plan.{size}
use capagent.Orchestrator.Sound.{is_skipped}
use capagent.Orchestrator.Safety.{HasFailedDependency, run_reports}
use capagent.Orchestrator.CompileNodes.{gain-found_all}
use capagent.Orchestrator.Published.{
  plan, plan-IsPlan, plan-deps, plan-edge, plan-id, plan-size, get_elem?-lt,
}

-- A dependency that the probe under the ID declares did not succeed.
abbrev pub HasFailedDeclared : Registry → States → Text → Type 0
HasFailedDeclared r states id =
    (dep : Text) × (0 < occ dep (captured r.probes id))
    × (is_success (states (r.reg_index dep)).result.status ≡ false)

-- What Run reports of the probe that is registered under the ID.
abbrev Reports : Registry → ExecutionPlan → System → ℕ → Text → Type 0
Reports r p y k id =
    (get_elem? (output y.shared.states 0 p.nodes) k ≡ some (y.shared.states k).result)
    × ((y.shared.states k).result.probe_id ≡ id)
    × ((is_skipped (y.shared.states k).result.status ≡ true)
        ↔ HasFailedDeclared r y.shared.states id)

module _ (r : Registry) (inv : IsRegistry r) (fresh : r.resolved ≡ false)
    (done : (resolve r).1 ≡ none) where
  failed_iff :
      (states : States) (k : ℕ) (id : Text)
      → get_elem? r.ordered_ids k ≡ some id
      → HasFailedDependency (plan r inv fresh done) states k ↔ HasFailedDeclared r states id
  failed_iff states k id h = (
    λ f.
        let (d, m, bad) = f in
        let (at, dep, at_k, at_d, n, there) =
          plan-edge r inv fresh done k d (omega (arith, plan-deps r inv fresh done k d)) in
        let same : at ≡ id = cc in (dep, rw same at n, rw there bad),
    λ f.
        let (dep, m, bad) = f in
        let edge =
          gain-found_all r.reg_index (captured r.probes) 0 r.ordered_ids k k id dep (omega arith) h
            m in
        (r.reg_index dep, omega (arith, edge, plan-deps r inv fresh done k (r.reg_index dep)), bad),
  )

  plan-Reports :
      (concurrency : ℕ) (context : Option ContextError) (scope : EvaluationScope) {y : System}
      (k : ℕ) (id : Text)
      → length r.ordered_ids < 2147483648
      → Reach (plan r inv fresh done) scope (initial (plan r inv fresh done) concurrency context) y
      → y.caller ≡ returned
      → get_elem? r.ordered_ids k ≡ some id
      → Reports r (plan r inv fresh done) y k id
  plan-Reports concurrency context scope {y} k id few reach e h =
      let low : k < size (plan r inv fresh done) =
        omega (arith, plan-size r inv fresh done, get_elem?-lt r.ordered_ids k id h) in
      let (slot, final, named, skipped) =
        run_reports (plan r inv fresh done) (plan-IsPlan r inv fresh done) concurrency context scope
          k (omega (arith, few, plan-size r inv fresh done)) reach e low in
      let iff = failed_iff y.shared.states k id h in
      (
        slot,
        named ∙ plan-id r inv fresh done k id h,
        ((λ q. iff.0 (skipped.0 q)), (λ f. skipped.1 (iff.1 f))),
      )

-- Over the plan that Resolve compiled, of fewer than 2^31 probes, a Run that has returned holds at the place
-- of each registered ID a result of that ID, and has skipped its probe exactly if some dependency that the
-- probe declares did not succeed. The results are in the order of registration, as the comment of Run says,
-- also where that is not the order of the dependencies, which doc.go speaks of.
pub resolved_run_reports :
    (r : Registry) (compiled : ExecutionPlan) (concurrency : ℕ) (context : Option ContextError)
    (scope : EvaluationScope) {y : System} (k : ℕ) (id : Text)
    → IsRegistry r
    → r.resolved ≡ false
    → (resolve r).1 ≡ none
    → (resolve r).0.compiled ≡ some compiled
    → length r.ordered_ids < 2147483648
    → Reach compiled scope (initial compiled concurrency context) y
    → y.caller ≡ returned
    → get_elem? r.ordered_ids k ≡ some id
    → (get_elem? (output y.shared.states 0 compiled.nodes) k ≡ some (y.shared.states k).result)
      × ((y.shared.states k).result.probe_id ≡ id)
      × ((is_skipped (y.shared.states k).result.status ≡ true)
          ↔ HasFailedDeclared r y.shared.states id)
resolved_run_reports r compiled concurrency context scope {y} k id inv fresh done published few
      reach e h =
    let known = resolve_compiled r fresh done in
    let same : plan r inv fresh done ≡ compiled = cc in
    subst (λ p. Reach p scope (initial p concurrency context) y → Reports r p y k id) same
      (λ w. plan-Reports r inv fresh done concurrency context scope k id few w e h) reach
