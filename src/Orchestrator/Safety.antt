-- ===== src/Orchestrator/Safety.antt =====
-- What Run promises of its probes, in every interleaving (internal/probe/orchestrator.go).
use capagent.Base.{
  ℕ, zero, suc, ◌+◌, ◌<◌, ◌≡◌, List, [], ◌∷◌, ◌++◌, true, false, length, arith, Bool-cases, inl,
  inr, ap, Option, some, get_elem?, ◌↔◌,
}
use capagent.Model.Scope.{EvaluationScope}
use capagent.Probe.Execution.{ExecutionNode, ExecutionPlan}
use capagent.Orchestrator.Counting.{count, total_full}
use capagent.Orchestrator.Outcome.{ContextError}
use capagent.Orchestrator.Scheduler.{States, node_at, is_success}
use capagent.Orchestrator.Machine.{Worker, running, returned, System, Reach, initial, output}
use capagent.Orchestrator.Plan.{IsPlan, FitsInt32, size, finals, final_at, deps, is_ok}
use capagent.Orchestrator.Sound.{all_ok, blamed_waits, is_skipped}
use capagent.Orchestrator.Invariant.{holds, Inv, has_woken}
use capagent.Orchestrator.Settling.{finals-le, active_pos}
use capagent.Orchestrator.Reached.{weigh-at}
use capagent.Orchestrator.Start.{Reach-Inv}

module _ (plan : ExecutionPlan) (ok : IsPlan plan) (concurrency : ℕ) (context : Option ContextError)
    (scope : EvaluationScope) {y : System} (some_node : 0 < size plan) (few : FitsInt32 plan)
    (reach : Reach plan scope (initial plan concurrency context) y) where
  -- In every state that Run comes to, a worker that is in the Run of a probe finds all dependencies of the
  -- probe final and succeeded. The plan is well-formed and has a node, and fewer than 2^31.
  pub run_after_dependencies :
      (left right : List Worker) (i d : ℕ)
      → y.workers ≡ left ++ (running i ∷ right)
      → 0 < count d (deps plan i)
      → is_ok y.shared.states d ≡ true
  run_after_dependencies left right i d e m =
      let v = Reach-Inv plan ok concurrency context some_node few scope reach in
      let (low, unset, due) =
        active_pos plan y.shared.states i
          (ground (arith, v.tokens i, weigh-at (holds i) y.workers left right (running i) e)) in
      all_ok plan y.shared.states i (v.sound.sums i low) due d m

module _ (plan : ExecutionPlan) (y : System) (v : Inv plan y)
    (done : y.shared.all_done ≡ true) where
  -- When the channel is closed, every probe is final.
  pub all_final : (i : ℕ) → i < size plan → (y.shared.states i).finalized ≡ true
  all_final i low =
      let full : finals plan y.shared.states ≡ size plan =
        ground (arith, v.counted, v.done, finals-le plan y.shared.states) in
      let one = total_full (size plan) (final_at y.shared.states) (λ j. ground arith) full i low in
      ground arith

output-get_elem? :
    (states : States) (k : ℕ) (nodes : List ExecutionNode) (i j : ℕ)
    → k + i ≡ j
    → i < length nodes
    → (states j).finalized ≡ true
    → get_elem? (output states k nodes) i ≡ some (states j).result
unfolding output
output-get_elem? states k [] i j e h f = absurd (omega arith)
output-get_elem? states k (node ∷ nodes) zero j e h f =
    let same : k ≡ j = omega arith in rw same (rw f)
output-get_elem? states k (node ∷ nodes) (suc i) j e h f =
    output-get_elem? states (k + 1) nodes i j (omega arith) (omega arith) f

-- A dependency of the probe has a result other than success.
abbrev pub HasFailedDependency : ExecutionPlan → States → ℕ → Type 0
HasFailedDependency plan states i =
    (d : ℕ) × (0 < count d (deps plan i)) × (is_success (states d).result.status ≡ false)

-- When Run has returned, its slice holds at the index of each probe a result of its own, never the
-- fallback, and the probe is skipped exactly if some dependency did not succeed. The plan is well-formed
-- and has a node, and fewer than 2^31.
pub run_reports :
    (plan : ExecutionPlan) (ok : IsPlan plan) (concurrency : ℕ) (context : Option ContextError)
    (scope : EvaluationScope) {y : System} (i : ℕ)
    → FitsInt32 plan
    → Reach plan scope (initial plan concurrency context) y
    → y.caller ≡ returned
    → i < size plan
    → (get_elem? (output y.shared.states 0 plan.nodes) i ≡ some (y.shared.states i).result)
      × ((y.shared.states i).finalized ≡ true)
      × ((y.shared.states i).result.probe_id ≡ (node_at plan i).id)
      × ((is_skipped (y.shared.states i).result.status ≡ true)
          ↔ HasFailedDependency plan y.shared.states i)
run_reports plan ok concurrency context scope {y} i few reach e low =
    let v = Reach-Inv plan ok concurrency context (omega arith) few scope reach in
    let final = all_final plan y v (v.woken (ap has_woken e)) in
    let states = y.shared.states in
    (
      output-get_elem? states 0 plan.nodes i i (omega arith) low (final i low),
      final i low,
      v.sound.owned i (final i low),
      (
        λ k. let (d, m, bad) = v.sound.blamed i (final i low) k in (d, m, bad.1),
        λ blame. elim (Bool-cases (is_skipped (states i).result.status)) [
          | inl k ↦ k
          | inr k ↦
              let (d, m, bad) = blame in
              let waits =
                blamed_waits plan states i (v.sound.sums i low)
                  (d, m, (final d (ok.deps_range i d low m), bad)) in
              absurd (omega (arith, v.sound.ran i (final i low) k))
        ],
      ),
    )
