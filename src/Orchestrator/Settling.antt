-- ===== src/Orchestrator/Settling.antt =====
-- What a worker records of a probe, and what recordFinal does with it (internal/probe/orchestrator.go).
use native.Mathlib.Nat.{le_trans}
use capagent.Base.{
  ℕ, ◌≤◌, ◌<◌, ◌≡◌, [], false, if◌then◌else◌, arith, refl, Bool-cases, inl, inr, Option, none, some,
}
use capagent.Model.Scope.{EvaluationScope}
use capagent.Model.Observation.{Observation}
use capagent.Probe.Execution.{ExecutionPlan}
use capagent.Orchestrator.Counting.{total-le, total_one}
use capagent.Orchestrator.Outcome.{
  join_scope, is_context_error, retain_observation, classify, ProbeResult, RunError, ContextError,
  run_result,
}
use capagent.Orchestrator.Scheduler.{States, settle, node_at, is_success, loop_rounds}
use capagent.Orchestrator.Plan.{IsPlan, FitsInt32, size, finals, final_at}
use capagent.Orchestrator.Sound.{IsSound, active, IsRun, Settled, is_skipped}
use capagent.Orchestrator.Success.{success-Settled}
use capagent.Orchestrator.Failure.{failure-Settled}

pub finals-le : (plan : ExecutionPlan) (s : States) → finals plan s ≤ size plan
finals-le plan s =
    le_trans (total-le (size plan) (final_at s) (λ i. 1) (λ i h. ground arith))
      (omega (arith, total_one (size plan)))

-- A token is only of a node that is due and not final.
pub active_pos :
    (plan : ExecutionPlan) (s : States) (z : ℕ)
    → 0 < active plan s z
    → (z < size plan) × ((s z).finalized ≡ false) × ((s z).remaining_deps ≡ 0)
unfolding active
active_pos plan s z h = (ground arith, ground arith, ground arith)

loop_rounds_few : (n : ℕ) → n < 2147483648 → loop_rounds n ≡ n
loop_rounds_few n h = ground arith

-- Of a cascade no more probes are skipped than there are, which an int32 counts.
cascade_few :
    (plan : ExecutionPlan) (few : FitsInt32 plan) {i n : ℕ} {r : ProbeResult} {s s' : States}
    → Settled plan i r s s' (record { additions = n; runnable = [] })
    → loop_rounds n ≡ n
cascade_few plan few {n = n} {s' = s'} t =
    loop_rounds_few n (omega (arith, few, t.grown, finals-le plan s'))

pub settle-Settled :
    (plan : ExecutionPlan) (ok : IsPlan plan) (few : FitsInt32 plan) (s : States)
    (sound : IsSound plan s) (i : ℕ)
    → i < size plan
    → (s i).finalized ≡ false
    → (s i).remaining_deps ≡ 0
    → (r : ProbeResult) → IsRun plan i r
    → Settled plan i r s (settle plan i r s).0 (settle plan i r s).1
unfolding settle
settle-Settled plan ok few s sound i low unset due r run = elim (Bool-cases (is_success r.status)) [
  | inl e ↦ rw e (success-Settled plan ok s sound i low unset due r run e)
  | inr e ↦
      let t = failure-Settled plan ok s sound i low unset due r run e in
      rw (e, cascade_few plan few t) t
]

classify-ne-skipped :
    (c : Option ContextError) (err : Option RunError) → is_skipped (classify c err).0 ≡ false
classify-ne-skipped none none = refl
classify-ne-skipped (some c) none = refl
classify-ne-skipped none (some e) = refl
classify-ne-skipped (some c) (some e) = elim (Bool-cases (is_context_error c e)) [
  | inl h ↦ rw h
  | inr h ↦ rw h
]

-- A run that has ended was not skipped.
pub run_result-IsRun :
    (plan : ExecutionPlan) (i : ℕ) (scope : EvaluationScope) (c : Option ContextError)
    (obs : Observation) (err : Option RunError)
    → IsRun plan i (run_result (node_at plan i).id scope c obs err)
unfolding run_result
run_result-IsRun plan i scope c obs err = (
  refl,
  classify-ne-skipped c (if (retain_observation obs scope).1 then some (join_scope err) else err),
)
