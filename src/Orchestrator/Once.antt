-- ===== src/Orchestrator/Once.antt =====
-- How often Run runs a probe, over all its steps (internal/probe/orchestrator.go).
use capagent.Base.{
  ℕ, ◌+◌, ◌≤◌, ◌<◌, ◌≡◌, ◌==◌, List, [], ◌∷◌, false, if◌then◌else◌, arith, Option, Bool-cases, inl,
  inr, subst,
}
use capagent.Model.Scope.{EvaluationScope}
use capagent.Probe.Execution.{ExecutionPlan}
use capagent.Orchestrator.Outcome.{ContextError, ProbeResult}
use capagent.Orchestrator.Scheduler.{Shared, States, Pending}
use capagent.Orchestrator.Machine.{
  Worker, idle, exited, asleep, taken, checked, running, recording, pending, Move, pop, leave,
  sleep, awake, drop, check, stop, begin, finish, recorded, record_final, add, enqueue, complete,
  System, Step, work, cancel, wake, join, Reach, start, later, initial,
}
use capagent.Orchestrator.Plan.{IsPlan, FitsInt32, size, final_at}
use capagent.Orchestrator.Sound.{active, Settled}
use capagent.Orchestrator.Invariant.{holds, Inv, weigh, weigh-append}
use capagent.Orchestrator.Moves.{Ready, taken_due}
use capagent.Orchestrator.Settling.{settle-Settled}
use capagent.Orchestrator.Reached.{weigh-at, Inv-Ready}
use capagent.Orchestrator.Start.{Reach-Inv}

-- 1 for a worker in the Run of the probe.
abbrev pub runs : ℕ → Worker → ℕ
runs z (running i) = if i == z then 1 else 0
runs z _ = 0

runs-le : (z : ℕ) (p : Worker) → runs z p ≤ holds z p
runs-le z idle = omega arith
runs-le z exited = omega arith
runs-le z (asleep t) = omega arith
runs-le z (taken i) = omega arith
runs-le z (checked i) = omega arith
runs-le z (running i) = omega arith
runs-le z (recording i r) = omega arith
runs-le z (pending k news) = omega arith

weigh-runs-le : (z : ℕ) (ps : List Worker) → weigh (runs z) ps ≤ weigh (holds z) ps
unfolding weigh
weigh-runs-le z [] = omega arith
weigh-runs-le z (p ∷ ps) = omega (arith, runs-le z p, weigh-runs-le z ps)

-- 1 for a worker that is in the Run of the probe or behind it, before recordFinal.
abbrev past : ℕ → Worker → ℕ
past z (running i) = if i == z then 1 else 0
past z (recording i r) = if i == z then 1 else 0
past z _ = 0

past-le : (z : ℕ) (p : Worker) → past z p ≤ holds z p
past-le z idle = omega arith
past-le z exited = omega arith
past-le z (asleep t) = omega arith
past-le z (taken i) = omega arith
past-le z (checked i) = omega arith
past-le z (running i) = omega arith
past-le z (recording i r) = omega arith
past-le z (pending k news) = omega arith

weigh-past-le : (z : ℕ) (ps : List Worker) → weigh (past z) ps ≤ weigh (holds z) ps
unfolding weigh
weigh-past-le z [] = omega arith
weigh-past-le z (p ∷ ps) = omega (arith, past-le z p, weigh-past-le z ps)

module _ {plan : ExecutionPlan} {scope : EvaluationScope} where
  -- 1 where a step calls the Run of the probe `z`.
  abbrev pub calls_in_move : ℕ → {sc sc' : Shared} {p q : Worker} → Move plan scope sc p sc' q → ℕ
  calls_in_move z (begin {i} e) = if i == z then 1 else 0
  calls_in_move z _ = 0

  abbrev pub calls_in_step : ℕ → {y u : System} → Step plan scope y u → ℕ
  calls_in_step z (work left right e mv) = calls_in_move z mv
  calls_in_step z _ = 0

  -- How often the Run of the probe `z` was called, over the steps so far.
  unfoldable pub calls : ℕ → {y u : System} → Reach plan scope y u → ℕ
  calls z start = 0
  calls z (later reach st) = calls z reach + calls_in_step z st

module _ (plan : ExecutionPlan) (scope : EvaluationScope) (ok : IsPlan plan) (z : ℕ) where
  own : (i : ℕ) → ◌≡◌ {A = ℕ} (if i == i then 1 else 0) 1
  own i = ground arith

  -- recordFinal makes the probe final, and leaves final what is.
  final_accounts :
      (i : ℕ) (r : ProbeResult) (s s' : States) (p : Pending)
      → Settled plan i r s s' p
      → (s i).finalized ≡ false
      → (if i == z then 1 else 0) + final_at s z ≤ final_at s' z
  final_accounts i r s s' p t unset = elim (Bool-cases (i == z)) [
    | inl e ↦ let same : i ≡ z = ground arith in rw e (ground (arith, t.here.0, same))
    | inr e ↦ elim (Bool-cases (s z).finalized) [
      | inl f ↦ let kept = (t.kept z f).0 in ground arith
      | inr f ↦ ground arith
    ]
  ]

  -- A call, and what is behind one, is accounted for by where the worker stands and by what is final.
  move_accounts :
      {sc sc' : Shared} {p q : Worker} (mv : Move plan scope sc p sc' q)
      → Ready plan sc p
      → calls_in_move z mv + past z p + final_at sc.states z ≤ past z q + final_at sc'.states z
  move_accounts (pop e) v = omega arith
  move_accounts (sleep e c) v = omega arith
  move_accounts (awake h) v = omega arith
  move_accounts (leave e c) v = omega arith
  move_accounts (drop f) v = omega arith
  move_accounts (check f) v = omega arith
  move_accounts (stop e) v = omega arith
  move_accounts (begin e) v = omega arith
  move_accounts (finish obs err) v = omega arith
  move_accounts {sc} (recorded {i} {r} f) v =
      let unset = (taken_due plan sc (recording i r) i v (own i)).1 in absurd (ground arith)
  move_accounts {sc} (record_final {i} {r} {states} {p} f e) v =
      let (low, unset, due) = taken_due plan sc (recording i r) i v (own i) in
      let t : Settled plan i r sc.states states p =
        subst (λ (w : States × Pending). Settled plan i r sc.states w.0 w.1) e
          (settle-Settled plan ok v.few sc.states v.sound i low unset due r v.good) in
      omega (arith, final_accounts i r sc.states states p t unset)
  move_accounts add v = omega arith
  move_accounts enqueue v = omega arith
  move_accounts complete v = omega arith

  step_accounts :
      {y u : System} (st : Step plan scope y u)
      → Inv plan y
      → calls_in_step z st + weigh (past z) y.workers + final_at y.shared.states z
        ≤ weigh (past z) u.workers + final_at u.shared.states z
  unfolding weigh
  step_accounts {y} (work left right {p} {q} e mv) v = omega (
    arith,
    move_accounts mv (Inv-Ready plan y left right p v e),
    weigh-at (past z) y.workers left right p e,
    weigh-append (past z) left (q ∷ right),
  )
  step_accounts (cancel c e) v = omega arith
  step_accounts (wake e d) v = omega arith
  step_accounts (join e h) v = omega arith

module _ (plan : ExecutionPlan) (ok : IsPlan plan) (concurrency : ℕ) (context : Option ContextError)
    (scope : EvaluationScope) (some_node : 0 < size plan) (few : FitsInt32 plan) where
  calls_accounted :
      (z : ℕ) {y : System} (reach : Reach plan scope (initial plan concurrency context) y)
      → calls z reach ≤ weigh (past z) y.workers + final_at y.shared.states z
  unfolding calls
  calls_accounted z start = omega arith
  calls_accounted z (later reach st) = omega (
    arith,
    calls_accounted z reach,
    step_accounts plan scope ok z st
        (Reach-Inv plan ok concurrency context some_node few scope reach),
  )

  -- Over all the steps that Run has made, in any order, the Run of a probe was called once at most. And in
  -- every state that Run comes to, a probe is in the Run of one worker at most, and of none when it is
  -- final. The plan is well-formed and has a node, and
  -- fewer than 2^31.
  pub run_once :
      (i : ℕ) {y : System} (reach : Reach plan scope (initial plan concurrency context) y)
      → (calls i reach ≤ 1) × (weigh (runs i) y.workers + final_at y.shared.states i ≤ 1)
  unfolding active
  run_once i {y} reach =
      let v = Reach-Inv plan ok concurrency context some_node few scope reach in
      (
        ground (arith, calls_accounted i reach, v.tokens i, weigh-past-le i y.workers),
        ground (arith, v.tokens i, weigh-runs-le i y.workers),
      )
