-- ===== src/Orchestrator/Invariant.antt =====
-- The invariant of the orchestrator: where the tokens of a probe are, and what the counter counts.
use capagent.Base.{
  ℕ, ◌+◌, ◌≡◌, ◌==◌, Text, List, [], ◌∷◌, ◌++◌, Bool, true, false, if◌then◌else◌, arith, All, map,
  ◌≤◌,
}
use capagent.Probe.Execution.{ExecutionPlan}
use capagent.Orchestrator.Counting.{count}
use capagent.Orchestrator.Scheduler.{Shared, RunQueue}
use capagent.Orchestrator.Machine.{
  Worker, idle, exited, asleep, taken, checked, running, recording, pending, Caller, waiting,
  joining, returned, System,
}
use capagent.Orchestrator.Plan.{size, FitsInt32, finals}
use capagent.Orchestrator.Sound.{IsSound, active, IsRun}

-- How often a worker has a probe to run or to push.
abbrev pub holds : ℕ → Worker → ℕ
holds z (taken i) = if i == z then 1 else 0
holds z (checked i) = if i == z then 1 else 0
holds z (running i) = if i == z then 1 else 0
holds z (recording i r) = if i == z then 1 else 0
holds z (pending k news) = count z news
holds z (asleep t) = 0
holds z idle = 0
holds z exited = 0

-- What a worker has still to add to the counter.
abbrev pub debt : Worker → ℕ
debt (pending k news) = k + 1
debt _ = 0

unfoldable pub weigh : (Worker → ℕ) → List Worker → ℕ
weigh w [] = 0
weigh w (p ∷ ps) = w p + weigh w ps

pub weigh-append :
    (w : Worker → ℕ) (ps qs : List Worker) → weigh w (ps ++ qs) ≡ weigh w ps + weigh w qs
unfolding weigh
weigh-append w [] qs = omega arith
weigh-append w (p ∷ ps) qs = omega (arith, weigh-append w ps qs)

-- How often a probe is in the queue.
abbrev pub queued : ExecutionPlan → List Text → ℕ → ℕ
queued plan items z = count z (map plan.indices items)

abbrev pub IsGood : ExecutionPlan → Bool → Worker → Type 0
IsGood plan closed (recording i r) = IsRun plan i r
IsGood plan closed exited = closed ≡ true
IsGood plan closed _ = Unit

-- A wait since `t` Broadcasts began before now, and if there was none since, nothing is in the queue and
-- it is not closed.
abbrev pub IsCalled : RunQueue → ℕ → Type 0
IsCalled q t = (t ≤ q.cond) × (t ≡ q.cond → (q.items ≡ []) × (q.closed ≡ false))

abbrev pub IsWaiting : RunQueue → Worker → Type 0
IsWaiting q (asleep t) = IsCalled q t
IsWaiting q _ = Unit

abbrev pub has_woken : Caller → Bool
has_woken waiting = false
has_woken joining = true
has_woken returned = true

pub record Inv (plan : ExecutionPlan) (y : System) : Type 0 where
  pub few : FitsInt32 plan
  pub sound : IsSound plan y.shared.states
  -- A probe that is due and not final is once in the queue or with a worker; any other is nowhere.
  pub tokens :
      (z : ℕ)
      → queued plan y.shared.queue.items z + weigh (holds z) y.workers
        ≡ active plan y.shared.states z
  pub counted : y.shared.finalized + weigh debt y.workers ≡ finals plan y.shared.states
  pub done : y.shared.all_done ≡ (y.shared.finalized == size plan)
  pub good : All (IsGood plan y.shared.queue.closed) y.workers
  pub waits : All (IsWaiting y.shared.queue) y.workers
  pub shut : y.shared.queue.closed ≡ has_woken y.caller
  pub woken : has_woken y.caller ≡ true → y.shared.all_done ≡ true

-- What a step of one worker does to the sums.
pub record Moved (plan : ExecutionPlan) (sc : Shared) (p : Worker) (sc' : Shared) (q : Worker)
    : Type 0 where
  pub sound : IsSound plan sc'.states
  pub tokens :
      (z : ℕ)
      → queued plan sc'.queue.items z + holds z q + active plan sc.states z
        ≡ queued plan sc.queue.items z + holds z p + active plan sc'.states z
  pub counted :
      sc'.finalized + debt q + finals plan sc.states
      ≡ sc.finalized + debt p + finals plan sc'.states
  pub done : sc'.all_done ≡ (sc'.finalized == size plan)
  pub good : IsGood plan sc'.queue.closed q
  pub waits : IsWaiting sc'.queue q
  pub still : (t : ℕ) → IsCalled sc.queue t → IsCalled sc'.queue t
  pub shut : sc'.queue.closed ≡ sc.queue.closed
  pub woken : sc.all_done ≡ true → sc'.all_done ≡ true
