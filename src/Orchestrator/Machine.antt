-- ===== src/Orchestrator/Machine.antt =====
-- Run and processProbe (internal/probe/orchestrator.go) as steps: one for each access to what the workers
-- share, in any interleaving.
use capagent.Base.{
  ℕ, zero, suc, ◌+◌, ◌==◌, ◌<◌, ltb, Text, List, [], ◌∷◌, ◌++◌, true, false, Option, none, some,
  if◌then◌else◌, length, ◌≡◌, All,
}
use capagent.Model.Scope.{EvaluationScope}
use capagent.Model.Observation.{Observation}
use capagent.Probe.Execution.{ExecutionNode, ExecutionPlan}
use capagent.Orchestrator.Outcome.{
  succeeded, ProbeResult, ContextError, RunError, run_result, cancelled_result, skipped_result,
}
use capagent.Orchestrator.Scheduler.{
  ProbeState, States, push, close, Shared, node_at, settle, Pending, add_one, signal,
}

-- Where a worker stands: in `pop` before its test, in `cond.Wait` since a number of Broadcasts, with a
-- probe taken, behind the check that it is not final, in its Run, before recordFinal, behind its critical
-- section, or returned.
pub data Worker : Type 0 where
  idle exited : Worker
  asleep taken checked running : ℕ → Worker
  recording : ℕ → ProbeResult → Worker
  pending : ℕ → List ℕ → Worker

abbrev pub with_states : Shared → States → Shared
with_states sc states = record sc { states = states }

module _ (plan : ExecutionPlan) (scope : EvaluationScope) where
  -- One step of one worker.
  pub data Move (sc : Shared) : Worker → Shared → Worker → Type 0 where
    pop :
        {id : Text} {rest : List Text}
        → sc.queue.items ≡ id ∷ rest
        → Move sc idle
            (record sc { queue = record sc.queue { items = rest } })
            (taken (plan.indices id))
    sleep : sc.queue.items ≡ [] → sc.queue.closed ≡ false → Move sc idle sc (asleep sc.queue.cond)
    awake : {t : ℕ} → t < sc.queue.cond → Move sc (asleep t) sc idle
    leave : sc.queue.items ≡ [] → sc.queue.closed ≡ true → Move sc idle sc exited
    drop : {i : ℕ} → (sc.states i).finalized ≡ true → Move sc (taken i) sc idle
    check : {i : ℕ} → (sc.states i).finalized ≡ false → Move sc (taken i) sc (checked i)
    stop :
        {i : ℕ} {c : ContextError}
        → sc.context ≡ some c
        → Move sc (checked i) sc (recording i (cancelled_result (node_at plan i).id c))
    begin : {i : ℕ} → sc.context ≡ none → Move sc (checked i) sc (running i)
    -- Run returns an observation and an error, which are any.
    finish :
        {i : ℕ} (obs : Observation) (err : Option RunError)
        → Move sc
            (running i)
            sc
            (recording i (run_result (node_at plan i).id scope sc.context obs err))
    recorded :
        {i : ℕ} {r : ProbeResult} → (sc.states i).finalized ≡ true → Move sc (recording i r) sc idle
    record_final :
        {i : ℕ} {r : ProbeResult} {states : States} {p : Pending}
        → (sc.states i).finalized ≡ false
        → settle plan i r sc.states ≡ (states, p)
        → Move sc (recording i r) (with_states sc states) (pending p.additions p.runnable)
    add : {k : ℕ} {news : List ℕ} → Move sc (pending (suc k) news) (add_one sc) (pending k news)
    enqueue :
        {i : ℕ} {news : List ℕ}
        → Move sc
            (pending zero (i ∷ news))
            (record sc { queue = push (node_at plan i).id sc.queue })
            (pending zero news)
    complete : Move sc (pending zero []) (signal plan sc) idle

-- Where Run stands: at `<-sc.allDone`, at `wg.Wait()`, or returned.
pub data Caller : Type 0 where
  waiting joining returned : Caller

pub record System : Type 0 where
  pub shared : Shared
  pub workers : List Worker
  pub caller : Caller

abbrev pub HasExited : Worker → Type 0
HasExited exited = Unit
HasExited _ = ⊥

module _ (plan : ExecutionPlan) (scope : EvaluationScope) where
  pub data Step (s : System) : System → Type 0 where
    work :
        (left right : List Worker) {p q : Worker} {sc : Shared}
        → s.workers ≡ left ++ (p ∷ right)
        → Move plan scope s.shared p sc q
        → Step s (record s { shared = sc; workers = left ++ (q ∷ right) })
    -- The context ends, at any time.
    cancel :
        (c : ContextError)
        → s.shared.context ≡ none
        → Step s (record s { shared = record s.shared { context = some c } })
    wake :
        s.caller ≡ waiting
        → s.shared.all_done ≡ true
        → Step s (record s {
          shared = record s.shared { queue = close s.shared.queue };
          caller = joining;
        })
    join : s.caller ≡ joining → All HasExited s.workers → Step s (record s { caller = returned })

  pub data Reach (s : System) : System → Type 0 where
    start : Reach s s
    later : {t u : System} → Reach s t → Step t u → Reach s u

-- The state and the queue before the workers start.
abbrev pub fresh_result : ProbeResult
fresh_result = record { probe_id = []; status = succeeded; observation = none; err = none }

unfoldable pub ready_ids : List ExecutionNode → List Text
ready_ids [] = []
ready_ids (node ∷ nodes) =
    if length node.dependencies == 0 then node.id ∷ ready_ids nodes else ready_ids nodes

unfoldable pub idle_workers : ℕ → List Worker
idle_workers zero = []
idle_workers (suc k) = idle ∷ idle_workers k

-- `effective`, for the plan of at least one node.
abbrev pub effective : ExecutionPlan → ℕ → ℕ
effective plan concurrency =
    if ltb (length plan.nodes) concurrency then length plan.nodes else concurrency

unfoldable pub initial : ExecutionPlan → ℕ → Option ContextError → System
unfolding ready_ids idle_workers
initial plan concurrency context = record {
  shared = record {
    states = λ i. record {
      remaining_deps = length (node_at plan i).dependencies;
      finalized = false;
      result = fresh_result;
    };
    queue = record {
      items = ready_ids plan.nodes;
      closed = false;
      cond = length (ready_ids plan.nodes);
    };
    finalized = 0;
    all_done = false;
    context = context;
  };
  workers = idle_workers (effective plan concurrency);
  caller = waiting;
}

-- One entry of the slice that Run returns, with the fallback for a state that is not final.
abbrev pub entry_of : ExecutionNode → ProbeState → ProbeResult
entry_of node s = if s.finalized then s.result else skipped_result node.id

-- The entries from index `i` on.
unfoldable pub output : States → ℕ → List ExecutionNode → List ProbeResult
output states i [] = []
output states i (node ∷ nodes) = entry_of node (states i) ∷ output states (i + 1) nodes
