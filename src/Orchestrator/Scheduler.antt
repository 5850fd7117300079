-- ===== src/Orchestrator/Scheduler.antt =====
-- runQueue, schedulerContext, recordFinal, signalCompletion and cascadeSkipLocked
-- (internal/probe/orchestrator.go).
use capagent.Base.{
  ℕ, zero, suc, ◌+◌, ◌-◌, ◌==◌, ◌%◌, ltb, Text, List, [], ◌∷◌, ◌++◌, Bool, true, false, Option,
  none, some, if◌then◌else◌, length, get_elem?,
}
use capagent.Probe.Execution.{ExecutionNode, ExecutionPlan, blank}
use capagent.Orchestrator.Counting.{total}
use capagent.Orchestrator.Outcome.{
  ProbeStatus, ProbeResult, ContextError, succeeded, skipped_result,
}

-- `remainingDeps` does not fall below 0 in the code: it counts dependencies, and each lowers it once.
pub record ProbeState : Type 0 where
  pub remaining_deps : ℕ
  pub finalized : Bool
  pub result : ProbeResult

-- The slice of states, by index.
abbrev pub States : Type 0
States = ℕ → ProbeState

abbrev pub set_state : States → ℕ → ProbeState → States
set_state states i s j = if i == j then s else states j

-- `cond` is the number of its Broadcasts so far: a Wait that begins at a number returns only when the
-- number has grown. The lock of the queue makes each operation one step.
pub record RunQueue : Type 0 where
  pub items : List Text
  pub closed : Bool
  pub cond : ℕ

-- `cond.Broadcast()`.
abbrev pub broadcast : RunQueue → RunQueue
broadcast q = record q { cond = q.cond + 1 }

abbrev pub push : Text → RunQueue → RunQueue
push id q = if q.closed then q else broadcast (record q { items = q.items ++ (id ∷ []) })

abbrev pub close : RunQueue → RunQueue
close q = if q.closed then q else broadcast (record q { closed = true })

-- An int32 as its 32 bits, a number below 2^32. It is negative from 2^31 on.
abbrev pub wrap_int32 : ℕ → ℕ
wrap_int32 n = n % 4294967296

-- The rounds of `for i := int32(0); i < n; i++`.
abbrev pub loop_rounds : ℕ → ℕ
loop_rounds n = if ltb (wrap_int32 n) 2147483648 then wrap_int32 n else 0

-- The memory that the workers share. `finalized` is an int32, `context` is `ctx.Err()`, and `all_done`
-- tells that the channel is closed.
pub record Shared : Type 0 where
  pub states : States
  pub queue : RunQueue
  pub finalized : ℕ
  pub all_done : Bool
  pub context : Option ContextError

-- `nodes[i]`. Out of range the code panics.
abbrev pub node_or : Option ExecutionNode → ExecutionNode
node_or none = blank
node_or (some node) = node

abbrev pub node_at : ExecutionPlan → ℕ → ExecutionNode
node_at plan i = node_or (get_elem? plan.nodes i)

-- The loop over the dependents of a probe that succeeded, and those that become runnable.
unfoldable pub release : States → List ℕ → States × List ℕ
release states [] = (states, [])
release states (dep ∷ deps) =
    let s = states dep in
    let (after, runnable) =
      release (set_state states dep (record s { remaining_deps = s.remaining_deps - 1 })) deps in
    (after, if s.remaining_deps == 1 then dep ∷ runnable else runnable)

-- `append(stack, ...)`, where the last element, at which the code takes, stands first.
unfoldable pub push_each : List ℕ → List ℕ → List ℕ
push_each [] stack = stack
push_each (dep ∷ deps) stack = push_each deps (dep ∷ stack)

-- The loop that pushes the dependents that are not final.
unfoldable pub push_open : States → List ℕ → List ℕ → List ℕ
push_open states [] stack = stack
push_open states (dep ∷ deps) stack =
    push_open states deps (if (states dep).finalized then stack else dep ∷ stack)

abbrev pub skip_state : ExecutionPlan → ℕ → ProbeState → ProbeState
skip_state plan id s = record s { finalized = true; result = skipped_result (node_at plan id).id }

-- `for len(stack) > 0`, with fuel. The second part is `count`.
unfoldable pub cascade : ℕ → ExecutionPlan → States → List ℕ → ℕ → States × ℕ
unfolding push_open
cascade zero plan states stack count = (states, count)
cascade (suc fuel) plan states [] count = (states, count)
cascade (suc fuel) plan states (id ∷ stack) count =
    let s = states id in
    let marked = set_state states id (skip_state plan id s) in
    let skip =
      cascade fuel plan marked (push_open marked (node_at plan id).downstream stack) (count + 1) in
    let pass = cascade fuel plan states stack count in if s.finalized then pass else skip

-- Each round takes one element, and an element is pushed once for each edge at most.
abbrev pub cascade_fuel : ExecutionPlan → List ℕ → ℕ
cascade_fuel plan seeds =
    length seeds + total (length plan.nodes) (λ i. length (node_at plan i).downstream)

unfoldable pub cascade_skip : ExecutionPlan → States → List ℕ → States × ℕ
unfolding cascade push_each total
cascade_skip plan states seeds =
    cascade (cascade_fuel plan seeds) plan states (push_each seeds []) 0

abbrev pub is_success : ProbeStatus → Bool
is_success succeeded = true
is_success _ = false

-- What a worker has left to do after the critical section of recordFinal: the additions to the counter,
-- and the probes to push.
pub record Pending : Type 0 where
  pub additions : ℕ
  pub runnable : List ℕ

-- The critical section of recordFinal for a probe that is not final.
unfoldable pub settle : ExecutionPlan → ℕ → ProbeResult → States → States × Pending
unfolding release cascade_skip
settle plan id result states =
    let marked = set_state states id (record (states id) { finalized = true; result = result }) in
    let (released, runnable) = release marked (node_at plan id).downstream in
    let (cascaded, count) = cascade_skip plan marked (node_at plan id).downstream in
    if is_success result.status
    then (released, record { additions = 0; runnable = runnable })
    else (cascaded, record { additions = loop_rounds count; runnable = [] })

-- `sc.finalized.Add(1)`.
abbrev pub add_one : Shared → Shared
add_one sc = record sc { finalized = wrap_int32 (sc.finalized + 1) }

-- signalCompletion.
abbrev pub signal : ExecutionPlan → Shared → Shared
signal plan sc = record sc {
  finalized = wrap_int32 (sc.finalized + 1);
  all_done =
      if wrap_int32 (sc.finalized + 1) == wrap_int32 (length plan.nodes) then true else sc.all_done;
}
