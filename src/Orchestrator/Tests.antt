-- ===== src/Orchestrator/Tests.antt =====
-- A plan of two probes with one worker, run until the second probe runs, and the theorems about Run at it.
use capagent.Base.{
  ◌+◌, ◌≤◌, ◌≡◌, [], ◌∷◌, true, arith, refl, codes, text_eq, none, some, ◌↔◌, get_elem?,
}
use capagent.Probe.Execution.{ExecutionPlan, compile_plan}
use capagent.Probe.Registry.{register, resolve, captured}
use capagent.Probe.Samples.{registry, registry-IsRegistry, opened, succeeds}
use capagent.Orchestrator.Published
use capagent.Model.Scope.{EvaluationScope}
use capagent.Model.States.{complete}
use capagent.Model.Observation.{Observation}
use capagent.Orchestrator.Counting.{count, total}
use capagent.Orchestrator.Outcome.{RunError, ProbeResult, run_result}
use capagent.Orchestrator.Scheduler.{
  close, add_one, Shared, settle, node_at, push, signal, States, Pending,
}
use capagent.Orchestrator.Machine.{
  joining, Worker, idle, exited, asleep, sleep, taken, checked, running, recording, pending, pop,
  leave, check, begin, finish, record_final, add, enqueue, complete as complete_probe, System, work,
  wake, join, Reach, start, later, initial, with_states, returned, output,
}
use capagent.Orchestrator.Plan.{IsPlan, is_ok, final_at}
use capagent.Orchestrator.Sound.{is_skipped}
use capagent.Orchestrator.Invariant.{weigh}
use capagent.Orchestrator.Safety.{run_after_dependencies, run_reports, HasFailedDependency}
use capagent.Orchestrator.Once.{run_once, runs, calls}
use capagent.Orchestrator.Resolved.{HasFailedDeclared, resolved_run_reports}
use capagent.Orchestrator.Progress.{run_proceeds, Advances}

abbrev plan : ExecutionPlan
unfolding compile_plan
plan =
    compile_plan registry.ordered_ids registry.probes (captured registry.probes) registry.reg_index

program : Unit {0}
unfolding plan registry register compile_plan resolve initial settle run_result weigh text_eq count
    total output calls
program = tt

plan-IsPlan : IsPlan plan
unfolding plan
plan-IsPlan = Published.plan-IsPlan registry registry-IsRegistry opened succeeds

abbrev scope : EvaluationScope
scope = record { run_id = codes "run"; context_id = codes "ctx"; runtime = []; endpoint = [] }

abbrev seen : Observation
seen = record {
  id = codes "o";
  probe_id = codes "k";
  timestamp = 5;
  summary = [];
  scope = scope;
  completeness = complete;
  facts = [];
}

abbrev after : System → Shared → Worker → System
after y sc q = record y { shared = sc; workers = q ∷ [] }

abbrev began : System
began = initial plan 1 none

abbrev popped : Shared → Shared
popped sc = record sc { queue = record sc.queue { items = [] } }

abbrev kernel_result : ProbeResult
kernel_result = run_result (codes "k") scope none seen none

abbrev kernel_runs : System
kernel_runs = after began (popped began.shared) (running 1)

abbrev kernel_records : System
kernel_records = after kernel_runs kernel_runs.shared (recording 1 kernel_result)

abbrev settled : States × Pending
settled = settle plan 1 kernel_result kernel_records.shared.states

abbrev kernel_settled : System
kernel_settled =
    after kernel_records (with_states kernel_records.shared settled.0)
      (pending settled.1.additions settled.1.runnable)

abbrev storage_queued : System
storage_queued =
    after kernel_settled
      (record kernel_settled.shared { queue = push (codes "s") kernel_settled.shared.queue })
      (pending 0 [])

abbrev kernel_done : System
kernel_done = after storage_queued (signal plan storage_queued.shared) idle

abbrev storage_runs : System
storage_runs = after kernel_done (popped kernel_done.shared) (running 0)

Reach-kernel : Reach plan scope began kernel_records
unfolding program
Reach-kernel =
    later
      (later
        (later
          (later start
            (work [] [] {p = idle} {q = taken 1} refl (pop {id = codes "k"} {rest = []} refl)))
          (work [] [] {p = taken 1} {q = checked 1} refl (check refl)))
        (work [] [] {p = checked 1} {q = running 1} refl (begin refl)))
      (work [] [] {p = running 1} refl (finish seen none))

Reach-done : Reach plan scope began kernel_done
unfolding program
Reach-done =
    later
      (later
        (later Reach-kernel (
          work [] [] {p = recording 1 kernel_result} refl
            (record_final {states = settled.0} {p = settled.1} refl refl)))
        (work [] [] {p = pending 0 (0 ∷ [])} {q = pending 0 []} refl enqueue))
      (work [] [] {p = pending 0 []} {q = idle} refl complete_probe)

Reach-storage : Reach plan scope began storage_runs
unfolding program
Reach-storage =
    later
      (later
        (later Reach-done
          (work [] [] {p = idle} {q = taken 0} refl (pop {id = codes "s"} {rest = []} refl)))
        (work [] [] {p = taken 0} {q = checked 0} refl (check refl)))
      (work [] [] {p = checked 0} {q = running 0} refl (begin refl))

run_after_dependencies_example : is_ok storage_runs.shared.states 1 ≡ true
unfolding program
run_after_dependencies_example =
    run_after_dependencies plan plan-IsPlan 1 none scope (omega arith) (omega arith) Reach-storage
      [] [] 0 1 refl (omega arith)

run_once_example :
    (calls 0 Reach-storage ≤ 1)
    × (weigh (runs 0) storage_runs.workers + final_at storage_runs.shared.states 0 ≤ 1)
unfolding program
run_once_example =
    run_once plan plan-IsPlan 1 none scope (omega arith) (omega arith) 0 Reach-storage

-- The Run of storage was called.
storage_called : calls 0 Reach-storage ≡ 1
unfolding program Reach-storage Reach-done Reach-kernel
storage_called = refl

-- Two workers: one has the kernel's probe, and the other waits.
abbrev began_two : System
began_two = initial plan 2 none

abbrev one_asleep : System
one_asleep = record began_two {
  shared = popped began_two.shared;
  workers = taken 1 ∷ asleep 1 ∷ [];
}

Reach-asleep : Reach plan scope began_two one_asleep
unfolding program
Reach-asleep =
    later
      (later start
        (work [] (idle ∷ []) {p = idle} {q = taken 1} refl (pop {id = codes "k"} {rest = []} refl)))
      (work (taken 1 ∷ []) [] {p = idle} {q = asleep 1} refl (sleep refl refl))

run_proceeds_example : Advances plan scope one_asleep
unfolding program
run_proceeds_example =
    run_proceeds plan plan-IsPlan 2 none scope (omega arith) (omega arith) (omega arith)
      Reach-asleep refl

-- The kernel's probe fails, and storage is skipped.
abbrev failed_result : ProbeResult
failed_result = run_result (codes "k") scope none seen (some (RunError.other (codes "no kernel")))

abbrev failing : System
failing = after kernel_runs kernel_runs.shared (recording 1 failed_result)

abbrev failed_settled : States × Pending
failed_settled = settle plan 1 failed_result failing.shared.states

abbrev failed_pending : System
failed_pending = after failing (with_states failing.shared failed_settled.0) (pending 1 [])

abbrev failed_added : System
failed_added = after failed_pending (add_one failed_pending.shared) (pending 0 [])

abbrev failed_done : System
failed_done = after failed_added (signal plan failed_added.shared) idle

abbrev failed_woken : System
failed_woken = record failed_done {
  shared = record failed_done.shared { queue = close failed_done.shared.queue };
  caller = joining;
}

abbrev failed_returned : System
failed_returned = record (after failed_woken failed_woken.shared exited) { caller = returned }

Reach-failing : Reach plan scope began failing
unfolding program
Reach-failing =
    later
      (later
        (later
          (later start
            (work [] [] {p = idle} {q = taken 1} refl (pop {id = codes "k"} {rest = []} refl)))
          (work [] [] {p = taken 1} {q = checked 1} refl (check refl)))
        (work [] [] {p = checked 1} {q = running 1} refl (begin refl)))
      (work [] [] {p = running 1} refl (finish seen (some (RunError.other (codes "no kernel")))))

Reach-returned : Reach plan scope began failed_returned
unfolding program
Reach-returned =
    later
      (later
        (later
          (later
            (later
              (later Reach-failing (
                work [] [] {p = recording 1 failed_result} refl
                  (record_final {states = failed_settled.0} {p = failed_settled.1} refl refl)))
              (work [] [] {p = pending 1 []} {q = pending 0 []} refl add))
            (work [] [] {p = pending 0 []} {q = idle} refl complete_probe))
          (wake refl refl))
        (work [] [] {p = idle} {q = exited} refl (leave refl refl)))
      (join refl (tt, tt))

run_reports_example :
    (get_elem? (output failed_returned.shared.states 0 plan.nodes) 0
      ≡ some (failed_returned.shared.states 0).result)
    × ((failed_returned.shared.states 0).finalized ≡ true)
    × ((failed_returned.shared.states 0).result.probe_id ≡ (node_at plan 0).id)
    × ((is_skipped (failed_returned.shared.states 0).result.status ≡ true)
        ↔ HasFailedDependency plan failed_returned.shared.states 0)
unfolding program
run_reports_example =
    run_reports plan plan-IsPlan 1 none scope 0 (omega arith) Reach-returned refl (omega arith)

published : (resolve registry).0.compiled ≡ some plan
unfolding program
published = refl

resolved_run_reports_example :
    (get_elem? (output failed_returned.shared.states 0 plan.nodes) 0
      ≡ some (failed_returned.shared.states 0).result)
    × ((failed_returned.shared.states 0).result.probe_id ≡ codes "s")
    × ((is_skipped (failed_returned.shared.states 0).result.status ≡ true)
        ↔ HasFailedDeclared registry failed_returned.shared.states (codes "s"))
unfolding program
resolved_run_reports_example =
    resolved_run_reports registry plan 1 none scope 0 (codes "s") registry-IsRegistry opened
      succeeds published (omega arith) Reach-returned refl refl

storage_skipped : is_skipped (failed_returned.shared.states 0).result.status ≡ true
unfolding program
storage_skipped = refl
