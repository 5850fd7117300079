-- ===== src/Orchestrator/Moves.antt =====
-- Every step of a worker keeps the sums of the invariant.
use capagent.Base.{
  ℕ, zero, ◌+◌, ◌≤◌, ◌<◌, ◌≡◌, ◌==◌, Text, List, [], ◌∷◌, ◌++◌, false, if◌then◌else◌, arith, refl,
  ap, subst, sym,
}
use capagent.Model.Scope.{EvaluationScope}
use capagent.Probe.Execution.{ExecutionPlan}
use capagent.Orchestrator.Counting.{count}
use capagent.Orchestrator.Outcome.{ProbeResult, run_result, cancelled_result}
use capagent.Orchestrator.Scheduler.{
  States, Shared, Pending, settle, node_at, push, broadcast, RunQueue,
}
use capagent.Orchestrator.Machine.{
  with_states, Worker, idle, exited, asleep, sleep, awake, taken, checked, running, recording,
  pending, Move, pop, leave, drop, check, stop, begin, finish, recorded, record_final, add, enqueue,
  complete,
}
use capagent.Orchestrator.Plan.{IsPlan, FitsInt32, size}
use capagent.Orchestrator.Sound.{IsSound, active, Settled}
use capagent.Orchestrator.Settling.{active_pos, settle-Settled, run_result-IsRun}
use capagent.Orchestrator.Invariant.{holds, debt, queued, IsGood, IsWaiting, Moved}

count_indices-snoc :
    (plan : ExecutionPlan) (z : ℕ) (items : List Text) (id : Text)
    → queued plan (items ++ (id ∷ [])) z
      ≡ queued plan items z + (if plan.indices id == z then 1 else 0)
unfolding count
count_indices-snoc plan z [] id = omega arith
count_indices-snoc plan z (x ∷ xs) id = omega (arith, count_indices-snoc plan z xs id)

-- What a worker's step may rely on.
pub record Ready (plan : ExecutionPlan) (sc : Shared) (p : Worker) : Type 0 where
  pub few : FitsInt32 plan
  pub sound : IsSound plan sc.states
  pub held : (z : ℕ) → holds z p ≤ active plan sc.states z
  pub owed : sc.finalized + debt p ≤ size plan
  pub done : sc.all_done ≡ (sc.finalized == size plan)
  pub good : IsGood plan sc.queue.closed p
  pub room : 0 < debt p → sc.queue.closed ≡ false

still-Moved :
    (plan : ExecutionPlan) (sc : Shared) (p q : Worker)
    → Ready plan sc p
    → ((z : ℕ) → holds z q ≡ holds z p)
    → debt q ≡ debt p
    → IsGood plan sc.queue.closed q
    → IsWaiting sc.queue q
    → Moved plan sc p sc q
still-Moved plan sc p q v h d g w = record {
  sound = v.sound;
  tokens = λ z. omega (arith, h z);
  counted = omega arith;
  done = v.done;
  good = g;
  waits = w;
  still = λ t c. c;
  shut = refl;
  woken = λ w. w;
}

-- A probe that a worker has is due, and not final.
pub taken_due :
    (plan : ExecutionPlan) (sc : Shared) (p : Worker) (i : ℕ)
    → Ready plan sc p
    → holds i p ≡ 1
    → (i < size plan) × ((sc.states i).finalized ≡ false) × ((sc.states i).remaining_deps ≡ 0)
taken_due plan sc p i v h = active_pos plan sc.states i (omega (arith, v.held i))

own : (i : ℕ) → ◌≡◌ {A = ℕ} (if i == i then 1 else 0) 1
own i = ground arith

record-Moved :
    (plan : ExecutionPlan) (ok : IsPlan plan) (sc : Shared) (i : ℕ) (r : ProbeResult)
    (states : States) (p : Pending)
    → Ready plan sc (recording i r)
    → settle plan i r sc.states ≡ (states, p)
    → Moved plan sc (recording i r) (with_states sc states) (pending p.additions p.runnable)
record-Moved plan ok sc i r states p v e =
    let (low, unset, due) = taken_due plan sc (recording i r) i v (own i) in
    let t : Settled plan i r sc.states states p =
      subst (λ (w : States × Pending). Settled plan i r sc.states w.0 w.1) e
        (settle-Settled plan ok v.few sc.states v.sound i low unset due r v.good) in
    record {
      sound = t.sound;
      tokens = λ z. omega (arith, t.handed z);
      counted = omega (arith, t.grown);
      done = v.done;
      good = tt;
      waits = tt;
      still = λ t c. c;
      shut = refl;
      woken = λ w. w;
    }

push_open_queue :
    (id : Text) (q : RunQueue)
    → q.closed ≡ false
    → push id q ≡ broadcast (record q { items = q.items ++ (id ∷ []) })
push_open_queue id q h = ground arith

enqueue-Moved :
    (plan : ExecutionPlan) (ok : IsPlan plan) (sc : Shared) (i : ℕ) (news : List ℕ)
    → Ready plan sc (pending zero (i ∷ news))
    → Moved plan sc
        (pending zero (i ∷ news))
        (record sc { queue = push (node_at plan i).id sc.queue })
        (pending zero news)
unfolding count
enqueue-Moved plan ok sc i news v =
    let open_queue = v.room (omega arith) in
    let low = (active_pos plan sc.states i (omega (arith, v.held i, own i))).0 in
    let id = (node_at plan i).id in
    let name = ok.named i low in
    subst
      (λ w. Moved plan sc (pending zero (i ∷ news)) (record sc { queue = w }) (pending zero news))
      (sym (push_open_queue id sc.queue open_queue))
      (record {
        sound = v.sound;
        tokens = λ z. omega (
          arith,
          count_indices-snoc plan z sc.queue.items id,
          ap {B = ℕ} (λ w. if w == z then 1 else 0) name,
        );
        counted = omega arith;
        done = v.done;
        good = tt;
        waits = tt;
        still = λ t c. (omega (arith, c.0), λ same. absurd (omega (arith, c.0, same)));
        shut = refl;
        woken = λ w. w;
      })

pub Move-Moved :
    (plan : ExecutionPlan) (scope : EvaluationScope) (ok : IsPlan plan) {sc sc' : Shared}
    {p q : Worker}
    → Move plan scope sc p sc' q
    → Ready plan sc p
    → Moved plan sc p sc' q
unfolding count
Move-Moved plan scope ok {sc} (pop {id} {rest} e) v = record {
  sound = v.sound;
  tokens = λ z. rw e (omega arith);
  counted = omega arith;
  done = v.done;
  good = tt;
  waits = tt;
  still = λ t c. (c.0, λ same. let empty = (c.1 same).0 in absurd cc);
  shut = refl;
  woken = λ w. w;
}
Move-Moved plan scope ok {sc} (sleep e c) v =
    still-Moved plan sc idle (asleep sc.queue.cond) v (λ z. refl) refl tt
      (omega arith, λ same. (e, c))
Move-Moved plan scope ok {sc} (awake {t} h) v =
    still-Moved plan sc (asleep t) idle v (λ z. refl) refl tt tt
Move-Moved plan scope ok {sc} (leave e c) v =
    still-Moved plan sc idle exited v (λ z. refl) refl c tt
Move-Moved plan scope ok {sc} (drop {i} f) v =
    let unset = (taken_due plan sc (taken i) i v (own i)).1 in absurd (ground arith)
Move-Moved plan scope ok {sc} (check {i} f) v =
    still-Moved plan sc (taken i) (checked i) v (λ z. refl) refl tt tt
Move-Moved plan scope ok {sc} (stop {i} {c} e) v =
    still-Moved plan sc (checked i) (recording i (cancelled_result (node_at plan i).id c)) v
      (λ z. refl) refl (refl, refl) tt
Move-Moved plan scope ok {sc} (begin {i} e) v =
    still-Moved plan sc (checked i) (running i) v (λ z. refl) refl tt tt
Move-Moved plan scope ok {sc} (finish {i} obs err) v =
    still-Moved plan sc (running i)
      (recording i (run_result (node_at plan i).id scope sc.context obs err)) v (λ z. refl) refl
      (run_result-IsRun plan i scope sc.context obs err) tt
Move-Moved plan scope ok {sc} (recorded {i} {r} f) v =
    let unset = (taken_due plan sc (recording i r) i v (own i)).1 in absurd (ground arith)
Move-Moved plan scope ok {sc} (record_final {i} {r} {states} {p} f e) v =
    record-Moved plan ok sc i r states p v e
Move-Moved plan scope ok {sc} (add {k} {news}) v = record {
  sound = v.sound;
  tokens = λ z. refl;
  counted = omega (arith, v.owed, v.few);
  done = ground (arith, v.owed, v.done, v.few);
  good = tt;
  waits = tt;
  still = λ t c. c;
  shut = refl;
  woken = λ w. w;
}
Move-Moved plan scope ok {sc} (enqueue {i} {news}) v = enqueue-Moved plan ok sc i news v
Move-Moved plan scope ok {sc} complete v = record {
  sound = v.sound;
  tokens = λ z. omega arith;
  counted = omega (arith, v.owed, v.few);
  done = ground (arith, v.owed, v.done, v.few);
  good = tt;
  waits = tt;
  still = λ t c. c;
  shut = refl;
  woken = λ w. ground arith;
}
