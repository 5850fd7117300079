-- ===== src/Orchestrator/Progress.antt =====
-- Run does not deadlock (internal/probe/orchestrator.go).
use capagent.Orchestrator.Workers.{
  quiet_holds, quiet_debt, busy-CanMove, All-left, find_worker, is_busy, CanMove, quiet-weigh,
  List-cases, full-finals, has_left, Move-context,
}
use capagent.Orchestrator.Settling.{finals-le}
use capagent.Base.{
  not, ltb, ◌∙◌, ℕ, zero, suc, ◌<◌, ◌≡◌, Text, List, [], ◌∷◌, ◌++◌, Bool, true, false, length,
  arith, refl, Bool-cases, inl, inr, ap, subst, Option, All, length-append,
}
use capagent.Model.Scope.{EvaluationScope}
use capagent.Probe.Execution.{ExecutionPlan}
use capagent.Orchestrator.Counting.{count, hits_short}
use capagent.Orchestrator.Outcome.{ContextError}
use capagent.Orchestrator.Machine.{
  Worker, idle, exited, asleep, taken, checked, running, recording, pending, pop, leave, awake,
  Caller, waiting, joining, returned, System, Step, work, cancel, wake, join, Reach, start, later,
  initial, idle_workers, effective,
}
use capagent.Orchestrator.Plan.{IsPlan, FitsInt32, size, deps, is_ok}
use capagent.Orchestrator.Sound.{active}
use capagent.Orchestrator.Invariant.{holds, debt, queued, IsGood, IsWaiting, Inv, has_woken}
use capagent.Orchestrator.Safety.{all_final}
use capagent.Orchestrator.Start.{Reach-Inv}
use capagent.Orchestrator.Reached.{All-right}

-- A step of a worker or of the caller: the context does not change.
abbrev pub Advances : ExecutionPlan → EvaluationScope → System → Type 0
Advances plan scope y = (z : System) × Step plan scope y z × (z.shared.context ≡ y.shared.context)

module _ (plan : ExecutionPlan) (ok : IsPlan plan) (y : System) (v : Inv plan y)
    (none_active : (z : ℕ) → active plan y.shared.states z ≡ 0) where
  -- With no probe due, all are final: one with the least rank would be due.
  settled_below : (k i : ℕ) → ok.rank i < k → i < size plan → (y.shared.states i).finalized ≡ true
  unfolding active
  settled_below zero i h low = absurd (omega arith)
  settled_below (suc k) i h low = elim (Bool-cases (y.shared.states i).finalized) [
    | inl f ↦ f
    | inr f ↦
        let s = y.shared.states in
        let waits : 0 < (s i).remaining_deps = ground (arith, none_active i) in
        let (d, m, off) = hits_short (is_ok s) (deps plan i) (omega (arith, v.sound.sums i low)) in
        let below = ok.deps_range i d low m in
        let final = settled_below k d (omega (arith, ok.falls i d low m)) below in
        v.sound.spread i d (final, ground arith) (omega (arith, ok.linked i d low))
  ]

  all_settled : (i : ℕ) → i < size plan → (y.shared.states i).finalized ≡ true
  all_settled i low = settled_below (suc (ok.rank i)) i (omega arith) low

module _ (plan : ExecutionPlan) (scope : EvaluationScope) (ok : IsPlan plan) (y : System)
    (v : Inv plan y) where
  -- Nothing that the workers or the queue hold is left.
  abbrev IsQuiet : Type 0
  IsQuiet = All (λ p. is_busy p ≡ false) y.workers

  quiet_tokens :
      IsQuiet → (z : ℕ) → active plan y.shared.states z ≡ queued plan y.shared.queue.items z
  quiet_tokens h z = omega (arith, v.tokens z, quiet-weigh (holds z) y.workers (quiet_holds z) h)

  -- If no worker has anything and the queue is empty, all is done.
  quiet_done : IsQuiet → y.shared.queue.items ≡ [] → y.shared.all_done ≡ true
  unfolding count
  quiet_done h e =
      let none_active : (z : ℕ) → active plan y.shared.states z ≡ 0 =
        λ z. quiet_tokens h z ∙ rw e in
      let full = full-finals plan y.shared.states (all_settled plan ok y v none_active) in
      ground (
        arith,
        v.counted,
        v.done,
        finals-le plan y.shared.states,
        quiet-weigh debt y.workers quiet_debt h,
      )

  items_empty : (items : List Text) → ((z : ℕ) → queued plan items z ≡ 0) → items ≡ []
  unfolding count
  items_empty [] h = refl
  items_empty (id ∷ rest) h = absurd (ground (arith, h (plan.indices id)))

  -- When all is done, the queue is empty.
  done_empty : y.shared.all_done ≡ true → y.shared.queue.items ≡ []
  unfolding active
  done_empty d =
      items_empty y.shared.queue.items (λ z. ground (arith, v.tokens z, all_final plan y v d z))

  step_of :
      (left right : List Worker) (p : Worker)
      → y.workers ≡ left ++ (p ∷ right)
      → CanMove plan scope y.shared p
      → Advances plan scope y
  step_of left right p e (sc, q, mv) = (_, work left right e mv, Move-context mv)

  -- A worker that waits is called if the queue has an item or is closed.
  called_step :
      (left right : List Worker) (t : ℕ)
      → y.workers ≡ left ++ (asleep t ∷ right)
      → ((y.shared.queue.items ≡ []) × (y.shared.queue.closed ≡ false) → ⊥)
      → Advances plan scope y
  called_step left right t e busy_queue =
      let waits =
        (All-right (IsWaiting y.shared.queue) left (asleep t ∷ right)
          (subst (All (IsWaiting y.shared.queue)) e v.waits)).0 in
      elim (Bool-cases (ltb t y.shared.queue.cond)) [
        | inl b ↦ step_of left right (asleep t) e (_, _, awake (ground arith))
        | inr b ↦ absurd (busy_queue (waits.1 (ground (arith, waits.0))))
      ]

  -- A worker that is idle takes what is in the queue.
  idle_step :
      (p : Worker) (rest : List Worker)
      → y.workers ≡ p ∷ rest
      → is_busy p ≡ false
      → y.shared.queue.closed ≡ false
      → (id : Text) (ids : List Text) → y.shared.queue.items ≡ id ∷ ids
      → Advances plan scope y
  idle_step idle rest e b c id ids q = step_of [] rest idle e (_, _, pop q)
  idle_step (asleep t) rest e b c id ids q =
      called_step [] rest t e (λ h. let empty = h.0 in absurd cc)
  idle_step exited rest e b c id ids q =
      let closed = (subst (All (IsGood plan y.shared.queue.closed)) e v.good).0 in absurd cc
  idle_step (taken i) rest e b c id ids q = cc
  idle_step (checked i) rest e b c id ids q = cc
  idle_step (running i) rest e b c id ids q = cc
  idle_step (recording i r) rest e b c id ids q = cc
  idle_step (pending k news) rest e b c id ids q = cc

  waiting_step :
      y.caller ≡ waiting
      → (p : Worker) (rest : List Worker) → y.workers ≡ p ∷ rest
      → Advances plan scope y
  waiting_step e p rest w = elim (Bool-cases y.shared.all_done) [
    | inl d ↦ (_, wake e d, refl)
    | inr d ↦ elim (find_worker is_busy y.workers) [
      | inl (left, right, q, split, b) ↦
          step_of left right q split (busy-CanMove plan scope y.shared q b)
      | inr quiet ↦ elim (List-cases y.shared.queue.items) [
        | inl empty ↦ let done = quiet_done quiet empty in absurd (ground arith)
        | inr (id, ids, q) ↦
            idle_step p rest w ((subst (All (λ p. is_busy p ≡ false)) w quiet).0)
              (v.shut ∙ ap has_woken e) id ids q
      ]
    ]
  ]

  leave_step :
      (left right : List Worker) (p : Worker)
      → y.workers ≡ left ++ (p ∷ right)
      → y.shared.queue.items ≡ []
      → y.shared.queue.closed ≡ true
      → has_left p ≡ false
      → Advances plan scope y
  leave_step left right idle e q c l = step_of left right idle e (_, _, leave q c)
  leave_step left right (asleep t) e q c l =
      called_step left right t e (λ h. let unshut = h.1 in absurd cc)
  leave_step left right exited e q c l = cc
  leave_step left right (taken i) e q c l =
      step_of left right (taken i) e (busy-CanMove plan scope y.shared (taken i) refl)
  leave_step left right (checked i) e q c l =
      step_of left right (checked i) e (busy-CanMove plan scope y.shared (checked i) refl)
  leave_step left right (running i) e q c l =
      step_of left right (running i) e (busy-CanMove plan scope y.shared (running i) refl)
  leave_step left right (recording i r) e q c l =
      step_of left right (recording i r) e (busy-CanMove plan scope y.shared (recording i r) refl)
  leave_step left right (pending k news) e q c l =
      step_of left right (pending k news) e (busy-CanMove plan scope y.shared (pending k news) refl)

  joining_step : y.caller ≡ joining → Advances plan scope y
  joining_step e =
      let closed = v.shut ∙ ap has_woken e in
      elim (find_worker (λ p. not (has_left p)) y.workers) [
        | inl (left, right, q, split, b) ↦
            leave_step left right q split (done_empty (v.woken (ap has_woken e))) closed
              (ground arith)
        | inr h ↦ (_, join e (All-left y.workers h), refl)
      ]

abbrev pub is_returned : Caller → Bool
is_returned returned = true
is_returned _ = false

caller_step :
    (plan : ExecutionPlan) (scope : EvaluationScope) (ok : IsPlan plan) (y : System)
    (v : Inv plan y) (p : Worker) (rest : List Worker) (c : Caller)
    → y.workers ≡ p ∷ rest
    → y.caller ≡ c
    → is_returned c ≡ false
    → Advances plan scope y
caller_step plan scope ok y v p rest waiting w e r = waiting_step plan scope ok y v e p rest w
caller_step plan scope ok y v p rest joining w e r = joining_step plan scope ok y v e
caller_step plan scope ok y v p rest returned w e r = cc

-- Steps keep the number of workers.
Step-length :
    {plan : ExecutionPlan} {scope : EvaluationScope} {y z : System}
    → Step plan scope y z
    → length z.workers ≡ length y.workers
Step-length {y = y} (work left right {p} {q} e mv) = omega (
  arith,
  ap (length {A = Worker}) e,
  length-append left (p ∷ right),
  length-append left (q ∷ right),
)
Step-length (cancel c e) = refl
Step-length (wake e d) = refl
Step-length (join e h) = refl

Reach-length :
    {plan : ExecutionPlan} {scope : EvaluationScope} {y z : System}
    → Reach plan scope y z
    → length z.workers ≡ length y.workers
Reach-length start = refl
Reach-length (later h st) = Step-length st ∙ Reach-length h

length-idle_workers : (k : ℕ) → length (idle_workers k) ≡ k
unfolding idle_workers
length-idle_workers zero = refl
length-idle_workers (suc k) = omega (arith, length-idle_workers k)

-- Run never deadlocks: until it has returned, in every state that it comes to, a worker or the caller can
-- step, also when all workers wait on the condition variable of the queue or have returned; the end of
-- the context does not count as a step. The plan is well-formed and has a node, and fewer than 2^31,
-- the concurrency limit is 1 at least, and the Run of a probe returns.
pub run_proceeds :
    (plan : ExecutionPlan) (ok : IsPlan plan) (concurrency : ℕ) (context : Option ContextError)
    (scope : EvaluationScope) {y : System}
    → 0 < size plan
    → FitsInt32 plan
    → 0 < concurrency
    → Reach plan scope (initial plan concurrency context) y
    → is_returned y.caller ≡ false
    → Advances plan scope y
unfolding initial
run_proceeds plan ok concurrency context scope {y} some_node few some_worker reach open_caller =
    let v = Reach-Inv plan ok concurrency context some_node few scope reach in
    let many = Reach-length reach in
    elim (List-cases y.workers) [
      | inl none_left ↦ absurd (
          ground (
            arith,
            ap (length {A = Worker}) none_left,
            length-idle_workers (effective plan concurrency),
          ))
      | inr (p, rest, w) ↦ caller_step plan scope ok y v p rest y.caller w refl open_caller
    ]
