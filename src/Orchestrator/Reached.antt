-- ===== src/Orchestrator/Reached.antt =====
-- The invariant holds of every state that Run comes to (internal/probe/orchestrator.go).
use capagent.Base.{
  ◌∙◌, ℕ, ◌+◌, ◌≤◌, ◌≡◌, List, [], ◌∷◌, ◌++◌, Bool, true, arith, refl, Bool-cases, inl, inr, ap,
  subst, sym, All, All-append,
}
use capagent.Model.Scope.{EvaluationScope}
use capagent.Probe.Execution.{ExecutionPlan}
use capagent.Orchestrator.Scheduler.{Shared, RunQueue, close}
use capagent.Orchestrator.Machine.{
  Worker, idle, exited, asleep, taken, checked, running, recording, pending, Move, System, Step,
  work, cancel, wake, join,
}
use capagent.Orchestrator.Plan.{IsPlan, size}
use capagent.Orchestrator.Sound.{active}
use capagent.Orchestrator.Invariant.{
  holds, debt, queued, IsGood, IsCalled, IsWaiting, Moved, Inv, weigh, weigh-append, has_woken,
}
use capagent.Orchestrator.Moves.{Move-Moved, Ready}
use capagent.Orchestrator.Settling.{finals-le}

pub weigh-at :
    (w : Worker → ℕ) (workers left right : List Worker) (p : Worker)
    → workers ≡ left ++ (p ∷ right)
    → weigh w workers ≡ weigh w left + w p + weigh w right
unfolding weigh
weigh-at w workers left right p e = ap (weigh w) e ∙ omega (arith, weigh-append w left (p ∷ right))

module _ {κ} {A : Type 0} (P : A → Type κ) where
  All-left : (xs ys : List A) → All P (xs ++ ys) → All P xs
  All-left [] ys h = tt
  All-left (x ∷ xs) ys h = (h.0, All-left xs ys h.1)

  pub All-right : (xs ys : List A) → All P (xs ++ ys) → All P ys
  All-right [] ys h = h
  All-right (x ∷ xs) ys h = All-right xs ys h.1

-- A worker's step may rely on the invariant.
pub Inv-Ready :
    (plan : ExecutionPlan) (y : System) (left right : List Worker) (p : Worker)
    → Inv plan y
    → y.workers ≡ left ++ (p ∷ right)
    → Ready plan y.shared p
Inv-Ready plan y left right p v e =
    let owed : y.shared.finalized + debt p ≤ size plan =
      omega (
        arith,
        v.counted,
        weigh-at debt y.workers left right p e,
        finals-le plan y.shared.states,
      ) in
    record {
      few = v.few;
      sound = v.sound;
      held = λ z. omega (arith, v.tokens z, weigh-at (holds z) y.workers left right p e);
      owed = owed;
      done = v.done;
      good =
          (All-right (IsGood plan y.shared.queue.closed) left (p ∷ right)
            (subst (All (IsGood plan y.shared.queue.closed)) e v.good)).0;
      room = λ h. elim (Bool-cases (has_woken y.caller)) [
        | inr c ↦ v.shut ∙ c
        | inl c ↦ let d = v.woken c in absurd (ground (arith, v.done))
      ];
    }

-- What is true of a wait goes on to be so, for each worker.
IsWaiting-still :
    (q q' : RunQueue)
    → ((t : ℕ) → IsCalled q t → IsCalled q' t)
    → (ps : List Worker) → All (IsWaiting q) ps
    → All (IsWaiting q') ps
IsWaiting-still q q' still [] h = tt
IsWaiting-still q q' still (asleep t ∷ ps) h = (still t h.0, IsWaiting-still q q' still ps h.1)
IsWaiting-still q q' still (exited ∷ ps) h = (tt, IsWaiting-still q q' still ps h.1)
IsWaiting-still q q' still (idle ∷ ps) h = (tt, IsWaiting-still q q' still ps h.1)
IsWaiting-still q q' still (taken i ∷ ps) h = (tt, IsWaiting-still q q' still ps h.1)
IsWaiting-still q q' still (checked i ∷ ps) h = (tt, IsWaiting-still q q' still ps h.1)
IsWaiting-still q q' still (running i ∷ ps) h = (tt, IsWaiting-still q q' still ps h.1)
IsWaiting-still q q' still (recording i r ∷ ps) h = (tt, IsWaiting-still q q' still ps h.1)
IsWaiting-still q q' still (pending k news ∷ ps) h = (tt, IsWaiting-still q q' still ps h.1)

close_again : (q : RunQueue) → q.closed ≡ true → close q ≡ q
close_again q b = ground arith

close-items : (q : RunQueue) → (close q).items ≡ q.items
close-items q = ground arith

-- Closing the queue wakes each wait that there is.
close-IsCalled : (q : RunQueue) (t : ℕ) → IsCalled q t → IsCalled (close q) t
close-IsCalled q t c = elim (Bool-cases q.closed) [
  | inl b ↦ subst (λ w. IsCalled w t) (sym (close_again q b)) c
  | inr b ↦ rw b (omega (arith, c.0), λ same. absurd (omega (arith, c.0, same)))
]

close-closed : (q : RunQueue) → (close q).closed ≡ true
close-closed q = ground arith

work_waits :
    {plan : ExecutionPlan} (y : System) (left right : List Worker) {p q : Worker} {sc : Shared}
    → Moved plan y.shared p sc q
    → All (IsWaiting y.shared.queue) y.workers
    → y.workers ≡ left ++ (p ∷ right)
    → All (IsWaiting sc.queue) (left ++ (q ∷ right))
work_waits y left right {p} {q} {sc} m waits e =
    let others = subst (All (IsWaiting y.shared.queue)) e waits in
    let still = IsWaiting-still y.shared.queue sc.queue m.still in
    All-append (IsWaiting sc.queue) left (q ∷ right)
      (still left (All-left (IsWaiting y.shared.queue) left (p ∷ right) others))
      (m.waits, still right ((All-right (IsWaiting y.shared.queue) left (p ∷ right) others).1))

work-Inv :
    (plan : ExecutionPlan) (scope : EvaluationScope) (ok : IsPlan plan) (y : System)
    (left right : List Worker) {p q : Worker} {sc : Shared}
    → Inv plan y
    → y.workers ≡ left ++ (p ∷ right)
    → Move plan scope y.shared p sc q
    → Inv plan (record y { shared = sc; workers = left ++ (q ∷ right) })
unfolding weigh
work-Inv plan scope ok y left right {p} {q} {sc} v e mv =
    let m = Move-Moved plan scope ok mv (Inv-Ready plan y left right p v e) in
    let others = subst (All (IsGood plan y.shared.queue.closed)) e v.good in
    record {
      few = v.few;
      sound = m.sound;
      tokens = λ z. omega (
        arith,
        m.tokens z,
        v.tokens z,
        weigh-at (holds z) y.workers left right p e,
        weigh-append (holds z) left (q ∷ right),
      );
      counted = omega (
        arith,
        m.counted,
        v.counted,
        weigh-at debt y.workers left right p e,
        weigh-append debt left (q ∷ right),
      );
      done = m.done;
      good =
          All-append (IsGood plan sc.queue.closed) left (q ∷ right)
            (subst (λ c. All (IsGood plan c) left) (sym m.shut)
              (All-left (IsGood plan y.shared.queue.closed) left (p ∷ right) others))
            (
              m.good,
              subst (λ c. All (IsGood plan c) right) (sym m.shut)
                  ((All-right (IsGood plan y.shared.queue.closed) left (p ∷ right) others).1),
            );
      waits = work_waits y left right m v.waits e;
      shut = m.shut ∙ v.shut;
      woken = λ c. m.woken (v.woken c);
    }

-- A worker that is good stays so when the queue is closed.
IsGood-closed :
    (plan : ExecutionPlan) (c : Bool) (ps : List Worker)
    → All (IsGood plan c) ps
    → All (IsGood plan true) ps
IsGood-closed plan c [] h = tt
IsGood-closed plan c (exited ∷ ps) h = (refl, IsGood-closed plan c ps h.1)
IsGood-closed plan c (idle ∷ ps) h = (tt, IsGood-closed plan c ps h.1)
IsGood-closed plan c (asleep t ∷ ps) h = (tt, IsGood-closed plan c ps h.1)
IsGood-closed plan c (taken i ∷ ps) h = (tt, IsGood-closed plan c ps h.1)
IsGood-closed plan c (checked i ∷ ps) h = (tt, IsGood-closed plan c ps h.1)
IsGood-closed plan c (running i ∷ ps) h = (tt, IsGood-closed plan c ps h.1)
IsGood-closed plan c (recording i r ∷ ps) h = (h.0, IsGood-closed plan c ps h.1)
IsGood-closed plan c (pending k news ∷ ps) h = (tt, IsGood-closed plan c ps h.1)

pub Step-Inv :
    (plan : ExecutionPlan) (scope : EvaluationScope) (ok : IsPlan plan) {y z : System}
    → Step plan scope y z
    → Inv plan y
    → Inv plan z
Step-Inv plan scope ok {y} (work left right e mv) v = work-Inv plan scope ok y left right v e mv
Step-Inv plan scope ok {y} (cancel c e) v = record {
  few = v.few;
  sound = v.sound;
  tokens = v.tokens;
  counted = v.counted;
  done = v.done;
  good = v.good;
  waits = v.waits;
  shut = v.shut;
  woken = v.woken;
}
Step-Inv plan scope ok {y} (wake e d) v = record {
  few = v.few;
  sound = v.sound;
  tokens = λ z.
      subst
        (λ items. queued plan items z + weigh (holds z) y.workers ≡ active plan y.shared.states z)
        (sym (close-items y.shared.queue)) (v.tokens z);
  counted = v.counted;
  done = v.done;
  good =
      subst (λ c. All (IsGood plan c) y.workers) (sym (close-closed y.shared.queue))
        (IsGood-closed plan y.shared.queue.closed y.workers v.good);
  waits =
      IsWaiting-still y.shared.queue (close y.shared.queue) (close-IsCalled y.shared.queue)
        y.workers v.waits;
  shut = close-closed y.shared.queue;
  woken = λ c. d;
}
Step-Inv plan scope ok {y} (join e h) v = record {
  few = v.few;
  sound = v.sound;
  tokens = v.tokens;
  counted = v.counted;
  done = v.done;
  good = v.good;
  waits = v.waits;
  shut = v.shut ∙ ap has_woken e;
  woken = λ c. v.woken (ap has_woken e);
}
