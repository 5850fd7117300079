-- ===== src/Orchestrator/Start.antt =====
-- The invariant holds where Run starts its workers (internal/probe/orchestrator.go).
use capagent.Base.{
  ◌∙◌, ℕ, zero, suc, ◌+◌, ◌<◌, ◌≡◌, ◌==◌, ltb, Text, List, [], ◌∷◌, Bool, true, false, length,
  if◌then◌else◌, arith, map, refl, Option, All, get_elem?,
}
use capagent.Model.Scope.{EvaluationScope}
use capagent.Probe.Execution.{ExecutionNode, ExecutionPlan}
use capagent.Orchestrator.Counting.{count, total, hits}
use capagent.Orchestrator.Outcome.{ContextError}
use capagent.Orchestrator.Scheduler.{node_or, RunQueue}
use capagent.Orchestrator.Machine.{
  Worker, idle, System, Reach, start, later, initial, ready_ids, idle_workers, effective,
}
use capagent.Orchestrator.Plan.{IsPlan, FitsInt32, size, deps}
use capagent.Orchestrator.Sound.{IsSound, active}
use capagent.Orchestrator.Invariant.{holds, debt, queued, IsGood, IsWaiting, Inv, weigh}
use capagent.Orchestrator.Reached.{Step-Inv}

idle-weigh : (w : Worker → ℕ) (k : ℕ) → w idle ≡ 0 → weigh w (idle_workers k) ≡ 0
unfolding weigh idle_workers
idle-weigh w zero h = refl
idle-weigh w (suc k) h = omega (arith, idle-weigh w k h)

idle-IsGood : (plan : ExecutionPlan) (k : ℕ) → All (IsGood plan false) (idle_workers k)
unfolding idle_workers
idle-IsGood plan zero = tt
idle-IsGood plan (suc k) = (tt, idle-IsGood plan k)

idle-IsWaiting : (q : RunQueue) (k : ℕ) → All (IsWaiting q) (idle_workers k)
unfolding idle_workers
idle-IsWaiting q zero = tt
idle-IsWaiting q (suc k) = (tt, idle-IsWaiting q k)

zero_finals : (n : ℕ) → total n (λ i. 0) ≡ 0
unfolding total
zero_finals zero = refl
zero_finals (suc n) = omega (arith, zero_finals n)

no_hits : (xs : List ℕ) → hits (λ i. false) xs ≡ 0
unfolding hits
no_hits [] = refl
no_hits (x ∷ xs) = omega (arith, no_hits xs)

-- 1 for a node without dependencies.
abbrev due_at : List ExecutionNode → ℕ → ℕ
due_at nodes i =
    if ltb i (length nodes)
    then (if length (node_or (get_elem? nodes i)).dependencies == 0 then 1 else 0)
    else 0

due_at-cons :
    (node : ExecutionNode) (nodes : List ExecutionNode) (i : ℕ)
    → due_at (node ∷ nodes) (suc i) ≡ due_at nodes i
due_at-cons node nodes i = ground arith

count-ready :
    (indices : Text → ℕ) (z : ℕ) (b : Bool) (id : Text) (ids : List Text)
    → count z (map indices (if b then id ∷ ids else ids))
      ≡ (if b then (if indices id == z then 1 else 0) else 0) + count z (map indices ids)
unfolding count
count-ready indices z true id ids = refl
count-ready indices z false id ids = omega arith

-- The nodes from index `k` on that have no dependencies are queued once.
ready_ids-count :
    (indices : Text → ℕ) (k : ℕ) (nodes : List ExecutionNode) (z : ℕ)
    → ((i : ℕ) → i < length nodes → indices (node_or (get_elem? nodes i)).id ≡ k + i)
    → (z < k → count z (map indices (ready_ids nodes)) ≡ 0)
      × ((j : ℕ) → z ≡ k + j → count z (map indices (ready_ids nodes)) ≡ due_at nodes j)
unfolding ready_ids count
ready_ids-count indices k [] z named = (λ h. refl, λ j h. ground arith)
ready_ids-count indices k (node ∷ nodes) z named =
    let here : indices node.id ≡ k = named 0 (omega arith) ∙ omega arith in
    let step = count-ready indices z (length node.dependencies == 0) node.id (ready_ids nodes) in
    let (below, beyond) =
      ready_ids-count indices (k + 1) nodes z (λ i h. named (suc i) (omega arith) ∙ omega arith) in
    (
      λ h. rw step (ground (arith, below)),
      λ j.
          elim j
            as (λ w.
              z ≡ k + w
              → count z (map indices (ready_ids (node ∷ nodes))) ≡ due_at (node ∷ nodes) w) [
                | zero ↦ λ h. rw step (ground (arith, below))
                | suc i ↦
                    λ h. rw step (ground (arith, beyond i (omega arith), due_at-cons node nodes i))
              ],
    )

module _ (plan : ExecutionPlan) (ok : IsPlan plan) (concurrency : ℕ) (context : Option ContextError)
    (some_node : 0 < size plan) (few : FitsInt32 plan) where
  initial-tokens :
      (z : ℕ)
      → queued plan (ready_ids plan.nodes) z
          + weigh (holds z) (idle_workers (effective plan concurrency))
        ≡ active plan (initial plan concurrency context).shared.states z
  unfolding active initial
  initial-tokens z =
      let due =
        (ready_ids-count plan.indices 0 plan.nodes z (λ i h. ok.named i h ∙ omega arith)).1 z
          (omega arith) in
      ground (arith, idle-weigh (holds z) (effective plan concurrency) refl)

  initial-IsSound : IsSound plan (initial plan concurrency context).shared.states
  unfolding initial
  initial-IsSound = record {
    sums = λ i h. omega (arith, no_hits (deps plan i));
    spread = λ i d bad m. cc;
    blamed = λ i f k. cc;
    ran = λ i f k. cc;
    owned = λ i f. cc;
  }

  pub initial-Inv : Inv plan (initial plan concurrency context)
  unfolding initial weigh
  initial-Inv = record {
    few = few;
    sound = initial-IsSound;
    tokens = initial-tokens;
    counted =
        omega (arith, idle-weigh debt (effective plan concurrency) refl, zero_finals (size plan));
    done = ground arith;
    good = idle-IsGood plan (effective plan concurrency);
    waits = idle-IsWaiting _ (effective plan concurrency);
    shut = refl;
    woken = λ c. cc;
  }

  pub Reach-Inv :
      (scope : EvaluationScope) {y : System}
      → Reach plan scope (initial plan concurrency context) y
      → Inv plan y
  Reach-Inv scope start = initial-Inv
  Reach-Inv scope (later h st) = Step-Inv plan scope ok st (Reach-Inv scope h)
