-- ===== src/Orchestrator/Workers.antt =====
-- Which workers of the pool can step (internal/probe/orchestrator.go).
use capagent.Model.Evidence.{zero_time}
use capagent.Base.{
  not, ℕ, zero, suc, ◌≤◌, ◌<◌, ◌≡◌, List, [], ◌∷◌, ◌++◌, Bool, true, false, arith, refl, Bool-cases,
  inl, inr, ap, none, ◌⊎◌, All, Option-cases,
}
use capagent.Model.Scope.{EvaluationScope}
use capagent.Model.States.{unobserved}
use capagent.Model.Observation.{Observation}
use capagent.Probe.Execution.{ExecutionPlan}
use capagent.Orchestrator.Counting.{total_one, total-le}
use capagent.Orchestrator.Scheduler.{States, Shared}
use capagent.Orchestrator.Machine.{
  Worker, idle, exited, asleep, taken, checked, running, recording, pending, Move, pop, sleep,
  awake, leave, drop, check, stop, begin, finish, recorded, record_final, add, enqueue, complete,
  HasExited,
}
use capagent.Orchestrator.Plan.{size, finals, final_at}
use capagent.Orchestrator.Invariant.{holds, debt, weigh}

-- A worker that can step.
abbrev pub CanMove : ExecutionPlan → EvaluationScope → Shared → Worker → Type 0
CanMove plan scope sc p = (sc' : Shared) × (q : Worker) × Move plan scope sc p sc' q

-- No step of a worker ends the context.
pub Move-context :
    {plan : ExecutionPlan} {scope : EvaluationScope} {sc sc' : Shared} {p q : Worker}
    → Move plan scope sc p sc' q
    → sc'.context ≡ sc.context
Move-context (pop e) = refl
Move-context (sleep e c) = refl
Move-context (awake h) = refl
Move-context (leave e c) = refl
Move-context (drop f) = refl
Move-context (check f) = refl
Move-context (stop e) = refl
Move-context (begin e) = refl
Move-context (finish obs err) = refl
Move-context (recorded f) = refl
Move-context (record_final f e) = refl
Move-context add = refl
Move-context enqueue = refl
Move-context complete = refl

-- A worker that is neither in `pop` nor returned.
abbrev pub is_busy : Worker → Bool
is_busy idle = false
is_busy exited = false
is_busy (asleep t) = false
is_busy _ = true

some_observation : EvaluationScope → Observation
some_observation scope = record {
  id = [];
  probe_id = [];
  timestamp = zero_time;
  summary = [];
  scope = scope;
  completeness = unobserved;
  facts = [];
}

-- A worker that has a probe, or something to add or to push, does not wait.
pub busy-CanMove :
    (plan : ExecutionPlan) (scope : EvaluationScope) (sc : Shared) (p : Worker)
    → is_busy p ≡ true
    → CanMove plan scope sc p
busy-CanMove plan scope sc idle b = cc
busy-CanMove plan scope sc exited b = cc
busy-CanMove plan scope sc (asleep t) b = cc
busy-CanMove plan scope sc (taken i) b = elim (Bool-cases (sc.states i).finalized) [
  | inl f ↦ (sc, idle, drop f)
  | inr f ↦ (sc, checked i, check f)
]
busy-CanMove plan scope sc (checked i) b = elim (Option-cases sc.context) [
  | inl e ↦ (sc, running i, begin e)
  | inr (c, e) ↦ (_, _, stop e)
]
busy-CanMove plan scope sc (running i) b = (_, _, finish (some_observation scope) none)
busy-CanMove plan scope sc (recording i r) b = elim (Bool-cases (sc.states i).finalized) [
  | inl f ↦ (sc, idle, recorded f)
  | inr f ↦ (_, _, record_final f refl)
]
busy-CanMove plan scope sc (pending (suc k) news) b = (_, _, add)
busy-CanMove plan scope sc (pending zero (i ∷ news)) b = (_, _, enqueue)
busy-CanMove plan scope sc (pending zero []) b = (_, _, complete)

abbrev pub has_left : Worker → Bool
has_left exited = true
has_left _ = false

pub All-left : (ps : List Worker) → All (λ p. not (has_left p) ≡ false) ps → All HasExited ps
All-left [] h = tt
All-left (exited ∷ ps) h = (tt, All-left ps h.1)
All-left (idle ∷ ps) h = cc h.0
All-left (asleep t ∷ ps) h = cc h.0
All-left (taken i ∷ ps) h = cc h.0
All-left (checked i ∷ ps) h = cc h.0
All-left (running i ∷ ps) h = cc h.0
All-left (recording i r ∷ ps) h = cc h.0
All-left (pending k news ∷ ps) h = cc h.0

pub List-cases : {A : Type 0} (xs : List A) → (xs ≡ []) ⊎ ((x : A) × (ys : List A) × (xs ≡ x ∷ ys))
List-cases [] = inl refl
List-cases (x ∷ xs) = inr (x, xs, refl)

-- A worker of a list that passes a test, with those on both sides.
pub find_worker :
    (test : Worker → Bool) (ps : List Worker)
    → ((left right : List Worker) × (p : Worker) × (ps ≡ left ++ (p ∷ right)) × (test p ≡ true))
      ⊎ All (λ p. test p ≡ false) ps
find_worker test [] = inr tt
find_worker test (p ∷ ps) = elim (Bool-cases (test p)) [
  | inl e ↦ inl ([], ps, p, refl, e)
  | inr e ↦ elim (find_worker test ps) [
    | inr h ↦ inr (e, h)
    | inl (left, right, q, split, t) ↦ inl (p ∷ left, right, q, ap (λ w. p ∷ w) split, t)
  ]
]

pub quiet-weigh :
    (w : Worker → ℕ) (ps : List Worker)
    → ((p : Worker) → is_busy p ≡ false → w p ≡ 0)
    → All (λ p. is_busy p ≡ false) ps
    → weigh w ps ≡ 0
unfolding weigh
quiet-weigh w [] z h = refl
quiet-weigh w (p ∷ ps) z h = omega (arith, z p h.0, quiet-weigh w ps z h.1)

pub quiet_holds : (z : ℕ) (p : Worker) → is_busy p ≡ false → holds z p ≡ 0
quiet_holds z idle b = refl
quiet_holds z exited b = refl
quiet_holds z (asleep t) b = refl
quiet_holds z (taken i) b = cc
quiet_holds z (checked i) b = cc
quiet_holds z (running i) b = cc
quiet_holds z (recording i r) b = cc
quiet_holds z (pending k news) b = cc

pub quiet_debt : (p : Worker) → is_busy p ≡ false → debt p ≡ 0
quiet_debt idle b = refl
quiet_debt exited b = refl
quiet_debt (asleep t) b = refl
quiet_debt (taken i) b = cc
quiet_debt (checked i) b = cc
quiet_debt (running i) b = cc
quiet_debt (recording i r) b = cc
quiet_debt (pending k news) b = cc

pub full-finals :
    (plan : ExecutionPlan) (s : States)
    → ((i : ℕ) → i < size plan → (s i).finalized ≡ true)
    → size plan ≤ finals plan s
full-finals plan s h = omega (
  arith,
  total_one (size plan),
  total-le (size plan) (λ i. 1) (final_at s) (λ i low. ground (arith, h i low)),
)
