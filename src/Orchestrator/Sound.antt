-- ===== src/Orchestrator/Sound.antt =====
-- What is true of the states of probes between the critical sections.
use capagent.Base.{
  ℕ, ◌+◌, ◌<◌, ◌≡◌, ◌==◌, ltb, Bool, true, false, length, if◌then◌else◌, arith, inl, inr,
  Bool-cases,
}
use capagent.Probe.Execution.{ExecutionPlan}
use capagent.Orchestrator.Counting.{count, hits, hits-add-count}
use capagent.Orchestrator.Outcome.{ProbeStatus, ProbeResult, skipped}
use capagent.Orchestrator.Scheduler.{States, node_at, Pending}
use capagent.Orchestrator.Plan.{IsPlan, size, deps, down, is_ok, IsBad, IsBlamed, finals}

abbrev pub is_skipped : ProbeStatus → Bool
is_skipped skipped = true
is_skipped _ = false

-- The number of dependencies left is that of those which have not succeeded. What follows a probe that
-- did not succeed is final; a probe is skipped only for such a dependency, and runs only with none left.
pub record IsSound (plan : ExecutionPlan) (s : States) : Type 0 where
  pub sums :
      (i : ℕ)
      → i < size plan
      → (s i).remaining_deps + hits (is_ok s) (deps plan i) ≡ length (deps plan i)
  pub spread : (i d : ℕ) → IsBad s d → 0 < count i (down plan d) → (s i).finalized ≡ true
  pub blamed :
      (i : ℕ) → (s i).finalized ≡ true → is_skipped (s i).result.status ≡ true → IsBlamed plan s i
  pub ran :
      (i : ℕ)
      → (s i).finalized ≡ true
      → is_skipped (s i).result.status ≡ false
      → (s i).remaining_deps ≡ 0
  pub owned : (i : ℕ) → (s i).finalized ≡ true → (s i).result.probe_id ≡ (node_at plan i).id

-- 1 where a probe waits for a worker or is with one.
unfoldable pub active : ExecutionPlan → States → ℕ → ℕ
active plan s z =
    if ltb z (size plan)
    then (if (s z).finalized then 0 else if (s z).remaining_deps == 0 then 1 else 0)
    else 0

-- The result of a probe that was run, or that the context stopped.
abbrev pub IsRun : ExecutionPlan → ℕ → ProbeResult → Type 0
IsRun plan i r = (r.probe_id ≡ (node_at plan i).id) × (is_skipped r.status ≡ false)

-- What recordFinal does for a probe in one critical section.
pub record Settled (plan : ExecutionPlan) (i : ℕ) (r : ProbeResult) (s s' : States) (p : Pending)
    : Type 0 where
  pub sound : IsSound plan s'
  pub here : ((s' i).finalized ≡ true) × ((s' i).result ≡ r)
  pub kept :
      (j : ℕ) → (s j).finalized ≡ true → ((s' j).finalized ≡ true) × ((s' j).result ≡ (s j).result)
  pub grown : finals plan s' ≡ finals plan s + 1 + p.additions
  pub handed :
      (z : ℕ) → count z p.runnable + active plan s z ≡ active plan s' z + (if i == z then 1 else 0)

-- A dependency that did not succeed keeps the count above 0.
pub blamed_waits :
    (plan : ExecutionPlan) (s : States) (i : ℕ)
    → (s i).remaining_deps + hits (is_ok s) (deps plan i) ≡ length (deps plan i)
    → IsBlamed plan s i
    → 0 < (s i).remaining_deps
blamed_waits plan s i sum (d, m, bad) =
    omega (arith, hits-add-count (is_ok s) d (deps plan i) (ground arith))

-- With no dependency left, all dependencies have succeeded.
pub all_ok :
    (plan : ExecutionPlan) (s : States) (i : ℕ)
    → (s i).remaining_deps + hits (is_ok s) (deps plan i) ≡ length (deps plan i)
    → (s i).remaining_deps ≡ 0
    → (d : ℕ) → 0 < count d (deps plan i)
    → is_ok s d ≡ true
all_ok plan s i sum zero_left d m = elim (Bool-cases (is_ok s d)) [
  | inl e ↦ e
  | inr e ↦ absurd (omega (arith, hits-add-count (is_ok s) d (deps plan i) e))
]

pub not_own_dep :
    (plan : ExecutionPlan) (ok : IsPlan plan) (i : ℕ) → i < size plan → count i (deps plan i) ≡ 0
not_own_dep plan ok i low = elim (Bool-cases (count i (deps plan i) == 0)) [
  | inl e ↦ ground arith
  | inr e ↦ absurd (omega (arith, ok.falls i i low (ground arith)))
]
