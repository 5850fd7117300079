-- ===== src/Orchestrator/Plan.antt =====
-- What the orchestrator relies on in a compiled plan, and what it says of the states of probes.
use capagent.Base.{ℕ, ◌<◌, ◌≡◌, List, Bool, true, false, ◌&&◌, length, if◌then◌else◌}
use capagent.Probe.Execution.{ExecutionPlan}
use capagent.Orchestrator.Counting.{count, total}
use capagent.Orchestrator.Scheduler.{States, node_at, is_success}

abbrev pub size : ExecutionPlan → ℕ
size plan = length plan.nodes

-- The nodes can be counted in an int32.
abbrev pub FitsInt32 : ExecutionPlan → Type 0
FitsInt32 plan = size plan < 2147483648

abbrev pub deps : ExecutionPlan → ℕ → List ℕ
deps plan i = (node_at plan i).dependencies

abbrev pub down : ExecutionPlan → ℕ → List ℕ
down plan i = (node_at plan i).downstream

-- The IDs lead back to their nodes, the two adjacencies agree and stay in range, and a rank falls from
-- each node to its dependencies.
pub record IsPlan (plan : ExecutionPlan) : Type 0 where
  pub named : (i : ℕ) → i < size plan → plan.indices (node_at plan i).id ≡ i
  pub linked : (i d : ℕ) → i < size plan → count i (down plan d) ≡ count d (deps plan i)
  pub down_range : (i d : ℕ) → 0 < count i (down plan d) → i < size plan
  pub deps_range : (i d : ℕ) → i < size plan → 0 < count d (deps plan i) → d < size plan
  pub rank : ℕ → ℕ
  pub falls : (i d : ℕ) → i < size plan → 0 < count d (deps plan i) → rank d < rank i

-- A probe has succeeded.
abbrev pub is_ok : States → ℕ → Bool
is_ok states i = (states i).finalized && is_success (states i).result.status

-- A probe has ended otherwise.
abbrev pub IsBad : States → ℕ → Type 0
IsBad states d = ((states d).finalized ≡ true) × (is_success (states d).result.status ≡ false)

-- A dependency has ended, and not with success.
abbrev pub IsBlamed : ExecutionPlan → States → ℕ → Type 0
IsBlamed plan states i = (d : ℕ) × (0 < count d (deps plan i)) × IsBad states d

abbrev pub final_at : States → ℕ → ℕ
final_at states i = if (states i).finalized then 1 else 0

-- The number of probes that are final.
abbrev pub finals : ExecutionPlan → States → ℕ
finals plan states = total (size plan) (final_at states)
