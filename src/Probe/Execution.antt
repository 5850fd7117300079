-- ===== src/Probe/Execution.antt =====
-- executionPlan and compilePlan of internal/probe/registry.go.
use capagent.Graph.Kahn.{Links, update}
use capagent.Base.{Text, List, [], ◌∷◌, ◌++◌, ℕ, zero, suc, ◌+◌, Option, none}

-- A `Probe`, by the two of its methods that the registry calls.
pub record Probe : Type 0 where
  pub id : Text
  pub dependencies : List Text

pub record ExecutionNode : Type 0 where
  pub id : Text
  pub probe : Option Probe
  pub dependencies : List ℕ
  pub downstream : List ℕ

pub record ExecutionPlan : Type 0 where
  pub nodes : List ExecutionNode
  pub indices : Text → ℕ

-- `nodes[i]` changed. The code panics out of range; the list is left alone.
unfoldable pub change_at :
    ℕ → (ExecutionNode → ExecutionNode) → List ExecutionNode → List ExecutionNode
change_at i f [] = []
change_at zero f (n ∷ ns) = f n ∷ ns
change_at (suc i) f (n ∷ ns) = n ∷ change_at i f ns

-- The loop over the dependencies of node `i`.
unfoldable pub link_dependencies :
    (Text → ℕ) → ℕ → List ExecutionNode → List Text → List ExecutionNode
unfolding change_at
link_dependencies indices i nodes [] = nodes
link_dependencies indices i nodes (dep ∷ deps) =
    let parent = indices dep in
    link_dependencies indices i
      (change_at parent (λ n. record n { downstream = n.downstream ++ (i ∷ []) })
        (change_at i (λ n. record n { dependencies = n.dependencies ++ (parent ∷ []) }) nodes))
      deps

-- The loop over the IDs, of which `i` are done.
unfoldable pub compile_nodes :
    (Text → Option Probe) → Links → (Text → ℕ) → ℕ → List Text → ExecutionPlan → ExecutionPlan
unfolding link_dependencies change_at
compile_nodes probes deps indices i [] plan = plan
compile_nodes probes deps indices i (id ∷ ids) plan =
    let named = change_at i (λ n. record n { id = id; probe = probes id }) plan.nodes in
    compile_nodes probes deps indices (i + 1) ids (record {
      nodes = link_dependencies indices i named (deps id);
      indices = update plan.indices id i;
    })

abbrev pub blank : ExecutionNode
blank = record { id = []; probe = none; dependencies = []; downstream = [] }

unfoldable pub blanks : List Text → List ExecutionNode
blanks [] = []
blanks (id ∷ ids) = blank ∷ blanks ids

unfoldable pub compile_plan : List Text → (Text → Option Probe) → Links → (Text → ℕ) → ExecutionPlan
unfolding compile_nodes blanks
compile_plan ids probes deps indices =
    compile_nodes probes deps indices 0 ids (record { nodes = blanks ids; indices = λ id. 0 })
