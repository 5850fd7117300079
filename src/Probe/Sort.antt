-- ===== src/Probe/Sort.antt =====
-- kahnTopoSort and regOrderHeap of internal/probe/registry.go.
use capagent.Graph.Kahn.{Counts, Links, Progress, update, rounds}
use capagent.Base.{Text, List, [], ◌∷◌, ◌++◌, ℕ, ◌+◌, ◌==◌, ltb, not, if◌then◌else◌, keep, length}

pub data RegistryError : Type 0 where
  nil_probe empty_id registry_resolved not_resolved : RegistryError
  duplicate_id self_dependency : Text → RegistryError
  unknown_dependency : Text → Text → RegistryError
  cycle_detected : ℕ → ℕ → RegistryError

-- `inDegree` and `dependents`.
pub record Tables : Type 0 where
  pub in_degree : Counts
  pub dependents : Links

unfoldable pub count_dependencies : Text → Tables → List Text → Tables
count_dependencies id t [] = t
count_dependencies id t (dep ∷ deps) =
    count_dependencies id
      (record {
        in_degree = update t.in_degree id (t.in_degree id + 1);
        dependents = update t.dependents dep (t.dependents dep ++ (id ∷ []));
      })
      deps

unfoldable pub count_all : Links → Tables → List Text → Tables
unfolding count_dependencies
count_all dependencies t [] = t
count_all dependencies t (id ∷ ids) =
    count_all dependencies (count_dependencies id t (dependencies id)) ids

-- The heap, as its entries by rising order. `heap.Pop` takes the least; orders are distinct.
unfoldable pub push : (Text → ℕ) → Text → List Text → List Text
push order x [] = x ∷ []
push order x (y ∷ ys) = if ltb (order x) (order y) then x ∷ y ∷ ys else y ∷ push order x ys

unfoldable pub push_all : (Text → ℕ) → List Text → List Text → List Text
unfolding push
push_all order queue [] = queue
push_all order queue (x ∷ xs) = push_all order (push order x queue) xs

pub data Planned : Type 0 where
  planned : List Text → Planned
  refused : RegistryError → Planned

abbrev pub nothing_counted : Tables
nothing_counted = record { in_degree = λ id. 0; dependents = λ id. [] }

-- The loop over the heap, which starts with the nodes without dependencies.
unfoldable pub run_heap : List Text → (Text → ℕ) → Tables → Progress
unfolding rounds push_all keep
run_heap ids reg_index t = rounds (push_all reg_index) t.dependents (length ids) (record {
  counts = t.in_degree;
  ready = push_all reg_index [] (keep (λ id. t.in_degree id == 0) ids);
  order = [];
})

unfoldable pub kahn_topo_sort : List Text → Links → (Text → ℕ) → Planned
unfolding run_heap count_all
kahn_topo_sort ids dependencies reg_index =
    let plan = (run_heap ids reg_index (count_all dependencies nothing_counted ids)).order in
    if not (length plan == length ids)
    then refused (cycle_detected (length plan) (length ids))
    else planned plan
