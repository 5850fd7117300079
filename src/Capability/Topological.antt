-- ===== src/Capability/Topological.antt =====
-- topological of internal/capability/graph.go.
use capagent.Graph.Sorting.{sort_texts}
use capagent.Base.{
  ◌==◌, length, ◌||◌, ◌+◌, ltb, not, keep, ◌∷◌, if◌then◌else◌, ◌++◌, [], Text, ℕ, contains, List,
}
use capagent.Graph.Kahn.{Progress, Links, update, rounds, Counts}

-- A `map[string][]string`: its keys, each once, in the order of one iteration, and the value at each.
pub record EdgeMap : Type 0 where
  pub keys : List Text
  pub dependencies : Links

pub data GraphError : Type 0 where
  size_limit reference_limit cyclic_graph : GraphError
  bad_dependency : Text → GraphError

pub data Outcome (A : Type 0) : Type 0 where
  ok : A → Outcome A
  err : GraphError → Outcome A

abbrev pub max_graph_entries : ℕ
max_graph_entries = 4096

abbrev pub max_graph_references : ℕ
max_graph_references = 16384

-- `counts`, `downstream` and `references`.
pub record Built : Type 0 where
  pub counts : Counts
  pub downstream : Links
  pub references : ℕ

abbrev pub nothing_built : Built
nothing_built = record { counts = λ id. 0; downstream = λ id. []; references = 0 }

-- One dependency entered.
abbrev pub enter : Text → Text → Built → Built
enter id dep b = record {
  counts = update b.counts id (b.counts id + 1);
  downstream = update b.downstream dep (b.downstream dep ++ (id ∷ []));
  references = b.references + 1;
}

-- The loop over the dependencies of one node, where `seen` holds those before.
unfoldable pub add_dependencies : List Text → Text → List Text → Built → List Text → Outcome Built
unfolding contains
add_dependencies keys id seen b [] = ok b
add_dependencies keys id seen b (dep ∷ deps) =
    let rest = add_dependencies keys id (dep ∷ seen) (enter id dep b) deps in
    if not (contains keys dep) || contains seen dep
    then err (bad_dependency id)
    else if ltb max_graph_references (b.references + 1)
    then err reference_limit
    else rest

-- The loop over the nodes.
unfoldable pub add_nodes : EdgeMap → Built → List Text → Outcome Built
unfolding add_dependencies
add_nodes edges b [] = ok b
add_nodes edges b (id ∷ ids) = elim (add_dependencies edges.keys id [] b (edges.dependencies id)) [
  | ok b' ↦ add_nodes edges b' ids
  | err e ↦ err e
]

-- `ready = append(ready, ...)` for each freed node, and `slices.Sort(ready)`.
unfoldable pub sort_ready : List Text → List Text → List Text
unfolding sort_texts
sort_ready rest freed = sort_texts (rest ++ freed)

-- The loop that begins with the nodes without dependencies. Each round puts one node in order.
unfoldable pub run_order : List Text → Built → Progress
unfolding sort_ready rounds keep
run_order ids b =
    rounds sort_ready b.downstream (length ids)
      (record { counts = b.counts; ready = keep (λ id. b.counts id == 0) ids; order = [] })

abbrev pub order_of : EdgeMap → List Text → Outcome Built → Outcome (List Text)
order_of edges ids (err e) = err e
order_of edges ids (ok b) =
    let order = (run_order ids b).order in
    if not (length order == length edges.keys) then err cyclic_graph else ok order

unfoldable pub topological : EdgeMap → Outcome (List Text)
unfolding add_nodes run_order
topological edges =
    if ltb max_graph_entries (length edges.keys)
    then err size_limit
    else order_of edges (sort_texts edges.keys)
        (add_nodes edges nothing_built (sort_texts edges.keys))
