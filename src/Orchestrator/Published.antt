-- ===== src/Orchestrator/Published.antt =====
-- The plans that Registry.Resolve compiles (internal/probe/registry.go) are the plans that the
-- orchestrator relies on.
use capagent.Base.{
  ℕ, zero, suc, ◌+◌, ◌<◌, ◌≡◌, map, Text, List, [], ◌∷◌, none, some, occ, occ_self, false, length,
  get_elem?, refl, arith, sym, ◌∙◌, ap,
}
use capagent.Graph.Position.{position, ordered-position}
use capagent.Probe.Execution.{ExecutionNode, ExecutionPlan, compile_plan, blanks}
use capagent.Probe.Registry.{Registry, captured, resolve}
use capagent.Probe.Invariant.{IsRegistry}
use capagent.Probe.Resolve.{resolve_plan, resolve_compiled}
use capagent.Orchestrator.Counting.{count}
use capagent.Orchestrator.Scheduler.{node_at}
use capagent.Orchestrator.Plan.{IsPlan, size, deps, down}
use capagent.Orchestrator.Compile.{at, gain}
use capagent.Orchestrator.CompileNodes.{
  Compiled, compile_nodes-Compiled, compile_nodes-indices, named-at, gain-found, blanks-length,
  blanks-at,
}

pub get_elem?-lt : (xs : List Text) (k : ℕ) (x : Text) → get_elem? xs k ≡ some x → k < length xs
get_elem?-lt [] k x h = absurd (ground arith)
get_elem?-lt (y ∷ ys) zero x h = omega arith
get_elem?-lt (y ∷ ys) (suc k) x h = omega (arith, get_elem?-lt ys k x h)

get_elem?-occ : (xs : List Text) (k : ℕ) (x : Text) → get_elem? xs k ≡ some x → 0 < occ x xs
unfolding occ
get_elem?-occ [] k x h = absurd (ground arith)
get_elem?-occ (y ∷ ys) zero x h =
    let same : y ≡ x = ground arith in
    let first : occ x (y ∷ ys) ≡ 1 + occ x ys = rw same (occ_self x ys) in omega arith
get_elem?-occ (y ∷ ys) (suc k) x h = omega (arith, get_elem?-occ ys k x h)

get_elem?-some : (xs : List Text) (k : ℕ) → k < length xs → (x : Text) × (get_elem? xs k ≡ some x)
get_elem?-some [] k h = absurd (omega arith)
get_elem?-some (y ∷ ys) zero h = (y, refl)
get_elem?-some (y ∷ ys) (suc k) h = get_elem?-some ys k (omega arith)

-- Nodes that carry the IDs at the same places.
nodes-ids :
    (ns : List ExecutionNode) (ids : List Text)
    → length ns ≡ length ids
    → ((k : ℕ) (id : Text) → get_elem? ids k ≡ some id → (at ns k).id ≡ id)
    → map (λ node. node.id) ns ≡ ids
nodes-ids [] [] e h = refl
nodes-ids [] (id ∷ ids) e h = absurd (omega arith)
nodes-ids (n ∷ ns) [] e h = absurd (omega arith)
nodes-ids (n ∷ ns) (id ∷ ids) e h =
    let first : n.id ≡ id = h 0 id refl in
    let rest = nodes-ids ns ids (omega arith) (λ k x q. h (suc k) x q) in rw (first, rest)

module _ (r : Registry) (inv : IsRegistry r) (fresh : r.resolved ≡ false)
    (done : (resolve r).1 ≡ none) where
  abbrev pub plan : ExecutionPlan
  plan = compile_plan r.ordered_ids r.probes (captured r.probes) r.reg_index

  abbrev edges_between : ℕ → ℕ → ℕ
  edges_between = gain r.reg_index (captured r.probes) 0 r.ordered_ids

  in_range :
      (id d : Text)
      → 0 < occ id r.ordered_ids
      → 0 < occ d (captured r.probes id)
      → (0 < occ d r.ordered_ids) × (r.reg_index d < length r.ordered_ids)
  in_range id d m n =
      let there = inv.listed d ((resolve_plan r inv fresh done).0 id d m n) in
      (there, get_elem?-lt r.ordered_ids (r.reg_index d) d (inv.indexed d there))

  laid : Compiled r.reg_index (captured r.probes) 0 r.ordered_ids (blanks r.ordered_ids) plan.nodes
  unfolding compile_plan
  laid =
      compile_nodes-Compiled r.probes (captured r.probes) r.reg_index 0 r.ordered_ids
        (record { nodes = blanks r.ordered_ids; indices = λ id. 0 })
        (omega (arith, blanks-length r.ordered_ids))
        (λ id m d n. omega (arith, blanks-length r.ordered_ids, (in_range id d m n).1))

  pub plan-size : size plan ≡ length r.ordered_ids
  plan-size = laid.lengths ∙ blanks-length r.ordered_ids

  pub plan-deps : (i d : ℕ) → count d (deps plan i) ≡ edges_between i d
  unfolding count
  plan-deps i d =
      let none_before = ap (λ n. count d n.dependencies) (blanks-at r.ordered_ids i) in
      omega (arith, laid.needs i d)

  plan-down : (i d : ℕ) → count i (down plan d) ≡ edges_between i d
  unfolding count
  plan-down i d =
      let none_before = ap (λ n. count i n.downstream) (blanks-at r.ordered_ids d) in
      omega (arith, laid.serves i d)

  -- The two ends of an edge.
  pub plan-edge :
      (i d : ℕ)
      → 0 < edges_between i d
      → (id dep : Text) × (get_elem? r.ordered_ids i ≡ some id)
        × (get_elem? r.ordered_ids d ≡ some dep)
        × (0 < occ dep (captured r.probes id))
        × (r.reg_index dep ≡ d)
  plan-edge i d h =
      let (k, id, dep, at_k, found, m, there) =
        gain-found r.reg_index (captured r.probes) 0 r.ordered_ids i d h in
      let same : k ≡ i = omega arith in
      let found' = rw same at found in
      let (listed, _) = in_range id dep (get_elem?-occ r.ordered_ids i id found') m in
      (id, dep, found', rw there at (inv.indexed dep listed), m, there)

  pub plan-id : (k : ℕ) (id : Text) → get_elem? r.ordered_ids k ≡ some id → (node_at plan k).id ≡ id
  plan-id k id h = laid.names k ∙ named-at 0 r.ordered_ids _ k k id (omega arith) h

  plan-indices : (k : ℕ) (id : Text) → get_elem? r.ordered_ids k ≡ some id → plan.indices id ≡ k
  unfolding compile_plan
  plan-indices k id h =
      compile_nodes-indices r.probes (captured r.probes) r.reg_index 0 k r.ordered_ids _ id
        inv.distinct h
      ∙ omega arith

  abbrev rank : ℕ → ℕ
  rank k = position (node_at plan k).id (resolve r).0.resolved_plan

  edge-falls : (i d : ℕ) → 0 < edges_between i d → rank d < rank i
  unfolding occ
  edge-falls i d h =
      let (id, dep, at_i, at_d, m, _) = plan-edge i d h in
      let (closed, full, ordered) = resolve_plan r inv fresh done in
      let there = get_elem?-occ r.ordered_ids i id at_i in
      let low =
        ordered-position (λ z d. 0 < occ d (captured r.probes z)) [] (resolve r).0.resolved_plan
          ordered id dep (omega (arith, full id)) refl m in
      rw (plan-id i id at_i, plan-id d dep at_d) low

  pub plan-IsPlan : IsPlan plan
  plan-IsPlan = record {
    named = λ i h.
        let (id, found) = get_elem?-some r.ordered_ids i (omega (arith, plan-size)) in
        rw (plan-id i id found) (plan-indices i id found);
    linked = λ i d h. plan-down i d ∙ sym (plan-deps i d);
    down_range = λ i d h.
        let (id, dep, at_i, at_d, m, _) = plan-edge i d (omega (arith, plan-down i d)) in
        omega (arith, plan-size, get_elem?-lt r.ordered_ids i id at_i);
    deps_range = λ i d h k.
        let (id, dep, at_i, at_d, m, _) = plan-edge i d (omega (arith, plan-deps i d)) in
        omega (arith, plan-size, get_elem?-lt r.ordered_ids d dep at_d);
    rank = rank;
    falls = λ i d h k. edge-falls i d (omega (arith, plan-deps i d));
  }

-- If Resolve of an open registry returns no error, it has compiled a plan with a node for each registered
-- ID, in the order of registration, that satisfies all the orchestrator relies on: the IDs lead back to
-- their nodes, dependencies and dependents agree and are in range, and no chain of dependencies is a cycle.
pub resolve-IsPlan :
    (r : Registry)
    → IsRegistry r
    → r.resolved ≡ false
    → (resolve r).1 ≡ none
    → (compiled : ExecutionPlan) × ((resolve r).0.compiled ≡ some compiled)
      × IsPlan compiled
      × (map (λ node. node.id) compiled.nodes ≡ r.ordered_ids)
resolve-IsPlan r inv fresh done = (
  plan r inv fresh done,
  resolve_compiled r fresh done,
  plan-IsPlan r inv fresh done,
  nodes-ids (plan r inv fresh done).nodes r.ordered_ids (plan-size r inv fresh done)
      (plan-id r inv fresh done),
)
