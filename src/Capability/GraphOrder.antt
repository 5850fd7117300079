-- ===== src/Capability/GraphOrder.antt =====
-- topological of internal/capability/graph.go orders the nodes behind their dependencies, and reports a
-- cycle only where there is one.
use capagent.Graph.Result.{run_order-ranked, run_order-full, IsBuilt, run_order-IsOrdered}
use capagent.Capability.GraphBuild.{Outcome-cases, add_nodes-EntersAll, EntersAll}
use capagent.Base.{
  ltb-false→le, ap, sym, ltb, Bool-cases, ◌≤◌, subst, ◌≢◌, inl, inr, refl, ◌==◌, [], arith, length,
  ◌∷◌, ℕ, ◌<◌, ◌≡◌, Text, occ-append, List, keep, IsDistinct, occ, ◌∙◌, ◌++◌,
}
use capagent.Graph.Sorting.{length-sort_texts, sort_texts, occ-sort_texts}
use capagent.Graph.Rounds.{IsOrdered, Keeps}
use capagent.Capability.Topological.{
  max_graph_entries, enter, cyclic_graph, err, ok, order_of, topological, Outcome, add_dependencies,
  add_nodes, run_order, nothing_built, Built, sort_ready, EdgeMap,
}

sort_ready-Keeps : Keeps sort_ready
unfolding sort_ready
sort_ready-Keeps z rest freed = occ-sort_texts z (rest ++ freed) ∙ occ-append z rest freed

module _ (edges : EdgeMap) (distinct : IsDistinct edges.keys) (b : Built) (ids : List Text)
    (same : (z : Text) → occ z ids ≡ occ z edges.keys)
    (built : EntersAll edges ids nothing_built b) where
  ids-IsDistinct : IsDistinct ids
  ids-IsDistinct z = omega (arith, same z, distinct z)

  maps-IsBuilt : IsBuilt ids edges.dependencies b.counts b.downstream
  unfolding occ
  maps-IsBuilt = record {
    counted = λ z. omega (arith, built.counted z);
    linked = λ z d. omega (arith, built.linked z d);
    declared = λ z d node dep. omega (arith, built.declared z d node dep, same d);
  }

  order-IsOrdered : IsOrdered (λ z d. 0 < occ d (edges.dependencies z)) [] (run_order ids b).order
  unfolding run_order
  order-IsOrdered =
      run_order-IsOrdered sort_ready sort_ready-Keeps ids edges.dependencies b.counts b.downstream
        (keep (λ id. b.counts id == 0) ids) ids-IsDistinct maps-IsBuilt (λ z. refl)

  order-full :
      length (run_order ids b).order ≡ length ids
      → (z : Text) → occ z (run_order ids b).order ≡ occ z edges.keys
  unfolding run_order
  order-full full z =
      run_order-full sort_ready sort_ready-Keeps ids edges.dependencies b.counts b.downstream
        (keep (λ id. b.counts id == 0) ids) ids-IsDistinct maps-IsBuilt (λ z. refl) full z
      ∙ same z

  order-ranked :
      (rank : Text → ℕ)
      → ((z d : Text) → 0 < occ d (edges.dependencies z) → rank d < rank z)
      → length (run_order ids b).order ≡ length ids
  unfolding run_order
  order-ranked =
      run_order-ranked sort_ready sort_ready-Keeps ids edges.dependencies b.counts b.downstream
        (keep (λ id. b.counts id == 0) ids) ids-IsDistinct maps-IsBuilt (λ z. refl)

order_of-ok :
    (edges : EdgeMap) (ids order : List Text) (r : Outcome Built)
    → order_of edges ids r ≡ ok order
    → (b : Built) × (r ≡ ok b)
      × ((run_order ids b).order ≡ order)
      × (length (run_order ids b).order ≡ length edges.keys)
order_of-ok edges ids order (err e) h = absurd (ground arith)
order_of-ok edges ids order (ok b) h = (b, refl, ground arith, ground arith)

-- The order that topological returns holds each node once, behind all its dependencies, if the keys of
-- the map are distinct.
pub topological_order :
    (edges : EdgeMap) (order : List Text)
    → IsDistinct edges.keys
    → topological edges ≡ ok order
    → ((z : Text) → occ z order ≡ occ z edges.keys)
      × IsOrdered (λ z d. 0 < occ d (edges.dependencies z)) [] order
unfolding topological
topological_order edges order distinct h =
    let ids = sort_texts edges.keys in
    let same = λ (z : Text). occ-sort_texts z edges.keys in
    let (b, entered, result, full) =
      order_of-ok edges ids order (add_nodes edges nothing_built ids) (ground arith) in
    let built = add_nodes-EntersAll edges nothing_built b ids entered in
    subst
      (λ o.
        ((z : Text) → occ z o ≡ occ z edges.keys)
        × IsOrdered (λ z d. 0 < occ d (edges.dependencies z)) [] o)
      result
      (
        order-full edges distinct b ids same built
            (omega (arith, full, length-sort_texts edges.keys)),
        order-IsOrdered edges distinct b ids same built,
      )

add_dependencies-ne-cyclic :
    (keys : List Text) (id : Text) (seen : List Text) (b : Built) (deps : List Text)
    → add_dependencies keys id seen b deps ≢ err cyclic_graph
unfolding add_dependencies
add_dependencies-ne-cyclic keys id seen b [] h = cc
add_dependencies-ne-cyclic keys id seen b (dep ∷ deps) h =
    ground (arith, add_dependencies-ne-cyclic keys id (dep ∷ seen) (enter id dep b) deps)

add_nodes-ne-cyclic :
    (edges : EdgeMap) (b : Built) (ids : List Text) → add_nodes edges b ids ≢ err cyclic_graph
unfolding add_nodes
add_nodes-ne-cyclic edges b [] h = cc
add_nodes-ne-cyclic edges b (id ∷ ids) h =
    elim (Outcome-cases (add_dependencies edges.keys id [] b (edges.dependencies id))) [
      | inl (c, q) ↦ let never = add_nodes-ne-cyclic edges c ids in ground arith
      | inr (e, q) ↦
          let never = add_dependencies-ne-cyclic edges.keys id [] b (edges.dependencies id) in
          ground arith
    ]

-- topological reports no cycle where a rank falls from each node to its dependencies, if the keys of the
-- map are distinct.
pub topological_acyclic :
    (edges : EdgeMap) (rank : Text → ℕ)
    → IsDistinct edges.keys
    → ((z d : Text) → 0 < occ d (edges.dependencies z) → rank d < rank z)
    → topological edges ≢ err cyclic_graph
unfolding topological
topological_acyclic edges rank distinct falls h =
    let ids = sort_texts edges.keys in
    elim (Outcome-cases (add_nodes edges nothing_built ids)) [
      | inl (b, q) ↦
          let full =
            order-ranked edges distinct b ids (λ z. occ-sort_texts z edges.keys)
              (add_nodes-EntersAll edges nothing_built b ids q) rank falls in
          let long = length-sort_texts edges.keys in let h' = rw q at h in ground arith
      | inr (e, q) ↦
          let h' = rw q at h in
          let never = add_nodes-ne-cyclic edges nothing_built ids in ground arith
    ]

pub topological-bounded :
    (edges : EdgeMap) (order : List Text)
    → topological edges ≡ ok order
    → length order ≤ max_graph_entries
unfolding topological
topological-bounded edges order h = elim (Bool-cases (ltb max_graph_entries (length edges.keys))) [
  | inl e ↦ absurd (ground (arith, (rw e at h)))
  | inr e ↦
      let ids = sort_texts edges.keys in
      let (b, q, same, full) =
        order_of-ok edges ids order (add_nodes edges nothing_built ids) (rw e at h) in
      let long : length order ≡ length edges.keys = sym (ap length same) ∙ full in
      omega (arith, long, ltb-false→le max_graph_entries (length edges.keys) e)
]
