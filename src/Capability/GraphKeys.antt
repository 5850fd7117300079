-- ===== src/Capability/GraphKeys.antt =====
-- topological of internal/capability/graph.go does not depend on the order in which Go iterates a map.
use capagent.Graph.Sorting.{sort_texts, length-sort_texts}
use capagent.Graph.Unique.{sort_texts_unique}
use capagent.Capability.Topological.{
  EdgeMap, Outcome, ok, err, Built, add_dependencies, add_nodes, enter, nothing_built, order_of,
  topological,
}
use capagent.Capability.GraphBuild.{Outcome-cases}
use capagent.Base.{
  Text, List, [], ◌∷◌, ◌≡◌, ◌==◌, occ, contains, not, length, refl, arith, inl, inr, ap, sym, ◌∙◌,
}

contains-eq_occ : (xs : List Text) (x : Text) → contains xs x ≡ not (occ x xs == 0)
unfolding contains occ
contains-eq_occ [] x = refl
contains-eq_occ (y ∷ ys) x = let rest = contains-eq_occ ys x in ground arith

contains_cong : (xs ys : List Text) (x : Text) → occ x xs ≡ occ x ys → contains xs x ≡ contains ys x
contains_cong xs ys x h =
    contains-eq_occ xs x ∙ ap (λ n. not (n == 0)) h ∙ sym (contains-eq_occ ys x)

add_dependencies_cong :
    (keys keys' : List Text) (id : Text) (seen : List Text) (b : Built) (deps : List Text)
    → ((z : Text) → occ z keys' ≡ occ z keys)
    → add_dependencies keys' id seen b deps ≡ add_dependencies keys id seen b deps
unfolding add_dependencies
add_dependencies_cong keys keys' id seen b [] h = refl
add_dependencies_cong keys keys' id seen b (dep ∷ deps) h = rw (
  contains_cong keys' keys dep (h dep),
  add_dependencies_cong keys keys' id (dep ∷ seen) (enter id dep b) deps h,
)

add_nodes_cong :
    (edges : EdgeMap) (keys' : List Text) (b : Built) (ids : List Text)
    → ((z : Text) → occ z keys' ≡ occ z edges.keys)
    → add_nodes (record edges { keys = keys' }) b ids ≡ add_nodes edges b ids
unfolding add_nodes
add_nodes_cong edges keys' b [] h = refl
add_nodes_cong edges keys' b (id ∷ ids) h =
    let same = add_dependencies_cong edges.keys keys' id [] b (edges.dependencies id) h in
    elim (Outcome-cases (add_dependencies edges.keys id [] b (edges.dependencies id))) [
      | inl (c, q) ↦ let rest = add_nodes_cong edges keys' c ids h in ground arith
      | inr (e, q) ↦ ground arith
    ]

order_of_cong :
    (edges : EdgeMap) (keys' ids : List Text) (r : Outcome Built)
    → length keys' ≡ length edges.keys
    → order_of (record edges { keys = keys' }) ids r ≡ order_of edges ids r
order_of_cong edges keys' ids (err e) h = refl
order_of_cong edges keys' ids (ok b) h = rw h

-- topological returns the same order, or the same error, for every order of the keys of the map.
pub topological_deterministic :
    (edges : EdgeMap) (keys' : List Text)
    → ((z : Text) → occ z keys' ≡ occ z edges.keys)
    → topological (record edges { keys = keys' }) ≡ topological edges
unfolding topological
topological_deterministic edges keys' h =
    let sorted = sort_texts_unique keys' edges.keys h in
    let long : length keys' ≡ length edges.keys =
      sym (length-sort_texts keys') ∙ ap length sorted ∙ length-sort_texts edges.keys in
    let built = add_nodes_cong edges keys' nothing_built (sort_texts edges.keys) h in
    let ends =
      order_of_cong edges keys' (sort_texts edges.keys)
        (add_nodes edges nothing_built (sort_texts edges.keys)) long in
    rw (long, sorted, built, ends)
