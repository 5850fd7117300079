-- ===== src/Capability/GraphTests.antt =====
-- Two nodes, one of which needs the other, and the theorems about topological at them.
use capagent.Capability.GraphKeys.{topological_deterministic}
use capagent.Capability.GraphOrder.{topological_order, topological_acyclic}
use capagent.Capability.Topological.{EdgeMap, ok, err, cyclic_graph, topological}
use capagent.Graph.Rounds.{IsOrdered}
use capagent.Base.{
  ◌≢◌, Text, List, [], ◌∷◌, ℕ, codes, text_eq, occ, IsDistinct, ◌≡◌, ◌<◌, ◌≤◌, refl, Bool-cases,
  inl, inr, if◌then◌else◌, text_eq→eq, subst, arith, contains, text_lt,
}

program : Unit {0}
unfolding topological text_eq contains occ text_lt
program = tt

abbrev base : Text
base = codes "a"

abbrev user : Text
user = codes "b"

abbrev needed : Text → List Text
needed z = if text_eq user z then base ∷ [] else []

abbrev edges : EdgeMap
edges = record { keys = user ∷ base ∷ []; dependencies = needed }

abbrev loop : EdgeMap
loop = record { keys = user ∷ []; dependencies = λ z. user ∷ [] }

topological-edges : topological edges ≡ ok (base ∷ user ∷ [])
unfolding program
topological-edges = refl

topological-loop : topological loop ≡ err cyclic_graph
unfolding program
topological-loop = refl

edges-IsDistinct : IsDistinct edges.keys
unfolding occ text_eq
edges-IsDistinct x = elim (Bool-cases (text_eq user x)) [
  | inl e ↦ subst (λ w. occ w (user ∷ base ∷ []) ≤ 1) (text_eq→eq user x e) (omega arith)
  | inr e ↦ rw e (ground arith)
]

abbrev rank : Text → ℕ
rank z = if text_eq user z then 1 else 0

falls : (z d : Text) → 0 < occ d (edges.dependencies z) → rank d < rank z
unfolding occ text_eq
falls z d h = elim (Bool-cases (text_eq user z)) [
  | inr e ↦ absurd (omega (arith, rw e at h))
  | inl e ↦
      let h' = rw e at h in
      elim (Bool-cases (text_eq base d)) [
        | inr q ↦ absurd (ground arith)
        | inl q ↦
            let low : rank d < 1 = subst (λ w. rank w < 1) (text_eq→eq base d q) (omega arith) in
            rw e low
      ]
]

topological_order_example :
    ((z : Text) → occ z (base ∷ user ∷ []) ≡ occ z edges.keys)
    × IsOrdered (λ z d. 0 < occ d (edges.dependencies z)) [] (base ∷ user ∷ [])
topological_order_example =
    topological_order edges (base ∷ user ∷ []) edges-IsDistinct topological-edges

topological_acyclic_example : topological edges ≢ err cyclic_graph
topological_acyclic_example = topological_acyclic edges rank edges-IsDistinct falls

topological_deterministic_example :
    topological (record edges { keys = base ∷ user ∷ [] }) ≡ topological edges
unfolding occ
topological_deterministic_example =
    topological_deterministic edges (base ∷ user ∷ []) (λ z. omega arith)
