-- ===== src/Capability/GraphBuild.antt =====
-- What the maps that topological builds hold (internal/capability/graph.go).
use capagent.Capability.Topological.{
  err, GraphError, EdgeMap, Outcome, add_nodes, ok, enter, Built, add_dependencies,
}
use capagent.Graph.Maps.{update-count, update-link, product_cons}
use capagent.Base.{
  refl, ◌⊎◌, ◌*◌, sym, subst, text_eq→eq, inr, inl, length, [], Bool-cases, arith, text_eq, ◌∷◌,
  ◌<◌, if◌then◌else◌, true, ◌+◌, ◌≡◌, occ, Text, contains, List,
}

contains-occ : (xs : List Text) (x : Text) → contains xs x ≡ true → 0 < occ x xs
unfolding contains occ
contains-occ [] x h = cc
contains-occ (y ∷ ys) x h = ground (arith, contains-occ ys x)

-- The maps after the dependencies of one node are entered.
pub record Enters (keys : List Text) (id : Text) (deps : List Text) (b b' : Built) : Type 0 where
  pub counted : (z : Text) → b'.counts z ≡ b.counts z + (if text_eq id z then length deps else 0)
  pub linked :
      (z d : Text)
      → occ z (b'.downstream d) ≡ occ z (b.downstream d) + (if text_eq id z then occ d deps else 0)
  pub declared : (d : Text) → 0 < occ d deps → 0 < occ d keys

-- A dependency that is accepted is a key, and the loop goes on.
add_dependencies-cons :
    (keys : List Text) (id : Text) (seen : List Text) (b b' : Built) (dep : Text) (deps : List Text)
    → add_dependencies keys id seen b (dep ∷ deps) ≡ ok b'
    → (contains keys dep ≡ true)
      × (add_dependencies keys id (dep ∷ seen) (enter id dep b) deps ≡ ok b')
unfolding add_dependencies
add_dependencies-cons keys id seen b b' dep deps h = (ground arith, ground arith)

ok-injective : {A : Type 0} {x y : A} → Outcome.ok x ≡ ok y → x ≡ y
ok-injective h = cc

add_dependencies-Enters :
    (keys : List Text) (id : Text) (seen : List Text) (b b' : Built) (deps : List Text)
    → add_dependencies keys id seen b deps ≡ ok b'
    → Enters keys id deps b b'
unfolding add_dependencies occ
add_dependencies-Enters keys id seen b b' [] h =
    subst (Enters keys id [] b) (ok-injective h) (record {
      counted = λ z. ground arith;
      linked = λ z d. ground arith;
      declared = λ d m. absurd (omega arith);
    })
add_dependencies-Enters keys id seen b b' (dep ∷ deps) h =
    let (known, rest) = add_dependencies-cons keys id seen b b' dep deps h in
    let r = add_dependencies-Enters keys id (dep ∷ seen) (enter id dep b) b' deps rest in
    record {
      counted = λ z. ground (arith, r.counted z, update-count id z b.counts);
      linked = λ z d. ground (arith, r.linked z d, update-link id dep z d b.downstream);
      declared = λ d m. elim (Bool-cases (text_eq dep d)) [
        | inl e ↦ subst (λ w. 0 < occ w keys) (text_eq→eq dep d e) (contains-occ keys dep known)
        | inr e ↦ r.declared d (ground arith)
      ];
    }

-- The maps after all nodes of a list are entered.
pub record EntersAll (edges : EdgeMap) (ids : List Text) (b b' : Built) : Type 0 where
  pub counted : (z : Text) → b'.counts z ≡ b.counts z + occ z ids * length (edges.dependencies z)
  pub linked :
      (z d : Text)
      → occ z (b'.downstream d) ≡ occ z (b.downstream d) + occ z ids * occ d (edges.dependencies z)
  pub declared :
      (z d : Text) → 0 < occ z ids → 0 < occ d (edges.dependencies z) → 0 < occ d edges.keys

pub Outcome-cases :
    {A : Type 0} (r : Outcome A) → ((a : A) × (r ≡ ok a)) ⊎ ((e : GraphError) × (r ≡ err e))
Outcome-cases (ok a) = inl (a, refl)
Outcome-cases (err e) = inr (e, refl)

add_nodes-cons :
    (edges : EdgeMap) (b b' : Built) (id : Text) (ids : List Text)
    → add_nodes edges b (id ∷ ids) ≡ ok b'
    → (c : Built) × (add_dependencies edges.keys id [] b (edges.dependencies id) ≡ ok c)
      × (add_nodes edges c ids ≡ ok b')
unfolding add_nodes
add_nodes-cons edges b b' id ids h =
    elim (Outcome-cases (add_dependencies edges.keys id [] b (edges.dependencies id))) [
      | inl (c, q) ↦ (c, q, ground arith)
      | inr (e, q) ↦ absurd (ground arith)
    ]

pub add_nodes-EntersAll :
    (edges : EdgeMap) (b b' : Built) (ids : List Text)
    → add_nodes edges b ids ≡ ok b'
    → EntersAll edges ids b b'
unfolding add_nodes occ
add_nodes-EntersAll edges b b' [] h = subst (EntersAll edges [] b) (ok-injective h) (record {
  counted = λ z. omega arith;
  linked = λ z d. omega arith;
  declared = λ z d m. absurd (omega arith);
})
add_nodes-EntersAll edges b b' (id ∷ ids) h =
    let (c, first, rest) = add_nodes-cons edges b b' id ids h in
    let one = add_dependencies-Enters edges.keys id [] b c (edges.dependencies id) first in
    let more = add_nodes-EntersAll edges c b' ids rest in
    record {
      counted = λ z. omega (
        arith,
        one.counted z,
        more.counted z,
        product_cons (λ w. length (edges.dependencies w)) id z (occ z ids),
      );
      linked = λ z d. omega (
        arith,
        one.linked z d,
        more.linked z d,
        product_cons (λ w. occ d (edges.dependencies w)) id z (occ z ids),
      );
      declared = λ z d m n. elim (Bool-cases (text_eq id z)) [
        | inl e ↦
            one.declared d
              (subst (λ w. 0 < occ d (edges.dependencies w)) (sym (text_eq→eq id z e)) n)
        | inr e ↦ more.declared z d (ground arith) n
      ];
    }
