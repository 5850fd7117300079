-- ===== src/Probe/Tables.antt =====
-- The tables that kahnTopoSort counts, and the heap that it fills.
use capagent.Graph.Maps.{update-count, update-link, product_cons}
use capagent.Graph.Kahn.{Links, update}
use capagent.Graph.Rounds.{Keeps}
use capagent.Probe.Sort.{Tables, count_dependencies, count_all, push, push_all}
use capagent.Base.{
  Text, List, [], ◌∷◌, ◌++◌, ℕ, ◌+◌, ◌*◌, ◌≡◌, occ, length, if◌then◌else◌, text_eq, refl, arith,
  Bool-cases, inl, inr, ltb,
}

count_dependencies-occ :
    (id z d : Text) (t : Tables) (deps : List Text)
    → ((count_dependencies id t deps).in_degree z
        ≡ t.in_degree z + (if text_eq id z then length deps else 0))
      × (occ z ((count_dependencies id t deps).dependents d)
          ≡ occ z (t.dependents d) + (if text_eq id z then occ d deps else 0))
unfolding count_dependencies occ
count_dependencies-occ id z d t [] = (ground arith, ground arith)
count_dependencies-occ id z d t (dep ∷ deps) =
    let after : Tables = record {
      in_degree = update t.in_degree id (t.in_degree id + 1);
      dependents = update t.dependents dep (t.dependents dep ++ (id ∷ []));
    } in
    let (counted, linked) = count_dependencies-occ id z d after deps in
    (
      ground (arith, counted, update-count id z t.in_degree),
      ground (arith, linked, update-link id dep z d t.dependents),
    )

pub count_all-occ :
    (dependencies : Links) (z d : Text) (t : Tables) (ids : List Text)
    → ((count_all dependencies t ids).in_degree z
        ≡ t.in_degree z + occ z ids * length (dependencies z))
      × (occ z ((count_all dependencies t ids).dependents d)
          ≡ occ z (t.dependents d) + occ z ids * occ d (dependencies z))
unfolding count_all occ
count_all-occ dependencies z d t [] = (omega arith, omega arith)
count_all-occ dependencies z d t (id ∷ ids) =
    let (counted, linked) =
      count_all-occ dependencies z d (count_dependencies id t (dependencies id)) ids in
    let (one, link) = count_dependencies-occ id z d t (dependencies id) in
    (
      omega (arith, counted, one, product_cons (λ w. length (dependencies w)) id z (occ z ids)),
      omega (arith, linked, link, product_cons (λ w. occ d (dependencies w)) id z (occ z ids)),
    )

occ-push :
    (order : Text → ℕ) (z x : Text) (queue : List Text)
    → occ z (push order x queue) ≡ (if text_eq x z then 1 else 0) + occ z queue
unfolding push occ
occ-push order z x [] = refl
occ-push order z x (y ∷ ys) = elim (Bool-cases (ltb (order x) (order y))) [
  | inl e ↦ rw e
  | inr e ↦ rw e (omega (arith, occ-push order z x ys))
]

pub push_all-Keeps : (order : Text → ℕ) → Keeps (push_all order)
unfolding push_all occ
push_all-Keeps order z queue [] = omega arith
push_all-Keeps order z queue (x ∷ xs) =
    omega (arith, push_all-Keeps order z (push order x queue) xs, occ-push order z x queue)
