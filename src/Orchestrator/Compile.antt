-- ===== src/Orchestrator/Compile.antt =====
-- What compilePlan of internal/probe/registry.go puts into the nodes: both adjacencies grow together.
use capagent.Base.{
  ℕ, zero, suc, ◌+◌, ◌<◌, ◌==◌, ◌≡◌, Text, List, [], ◌∷◌, ◌++◌, occ, occ_self, if◌then◌else◌,
  length, get_elem?, refl, arith, ap, true, false, Bool, ◌∙◌,
}
use capagent.Graph.Kahn.{Links}
use capagent.Probe.Execution.{ExecutionNode, change_at, link_dependencies}
use capagent.Orchestrator.Counting.{count, count-append}
use capagent.Orchestrator.Scheduler.{node_or}

abbrev pub at : List ExecutionNode → ℕ → ExecutionNode
at ns z = node_or (get_elem? ns z)

pub change_at-length :
    (i : ℕ) (f : ExecutionNode → ExecutionNode) (ns : List ExecutionNode)
    → length (change_at i f ns) ≡ length ns
unfolding change_at
change_at-length i f [] = refl
change_at-length zero f (n ∷ ns) = refl
change_at-length (suc i) f (n ∷ ns) = ap suc (change_at-length i f ns)

pub change_at-at :
    (i : ℕ) (f : ExecutionNode → ExecutionNode) (ns : List ExecutionNode) (z : ℕ)
    → i < length ns
    → at (change_at i f ns) z ≡ (if i == z then f (at ns z) else at ns z)
unfolding change_at
change_at-at i f [] z h = absurd (omega arith)
change_at-at zero f (n ∷ ns) zero h = refl
change_at-at zero f (n ∷ ns) (suc z) h = ground arith
change_at-at (suc i) f (n ∷ ns) zero h = ground arith
change_at-at (suc i) f (n ∷ ns) (suc z) h = ground (arith, change_at-at i f ns z)

-- How many of the dependencies stand at the index `d`.
unfoldable pub edges : (Text → ℕ) → List Text → ℕ → ℕ
edges indices [] d = 0
edges indices (dep ∷ deps) d = (if indices dep == d then 1 else 0) + edges indices deps d

-- How many edges lead from node `z` to node `d`, for the IDs that stand from index `i` on.
unfoldable pub gain : (Text → ℕ) → Links → ℕ → List Text → ℕ → ℕ → ℕ
unfolding edges
gain indices deps i [] z d = 0
gain indices deps i (id ∷ ids) z d =
    (if i == z then edges indices (deps id) d else 0) + gain indices deps (i + 1) ids z d

abbrev pub InRange : (Text → ℕ) → ℕ → List Text → Type 0
InRange indices n deps = (d : Text) → 0 < occ d deps → indices d < n

-- Two lists of nodes with the same names, the second of which has `by z d` more edges from `z` to `d`.
pub record Grows (ns ms : List ExecutionNode) (by : ℕ → ℕ → ℕ) : Type 0 where
  pub lengths : length ms ≡ length ns
  pub ids : (z : ℕ) → (at ms z).id ≡ (at ns z).id
  pub needs : (z d : ℕ) → count d (at ms z).dependencies ≡ count d (at ns z).dependencies + by z d
  pub serves : (z d : ℕ) → count z (at ms d).downstream ≡ count z (at ns d).downstream + by z d

Grows-trans :
    (ns ms ks : List ExecutionNode) (f g h : ℕ → ℕ → ℕ)
    → Grows ns ms f
    → Grows ms ks g
    → ((z d : ℕ) → h z d ≡ f z d + g z d)
    → Grows ns ks h
Grows-trans ns ms ks f g h a b e = record {
  lengths = b.lengths ∙ a.lengths;
  ids = λ z. b.ids z ∙ a.ids z;
  needs = λ z d. omega (arith, a.needs z d, b.needs z d, e z d);
  serves = λ z d. omega (arith, a.serves z d, b.serves z d, e z d);
}

-- What stands at each index once both ends of an edge know of it.
module _ (i parent : ℕ) (ns : List ExecutionNode) (here : i < length ns)
    (there : parent < length ns) where
  abbrev add_need : ExecutionNode → ExecutionNode
  add_need n = record n { dependencies = n.dependencies ++ (parent ∷ []) }

  abbrev add_serve : ExecutionNode → ExecutionNode
  add_serve n = record n { downstream = n.downstream ++ (i ∷ []) }

  abbrev linked : List ExecutionNode
  linked = change_at parent add_serve (change_at i add_need ns)

  linked-at :
      (z : ℕ)
      → at linked z ≡ (
          if parent == z
          then add_serve (if i == z then add_need (at ns z) else at ns z)
          else (if i == z then add_need (at ns z) else at ns z))
  linked-at z = rw (
    change_at-at parent add_serve (change_at i add_need ns) z
        (rw (change_at-length i add_need ns) there),
    change_at-at i add_need ns z here,
  )

  abbrev after : Bool → Bool → ExecutionNode → ExecutionNode
  after p q n = if p then add_serve (if q then add_need n else n) else (if q then add_need n else n)

  after-id : (p q : Bool) (n : ExecutionNode) → (after p q n).id ≡ n.id
  after-id true true n = refl
  after-id true false n = refl
  after-id false true n = refl
  after-id false false n = refl

  after-dependencies :
      (p q : Bool) (n : ExecutionNode) (d : ℕ)
      → count d (after p q n).dependencies
        ≡ count d n.dependencies + (if q then (if parent == d then 1 else 0) else 0)
  unfolding count
  after-dependencies true true n d = omega (arith, count-append d n.dependencies (parent ∷ []))
  after-dependencies true false n d = omega arith
  after-dependencies false true n d = omega (arith, count-append d n.dependencies (parent ∷ []))
  after-dependencies false false n d = omega arith

  after-downstream :
      (p q : Bool) (n : ExecutionNode) (z : ℕ)
      → count z (after p q n).downstream
        ≡ count z n.downstream + (if i == z then (if p then 1 else 0) else 0)
  unfolding count
  after-downstream true true n z = ground (arith, count-append z n.downstream (i ∷ []))
  after-downstream true false n z = ground (arith, count-append z n.downstream (i ∷ []))
  after-downstream false true n z = ground arith
  after-downstream false false n z = ground arith

  edge-Grows : Grows ns linked (λ z d. if i == z then (if parent == d then 1 else 0) else 0)
  unfolding count
  edge-Grows = record {
    lengths =
        change_at-length parent add_serve (change_at i add_need ns)
        ∙ change_at-length i add_need ns;
    ids = λ z. rw (linked-at z) (after-id (parent == z) (i == z) (at ns z));
    needs = λ z d. rw (linked-at z) (after-dependencies (parent == z) (i == z) (at ns z) d);
    serves = λ z d. rw (linked-at d) (after-downstream (parent == d) (i == d) (at ns d) z);
  }

pub link_dependencies-Grows :
    (indices : Text → ℕ) (i : ℕ) (ns : List ExecutionNode) (deps : List Text)
    → i < length ns
    → InRange indices (length ns) deps
    → Grows ns
        (link_dependencies indices i ns deps)
        (λ z d. if i == z then edges indices deps d else 0)
unfolding link_dependencies edges occ
link_dependencies-Grows indices i ns [] h k = record {
  lengths = refl;
  ids = λ z. refl;
  needs = λ z d. ground arith;
  serves = λ z d. ground arith;
}
link_dependencies-Grows indices i ns (dep ∷ deps) h k =
    let there = k dep (omega (arith, occ_self dep deps)) in
    let one = edge-Grows i (indices dep) ns h there in
    let mid = linked i (indices dep) ns h there in
    let rest =
      link_dependencies-Grows indices i mid deps (rw one.lengths h)
        (λ d m. rw one.lengths (k d (omega arith))) in
    Grows-trans ns mid (link_dependencies indices i mid deps)
      (λ z d. if i == z then (if indices dep == d then 1 else 0) else 0)
      (λ z d. if i == z then edges indices deps d else 0)
      (λ z d. if i == z then edges indices (dep ∷ deps) d else 0) one rest (λ z d. ground arith)
