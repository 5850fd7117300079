-- ===== src/Orchestrator/CompileNodes.antt =====
-- The nodes and the indices of a whole plan, as compilePlan of internal/probe/registry.go lays them out.
use capagent.Base.{
  ℕ, zero, suc, ◌+◌, ◌≤◌, ◌<◌, ◌==◌, ◌≡◌, Text, List, [], ◌∷◌, Option, some, occ, occ_self,
  if◌then◌else◌, length, get_elem?, refl, arith, Bool-cases, inl, inr, text_eq, text_eq→eq, true,
  false, ◌∙◌, ap, fun_ext, IsDistinct, text_eq_refl,
}
use capagent.Graph.Kahn.{Links, update}
use capagent.Probe.Execution.{
  Probe, ExecutionNode, ExecutionPlan, change_at, link_dependencies, compile_nodes, blank, blanks,
}
use capagent.Orchestrator.Counting.{count}
use capagent.Orchestrator.Compile.{
  at, change_at-length, change_at-at, edges, gain, InRange, link_dependencies-Grows,
}

-- The names of the nodes once the IDs `ids` stand from index `i` on.
unfoldable pub named : ℕ → List Text → (ℕ → Text) → ℕ → Text
named i [] names = names
named i (id ∷ ids) names = named (i + 1) ids (λ z. if i == z then id else names z)

-- A node after the loop has given the node `i` its ID and probe.
abbrev title : (Text → Option Probe) → ℕ → Text → ℕ → ExecutionNode → ExecutionNode
title probes i id z n = if i == z then (record n { id = id; probe = probes id }) else n

module _ (probes : Text → Option Probe) (i : ℕ) (id : Text) (z : ℕ) (n : ExecutionNode) where
  title-id : (title probes i id z n).id ≡ (if i == z then id else n.id)
  title-id = elim (Bool-cases (i == z)) [ inl e ↦ rw e | inr e ↦ rw e ]

  title-count :
      (f : ExecutionNode → ℕ)
      → ((m : ExecutionNode) → f (record m { id = id; probe = probes id }) ≡ f m)
      → f (title probes i id z n) ≡ f n
  title-count f h = elim (Bool-cases (i == z)) [ inl e ↦ rw e (h n) | inr e ↦ rw e ]

-- Lists of nodes before and after the IDs `ids` are laid out from index `i` on.
pub record Compiled (indices : Text → ℕ) (deps : Links) (i : ℕ) (ids : List Text)
    (ns ms : List ExecutionNode) : Type 0 where
  pub lengths : length ms ≡ length ns
  pub names : (z : ℕ) → (at ms z).id ≡ named i ids (λ w. (at ns w).id) z
  pub needs :
      (z d : ℕ)
      → count d (at ms z).dependencies
        ≡ count d (at ns z).dependencies + gain indices deps i ids z d
  pub serves :
      (z d : ℕ)
      → count z (at ms d).downstream ≡ count z (at ns d).downstream + gain indices deps i ids z d

module _ (probes : Text → Option Probe) (deps : Links) (indices : Text → ℕ) where
  pub compile_nodes-Compiled :
      (i : ℕ) (ids : List Text) (plan : ExecutionPlan)
      → i + length ids ≤ length plan.nodes
      → ((id : Text) → 0 < occ id ids → InRange indices (length plan.nodes) (deps id))
      → Compiled indices deps i ids plan.nodes (compile_nodes probes deps indices i ids plan).nodes
  unfolding compile_nodes gain named occ
  compile_nodes-Compiled i [] plan h k = record {
    lengths = refl;
    names = λ z. refl;
    needs = λ z d. omega arith;
    serves = λ z d. omega arith;
  }
  compile_nodes-Compiled i (id ∷ ids) plan h k =
      let name : ExecutionNode → ExecutionNode = λ n. record n { id = id; probe = probes id } in
      let titled = change_at i name plan.nodes in
      let same = change_at-length i name plan.nodes in
      let titled-at : (z : ℕ) → at titled z ≡ title probes i id z (at plan.nodes z) =
        λ z. change_at-at i name plan.nodes z (omega arith) in
      let edge =
        link_dependencies-Grows indices i titled (deps id) (omega arith)
          (rw same (k id (omega (arith, occ_self id ids)))) in
      let full = edge.lengths ∙ same in
      let rest =
        compile_nodes-Compiled (i + 1) ids
          (record {
            nodes = link_dependencies indices i titled (deps id);
            indices = update plan.indices id i;
          })
          (omega arith) (λ x m. rw full (k x (omega arith))) in
      record {
        lengths = rest.lengths ∙ full;
        names = λ z.
            rest.names z
            ∙ ap (λ f. named (i + 1) ids f z)
                (fun_ext (λ w.
                  edge.ids w
                  ∙ ap (λ n. n.id) (titled-at w)
                  ∙ title-id probes i id w (at plan.nodes w)));
        needs = λ z d.
            let same_needs =
              ap (λ n. count d n.dependencies) (titled-at z)
              ∙ title-count probes i id z (at plan.nodes z) (λ n. count d n.dependencies)
                  (λ m. refl) in
            omega (arith, rest.needs z d, edge.needs z d);
        serves = λ z d.
            let same_serves =
              ap (λ n. count z n.downstream) (titled-at d)
              ∙ title-count probes i id d (at plan.nodes d) (λ n. count z n.downstream)
                  (λ m. refl) in
            omega (arith, rest.serves z d, edge.serves z d);
      }

  -- The loop changes the index of no other ID.
  compile_nodes-other :
      (i : ℕ) (ids : List Text) (plan : ExecutionPlan) (x : Text)
      → occ x ids ≡ 0
      → (compile_nodes probes deps indices i ids plan).indices x ≡ plan.indices x
  unfolding compile_nodes occ
  compile_nodes-other i [] plan x h = refl
  compile_nodes-other i (id ∷ ids) plan x h =
      let other : text_eq id x ≡ false = ground arith in
      compile_nodes-other (i + 1) ids _ x (omega arith) ∙ rw other

  pub compile_nodes-indices :
      (i k : ℕ) (ids : List Text) (plan : ExecutionPlan) (x : Text)
      → IsDistinct ids
      → get_elem? ids k ≡ some x
      → (compile_nodes probes deps indices i ids plan).indices x ≡ i + k
  unfolding compile_nodes occ
  compile_nodes-indices i k [] plan x d h = absurd (ground arith)
  compile_nodes-indices i zero (id ∷ ids) plan x d h =
      let same : id ≡ x = ground arith in
      let e : text_eq id x ≡ true = rw same (text_eq_refl x) in
      compile_nodes-other (i + 1) ids _ x (omega (arith, rw e at (d x))) ∙ rw e (omega arith)
  compile_nodes-indices i (suc k) (id ∷ ids) plan x d h =
      compile_nodes-indices (i + 1) k ids _ x (λ z. omega (arith, d z)) h ∙ omega arith

-- A name that no later ID takes.
named-before :
    (i : ℕ) (ids : List Text) (names : ℕ → Text) (z : ℕ) → z < i → named i ids names z ≡ names z
unfolding named
named-before i [] names z h = refl
named-before i (id ∷ ids) names z h = named-before (i + 1) ids _ z (omega arith) ∙ ground arith

pub named-at :
    (i : ℕ) (ids : List Text) (names : ℕ → Text) (k j : ℕ) (x : Text)
    → i + k ≡ j
    → get_elem? ids k ≡ some x
    → named i ids names j ≡ x
unfolding named
named-at i [] names k j x e h = absurd (ground arith)
named-at i (id ∷ ids) names zero j x e h = named-before (i + 1) ids _ j (omega arith) ∙ ground arith
named-at i (id ∷ ids) names (suc k) j x e h = named-at (i + 1) ids _ k j x (omega arith) h

edges-found :
    (indices : Text → ℕ) (deps : List Text) (d : ℕ)
    → 0 < edges indices deps d
    → (dep : Text) × (0 < occ dep deps) × (indices dep ≡ d)
unfolding edges occ
edges-found indices [] d h = absurd (omega arith)
edges-found indices (dep ∷ deps) d h = elim (Bool-cases (indices dep == d)) [
  | inl e ↦ (dep, omega (arith, occ_self dep deps), ground arith)
  | inr e ↦ let (x, m, there) = edges-found indices deps d (ground arith) in (x, omega arith, there)
]

-- Each edge stands for a dependency of the ID at its start.
pub gain-found :
    (indices : Text → ℕ) (deps : Links) (i : ℕ) (ids : List Text) (z d : ℕ)
    → 0 < gain indices deps i ids z d
    → (k : ℕ) × (id : Text) × (dep : Text) × (z ≡ i + k)
      × (get_elem? ids k ≡ some id)
      × (0 < occ dep (deps id))
      × (indices dep ≡ d)
unfolding gain
gain-found indices deps i [] z d h = absurd (omega arith)
gain-found indices deps i (id ∷ ids) z d h = elim (Bool-cases (i == z)) [
  | inl e ↦ elim (Bool-cases (0 == edges indices (deps id) d)) [
    | inl q ↦
        let (k, x, dep, at_k, found, m, there) =
          gain-found indices deps (i + 1) ids z d (ground arith) in
        (suc k, x, dep, omega arith, found, m, there)
    | inr q ↦
        let (dep, m, there) = edges-found indices (deps id) d (ground arith) in
        (0, id, dep, ground arith, refl, m, there)
  ]
  | inr e ↦
      let (k, x, dep, at_k, found, m, there) =
        gain-found indices deps (i + 1) ids z d (ground arith) in
      (suc k, x, dep, omega arith, found, m, there)
]

edges-found_all :
    (indices : Text → ℕ) (deps : List Text) (dep : Text)
    → 0 < occ dep deps
    → 0 < edges indices deps (indices dep)
unfolding edges occ
edges-found_all indices [] dep h = absurd (omega arith)
edges-found_all indices (x ∷ deps) dep h = elim (Bool-cases (text_eq x dep)) [
  | inl e ↦ let same = ap indices (text_eq→eq x dep e) in ground arith
  | inr e ↦ let rest = edges-found_all indices deps dep (ground arith) in omega arith
]

-- Each dependency of an ID has its edge.
pub gain-found_all :
    (indices : Text → ℕ) (deps : Links) (i : ℕ) (ids : List Text) (k z : ℕ) (id dep : Text)
    → i + k ≡ z
    → get_elem? ids k ≡ some id
    → 0 < occ dep (deps id)
    → 0 < gain indices deps i ids z (indices dep)
unfolding gain
gain-found_all indices deps i [] k z id dep e h m = absurd (ground arith)
gain-found_all indices deps i (x ∷ ids) zero z id dep e h m =
    let same : x ≡ id = ground arith in
    let found : 0 < edges indices (deps x) (indices dep) =
      rw same (edges-found_all indices (deps id) dep m) in
    ground arith
gain-found_all indices deps i (x ∷ ids) (suc k) z id dep e h m =
    let rest = gain-found_all indices deps (i + 1) ids k z id dep (omega arith) h m in omega arith

pub blanks-length : (ids : List Text) → length (blanks ids) ≡ length ids
unfolding blanks
blanks-length [] = refl
blanks-length (id ∷ ids) = ap suc (blanks-length ids)

pub blanks-at : (ids : List Text) (z : ℕ) → at (blanks ids) z ≡ blank
unfolding blanks
blanks-at [] z = refl
blanks-at (id ∷ ids) zero = refl
blanks-at (id ∷ ids) (suc z) = blanks-at ids z
