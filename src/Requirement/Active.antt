-- ===== src/Requirement/Active.antt =====
-- validateNode of internal/requirement/evaluate.go never finds a node of a finite tree active.
use capagent.Base.{
  ◌≡◌, refl, ℕ, suc, ◌+◌, ◌<◌, ◌≤◌, ◌==◌, inl, inr, true, false, List, [], ◌∷◌, none, some,
  is_empty, arith, Bool-cases, ==_iff, is_empty, Text, All, ap,
}
use mathlib.Core.Path.{ap₂}
use capagent.Model.CapabilityId.{id_validate}
use capagent.Requirement.Node.{
  Pointer, Heap, valid, operators, children, is_active, validate_children, validate_node, max_depth,
  max_nodes,
}
use capagent.Requirement.Tree.{
  Tree, Trees, size, size_list, Represents, RepresentsAll, capability_node, all_node, any_node,
  not_node,
}

module _ (heap : Heap) {a b : ℕ} where
  all_same :
      {ps qs : List Pointer}
      → heap a ≡ all_node ps
      → heap b ≡ all_node qs
      → ◌≡◌ {A = Pointer} (some a) (some b)
      → ps ≡ qs
  all_same d e q = ground arith

  any_same :
      {ps qs : List Pointer}
      → heap a ≡ any_node ps
      → heap b ≡ any_node qs
      → ◌≡◌ {A = Pointer} (some a) (some b)
      → ps ≡ qs
  any_same d e q = ground arith

  not_same :
      {c d : ℕ}
      → heap a ≡ not_node c
      → heap b ≡ not_node d
      → ◌≡◌ {A = Pointer} (some a) (some b)
      → ◌≡◌ {A = Pointer} (some c) (some d)
  not_same d e q = ground arith

mutual
  unfolding size

  same_size :
      {heap : Heap} {p q : Pointer} {t u : Tree}
      → Represents heap p t
      → Represents heap q u
      → p ≡ q
      → size t ≡ size u
  same_size {heap} (Represents.capability_at e n) (Represents.capability_at e' n') q = refl
  same_size {heap} (Represents.capability_at e n) (Represents.all_at e' r') q =
      absurd (ground arith)
  same_size {heap} (Represents.capability_at e n) (Represents.any_at e' r') q =
      absurd (ground arith)
  same_size {heap} (Represents.capability_at e n) (Represents.negation_at e' r') q =
      absurd (ground arith)
  same_size {heap} (Represents.all_at e r) (Represents.capability_at e' n') q =
      absurd (ground arith)
  same_size {heap} (Represents.all_at e r) (Represents.all_at e' r') q =
      ap suc (same_size_all r r' (all_same heap e e' q))
  same_size {heap} (Represents.all_at e r) (Represents.any_at e' r') q = absurd (ground arith)
  same_size {heap} (Represents.all_at e r) (Represents.negation_at e' r') q = absurd (ground arith)
  same_size {heap} (Represents.any_at e r) (Represents.capability_at e' n') q =
      absurd (ground arith)
  same_size {heap} (Represents.any_at e r) (Represents.all_at e' r') q = absurd (ground arith)
  same_size {heap} (Represents.any_at e r) (Represents.any_at e' r') q =
      ap suc (same_size_all r r' (any_same heap e e' q))
  same_size {heap} (Represents.any_at e r) (Represents.negation_at e' r') q = absurd (ground arith)
  same_size {heap} (Represents.negation_at e r) (Represents.capability_at e' n') q =
      absurd (ground arith)
  same_size {heap} (Represents.negation_at e r) (Represents.all_at e' r') q = absurd (ground arith)
  same_size {heap} (Represents.negation_at e r) (Represents.any_at e' r') q = absurd (ground arith)
  same_size {heap} (Represents.negation_at e r) (Represents.negation_at e' r') q =
      ap suc (same_size r r' (not_same heap e e' q))

  same_size_all :
      {heap : Heap} {ps qs : List Pointer} {ts us : Trees}
      → RepresentsAll heap ps ts
      → RepresentsAll heap qs us
      → ps ≡ qs
      → size_list ts ≡ size_list us
  same_size_all RepresentsAll.nil_at RepresentsAll.nil_at q = refl
  same_size_all RepresentsAll.nil_at (RepresentsAll.cons_at r rs) q = absurd (cc)
  same_size_all (RepresentsAll.cons_at r rs) RepresentsAll.nil_at q = absurd (cc)
  same_size_all (RepresentsAll.cons_at r rs) (RepresentsAll.cons_at r' rs') q =
      ap₂ ◌+◌ (same_size r r' (ground arith)) (same_size_all rs rs' (ground arith))

-- Each node that is active holds more than `n` nodes below it and with it.
unfoldable pub Above : Heap → ℕ → List ℕ → Type 0
Above heap n active = All (λ b. (u : Tree) × Represents heap (some b) u × (n < size u)) active

Above-le :
    (heap : Heap) (m n : ℕ) (active : List ℕ) → m ≤ n → Above heap n active → Above heap m active
unfolding Above
Above-le heap m n [] h above = tt
Above-le heap m n (b ∷ bs) h above =
    ((above.0.0, above.0.1, omega (arith, above.0.2)), Above-le heap m n bs h above.1)

-- So no active node is met again.
pub not_active :
    (heap : Heap) (a : ℕ) (t : Tree) (active : List ℕ)
    → Represents heap (some a) t
    → Above heap (size t) active
    → is_active active a ≡ false
unfolding is_active Above
not_active heap a t [] r above = refl
not_active heap a t (b ∷ bs) r above = elim (Bool-cases (b == a)) [
  | inl e ↦
      let (u, s, larger) = above.0 in
      let same : size u ≡ size t = same_size s r (ap some ((==_iff b a).0 e)) in
      absurd (omega arith)
  | inr e ↦ rw e (not_active heap a t bs r above.1)
]

module _ (fuel : ℕ) (heap : Heap) (a level before : ℕ) (active : List ℕ) (low : level ≤ max_depth)
    (few : before + 1 ≤ max_nodes) (fresh : is_active active a ≡ false) where
  pub step_leaf :
      {id : Text}
      → heap a ≡ capability_node id
      → is_empty id ≡ false
      → id_validate id ≡ none
      → validate_node (suc fuel) heap (some a) level before active ≡ valid (before + 1)
  unfolding validate_node
  step_leaf e full ok = rw e (ground arith)

  pub step_below :
      (ps : List Pointer)
      → is_empty (heap a).capability ≡ true
      → operators (heap a) ≡ 1
      → children (heap a) ≡ ps
      → validate_node (suc fuel) heap (some a) level before active
        ≡ validate_children
            (λ child n. validate_node fuel heap child (level + 1) n (a ∷ active))
            ps
            (before + 1)
  unfolding validate_node
  step_below ps e one q = rw (← q) (ground arith)

-- The active nodes and the current one, for a child that is smaller.
pub Above-cons :
    (heap : Heap) (a : ℕ) (t : Tree) (n : ℕ) (active : List ℕ)
    → Represents heap (some a) t
    → n < size t
    → Above heap (size t) active
    → Above heap n (a ∷ active)
unfolding Above
Above-cons heap a t n active r h above =
    ((t, r, h), Above-le heap n (size t) active (omega arith) above)

-- A check of one pointer accepts every tree of at most `most` nodes within the limits.
