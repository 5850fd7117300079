-- ===== src/Requirement/Completeness.antt =====
-- validateNode accepts every tree within the limits, however its nodes are shared.
use capagent.Base.{
  ◌∙◌, ◌≡◌, refl, ℕ, zero, suc, ◌+◌, ◌≤◌, true, List, [], ◌∷◌, some, is_empty, arith, is_empty, ap,
}
use capagent.Requirement.Node.{
  Pointer, Heap, Checked, valid, operators, children, validate_children, validate_node, validate,
  max_depth, max_nodes, enough_fuel,
}
use capagent.Requirement.Tree.{
  Tree, Trees, size, size_list, depth, depth_list, IsNamed, AreNamed, Represents, RepresentsAll,
}
use capagent.Requirement.Active.{step_below, step_leaf, Above, Above-cons, not_active}

-- A heap holds one node at an address, so it determines what stands below.
abbrev Complete : Heap → ℕ → ℕ → ℕ → (Pointer → ℕ → Checked) → Type 0
Complete heap fuel level most check =
    (p : Pointer) (t : Tree) (before : ℕ)
    → Represents heap p t
    → IsNamed t
    → level + depth t ≤ max_depth + 1
    → before + size t ≤ max_nodes
    → depth t ≤ fuel
    → size t ≤ most
    → check p before ≡ valid (before + size t)

accepts_children :
    (heap : Heap) (fuel level most : ℕ) (check : Pointer → ℕ → Checked)
    → Complete heap fuel level most check
    → {ps : List Pointer} {ts : Trees} (before : ℕ) → RepresentsAll heap ps ts
    → AreNamed ts
    → level + depth_list ts ≤ max_depth + 1
    → before + size_list ts ≤ max_nodes
    → depth_list ts ≤ fuel
    → size_list ts ≤ most
    → validate_children check ps before ≡ valid (before + size_list ts)
unfolding validate_children size depth
accepts_children heap fuel level most check complete before RepresentsAll.nil_at vs low few enough
      small =
    ap valid (omega arith)
accepts_children heap fuel level most check complete before
      (RepresentsAll.cons_at {p = p} {t = t} {ts = ts} r rs) (AreNamed.cons_named v vs) low few
      enough small =
    rw
      (
        complete p t before r v (omega arith) (omega arith) (omega arith) (omega arith),
        validate_children,
      )
      (accepts_children heap fuel level most check complete (before + size t) rs vs (omega arith)
          (omega arith) (omega arith) (omega arith)
        ∙ ap valid (omega arith))

-- The step from the children of a node to the node, for its three forms that have children.
module _ (heap : Heap) (fuel level before a : ℕ) (active : List ℕ) {ps : List Pointer} {ts : Trees}
    (t : Tree) (whole : Represents heap (some a) t) (rs : RepresentsAll heap ps ts)
    (vs : AreNamed ts) where
  accepts_below :
      is_empty (heap a).capability ≡ true
      → operators (heap a) ≡ 1
      → children (heap a) ≡ ps
      → size t ≡ suc (size_list ts)
      → depth t ≡ suc (depth_list ts)
      → level + depth t ≤ max_depth + 1
      → before + size t ≤ max_nodes
      → depth t ≤ suc fuel
      → Above heap (size t) active
      → ((p : Pointer) (u : Tree) (n : ℕ)
          → Represents heap p u
          → IsNamed u
          → level + 1 + depth u ≤ max_depth + 1
          → n + size u ≤ max_nodes
          → depth u ≤ fuel
          → Above heap (size u) (a ∷ active)
          → validate_node fuel heap p (level + 1) n (a ∷ active) ≡ valid (n + size u))
      → validate_node (suc fuel) heap (some a) level before active ≡ valid (before + size t)
  accepts_below e one q sizes depths low few enough above self =
      step_below fuel heap a level before active (omega arith) (omega arith)
        (not_active heap a t active whole above) ps e one q
      ∙ accepts_children heap fuel (level + 1) (size_list ts) _
          (λ p u n r v l f g small.
            self p u n r v l f g (Above-cons heap a t (size u) active whole (omega arith) above))
          (before + 1) rs vs (omega arith) (omega arith) (omega arith) (omega arith)
      ∙ ap valid (omega arith)

accepts_tree :
    {heap : Heap} {p : Pointer} {t : Tree} (fuel level before : ℕ) (active : List ℕ)
    → Represents heap p t
    → IsNamed t
    → level + depth t ≤ max_depth + 1
    → before + size t ≤ max_nodes
    → depth t ≤ fuel
    → Above heap (size t) active
    → validate_node fuel heap p level before active ≡ valid (before + size t)
unfolding size depth operators children
accepts_tree zero level before active (Represents.capability_at e full) v low few enough above =
    absurd (omega arith)
accepts_tree zero level before active (Represents.all_at e rs) v low few enough above =
    absurd (omega arith)
accepts_tree zero level before active (Represents.any_at e rs) v low few enough above =
    absurd (omega arith)
accepts_tree zero level before active (Represents.negation_at e r) v low few enough above =
    absurd (omega arith)
accepts_tree {heap} (suc fuel) level before active
      (Represents.capability_at {a = a} {id = id} e full) (IsNamed.named ok) low few enough above =
    step_leaf fuel heap a level before active (omega arith) (omega arith)
      (not_active heap a (Tree.capability id) active (Represents.capability_at e full) above) e full
      ok
accepts_tree {heap} (suc fuel) level before active (Represents.all_at {a = a} e rs)
      (IsNamed.all_named vs) low few enough above =
    accepts_below heap fuel level before a active _ (Represents.all_at e rs) rs vs
      (ap (λ n. is_empty n.capability) e) (ap operators e) (ap children e) refl refl low few enough
      above (λ p u n r v l f g h. accepts_tree fuel (level + 1) n (a ∷ active) r v l f g h)
accepts_tree {heap} (suc fuel) level before active (Represents.any_at {a = a} e rs)
      (IsNamed.any_named vs) low few enough above =
    accepts_below heap fuel level before a active _ (Represents.any_at e rs) rs vs
      (ap (λ n. is_empty n.capability) e) (ap operators e) (ap children e) refl refl low few enough
      above (λ p u n r v l f g h. accepts_tree fuel (level + 1) n (a ∷ active) r v l f g h)
accepts_tree {heap} (suc fuel) level before active (Represents.negation_at {a = a} e r)
      (IsNamed.negation_named v) low few enough above =
    accepts_below heap fuel level before a active _ (Represents.negation_at e r)
      (RepresentsAll.cons_at r RepresentsAll.nil_at) (AreNamed.cons_named v AreNamed.nil_named)
      (ap (λ n. is_empty n.capability) e) (ap operators e) (ap children e) (omega arith)
      (omega arith) low few enough above
      (λ p u n r v l f g h. accepts_tree fuel (level + 1) n (a ∷ active) r v l f g h)

-- validate accepts every finite tree of 512 nodes and depth 32 at most whose leaves are valid
-- capability IDs, and counts its nodes, whatever nodes the tree shares.
pub validate_complete :
    (heap : Heap) (root : Pointer) (t : Tree)
    → Represents heap root t
    → IsNamed t
    → size t ≤ max_nodes
    → depth t ≤ max_depth
    → validate heap root ≡ valid (size t)
unfolding validate Above
validate_complete heap root t r v few low =
    accepts_tree enough_fuel 1 0 [] r v (omega arith) (omega arith) (omega arith) tt
    ∙ ap valid (omega arith)
