-- ===== src/Requirement/Accepting.antt =====
-- What validateNode and validateChildren of internal/requirement/evaluate.go accept, one step at a time.
use capagent.Base.{
  ◌≡◌, refl, ℕ, suc, ◌+◌, ◌≤◌, ◌⊎◌, inl, inr, true, false, List, [], ◌∷◌, Option, none, some,
  is_empty, arith, Bool-cases, is_empty, Text,
}
use capagent.Model.CapabilityId.{id_validate}
use capagent.Model.Errors.{Error}
use capagent.Requirement.Node.{
  Pointer, Node, Heap, Checked, valid, invalid, operators, children, is_active, validate_children,
  validate_node, max_depth, max_nodes,
}
use capagent.Requirement.Tree.{
  Tree, Trees, size, size_list, depth, depth_list, IsNamed, AreNamed, Represents, RepresentsAll,
  capability_node, all_node, any_node, not_node,
}

pub record IsDocument (heap : Heap) (p : Pointer) (level before after : ℕ) : Type 0 where
  pub tree : Tree
  pub represents : Represents heap p tree
  pub named : IsNamed tree
  pub counted : after ≡ before + size tree
  pub within : after ≤ max_nodes
  pub shallow : level + depth tree ≤ max_depth + 1

pub record AreDocuments (heap : Heap) (ps : List Pointer) (level before after : ℕ) : Type 0 where
  pub trees : Trees
  pub represents : RepresentsAll heap ps trees
  pub named : AreNamed trees
  pub counted : after ≡ before + size_list trees
  pub within : before ≤ max_nodes → after ≤ max_nodes
  pub shallow : level ≤ max_depth + 1 → level + depth_list trees ≤ max_depth + 1

-- The four ways in which a node has exactly one operator.
pub data Form (node : Node) : Type 0 where
  capability : (id : Text) → node ≡ capability_node id → is_empty id ≡ false → Form node
  all : (ps : List Pointer) → node ≡ all_node ps → Form node
  any : (ps : List Pointer) → node ≡ any_node ps → Form node
  negation : (a : ℕ) → node ≡ not_node a → Form node

pub form_of :
    (c : Text) (l m : Option (List Pointer)) (n : Pointer)
    → operators (record { capability = c; all = l; any = m; negated = n }) ≡ 1
    → Form (record { capability = c; all = l; any = m; negated = n })
unfolding operators
form_of [] none none none h = absurd (omega arith)
form_of (x ∷ c) none none none h = Form.capability (x ∷ c) refl refl
form_of [] (some ps) none none h = Form.all ps refl
form_of (x ∷ c) (some ps) none none h = absurd (omega arith)
form_of [] none (some ps) none h = Form.any ps refl
form_of (x ∷ c) none (some ps) none h = absurd (omega arith)
form_of [] none none (some a) h = Form.negation a refl
form_of (x ∷ c) none none (some a) h = absurd (omega arith)
form_of [] (some l) (some m) n h = absurd (omega arith)
form_of (x ∷ c) (some l) (some m) n h = absurd (omega arith)
form_of [] none (some m) (some a) h = absurd (omega arith)
form_of (x ∷ c) none (some m) (some a) h = absurd (omega arith)
form_of [] (some l) none (some a) h = absurd (omega arith)
form_of (x ∷ c) (some l) none (some a) h = absurd (omega arith)

-- What a successful check of a node says of it.
pub record Accepts (fuel : ℕ) (heap : Heap) (a level before after : ℕ) (active : List ℕ)
    : Type 0 where
  pub level_ok : level ≤ max_depth
  pub count_ok : before + 1 ≤ max_nodes
  pub fresh : is_active active a ≡ false
  pub one : operators (heap a) ≡ 1
  pub rest :
      (is_empty (heap a).capability ≡ false)
        × (id_validate (heap a).capability ≡ none)
        × (after ≡ before + 1)
      ⊎ (is_empty (heap a).capability ≡ true)
        × (validate_children
              (λ child n. validate_node fuel heap child (level + 1) n (a ∷ active))
              (children (heap a))
              (before + 1)
            ≡ valid after)

pub accepts :
    (fuel : ℕ) (heap : Heap) (a level before after : ℕ) (active : List ℕ)
    → validate_node (suc fuel) heap (some a) level before active ≡ valid after
    → Accepts fuel heap a level before after active
unfolding validate_node
accepts fuel heap a level before after active h = record {
  level_ok = ground arith;
  count_ok = ground arith;
  fresh = ground arith;
  one = ground arith;
  rest = elim (Bool-cases (is_empty (heap a).capability)) [
    | inl e ↦ inr (e, ground arith)
    | inr e ↦ inl (e, ground arith, ground arith)
  ];
}

pub Checked-cases : (r : Checked) → ((n : ℕ) × (r ≡ valid n)) ⊎ ((e : Error) × (r ≡ invalid e))
Checked-cases (valid n) = inl (n, refl)
Checked-cases (invalid e) = inr (e, refl)

-- A loop that succeeds has checked its first child, and goes on with that count.
pub validate_children-cons :
    (check : Pointer → ℕ → Checked) (p : Pointer) (ps : List Pointer) (before after : ℕ)
    → validate_children check (p ∷ ps) before ≡ valid after
    → (n : ℕ) × (check p before ≡ valid n) × (validate_children check ps n ≡ valid after)
unfolding validate_children
validate_children-cons check p ps before after h = elim (Checked-cases (check p before)) [
  | inl (n, q) ↦ (n, q, ground arith)
  | inr (e, q) ↦ absurd (ground arith)
]

-- Whatever a check of one pointer accepts is a document.
abbrev pub Sound : Heap → ℕ → (Pointer → ℕ → Checked) → Type 0
Sound heap level check =
    (p : Pointer) (before after : ℕ)
    → check p before ≡ valid after
    → IsDocument heap p level before after

pub validate_children-Sound :
    (heap : Heap) (level : ℕ) (check : Pointer → ℕ → Checked)
    → Sound heap level check
    → (ps : List Pointer) (before after : ℕ) → validate_children check ps before ≡ valid after
    → AreDocuments heap ps level before after
unfolding validate_children size depth
validate_children-Sound heap level check sound [] before after h = record {
  trees = Trees.nil;
  represents = RepresentsAll.nil_at;
  named = AreNamed.nil_named;
  counted = ground arith;
  within = ground arith;
  shallow = λ k. omega arith;
}
validate_children-Sound heap level check sound (p ∷ ps) before after h =
    let (n, q, later) = validate_children-cons check p ps before after h in
    let one = sound p before n q in
    let more = validate_children-Sound heap level check sound ps n after later in
    record {
      trees = Trees.cons one.tree more.trees;
      represents = RepresentsAll.cons_at one.represents more.represents;
      named = AreNamed.cons_named one.named more.named;
      counted = omega (arith, one.counted, more.counted);
      within = λ k. more.within one.within;
      shallow = λ k. omega (arith, one.shallow, more.shallow k);
    }
