-- ===== src/Requirement/Soundness.antt =====
-- What validateNode accepts: finite trees within the limits, with valid capability IDs.
use capagent.Base.{
  ap, ◌≡◌, ℕ, zero, suc, ◌+◌, ◌≤◌, inl, inr, true, List, [], ◌∷◌, none, some, is_empty, arith,
  is_empty,
}
use capagent.Requirement.Node.{
  Pointer, Heap, Checked, valid, children, validate_children, validate_node, validate, max_depth,
  max_nodes, enough_fuel,
}
use capagent.Requirement.Tree.{Tree, size, depth, IsNamed, Represents}
use capagent.Requirement.Accepting.{
  Accepts, AreDocuments, Form, IsDocument, Sound, accepts, form_of, validate_children-Sound,
  validate_children-cons,
}

-- What is found below a pointer that stands at a depth, where the count goes from `before` to `after`.
module _ (heap : Heap) (fuel a level before after : ℕ) (active : List ℕ)
    (acc : Accepts fuel heap a level before after active)
    (sound : (active' : List ℕ) (level' : ℕ)
      → Sound heap level' (λ p n. validate_node fuel heap p level' n active')) where
  below :
      (is_empty (heap a).capability ≡ true)
      → (ps : List Pointer) → children (heap a) ≡ ps
      → AreDocuments heap ps (level + 1) (before + 1) after
  below e ps q = elim acc.rest [
    | inl (full, _, _) ↦ absurd (cc)
    | inr (_, v) ↦
        validate_children-Sound heap (level + 1) _ (sound (a ∷ active) (level + 1)) ps (before + 1)
          after (rw q at v)
  ]

  only_child :
      (b : ℕ)
      → is_empty (heap a).capability ≡ true
      → children (heap a) ≡ some b ∷ []
      → IsDocument heap (some b) (level + 1) (before + 1) after
  unfolding validate_children
  only_child b e q = elim acc.rest [
    | inl (full, _, _) ↦ absurd (cc)
    | inr (_, v) ↦
        let check : Pointer → ℕ → Checked =
          λ child n. validate_node fuel heap child (level + 1) n (a ∷ active) in
        let (n, first, later) =
          validate_children-cons check (some b) [] (before + 1) after (rw q at v) in
        let same : n ≡ after = ground arith in
        rw same at (sound (a ∷ active) (level + 1) (some b) (before + 1) n first)
  ]

  IsDocument-of : Form (heap a) → IsDocument heap (some a) level before after
  unfolding children size depth
  IsDocument-of (Form.capability id e full) = record {
    tree = Tree.capability id;
    represents = Represents.capability_at e full;
    named = IsNamed.named (ground (arith, acc.rest));
    counted = ground (arith, acc.rest);
    within = ground (arith, acc.rest, acc.count_ok);
    shallow = omega (arith, acc.level_ok);
  }
  IsDocument-of (Form.all ps e) =
      let d = below (ap (λ n. is_empty n.capability) e) ps (ap children e) in
      record {
        tree = Tree.all d.trees;
        represents = Represents.all_at e d.represents;
        named = IsNamed.all_named d.named;
        counted = omega (arith, d.counted);
        within = d.within acc.count_ok;
        shallow = omega (arith, d.shallow (omega (arith, acc.level_ok)));
      }
  IsDocument-of (Form.any ps e) =
      let d = below (ap (λ n. is_empty n.capability) e) ps (ap children e) in
      record {
        tree = Tree.any d.trees;
        represents = Represents.any_at e d.represents;
        named = IsNamed.any_named d.named;
        counted = omega (arith, d.counted);
        within = d.within acc.count_ok;
        shallow = omega (arith, d.shallow (omega (arith, acc.level_ok)));
      }
  IsDocument-of (Form.negation b e) =
      let d = only_child b (ap (λ n. is_empty n.capability) e) (ap children e) in
      record {
        tree = Tree.negation d.tree;
        represents = Represents.negation_at e d.represents;
        named = IsNamed.negation_named d.named;
        counted = omega (arith, d.counted);
        within = d.within;
        shallow = omega (arith, d.shallow);
      }

validate_node_sound :
    (fuel : ℕ) (heap : Heap) (p : Pointer) (level before after : ℕ) (active : List ℕ)
    → validate_node fuel heap p level before active ≡ valid after
    → IsDocument heap p level before after
unfolding validate_node
validate_node_sound zero heap p level before after active h = absurd (cc)
validate_node_sound (suc fuel) heap none level before after active h = absurd (cc)
validate_node_sound (suc fuel) heap (some a) level before after active h =
    let acc = accepts fuel heap a level before after active h in
    IsDocument-of heap fuel a level before after active acc
      (λ active' level' p b c. validate_node_sound fuel heap p level' b c active')
      (form_of (heap a).capability (heap a).all (heap a).any (heap a).negated acc.one)

-- validate accepts only finite trees: of 512 nodes and depth 32 at most, each node with one operator,
-- each leaf a valid capability ID; and the count that it keeps is the number of nodes.
pub validate_sound :
    (heap : Heap) (root : Pointer) (n : ℕ)
    → validate heap root ≡ valid n
    → (t : Tree) × Represents heap root t
      × IsNamed t
      × (n ≡ size t)
      × (size t ≤ max_nodes)
      × (depth t ≤ max_depth)
unfolding validate
validate_sound heap root n h =
    let d = validate_node_sound enough_fuel heap root 1 0 n [] h in
    (
      d.tree,
      d.represents,
      d.named,
      omega (arith, d.counted),
      omega (arith, d.counted, d.within),
      omega (arith, d.shallow),
    )
