-- ===== src/Requirement/Node.antt =====
-- Node, Validate and validateNode of internal/requirement/evaluate.go. Nodes are linked by pointers,
-- may be shared and may form cycles, so a document is a heap: an address for each node. A pointer
-- that is not nil leads to a node, as Go guarantees.
use capagent.Base.{
  ℕ, zero, suc, ◌+◌, ◌==◌, ltb, if◌then◌else◌, Bool, true, false, not, ◌||◌, List, [], ◌∷◌, Option,
  none, some, is_empty,
}
use capagent.Model.Errors.{
  Error, nil_node, size_limit, cyclic_document, not_one_operator, out_of_fuel,
}
use capagent.Model.CapabilityId.{CapabilityId, id_validate}

-- A `*Node`; nil is `none`.
abbrev pub Pointer : Type 0
Pointer = Option ℕ

-- A nil slice is `none`, and an empty one `some []`.
pub record Node : Type 0 where
  pub capability : CapabilityId
  pub all : Option (List Pointer)
  pub any : Option (List Pointer)
  pub negated : Pointer

abbrev pub Heap : Type 0
Heap = ℕ → Node

abbrev pub max_depth : ℕ
max_depth = 32

abbrev pub max_nodes : ℕ
max_nodes = 512

-- The value of `*count` when validateNode returns nil, or the error that it returns.
pub data Checked : Type 0 where
  valid : ℕ → Checked
  invalid : Error → Checked

-- `x != nil`.
abbrev pub present {ℓ} : {A : Type ℓ} → Option A → Bool
present none = false
present (some x) = true

abbrev add_if : Bool → ℕ → ℕ
add_if true n = suc n
add_if false n = n

-- The loop that counts the operators of a node.
unfoldable pub operators : Node → ℕ
operators node =
    add_if (not (is_empty node.capability))
      (add_if (present node.all) (add_if (present node.any) (add_if (present node.negated) 0)))

abbrev pub slice : Option (List Pointer) → List Pointer
slice none = []
slice (some ps) = ps

-- `children`, as the two conditional assignments leave it.
unfoldable pub children : Node → List Pointer
children node =
    if present node.negated
    then node.negated ∷ []
    else if present node.any
    then slice node.any
    else slice node.all

-- `active[node]`.
unfoldable pub is_active : List ℕ → ℕ → Bool
is_active [] a = false
is_active (b ∷ bs) a = b == a || is_active bs a

-- The loop over the children, for the check of one child.
unfoldable pub validate_children : (Pointer → ℕ → Checked) → List Pointer → ℕ → Checked
validate_children check [] count = valid count
validate_children check (p ∷ ps) count = elim (check p count) [
  | valid n ↦ validate_children check ps n
  | invalid e ↦ invalid e
]

-- `return err`, of a check that leaves the count alone.
abbrev pub checked : Option Error → ℕ → Checked
checked none count = valid count
checked (some e) count = invalid e

-- `active` holds the nodes on the way from the root, since each call deletes its own on return.
unfoldable pub validate_node : ℕ → Heap → Pointer → ℕ → ℕ → List ℕ → Checked
unfolding operators children is_active validate_children
validate_node zero heap p depth count active = invalid out_of_fuel
validate_node (suc fuel) heap none depth count active = invalid nil_node
validate_node (suc fuel) heap (some a) depth count active =
    let node = heap a in
    let below =
      validate_children (λ child n. validate_node fuel heap child (depth + 1) n (a ∷ active))
        (children node) (count + 1) in
    if ltb max_depth depth || ltb max_nodes (count + 1)
    then invalid size_limit
    else if is_active active a
    then invalid cyclic_document
    else if not (operators node == 1)
    then invalid not_one_operator
    else if not (is_empty node.capability)
    then checked (id_validate node.capability) (count + 1)
    else below

-- No call is deeper than `max_depth + 1`, where the depth is refused.
abbrev pub enough_fuel : ℕ
enough_fuel = max_depth + 1

unfoldable pub validate : Heap → Pointer → Checked
unfolding validate_node
validate heap root = validate_node enough_fuel heap root 1 0 []
