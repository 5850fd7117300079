-- ===== src/Requirement/Tree.antt =====
-- What a requirement document means, without pointers: a finite tree, and when the heap holds it.
use capagent.Base.{◌≡◌, ℕ, suc, ◌+◌, max, false, List, [], ◌∷◌, none, some, is_empty}
use capagent.Model.CapabilityId.{CapabilityId, id_validate}
use capagent.Requirement.Logic.{RequirementState, satisfied, unsatisfied, and, or}
use capagent.Requirement.Logic
use capagent.Requirement.Node.{Pointer, Node, Heap}

mutual
  pub data Tree : Type 0 where
    capability : CapabilityId → Tree
    all any : Trees → Tree
    negation : Tree → Tree

  pub data Trees : Type 0 where
    nil : Trees
    cons : Tree → Trees → Trees

unfoldable mutual
  pub size : Tree → ℕ
  size (capability id) = 1
  size (all ts) = suc (size_list ts)
  size (any ts) = suc (size_list ts)
  size (negation t) = suc (size t)

  pub size_list : Trees → ℕ
  size_list nil = 0
  size_list (cons t ts) = size t + size_list ts

unfoldable mutual
  pub depth : Tree → ℕ
  depth (capability id) = 1
  depth (all ts) = suc (depth_list ts)
  depth (any ts) = suc (depth_list ts)
  depth (negation t) = suc (depth t)

  pub depth_list : Trees → ℕ
  depth_list nil = 0
  depth_list (cons t ts) = max (depth t) (depth_list ts)

-- Every leaf is a well-formed capability ID.
mutual
  pub data IsNamed : Tree → Type 0 where
    named : {id : CapabilityId} → id_validate id ≡ none → IsNamed (capability id)
    all_named : {ts : Trees} → AreNamed ts → IsNamed (all ts)
    any_named : {ts : Trees} → AreNamed ts → IsNamed (any ts)
    negation_named : {t : Tree} → IsNamed t → IsNamed (negation t)

  pub data AreNamed : Trees → Type 0 where
    nil_named : AreNamed nil
    cons_named : {t : Tree} {ts : Trees} → IsNamed t → AreNamed ts → AreNamed (cons t ts)

-- The four forms of a node with exactly one operator.
abbrev pub capability_node : CapabilityId → Node
capability_node id = record { capability = id; all = none; any = none; negated = none }

abbrev pub all_node : List Pointer → Node
all_node ps = record { capability = []; all = some ps; any = none; negated = none }

abbrev pub any_node : List Pointer → Node
any_node ps = record { capability = []; all = none; any = some ps; negated = none }

abbrev pub not_node : ℕ → Node
not_node a = record { capability = []; all = none; any = none; negated = some a }

-- The heap holds the tree below a pointer. Nodes may be shared.
mutual
  pub data Represents (heap : Heap) : Pointer → Tree → Type 0 where
    capability_at :
        {a : ℕ} {id : CapabilityId}
        → heap a ≡ capability_node id
        → is_empty id ≡ false
        → Represents heap (some a) (capability id)
    all_at :
        {a : ℕ} {ps : List Pointer} {ts : Trees}
        → heap a ≡ all_node ps
        → RepresentsAll heap ps ts
        → Represents heap (some a) (all ts)
    any_at :
        {a : ℕ} {ps : List Pointer} {ts : Trees}
        → heap a ≡ any_node ps
        → RepresentsAll heap ps ts
        → Represents heap (some a) (any ts)
    negation_at :
        {a b : ℕ} {t : Tree}
        → heap a ≡ not_node b
        → Represents heap (some b) t
        → Represents heap (some a) (negation t)

  pub data RepresentsAll (heap : Heap) : List Pointer → Trees → Type 0 where
    nil_at : RepresentsAll heap [] nil
    cons_at :
        {p : Pointer} {ps : List Pointer} {t : Tree} {ts : Trees}
        → Represents heap p t
        → RepresentsAll heap ps ts
        → RepresentsAll heap (p ∷ ps) (cons t ts)

-- The meaning of a tree, for the states of its capabilities: `All`, `Any` and `Not` of the algebra,
-- over the meanings of all its parts.
unfoldable mutual
  pub meaning : (CapabilityId → RequirementState) → Tree → RequirementState
  meaning assign (capability id) = assign id
  meaning assign (all ts) = Logic.all (meanings assign ts)
  meaning assign (any ts) = Logic.any (meanings assign ts)
  meaning assign (negation t) = Logic.not (meaning assign t)

  pub meanings : (CapabilityId → RequirementState) → Trees → List RequirementState
  meanings assign nil = []
  meanings assign (cons t ts) = meaning assign t ∷ meanings assign ts
