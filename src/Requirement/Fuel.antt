-- ===== src/Requirement/Fuel.antt =====
-- The fuel of validateNode (internal/requirement/evaluate.go) is enough: the limit on the depth refuses
-- a node before it runs out, on every document.
use capagent.Base.{
  ℕ, zero, suc, ◌+◌, ◌≤◌, ◌≡◌, ◌≢◌, List, [], ◌∷◌, Option, none, some, Bool, true, false, not, ltb,
  ◌||◌, refl, arith, ap, Bool-cases, inl, inr, Text,
}
use capagent.Model.Errors.{Error, out_of_fuel}
use capagent.Model.CapabilityId.{CapabilityId, id_validate, check_segments, split, matches_segment}
use capagent.Requirement.Node.{
  Pointer, Heap, Checked, valid, invalid, checked, children, validate_children, validate_node,
  validate, max_depth, max_nodes, enough_fuel,
}
use capagent.Requirement.Accepting.{Checked-cases}

abbrev is_fuel : Error → Bool
is_fuel out_of_fuel = true
is_fuel _ = false

abbrev ran_out : Checked → Bool
ran_out (valid n) = false
ran_out (invalid e) = is_fuel e

abbrev lacks_fuel : Option Error → Bool
lacks_fuel none = false
lacks_fuel (some e) = is_fuel e

check_segments-lacks_fuel :
    (raw : Text) (segments : List Text) → lacks_fuel (check_segments raw segments) ≡ false
unfolding check_segments
check_segments-lacks_fuel raw [] = refl
check_segments-lacks_fuel raw (s ∷ ss) = elim (Bool-cases (not (matches_segment s))) [
  | inl b ↦ rw b refl
  | inr b ↦ rw b (check_segments-lacks_fuel raw ss)
]

id_validate-lacks_fuel : (id : CapabilityId) → lacks_fuel (id_validate id) ≡ false
unfolding id_validate
id_validate-lacks_fuel id = let rest = check_segments-lacks_fuel id (split id) in ground arith

checked-ran_out : (o : Option Error) (n : ℕ) → ran_out (checked o n) ≡ lacks_fuel o
checked-ran_out none n = refl
checked-ran_out (some e) n = refl

validate_children-ran_out :
    (check : Pointer → ℕ → Checked)
    → ((p : Pointer) (n : ℕ) → ran_out (check p n) ≡ false)
    → (ps : List Pointer) (n : ℕ) → ran_out (validate_children check ps n) ≡ false
unfolding validate_children
validate_children-ran_out check h [] n = refl
validate_children-ran_out check h (p ∷ ps) n = elim (Checked-cases (check p n)) [
  | inl (m, q) ↦ let rest = validate_children-ran_out check h ps m in ground arith
  | inr (e, q) ↦ let one = h p n in ground arith
]

validate_node-ran_out :
    (fuel : ℕ) (heap : Heap) (p : Pointer) (level before : ℕ) (active : List ℕ)
    → level ≤ max_depth + 1
    → max_depth + 2 ≤ level + fuel
    → ran_out (validate_node fuel heap p level before active) ≡ false
unfolding validate_node
validate_node-ran_out zero heap p level before active low enough = absurd (omega arith)
validate_node-ran_out (suc fuel) heap none level before active low enough = refl
validate_node-ran_out (suc fuel) heap (some a) level before active low enough =
    elim (Bool-cases (ltb max_depth level || ltb max_nodes (before + 1))) [
      | inl b ↦ rw b refl
      | inr b ↦
          let leaf = id_validate-lacks_fuel (heap a).capability in
          let same = checked-ran_out (id_validate (heap a).capability) (before + 1) in
          let below =
            validate_children-ran_out
              (λ child n. validate_node fuel heap child (level + 1) n (a ∷ active))
              (λ q n.
                validate_node-ran_out fuel heap q (level + 1) n (a ∷ active) (ground arith)
                  (omega arith))
              (children (heap a)) (before + 1) in
          ground arith
    ]

-- validate never runs out of fuel.
pub validate-ne-out_of_fuel :
    (heap : Heap) (root : Pointer) → validate heap root ≢ invalid out_of_fuel
unfolding validate
validate-ne-out_of_fuel heap root e =
    let enough = validate_node-ran_out enough_fuel heap root 1 0 [] (omega arith) (omega arith) in
    let out = ap ran_out e in absurd cc
