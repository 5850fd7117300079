-- ===== src/Graph/Position.antt =====
-- The place of a string in an order: an order behind dependencies ranks each node above what it needs.
use capagent.Base.{
  ℕ, ◌+◌, ◌≤◌, ◌<◌, ◌≡◌, Text, List, [], ◌∷◌, ◌++◌, occ, occ-snoc, text_eq, text_eq→eq,
  if◌then◌else◌, length, append_assoc, arith, Bool-cases, inl, inr, subst, sym,
}
use capagent.Graph.Rounds.{IsOrdered}

unfoldable pub position : Text → List Text → ℕ
position x [] = 0
position x (y ∷ ys) = if text_eq y x then 0 else 1 + position x ys

position-in :
    (x : Text) (seen rest : List Text) → 0 < occ x seen → position x (seen ++ rest) < length seen
unfolding position occ
position-in x [] rest h = absurd (omega arith)
position-in x (y ∷ seen) rest h = elim (Bool-cases (text_eq y x)) [
  | inl e ↦ ground arith
  | inr e ↦ ground (arith, position-in x seen rest)
]

position-out :
    (x : Text) (seen rest : List Text) → occ x seen ≡ 0 → length seen ≤ position x (seen ++ rest)
unfolding position occ
position-out x [] rest h = omega arith
position-out x (y ∷ seen) rest h = elim (Bool-cases (text_eq y x)) [
  | inl e ↦ absurd (ground arith)
  | inr e ↦ ground (arith, position-out x seen rest)
]

pub ordered-position :
    (needs : Text → Text → Type 0) (seen xs : List Text)
    → IsOrdered needs seen xs
    → (z d : Text) → 0 < occ z xs
    → occ z seen ≡ 0
    → needs z d
    → position d (seen ++ xs) < position z (seen ++ xs)
unfolding occ
ordered-position needs seen [] o z d m out n = absurd (omega arith)
ordered-position needs seen (x ∷ xs) o z d m out n = elim (Bool-cases (text_eq x z)) [
  | inl e ↦
      let same = text_eq→eq x z e in
      let behind = o.0 d (subst (λ w. needs w d) (sym same) n) in
      omega (arith, position-in d seen (x ∷ xs) behind, position-out z seen (x ∷ xs) out)
  | inr e ↦
      let out' : occ z (seen ++ (x ∷ [])) ≡ 0 = rw (occ-snoc z seen x, e) (omega arith) in
      let rest = ordered-position needs (seen ++ (x ∷ [])) xs o.1 z d (ground arith) out' n in
      subst (λ w. position d w < position z w) (append_assoc seen (x ∷ []) xs) rest
]
