-- ===== src/Graph/Maps.antt =====
-- What one step adds to the counts and the children.
use capagent.Graph.Kahn.{update, Counts, Links}
use capagent.Base.{
  ◌*◌, Text, ℕ, occ, occ-snoc, ◌+◌, ◌≡◌, if◌then◌else◌, text_eq, text_eq→eq, ap, Bool-cases, inl,
  inr, arith, ◌++◌, ◌∷◌, [],
}

pub update-count :
    (id z : Text) (counts : Counts)
    → update counts id (counts id + 1) z ≡ counts z + (if text_eq id z then 1 else 0)
update-count id z counts = elim (Bool-cases (text_eq id z)) [
  | inl e ↦ rw e (ap (λ w. counts w + 1) (text_eq→eq id z e))
  | inr e ↦ rw e (omega arith)
]

pub update-link :
    (id dep z d : Text) (links : Links)
    → occ z (update links dep (links dep ++ (id ∷ [])) d)
      ≡ occ z (links d) + (if text_eq id z then (if text_eq dep d then 1 else 0) else 0)
update-link id dep z d links = elim (Bool-cases (text_eq dep d)) [
  | inl e ↦
      rw (e, occ-snoc z (links dep) id)
        (ap (λ w. occ z (links w) + (if text_eq id z then 1 else 0)) (text_eq→eq dep d e))
  | inr e ↦ rw e (ground arith)
]

-- What one node adds is what the products say.
pub product_cons :
    (f : Text → ℕ) (id z : Text) (k : ℕ)
    → (if text_eq id z then f id else 0) + k * f z ≡ ((if text_eq id z then 1 else 0) + k) * f z
product_cons f id z k = elim (Bool-cases (text_eq id z)) [
  | inl e ↦ rw e (omega (arith, ap f (text_eq→eq id z e)))
  | inr e ↦ rw e (omega arith)
]
