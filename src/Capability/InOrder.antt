-- ===== src/Capability/InOrder.antt =====
-- Sorting evidence by ID puts the IDs in order (internal/capability/resolver.go).
use capagent.Base.{◌≡◌, ◌∷◌, [], true, false, List, All, Bool, Bool-cases, inl, inr, text_lt, keep}
use capagent.Graph.Unique.{text_lt_asym, text_le_lt}
use capagent.Capability.Resolver.{insert_by_id, sort_by_id}
use capagent.Model.Evidence.{Evidence}

-- No item has a smaller ID than one before it.
abbrev pub IsInOrder : List Evidence → Type 0
IsInOrder [] = Unit
IsInOrder (x ∷ xs) = All (λ y. text_lt y.id x.id ≡ false) xs × IsInOrder xs

-- An item that is not below `x` is not below what is smaller than `x`.
not_below :
    (e x y : Evidence)
    → text_lt e.id x.id ≡ true
    → text_lt y.id x.id ≡ false
    → text_lt y.id e.id ≡ false
not_below e x y h k = elim (Bool-cases (text_lt y.id e.id)) [
  | inr b ↦ b
  | inl b ↦
      let below = text_le_lt x.id y.id e.id k b in let above = text_lt_asym e.id x.id h in absurd cc
]

All-not_below :
    (e x : Evidence) (ys : List Evidence)
    → text_lt e.id x.id ≡ true
    → All (λ y. text_lt y.id x.id ≡ false) ys
    → All (λ y. text_lt y.id e.id ≡ false) ys
All-not_below e x [] h k = tt
All-not_below e x (y ∷ ys) h k = (not_below e x y h k.0, All-not_below e x ys h k.1)

module _ (P : Evidence → Type 0) where
  All-insert_by_id :
      (e : Evidence) (xs : List Evidence) → P e → All P xs → All P (insert_by_id e xs)
  unfolding insert_by_id
  All-insert_by_id e [] p h = (p, tt)
  All-insert_by_id e (x ∷ xs) p h = elim (Bool-cases (text_lt e.id x.id)) [
    | inl b ↦ rw b (p, h)
    | inr b ↦ rw b (h.0, All-insert_by_id e xs p h.1)
  ]

  All-keep : (test : Evidence → Bool) (xs : List Evidence) → All P xs → All P (keep test xs)
  unfolding keep
  All-keep test [] h = tt
  All-keep test (x ∷ xs) h = elim (Bool-cases (test x)) [
    | inl b ↦ rw b (h.0, All-keep test xs h.1)
    | inr b ↦ rw b (All-keep test xs h.1)
  ]

insert_by_id-IsInOrder :
    (e : Evidence) (xs : List Evidence) → IsInOrder xs → IsInOrder (insert_by_id e xs)
unfolding insert_by_id
insert_by_id-IsInOrder e [] h = (tt, tt)
insert_by_id-IsInOrder e (x ∷ xs) h = elim (Bool-cases (text_lt e.id x.id)) [
  | inl b ↦ rw b ((text_lt_asym e.id x.id b, All-not_below e x xs b h.0), h)
  | inr b ↦ rw b (
    All-insert_by_id (λ y. text_lt y.id x.id ≡ false) e xs b h.0,
    insert_by_id-IsInOrder e xs h.1,
  )
]

pub sort_by_id-IsInOrder : (xs : List Evidence) → IsInOrder (sort_by_id xs)
unfolding sort_by_id
sort_by_id-IsInOrder [] = tt
sort_by_id-IsInOrder (x ∷ xs) = insert_by_id-IsInOrder x (sort_by_id xs) (sort_by_id-IsInOrder xs)

pub keep-IsInOrder :
    (test : Evidence → Bool) (xs : List Evidence) → IsInOrder xs → IsInOrder (keep test xs)
unfolding keep
keep-IsInOrder test [] h = tt
keep-IsInOrder test (x ∷ xs) h = elim (Bool-cases (test x)) [
  | inl b ↦ rw b (All-keep (λ y. text_lt y.id x.id ≡ false) test xs h.0, keep-IsInOrder test xs h.1)
  | inr b ↦ rw b (keep-IsInOrder test xs h.1)
]
