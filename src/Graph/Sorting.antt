-- ===== src/Graph/Sorting.antt =====
-- `sort.Strings` and `slices.Sort`, as insertion sort: strings have one sorted order.
use capagent.Base.{
  inr, inl, Bool-cases, refl, arith, text_eq, ◌+◌, text_lt, ◌≡◌, [], if◌then◌else◌, length, ◌∷◌,
  occ, Text, List,
}

unfoldable pub insert_text : Text → List Text → List Text
insert_text x [] = x ∷ []
insert_text x (y ∷ ys) = if text_lt y x then y ∷ insert_text x ys else x ∷ y ∷ ys

unfoldable pub sort_texts : List Text → List Text
unfolding insert_text
sort_texts [] = []
sort_texts (x ∷ xs) = insert_text x (sort_texts xs)

occ-insert_text :
    (z x : Text) (ys : List Text)
    → occ z (insert_text x ys) ≡ (if text_eq x z then 1 else 0) + occ z ys
unfolding insert_text occ
occ-insert_text z x [] = refl
occ-insert_text z x (y ∷ ys) = elim (Bool-cases (text_lt y x)) [
  | inl e ↦ rw e (omega (arith, occ-insert_text z x ys))
  | inr e ↦ rw e
]

pub occ-sort_texts : (z : Text) (xs : List Text) → occ z (sort_texts xs) ≡ occ z xs
unfolding sort_texts occ
occ-sort_texts z [] = refl
occ-sort_texts z (x ∷ xs) = omega (arith, occ-insert_text z x (sort_texts xs), occ-sort_texts z xs)

length-insert_text : (x : Text) (ys : List Text) → length (insert_text x ys) ≡ 1 + length ys
unfolding insert_text
length-insert_text x [] = refl
length-insert_text x (y ∷ ys) = ground (arith, length-insert_text x ys)

pub length-sort_texts : (xs : List Text) → length (sort_texts xs) ≡ length xs
unfolding sort_texts
length-sort_texts [] = refl
length-sort_texts (x ∷ xs) =
    omega (arith, length-insert_text x (sort_texts xs), length-sort_texts xs)
