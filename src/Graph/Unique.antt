-- ===== src/Graph/Unique.antt =====
-- Strings have one sorted order: sorting does not depend on the order of its input.
use capagent.Graph.Sorting.{insert_text, sort_texts}
use capagent.Base.{
  Text, List, [], ◌∷◌, ◌≡◌, ◌<◌, refl, arith, Bool-cases, inl, inr, text_lt, text_eq, text_eq→eq,
  true, false, occ, occ_self, erase, occ-erase, ap, sym, ◌∙◌, if◌then◌else◌,
}

text_lt_total : (x y : Text) → text_lt x y ≡ false → text_lt y x ≡ false → text_eq x y ≡ true
unfolding text_lt text_eq
text_lt_total [] [] h k = refl
text_lt_total [] (b ∷ y) h k = cc
text_lt_total (a ∷ x) [] h k = cc
text_lt_total (a ∷ x) (b ∷ y) h k = let rest = text_lt_total x y in ground arith

pub text_lt_asym : (x y : Text) → text_lt x y ≡ true → text_lt y x ≡ false
unfolding text_lt
text_lt_asym x [] h = cc
text_lt_asym [] (b ∷ y) h = refl
text_lt_asym (a ∷ x) (b ∷ y) h = let rest = text_lt_asym x y in ground arith

pub text_le_lt : (x z y : Text) → text_lt z x ≡ false → text_lt z y ≡ true → text_lt x y ≡ true
unfolding text_lt
text_le_lt x z [] h k = cc
text_le_lt [] z (b ∷ y) h k = refl
text_le_lt (a ∷ x) [] (b ∷ y) h k = cc
text_le_lt (a ∷ x) (c ∷ z) (b ∷ y) h k = let rest = text_le_lt x z y in ground arith

front-swap :
    (x y : Text) (zs : List Text)
    → (if text_lt y x then y ∷ x ∷ zs else x ∷ y ∷ zs)
      ≡ (if text_lt x y then x ∷ y ∷ zs else y ∷ x ∷ zs)
front-swap x y zs = elim (Bool-cases (text_lt y x)) [
  | inl e ↦ rw (e, text_lt_asym y x e)
  | inr e ↦ elim (Bool-cases (text_lt x y)) [
    | inl f ↦ rw (e, f)
    | inr f ↦ let same : x ≡ y = text_eq→eq x y (text_lt_total x y f e) in rw (e, f) cc
  ]
]

insert_text-swap :
    (x y : Text) (zs : List Text)
    → insert_text x (insert_text y zs) ≡ insert_text y (insert_text x zs)
unfolding insert_text
insert_text-swap x y [] = front-swap x y []
insert_text-swap x y (z ∷ zs) = elim (Bool-cases (text_lt z y)) [
  | inl e ↦ elim (Bool-cases (text_lt z x)) [
    | inl f ↦ let rest = insert_text-swap x y zs in ground arith
    | inr f ↦ let less = text_le_lt x z y f e in ground arith
  ]
  | inr e ↦ elim (Bool-cases (text_lt z x)) [
    | inl f ↦ let less = text_le_lt y z x e f in ground arith
    | inr f ↦ let swap = front-swap x y (z ∷ zs) in ground arith
  ]
]

sort_texts-erase :
    (x : Text) (ys : List Text)
    → 0 < occ x ys
    → sort_texts ys ≡ insert_text x (sort_texts (erase x ys))
unfolding sort_texts occ erase
sort_texts-erase x [] h = absurd (omega arith)
sort_texts-erase x (y ∷ ys) h = elim (Bool-cases (text_eq y x)) [
  | inl e ↦ rw e (ap (λ w. insert_text w (sort_texts ys)) (text_eq→eq y x e))
  | inr e ↦
      let rest = sort_texts-erase x ys (ground arith) in
      rw e (ap (insert_text y) rest ∙ insert_text-swap y x (sort_texts (erase x ys)))
]

pub sort_texts_unique :
    (xs ys : List Text) → ((z : Text) → occ z xs ≡ occ z ys) → sort_texts xs ≡ sort_texts ys
unfolding sort_texts occ
sort_texts_unique [] [] h = refl
sort_texts_unique [] (y ∷ ys) h = absurd (omega (arith, h y, occ_self y ys))
sort_texts_unique (x ∷ xs) ys h =
    let there : 0 < occ x ys = omega (arith, h x, occ_self x xs) in
    ap (insert_text x)
      (sort_texts_unique xs (erase x ys) (λ z. omega (arith, h z, occ-erase x z ys there)))
    ∙ sym (sort_texts-erase x ys there)
