-- ===== src/Base/Counts.antt =====
-- How often a string stands in a list, and sums over lists of strings.
use Prim.Native.Nat.{ℕ, ◌+◌, ◌≤◌, ◌<◌}
use mathlib.Core.Path.{◌≡◌, refl}
use mathlib.Core.Logic.{◌⊎◌, ◌↔◌, inl, inr}
use mathlib.Core.Bool.{true, false}
use mathlib.Core.List.{List, [], ◌∷◌, ◌++◌}
use native.Mathlib.Omega.{arith}
use capagent.Base.Texts.{Text, text_eq, text_eq→eq, text_eq_refl, text_eq_sym, contains}
use capagent.Base.Tests.{if◌then◌else◌, Bool-cases}
use capagent.Base.Lists.{length, In}

unfoldable pub occ : Text → List Text → ℕ
occ x [] = 0
occ x (y ∷ ys) = (if text_eq y x then 1 else 0) + occ x ys

pub occ_self : (x : Text) (xs : List Text) → occ x (x ∷ xs) ≡ 1 + occ x xs
unfolding occ
occ_self x xs = rw (text_eq_refl x)

pub occ-append : (x : Text) (ys zs : List Text) → occ x (ys ++ zs) ≡ occ x ys + occ x zs
unfolding occ
occ-append x [] zs = omega arith
occ-append x (y ∷ ys) zs = omega (arith, occ-append x ys zs)

pub occ-snoc :
    (x : Text) (ys : List Text) (y : Text)
    → occ x (ys ++ (y ∷ [])) ≡ occ x ys + (if text_eq y x then 1 else 0)
unfolding occ
occ-snoc x ys y = omega (arith, occ-append x ys (y ∷ []))

-- A list in which no string stands twice.
abbrev pub IsDistinct : List Text → Type 0
IsDistinct xs = (x : Text) → occ x xs ≤ 1

unfoldable pub erase : Text → List Text → List Text
erase x [] = []
erase x (y ∷ ys) = if text_eq y x then ys else y ∷ erase x ys

pub occ-erase :
    (x z : Text) (ys : List Text)
    → 0 < occ x ys
    → occ z ys ≡ occ z (erase x ys) + (if text_eq x z then 1 else 0)
unfolding occ erase
occ-erase x z [] h = absurd (omega arith)
occ-erase x z (y ∷ ys) h = elim (Bool-cases (text_eq y x)) [
  | inl e ↦ rw (e, text_eq→eq y x e) (omega arith)
  | inr e ↦ rw e (omega (arith, occ-erase x z ys (ground arith)))
]

unfoldable pub sum : (Text → ℕ) → List Text → ℕ
sum f [] = 0
sum f (x ∷ xs) = f x + sum f xs

pub sum-erase :
    (f : Text → ℕ) (x : Text) (ys : List Text) → 0 < occ x ys → sum f ys ≡ f x + sum f (erase x ys)
unfolding occ erase sum
sum-erase f x [] h = absurd (omega arith)
sum-erase f x (y ∷ ys) h = elim (Bool-cases (text_eq y x)) [
  | inl e ↦ rw (e, text_eq→eq y x e)
  | inr e ↦ rw e (omega (arith, sum-erase f x ys (ground arith)))
]

-- A sum grows with the list, where an element that adds nothing need not be there.
pub sum-le :
    (f : Text → ℕ) (xs ys : List Text)
    → ((x : Text) → (f x ≡ 0) ⊎ (occ x xs ≤ occ x ys))
    → sum f xs ≤ sum f ys
unfolding occ sum
sum-le f [] ys h = omega arith
sum-le f (x ∷ xs) ys h = elim (h x) [
  | inl zero_at ↦
      omega (arith, sum-le f xs ys (λ z. elim (h z) [ inl e ↦ inl e | inr k ↦ inr (omega arith) ]))
  | inr there ↦
      let some_x : 0 < occ x ys = omega (arith, occ_self x xs) in
      let rest : sum f xs ≤ sum f (erase x ys) = sum-le f xs (erase x ys) (λ z. elim (h z) [
        | inl e ↦ inl e
        | inr k ↦ inr (omega (arith, occ-erase x z ys some_x))
      ]) in
      omega (arith, sum-erase f x ys some_x)
]

pub sum_one : (xs : List Text) → sum (λ x. 1) xs ≡ length xs
unfolding sum
sum_one [] = refl
sum_one (x ∷ xs) = omega (arith, sum_one xs)

pub sum_add : (f g : Text → ℕ) (xs : List Text) → sum (λ x. f x + g x) xs ≡ sum f xs + sum g xs
unfolding sum
sum_add f g [] = omega arith
sum_add f g (x ∷ xs) = omega (arith, sum_add f g xs)

pub sum_zero : (xs : List Text) → sum (λ x. 0) xs ≡ 0
unfolding sum
sum_zero [] = refl
sum_zero (x ∷ xs) = omega (arith, sum_zero xs)

-- Summing a test for one string counts it.
pub sum_test : (y : Text) (xs : List Text) → sum (λ x. if text_eq y x then 1 else 0) xs ≡ occ y xs
unfolding sum occ
sum_test y [] = refl
sum_test y (x ∷ xs) = rw (text_eq_sym y x) (omega (arith, sum_test y xs))

pub In-occ : (x : Text) (xs : List Text) → In x xs → 0 < occ x xs
unfolding occ
In-occ x [] m = absurd m
In-occ x (y ∷ ys) (inl e) = rw (e, text_eq_refl x) (omega arith)
In-occ x (y ∷ ys) (inr m) = omega (arith, In-occ x ys m)

pub occ-In : (x : Text) (xs : List Text) → 0 < occ x xs → In x xs
unfolding occ
occ-In x [] h = absurd (omega arith)
occ-In x (y ∷ ys) h = elim (Bool-cases (text_eq y x)) [
  | inl e ↦ inl (text_eq→eq y x e)
  | inr e ↦ inr (occ-In x ys (ground arith))
]

distinct_occ-le : {m n : ℕ} → m ≤ 1 → (0 < m → 0 < n) → m ≤ n
distinct_occ-le {m} {n} h k = ground (arith, k)

-- A list without repetitions is no longer than any list that has all of its elements.
pub distinct_length-le :
    (xs ys : List Text)
    → IsDistinct xs
    → ((x : Text) → 0 < occ x xs → 0 < occ x ys)
    → length xs ≤ length ys
distinct_length-le xs ys d sub = omega (
  arith,
  sum_one xs,
  sum_one ys,
  sum-le (λ x. 1) xs ys (λ x. inr (distinct_occ-le (d x) (sub x))),
)

pub contains_iff : (xs : List Text) (z : Text) → (contains xs z ≡ true) ↔ (0 < occ z xs)
unfolding contains occ
contains_iff [] z = ground arith
contains_iff (x ∷ xs) z = let ih = contains_iff xs z in ground arith

pub absent : (xs : List Text) (z : Text) → contains xs z ≡ false → occ z xs ≡ 0
absent xs z h = let iff = contains_iff xs z in ground arith

pub cons-IsDistinct :
    (x : Text) (xs : List Text) → occ x xs ≡ 0 → IsDistinct xs → IsDistinct (x ∷ xs)
unfolding occ
cons-IsDistinct x xs new d z = elim (Bool-cases (text_eq x z)) [
  | inl e ↦ rw e (omega (arith, (rw (text_eq→eq x z e) at new)))
  | inr e ↦ rw e (omega (arith, d z))
]
