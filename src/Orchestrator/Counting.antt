-- ===== src/Orchestrator/Counting.antt =====
-- How often a number stands in a list, how many elements pass a test, and sums over a range.
use capagent.Base.{
  ℕ, zero, suc, ◌+◌, ◌≤◌, ◌<◌, ◌==◌, ◌≡◌, List, [], ◌∷◌, ◌++◌, Bool, true, false, if◌then◌else◌,
  refl, arith, length, Bool-cases, inl, inr,
}

unfoldable pub count : ℕ → List ℕ → ℕ
count i [] = 0
count i (j ∷ js) = (if j == i then 1 else 0) + count i js

unfoldable pub hits : (ℕ → Bool) → List ℕ → ℕ
hits test [] = 0
hits test (j ∷ js) = (if test j then 1 else 0) + hits test js

unfoldable pub total : ℕ → (ℕ → ℕ) → ℕ
total zero f = 0
total (suc n) f = total n f + f n

pub count-append : (i : ℕ) (xs ys : List ℕ) → count i (xs ++ ys) ≡ count i xs + count i ys
unfolding count
count-append i [] ys = omega arith
count-append i (x ∷ xs) ys = omega (arith, count-append i xs ys)

pub hits-le : (test : ℕ → Bool) (xs : List ℕ) → hits test xs ≤ length xs
unfolding hits
hits-le test [] = omega arith
hits-le test (x ∷ xs) = ground (arith, hits-le test xs)

-- An element that fails the test leaves room.
pub hits-add-count :
    (test : ℕ → Bool) (i : ℕ) (xs : List ℕ) → test i ≡ false → hits test xs + count i xs ≤ length xs
unfolding hits count
hits-add-count test i [] h = omega arith
hits-add-count test i (x ∷ xs) h = elim (Bool-cases (x == i)) [
  | inl e ↦ ground (arith, hits-add-count test i xs)
  | inr e ↦ ground (arith, hits-add-count test i xs)
]

-- With fewer hits than elements, some element fails the test.
pub hits_short :
    (test : ℕ → Bool) (xs : List ℕ)
    → hits test xs < length xs
    → (i : ℕ) × (0 < count i xs) × (test i ≡ false)
unfolding hits count
hits_short test [] h = absurd (omega arith)
hits_short test (x ∷ xs) h = elim (Bool-cases (test x)) [
  | inr e ↦ (x, ground arith, e)
  | inl e ↦ let (i, there, off) = hits_short test xs (ground arith) in (i, omega arith, off)
]

pub hits_cong :
    (f g : ℕ → Bool) (xs : List ℕ) → ((i : ℕ) → 0 < count i xs → f i ≡ g i) → hits f xs ≡ hits g xs
unfolding hits count
hits_cong f g [] h = refl
hits_cong f g (x ∷ xs) h =
    let here : f x ≡ g x = h x (ground arith) in
    let rest = hits_cong f g xs (λ i m. h i (omega arith)) in rw here (omega arith)

-- One more index passes the test.
pub hits-set :
    (f g : ℕ → Bool) (i : ℕ) (xs : List ℕ)
    → f i ≡ false
    → ((j : ℕ) → g j ≡ (if i == j then true else f j))
    → hits g xs ≡ hits f xs + count i xs
unfolding hits count
hits-set f g i [] off h = refl
hits-set f g i (x ∷ xs) off h =
    let rest = hits-set f g i xs off h in
    elim (Bool-cases (x == i)) [ inl e ↦ ground (arith, h x) | inr e ↦ ground (arith, h x) ]

pub total_cong : (n : ℕ) (f g : ℕ → ℕ) → ((i : ℕ) → i < n → f i ≡ g i) → total n f ≡ total n g
unfolding total
total_cong zero f g h = refl
total_cong (suc n) f g h =
    omega (arith, total_cong n f g (λ i k. h i (omega arith)), h n (omega arith))

-- A sum changes as its one changed term does.
pub total-set :
    (n i : ℕ) (f g : ℕ → ℕ)
    → i < n
    → ((j : ℕ) → (i == j) ≡ false → g j ≡ f j)
    → total n g + f i ≡ total n f + g i
unfolding total
total-set zero i f g h k = absurd (omega arith)
total-set (suc n) i f g h k = elim (Bool-cases (i == n)) [
  | inl e ↦
      let same : total n g ≡ total n f = total_cong n g f (λ j m. k j (ground arith)) in
      ground arith
  | inr e ↦ omega (arith, total-set n i f g (ground arith) k, k n e)
]

pub total-le : (n : ℕ) (f g : ℕ → ℕ) → ((i : ℕ) → i < n → f i ≤ g i) → total n f ≤ total n g
unfolding total
total-le zero f g h = omega arith
total-le (suc n) f g h = omega (arith, total-le n f g (λ i k. h i (omega arith)), h n (omega arith))

pub total_one : (n : ℕ) → total n (λ i. 1) ≡ n
unfolding total
total_one zero = refl
total_one (suc n) = omega (arith, total_one n)

-- A sum of terms up to 1 that reaches the number of terms has only ones.
pub total_full :
    (n : ℕ) (f : ℕ → ℕ) → ((i : ℕ) → f i ≤ 1) → total n f ≡ n → (i : ℕ) → i < n → f i ≡ 1
unfolding total
total_full zero f small full i h = absurd (omega arith)
total_full (suc n) f small full i h =
    let below = total-le n f (λ j. 1) (λ j k. small j) in
    elim (Bool-cases (i == n)) [
      | inl e ↦ ground (arith, total_one n, small n)
      | inr e ↦ total_full n f small (omega (arith, total_one n, small n)) i (ground arith)
    ]
