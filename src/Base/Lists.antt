-- ===== src/Base/Lists.antt =====
-- Lists measured and indexed by native numbers, and predicates on their elements.
use Prim.Native.Nat.{ℕ, zero, suc, ◌+◌}
use mathlib.Core.Path.{◌≡◌, ap, sym, refl, ◌∙◌}
use capagent.Base.Tests.{if◌then◌else◌, Bool-cases}
use mathlib.Core.Logic.{◌⊎◌, inl, inr}
use mathlib.Core.List.{List, [], ◌∷◌, ◌++◌}
use mathlib.Core.Option.{Option, none, some}
use mathlib.Core.Bool.{Bool, true}
use native.Mathlib.Omega.{arith}

module _ {ℓ} {A : Type ℓ} where
  abbrev pub length : List A → ℕ
  length [] = 0
  length (x ∷ xs) = suc (length xs)

  abbrev pub get_elem? : List A → ℕ → Option A
  get_elem? [] i = none
  get_elem? (x ∷ xs) zero = some x
  get_elem? (x ∷ xs) (suc i) = get_elem? xs i

  pub length-append : (xs ys : List A) → length (xs ++ ys) ≡ length xs + length ys
  length-append [] ys = omega arith
  length-append (x ∷ xs) ys = omega (arith, length-append xs ys)

  -- Every element satisfies `P`.
  abbrev pub All {κ} : (A → Type κ) → List A → Type κ
  All P [] = Unit
  All P (x ∷ xs) = P x × All P xs

module _ {A : Type 0} where
  -- `a` is an element.
  abbrev pub In : A → List A → Type 0
  In a [] = ⊥
  In a (x ∷ xs) = (x ≡ a) ⊎ In a xs

  pub In-append_left : (a : A) (xs ys : List A) → In a xs → In a (xs ++ ys)
  In-append_left a [] ys h = absurd h
  In-append_left a (x ∷ xs) ys (inl e) = inl e
  In-append_left a (x ∷ xs) ys (inr h) = inr (In-append_left a xs ys h)

  pub In-append_right : (a : A) (xs ys : List A) → In a ys → In a (xs ++ ys)
  In-append_right a [] ys h = h
  In-append_right a (x ∷ xs) ys h = inr (In-append_right a xs ys h)

  pub In-append : (a : A) (xs ys : List A) → In a (xs ++ ys) → In a xs ⊎ In a ys
  In-append a [] ys h = inr h
  In-append a (x ∷ xs) ys (inl e) = inl (inl e)
  In-append a (x ∷ xs) ys (inr h) = elim (In-append a xs ys h) [
    | inl l ↦ inl (inr l)
    | inr r ↦ inr r
  ]

module _ {κ} {A : Type 0} (P : A → Type κ) where
  pub All-In : (xs : List A) → All P xs → (a : A) → In a xs → P a
  All-In [] h a m = absurd m
  All-In (x ∷ xs) h a (inl e) = rw e at (h.0)
  All-In (x ∷ xs) h a (inr m) = All-In xs h.1 a m

  pub All-of : (xs : List A) → ((a : A) → In a xs → P a) → All P xs
  All-of [] h = tt
  All-of (x ∷ xs) h = (h x (inl refl), All-of xs (λ a m. h a (inr m)))

  pub All-append : (xs ys : List A) → All P xs → All P ys → All P (xs ++ ys)
  All-append [] ys hx hy = hy
  All-append (x ∷ xs) ys hx hy = (hx.0, All-append xs ys hx.1 hy)

-- The elements that pass a Boolean test.
module _ {A : Type 0} (test : A → Bool) where
  unfoldable pub keep : List A → List A
  keep [] = []
  keep (x ∷ xs) = if test x then x ∷ keep xs else keep xs

  In-keep-cons :
      (a x : A) (xs : List A)
      → test x ≡ true
      → In a (x ∷ keep xs)
      → (In a (keep xs) → In a xs × (test a ≡ true))
      → In a (x ∷ xs) × (test a ≡ true)
  In-keep-cons a x xs e (inl q) below = (inl q, ap test (sym q) ∙ e)
  In-keep-cons a x xs e (inr m) below = let (n, h) = below m in (inr n, h)

  pub In-keep : (a : A) (xs : List A) → In a (keep xs) → In a xs × (test a ≡ true)
  unfolding keep
  In-keep a [] m = absurd m
  In-keep a (x ∷ xs) m = elim (Bool-cases (test x)) [
    | inl e ↦ In-keep-cons a x xs e (rw e at m) (In-keep a xs)
    | inr e ↦ let (n, h) = In-keep a xs (rw e at m) in (inr n, h)
  ]

  pub In-keep_of : (a : A) (xs : List A) → In a xs → test a ≡ true → In a (keep xs)
  unfolding keep
  In-keep_of a [] m h = absurd m
  In-keep_of a (x ∷ xs) (inl e) h = let here : test x ≡ true = ap test e ∙ h in rw here (inl e)
  In-keep_of a (x ∷ xs) (inr m) h = elim (Bool-cases (test x)) [
    | inl e ↦ rw e (inr (In-keep_of a xs m h))
    | inr e ↦ rw e (In-keep_of a xs m h)
  ]
