-- ===== src/Requirement/Kleene.antt =====
-- The order of knowledge on requirement states, and the laws of the algebra.
use capagent.Base.{All, ◌≡◌, refl, ◌⊎◌, inl, inr, ◌↔◌, List, [], ◌∷◌, In, arith}
use capagent.Requirement.Logic.{
  RequirementState, satisfied, unsatisfied, indeterminate, other, and, or, not, fold, all, any,
}

-- `b` knows as much as `a` or more: a state that is not known may become any other.
infix 40 ◌⊑◌
abbrev pub ◌⊑◌ : RequirementState → RequirementState → Type 0
satisfied ⊑ b = b ≡ satisfied
unsatisfied ⊑ b = b ≡ unsatisfied
indeterminate ⊑ b = Unit
other s ⊑ b = Unit

pub ⊑_refl : (a : RequirementState) → a ⊑ a
⊑_refl satisfied = refl
⊑_refl unsatisfied = refl
⊑_refl indeterminate = tt
⊑_refl (other s) = tt

pub and_mono : (a b c d : RequirementState) → a ⊑ c → b ⊑ d → and a b ⊑ and c d
unfolding and
and_mono a b c d h k = ground arith

pub or_mono : (a b c d : RequirementState) → a ⊑ c → b ⊑ d → or a b ⊑ or c d
unfolding or
or_mono a b c d h k = ground arith

pub not_mono : (a b : RequirementState) → a ⊑ b → not a ⊑ not b
unfolding not
not_mono a b h = ground arith

pub and_assoc : (a b c : RequirementState) → and (and a b) c ≡ and a (and b c)
unfolding and
and_assoc a b c = ground arith

pub and_comm : (a b : RequirementState) → and a b ≡ and b a
unfolding and
and_comm a b = ground arith

pub not-and : (a b : RequirementState) → not (and a b) ≡ or (not a) (not b)
unfolding and or not
not-and a b = ground arith

-- Lists of states, each of which knows as much as the one at its place or more.
pub data Refines : List RequirementState → List RequirementState → Type 0 where
  nil : Refines [] []
  cons :
      {a b : RequirementState} {xs ys : List RequirementState}
      → a ⊑ b
      → Refines xs ys
      → Refines (a ∷ xs) (b ∷ ys)

abbrev Mono : (RequirementState → RequirementState → RequirementState) → Type 0
Mono op = (a b c d : RequirementState) → a ⊑ c → b ⊑ d → op a b ⊑ op c d

pub fold_mono :
    (op : RequirementState → RequirementState → RequirementState)
    → Mono op
    → {xs ys : List RequirementState} (a b : RequirementState) → a ⊑ b
    → Refines xs ys
    → fold op a xs ⊑ fold op b ys
unfolding fold
fold_mono op mono a b h Refines.nil = h
fold_mono op mono a b h (Refines.cons {a = c} {b = d} k r) =
    fold_mono op mono (op a c) (op b d) (mono a c b d h k) r

fold-and_strong :
    (acc : RequirementState) (ss : List RequirementState)
    → fold and acc ss ≡ unsatisfied
    → (acc ≡ unsatisfied) ⊎ In unsatisfied ss
unfolding fold and
fold-and_strong acc [] h = inl h
fold-and_strong acc (s ∷ ss) h = ground (arith, fold-and_strong (and acc s) ss h)

fold-and_weak :
    (acc : RequirementState) (ss : List RequirementState)
    → fold and acc ss ≡ satisfied
    → (acc ≡ satisfied) × All (λ s. s ≡ satisfied) ss
unfolding fold and
fold-and_weak acc [] h = (h, tt)
fold-and_weak acc (s ∷ ss) h =
    let (both, rest) = fold-and_weak (and acc s) ss h in (ground arith, (ground arith, rest))

fold-and_absorbs : (ss : List RequirementState) → fold and unsatisfied ss ≡ unsatisfied
unfolding fold and
fold-and_absorbs [] = refl
fold-and_absorbs (s ∷ ss) = fold-and_absorbs ss

fold-and_meets :
    (acc : RequirementState) (ss : List RequirementState)
    → In unsatisfied ss
    → fold and acc ss ≡ unsatisfied
unfolding fold and
fold-and_meets acc [] m = absurd m
fold-and_meets acc (s ∷ ss) (inl e) =
    let first : and acc s ≡ unsatisfied = ground arith in rw first (fold-and_absorbs ss)
fold-and_meets acc (s ∷ ss) (inr m) = fold-and_meets (and acc s) ss m

fold-and_All :
    (ss : List RequirementState) → All (λ s. s ≡ satisfied) ss → fold and satisfied ss ≡ satisfied
unfolding fold and
fold-and_All [] h = refl
fold-and_All (s ∷ ss) h =
    let first : and satisfied s ≡ satisfied = ground arith in rw first (fold-and_All ss h.1)

fold-or_strong :
    (acc : RequirementState) (ss : List RequirementState)
    → fold or acc ss ≡ satisfied
    → (acc ≡ satisfied) ⊎ In satisfied ss
unfolding fold or
fold-or_strong acc [] h = inl h
fold-or_strong acc (s ∷ ss) h = ground (arith, fold-or_strong (or acc s) ss h)

fold-or_weak :
    (acc : RequirementState) (ss : List RequirementState)
    → fold or acc ss ≡ unsatisfied
    → (acc ≡ unsatisfied) × All (λ s. s ≡ unsatisfied) ss
unfolding fold or
fold-or_weak acc [] h = (h, tt)
fold-or_weak acc (s ∷ ss) h =
    let (both, rest) = fold-or_weak (or acc s) ss h in (ground arith, (ground arith, rest))

fold-or_absorbs : (ss : List RequirementState) → fold or satisfied ss ≡ satisfied
unfolding fold or
fold-or_absorbs [] = refl
fold-or_absorbs (s ∷ ss) = fold-or_absorbs ss

fold-or_meets :
    (acc : RequirementState) (ss : List RequirementState)
    → In satisfied ss
    → fold or acc ss ≡ satisfied
unfolding fold or
fold-or_meets acc [] m = absurd m
fold-or_meets acc (s ∷ ss) (inl e) =
    let first : or acc s ≡ satisfied = ground arith in rw first (fold-or_absorbs ss)
fold-or_meets acc (s ∷ ss) (inr m) = fold-or_meets (or acc s) ss m

fold-or_All :
    (ss : List RequirementState)
    → All (λ s. s ≡ unsatisfied) ss
    → fold or unsatisfied ss ≡ unsatisfied
unfolding fold or
fold-or_All [] h = refl
fold-or_All (s ∷ ss) h =
    let first : or unsatisfied s ≡ unsatisfied = ground arith in rw first (fold-or_All ss h.1)

-- All is UNSATISFIED exactly when one of the states is, and SATISFIED exactly when each of them is;
-- Any is SATISFIED exactly when one of the states is, and UNSATISFIED exactly when each of them is.
-- So in every other case, invalid states included, neither gives a definite answer.
pub all-any_exact :
    (ss : List RequirementState)
    → (all ss ≡ unsatisfied ↔ In unsatisfied ss)
      × (all ss ≡ satisfied ↔ All (λ s. s ≡ satisfied) ss)
      × (any ss ≡ satisfied ↔ In satisfied ss)
      × (any ss ≡ unsatisfied ↔ All (λ s. s ≡ unsatisfied) ss)
unfolding all any
all-any_exact ss = (
  (λ h. ground (arith, fold-and_strong satisfied ss h), fold-and_meets satisfied ss),
  (λ h. (fold-and_weak satisfied ss h).1, fold-and_All ss),
  (λ h. ground (arith, fold-or_strong unsatisfied ss h), fold-or_meets unsatisfied ss),
  (λ h. (fold-or_weak unsatisfied ss h).1, fold-or_All ss),
)

-- Each operator of the algebra keeps the order of knowledge: when operands that were not known become
-- known, a result that was definite stays as it was.
pub algebra_mono :
    {xs ys : List RequirementState} → Refines xs ys → (all xs ⊑ all ys) × (any xs ⊑ any ys)
unfolding all any
algebra_mono r = (
  fold_mono and and_mono satisfied satisfied refl r,
  fold_mono or or_mono unsatisfied unsatisfied refl r,
)
