-- ===== src/Config/Marks.antt =====
-- The entries that the indices of a merged list mark (internal/config/engine.go).
use capagent.Base.{
  ◌≡◌, ◌+◌, ◌<◌, ◌∷◌, ◌++◌, [], ℕ, zero, suc, List, Option, Text, All, map, length, get_elem?, refl,
  ap, arith,
}
use capagent.Config.Merge.{shifted}

-- The entries that a list of indices marks.
abbrev pub marked : List Text → List ℕ → List (Option Text)
marked values indices = map (get_elem? values) indices

get_elem?-append :
    (xs ys : List Text) (i : ℕ) → i < length xs → get_elem? (xs ++ ys) i ≡ get_elem? xs i
get_elem?-append [] ys i h = absurd (omega arith)
get_elem?-append (x ∷ xs) ys zero h = refl
get_elem?-append (x ∷ xs) ys (suc i) h = get_elem?-append xs ys i (omega arith)

get_elem?-shift :
    (xs ys : List Text) (i j : ℕ) → j ≡ length xs + i → get_elem? (xs ++ ys) j ≡ get_elem? ys i
get_elem?-shift [] ys i j e = ap (get_elem? ys) (omega (arith, e))
get_elem?-shift (x ∷ xs) ys i zero e = absurd (omega (arith, e))
get_elem?-shift (x ∷ xs) ys i (suc j) e = get_elem?-shift xs ys i j (omega (arith, e))

pub marked-shifted :
    (xs ys : List Text) (js : List ℕ) → marked (xs ++ ys) (shifted (length xs) js) ≡ marked ys js
marked-shifted xs ys [] = refl
marked-shifted xs ys (j ∷ js) = rw (get_elem?-shift xs ys j _ refl, marked-shifted xs ys js)

-- Indices of the first entries go on marking these, and shifted ones mark those of the rest.
pub marked-append :
    (xs ys : List Text) (is js : List ℕ)
    → All (λ i. i < length xs) is
    → marked (xs ++ ys) (is ++ shifted (length xs) js) ≡ marked xs is ++ marked ys js
marked-append xs ys [] js h = marked-shifted xs ys js
marked-append xs ys (i ∷ is) js h = rw (get_elem?-append xs ys i h.0, marked-append xs ys is js h.1)
