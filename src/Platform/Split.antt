-- ===== src/Platform/Split.antt =====
-- Splitting a path at its slashes, as internal/platform does by strings.Split.
use capagent.Base.{
  ℕ, ◌==◌, ◌≡◌, Text, List, [], ◌∷◌, ◌++◌, Bool, true, false, ◌&&◌, if◌then◌else◌, is_empty,
  text_eq, All, refl, arith, Bool-cases, inl, inr,
}
use capagent.Platform.Path.{slash, here, up, extend_first, split_path}

unfoldable pub is_part : Text → Bool
is_part [] = true
is_part (x ∷ xs) = (if x == slash then false else true) && is_part xs

-- A part that Clean keeps: a name.
pub record IsName (part : Text) : Type 0 where
  pub whole : is_part part ≡ true
  pub filled : is_empty part ≡ false
  pub not_here : text_eq part here ≡ false
  pub not_up : text_eq part up ≡ false

abbrev pub AreParts : List Text → Type 0
AreParts = All (λ part. is_part part ≡ true)

extend_first-AreParts :
    (x : ℕ) (parts : List Text)
    → (x == slash) ≡ false
    → AreParts parts
    → AreParts (extend_first x parts)
unfolding is_part
extend_first-AreParts x [] e h = (rw e, tt)
extend_first-AreParts x (part ∷ parts) e h = (rw e h.0, h.1)

pub split_path-AreParts : (path : Text) → AreParts (split_path path)
unfolding split_path is_part
split_path-AreParts [] = (refl, tt)
split_path-AreParts (x ∷ xs) = elim (Bool-cases (x == slash)) [
  | inl e ↦ rw e (refl, split_path-AreParts xs)
  | inr e ↦ rw e (extend_first-AreParts x (split_path xs) e (split_path-AreParts xs))
]

pub split_path-cons :
    (path : Text) → (part : Text) × (parts : List Text) × (split_path path ≡ part ∷ parts)
unfolding split_path
split_path-cons [] = ([], [], refl)
split_path-cons (x ∷ xs) = elim (Bool-cases (x == slash)) [
  | inl e ↦ ([], split_path xs, rw e)
  | inr e ↦ let (part, parts, q) = split_path-cons xs in (x ∷ part, parts, rw (e, q))
]

extend_first-append :
    (x : ℕ) (path : Text) (more : List Text)
    → extend_first x (split_path path ++ more) ≡ extend_first x (split_path path) ++ more
extend_first-append x path more = let (part, parts, q) = split_path-cons path in rw q

-- Splitting at a slash.
pub split_path-append :
    (xs ys : Text) → split_path (xs ++ (slash ∷ ys)) ≡ split_path xs ++ split_path ys
unfolding split_path
split_path-append [] ys = refl
split_path-append (x ∷ xs) ys = elim (Bool-cases (x == slash)) [
  | inl e ↦ rw (e, split_path-append xs ys)
  | inr e ↦ rw (e, split_path-append xs ys) (extend_first-append x xs (split_path ys))
]

pub split_path-part : (part : Text) → is_part part ≡ true → split_path part ≡ part ∷ []
unfolding split_path is_part
split_path-part [] h = refl
split_path-part (x ∷ xs) h = elim (Bool-cases (x == slash)) [
  | inl e ↦ absurd (ground arith)
  | inr e ↦ rw (e, split_path-part xs (ground arith))
]
