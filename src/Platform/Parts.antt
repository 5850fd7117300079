-- ===== src/Platform/Parts.antt =====
-- Laws of the path operations that internal/platform uses: splitting, cleaning and joining rooted paths.
use capagent.Base.{
  ℕ, ◌≤◌, ◌==◌, ◌≡◌, Text, List, [], ◌∷◌, ◌++◌, Bool, true, false, ◌||◌, is_empty, text_eq, All,
  length, refl, arith, Bool-cases, inl, inr, ap,
}
use capagent.Platform.Path.{
  slash, here, up, top, split_path, has_prefix, is_abs, back, push_part, clean_parts, absolute,
  rooted_path, clean, join_part, up_to_slash, dir,
}
use capagent.Platform.Split.{
  AreParts, IsName, is_part, split_path-AreParts, split_path-append, split_path-part,
}

-- No slash stands in the bytes.
pub clean_parts-append :
    (rooted : Bool) (stack ps qs : List Text)
    → clean_parts rooted stack (ps ++ qs) ≡ clean_parts rooted (clean_parts rooted stack ps) qs
unfolding clean_parts
clean_parts-append rooted stack [] qs = refl
clean_parts-append rooted stack (p ∷ ps) qs =
    clean_parts-append rooted (push_part rooted stack p) ps qs

pub push_part-name :
    (rooted : Bool) (stack : List Text) (part : Text)
    → IsName part
    → push_part rooted stack part ≡ part ∷ stack
push_part-name rooted stack part n = rw (n.filled, n.not_here, n.not_up)

-- Cleaning gives back the parts of a clean path.
pub clean_parts-absolute :
    (stack : List Text)
    → All IsName stack
    → clean_parts true [] (split_path (absolute stack)) ≡ stack
unfolding absolute clean_parts split_path
clean_parts-absolute [] h = refl
clean_parts-absolute (last ∷ stack) h =
    rw
      (
        split_path-append (absolute stack) last,
        split_path-part last h.0.whole,
        clean_parts-append true [] (split_path (absolute stack)) (last ∷ []),
        clean_parts-absolute stack h.1,
      )
      (push_part-name true stack last h.0)

absolute-cons :
    (last : Text) (stack : List Text) → (path : Text) × (absolute (last ∷ stack) ≡ slash ∷ path)
unfolding absolute
absolute-cons last [] = (last, refl)
absolute-cons last (part ∷ stack) =
    let (path, q) = absolute-cons part stack in (path ++ (slash ∷ last), rw q)

-- The form of a rooted path that Clean gives.
pub rooted_path-cons : (stack : List Text) → (path : Text) × (rooted_path stack ≡ slash ∷ path)
rooted_path-cons [] = ([], refl)
rooted_path-cons (last ∷ stack) = absolute-cons last stack

-- The parts of a rooted path before any part that follows.
clean_parts-rooted_path :
    (stack : List Text) (ps : List Text)
    → All IsName stack
    → clean_parts true [] (split_path (rooted_path stack) ++ ps) ≡ clean_parts true stack ps
unfolding clean_parts split_path
clean_parts-rooted_path [] ps h = refl
clean_parts-rooted_path (last ∷ stack) ps h = rw (
  clean_parts-append true [] (split_path (absolute (last ∷ stack))) ps,
  clean_parts-absolute (last ∷ stack) h,
)

join_part-clean :
    (stack : List Text) (part : Text)
    → join_part (rooted_path stack) part
      ≡ rooted_path (clean_parts true [] (split_path (rooted_path stack ++ (slash ∷ part))))
unfolding join_part clean
join_part-clean stack part = let (path, q) = rooted_path-cons stack in rw q

-- Joining a name to a clean rooted path puts it behind the others.
pub join_part-rooted_path :
    (stack : List Text) (part : Text)
    → All IsName stack
    → IsName part
    → join_part (rooted_path stack) part ≡ rooted_path (part ∷ stack)
unfolding clean_parts
join_part-rooted_path stack part h n =
    rw
      (
        join_part-clean stack part,
        split_path-append (rooted_path stack) part,
        split_path-part part n.whole,
        clean_parts-rooted_path stack (part ∷ []) h,
      )
      (ap rooted_path (push_part-name true stack part n))

up_to_slash-part : (part : Text) → is_part part ≡ true → up_to_slash part ≡ []
unfolding up_to_slash is_part
up_to_slash-part [] h = refl
up_to_slash-part (x ∷ xs) h = elim (Bool-cases (x == slash)) [
  | inl e ↦ absurd (ground arith)
  | inr e ↦ rw (e, up_to_slash-part xs (ground arith))
]

append-filled : (xs ys : Text) (y : ℕ) → is_empty (xs ++ (y ∷ ys)) ≡ false
append-filled [] ys y = refl
append-filled (x ∷ xs) ys y = refl

up_to_slash-append :
    (xs part : Text) → is_part part ≡ true → up_to_slash (xs ++ (slash ∷ part)) ≡ xs ++ (slash ∷ [])
unfolding up_to_slash
up_to_slash-append [] part h = rw (up_to_slash-part part h)
up_to_slash-append (x ∷ xs) part h = rw (up_to_slash-append xs part h, append-filled xs [] slash)

abbrev pub without_last : List Text → List Text
without_last [] = []
without_last (last ∷ stack) = stack

absolute-slash : (stack : List Text) → is_abs (absolute stack ++ top) ≡ true
unfolding absolute
absolute-slash [] = refl
absolute-slash (last ∷ stack) = let (path, q) = absolute-cons last stack in rw q

clean-absolute :
    (stack : List Text) → All IsName stack → clean (absolute stack ++ top) ≡ rooted_path stack
unfolding clean clean_parts split_path
clean-absolute stack h = rw (
  absolute-slash stack,
  split_path-append (absolute stack) [],
  clean_parts-append true [] (split_path (absolute stack)) ([] ∷ []),
  clean_parts-absolute stack h,
)

-- The directory of a clean rooted path.
pub dir-rooted_path :
    (stack : List Text)
    → All IsName stack
    → dir (rooted_path stack) ≡ rooted_path (without_last stack)
unfolding dir absolute
dir-rooted_path [] h = refl
dir-rooted_path (last ∷ stack) h =
    rw (up_to_slash-append (absolute stack) last h.0.whole) (clean-absolute stack h.1)

pub has_prefix-append : (xs ys : Text) → has_prefix (xs ++ ys) xs ≡ true
unfolding has_prefix
has_prefix-append [] ys = refl
has_prefix-append (x ∷ xs) ys = ground (arith, has_prefix-append xs ys)

pub has_prefix-longer :
    (xs ys prefix : Text) → has_prefix xs prefix ≡ true → has_prefix (xs ++ ys) prefix ≡ true
unfolding has_prefix
has_prefix-longer xs ys [] h = refl
has_prefix-longer [] ys (y ∷ prefix) h = absurd (ground arith)
has_prefix-longer (x ∷ xs) ys (y ∷ prefix) h = ground (arith, has_prefix-longer xs ys prefix)

pub has_prefix-length : (xs prefix : Text) → has_prefix xs prefix ≡ true → length prefix ≤ length xs
unfolding has_prefix
has_prefix-length xs [] h = omega arith
has_prefix-length [] (y ∷ prefix) h = absurd (ground arith)
has_prefix-length (x ∷ xs) (y ∷ prefix) h = ground (arith, has_prefix-length xs prefix)

push_part-names :
    (stack : List Text) (part : Text)
    → All IsName stack
    → is_part part ≡ true
    → All IsName (push_part true stack part)
push_part-names stack part h whole = elim (Bool-cases (is_empty part || text_eq part here)) [
  | inl e ↦ rw e h
  | inr e ↦ elim (Bool-cases (text_eq part up)) [
    | inl q ↦ rw (e, q) (back-names stack h)
    | inr q ↦
        rw (e, q)
          (record { whole = whole; filled = ground arith; not_here = ground arith; not_up = q }, h)
  ]
]
  where
    back-names : (stack : List Text) → All IsName stack → All IsName (back true stack)
    back-names [] k = tt
    back-names (last ∷ stack) k = rw k.0.not_up k.1

clean_parts-names :
    (stack parts : List Text)
    → All IsName stack
    → AreParts parts
    → All IsName (clean_parts true stack parts)
unfolding clean_parts
clean_parts-names stack [] h p = h
clean_parts-names stack (part ∷ parts) h p =
    clean_parts-names (push_part true stack part) parts (push_part-names stack part h p.0) p.1

-- Cleaning a rooted path gives names behind slashes.
pub clean-rooted :
    (path : Text)
    → is_abs path ≡ true
    → (stack : List Text) × All IsName stack × (clean path ≡ rooted_path stack)
unfolding clean
clean-rooted path h = (
  clean_parts true [] (split_path path),
  clean_parts-names [] (split_path path) tt (split_path-AreParts path),
  rw h,
)
