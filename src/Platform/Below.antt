-- ===== src/Platform/Below.antt =====
-- ValidateSubpath of internal/platform/path.go accepts the paths that never step above their start.
use capagent.Base.{
  ℕ, zero, suc, ◌≡◌, ◌↔◌, Text, List, [], ◌∷◌, ◌++◌, Bool, true, false, not, ◌||◌, ◌⊎◌, inl, inr,
  if◌then◌else◌, none, is_empty, text_eq, text_eq→eq, All, length, refl, arith, Bool-cases,
  append_assoc, append-nil, ◌∙◌,
}
use capagent.Platform.Path.{
  slash, here, up, split_path, has_prefix, is_abs, back, push_part, clean_parts, relative,
  relative_path, clean,
}
use capagent.Platform.Split.{IsName, is_part, AreParts, split_path-AreParts}
use capagent.Platform.Subpath.{has_nul, is_escape, validate_subpath}

-- The parts, followed from `depth` parts below the start, never lead above it.
unfoldable pub stays : ℕ → List Text → Bool
stays depth [] = true
stays depth (part ∷ parts) =
    if is_empty part || text_eq part here
    then stays depth parts
    else if text_eq part up
    then elim depth [ zero ↦ false | suc above ↦ stays above parts ]
    else stays (suc depth) parts

-- The first part of a path, which stands last in the stack, is `..`.
unfoldable starts_up : List Text → Bool
starts_up [] = false
starts_up (last ∷ []) = text_eq last up
starts_up (last ∷ part ∷ stack) = starts_up (part ∷ stack)

starts_up-up : starts_up (up ∷ []) ≡ true
unfolding starts_up text_eq
starts_up-up = refl

starts_up-cons :
    (part : Text) (stack : List Text) → starts_up stack ≡ true → starts_up (part ∷ stack) ≡ true
unfolding starts_up
starts_up-cons part [] h = absurd cc
starts_up-cons part (last ∷ stack) h = h

back-starts_up : (stack : List Text) → starts_up stack ≡ true → starts_up (back false stack) ≡ true
unfolding starts_up
back-starts_up [] h = absurd cc
back-starts_up (last ∷ []) h = rw h (starts_up-cons up (last ∷ []) h)
back-starts_up (last ∷ part ∷ stack) h = elim (Bool-cases (text_eq last up)) [
  | inl e ↦ rw e h
  | inr e ↦ rw e h
]

clean_parts-starts_up :
    (stack parts : List Text)
    → starts_up stack ≡ true
    → starts_up (clean_parts false stack parts) ≡ true
unfolding clean_parts
clean_parts-starts_up stack [] h = h
clean_parts-starts_up stack (part ∷ parts) h =
    clean_parts-starts_up (push_part false stack part) parts
      (elim (Bool-cases (is_empty part || text_eq part here)) [
        | inl e ↦ rw e h
        | inr e ↦ elim (Bool-cases (text_eq part up)) [
          | inl q ↦ rw (e, q) (back-starts_up stack h)
          | inr q ↦ rw (e, q) (starts_up-cons part stack h)
        ]
      ])

-- A stack of names, or one that starts with `..`, as the test says.
abbrev IsParted : List Text → Bool → Type 0
IsParted stack b = (All IsName stack × (b ≡ true)) ⊎ ((starts_up stack ≡ true) × (b ≡ false))

back-IsParted :
    (stack parts : List Text)
    → All IsName stack
    → ((above : List Text)
        → All IsName above
        → IsParted (clean_parts false above parts) (stays (length above) parts))
    → IsParted
        (clean_parts false (back false stack) parts)
        (elim (length stack) [ zero ↦ false | suc above ↦ stays above parts ])
back-IsParted [] parts h k = inr (clean_parts-starts_up (up ∷ []) parts starts_up-up, refl)
back-IsParted (last ∷ stack) parts h k = rw h.0.not_up (k stack h.1)

-- A path that stays below its start is cleaned to names, and any other to one that begins with `..`.
clean_parts-stays :
    (stack parts : List Text)
    → All IsName stack
    → AreParts parts
    → IsParted (clean_parts false stack parts) (stays (length stack) parts)
unfolding clean_parts stays
clean_parts-stays stack [] h p = inl (h, refl)
clean_parts-stays stack (part ∷ parts) h p =
    elim (Bool-cases (is_empty part || text_eq part here)) [
      | inl e ↦ rw e (clean_parts-stays stack parts h p.1)
      | inr e ↦ elim (Bool-cases (text_eq part up)) [
        | inl q ↦
            rw (e, q) (back-IsParted stack parts h (λ above k. clean_parts-stays above parts k p.1))
        | inr q ↦
            let name : IsName part = record {
              whole = p.0;
              filled = ground arith;
              not_here = ground arith;
              not_up = q;
            } in
            rw (e, q) (clean_parts-stays (part ∷ stack) parts (name, h) p.1)
      ]
    ]

-- What stands behind the first part of a path: nothing, or a slash and more.
abbrev IsTail : Text → Type 0
IsTail tail = (tail ≡ []) ⊎ ((more : Text) × (tail ≡ slash ∷ more))

IsTail-append : (tail last : Text) → IsTail tail → IsTail (tail ++ (slash ∷ last))
IsTail-append tail last (inl e) = inr (last, rw e)
IsTail-append tail last (inr (more, e)) = inr (more ++ (slash ∷ last), rw e)

abbrev first_part : Text → List Text → Text
first_part last [] = last
first_part last (part ∷ stack) = first_part part stack

relative-first :
    (last : Text) (stack : List Text)
    → (tail : Text) × IsTail tail × (relative (last ∷ stack) ≡ first_part last stack ++ tail)
unfolding relative
relative-first last [] = ([], inl refl, rw append-nil)
relative-first last (part ∷ stack) =
    let (tail, t, q) = relative-first part stack in
    (
      tail ++ (slash ∷ last),
      IsTail-append tail last t,
      rw (q, append_assoc (first_part part stack) tail (slash ∷ last)),
    )

first_part-IsName :
    (last : Text) (stack : List Text) → All IsName (last ∷ stack) → IsName (first_part last stack)
first_part-IsName last [] h = h.0
first_part-IsName last (part ∷ stack) h = first_part-IsName part stack h.1

first_part-up :
    (last : Text) (stack : List Text) → starts_up (last ∷ stack) ≡ true → first_part last stack ≡ up
unfolding starts_up
first_part-up last [] h = text_eq→eq last up h
first_part-up last (part ∷ stack) h = first_part-up part stack h

-- A path whose first part is a name does not escape.
is_escape-name : (part tail : Text) → IsName part → IsTail tail → is_escape (part ++ tail) ≡ false
unfolding is_part has_prefix text_eq
is_escape-name [] tail n t = absurd (let f = n.filled in cc)
is_escape-name (x ∷ []) tail n (inl e) = rw e (ground (arith, n.not_up))
is_escape-name (x ∷ []) tail n (inr (more, e)) = rw e (ground (arith, n.not_up))
is_escape-name (x ∷ y ∷ []) tail n (inl e) = rw e (ground (arith, n.not_up))
is_escape-name (x ∷ y ∷ []) tail n (inr (more, e)) = rw e (ground (arith, n.not_up))
is_escape-name (x ∷ y ∷ z ∷ rest) tail n t = ground (arith, n.whole)

is_escape-up : (tail : Text) → IsTail tail → is_escape (up ++ tail) ≡ true
unfolding has_prefix text_eq
is_escape-up tail (inl e) = rw e
is_escape-up tail (inr (more, e)) = rw e

relative_path-names :
    (stack : List Text) → All IsName stack → is_escape (relative_path stack) ≡ false
unfolding has_prefix text_eq
relative_path-names [] h = refl
relative_path-names (last ∷ stack) h =
    let (tail, t, q) = relative-first last stack in
    rw q (is_escape-name (first_part last stack) tail (first_part-IsName last stack h) t)

relative_path-up :
    (stack : List Text) → starts_up stack ≡ true → is_escape (relative_path stack) ≡ true
unfolding starts_up
relative_path-up [] h = absurd cc
relative_path-up (last ∷ stack) h =
    let (tail, t, q) = relative-first last stack in
    rw (q, first_part-up last stack h) (is_escape-up tail t)

parted-is_escape :
    (stack : List Text) (b : Bool) → IsParted stack b → is_escape (relative_path stack) ≡ not b
parted-is_escape stack b (inl (names, e)) = relative_path-names stack names ∙ rw e
parted-is_escape stack b (inr (begins, e)) = relative_path-up stack begins ∙ rw e

clean-is_escape :
    (path : Text) → is_abs path ≡ false → is_escape (clean path) ≡ not (stays 0 (split_path path))
unfolding clean
clean-is_escape path h = rw h (
    parted-is_escape (clean_parts false [] (split_path path)) (stays 0 (split_path path))
      (clean_parts-stays [] (split_path path) tt (split_path-AreParts path)))

-- ValidateSubpath accepts exactly the relative paths that are not empty, hold no NUL byte, and, followed
-- part by part, never step above their start.
pub validate_subpath_iff :
    (path : Text)
    → (validate_subpath path ≡ none) ↔ (
        (is_empty path ≡ false)
        × (has_nul path ≡ false)
        × (is_abs path ≡ false)
        × (stays 0 (split_path path) ≡ true))
unfolding validate_subpath
validate_subpath_iff path = elim (Bool-cases (is_abs path)) [
  | inl e ↦ ground arith
  | inr e ↦ let same = clean-is_escape path e in ground (arith, same)
]
