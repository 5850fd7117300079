-- ===== src/Platform/Within.antt =====
-- Paths within the root of an in-memory reader (withinMemoryRoot of internal/platform/memory_path.go).
use capagent.Base.{
  ◌<◌, ◌≡◌, Text, List, [], ◌∷◌, ◌++◌, true, false, ◌||◌, is_empty, text_eq, text_eq→eq, length,
  length-append, text_eq_sym, arith, Bool-cases, inl, inr, append_assoc, subst,
}
use capagent.Platform.Path.{slash, top, has_prefix, absolute, rooted_path}
use capagent.Platform.Parts.{has_prefix-append, has_prefix-longer, has_prefix-length}
use capagent.Platform.MemoryPath.{within_memory_root}

below_root : (root part : Text) → has_prefix (root ++ (slash ∷ part)) (root ++ (slash ∷ [])) ≡ true
below_root root part =
    subst (λ w. has_prefix w (root ++ (slash ∷ [])) ≡ true) (append_assoc root (slash ∷ []) part)
      (has_prefix-append (root ++ (slash ∷ [])) part)

filled-length : (root : Text) → is_empty root ≡ false → 0 < length root
filled-length [] h = absurd cc
filled-length (x ∷ root) h = omega arith

-- A path within the root stays there when a name is put behind it.
pub within-join :
    (stack : List Text) (part root : Text)
    → is_empty root ≡ false
    → within_memory_root (rooted_path stack) root ≡ true
    → within_memory_root (rooted_path (part ∷ stack)) root ≡ true
unfolding absolute
within-join stack part root filled h = elim (Bool-cases (text_eq root top)) [
  | inl e ↦ rw (filled, e)
  | inr e ↦ rw (filled, e) (deeper stack (rw (filled, e) at h) e)
]
  where
    deeper :
        (stack : List Text)
        → (text_eq (rooted_path stack) root
            || has_prefix (rooted_path stack) (root ++ (slash ∷ [])))
          ≡ true
        → text_eq root top ≡ false
        → (text_eq (absolute stack ++ (slash ∷ part)) root
            || has_prefix (absolute stack ++ (slash ∷ part)) (root ++ (slash ∷ [])))
          ≡ true
    deeper [] k e = elim (Bool-cases (text_eq root top)) [
      | inl q ↦ absurd cc
      | inr q ↦
          let long =
            has_prefix-length top (root ++ (slash ∷ [])) (rw (text_eq_sym top root, e) at k) in
          absurd (omega (arith, long, length-append root (slash ∷ []), filled-length root filled))
    ]
    deeper (last ∷ stack) k e = elim (Bool-cases (text_eq (absolute (last ∷ stack)) root)) [
      | inl q ↦
          let same = text_eq→eq (absolute (last ∷ stack)) root q in
          let behind = below_root root part in rw same (ground (arith, behind))
      | inr q ↦
          let longer =
            has_prefix-longer (absolute (last ∷ stack)) (slash ∷ part) (root ++ (slash ∷ []))
              (ground arith) in
          ground (arith, longer)
    ]
