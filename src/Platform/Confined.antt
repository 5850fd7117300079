-- ===== src/Platform/Confined.antt =====
-- The walk of internal/platform/memory_path.go does not leave a rooted root.
use capagent.Base.{
  ℕ, ◌+◌, ◌≡◌, ltb, Text, List, [], ◌∷◌, ◌++◌, true, false, not, ◌&&◌, ◌||◌, is_empty, text_eq,
  text_eq_refl, All, All-append, arith, Bool-cases, inl, inr,
}
use capagent.Platform.Path.{here, up, top, split_path, is_abs, rooted_path, join_part}
use capagent.Platform.Parts.{rooted_path-cons, join_part-rooted_path, dir-rooted_path, without_last}
use capagent.Platform.Split.{IsName, is_part, AreParts, split_path-AreParts}
use capagent.Platform.Within.{within-join}
use capagent.Platform.MemoryPath.{
  Files, MemoryWalk, WalkTurn, proceeds, stops, Lookup, has, lacks, within_memory_root, lookup,
  parent_of, go_up, step_up, into_target, expand, enter_node, walk_turn, is_last, is_symlink,
  is_directory,
}

module _ (base : List Text) where
  -- The walk stands at a clean path within the root.
  pub record IsConfined (w : MemoryWalk) : Type 0 where
    pub root_is : w.root ≡ rooted_path base
    pub stack : List Text
    pub names : All IsName stack
    pub current_is : w.current ≡ rooted_path stack
    pub within : within_memory_root (rooted_path stack) (rooted_path base) ≡ true
    pub parts : AreParts w.pending

  abbrev pub IsSafe : WalkTurn → Type 0
  IsSafe (proceeds w) = IsConfined w
  IsSafe (stops e) = Unit

  pub base-filled : is_empty (rooted_path base) ≡ false
  base-filled = let (path, q) = rooted_path-cons base in rw q

  without_last-names : (stack : List Text) → All IsName stack → All IsName (without_last stack)
  without_last-names [] h = tt
  without_last-names (last ∷ stack) h = h.1

  parent_of-rooted :
      (w : MemoryWalk) (c : IsConfined w) → parent_of w ≡ rooted_path (without_last c.stack)
  unfolding join_part
  parent_of-rooted w c = rw (c.root_is, base-filled, c.current_is) (dir-rooted_path c.stack c.names)

  go_up-IsSafe :
      (w : MemoryWalk) (parent : Text) (rest : List Text) (c : IsConfined w)
      → AreParts rest
      → parent ≡ rooted_path (without_last c.stack)
      → IsSafe (go_up w parent rest)
  go_up-IsSafe w parent rest c p e =
      elim (Bool-cases (text_eq w.current w.root && not (text_eq w.root top))) [
        | inl q ↦ rw q tt
        | inr q ↦ elim (Bool-cases (within_memory_root parent w.root)) [
          | inr out ↦ rw (q, out) tt
          | inl inside ↦
              rw (q, inside)
                (record {
                  root_is = c.root_is;
                  stack = without_last c.stack;
                  names = without_last-names c.stack c.names;
                  current_is = e;
                  within = rw (e, c.root_is) at inside;
                  parts = p;
                })
        ]
      ]

  step_up-IsSafe :
      (w : MemoryWalk) (rest : List Text) → IsConfined w → AreParts rest → IsSafe (step_up w rest)
  unfolding step_up
  step_up-IsSafe w rest c p = go_up-IsSafe w (parent_of w) rest c p (parent_of-rooted w c)

  -- The walk goes on at the same place with other parts.
  same_place :
      (w : MemoryWalk) (hops : ℕ) (parts : List Text)
      → IsConfined w
      → AreParts parts
      → IsConfined (record w { hops = hops; pending = parts })
  same_place w hops parts c p = record {
    root_is = c.root_is;
    stack = c.stack;
    names = c.names;
    current_is = c.current_is;
    within = c.within;
    parts = p;
  }

  split_rest : (path : Text) (rest : List Text) → AreParts rest → AreParts (split_path path ++ rest)
  split_rest path rest p =
      All-append (λ part. is_part part ≡ true) (split_path path) rest (split_path-AreParts path) p

  module _ (base_names : All IsName base) where
    back_at_root :
        (w : MemoryWalk) (hops : ℕ) (parts : List Text)
        → IsConfined w
        → AreParts parts
        → IsConfined (record w { current = w.root; hops = hops; pending = parts })
    back_at_root w hops parts c p = record {
      root_is = c.root_is;
      stack = base;
      names = base_names;
      current_is = c.root_is;
      within = rw (base-filled, text_eq_refl (rooted_path base)) (ground arith);
      parts = p;
    }

    into_target-IsSafe :
        (w : MemoryWalk) (hops : ℕ) (target : Text) (rest : List Text)
        → IsConfined w
        → AreParts rest
        → IsSafe (into_target (record w { hops = hops }) target rest)
    into_target-IsSafe w hops target rest c p =
        let filled : is_empty w.root ≡ false = rw c.root_is base-filled in
        elim (Bool-cases (is_abs target)) [
          | inr e ↦
              rw e (same_place w hops (split_path target ++ rest) c (split_rest target rest p))
          | inl e ↦ elim (Bool-cases (within_memory_root target w.root)) [
            | inr out ↦ rw (e, out) tt
            | inl inside ↦ rw (e, inside, filled) (back_at_root w hops _ c (split_rest _ rest p))
          ]
        ]

    expand-IsSafe :
        (w : MemoryWalk) (target : Text) (rest : List Text)
        → IsConfined w
        → AreParts rest
        → IsSafe (expand w target rest)
    unfolding expand
    expand-IsSafe w target rest c p = elim (Bool-cases (ltb w.limit (w.hops + 1))) [
      | inl e ↦ rw e tt
      | inr e ↦ elim (Bool-cases (is_empty target)) [
        | inl q ↦ rw (e, q) tt
        | inr q ↦ rw (e, q) (into_target-IsSafe w (w.hops + 1) target rest c p)
      ]
    ]

    enter_node-IsSafe :
        (w : MemoryWalk) (part : Text) (rest : List Text) (l : Lookup)
        → IsConfined w
        → IsName part
        → AreParts rest
        → IsSafe (enter_node w (join_part w.current part) rest l)
    enter_node-IsSafe w part rest (lacks e) c n p = tt
    enter_node-IsSafe w part rest (has node) c n p =
        elim (Bool-cases (is_symlink node.kind && (w.follow_final || not (is_last rest)))) [
          | inl q ↦ rw q (expand-IsSafe w node.target rest c p)
          | inr q ↦ elim (Bool-cases (not (is_last rest) && not (is_directory node.kind))) [
            | inl e ↦ rw (q, e) tt
            | inr e ↦
                rw (q, e)
                  (record {
                    root_is = c.root_is;
                    stack = part ∷ c.stack;
                    names = (n, c.names);
                    current_is = rw c.current_is (join_part-rooted_path c.stack part c.names n);
                    within = within-join c.stack part (rooted_path base) base-filled c.within;
                    parts = p;
                  })
          ]
        ]

    pub walk_turn-IsSafe :
        (files : Files) (w : MemoryWalk) (part : Text) (rest : List Text)
        → IsConfined w
        → is_part part ≡ true
        → AreParts rest
        → IsSafe (walk_turn files w part rest)
    unfolding walk_turn
    walk_turn-IsSafe files w part rest c whole p =
        elim (Bool-cases (is_empty part || text_eq part here)) [
          | inl e ↦ rw e (same_place w w.hops rest c p)
          | inr e ↦ elim (Bool-cases (text_eq part up)) [
            | inl q ↦ rw (e, q) (step_up-IsSafe w rest c p)
            | inr q ↦
                rw (e, q)
                  (enter_node-IsSafe w part rest (lookup files (join_part w.current part)) c
                    (record {
                      whole = whole;
                      filled = ground arith;
                      not_here = ground arith;
                      not_up = q;
                    })
                    p)
          ]
        ]
