-- ===== src/Platform/Found.antt =====
-- What the walk of internal/platform/memory_path.go finds stands within the root.
use capagent.Base.{
  ℕ, zero, suc, ◌≡◌, Text, List, [], ◌∷◌, Bool, true, Option, none, some, text_eq_refl, All, refl,
  arith,
}
use capagent.Platform.Path.{rooted_path}
use capagent.Platform.Split.{IsName, AreParts, split_path-AreParts}
use capagent.Platform.Confined.{IsConfined, IsSafe, base-filled, walk_turn-IsSafe}
use capagent.Platform.MemoryPath.{
  Files, MemoryWalk, WalkResult, found, failed, WalkTurn, proceeds, stops, Lookup, has, lacks,
  within_memory_root, lookup, walk_turn, arrive, follow, go_on, resolve_walk, start_walk,
}

module _ (base : List Text) (base_names : All IsName base) where
  -- A file that is found stands where the result says, within the root.
  abbrev pub IsInside : Files → Option WalkResult → Type 0
  IsInside files none = Unit
  IsInside files (some (failed e)) = Unit
  IsInside files (some (found node path)) =
      (within_memory_root path (rooted_path base) ≡ true) × (lookup files path ≡ has node)

  arrive-IsInside :
      (files : Files) (path : Text) (l : Lookup)
      → within_memory_root path (rooted_path base) ≡ true
      → lookup files path ≡ l
      → IsInside files (some (arrive path l))
  arrive-IsInside files path (has node) h e = (h, e)
  arrive-IsInside files path (lacks e) h q = tt

  follow-IsInside :
      (files : Files) (again : MemoryWalk → Option WalkResult) (t : WalkTurn)
      → IsSafe base t
      → ((w : MemoryWalk) → IsConfined base w → IsInside files (again w))
      → IsInside files (follow again t)
  follow-IsInside files again (proceeds w) c h = h w c
  follow-IsInside files again (stops e) c h = tt

  go_on-IsInside :
      (files : Files) (again : MemoryWalk → Option WalkResult) (w : MemoryWalk) (ps : List Text)
      → IsConfined base w
      → AreParts ps
      → ((v : MemoryWalk) → IsConfined base v → IsInside files (again v))
      → IsInside files (go_on again files w ps)
  go_on-IsInside files again w [] c p h =
      arrive-IsInside files w.current (lookup files w.current) (rw c.current_is c.within) refl
  go_on-IsInside files again w (part ∷ rest) c p h =
      follow-IsInside files again (walk_turn files w part rest)
        (walk_turn-IsSafe base base_names files w part rest c p.0 p.1) h

  pub resolve_walk-IsInside :
      (fuel : ℕ) (files : Files) (w : MemoryWalk)
      → IsConfined base w
      → IsInside files (resolve_walk fuel files w)
  unfolding resolve_walk
  resolve_walk-IsInside zero files w c = tt
  resolve_walk-IsInside (suc fuel) files w c =
      go_on-IsInside files (resolve_walk fuel files) w w.pending c c.parts
        (resolve_walk-IsInside fuel files)

  pub start_walk-IsConfined :
      (path : Text) (follow_final : Bool) (limit : ℕ)
      → IsConfined base (start_walk path (rooted_path base) follow_final limit)
  start_walk-IsConfined path follow_final limit = record {
    root_is = refl;
    stack = base;
    names = base_names;
    current_is = rw (base-filled base);
    within = rw (base-filled base, text_eq_refl (rooted_path base)) (ground arith);
    parts = split_path-AreParts path;
  }
