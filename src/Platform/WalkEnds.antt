-- ===== src/Platform/WalkEnds.antt =====
-- The walk of internal/platform/memory_path.go ends: each turn takes a part or follows a link, and the
-- links are bounded.
use capagent.Base.{
  ℕ, zero, suc, ◌+◌, ◌-◌, ◌*◌, ◌≤◌, ◌<◌, ◌≡◌, ◌==◌, ltb, Text, List, [], ◌∷◌, not, ◌&&◌, ◌||◌,
  Option, none, some, is_empty, text_eq, length, length-append, refl, arith, Bool-cases, inl, inr,
  ap,
}
use capagent.Platform.Path.{
  slash, here, up, split_path, has_prefix, drop_prefix, is_abs, clean, join_part, trim_prefix,
  trim_slashes,
}
use capagent.Platform.Split.{split_path-cons}
use capagent.Platform.MemoryReader.{add_node}
use capagent.Platform.MemoryPath.{
  VirtualFile, Files, MemoryWalk, WalkResult, failed, WalkTurn, proceeds, stops, Lookup, has, lacks,
  within_memory_root, lookup, parent_of, go_up, step_up, into_target, expand, enter_node, walk_turn,
  arrive, follow, go_on, resolve_walk, is_last, is_symlink, is_directory, lookup_node,
  lookup_forced,
}

split_path-length : (path : Text) → length (split_path path) ≤ length path + 1
unfolding split_path
split_path-length [] = omega arith
split_path-length (x ∷ xs) = elim (Bool-cases (x == slash)) [
  | inl e ↦ rw e (omega (arith, split_path-length xs))
  | inr e ↦
      let (part, parts, q) = split_path-cons xs in
      let rest = rw q at (split_path-length xs) in rw (e, q) (omega arith)
]

drop_prefix-length : (path prefix : Text) → length (drop_prefix path prefix) ≤ length path
unfolding drop_prefix
drop_prefix-length path [] = omega arith
drop_prefix-length [] (y ∷ ys) = omega arith
drop_prefix-length (x ∷ xs) (y ∷ ys) = omega (arith, drop_prefix-length xs ys)

trim_prefix-length : (path prefix : Text) → length (trim_prefix path prefix) ≤ length path
trim_prefix-length path prefix = elim (Bool-cases (has_prefix path prefix)) [
  | inl e ↦ rw e (drop_prefix-length path prefix)
  | inr e ↦ rw e (omega arith)
]

lookup_forced-has :
    (m node : VirtualFile) (e : Option Text) → lookup_forced m e ≡ has node → m ≡ node
lookup_forced-has m node none h = cc
lookup_forced-has m node (some e) h = absurd cc

pub lookup_node-has :
    (o : Option VirtualFile) (node : VirtualFile) → lookup_node o ≡ has node → o ≡ some node
lookup_node-has none node h = absurd cc
lookup_node-has (some m) node h = ap (λ w. some w) (lookup_forced-has m node m.forced_err h)

-- One link less to follow.
spare_step :
    (limit hops each : ℕ)
    → hops < limit
    → (limit - hops) * each ≡ (limit - (hops + 1)) * each + each
spare_step limit hops each h =
    let one_less : limit - hops ≡ (limit - (hops + 1)) + 1 = omega arith in
    rw one_less (omega arith)

-- Every link is at most `size` bytes long.
abbrev pub LinksWithin : ℕ → Files → Type 0
LinksWithin size files =
    (path : Text) (node : VirtualFile) → files path ≡ some node → length node.target ≤ size

-- The bound holds for the files that the calls of a reader leave.
pub nothing-LinksWithin : {size : ℕ} → LinksWithin size (λ path. none)
nothing-LinksWithin path node h = absurd cc

pub add_node-LinksWithin :
    {size : ℕ} {files : Files} (path : Text) (node : VirtualFile)
    → length node.target ≤ size
    → LinksWithin size files
    → LinksWithin size (add_node files path node)
unfolding add_node
add_node-LinksWithin path node small bound at stored h = elim (Bool-cases (is_empty path)) [
  | inl e ↦ bound at stored (rw e at h)
  | inr e ↦ elim (Bool-cases (text_eq (clean path) at)) [
    | inl q ↦ let same : node ≡ stored = (let h' = rw (e, q) at h in cc) in rw (← same) small
    | inr q ↦ bound at stored (rw (e, q) at h)
  ]
]

module _ (size : ℕ) where
  -- The parts that are left, and those that the links can still bring.
  abbrev pub fuel_for : MemoryWalk → ℕ
  fuel_for w = length w.pending + (w.limit - w.hops) * (size + 2)

  -- A turn that goes on has less before it, once the part is taken.
  abbrev Shrinks : MemoryWalk → List Text → WalkTurn → Type 0
  Shrinks w rest (proceeds w') = fuel_for w' ≤ length rest + (w.limit - w.hops) * (size + 2)
  Shrinks w rest (stops e) = Unit

  go_up-Shrinks :
      (w : MemoryWalk) (parent : Text) (rest : List Text) → Shrinks w rest (go_up w parent rest)
  go_up-Shrinks w parent rest = ground arith

  into_target-Shrinks :
      (w : MemoryWalk) (target : Text) (rest : List Text)
      → w.hops < w.limit
      → length target ≤ size
      → Shrinks w rest (into_target (record w { hops = w.hops + 1 }) target rest)
  into_target-Shrinks w target rest h small =
      let spare = spare_step w.limit w.hops (size + 2) h in
      let whole = split_path-length target in
      let trimmed = split_path-length (trim_prefix target (trim_slashes w.root)) in
      let shorter = trim_prefix-length target (trim_slashes w.root) in
      elim (Bool-cases (is_abs target)) [
        | inr e ↦ rw e (omega (arith, length-append (split_path target) rest))
        | inl e ↦ elim (Bool-cases (within_memory_root target w.root)) [
          | inr out ↦ rw (e, out) tt
          | inl inside ↦ elim (Bool-cases (is_empty w.root)) [
            | inl q ↦ rw (e, inside, q) (omega (arith, length-append (split_path target) rest))
            | inr q ↦
                rw (e, inside, q)
                  (omega (
                    arith,
                    length-append (split_path (trim_prefix target (trim_slashes w.root))) rest,
                  ))
          ]
        ]
      ]

  expand-Shrinks :
      (w : MemoryWalk) (target : Text) (rest : List Text)
      → length target ≤ size
      → Shrinks w rest (expand w target rest)
  unfolding expand
  expand-Shrinks w target rest small = elim (Bool-cases (ltb w.limit (w.hops + 1))) [
    | inl e ↦ rw e tt
    | inr e ↦ elim (Bool-cases (is_empty target)) [
      | inl q ↦ rw (e, q) tt
      | inr q ↦ rw (e, q) (into_target-Shrinks w target rest (ground arith) small)
    ]
  ]

  enter_node-Shrinks :
      (files : Files) (w : MemoryWalk) (next : Text) (rest : List Text) (l : Lookup)
      → LinksWithin size files
      → lookup files next ≡ l
      → Shrinks w rest (enter_node w next rest l)
  enter_node-Shrinks files w next rest (lacks e) b k = tt
  enter_node-Shrinks files w next rest (has node) b k =
      elim (Bool-cases (is_symlink node.kind && (w.follow_final || not (is_last rest)))) [
        | inl q ↦
            rw q (
              expand-Shrinks w node.target rest (b next node (lookup_node-has (files next) node k)))
        | inr q ↦ elim (Bool-cases (not (is_last rest) && not (is_directory node.kind))) [
          | inl e ↦ rw (q, e) tt
          | inr e ↦ rw (q, e) (omega arith)
        ]
      ]

  walk_turn-Shrinks :
      (files : Files) (w : MemoryWalk) (part : Text) (rest : List Text)
      → LinksWithin size files
      → Shrinks w rest (walk_turn files w part rest)
  unfolding walk_turn step_up
  walk_turn-Shrinks files w part rest b = elim (Bool-cases (is_empty part || text_eq part here)) [
    | inl e ↦ rw e (omega arith)
    | inr e ↦ elim (Bool-cases (text_eq part up)) [
      | inl q ↦ rw (e, q) (go_up-Shrinks w (parent_of w) rest)
      | inr q ↦
          rw (e, q)
            (enter_node-Shrinks files w (join_part w.current part) rest
              (lookup files (join_part w.current part)) b refl)
    ]
  ]

  abbrev Answers : Option WalkResult → Type 0
  Answers o = (r : WalkResult) × (o ≡ some r)

  follow-Answers :
      (again : MemoryWalk → Option WalkResult) (w : MemoryWalk) (rest : List Text) (t : WalkTurn)
      → Shrinks w rest t
      → ((v : MemoryWalk)
          → fuel_for v ≤ length rest + (w.limit - w.hops) * (size + 2)
          → Answers (again v))
      → Answers (follow again t)
  follow-Answers again w rest (proceeds v) s h = h v s
  follow-Answers again w rest (stops e) s h = (failed e, refl)

  go_on-Answers :
      (again : MemoryWalk → Option WalkResult) (files : Files) (w : MemoryWalk) (ps : List Text)
      → LinksWithin size files
      → ((v : MemoryWalk)
          → fuel_for v < length ps + (w.limit - w.hops) * (size + 2)
          → Answers (again v))
      → Answers (go_on again files w ps)
  go_on-Answers again files w [] b h = (arrive w.current (lookup files w.current), refl)
  go_on-Answers again files w (part ∷ rest) b h =
      follow-Answers again w rest (walk_turn files w part rest)
        (walk_turn-Shrinks files w part rest b) (λ v k. h v (omega arith))

  pub resolve_walk-Answers :
      (fuel : ℕ) (files : Files) (w : MemoryWalk)
      → LinksWithin size files
      → fuel_for w < fuel
      → (r : WalkResult) × (resolve_walk fuel files w ≡ some r)
  unfolding resolve_walk
  resolve_walk-Answers zero files w b h = absurd (omega arith)
  resolve_walk-Answers (suc fuel) files w b h =
      go_on-Answers (resolve_walk fuel files) files w w.pending b
        (λ v k. resolve_walk-Answers fuel files v b (omega arith))
