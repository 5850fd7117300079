-- ===== src/Platform/Inside.antt =====
-- ReadFile of ScopedMemReader (internal/platform/scoped_reader.go) stays within its root, and returns.
use capagent.Base.{
  ℕ, ◌+◌, ◌*◌, ◌≤◌, ◌≡◌, ltb, Text, List, [], Bool, true, false, Option, none, some, length, min,
  refl, arith, Bool-cases, inl, inr, ap, sym, ◌∙◌, All,
}
use capagent.Platform.Path.{split_path, is_abs, clean, rooted_path}
use capagent.Platform.Parts.{clean-rooted}
use capagent.Platform.Split.{IsName}
use capagent.Platform.Exact.{take_all}
use capagent.Platform.MemoryPath.{
  VirtualFile, Files, WalkResult, found, failed, within_memory_root, resolve_walk, resolve_path,
  start_walk,
}
use capagent.Platform.MemoryReader.{
  ScopedError, ScopedMemReader, new_scoped_mem_reader, validate_read, regular_mode, copy_content,
  read_virtual, read_resolved, on_answer, refused_or, read_file, max_symlink_depth,
}
use capagent.Platform.Found.{IsInside, resolve_walk-IsInside, start_walk-IsConfined}
use capagent.Platform.WalkEnds.{LinksWithin, lookup_node-has, resolve_walk-Answers}

-- A copy without error is the whole content, within the limit.
copy_content-whole :
    (mode : Option ScopedError) (content bytes : List ℕ) (limit : ℕ) (ended : Bool)
    → copy_content mode content limit ended ≡ (bytes, none)
    → (content ≡ bytes) × (length bytes ≤ limit)
copy_content-whole (some e) content bytes limit ended h = absurd (let q = ap (λ p. p.1) h in cc)
copy_content-whole none content bytes limit ended h =
    elim (Bool-cases (ltb limit (length content))) [
      | inl e ↦ absurd (let q = rw e at (ap (λ p. p.1) h) in cc)
      | inr e ↦
          let short : min (length content) limit ≡ length content = ground arith in
          let same : content ≡ bytes =
            sym (take_all (length content) content (omega arith)) ∙ rw short at (ap (λ p. p.0) h) in
          (same, rw (sym same) (ground arith))
    ]

read_virtual-whole :
    (before after : Bool) (node : VirtualFile) (limit : ℕ) (bytes : List ℕ)
    → read_virtual before after node limit ≡ (bytes, none)
    → (node.content ≡ bytes) × (length bytes ≤ limit)
unfolding read_virtual
read_virtual-whole true after node limit bytes h = absurd (let q = ap (λ p. p.1) h in cc)
read_virtual-whole false after node limit bytes h =
    copy_content-whole (regular_mode node.mode) node.content bytes limit after h

-- The file that stands behind bytes that are read without error.
abbrev IsStored : Files → Text → List ℕ → ℕ → Type 0
IsStored files root bytes limit =
    (at : Text) × (node : VirtualFile) × (files at ≡ some node)
    × (within_memory_root at root ≡ true)
    × (node.content ≡ bytes)
    × (length bytes ≤ limit)

abbrev error_of : Option (List ℕ × Option ScopedError) → Option ScopedError
error_of none = none
error_of (some result) = result.1

answered-IsStored :
    (base : List Text) (names : All IsName base) (before after : Bool) (files : Files) (limit : ℕ)
    (bytes : List ℕ) (o : Option WalkResult)
    → IsInside base names files o
    → on_answer (read_resolved before after limit) o ≡ some (bytes, none)
    → IsStored files (rooted_path base) bytes limit
answered-IsStored base names before after files limit bytes none i h = absurd cc
answered-IsStored base names before after files limit bytes (some (failed e)) i h =
    absurd (let q = ap error_of h in cc)
answered-IsStored base names before after files limit bytes (some (found node at)) i h =
    let (same, short) = read_virtual-whole before after node limit bytes cc in
    (at, node, lookup_node-has (files at) node i.1, i.0, same, short)

refused-none :
    (e : Option ScopedError) (o : Option (List ℕ × Option ScopedError)) (bytes : List ℕ)
    → refused_or e o ≡ some (bytes, none)
    → o ≡ some (bytes, none)
refused-none (some e) o bytes h = absurd (let q = ap error_of h in cc)
refused-none none o bytes h = h

-- What ReadFile of a reader on a rooted root returns without error is the whole content, within the limit,
-- of a file that stands within the cleaned root, whatever links and `..` the path leads through.
pub read_file-IsInside :
    (root : Text) (files : Files) (limit fuel : ℕ) (ended before after : Bool) (path : Text)
    (bytes : List ℕ)
    → is_abs root ≡ true
    → read_file fuel ended before after (new_scoped_mem_reader root files limit) path
      ≡ some (bytes, none)
    → (at : Text) × (node : VirtualFile) × (files at ≡ some node)
      × (within_memory_root at (clean root) ≡ true)
      × (node.content ≡ bytes)
      × (length bytes ≤ limit)
unfolding read_file resolve_path
read_file-IsInside root files limit fuel ended before after path bytes rooted h =
    let (base, names, q) = clean-rooted root rooted in
    let inside =
      resolve_walk-IsInside base names fuel files
        (start_walk path (rooted_path base) true max_symlink_depth)
        (start_walk-IsConfined base names path true max_symlink_depth) in
    let answered =
      refused-none (validate_read (new_scoped_mem_reader root files limit) path ended)
        (on_answer (read_resolved before after limit)
          (resolve_walk fuel files (start_walk path (clean root) true max_symlink_depth)))
        bytes h in
    rw q (
      answered-IsStored base names before after files limit bytes
        (resolve_walk fuel files (start_walk path (rooted_path base) true max_symlink_depth)) inside
        (rw q at answered))

on_answer-some {ℓ} :
    {A : Type ℓ} (f : WalkResult → A) (o : Option WalkResult) (r : WalkResult)
    → o ≡ some r
    → on_answer f o ≡ some (f r)
on_answer-some f o r h = rw h

refused-some :
    (e : Option ScopedError) (o : Option (List ℕ × Option ScopedError))
    (result : List ℕ × Option ScopedError)
    → o ≡ some result
    → (r : List ℕ × Option ScopedError) × (refused_or e o ≡ some r)
refused-some (some e) o result h = (([], some e), refl)
refused-some none o result h = (result, h)

-- ReadFile always returns, loops of links included: if no link is longer than `size` bytes, the walk
-- takes no more turns than the path has parts, and `size + 2` for each of 16 links.
pub read_file-returns :
    (size : ℕ) (r : ScopedMemReader) (ended before after : Bool) (path : Text)
    → LinksWithin size r.files
    → (result : List ℕ × Option ScopedError) × (read_file
          (length (split_path path) + 16 * (size + 2) + 1)
          ended
          before
          after
          r
          path
        ≡ some result)
unfolding read_file resolve_path
read_file-returns size r ended before after path bound =
    let (answer, q) =
      resolve_walk-Answers size (length (split_path path) + 16 * (size + 2) + 1) r.files
        (start_walk path r.root true max_symlink_depth) bound (omega arith) in
    refused-some (validate_read r path ended) _ _
      (on_answer-some (read_resolved before after r.file_bytes) _ answer q)
