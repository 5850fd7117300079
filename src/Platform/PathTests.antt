-- ===== src/Platform/PathTests.antt =====
-- A reader on the root /r whose files hold a link, and the theorems about paths at it.
use capagent.Base.{
  ℕ, ◌+◌, ◌*◌, ◌≤◌, ◌≡◌, ◌↔◌, Text, List, [], ◌∷◌, true, false, Option, none, some, codes, is_empty,
  text_eq, length, refl, arith,
}
use capagent.Platform.Path.{split_path, is_abs, clean}
use capagent.Platform.Subpath.{has_nul, validate_subpath}
use capagent.Platform.MemoryPath.{
  VirtualFile, Files, escape, too_many_links, within_memory_root, resolve_path,
}
use capagent.Platform.MemoryReader.{
  ScopedError, walk, ScopedMemReader, new_scoped_mem_reader, add_node, add_dir, add_file,
  add_symlink, read_file, read_link,
}
use capagent.Platform.Below.{stays, validate_subpath_iff}
use capagent.Platform.WalkEnds.{LinksWithin, nothing-LinksWithin, add_node-LinksWithin}
use capagent.Platform.Inside.{read_file-IsInside, read_file-returns}

program : Unit {0}
unfolding read_file read_link add_node text_eq stays resolve_path validate_subpath has_nul
program = tt

abbrev os : List ℕ
os = 7 ∷ 8 ∷ []

-- /r/etc/os is a link to ../lib/os, and /r/loop one to itself.
abbrev files : Files
unfolding add_node
files =
    add_symlink
      (add_symlink
        (add_symlink
          (add_file
            (add_dir (add_dir (add_dir (λ path. none) (codes "/r")) (codes "/r/etc/"))
              (codes "/r/lib"))
            (codes "/r/lib/os") os)
          (codes "/r/etc/os") (codes "../lib/os"))
        (codes "/r/loop") (codes "loop"))
      (codes "/r/out") (codes "../../etc")

abbrev reader : ScopedMemReader
unfolding add_node
reader = new_scoped_mem_reader (codes "//r/.") files 100

read-etc : read_file 20 false false false reader (codes "etc/./os") ≡ some (os, none)
unfolding program
read-etc = refl

read-loop :
    read_file 200 false false false reader (codes "loop") ≡ some ([], some (walk too_many_links))
unfolding program
read-loop = refl

read-out : read_file 20 false false false reader (codes "out") ≡ some ([], some (walk escape))
unfolding program
read-out = refl

link-etc : read_link 20 reader (codes "etc/os") ≡ some (codes "../lib/os", none)
unfolding program
link-etc = refl

links : LinksWithin 10 reader.files
unfolding program reader files
links = add_node-LinksWithin (codes "/r/out") _ (omega arith) (
    add_node-LinksWithin (codes "/r/loop") _ (omega arith) (
      add_node-LinksWithin (codes "/r/etc/os") _ (omega arith) (
        add_node-LinksWithin (codes "/r/lib/os") _ (omega arith) (
          add_node-LinksWithin (codes "/r/lib") _ (omega arith) (
            add_node-LinksWithin (codes "/r/etc/") _ (omega arith)
              (add_node-LinksWithin (codes "/r") _ (omega arith) nothing-LinksWithin))))))

read_file-returns_example :
    (result : List ℕ × Option ScopedError) × (read_file
        (length (split_path (codes "loop")) + 16 * (10 + 2) + 1)
        false
        false
        false
        reader
        (codes "loop")
      ≡ some result)
read_file-returns_example = read_file-returns 10 reader false false false (codes "loop") links

rooted : is_abs (codes "//r/.") ≡ true
rooted = refl

read_file-IsInside_example :
    (at : Text) × (node : VirtualFile) × (files at ≡ some node)
    × (within_memory_root at (clean (codes "//r/.")) ≡ true)
    × (node.content ≡ os)
    × (length os ≤ 100)
unfolding reader
read_file-IsInside_example =
    read_file-IsInside (codes "//r/.") files 100 20 false false false (codes "etc/./os") os rooted
      read-etc

validate_subpath_iff_example : (validate_subpath (codes "a/../b") ≡ none) ↔ (
    (is_empty (codes "a/../b") ≡ false)
    × (has_nul (codes "a/../b") ≡ false)
    × (is_abs (codes "a/../b") ≡ false)
    × (stays 0 (split_path (codes "a/../b")) ≡ true))
validate_subpath_iff_example = validate_subpath_iff (codes "a/../b")
