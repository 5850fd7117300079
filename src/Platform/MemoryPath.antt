-- ===== src/Platform/MemoryPath.antt =====
-- The walk of internal/platform/memory_path.go over the files of an in-memory reader.
use capagent.Base.{
  ℕ, zero, suc, ◌+◌, ltb, Text, List, [], ◌∷◌, ◌++◌, Bool, true, false, not, ◌&&◌, ◌||◌,
  if◌then◌else◌, Option, none, some, is_empty, text_eq,
}
use capagent.Platform.Path.{
  slash, here, up, top, split_path, has_prefix, trim_prefix, trim_slashes, is_trimmed_empty, is_abs,
  join_part, dir,
}

pub data VirtualFileKind : Type 0 where
  regular directory symlink special : VirtualFileKind

-- The type bits of an `os.FileMode`.
pub data FileType : Type 0 where
  plain_type directory_type symlink_type other_type : FileType

-- The fields that a walk and the reads here take from a `VirtualFile`: of its mode, the type bits.
pub record VirtualFile : Type 0 where
  pub kind : VirtualFileKind
  pub mode : FileType
  pub content : List ℕ
  pub target : Text
  pub forced_err : Option Text

-- `ErrSubpathEscape`, `ENOTDIR`, `os.ErrNotExist`, `ELOOP`, `EINVAL`, and a forced error.
pub data WalkError : Type 0 where
  escape not_directory not_exist too_many_links not_link : WalkError
  forced : Text → WalkError

-- `mem.files`.
abbrev pub Files : Type 0
Files = Text → Option VirtualFile

pub record MemoryWalk : Type 0 where
  pub root : Text
  pub current : Text
  pub pending : List Text
  pub hops : ℕ
  pub limit : ℕ
  pub follow_final : Bool

-- The file and its path, or an error.
pub data WalkResult : Type 0 where
  found : VirtualFile → Text → WalkResult
  failed : WalkError → WalkResult

pub data WalkTurn : Type 0 where
  proceeds : MemoryWalk → WalkTurn
  stops : WalkError → WalkTurn

pub data Lookup : Type 0 where
  has : VirtualFile → Lookup
  lacks : WalkError → Lookup

abbrev pub is_symlink : VirtualFileKind → Bool
is_symlink symlink = true
is_symlink _ = false

abbrev pub is_directory : VirtualFileKind → Bool
is_directory directory = true
is_directory _ = false

abbrev pub within_memory_root : Text → Text → Bool
within_memory_root path root =
    if is_empty root || text_eq root top
    then true
    else text_eq path root || has_prefix path (root ++ (slash ∷ []))

abbrev pub lookup_forced : VirtualFile → Option Text → Lookup
lookup_forced node none = has node
lookup_forced node (some e) = lacks (forced e)

abbrev pub lookup_node : Option VirtualFile → Lookup
lookup_node none = lacks not_exist
lookup_node (some node) = lookup_forced node node.forced_err

abbrev pub lookup : Files → Text → Lookup
lookup files path = lookup_node (files path)

-- The parent that `..` leads to.
abbrev pub parent_of : MemoryWalk → Text
parent_of w =
    if is_empty w.root && (not (is_abs w.current) && is_trimmed_empty w.current)
    then join_part w.current up
    else dir w.current

abbrev pub go_up : MemoryWalk → Text → List Text → WalkTurn
go_up w parent rest =
    if (text_eq w.current w.root && not (text_eq w.root top))
      || not (within_memory_root parent w.root)
    then stops escape
    else proceeds (record w { current = parent; pending = rest })

-- `..`, with the parts that are left.
unfoldable pub step_up : MemoryWalk → List Text → WalkTurn
unfolding join_part dir has_prefix
step_up w rest = go_up w (parent_of w) rest

abbrev pub into_target : MemoryWalk → Text → List Text → WalkTurn
into_target w target rest =
    if is_abs target
    then (if not (within_memory_root target w.root)
        then stops escape
        else (if is_empty w.root
            then proceeds (record w { current = top; pending = split_path target ++ rest })
            else proceeds (record w {
              current = w.root;
              pending = split_path (trim_prefix target (trim_slashes w.root)) ++ rest;
            })))
    else proceeds (record w { pending = split_path target ++ rest })

-- expand.
unfoldable pub expand : MemoryWalk → Text → List Text → WalkTurn
unfolding split_path has_prefix trim_slashes
expand w target rest =
    if ltb w.limit (w.hops + 1)
    then stops too_many_links
    else if is_empty target
    then stops not_exist
    else into_target (record w { hops = w.hops + 1 }) target rest

-- `len(w.pending) == 0`.
abbrev pub is_last : List Text → Bool
is_last [] = true
is_last (x ∷ xs) = false

-- The turn of the loop at the file under the next path.
abbrev pub enter_node : MemoryWalk → Text → List Text → Lookup → WalkTurn
enter_node w next rest (lacks e) = stops e
enter_node w next rest (has node) =
    if is_symlink node.kind && (w.follow_final || not (is_last rest))
    then expand w node.target rest
    else if not (is_last rest) && not (is_directory node.kind)
    then stops not_directory
    else proceeds (record w { current = next; pending = rest })

-- One turn of the loop, with the first part and those behind it.
unfoldable pub walk_turn : Files → MemoryWalk → Text → List Text → WalkTurn
unfolding step_up expand join_part
walk_turn files w part rest =
    if is_empty part || text_eq part here
    then proceeds (record w { pending = rest })
    else if text_eq part up
    then step_up w rest
    else enter_node w (join_part w.current part) rest (lookup files (join_part w.current part))

abbrev pub arrive : Text → Lookup → WalkResult
arrive path (has node) = found node path
arrive path (lacks e) = failed e

abbrev pub follow : (MemoryWalk → Option WalkResult) → WalkTurn → Option WalkResult
follow again (proceeds w) = again w
follow again (stops e) = some (failed e)

abbrev pub go_on :
    (MemoryWalk → Option WalkResult) → Files → MemoryWalk → List Text → Option WalkResult
go_on again files w [] = some (arrive w.current (lookup files w.current))
go_on again files w (part ∷ rest) = follow again (walk_turn files w part rest)

-- resolve, with fuel: none where the fuel ends first.
unfoldable pub resolve_walk : ℕ → Files → MemoryWalk → Option WalkResult
unfolding walk_turn
resolve_walk zero files w = none
resolve_walk (suc fuel) files w = go_on (resolve_walk fuel files) files w w.pending

abbrev pub start_of : Text → Text → Text
start_of path root = if is_empty root then (if is_abs path then top else here) else root

abbrev pub start_walk : Text → Text → Bool → ℕ → MemoryWalk
start_walk path root follow limit = record {
  root = root;
  current = start_of path root;
  pending = split_path path;
  hops = 0;
  limit = limit;
  follow_final = follow;
}

-- resolvePath.
unfoldable pub resolve_path : ℕ → Files → Text → Text → Bool → ℕ → Option WalkResult
unfolding resolve_walk split_path
resolve_path fuel files path root follow limit =
    resolve_walk fuel files (start_walk path root follow limit)
