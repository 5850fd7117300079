-- ===== src/Platform/MemoryReader.antt =====
-- MemPlatformReader (internal/platform/reader.go), ScopedMemReader (internal/platform/scoped_reader.go)
-- and readVirtual (internal/platform/bounded_io.go).
use capagent.Base.{
  ℕ, ltb, Text, List, [], Bool, true, false, if◌then◌else◌, Option, none, some, is_empty, length,
  min,
}
use capagent.Graph.Kahn.{update}
use capagent.Platform.Path.{clean}
use capagent.Platform.Reading.{Failure, limit_exceeded, incomplete, context_failure, take}
use capagent.Platform.Subpath.{SubpathError, validate_subpath}
use capagent.Platform.MemoryPath.{
  regular, directory, symlink, FileType, plain_type, directory_type, symlink_type, other_type,
  VirtualFile, WalkError, not_link, Files, WalkResult, found, failed, is_symlink, resolve_path,
}

-- `m.files[clean] = node`, with the path cleaned by normalize; an empty path is left alone.
unfoldable pub add_node : Files → Text → VirtualFile → Files
unfolding clean
add_node files path node = if is_empty path then files else update files (clean path) (some node)

-- AddFile. Of the mode, what is masked keeps no type bit.
abbrev pub add_file : Files → Text → List ℕ → Files
add_file files path content = add_node files path (record {
  kind = regular;
  mode = plain_type;
  content = content;
  target = [];
  forced_err = none;
})

-- AddDir.
abbrev pub add_dir : Files → Text → Files
add_dir files path = add_node files path (record {
  kind = directory;
  mode = directory_type;
  content = [];
  target = [];
  forced_err = none;
})

-- AddSymlink.
abbrev pub add_symlink : Files → Text → Text → Files
add_symlink files path target = add_node files path (record {
  kind = symlink;
  mode = symlink_type;
  content = [];
  target = target;
  forced_err = none;
})

-- AddError.
abbrev pub add_error : Files → Text → Option Text → Files
add_error files path e =
    add_node files path
      (record { kind = regular; mode = plain_type; content = []; target = []; forced_err = e })

-- `ErrClosed`, an error of ValidateSubpath, `ctx.Err()`, an error of the walk, `EISDIR`, `ErrFileType`,
-- and an error of the read.
pub data ScopedError : Type 0 where
  reader_closed context_ended is_a_directory file_type : ScopedError
  subpath : SubpathError → ScopedError
  walk : WalkError → ScopedError
  read : Failure → ScopedError

abbrev pub max_symlink_depth : ℕ
max_symlink_depth = 16

pub record ScopedMemReader : Type 0 where
  pub root : Text
  pub files : Files
  pub file_bytes : ℕ
  pub closed : Bool

-- NewScopedMemReader, with the limit of the backing reader.
abbrev pub new_scoped_mem_reader : Text → Files → ℕ → ScopedMemReader
new_scoped_mem_reader root files limit = record {
  root = clean root;
  files = files;
  file_bytes = limit;
  closed = false;
}

-- Close.
abbrev pub close_reader : ScopedMemReader → ScopedMemReader
close_reader r = record r { closed = true }

abbrev pub check_subpath : Option SubpathError → Bool → Option ScopedError
check_subpath (some e) ended = some (subpath e)
check_subpath none ended = if ended then some context_ended else none

-- checkOpen and validateRead, where `ended` tells whether the context has ended.
abbrev pub validate_read : ScopedMemReader → Text → Bool → Option ScopedError
validate_read r path ended =
    if r.closed then some reader_closed else check_subpath (validate_subpath path) ended

-- regularMode.
abbrev pub regular_mode : FileType → Option ScopedError
regular_mode plain_type = none
regular_mode directory_type = some is_a_directory
regular_mode symlink_type = some file_type
regular_mode other_type = some file_type

abbrev pub as_read : Option Failure → Option ScopedError
as_read none = none
as_read (some f) = some (read f)

abbrev pub copy_content : Option ScopedError → List ℕ → ℕ → Bool → List ℕ × Option ScopedError
copy_content (some e) content limit ended = ([], some e)
copy_content none content limit ended = (
  take (min (length content) limit) content,
  if ltb limit (length content)
      then some (read (limit_exceeded limit none false))
      else as_read (context_failure ended),
)

-- readVirtual, with the context as it is asked first and last.
unfoldable pub read_virtual : Bool → Bool → VirtualFile → ℕ → List ℕ × Option ScopedError
unfolding take
read_virtual ended_before ended_after node limit =
    if ended_before
    then ([], some (read (incomplete none true)))
    else copy_content (regular_mode node.mode) node.content limit ended_after

abbrev pub read_resolved : Bool → Bool → ℕ → WalkResult → List ℕ × Option ScopedError
read_resolved before after limit (failed e) = ([], some (walk e))
read_resolved before after limit (found node path) = read_virtual before after node limit

abbrev pub on_answer {ℓ} : {A : Type ℓ} → (WalkResult → A) → Option WalkResult → Option A
on_answer f none = none
on_answer f (some r) = some (f r)

abbrev pub refused_or :
    Option ScopedError → Option (List ℕ × Option ScopedError) → Option (List ℕ × Option ScopedError)
refused_or (some e) result = some ([], some e)
refused_or none result = result

-- ScopedMemReader.ReadFile, with fuel for the walk, and the context as the three questions find it.
unfoldable pub read_file :
    ℕ → Bool → Bool → Bool → ScopedMemReader → Text → Option (List ℕ × Option ScopedError)
unfolding resolve_path read_virtual validate_subpath
read_file fuel ended before after r path = refused_or (validate_read r path ended) (
    on_answer (read_resolved before after r.file_bytes)
      (resolve_path fuel r.files path r.root true max_symlink_depth))

abbrev pub link_target : WalkResult → Text × Option ScopedError
link_target (failed e) = ([], some (walk e))
link_target (found node path) =
    if is_symlink node.kind then (node.target, none) else ([], some (walk not_link))

-- ScopedMemReader.Readlink.
unfoldable pub read_link : ℕ → ScopedMemReader → Text → Option (Text × Option ScopedError)
unfolding resolve_path validate_subpath
read_link fuel r path =
    refused_or (validate_read r path false)
      (on_answer link_target (resolve_path fuel r.files path r.root false max_symlink_depth))
