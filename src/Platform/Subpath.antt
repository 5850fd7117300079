-- ===== src/Platform/Subpath.antt =====
-- ValidateSubpath of internal/platform/path.go.
use capagent.Base.{
  ◌==◌, Text, [], ◌∷◌, ◌++◌, Bool, false, ◌||◌, if◌then◌else◌, Option, none, some, is_empty,
  text_eq,
}
use capagent.Platform.Path.{slash, up, has_prefix, is_abs, clean}

pub data SubpathError : Type 0 where
  empty_subpath path_contains_nul absolute_subpath subpath_escape : SubpathError

-- `strings.IndexByte(subpath, 0) >= 0`.
unfoldable pub has_nul : Text → Bool
has_nul [] = false
has_nul (x ∷ xs) = (x == 0) || has_nul xs

abbrev pub is_escape : Text → Bool
is_escape cleaned = text_eq cleaned up || has_prefix cleaned (up ++ (slash ∷ []))

unfoldable pub validate_subpath : Text → Option SubpathError
unfolding has_nul clean
validate_subpath subpath =
    if is_empty subpath
    then some empty_subpath
    else if has_nul subpath
    then some path_contains_nul
    else if is_abs subpath
    then some absolute_subpath
    else if is_escape (clean subpath)
    then some subpath_escape
    else none
