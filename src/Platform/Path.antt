-- ===== src/Platform/Path.antt =====
-- What internal/platform takes of the packages strings and path/filepath, on Unix paths as bytes.
use capagent.Base.{
  ℕ, ◌==◌, Text, List, [], ◌∷◌, ◌++◌, Bool, true, false, ◌&&◌, ◌||◌, if◌then◌else◌, is_empty,
  text_eq,
}

abbrev pub slash : ℕ
slash = b'/'

abbrev pub point : ℕ
point = b'.'

abbrev pub here : Text
here = point ∷ []

abbrev pub up : Text
up = point ∷ point ∷ []

abbrev pub top : Text
top = slash ∷ []

abbrev pub extend_first : ℕ → List Text → List Text
extend_first x [] = (x ∷ []) ∷ []
extend_first x (part ∷ parts) = (x ∷ part) ∷ parts

-- `strings.Split(path, "/")`.
unfoldable pub split_path : Text → List Text
split_path [] = [] ∷ []
split_path (x ∷ xs) =
    let parts = split_path xs in if x == slash then [] ∷ parts else extend_first x parts

-- `strings.HasPrefix(path, prefix)`.
unfoldable pub has_prefix : Text → Text → Bool
has_prefix path [] = true
has_prefix [] (y ∷ ys) = false
has_prefix (x ∷ xs) (y ∷ ys) = (x == y) && has_prefix xs ys

unfoldable pub drop_prefix : Text → Text → Text
drop_prefix path [] = path
drop_prefix [] (y ∷ ys) = []
drop_prefix (x ∷ xs) (y ∷ ys) = drop_prefix xs ys

-- `strings.TrimPrefix(path, prefix)`.
abbrev pub trim_prefix : Text → Text → Text
trim_prefix path prefix = if has_prefix path prefix then drop_prefix path prefix else path

-- `strings.TrimRight(path, "/")`.
unfoldable pub trim_slashes : Text → Text
trim_slashes [] = []
trim_slashes (x ∷ xs) =
    let rest = trim_slashes xs in if is_empty rest && (x == slash) then [] else x ∷ rest

-- `strings.Trim(path, "./") == ""`.
unfoldable pub is_trimmed_empty : Text → Bool
is_trimmed_empty [] = true
is_trimmed_empty (x ∷ xs) = ((x == slash) || (x == point)) && is_trimmed_empty xs

-- `filepath.IsAbs(path)`.
abbrev pub is_abs : Text → Bool
is_abs [] = false
is_abs (x ∷ xs) = x == slash

-- `filepath.Clean` goes back one part: above the top of a rooted path is the top.
abbrev pub back : Bool → List Text → List Text
back rooted [] = if rooted then [] else up ∷ []
back rooted (last ∷ stack) = if text_eq last up then up ∷ last ∷ stack else stack

-- The parts that `filepath.Clean` keeps, the last first.
abbrev pub push_part : Bool → List Text → Text → List Text
push_part rooted stack part =
    if is_empty part || text_eq part here
    then stack
    else if text_eq part up
    then back rooted stack
    else part ∷ stack

unfoldable pub clean_parts : Bool → List Text → List Text → List Text
clean_parts rooted stack [] = stack
clean_parts rooted stack (part ∷ parts) = clean_parts rooted (push_part rooted stack part) parts

-- The parts of a rooted path, the last first, each behind a slash.
unfoldable pub absolute : List Text → Text
absolute [] = []
absolute (last ∷ stack) = absolute stack ++ (slash ∷ last)

abbrev pub rooted_path : List Text → Text
rooted_path [] = top
rooted_path (last ∷ stack) = absolute (last ∷ stack)

-- The parts of another path, with slashes between.
unfoldable pub relative : List Text → Text
relative [] = []
relative (last ∷ []) = last
relative (last ∷ part ∷ stack) = relative (part ∷ stack) ++ (slash ∷ last)

abbrev pub relative_path : List Text → Text
relative_path [] = here
relative_path (last ∷ stack) = relative (last ∷ stack)

-- `filepath.Clean(path)`.
unfoldable pub clean : Text → Text
unfolding split_path clean_parts absolute relative
clean path =
    if is_abs path
    then rooted_path (clean_parts true [] (split_path path))
    else relative_path (clean_parts false [] (split_path path))

-- `filepath.Join(path, part)`.
unfoldable pub join_part : Text → Text → Text
unfolding clean
join_part [] [] = []
join_part [] (x ∷ part) = clean (x ∷ part)
join_part (x ∷ path) part = clean ((x ∷ path) ++ (slash ∷ part))

-- The path up to its last slash.
unfoldable pub up_to_slash : Text → Text
up_to_slash [] = []
up_to_slash (x ∷ xs) =
    let rest = up_to_slash xs in
    if is_empty rest then (if x == slash then top else []) else x ∷ rest

-- `filepath.Dir(path)`.
unfoldable pub dir : Text → Text
unfolding clean up_to_slash
dir path = clean (up_to_slash path)
