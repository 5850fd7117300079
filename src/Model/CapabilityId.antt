-- ===== src/Model/CapabilityId.antt =====
-- CapabilityID of internal/model/capability.go: a dot-separated identifier, over its bytes.
use capagent.Base.{
  ℕ, ◌==◌, ltb, leb, if◌then◌else◌, Bool, true, not, ◌&&◌, ◌||◌, List, [], ◌∷◌, ◌++◌, Option, none,
  Text, codes, contains, is_empty, length,
}
use capagent.Model.Errors.{
  Error, empty_id, too_few_segments, unknown_namespace, invalid_segment, fail_if,
}

abbrev pub CapabilityId : Type 0
CapabilityId = Text

-- Puts a byte in front of the first segment.
abbrev extend : ℕ → List Text → List Text
extend c [] = (c ∷ []) ∷ []
extend c (s ∷ ss) = (c ∷ s) ∷ ss

-- `strings.Split(s, ".")`.
unfoldable pub split : Text → List Text
split [] = [] ∷ []
split (c ∷ cs) = let rest = split cs in if c == b'.' then [] ∷ rest else extend c rest

-- `strings.Join(segments, ".")`.
unfoldable pub join : List Text → Text
join [] = []
join (s ∷ []) = s
join (s ∷ t ∷ ss) = s ++ (b'.' ∷ join (t ∷ ss))

unfoldable pub canonical_namespaces : List Text
canonical_namespaces =
    codes "host"
    ∷ codes "runtime"
    ∷ codes "container"
    ∷ codes "image"
    ∷ codes "network"
    ∷ codes "storage"
    ∷ codes "systemd"
    ∷ codes "context"
    ∷ []

-- The class of `segmentRegex`, `[a-z0-9_]`.
unfoldable pub in_class : ℕ → Bool
in_class c = (leb b'a' c && leb c b'z') || ((leb b'0' c && leb c b'9') || (c == b'_'))

unfoldable pub all_in_class : Text → Bool
all_in_class [] = true
all_in_class (c ∷ cs) = in_class c && all_in_class cs

-- `segmentRegex.MatchString`: one byte of the class at least, and no other.
unfoldable pub matches_segment : Text → Bool
unfolding all_in_class in_class
matches_segment s = not (is_empty s) && all_in_class s

-- The first segment that does not match, if any.
unfoldable pub check_segments : Text → List Text → Option Error
unfolding matches_segment
check_segments raw [] = none
check_segments raw (s ∷ ss) =
    fail_if (not (matches_segment s)) (invalid_segment s raw) (check_segments raw ss)

-- `segments[0]`, of a split, which is never empty.
abbrev pub first : List Text → Text
first [] = []
first (s ∷ ss) = s

-- `segments[len(segments)-1]`.
abbrev pub last : List Text → Text
last [] = []
last (s ∷ []) = s
last (s ∷ t ∷ ss) = last (t ∷ ss)

-- All but the last.
abbrev pub init : List Text → List Text
init [] = []
init (s ∷ []) = []
init (s ∷ t ∷ ss) = s ∷ init (t ∷ ss)

abbrev pub tail : List Text → List Text
tail [] = []
tail (s ∷ ss) = ss

unfoldable pub namespace : CapabilityId → Text
unfolding split
namespace id = first (split id)

unfoldable pub name : CapabilityId → Text
unfolding split
name id = last (split id)

-- `strings.Join(segments[1:len(segments)-1], ".")`, or nothing of two segments or fewer.
unfoldable pub subsystem : CapabilityId → Text
unfolding split join
subsystem id =
    let segments = split id in if leb (length segments) 2 then [] else join (tail (init segments))

unfoldable pub id_validate : CapabilityId → Option Error
unfolding split canonical_namespaces check_segments contains
id_validate raw =
    let segments = split raw in
    fail_if (is_empty raw) empty_id (
      fail_if (ltb (length segments) 2) (too_few_segments raw) (
        fail_if (not (contains canonical_namespaces (first segments)))
          (unknown_namespace (first segments) raw) (check_segments raw segments)))
