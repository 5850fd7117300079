-- ===== src/Model/Identity.antt =====
-- internal/model/target.go and the contexts of context.go: who evaluates, and for whom.
-- A `*UserIdentity` is an Option. Fields that no check reads are left out.
use capagent.Model.Errors.{
  invalid_target_name, target_name_too_long, groups_unobserved, execution_groups_differ,
  invalid_identity, invalid_range, invalid_group, joined_two, overlapping_ranges, joined_one,
  invalid_selector, execution_differs, invalid_numeric_target, fail_if, or_else, Error,
}
use capagent.Base.{
  ◌%◌, ◌-◌, codes, not, ◌||◌, ◌&&◌, ◌+◌, ◌*◌, false, is_empty, true, ◌==◌, [], some, leb, ltb,
  length, ◌∷◌, if◌then◌else◌, Bool, none, Text, text_eq, List, Option, ℕ,
}

abbrev pub max_uint32 : ℕ
max_uint32 = 4294967295

-- A uint64 sum.
abbrev pub uint64 : ℕ → ℕ
uint64 n = n % 18446744073709551616

abbrev pub max_identity_groups : ℕ
max_identity_groups = 65536

pub record UserIdentity : Type 0 where
  pub uid : ℕ
  pub gid : ℕ
  pub supplementary_groups : List ℕ
  pub groups_known : Bool

pub record SubIdRange : Type 0 where
  pub start : ℕ
  pub length : ℕ

pub record IdentityContext : Type 0 where
  pub execution : Option UserIdentity
  pub selection : Text
  pub current : Option UserIdentity
  pub target : Option UserIdentity
  pub sub_uid_ranges : List SubIdRange
  pub sub_gid_ranges : List SubIdRange

pub record Namespace : Type 0 where
  pub kind : Text
  pub id : Text

pub record EvaluationContext : Type 0 where
  pub id : Text
  pub namespaces : List Namespace
  pub identity : IdentityContext

-- Puts a byte in front of the part before the cut.
abbrev put_before : ℕ → Option (Text × Text) → Option (Text × Text)
put_before c none = none
put_before c (some (kind, value)) = some (c ∷ kind, value)

-- `strings.Cut(s, ":")`.
unfoldable pub cut : Text → Option (Text × Text)
cut [] = none
cut (c ∷ cs) = let rest = cut cs in if c == b':' then some ([], cs) else put_before c rest

unfoldable pub all_digits : Text → Bool
all_digits [] = true
all_digits (c ∷ cs) = (leb b'0' c && leb c b'9') && all_digits cs

-- The number that digits stand for, behind those before.
unfoldable pub decimal : ℕ → Text → ℕ
decimal n [] = n
decimal n (c ∷ cs) = decimal (n * 10 + (c - b'0')) cs

-- `strconv.ParseUint(value, 10, 32)` on digits.
unfoldable pub parse_uint32 : Text → Option ℕ
unfolding decimal
parse_uint32 value = let n = decimal 0 value in if ltb max_uint32 n then none else some n

abbrev pub numeric_id : Option ℕ → Option Error
numeric_id none = some invalid_numeric_target
numeric_id (some id) = fail_if (id == max_uint32) invalid_numeric_target none

unfoldable pub numeric_target : Text → Option Error
unfolding all_digits parse_uint32
numeric_target value =
    fail_if (not (all_digits value)) invalid_numeric_target (numeric_id (parse_uint32 value))

unfoldable pub in_name : ℕ → Bool
in_name c =
    (leb b'a' c && leb c b'z')
    || ((leb b'A' c && leb c b'Z')
        || ((leb b'0' c && leb c b'9') || ((c == b'_') || ((c == b'.') || (c == b'-')))))

unfoldable pub all_in_name : Text → Bool
unfolding in_name
all_in_name [] = true
all_in_name (c ∷ cs) = in_name c && all_in_name cs

unfoldable pub named_target : Text → Option Error
unfolding all_in_name text_eq
named_target value =
    fail_if (ltb 256 (length value) || (text_eq value (codes ".") || text_eq value (codes "..")))
      target_name_too_long (fail_if (not (all_in_name value)) invalid_target_name none)

-- The selector from its cut on.
unfoldable pub selected : Option (Text × Text) → Option Error
unfolding numeric_target named_target text_eq
selected none = some invalid_selector
selected (some (kind, value)) = fail_if (is_empty value) invalid_selector (
    if text_eq kind (codes "uid")
    then numeric_target value
    else if text_eq kind (codes "user")
    then named_target value
    else some invalid_selector)

-- `TargetSelector{Value: value}.IsValid()`.
unfoldable pub selector_is_valid : Text → Option Error
unfolding cut selected text_eq
selector_is_valid value =
    if is_empty value || text_eq value (codes "current") then none else selected (cut value)

-- A Go set of numbers is asked.
unfoldable pub has_id : List ℕ → ℕ → Bool
has_id [] g = false
has_id (h ∷ hs) g = (h == g) || has_id hs g

-- The loop over the groups, where `seen` holds those before.
unfoldable pub check_groups : List ℕ → List ℕ → Option Error
unfolding has_id
check_groups seen [] = none
check_groups seen (g ∷ gs) =
    fail_if ((g == max_uint32) || has_id seen g) invalid_group (check_groups (g ∷ seen) gs)

unfoldable pub user_is_valid : UserIdentity → Option Error
unfolding check_groups
user_is_valid u =
    let groups = length u.supplementary_groups in
    fail_if ((u.uid == max_uint32) || ((u.gid == max_uint32) || ltb max_identity_groups groups))
      invalid_identity
      (fail_if (not u.groups_known && not (groups == 0)) groups_unobserved
        (check_groups [] u.supplementary_groups))

unfoldable pub range_is_valid : SubIdRange → Option Error
range_is_valid r =
    fail_if ((r.length == 0) || ltb max_uint32 (uint64 (r.start + r.length))) invalid_range none

-- `slices.SortFunc` by start, as insertion sort.
unfoldable pub insert_range : SubIdRange → List SubIdRange → List SubIdRange
insert_range r [] = r ∷ []
insert_range r (s ∷ ss) =
    let rest = insert_range r ss in if ltb s.start r.start then s ∷ rest else r ∷ s ∷ ss

unfoldable pub sort_ranges : List SubIdRange → List SubIdRange
unfolding insert_range
sort_ranges [] = []
sort_ranges (r ∷ rs) = insert_range r (sort_ranges rs)

-- The loop over the sorted ranges, where `end` is the end of the one before.
unfoldable pub check_ranges : ℕ → List SubIdRange → Option Error
unfolding range_is_valid
check_ranges end [] = none
check_ranges end (r ∷ rs) =
    or_else (range_is_valid r)
      (fail_if (ltb r.start end) overlapping_ranges (check_ranges (uint64 (r.start + r.length)) rs))

unfoldable pub ranges_is_valid : List SubIdRange → Option Error
unfolding sort_ranges check_ranges
ranges_is_valid ranges = check_ranges 0 (sort_ranges ranges)

-- `if u != nil { if err := u.IsValid(); err != nil { return err } }`.
abbrev pub pointed_is_valid : Option UserIdentity → Option Error
unfolding user_is_valid
pointed_is_valid none = none
pointed_is_valid (some u) = user_is_valid u

unfoldable pub check_members : List ℕ → List ℕ → Option Error
unfolding has_id
check_members groups [] = none
check_members groups (g ∷ gs) =
    fail_if (not (has_id groups g)) execution_groups_differ (check_members groups gs)

-- The comparison of the execution identity with the target.
unfoldable pub check_execution : Option UserIdentity → Option UserIdentity → Option Error
unfolding check_members
check_execution none t = none
check_execution (some e) none = some execution_differs
check_execution (some e) (some t) =
    fail_if
      (not e.groups_known
        || (not t.groups_known
            || (not (e.uid == t.uid)
                || (not (e.gid == t.gid)
                    || not (length e.supplementary_groups == length t.supplementary_groups)))))
      execution_differs (check_members t.supplementary_groups e.supplementary_groups)

-- `errors.Join(a, b)`.
abbrev pub join_errors : Option Error → Option Error → Option Error
join_errors none none = none
join_errors (some e) none = some (joined_one e)
join_errors none (some f) = some (joined_one f)
join_errors (some e) (some f) = some (joined_two e f)

unfoldable pub identity_is_valid : IdentityContext → Option Error
unfolding selector_is_valid user_is_valid check_execution ranges_is_valid
identity_is_valid c = or_else (selector_is_valid c.selection) (
    or_else (pointed_is_valid c.current) (
      or_else (pointed_is_valid c.target) (
        or_else (pointed_is_valid c.execution) (
          or_else (check_execution c.execution c.target)
            (join_errors (ranges_is_valid c.sub_uid_ranges) (ranges_is_valid c.sub_gid_ranges))))))
