-- ===== src/Host/RoundTrip.antt =====
-- ParseMappingCapabilities of internal/host/mapping_helpers.go reads back every attribute that is laid
-- out as struct vfs_cap_data or vfs_ns_cap_data of Linux.
use capagent.Model.Identity.{max_uint32}
use capagent.Base.{
  ◌*◌, ◌==◌, refl, ◌∷◌, ◌/◌, ◌%◌, some, arith, [], ◌≡◌, false, none, ◌+◌, ◌≤◌, true, Option, List,
  ◌<◌, Bool, ℕ,
}
use capagent.Host.MappingCapabilities.{
  cap_set_gid, cap_set_uid, has_flag, MappingCapabilities, skip, parse_mapping_capabilities,
  little_endian,
}

-- A word, lowest byte first.
unfoldable pub word : ℕ → List ℕ → List ℕ
word n rest = (n % 256) ∷ ((n / 256) % 256) ∷ ((n / 65536) % 256) ∷ ((n / 16777216) % 256) ∷ rest

-- An attribute of each revision: the sets of lower capabilities, those of higher ones from revision 2 on,
-- and the root ID of revision 3.
pub data Layout : Type 0 where
  first second : ℕ → ℕ → Layout
  third : ℕ → ℕ → ℕ → Layout

abbrev IsWord : ℕ → Type 0
IsWord n = n ≤ max_uint32

abbrev pub IsLayout : Layout → Type 0
IsLayout (first permitted inheritable) = IsWord permitted × IsWord inheritable
IsLayout (second permitted inheritable) = IsWord permitted × IsWord inheritable
IsLayout (third permitted inheritable root) =
    IsWord permitted × IsWord inheritable × (root < max_uint32)

abbrev flag_of : Bool → ℕ
flag_of true = 1
flag_of false = 0

-- The bytes of an attribute, with the effective flag and the sets of higher capabilities.
unfoldable pub encode : Bool → ℕ → ℕ → Layout → List ℕ
unfolding word
encode effective high_permitted high_inheritable (first permitted inheritable) =
    word (16777216 + flag_of effective) (word permitted (word inheritable []))
encode effective high_permitted high_inheritable (second permitted inheritable) =
    word (33554432 + flag_of effective)
      (word permitted (word inheritable (word high_permitted (word high_inheritable []))))
encode effective high_permitted high_inheritable (third permitted inheritable root) =
    word (50331648 + flag_of effective) (
      word permitted
        (word inheritable (word high_permitted (word high_inheritable (word root [])))))

abbrev decoded : ℕ → Bool → ℕ → ℕ → Option ℕ → MappingCapabilities
decoded revision effective permitted inheritable root = record {
  inheritable_set_uid = has_flag inheritable cap_set_uid;
  inheritable_set_gid = has_flag inheritable cap_set_gid;
  present = true;
  revision = revision;
  effective = effective;
  set_uid = has_flag permitted cap_set_uid;
  set_gid = has_flag permitted cap_set_gid;
  root_id = root;
}

abbrev pub meaning : Bool → Layout → MappingCapabilities
meaning effective (first permitted inheritable) = decoded 1 effective permitted inheritable none
meaning effective (second permitted inheritable) = decoded 2 effective permitted inheritable none
meaning effective (third permitted inheritable root) =
    decoded 3 effective permitted inheritable (some root)

bytes_of :
    (n : ℕ)
    → IsWord n
    → n % 256
        + ((n / 256) % 256 * 256 + ((n / 65536) % 256 * 65536 + (n / 16777216) % 256 * 16777216))
      ≡ n
bytes_of n h = omega (arith, h)

below : (n : ℕ) → n < max_uint32 → (n == max_uint32) ≡ false
below n h = ground arith

-- Whatever the sets of higher capabilities, an attribute of any of the three revisions is parsed to its
-- revision, its effective flag, the four flags of its sets and its root ID, where the sets are words and
-- the root ID is below the invalid ID.
pub parse_mapping_capabilities-encode :
    (effective : Bool) (high_permitted high_inheritable : ℕ) (l : Layout)
    → IsLayout l
    → parse_mapping_capabilities
        (record { bytes = encode effective high_permitted high_inheritable l; present = true })
      ≡ some (meaning effective l)
unfolding parse_mapping_capabilities encode skip little_endian word
parse_mapping_capabilities-encode true hp hi (first p i) h =
    rw (bytes_of p h.0, bytes_of i h.1) refl
parse_mapping_capabilities-encode false hp hi (first p i) h =
    rw (bytes_of p h.0, bytes_of i h.1) refl
parse_mapping_capabilities-encode true hp hi (second p i) h =
    rw (bytes_of p h.0, bytes_of i h.1) refl
parse_mapping_capabilities-encode false hp hi (second p i) h =
    rw (bytes_of p h.0, bytes_of i h.1) refl
parse_mapping_capabilities-encode true hp hi (third p i root) h =
    rw (bytes_of p h.0, bytes_of i h.1, bytes_of root (omega (arith, h.2)), below root h.2) refl
parse_mapping_capabilities-encode false hp hi (third p i root) h =
    rw (bytes_of p h.0, bytes_of i h.1, bytes_of root (omega (arith, h.2)), below root h.2) refl
