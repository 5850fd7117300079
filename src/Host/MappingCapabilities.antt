-- ===== src/Host/MappingCapabilities.antt =====
-- ParseMappingCapabilities of internal/host/mapping_helpers.go, over bytes below 256.
use capagent.Model.Identity.{max_uint32}
use capagent.Base.{
  ◌||◌, ◌/◌, ◌%◌, [], length, ◌*◌, ◌+◌, zero, ltb, ◌∷◌, some, ◌==◌, none, suc, not, if◌then◌else◌,
  true, false, Option, ℕ, Bool, List,
}

pub record MappingCapabilities : Type 0 where
  pub inheritable_set_uid : Bool
  pub inheritable_set_gid : Bool
  pub present : Bool
  pub revision : ℕ
  pub effective : Bool
  pub set_uid : Bool
  pub set_gid : Bool
  pub root_id : Option ℕ

pub record CapabilityAttribute : Type 0 where
  pub bytes : List ℕ
  pub present : Bool

abbrev pub cap_set_uid : ℕ
cap_set_uid = 128

abbrev pub cap_set_gid : ℕ
cap_set_gid = 64

-- `data[n:]`.
unfoldable pub skip : ℕ → List ℕ → List ℕ
skip zero xs = xs
skip (suc n) [] = []
skip (suc n) (x ∷ xs) = skip n xs

-- `binary.LittleEndian.Uint32`, which is called on four bytes or more only.
unfoldable pub little_endian : List ℕ → ℕ
little_endian (a ∷ b ∷ c ∷ d ∷ rest) = a + (b * 256 + (c * 65536 + d * 16777216))
little_endian _ = 0

-- `x & flag != 0`, of a power of 2.
abbrev pub has_flag : ℕ → ℕ → Bool
has_flag x flag = not ((x / flag) % 2 == 0)

-- The length of an attribute of a revision, and 0 for any other.
abbrev pub expected_length : ℕ → ℕ
expected_length revision =
    if revision == 1 then 12 else if revision == 2 then 20 else if revision == 3 then 24 else 0

abbrev pub no_capabilities : MappingCapabilities
no_capabilities = record {
  inheritable_set_uid = false;
  inheritable_set_gid = false;
  present = false;
  revision = 0;
  effective = false;
  set_uid = false;
  set_gid = false;
  root_id = none;
}

-- The root ID, of revision 3 only; none is ErrMalformed.
abbrev pub with_root_id : MappingCapabilities → ℕ → Option MappingCapabilities
with_root_id out id =
    if not (out.revision == 3)
    then some out
    else if id == max_uint32
    then none
    else some (record out { root_id = some id })

-- The flags of an attribute with a magic number.
abbrev pub decode_flags : ℕ → ℕ → ℕ → MappingCapabilities
decode_flags magic permitted inheritable = record {
  inheritable_set_uid = has_flag inheritable cap_set_uid;
  inheritable_set_gid = has_flag inheritable cap_set_gid;
  present = true;
  revision = magic / 16777216;
  effective = has_flag magic 1;
  set_uid = has_flag permitted cap_set_uid;
  set_gid = has_flag permitted cap_set_gid;
  root_id = none;
}

-- none is ErrMalformed.
unfoldable pub parse_mapping_capabilities : CapabilityAttribute → Option MappingCapabilities
unfolding skip little_endian
parse_mapping_capabilities attribute =
    let data_bytes = attribute.bytes in
    let magic = little_endian data_bytes in
    if not attribute.present
    then some no_capabilities
    else if ltb (length data_bytes) 12
    then none
    else if not (length data_bytes == expected_length (magic / 16777216))
        || ltb 1 (magic % 16777216)
    then none
    else with_root_id
        (decode_flags magic (little_endian (skip 4 data_bytes)) (little_endian (skip 8 data_bytes)))
        (little_endian (skip 20 data_bytes))
