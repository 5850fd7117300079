-- ===== src/Host/Tests.antt =====
-- Attributes of each revision, and some that are malformed.
use capagent.Host.RoundTrip.{second, parse_mapping_capabilities-encode, meaning, third, encode}
use capagent.Base.{arith, refl, some, none, false, ◌∷◌, ◌≡◌, true, ℕ, [], List}
use capagent.Host.MappingCapabilities.{no_capabilities, parse_mapping_capabilities}

program : Unit {0}
unfolding parse_mapping_capabilities encode
program = tt

-- The attribute of newuidmap: cap_setuid is permitted and effective.
abbrev newuidmap : List ℕ
newuidmap = 1 ∷ 0 ∷ 0 ∷ 2 ∷ 128 ∷ 0 ∷ 0 ∷ 0 ∷ 0 ∷ 0 ∷ 0 ∷ 0 ∷ 0 ∷ 0 ∷ 0 ∷ 0 ∷ 0 ∷ 0 ∷ 0 ∷ 0 ∷ []

parse-newuidmap :
    parse_mapping_capabilities (record { bytes = newuidmap; present = true })
    ≡ some (meaning true (second 128 0))
unfolding program
parse-newuidmap = refl

parse-empty : parse_mapping_capabilities (record { bytes = []; present = true }) ≡ none
unfolding program
parse-empty = refl

parse-absent :
    parse_mapping_capabilities (record { bytes = []; present = false }) ≡ some no_capabilities
unfolding program
parse-absent = refl

parse-invalid_root :
    parse_mapping_capabilities
      (record { bytes = encode true 0 0 (third 64 0 4294967295); present = true })
    ≡ none
unfolding program
parse-invalid_root = refl

parse_mapping_capabilities-encode_example :
    parse_mapping_capabilities
      (record { bytes = encode true 0 0 (third 192 64 100000); present = true })
    ≡ some (meaning true (third 192 64 100000))
parse_mapping_capabilities-encode_example =
    parse_mapping_capabilities-encode true 0 0 (third 192 64 100000)
      (omega arith, omega arith, omega arith)
