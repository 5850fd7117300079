-- ===== src/Model/Errors.antt =====
-- The errors of internal/model and internal/requirement. Each `errors.New` and `fmt.Errorf` has a
-- constructor with the values that it formats; the wording of the messages is left out.
-- A Go function that returns an `error` alone returns `Option Error`, where `none` is nil.
use capagent.Base.{refl, arith, ◌≡◌, Option, none, some, Bool, true, false, Text, ℕ}

pub data Error : Type 0 where
  scope_incomplete : Error
  invalid_completeness invalid_state invalid_confidence invalid_requirement_state : Error
  empty_id : Error
  too_few_segments : Text → Error
  unknown_namespace : Text → Text → Error
  invalid_segment : Text → Text → Error
  evidence_without_id evidence_without_source evidence_without_claim zero_timestamp : Error
  invalid_precedence : ℕ → Error
  capability_id : Error → Error
  capability_state : Error → Error
  capability_confidence : Error → Error
  nil_node size_limit cyclic_document not_one_operator : Error
  invalid_selector invalid_numeric_target target_name_too_long invalid_target_name : Error
  invalid_identity groups_unobserved invalid_group invalid_range overlapping_ranges : Error
  execution_differs execution_groups_differ : Error
  joined_one : Error → Error
  joined_two : Error → Error → Error
  candidate_size_limit scope_differs duplicate_capability duplicate_evidence : Error
  out_of_fuel : Error

-- `err != nil`.
abbrev pub failed : Option Error → Bool
failed none = false
failed (some e) = true

-- `if err := a; err != nil { return err }`, and then the rest of the body.
abbrev pub or_else : Option Error → Option Error → Option Error
or_else none rest = rest
or_else (some e) rest = some e

-- `if bad { return e }`, and then the rest.
abbrev pub fail_if : Bool → Error → Option Error → Option Error
fail_if true e rest = some e
fail_if false e rest = rest

pub fail_if-none :
    (bad : Bool) (e : Error) (rest : Option Error)
    → fail_if bad e rest ≡ none
    → (bad ≡ false) × (rest ≡ none)
fail_if-none true e rest h = absurd (ground arith)
fail_if-none false e rest h = (refl, h)

pub or_else-none :
    (first rest : Option Error) → or_else first rest ≡ none → (first ≡ none) × (rest ≡ none)
or_else-none none rest h = (refl, h)
or_else-none (some e) rest h = absurd (ground arith)
