-- ===== src/Evaluation/Candidate.antt =====
-- The candidate that Evaluate of internal/capability/registry.go builds, as indexCandidate of
-- internal/requirement/evaluate.go checks it.
use capagent.Model.CapabilityId.{id_validate}
use capagent.Evaluation.Order.{ids}
use capagent.Model.Scope.{scope_eq_refl, scope_eq, EvaluationScope}
use capagent.Evaluation.Matched.{IsResolvedBy, Matched}
use capagent.Model.Capability.{capability_validate, Capability}
use capagent.Base.{
  refl, true, inr, [], inl, text_eq, occ_self, Bool-cases, All, ◌∷◌, arith, ◌≤◌, length, none, map,
  keep, ◌+◌, ◌≡◌, Text, occ, Bool, List,
}
use capagent.Model.Evidence.{Evidence}
use capagent.Evaluation.Registry.{Definition}
use capagent.Requirement.Predicate.{
  find_capability, check_capabilities, check_evidence, find_evidence,
}

abbrev evidence_ids : List Evidence → List Text
evidence_ids es = map (λ e. e.id) es

abbrev capability_ids : List Capability → List Text
capability_ids cs = map (λ c. c.id) cs

find_evidence_absent :
    (es : List Evidence) (z : Text) → occ z (evidence_ids es) ≡ 0 → find_evidence es z ≡ none
unfolding find_evidence occ
find_evidence_absent [] z h = refl
find_evidence_absent (e ∷ es) z h = elim (Bool-cases (text_eq e.id z)) [
  | inl q ↦ absurd (ground arith)
  | inr q ↦ rw q (find_evidence_absent es z (ground arith))
]

find_capability_absent :
    (cs : List Capability) (z : Text) → occ z (capability_ids cs) ≡ 0 → find_capability cs z ≡ none
unfolding find_capability occ
find_capability_absent [] z h = refl
find_capability_absent (c ∷ cs) z h = elim (Bool-cases (text_eq c.id z)) [
  | inl q ↦ absurd (ground arith)
  | inr q ↦ rw q (find_capability_absent cs z (ground arith))
]

pub check_evidence-none :
    (seen es : List Evidence)
    → ((z : Text) → occ z (evidence_ids seen) + occ z (evidence_ids es) ≤ 1)
    → check_evidence seen es ≡ none
unfolding check_evidence occ
check_evidence-none seen [] h = refl
check_evidence-none seen (e ∷ es) h =
    let new : occ e.id (evidence_ids seen) ≡ 0 =
      omega (arith, h e.id, occ_self e.id (evidence_ids es)) in
    rw (find_evidence_absent seen e.id new)
      (check_evidence-none (e ∷ seen) es (λ z. omega (arith, h z)))

pub check_capabilities-none :
    (scope : EvaluationScope) (caps seen cs : List Capability) (defs : List Definition)
    → Matched (IsResolvedBy scope caps) defs cs
    → All (λ def. id_validate def.id ≡ none) defs
    → ((z : Text) → occ z (capability_ids seen) + occ z (ids defs) ≤ 1)
    → check_capabilities scope seen cs ≡ none
unfolding check_capabilities capability_validate occ
check_capabilities-none scope caps seen [] defs m named h = refl
check_capabilities-none scope caps seen (c ∷ cs) [] m named h = absurd m
check_capabilities-none scope caps seen (c ∷ cs) (def ∷ defs) m named h =
    let (id_same, scope_same, state, confidence, _) = m.0 in
    let new : occ def.id (capability_ids seen) ≡ 0 =
      omega (arith, h def.id, occ_self def.id (ids defs)) in
    let absent_id : find_capability seen c.id ≡ none =
      rw id_same (find_capability_absent seen def.id new) in
    let valid_id : id_validate c.id ≡ none = rw id_same named.0 in
    let within : scope_eq c.scope scope ≡ true = rw scope_same (scope_eq_refl scope) in
    rw (valid_id, state, confidence, within, absent_id)
      (check_capabilities-none scope caps (c ∷ seen) cs defs m.1 named.1
        (λ z. rw id_same (omega (arith, h z))))

pub Matched-length :
    (R : Definition → Capability → Type 0) (defs : List Definition) (cs : List Capability)
    → Matched R defs cs
    → length cs ≡ length (ids defs)
Matched-length R [] [] m = refl
Matched-length R [] (c ∷ cs) m = absurd m
Matched-length R (def ∷ defs) [] m = absurd m
Matched-length R (def ∷ defs) (c ∷ cs) m = omega (arith, Matched-length R defs cs m.1)

module _ (test : Evidence → Bool) where
  pub keep-le :
      (z : Text) (es : List Evidence)
      → (occ z (evidence_ids (keep test es)) ≤ occ z (evidence_ids es))
        × (length (keep test es) ≤ length es)
  unfolding keep occ
  keep-le z [] = (omega arith, omega arith)
  keep-le z (e ∷ es) =
      let (few, short) = keep-le z es in
      elim (Bool-cases (test e)) [
        | inl q ↦ rw q (omega (arith, few), omega (arith, short))
        | inr q ↦ rw q (omega (arith, few), omega (arith, short))
      ]
