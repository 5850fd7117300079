-- ===== src/Requirement/Backing.antt =====
-- What stands behind a definite answer of predicate (internal/requirement/evaluate.go).
use capagent.Model.Scope.{scope_eq→eq}
use capagent.Requirement.Logic.{indeterminate, RequirementState}
use capagent.Model.Capability.{Capability}
use capagent.Model.Evidence.{evidence_validate, Evidence}
use capagent.Model.CapabilityId.{CapabilityId}
use capagent.Model.States.{state_eq→eq, complete, CapabilityState, is_complete, Completeness}
use capagent.Model.Errors.{failed, Error}
use capagent.Requirement.Predicate.{
  judge_found, state, predicate, uncertain, found_supports, judge, verdict, is_undetermined,
  supports, references_support, find_evidence, find_capability, CandidateIndex,
}
use capagent.Base.{
  refl, ◌≢◌, [], &&-true, ◌∙◌, sym, text_eq→eq, ap, inr, inl, length, text_eq, ◌<◌, Bool-cases,
  arith, ◌∷◌, none, some, All, true, Text, false, In, ◌≡◌, List, Option,
}

-- The evidence that a reference names, and what the code asks of it.
pub record IsSupport (index : CandidateIndex) (id : CapabilityId) (s : CapabilityState) (ref : Text)
    : Type 0 where
  pub evidence : Evidence
  pub listed : In evidence index.evidence
  pub named : evidence.id ≡ ref
  pub well_formed : evidence_validate evidence ≡ none
  pub scoped : evidence.scope ≡ index.scope
  pub finished : evidence.completeness ≡ complete
  pub agrees : evidence.state ≡ s
  pub claims : evidence.claim ≡ id

-- A capability that the candidate holds, in a state that decides, with evidence for each reference.
pub record IsBacked (index : CandidateIndex) (id : CapabilityId) (s : RequirementState)
    : Type 0 where
  pub capability : Capability
  pub listed : In capability index.caps
  pub named : capability.id ≡ id
  pub decides : is_undetermined capability.state ≡ false
  pub verdict_ok : verdict capability.state ≡ s
  pub cited : 0 < length capability.evidence
  pub supported : All (IsSupport index id capability.state) capability.evidence

find_evidence-In :
    (es : List Evidence) (ref : Text) (e : Evidence)
    → find_evidence es ref ≡ some e
    → In e es × (e.id ≡ ref)
unfolding find_evidence
find_evidence-In [] ref e h = cc
find_evidence-In (x ∷ es) ref e h = elim (Bool-cases (text_eq x.id ref)) [
  | inl q ↦
      let same : x ≡ e = ground arith in
      (inl same, ap (λ y. y.id) (sym same) ∙ text_eq→eq x.id ref q)
  | inr q ↦ let (m, n) = find_evidence-In es ref e (rw q at h) in (inr m, n)
]

find_capability-In :
    (cs : List Capability) (id : Text) (c : Capability)
    → find_capability cs id ≡ some c
    → In c cs × (c.id ≡ id)
unfolding find_capability
find_capability-In [] id c h = cc
find_capability-In (x ∷ cs) id c h = elim (Bool-cases (text_eq x.id id)) [
  | inl q ↦
      let same : x ≡ c = ground arith in
      (inl same, ap (λ y. y.id) (sym same) ∙ text_eq→eq x.id id q)
  | inr q ↦ let (m, n) = find_capability-In cs id c (rw q at h) in (inr m, n)
]

failed-none : (o : Option Error) → failed o ≡ false → o ≡ none
failed-none o h = ground arith

is_complete→eq : (c : Completeness) → is_complete c ≡ true → c ≡ complete
is_complete→eq c h = ground arith

module _ (index : CandidateIndex) (id : CapabilityId) (s : CapabilityState) where
  IsSupport-of :
      (ref : Text) (e : Evidence)
      → find_evidence index.evidence ref ≡ some e
      → supports index id s e ≡ true
      → IsSupport index id s ref
  unfolding supports
  IsSupport-of ref e found ok = record {
    evidence = e;
    listed = (find_evidence-In index.evidence ref e found).0;
    named = (find_evidence-In index.evidence ref e found).1;
    well_formed = failed-none (evidence_validate e) (ground arith);
    scoped = scope_eq→eq e.scope index.scope (ground arith);
    finished = is_complete→eq e.completeness (ground arith);
    agrees = state_eq→eq e.state s (ground arith);
    claims = text_eq→eq e.claim id (ground arith);
  }

  found-IsSupport :
      (ref : Text) (found : Option Evidence)
      → find_evidence index.evidence ref ≡ found
      → found_supports index id s found ≡ true
      → IsSupport index id s ref
  found-IsSupport ref none e h = absurd (cc)
  found-IsSupport ref (some ev) e h = IsSupport-of ref ev e h

  references_support-All :
      (refs : List Text)
      → references_support index id s refs ≡ true
      → All (IsSupport index id s) refs
  unfolding references_support
  references_support-All [] h = tt
  references_support-All (ref ∷ refs) h =
      let (first, rest) = &&-true _ _ h in
      (
        found-IsSupport ref (find_evidence index.evidence ref) refl first,
        references_support-All refs rest,
      )

module _ (index : CandidateIndex) (id : CapabilityId) where
  judge-IsBacked :
      (c : Capability)
      → In c index.caps
      → c.id ≡ id
      → (s : RequirementState) → state (judge index id c) ≡ s
      → s ≢ indeterminate
      → IsBacked index id s
  unfolding judge
  judge-IsBacked c m e s h known = record {
    capability = c;
    listed = m;
    named = e;
    decides = ground arith;
    verdict_ok = ground arith;
    cited = ground arith;
    supported = references_support-All index id c.state c.evidence (ground arith);
  }

  judge_found-IsBacked :
      (found : Option Capability)
      → find_capability index.caps id ≡ found
      → (s : RequirementState) → state (judge_found index id found) ≡ s
      → s ≢ indeterminate
      → IsBacked index id s
  unfolding uncertain
  judge_found-IsBacked none e s h known = absurd (known (sym h))
  judge_found-IsBacked (some c) e s h known =
      let (m, n) = find_capability-In index.caps id c e in judge-IsBacked c m n s h known

  -- A definite answer to a capability rests on an entry of the candidate for that capability, in a
  -- state that is neither unknown nor unavailable, with at least one reference; and each of its
  -- references names an entry of the candidate's evidence that is well-formed and complete, of the
  -- candidate's scope, about this capability, and in the same state.
  pub predicate-IsBacked :
      (s : RequirementState)
      → state (predicate id index) ≡ s
      → s ≢ indeterminate
      → IsBacked index id s
  unfolding predicate
  predicate-IsBacked s h known = judge_found-IsBacked (find_capability index.caps id) refl s h known
