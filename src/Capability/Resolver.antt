-- ===== src/Capability/Resolver.antt =====
-- internal/capability/resolver.go: Resolve, unusable, confidence and weaker.
use capagent.Model.Errors.{failed}
use capagent.Model.CapabilityId.{id_validate, CapabilityId}
use capagent.Model.Evidence.{
  evidence_validate, precedence_config, is_zero, after, precedence_runtime, precedence_live,
  precedence_heuristic, EvidenceRef, Time, Evidence, EvidencePrecedence,
}
use capagent.Model.Capability.{
  conflicting_evidence, selected_evidence, no_complete_evidence, Reason, Capability,
}
use capagent.Model.States.{
  is_complete, confidence_is_valid, state_is_valid, verified, state_eq, derived, heuristic,
  ConfidenceLevel, CapabilityState,
}
use capagent.Model.Scope.{scope_eq, scope_is_valid, EvaluationScope}
use capagent.Base.{
  zero, ◌||◌, text_eq, none, text_lt, ◌++◌, ◌==◌, ltb, ◌+◌, suc, not, ◌∷◌, if◌then◌else◌, false,
  some, [], Option, Bool, ℕ, List, true, Text,
}

-- The code of a `model.Diagnostic`, each with one fixed message.
pub data Code : Type 0 where
  invalid_scope stale_evidence incompatible_scope invalid_evidence incomplete_evidence : Code
  missing_prerequisite : Code

pub record Diagnostic : Type 0 where
  pub code : Code
  pub reference : Text

pub record Resolution : Type 0 where
  pub capability : Capability
  pub superseded : List EvidenceRef
  pub diagnostics : List Diagnostic

-- The code for which an item is excluded; none for the empty string.
unfoldable pub unusable : Evidence → EvaluationScope → Time → Option Code
unusable ev scope at =
    if not (text_eq ev.scope.run_id scope.run_id) || after ev.timestamp at
    then some stale_evidence
    else if not (scope_eq ev.scope scope)
    then some incompatible_scope
    else if failed (evidence_validate ev)
        || (failed (state_is_valid ev.state) || failed (confidence_is_valid ev.confidence))
    then some invalid_evidence
    else if not (is_complete ev.completeness)
    then some incomplete_evidence
    else none

-- `slices.Index(levels, c)`; none for -1.
unfoldable pub level : ConfidenceLevel → Option ℕ
level ConfidenceLevel.unknown = some 0
level heuristic = some 1
level derived = some 2
level verified = some 3
level (ConfidenceLevel.other s) = none

-- `levels[i]`; none is the panic on an index that is out of range.
unfoldable pub level_at : ℕ → Option ConfidenceLevel
level_at zero = some ConfidenceLevel.unknown
level_at (suc zero) = some heuristic
level_at (suc (suc zero)) = some derived
level_at (suc (suc (suc zero))) = some verified
level_at (suc (suc (suc (suc n)))) = none

-- `levels[min(i, j)]`, where -1 is the least index and panics.
abbrev lower_level : Option ℕ → Option ℕ → Option ConfidenceLevel
lower_level (some i) (some j) = level_at (if ltb i j then i else j)
lower_level _ _ = none

unfoldable pub weaker : ConfidenceLevel → ConfidenceLevel → Option ConfidenceLevel
unfolding level level_at
weaker a b = lower_level (level a) (level b)

-- The highest confidence that a precedence allows.
unfoldable pub ceiling : EvidencePrecedence → ConfidenceLevel
ceiling p =
    if p == precedence_live || p == precedence_runtime
    then verified
    else if p == precedence_config
    then derived
    else heuristic

unfoldable pub confidence : Evidence → Option ConfidenceLevel
unfolding weaker ceiling
confidence ev = weaker (ceiling ev.precedence) ev.confidence

-- `sort.Slice` by ID. Items of one dataset have distinct IDs, so there is one sorted order.
unfoldable pub insert_by_id : Evidence → List Evidence → List Evidence
insert_by_id ev [] = ev ∷ []
insert_by_id ev (x ∷ xs) = if text_lt ev.id x.id then ev ∷ x ∷ xs else x ∷ insert_by_id ev xs

unfoldable pub sort_by_id : List Evidence → List Evidence
unfolding insert_by_id
sort_by_id [] = []
sort_by_id (x ∷ xs) = insert_by_id x (sort_by_id xs)

-- The variables of the first loop.
pub record Selection : Type 0 where
  pub selected : List Evidence
  pub best : EvidencePrecedence
  pub diagnostics : List Diagnostic

abbrev take_usable : Selection → Evidence → Option Code → Selection
take_usable s ev (some code) = record s {
  diagnostics = s.diagnostics ++ (record { code = code; reference = ev.id } ∷ []);
}
take_usable s ev none = record s {
  selected = s.selected ++ (ev ∷ []);
  best = if ltb ev.precedence s.best then ev.precedence else s.best;
}

-- The body of the first loop.
unfoldable pub select_one : EvaluationScope → CapabilityId → Time → Selection → Evidence → Selection
unfolding unusable
select_one scope id at s ev =
    if text_eq ev.claim id then take_usable s ev (unusable ev scope at) else s

unfoldable pub select_all :
    EvaluationScope → CapabilityId → Time → Selection → List Evidence → Selection
unfolding select_one
select_all scope id at s [] = s
select_all scope id at s (ev ∷ evs) = select_all scope id at (select_one scope id at s ev) evs

-- The variables of the second loop.
pub record Choice : Type 0 where
  pub first : Bool
  pub state : CapabilityState
  pub confidence : ConfidenceLevel
  pub reason : Reason
  pub evidence : List EvidenceRef
  pub superseded : List EvidenceRef

-- `result.Capability.Confidence = ...`, which panics where the level is none.
abbrev with_confidence : Choice → Option ConfidenceLevel → Option Choice
with_confidence c none = none
with_confidence c (some level) = some (record c { confidence = level })

abbrev weaken : Choice → Option ConfidenceLevel → Option Choice
weaken c none = none
weaken c (some level) = with_confidence c (weaker c.confidence level)

-- The body of the second loop.
unfoldable pub choose_one : EvidencePrecedence → Choice → Evidence → Option Choice
unfolding weaker confidence
choose_one best c ev =
    if not (ev.precedence == best)
    then some (record c { superseded = c.superseded ++ (ev.id ∷ []) })
    else let cited = record c { evidence = c.evidence ++ (ev.id ∷ []) } in
      let opened = record cited {
        state = ev.state;
        first = false;
        reason = selected_evidence best;
      } in
      let disputed = record cited {
        state = CapabilityState.unknown;
        reason = conflicting_evidence;
      } in
      if c.first
      then with_confidence opened (confidence ev)
      else weaken (if state_eq ev.state c.state then cited else disputed) (confidence ev)

unfoldable pub choose_all : EvidencePrecedence → Choice → List Evidence → Option Choice
unfolding choose_one
choose_all best c [] = some c
choose_all best c (ev ∷ evs) = elim (choose_one best c ev) [
  | none ↦ none
  | some c' ↦ choose_all best c' evs
]

abbrev pub is_unknown : CapabilityState → Bool
is_unknown CapabilityState.unknown = true
is_unknown _ = false

-- Before the second loop: nothing chosen.
abbrev pub no_choice : Choice
no_choice = record {
  first = true;
  state = CapabilityState.unknown;
  confidence = ConfidenceLevel.unknown;
  reason = no_complete_evidence;
  evidence = [];
  superseded = [];
}

abbrev pub no_selection : Selection
no_selection = record { selected = []; best = precedence_heuristic + 1; diagnostics = [] }

abbrev pub resolution_of : EvaluationScope → CapabilityId → List Diagnostic → Choice → Resolution
resolution_of scope id diagnostics c = record {
  capability = record {
    scope = scope;
    id = id;
    state = c.state;
    confidence = if is_unknown c.state then ConfidenceLevel.unknown else c.confidence;
    reason = c.reason;
    evidence = c.evidence;
  };
  superseded = c.superseded;
  diagnostics = diagnostics;
}

abbrev pub finish :
    EvaluationScope → CapabilityId → List Diagnostic → Option Choice → Option Resolution
finish scope id diagnostics none = none
finish scope id diagnostics (some c) = some (resolution_of scope id diagnostics c)

-- none is a panic in `weaker`.
unfoldable pub resolve : EvaluationScope → CapabilityId → Time → List Evidence → Option Resolution
unfolding select_all choose_all sort_by_id
resolve scope id at input =
    let found = select_all scope id at no_selection (sort_by_id input) in
    if failed (scope_is_valid scope) || (failed (id_validate id) || is_zero at)
    then some
        (resolution_of scope id (record { code = invalid_scope; reference = [] } ∷ []) no_choice)
    else finish scope id found.diagnostics (choose_all found.best no_choice found.selected)
