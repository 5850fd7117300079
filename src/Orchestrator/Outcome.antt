-- ===== src/Orchestrator/Outcome.antt =====
-- ProbeStatus, ProbeResult and the outcome of one run (internal/probe/orchestrator.go), with the scope
-- check of internal/probe/observation.go.
use capagent.Base.{
  Text, List, [], ◌∷◌, Bool, true, false, not, ◌||◌, Option, none, some, if◌then◌else◌, map,
}
use capagent.Model.Scope.{EvaluationScope, scope_eq}
use capagent.Model.Observation.{Fact, Observation}

pub data ProbeStatus : Type 0 where
  succeeded failed skipped cancelled : ProbeStatus

-- The two values of `ctx.Err()`.
pub data ContextError : Type 0 where
  canceled deadline_exceeded : ContextError

-- An error value, as `errors.Is` walks it: `fmt.Errorf("%w")` wraps one, and `errors.Join` joins two.
pub data RunError : Type 0 where
  context_error : ContextError → RunError
  dependency_failed observation_scope : RunError
  other : Text → RunError
  wrapped : Text → RunError → RunError
  joined : RunError → RunError → RunError

abbrev same_context : ContextError → ContextError → Bool
same_context canceled canceled = true
same_context deadline_exceeded deadline_exceeded = true
same_context _ _ = false

-- `runErr == ctx.Err() || errors.Is(runErr, ctx.Err())`.
unfoldable pub is_context_error : ContextError → RunError → Bool
is_context_error c (context_error d) = same_context c d
is_context_error c (wrapped message e) = is_context_error c e
is_context_error c (joined e f) = is_context_error c e || is_context_error c f
is_context_error c _ = false

-- The observation of a probe that did not run is none. The duration is left out.
pub record ProbeResult : Type 0 where
  pub probe_id : Text
  pub status : ProbeStatus
  pub observation : Option Observation
  pub err : Option RunError

abbrev no_scope : EvaluationScope
no_scope = record { run_id = []; context_id = []; runtime = []; endpoint = [] }

-- `if scope == (model.EvaluationScope{}) { scope = ... }`.
abbrev fill_scope : EvaluationScope → EvaluationScope → EvaluationScope
fill_scope scope own = if scope_eq own no_scope then scope else own

abbrev fill_fact : EvaluationScope → Fact → Fact
fill_fact scope fact = record fact { scope = fill_scope scope fact.scope }

unfoldable pub facts_differ : EvaluationScope → List Fact → Bool
facts_differ scope [] = false
facts_differ scope (fact ∷ facts) = not (scope_eq fact.scope scope) || facts_differ scope facts

abbrev filled : EvaluationScope → Observation → Observation
filled scope obs = record obs {
  scope = fill_scope scope obs.scope;
  facts = map (fill_fact scope) obs.facts;
}

-- The snapshot copies, which a value is already. The second part tells whether ErrObservationScope is returned.
unfoldable pub retain_observation : Observation → EvaluationScope → Observation × Bool
unfolding facts_differ scope_eq
retain_observation obs scope =
    let kept = filled scope obs in
    (kept, not (scope_eq kept.scope scope) || facts_differ scope kept.facts)

-- `errors.Join(runErr, scopeErr)`, where the scope error is not nil.
abbrev pub join_scope : Option RunError → RunError
join_scope none = observation_scope
join_scope (some e) = joined e observation_scope

-- The status and the error by which a run ends.
abbrev pub classify : Option ContextError → Option RunError → ProbeStatus × Option RunError
classify context none = (succeeded, none)
classify none (some e) = (failed, some e)
classify (some c) (some e) =
    if is_context_error c e then (cancelled, some (context_error c)) else (failed, some e)

-- The result of a run that returns `obs` and `err`, with the context's error when it has returned.
unfoldable pub run_result :
    Text → EvaluationScope → Option ContextError → Observation → Option RunError → ProbeResult
unfolding retain_observation is_context_error
run_result id scope context obs err =
    let (kept, mismatch) = retain_observation obs scope in
    let run_err = if mismatch then some (join_scope err) else err in
    let (status, final) = classify context run_err in
    record { probe_id = id; status = status; observation = some kept; err = final }

-- The result of a probe that the context stops before it runs.
abbrev pub cancelled_result : Text → ContextError → ProbeResult
cancelled_result id c = record {
  probe_id = id;
  status = cancelled;
  observation = none;
  err = some (context_error c);
}

abbrev pub skipped_result : Text → ProbeResult
skipped_result id = record {
  probe_id = id;
  status = skipped;
  observation = none;
  err = some dependency_failed;
}
