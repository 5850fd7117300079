-- ===== src/Probe/Registry.antt =====
-- Registry of internal/probe/registry.go: Register, Resolve and the reads.
use capagent.Probe.Execution.{compile_plan, ExecutionPlan, Probe}
use capagent.Probe.Sort.{
  duplicate_id, registry_resolved, planned, unknown_dependency, empty_id, not_resolved, refused,
  self_dependency, nil_probe, kahn_topo_sort, RegistryError, Planned,
}
use capagent.Graph.Kahn.{Links, update}
use capagent.Base.{
  map, Text, List, [], ◌∷◌, ◌++◌, ℕ, Bool, true, false, not, if◌then◌else◌, Option, none, some,
  length, is_empty, text_eq,
}

-- A missing key of `probes` is none, and a missing key of `regIndex` is 0, as in a Go map.
pub record Registry : Type 0 where
  pub probes : Text → Option Probe
  pub ordered_ids : List Text
  pub reg_index : Text → ℕ
  pub resolve_err : Option RegistryError
  pub resolved : Bool
  pub resolved_plan : List Text
  pub compiled : Option ExecutionPlan

abbrev pub new_registry : Registry
new_registry = record {
  probes = λ id. none;
  ordered_ids = [];
  reg_index = λ id. 0;
  resolve_err = none;
  resolved = false;
  resolved_plan = [];
  compiled = none;
}

abbrev pub is_present : Option Probe → Bool
is_present none = false
is_present (some p) = true

abbrev pub add_probe : Registry → Probe → Registry
add_probe r p = record r {
  probes = update r.probes p.id (some p);
  reg_index = update r.reg_index p.id (length r.ordered_ids);
  ordered_ids = r.ordered_ids ++ (p.id ∷ []);
}

-- The registry after the call, and the error that is returned. A nil probe is none.
unfoldable pub register : Registry → Option Probe → Registry × Option RegistryError
register r none = (r, some nil_probe)
register r (some p) =
    if is_empty p.id
    then (r, some empty_id)
    else if r.resolved
    then (r, some registry_resolved)
    else if is_present (r.probes p.id)
    then (r, some (duplicate_id p.id))
    else (add_probe r p, none)

-- The dependencies that are captured, with none at a missing key.
abbrev pub captured : (Text → Option Probe) → Links
captured probes id = elim (probes id) [ none ↦ [] | some p ↦ p.dependencies ]

-- The error of the loop over the dependencies of one probe.
unfoldable pub check_dependencies : (Text → Option Probe) → Text → List Text → Option RegistryError
check_dependencies probes id [] = none
check_dependencies probes id (dep ∷ deps) =
    if text_eq dep id
    then some (self_dependency id)
    else if not (is_present (probes dep))
    then some (unknown_dependency id dep)
    else check_dependencies probes id deps

unfoldable pub check_all : (Text → Option Probe) → List Text → Option RegistryError
unfolding check_dependencies
check_all probes [] = none
check_all probes (id ∷ ids) = elim (check_dependencies probes id (captured probes id)) [
  | none ↦ check_all probes ids
  | some e ↦ some e
]

-- The registry is sealed with an error.
abbrev pub seal : Registry → RegistryError → Registry × Option RegistryError
seal r e = (record r { resolved = true; resolved_plan = []; resolve_err = some e }, some e)

abbrev pub publish : Registry → Planned → Registry × Option RegistryError
publish r (refused e) = seal r e
publish r (planned plan) = (
  record r {
    resolved = true;
    resolved_plan = plan;
    compiled = some (compile_plan r.ordered_ids r.probes (captured r.probes) r.reg_index);
  },
  none,
)

abbrev pub resolve_checked : Registry → Option RegistryError → Registry × Option RegistryError
resolve_checked r (some e) = seal r e
resolve_checked r none = publish r (kahn_topo_sort r.ordered_ids (captured r.probes) r.reg_index)

unfoldable pub resolve : Registry → Registry × Option RegistryError
unfolding check_all kahn_topo_sort compile_plan
resolve r =
    if r.resolved then (r, r.resolve_err) else resolve_checked r (check_all r.probes r.ordered_ids)

abbrev pub outcome_of : Option RegistryError → List Text → Planned
outcome_of (some e) plan = refused e
outcome_of none plan = planned plan

-- ResolvedPlan.
unfoldable pub read_plan : Registry → Planned
read_plan r =
    if not r.resolved then refused not_resolved else outcome_of r.resolve_err r.resolved_plan

-- Get: none where no probe is registered.
abbrev pub get : Registry → Text → Option Probe
get r id = r.probes id

-- All.
unfoldable pub all : Registry → List (Option Probe)
all r = map r.probes r.ordered_ids
