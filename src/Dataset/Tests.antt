-- ===== src/Dataset/Tests.antt =====
-- A dataset with one observation and two items of evidence, one of which depends on the other.
use capagent.Model.Execution.{identity_is_valid-IsSameUser, IsSameUser}
use capagent.Model.States.{verified, supported, Completeness}
use capagent.Dataset.Sound.{validate_dataset-IsSound, IsSound}
use capagent.Model.Ranges.{ranges_is_valid-IsDisjoint, IsDisjoint, IsAllocation}
use capagent.Capability.Topological.{topological}
use capagent.Model.Errors.{overlapping_ranges}
use capagent.Model.Evidence.{evidence_validate, Evidence}
use capagent.Dataset.Check.{check_graph, validate_indexed, validate_within, validate_dataset}
use capagent.Dataset.Index.{incompatible_dependency, incomplete_dependency, Dataset}
use capagent.Model.Observation.{Observation, Fact}
use capagent.Model.Scope.{EvaluationScope}
use capagent.Model.Identity.{
  identity_is_valid, SubIdRange, EvaluationContext, ranges_is_valid, UserIdentity, IdentityContext,
}
use capagent.Base.{
  refl, text_lt, arith, occ, contains, text_eq, All, true, ◌↔◌, [], none, codes, some, ◌≡◌, ◌∷◌,
  List,
}

program : Unit {0}
unfolding validate_dataset validate_within validate_indexed check_graph topological text_eq contains
    occ text_lt evidence_validate ranges_is_valid
program = tt

abbrev scope : EvaluationScope
scope = record { run_id = codes "run"; context_id = codes "here"; runtime = []; endpoint = [] }

abbrev fact : Fact
fact = record {
  id = codes "fact";
  scope = scope;
  completeness = Completeness.complete;
  source = codes "/proc/version";
  raw_data = [];
  text = [];
  timestamp = 1;
}

abbrev observation : Observation
observation = record {
  id = codes "seen";
  probe_id = codes "kernel";
  timestamp = 2;
  summary = [];
  scope = scope;
  completeness = Completeness.complete;
  facts = fact ∷ [];
}

abbrev user : UserIdentity
user = record { uid = 1000; gid = 1000; supplementary_groups = 10 ∷ []; groups_known = true }

abbrev pool : List SubIdRange
pool = record { start = 165536; length = 65536 } ∷ record { start = 100000; length = 65536 } ∷ []

abbrev crossing : List SubIdRange
crossing =
    record { start = 165535; length = 65536 } ∷ record { start = 100000; length = 65536 } ∷ []

abbrev identity : IdentityContext
identity = record {
  execution = some user;
  selection = codes "uid:1000";
  current = some user;
  target = some user;
  sub_uid_ranges = pool;
  sub_gid_ranges = [];
}

abbrev context : EvaluationContext
context = record {
  id = codes "here";
  namespaces = record { kind = codes "user"; id = codes "4026531837" } ∷ [];
  identity = identity;
}

abbrev item : Evidence
item = record {
  id = codes "kernel";
  source = codes "kernel";
  claim = codes "host.kernel";
  precedence = 1;
  observations = record { id = codes "seen"; probe_id = codes "kernel" } ∷ [];
  timestamp = 3;
  scope = scope;
  completeness = Completeness.complete;
  state = supported;
  confidence = verified;
  depends_on = [];
}

abbrev derived_item : Evidence
derived_item = record item {
  id = codes "storage";
  claim = codes "storage.overlay";
  timestamp = 4;
  depends_on = codes "kernel" ∷ [];
}

abbrev data_of : List Evidence → Dataset
data_of evidence = record {
  run_id = codes "run";
  at_time = 5;
  contexts = context ∷ [];
  observations = observation ∷ [];
  evidence = evidence;
}

abbrev items : Dataset
items = data_of (derived_item ∷ item ∷ [])

validate_dataset-items : validate_dataset (λ keys. keys) items ≡ none
unfolding program
validate_dataset-items = refl

validate_dataset-future :
    validate_dataset (λ keys. keys) (data_of (derived_item ∷ record item { timestamp = 6 } ∷ []))
    ≡ some incomplete_dependency
unfolding program
validate_dataset-future = refl

validate_dataset-missing :
    validate_dataset (λ keys. keys) (data_of (derived_item ∷ [])) ≡ some incompatible_dependency
unfolding program
validate_dataset-missing = refl

ranges_is_valid-crossing : ranges_is_valid crossing ≡ some overlapping_ranges
unfolding program
ranges_is_valid-crossing = refl

validate_dataset-IsSound_example : IsSound items
validate_dataset-IsSound_example =
    validate_dataset-IsSound (λ keys. keys) items (λ keys z. refl) validate_dataset-items

ranges_is_valid-IsDisjoint_example :
    (ranges_is_valid pool ≡ none) ↔ (All IsAllocation pool × IsDisjoint pool)
ranges_is_valid-IsDisjoint_example =
    ranges_is_valid-IsDisjoint pool ((omega arith, omega arith), ((omega arith, omega arith), tt))

identity_is_valid-identity : identity_is_valid identity ≡ none
unfolding program
identity_is_valid-identity = refl

identity_is_valid-IsSameUser_example :
    (t : UserIdentity) × (identity.target ≡ some t) × IsSameUser user t
identity_is_valid-IsSameUser_example =
    identity_is_valid-IsSameUser identity user identity_is_valid-identity refl
