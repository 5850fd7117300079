-- ===== src/Config/Merge.antt =====
-- MergeEngine of internal/config/engine.go, and the settings of internal/model/configuration.go.
-- A pointer is an Option. A map of runtimes is a function.
use capagent.Base.{
  ◌+◌, true, length, none, map, false, ◌||◌, if◌then◌else◌, ◌++◌, some, Bool, List, [], ℕ, Text,
  Option,
}

pub record ConfigString : Type 0 where
  pub invalid : Bool
  pub value : Text
  pub source_id : Text

pub record ConfigList : Type 0 where
  pub invalid_indices : List ℕ
  pub unmodeled_indices : List ℕ
  pub values : List Text
  pub origins : List Text
  pub source_id : Text
  pub append : Option Bool
  pub inherited_default : Bool

pub record ConfigRedactedList : Type 0 where
  pub count : ℕ
  pub source_id : Text
  pub append : Option Bool
  pub inherited_default : Bool

pub record ListLayer : Type 0 where
  pub invalid_indices : List ℕ
  pub unmodeled_indices : List ℕ
  pub values : List Text
  pub append : Option Bool

pub record EngineConfiguration : Type 0 where
  pub runtime : Option ConfigString
  pub cgroup_manager : Option ConfigString
  pub runtimes : Text → Option ConfigList
  pub conmon_path : Option ConfigList
  pub helper_binaries_dir : Option ConfigList
  pub runtime_path : Option ConfigList
  pub environment : Option ConfigRedactedList
  pub selection_overrides : Bool
  pub unprojected_field_count : ℕ

pub record EngineLayer : Type 0 where
  pub cgroup_manager_invalid : Bool
  pub runtime : Option Text
  pub cgroup_manager : Option Text
  pub conmon_path : Option ListLayer
  pub helper_binaries_dir : Option ListLayer
  pub runtime_path : Option ListLayer
  pub environment : Option ListLayer
  pub runtimes : Text → Option ListLayer
  pub selection_overrides : Bool
  pub unprojected_field_count : ℕ

unfoldable pub merge_string : Option ConfigString → Option Text → Text → Option ConfigString
merge_string previous (some v) source =
    some (record { invalid = false; value = v; source_id = source })
merge_string previous none source = previous

abbrev pub new_list : ConfigList
new_list = record {
  invalid_indices = [];
  unmodeled_indices = [];
  values = [];
  origins = [];
  source_id = [];
  append = none;
  inherited_default = true;
}

-- `out.Append` after the layer.
abbrev pub append_after : Option Bool → Option Bool → Option Bool
append_after previous none = previous
append_after previous (some flag) = some flag

-- `out.Append != nil && *out.Append`.
abbrev pub appends : Option Bool → Bool
appends none = false
appends (some flag) = flag

-- Forgets the entries so far.
abbrev pub replaced : ConfigList → ConfigList
replaced out = record out {
  values = [];
  origins = [];
  inherited_default = false;
  invalid_indices = [];
  unmodeled_indices = [];
}

abbrev pub shifted : ℕ → List ℕ → List ℕ
shifted n indices = map (λ i. n + i) indices

-- The entries of a layer added.
abbrev pub extended : ConfigList → ListLayer → Text → ConfigList
extended out layer source = record out {
  invalid_indices = out.invalid_indices ++ shifted (length out.values) layer.invalid_indices;
  unmodeled_indices = out.unmodeled_indices ++ shifted (length out.values) layer.unmodeled_indices;
  values = out.values ++ layer.values;
  origins = out.origins ++ map (λ v. source) layer.values;
  source_id = source;
}

unfoldable pub overlay_list : ConfigList → ListLayer → Text → ConfigList
overlay_list out layer source =
    let flag = append_after out.append layer.append in
    let base = record out { append = flag } in
    extended (if appends flag then base else replaced base) layer source

abbrev pub start_list : Option ConfigList → ConfigList
start_list none = new_list
start_list (some previous) = previous

unfoldable pub merge_list : Option ConfigList → Option ListLayer → Text → Option ConfigList
unfolding overlay_list
merge_list none none source = none
merge_list (some previous) none source = some previous
merge_list previous (some layer) source = some (overlay_list (start_list previous) layer source)

abbrev pub new_redacted : ConfigRedactedList
new_redacted = record { count = 0; source_id = []; append = none; inherited_default = true }

abbrev pub start_redacted : Option ConfigRedactedList → ConfigRedactedList
start_redacted none = new_redacted
start_redacted (some previous) = previous

unfoldable pub overlay_redacted : ConfigRedactedList → ListLayer → Text → ConfigRedactedList
overlay_redacted out layer source =
    let flag = append_after out.append layer.append in
    record {
      count = (if appends flag then out.count else 0) + length layer.values;
      source_id = source;
      append = flag;
      inherited_default = if appends flag then out.inherited_default else false;
    }

unfoldable pub merge_redacted :
    Option ConfigRedactedList → Option ListLayer → Text → Option ConfigRedactedList
unfolding overlay_redacted
merge_redacted none none source = none
merge_redacted (some previous) none source = some previous
merge_redacted previous (some layer) source =
    some (overlay_redacted (start_redacted previous) layer source)

-- `out.CgroupManager.Invalid = ...` where the layer has one.
abbrev pub mark_invalid : Option Text → Bool → Option ConfigString → Option ConfigString
mark_invalid none flag out = out
mark_invalid (some v) flag none = none
mark_invalid (some v) flag (some s) = some (record s { invalid = flag })

-- The two loops over the runtimes, at one key.
abbrev pub merge_runtime : Option ConfigList → Option ListLayer → Text → Option ConfigList
unfolding merge_list
merge_runtime previous none source = merge_list previous none source
merge_runtime previous (some layer) source = merge_list none (some layer) source

unfoldable pub merge_engine : EngineConfiguration → EngineLayer → Text → EngineConfiguration
unfolding merge_string merge_list merge_redacted
merge_engine previous layer source = record {
  runtime = merge_string previous.runtime layer.runtime source;
  cgroup_manager =
      mark_invalid layer.cgroup_manager layer.cgroup_manager_invalid
        (merge_string previous.cgroup_manager layer.cgroup_manager source);
  runtimes = λ name. merge_runtime (previous.runtimes name) (layer.runtimes name) source;
  conmon_path = merge_list previous.conmon_path layer.conmon_path source;
  helper_binaries_dir = merge_list previous.helper_binaries_dir layer.helper_binaries_dir source;
  runtime_path = merge_list previous.runtime_path layer.runtime_path source;
  environment = merge_redacted previous.environment layer.environment source;
  selection_overrides = previous.selection_overrides || layer.selection_overrides;
  unprojected_field_count = previous.unprojected_field_count + layer.unprojected_field_count;
}
