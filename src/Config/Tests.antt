-- ===== src/Config/Tests.antt =====
-- A list of settings under a layer that appends and one that replaces.
use capagent.Base.{refl, arith, ◌∷◌, ◌≡◌, [], true, Text, codes, none, Bool, some, List, Option}
use capagent.Config.Layers.{
  redact-merge_list, merge_list-IsAligned, IsAligned, KeepsMarks, redact, Holds,
}
use capagent.Config.Merge.{merge_redacted, ListLayer, new_list, merge_list, ConfigList}

abbrev defaults : ConfigList
defaults = record new_list {
  values = codes "/usr/bin/conmon" ∷ [];
  origins = codes "default" ∷ [];
  invalid_indices = 0 ∷ [];
}

abbrev layer_with : Option Bool → ListLayer
layer_with flag = record {
  invalid_indices = 1 ∷ [];
  unmodeled_indices = [];
  values = codes "/opt/conmon" ∷ codes "/bad" ∷ [];
  append = flag;
}

abbrev map_values : Option ConfigList → List Text
map_values none = []
map_values (some l) = l.values

merge_list-append :
    map_values (merge_list (some defaults) (some (layer_with (some true))) (codes "user"))
    ≡ codes "/usr/bin/conmon" ∷ codes "/opt/conmon" ∷ codes "/bad" ∷ []
unfolding merge_list
merge_list-append = refl

merge_list-replace :
    map_values (merge_list (some defaults) (some (layer_with none)) (codes "user"))
    ≡ codes "/opt/conmon" ∷ codes "/bad" ∷ []
unfolding merge_list
merge_list-replace = refl

merge_list-IsAligned_example :
    Holds
      (λ out. IsAligned out × KeepsMarks (some defaults) (some (layer_with (some true))) out)
      (merge_list (some defaults) (some (layer_with (some true))) (codes "user"))
merge_list-IsAligned_example =
    merge_list-IsAligned (some defaults) (some (layer_with (some true))) (codes "user")
      (refl, (omega arith, tt), tt) ((omega arith, tt), tt)

redact-merge_list_example :
    redact (merge_list (some defaults) (some (layer_with (some true))) (codes "user"))
    ≡ merge_redacted (redact (some defaults)) (some (layer_with (some true))) (codes "user")
redact-merge_list_example =
    redact-merge_list (some defaults) (some (layer_with (some true))) (codes "user")
