-- ===== src/Graph/Kahn.antt =====
-- The loops of topological (internal/capability/graph.go) and of kahnTopoSort (internal/probe/registry.go).
use capagent.Base.{zero, ◌==◌, ◌-◌, [], text_eq, suc, if◌then◌else◌, ◌++◌, ◌∷◌, ℕ, Text, List}

-- A Go map from strings, with its zero value at a missing key.
abbrev pub Counts : Type 0
Counts = Text → ℕ

abbrev pub Links : Type 0
Links = Text → List Text

-- `m[k] = v`.
abbrev pub update {ℓ} : {A : Type ℓ} → (Text → A) → Text → A → Text → A
update m k v j = if text_eq k j then v else m j

-- The variables of the loop: what is left of each count, the nodes that are ready, and the order so far.
pub record Progress : Type 0 where
  pub counts : Counts
  pub ready : List Text
  pub order : List Text

-- The inner loop: it lowers the count of each child, and returns the children that reach 0 in turn.
-- In the code a count is at least 1 where it is lowered.
unfoldable pub relax : Counts → List Text → Counts × List Text
relax counts [] = (counts, [])
relax counts (child ∷ rest) =
    let (after, freed) = relax (update counts child (counts child - 1)) rest in
    (after, if counts child == 1 then child ∷ freed else freed)

module _ (arrange : List Text → List Text → List Text) (downstream : Links) where
  -- One round: the first node that is ready is put in order. `arrange` puts the freed nodes with the others.
  unfoldable pub round : Counts → Text → List Text → List Text → Progress
  unfolding relax
  round counts id rest order =
      let (after, freed) = relax counts (downstream id) in
      record { counts = after; ready = arrange rest freed; order = order ++ (id ∷ []) }

  abbrev next : (Progress → Progress) → Counts → List Text → List Text → Progress
  next again counts [] order = record { counts = counts; ready = []; order = order }
  next again counts (id ∷ rest) order = again (round counts id rest order)

  -- `for len(ready) > 0`, with fuel.
  unfoldable pub rounds : ℕ → Progress → Progress
  unfolding round
  rounds zero p = p
  rounds (suc fuel) p = next (rounds fuel) p.counts p.ready p.order
