-- ===== src/Requirement/Knowledge.antt =====
-- Unknown is not false: what is learnt later never turns a definite answer of evaluateNode round.
use capagent.Requirement.Tree.{meaning, meanings, Trees, Tree}
use capagent.Requirement.Soundness.{validate_sound}
use capagent.Requirement.Kleene.{Refines, not_mono, algebra_mono, ◌⊑◌}
use capagent.Requirement.Node.{enough_fuel, valid, validate, Pointer, Heap}
use capagent.Requirement.Logic.{RequirementState}
use capagent.Base.{arith, ℕ, ◌≡◌, Option}
use capagent.Model.CapabilityId.{CapabilityId}
use capagent.Requirement.Meaning.{run_node, EndsIn, capability_state}
use capagent.Requirement.Evaluate.{evaluate_node}
use capagent.Requirement.Predicate.{Result, predicate, state, CandidateIndex}

-- The second index knows of every capability what the first knows, or more.
abbrev pub Extends : CandidateIndex → CandidateIndex → Type 0
Extends index index' =
    (id : CapabilityId) → state (predicate id index) ⊑ state (predicate id index')

module _ (f g : CapabilityId → RequirementState) (more : (id : CapabilityId) → f id ⊑ g id) where
  mutual
    unfolding meaning

    meaning_mono : (t : Tree) → meaning f t ⊑ meaning g t
    meaning_mono (Tree.capability id) = more id
    meaning_mono (Tree.all ts) = (algebra_mono (meanings_mono ts)).0
    meaning_mono (Tree.any ts) = (algebra_mono (meanings_mono ts)).1
    meaning_mono (Tree.negation t) = not_mono (meaning f t) (meaning g t) (meaning_mono t)

    meanings_mono : (ts : Trees) → Refines (meanings f ts) (meanings g ts)
    meanings_mono Trees.nil = Refines.nil
    meanings_mono (Trees.cons t ts) = Refines.cons (meaning_mono t) (meanings_mono ts)

same_state : {run : Option Result} {s s' : RequirementState} → EndsIn run s → EndsIn run s' → s ≡ s'
same_state (x, ran, means) (y, ran', means') = ground arith

-- On a document that validate accepts, and with the fuel that Evaluate gives, let one index know
-- of every capability what another knows, or more. Then an answer that is SATISFIED or UNSATISFIED with
-- the poorer index is the same with the richer one.
pub evaluate_node_mono :
    (heap : Heap) (root : Pointer) {n : ℕ} (index index' : CandidateIndex) {s s' : RequirementState}
    → validate heap root ≡ valid n
    → Extends index index'
    → EndsIn (evaluate_node enough_fuel heap index root) s
    → EndsIn (evaluate_node enough_fuel heap index' root) s'
    → s ⊑ s'
unfolding capability_state
evaluate_node_mono heap root {n} index index' ok more ends ends' =
    let (t, holds, names, counted, few, low) = validate_sound heap root n ok in
    rw
      (
        same_state ends (run_node index heap enough_fuel root t holds (omega arith)),
        same_state ends' (run_node index' heap enough_fuel root t holds (omega arith)),
      )
      (meaning_mono (capability_state index) (capability_state index') more t)
