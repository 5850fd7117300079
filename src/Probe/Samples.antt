-- ===== src/Probe/Samples.antt =====
-- A registry of two probes, one of which needs the other.
use capagent.Probe.Execution.{Probe}
use capagent.Probe.Registry.{Registry, new_registry, register, resolve, read_plan}
use capagent.Probe.Invariant.{IsRegistry}
use capagent.Probe.Machine.{Reach, start, later, registers, Reach-IsRegistry}
use capagent.Base.{false, [], ◌∷◌, codes, some, none, ◌≡◌, refl, occ, text_eq}

abbrev pub kernel : Probe
kernel = record { id = codes "k"; dependencies = [] }

abbrev pub storage : Probe
storage = record { id = codes "s"; dependencies = codes "k" ∷ [] }

-- The probe that is needed is registered last.
unfoldable pub registry : Registry
unfolding register
registry = (register (register new_registry (some storage)).0 (some kernel)).0

unfoldable pub program : Unit {0}
unfolding registry resolve register read_plan text_eq occ
program = tt

pub history : Reach new_registry registry
unfolding program
history = later (later start (registers (some storage))) (registers (some kernel))

pub registry-IsRegistry : IsRegistry registry
registry-IsRegistry = Reach-IsRegistry history

pub succeeds : (resolve registry).1 ≡ none
unfolding program
succeeds = refl

pub opened : registry.resolved ≡ false
unfolding program
opened = refl
