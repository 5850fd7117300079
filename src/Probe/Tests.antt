-- ===== src/Probe/Tests.antt =====
-- A registry of two probes, one of which needs the other, and the theorems about the registry at it.
use capagent.Probe.Execution.{ExecutionPlan}
use capagent.Probe.Sort.{registry_resolved}
use capagent.Probe.Registry.{register, resolve, read_plan, outcome_of, captured}
use capagent.Probe.Invariant.{IsRegistry}
use capagent.Probe.Plan.{IsClosed}
use capagent.Probe.Resolve.{resolve_plan, resolve_succeeds}
use capagent.Probe.Machine.{Reach, start, later, registers, Reach-IsRegistry, resolve_cached}
use capagent.Graph.Rounds.{IsOrdered}
use capagent.Orchestrator.Plan.{IsPlan}
use capagent.Orchestrator.Published.{resolve-IsPlan}
use capagent.Probe.Samples.{
  program, kernel, storage, registry, history, registry-IsRegistry, succeeds, opened,
}
use capagent.Base.{
  map, Text, [], ◌∷◌, ℕ, codes, some, none, ◌≡◌, ◌<◌, refl, occ, text_eq, Bool-cases, inl, inr,
  text_eq→eq, subst, arith, if◌then◌else◌,
}

resolve-plan : (resolve registry).0.resolved_plan ≡ codes "k" ∷ codes "s" ∷ []
unfolding program
resolve-plan = refl

abbrev rank : Text → ℕ
rank z = if text_eq (codes "s") z then 1 else 0

resolve_plan_example :
    IsClosed registry
    × ((z : Text) → occ z (resolve registry).0.resolved_plan ≡ occ z registry.ordered_ids)
    × IsOrdered
        (λ z d. 0 < occ d (captured registry.probes z))
        []
        (resolve registry).0.resolved_plan
resolve_plan_example = resolve_plan registry registry-IsRegistry opened succeeds

falls : (z d : Text) → 0 < occ d (captured registry.probes z) → rank d < rank z
unfolding program
falls z d h = elim (Bool-cases (text_eq (codes "k") z)) [
  | inl e ↦ absurd (omega (arith, rw e at h))
  | inr e ↦ elim (Bool-cases (text_eq (codes "s") z)) [
    | inr q ↦ absurd (omega (arith, rw (e, q) at h))
    | inl q ↦
        let h' = rw (e, q) at h in
        elim (Bool-cases (text_eq (codes "k") d)) [
          | inr n ↦ absurd (ground arith)
          | inl n ↦
              let low : rank d < 1 =
                subst (λ w. rank w < 1) (text_eq→eq (codes "k") d n) (omega arith) in
              rw q low
        ]
  ]
]

closed : IsClosed registry
closed = resolve_plan_example.0

resolve_succeeds_example : (resolve registry).1 ≡ none
resolve_succeeds_example = resolve_succeeds registry rank registry-IsRegistry opened closed falls

Reach-IsRegistry_example : IsRegistry registry
Reach-IsRegistry_example = Reach-IsRegistry history

later_calls : Reach (resolve registry).0 (register (resolve registry).0 (some kernel)).0
later_calls = later start (registers (some kernel))

resolve_cached_example :
    (resolve (register (resolve registry).0 (some kernel)).0 ≡ resolve registry)
    × (read_plan (register (resolve registry).0 (some kernel)).0
        ≡ outcome_of (resolve registry).1 (resolve registry).0.resolved_plan)
    × (register (register (resolve registry).0 (some kernel)).0 (some storage)
        ≡ ((register (resolve registry).0 (some kernel)).0, some registry_resolved))
unfolding program
resolve_cached_example =
    resolve_cached registry (register (resolve registry).0 (some kernel)).0 storage history
      later_calls refl

resolve-IsPlan_example :
    (compiled : ExecutionPlan) × ((resolve registry).0.compiled ≡ some compiled)
    × IsPlan compiled
    × (map (λ node. node.id) compiled.nodes ≡ registry.ordered_ids)
resolve-IsPlan_example = resolve-IsPlan registry registry-IsRegistry opened succeeds
