-- ===== src/Probe/Resolve.antt =====
-- Resolve of internal/probe/registry.go succeeds on closed registries without a cycle, and its plan is right.
use capagent.Graph.Rounds.{IsOrdered}
use capagent.Probe.Execution.{Probe, compile_plan}
use capagent.Probe.Sort.{RegistryError, Planned, planned, refused, kahn_topo_sort}
use capagent.Probe.Registry.{Registry, is_present, captured, check_dependencies, check_all, resolve}
use capagent.Probe.Invariant.{IsRegistry}
use capagent.Probe.Plan.{IsClosed, check_all-none, plan-IsOrdered, plan-full, plan-ranked, plan}
use capagent.Base.{
  Option-cases, sym, Text, List, [], ◌∷◌, ℕ, ◌<◌, ◌≡◌, occ, occ_self, length, true, false, none,
  some, Option, refl, arith, Bool-cases, inl, inr, text_eq, text_eq→eq, subst, ◌⊎◌, ◌∙◌,
}

Planned-cases :
    (k : Planned) → ((o : List Text) × (k ≡ planned o)) ⊎ ((e : RegistryError) × (k ≡ refused e))
Planned-cases (planned o) = inl (o, refl)
Planned-cases (refused e) = inr (e, refl)

-- A resolution without error checked all dependencies and published a plan.
resolve_steps :
    (r : Registry)
    → r.resolved ≡ false
    → (resolve r).1 ≡ none
    → (check_all r.probes r.ordered_ids ≡ none)
      × (o : List Text) × (kahn_topo_sort r.ordered_ids (captured r.probes) r.reg_index ≡ planned o)
      × ((resolve r).0.resolved_plan ≡ o)
      × ((resolve r).0.compiled
          ≡ some (compile_plan r.ordered_ids r.probes (captured r.probes) r.reg_index))
unfolding resolve
resolve_steps r fresh h = elim (Option-cases (check_all r.probes r.ordered_ids)) [
  | inr (e, q) ↦ absurd (ground arith)
  | inl q ↦ elim (Planned-cases (kahn_topo_sort r.ordered_ids (captured r.probes) r.reg_index)) [
    | inr (e, k) ↦ absurd (let h' = rw (fresh, q, k) at h in cc)
    | inl (o, k) ↦ (q, o, k, rw (fresh, q, k), rw (fresh, q, k))
  ]
]

-- The compiled plan that goes with the published one.
pub resolve_compiled :
    (r : Registry)
    → r.resolved ≡ false
    → (resolve r).1 ≡ none
    → (resolve r).0.compiled
      ≡ some (compile_plan r.ordered_ids r.probes (captured r.probes) r.reg_index)
resolve_compiled r fresh h =
    let (checked, o, k, published, compiled) = resolve_steps r fresh h in compiled

kahn_topo_sort-planned :
    (r : Registry) (inv : IsRegistry r) (closed : IsClosed r) (o : List Text)
    → kahn_topo_sort r.ordered_ids (captured r.probes) r.reg_index ≡ planned o
    → (plan r inv closed ≡ o) × (length (plan r inv closed) ≡ length r.ordered_ids)
unfolding kahn_topo_sort
kahn_topo_sort-planned r inv closed o h = (ground arith, ground arith)

-- If Resolve of an open registry returns no error, every dependency of a registered probe is
-- registered, and the plan holds each registered ID once, behind all the dependencies of its probe.
pub resolve_plan :
    (r : Registry)
    → IsRegistry r
    → r.resolved ≡ false
    → (resolve r).1 ≡ none
    → IsClosed r
      × ((z : Text) → occ z (resolve r).0.resolved_plan ≡ occ z r.ordered_ids)
      × IsOrdered (λ z d. 0 < occ d (captured r.probes z)) [] (resolve r).0.resolved_plan
resolve_plan r inv fresh h =
    let (checked, o, k, published, _) = resolve_steps r fresh h in
    let closed : IsClosed r = check_all-none r.probes r.ordered_ids checked in
    let (same, full) = kahn_topo_sort-planned r inv closed o k in
    let eq = same ∙ sym published in
    (
      closed,
      (λ z. subst (λ w. occ z w ≡ occ z r.ordered_ids) eq (plan-full r inv closed full z)),
      subst (λ w. IsOrdered (λ z d. 0 < occ d (captured r.probes z)) [] w) eq
          (plan-IsOrdered r inv closed),
    )

check_dependencies-passes :
    (probes : Text → Option Probe) (id : Text) (deps : List Text)
    → ((d : Text) → 0 < occ d deps → (text_eq d id ≡ false) × (is_present (probes d) ≡ true))
    → check_dependencies probes id deps ≡ none
unfolding check_dependencies occ
check_dependencies-passes probes id [] h = refl
check_dependencies-passes probes id (dep ∷ deps) h =
    let (other, there) = h dep (omega (arith, occ_self dep deps)) in
    let rest = check_dependencies-passes probes id deps (λ d m. h d (omega arith)) in ground arith

check_all-passes :
    (probes : Text → Option Probe) (ids : List Text)
    → ((z d : Text)
        → 0 < occ z ids
        → 0 < occ d (captured probes z)
        → (text_eq d z ≡ false) × (is_present (probes d) ≡ true))
    → check_all probes ids ≡ none
unfolding check_all occ
check_all-passes probes [] h = refl
check_all-passes probes (id ∷ ids) h =
    let one =
      check_dependencies-passes probes id (captured probes id)
        (λ d. h id d (omega (arith, occ_self id ids))) in
    let rest = check_all-passes probes ids (λ z d m. h z d (omega arith)) in ground arith

-- Resolve of an open registry returns no error if every dependency of a registered probe is registered
-- and a rank falls from each probe to its dependencies.
pub resolve_succeeds :
    (r : Registry) (rank : Text → ℕ)
    → IsRegistry r
    → r.resolved ≡ false
    → IsClosed r
    → ((z d : Text) → 0 < occ d (captured r.probes z) → rank d < rank z)
    → (resolve r).1 ≡ none
unfolding resolve kahn_topo_sort
resolve_succeeds r rank inv fresh closed falls =
    let full = plan-ranked r inv closed rank falls in
    let passes = check_all-passes r.probes r.ordered_ids (λ z d m n.
      elim (Bool-cases (text_eq d z)) [
        | inr e ↦ (e, closed z d m n)
        | inl e ↦
            let low : rank z < rank z =
              subst (λ w. rank w < rank z) (text_eq→eq d z e) (falls z d n) in
            absurd (omega arith)
      ]) in
    ground arith
