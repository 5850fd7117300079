-- ===== src/Probe/Machine.antt =====
-- The state machine of the registry (internal/probe/registry.go): any sequence of Register and Resolve.
use capagent.Probe.Execution.{Probe}
use capagent.Probe.Sort.{
  duplicate_id, empty_id, RegistryError, Planned, planned, refused, kahn_topo_sort,
  registry_resolved,
}
use capagent.Probe.Registry.{
  Registry, is_present, captured, check_all, resolve, register, resolve_checked, publish,
  new_registry, read_plan, outcome_of, add_probe,
}
use capagent.Probe.Invariant.{IsRegistry, new_registry-IsRegistry, add_probe-IsRegistry}
use capagent.Base.{
  if◌then◌else◌, Bool, ◌≡◌, true, false, none, some, Option, refl, subst, sym, ◌∙◌, is_empty, arith,
}

pub data Step (r : Registry) : Registry → Type 0 where
  registers : (p : Option Probe) → Step r (register r p).0
  resolves : Step r (resolve r).0

pub data Reach (r : Registry) : Registry → Type 0 where
  start : Reach r r
  later : {s t : Registry} → Reach r s → Step s t → Reach r t

guarded-IsRegistry :
    (r : Registry) (p : Probe) (nameless sealed taken : Bool)
    → is_present (r.probes p.id) ≡ taken
    → IsRegistry r
    → let after : Registry × Option RegistryError =
        if nameless
        then (r, some empty_id)
        else if sealed
        then (r, some registry_resolved)
        else if taken
        then (r, some (duplicate_id p.id))
        else (add_probe r p, none) in
      IsRegistry after.0
guarded-IsRegistry r p true sealed taken e inv = inv
guarded-IsRegistry r p false true taken e inv = inv
guarded-IsRegistry r p false false true e inv = inv
guarded-IsRegistry r p false false false e inv = add_probe-IsRegistry r p inv e

register-IsRegistry : (r : Registry) (p : Option Probe) → IsRegistry r → IsRegistry (register r p).0
unfolding register
register-IsRegistry r none inv = inv
register-IsRegistry r (some p) inv =
    guarded-IsRegistry r p (is_empty p.id) r.resolved (is_present (r.probes p.id)) refl inv

-- The registry is resolved with the same probes, and keeps the error that is returned.
record IsSealed (r : Registry) (s : Registry × Option RegistryError) : Type 0 where
  ids : s.0.ordered_ids ≡ r.ordered_ids
  probes : s.0.probes ≡ r.probes
  indices : s.0.reg_index ≡ r.reg_index
  closed : s.0.resolved ≡ true
  kept : s.0.resolve_err ≡ s.1

publish-IsSealed : (r : Registry) (k : Planned) → r.resolve_err ≡ none → IsSealed r (publish r k)
publish-IsSealed r (refused e) unset = record {
  ids = refl;
  probes = refl;
  indices = refl;
  closed = refl;
  kept = refl;
}
publish-IsSealed r (planned o) unset = record {
  ids = refl;
  probes = refl;
  indices = refl;
  closed = refl;
  kept = unset;
}

resolve_checked-IsSealed :
    (r : Registry) (sealed : Bool) (c : Option RegistryError)
    → r.resolved ≡ sealed
    → IsRegistry r
    → IsSealed r (if sealed then (r, r.resolve_err) else resolve_checked r c)
resolve_checked-IsSealed r true c f inv = record {
  ids = refl;
  probes = refl;
  indices = refl;
  closed = f;
  kept = refl;
}
resolve_checked-IsSealed r false (some e) f inv = record {
  ids = refl;
  probes = refl;
  indices = refl;
  closed = refl;
  kept = refl;
}
resolve_checked-IsSealed r false none f inv =
    publish-IsSealed r (kahn_topo_sort r.ordered_ids (captured r.probes) r.reg_index) (inv.unset f)

resolve-IsSealed : (r : Registry) → IsRegistry r → IsSealed r (resolve r)
unfolding resolve
resolve-IsSealed r inv =
    resolve_checked-IsSealed r r.resolved (check_all r.probes r.ordered_ids) refl inv

resolve-IsRegistry : (r : Registry) → IsRegistry r → IsRegistry (resolve r).0
resolve-IsRegistry r inv =
    let s = resolve-IsSealed r inv in
    record {
      distinct = rw s.ids inv.distinct;
      listed = rw (s.ids, s.probes) inv.listed;
      stored = rw (s.ids, s.probes) inv.stored;
      indexed = rw (s.ids, s.indices) inv.indexed;
      unset = λ still. absurd (let h = s.closed in cc);
    }

Step-IsRegistry : {r s : Registry} → Step r s → IsRegistry r → IsRegistry s
Step-IsRegistry {r} (registers p) inv = register-IsRegistry r p inv
Step-IsRegistry {r} resolves inv = resolve-IsRegistry r inv

-- After any sequence of Register and Resolve on a new registry, the registered IDs are distinct, stand
-- where their index says, and are the keys of the map of probes, and an open registry has no error.
pub Reach-IsRegistry : {r : Registry} → Reach new_registry r → IsRegistry r
Reach-IsRegistry start = new_registry-IsRegistry
Reach-IsRegistry (later h step) = Step-IsRegistry step (Reach-IsRegistry h)

Step-closed : {r s : Registry} → r.resolved ≡ true → Step r s → s ≡ r
unfolding register resolve
Step-closed f (registers none) = refl
Step-closed {r} f (registers (some p)) = ground arith
Step-closed {r} f resolves = ground arith

Reach-closed : {r s : Registry} → r.resolved ≡ true → Reach r s → s ≡ r
Reach-closed f start = refl
Reach-closed {r} f (later {s = s} h step) =
    let same = Reach-closed f h in
    Step-closed (subst (λ w. w.resolved ≡ true) (sym same) f) step ∙ same

cached :
    (r s : Registry) (e : Option RegistryError) (p : Probe)
    → s.resolved ≡ true
    → s.resolve_err ≡ e
    → is_empty p.id ≡ false
    → (resolve s ≡ (s, e))
      × (read_plan s ≡ outcome_of e s.resolved_plan)
      × (register s (some p) ≡ (s, some registry_resolved))
unfolding resolve read_plan register
cached r s e p f k named = (ground arith, ground arith, ground arith)

-- Once Resolve is called on a registry that comes from a new one, no sequence of calls changes it: a
-- further Resolve returns what the first returned, ResolvedPlan the plan or the error of the first,
-- and Register of a probe that has an ID is refused.
pub resolve_cached :
    (r r' : Registry) (p : Probe)
    → Reach new_registry r
    → Reach (resolve r).0 r'
    → is_empty p.id ≡ false
    → (resolve r' ≡ resolve r)
      × (read_plan r' ≡ outcome_of (resolve r).1 (resolve r).0.resolved_plan)
      × (register r' (some p) ≡ (r', some registry_resolved))
resolve_cached r r' p history h named =
    let s = resolve-IsSealed r (Reach-IsRegistry history) in
    subst
      (λ w.
        (resolve w ≡ resolve r)
        × (read_plan w ≡ outcome_of (resolve r).1 (resolve r).0.resolved_plan)
        × (register w (some p) ≡ (w, some registry_resolved)))
      (sym (Reach-closed s.closed h)) (cached r (resolve r).0 (resolve r).1 p s.closed s.kept named)
