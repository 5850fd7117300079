-- ===== src/Probe/Plan.antt =====
-- The plan that Resolve publishes, and when it does (internal/probe/registry.go).
use capagent.Graph.Rounds.{IsOrdered}
use capagent.Graph.Result.{IsBuilt, run_order-IsOrdered, run_order-full, run_order-ranked}
use capagent.Probe.Execution.{Probe}
use capagent.Probe.Sort.{Tables, run_heap, count_all, nothing_counted, push_all}
use capagent.Probe.Invariant.{IsRegistry}
use capagent.Probe.Registry.{Registry, is_present, captured, check_dependencies, check_all}
use capagent.Probe.Tables.{count_all-occ, push_all-Keeps}
use capagent.Base.{
  Option-cases, Text, List, [], ◌∷◌, ℕ, ◌<◌, ◌≡◌, occ, length, true, none, Option, keep, arith,
  Bool-cases, inl, inr, text_eq, text_eq→eq, subst, ◌==◌,
}

-- Every dependency of a registered probe is registered.
abbrev pub IsClosed : Registry → Type 0
IsClosed r =
    (z d : Text)
    → 0 < occ z r.ordered_ids
    → 0 < occ d (captured r.probes z)
    → is_present (r.probes d) ≡ true

check_dependencies-none :
    (probes : Text → Option Probe) (id : Text) (deps : List Text)
    → check_dependencies probes id deps ≡ none
    → (d : Text) → 0 < occ d deps
    → is_present (probes d) ≡ true
unfolding check_dependencies occ
check_dependencies-none probes id [] h d m = absurd (omega arith)
check_dependencies-none probes id (dep ∷ deps) h d m = elim (Bool-cases (text_eq dep d)) [
  | inl e ↦ subst (λ w. is_present (probes w) ≡ true) (text_eq→eq dep d e) (ground arith)
  | inr e ↦ check_dependencies-none probes id deps (ground arith) d (ground arith)
]

pub check_all-none :
    (probes : Text → Option Probe) (ids : List Text)
    → check_all probes ids ≡ none
    → (z d : Text) → 0 < occ z ids
    → 0 < occ d (captured probes z)
    → is_present (probes d) ≡ true
unfolding check_all occ
check_all-none probes [] h z d m n = absurd (omega arith)
check_all-none probes (id ∷ ids) h z d m n =
    elim (Option-cases (check_dependencies probes id (captured probes id))) [
      | inr (e, q) ↦ absurd (ground arith)
      | inl q ↦ elim (Bool-cases (text_eq id z)) [
        | inl e ↦
            check_dependencies-none probes z (captured probes z)
              (subst (λ w. check_dependencies probes w (captured probes w) ≡ none)
                (text_eq→eq id z e) q)
              d n
        | inr e ↦ check_all-none probes ids (ground arith) z d (ground arith) n
      ]
    ]

module _ (r : Registry) (inv : IsRegistry r) (closed : IsClosed r) where
  tables-IsBuilt :
      IsBuilt r.ordered_ids
        (captured r.probes)
        (count_all (captured r.probes) nothing_counted r.ordered_ids).in_degree
        (count_all (captured r.probes) nothing_counted r.ordered_ids).dependents
  unfolding occ
  tables-IsBuilt = record {
    counted =
        λ z. omega (arith, (count_all-occ (captured r.probes) z z nothing_counted r.ordered_ids).0);
    linked = λ z d.
        omega (arith, (count_all-occ (captured r.probes) z d nothing_counted r.ordered_ids).1);
    declared = λ z d node dep. inv.listed d (closed z d node dep);
  }

  abbrev counted_tables : Tables
  counted_tables = count_all (captured r.probes) nothing_counted r.ordered_ids

  abbrev first : List Text
  first = push_all r.reg_index [] (keep (λ id. counted_tables.in_degree id == 0) r.ordered_ids)

  first-occ :
      (z : Text) → occ z first ≡ occ z (keep (λ id. counted_tables.in_degree id == 0) r.ordered_ids)
  unfolding occ
  first-occ z = omega (
    arith,
    push_all-Keeps r.reg_index z [] (keep (λ id. counted_tables.in_degree id == 0) r.ordered_ids),
  )

  abbrev pub plan : List Text
  plan = (run_heap r.ordered_ids r.reg_index counted_tables).order

  pub plan-IsOrdered : IsOrdered (λ z d. 0 < occ d (captured r.probes z)) [] plan
  unfolding run_heap
  plan-IsOrdered =
      run_order-IsOrdered (push_all r.reg_index) (push_all-Keeps r.reg_index) r.ordered_ids
        (captured r.probes) counted_tables.in_degree counted_tables.dependents first inv.distinct
        tables-IsBuilt first-occ

  pub plan-full : length plan ≡ length r.ordered_ids → (z : Text) → occ z plan ≡ occ z r.ordered_ids
  unfolding run_heap
  plan-full =
      run_order-full (push_all r.reg_index) (push_all-Keeps r.reg_index) r.ordered_ids
        (captured r.probes) counted_tables.in_degree counted_tables.dependents first inv.distinct
        tables-IsBuilt first-occ

  pub plan-ranked :
      (rank : Text → ℕ)
      → ((z d : Text) → 0 < occ d (captured r.probes z) → rank d < rank z)
      → length plan ≡ length r.ordered_ids
  unfolding run_heap
  plan-ranked =
      run_order-ranked (push_all r.reg_index) (push_all-Keeps r.reg_index) r.ordered_ids
        (captured r.probes) counted_tables.in_degree counted_tables.dependents first inv.distinct
        tables-IsBuilt first-occ
