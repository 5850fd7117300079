-- ===== src/Orchestrator/Release.antt =====
-- What a success does to the dependents of a probe.
use capagent.Base.{
  ◌∙◌, ap, ℕ, ◌+◌, ◌-◌, ◌≡◌, ◌==◌, List, [], ◌∷◌, Bool, true, false, if◌then◌else◌, inl, inr,
  Bool-cases, refl, arith, ==_iff,
}
use capagent.Graph.Rounds.{fires}
use capagent.Orchestrator.Counting.{count}
use capagent.Orchestrator.Scheduler.{States, set_state, release}

count-if :
    (z d : ℕ) (b : Bool) (xs : List ℕ)
    → count z (if b then d ∷ xs else xs) ≡ (if b then (if d == z then 1 else 0) else 0) + count z xs
unfolding count
count-if z d true xs = refl
count-if z d false xs = omega arith

-- The remaining dependencies of `z` fall by its edges, and `z` becomes runnable where they reach 0.
pub release_lem :
    (states : States) (ds : List ℕ) (z : ℕ)
    → (((release states ds).0 z).remaining_deps ≡ (states z).remaining_deps - count z ds)
      × (((release states ds).0 z).finalized ≡ (states z).finalized)
      × (((release states ds).0 z).result ≡ (states z).result)
      × (count z (release states ds).1 ≡ fires (states z).remaining_deps (count z ds))
unfolding release count fires
release_lem states [] z = (omega arith, refl, refl, ground arith)
release_lem states (d ∷ ds) z =
    let s = states d in
    let lowered = set_state states d (record s { remaining_deps = s.remaining_deps - 1 }) in
    let (left, final, result, runnable) = release_lem lowered ds z in
    elim (Bool-cases (d == z)) [
      | inl e ↦
          let same : d ≡ z = (==_iff d z).0 e in
          let here = ap (λ w. (states w).remaining_deps) same in
          let left' = rw e at left in
          let final' = rw e at final in
          let result' = rw e at result in
          let runnable' = rw e at runnable in
          (
            rw e (omega arith),
            final' ∙ ap (λ w. (states w).finalized) same,
            result' ∙ ap (λ w. (states w).result) same,
            rw (count-if z d (s.remaining_deps == 1) (release lowered ds).1, e) (ground arith),
          )
      | inr e ↦
          let left' = rw e at left in
          let final' = rw e at final in
          let result' = rw e at result in
          let runnable' = rw e at runnable in
          (
            rw e (omega arith),
            final',
            result',
            rw (count-if z d (s.remaining_deps == 1) (release lowered ds).1, e) (ground arith),
          )
    ]
