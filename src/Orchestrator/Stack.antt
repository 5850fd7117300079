-- ===== src/Orchestrator/Stack.antt =====
-- The stack of cascadeSkipLocked (internal/probe/orchestrator.go): what is pushed, and how much.
use capagent.Base.{
  ℕ, ◌+◌, ◌≤◌, ◌<◌, ◌≡◌, ◌==◌, ==_iff, List, [], ◌∷◌, true, length, ◌⊎◌, inl, inr, Bool-cases,
  arith, subst,
}
use capagent.Orchestrator.Counting.{count}
use capagent.Orchestrator.Scheduler.{States, push_each, push_open}

pub push_open-count :
    (states : States) (j : ℕ) (ds stack : List ℕ)
    → (0 < count j (push_open states ds stack) → (0 < count j ds) ⊎ (0 < count j stack))
      × (0 < count j stack → 0 < count j (push_open states ds stack))
      × (0 < count j ds → ((states j).finalized ≡ true) ⊎ (0 < count j (push_open states ds stack)))
unfolding push_open count
push_open-count states j [] stack = (λ h. inr h, λ h. h, λ h. absurd (omega arith))
push_open-count states j (d ∷ ds) stack = elim (Bool-cases (states d).finalized) [
  | inl e ↦
      let (from, old, new) = push_open-count states j ds stack in
      rw e (
        λ h. elim (from h) [ inl m ↦ inl (omega arith) | inr m ↦ inr m ],
        old,
        λ h. elim (Bool-cases (d == j)) [
          | inl q ↦ inl (subst (λ w. (states w).finalized ≡ true) ((==_iff d j).0 q) e)
          | inr q ↦ new (ground arith)
        ],
      )
  | inr e ↦
      let (from, old, new) = push_open-count states j ds (d ∷ stack) in
      rw e (
        λ h. elim (from h) [
          | inl m ↦ inl (omega arith)
          | inr m ↦ elim (Bool-cases (d == j)) [
            | inl q ↦ inl (ground arith)
            | inr q ↦ inr (ground arith)
          ]
        ],
        λ h. old (omega arith),
        λ h. elim (Bool-cases (d == j)) [
          | inl q ↦ inr (old (ground arith))
          | inr q ↦ new (ground arith)
        ],
      )
]

pub length-push_open :
    (states : States) (ds stack : List ℕ)
    → length (push_open states ds stack) ≤ length ds + length stack
unfolding push_open
length-push_open states [] stack = omega arith
length-push_open states (d ∷ ds) stack = elim (Bool-cases (states d).finalized) [
  | inl e ↦ rw e (omega (arith, length-push_open states ds stack))
  | inr e ↦ rw e (omega (arith, length-push_open states ds (d ∷ stack)))
]

pub push_each-count :
    (j : ℕ) (ds stack : List ℕ)
    → (count j (push_each ds stack) ≡ count j ds + count j stack)
      × (length (push_each ds stack) ≡ length ds + length stack)
unfolding push_each count
push_each-count j [] stack = (omega arith, omega arith)
push_each-count j (d ∷ ds) stack =
    let (c, l) = push_each-count j ds (d ∷ stack) in (omega arith, omega arith)
