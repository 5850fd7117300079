-- ===== src/Orchestrator/Cascade.antt =====
-- cascadeSkipLocked marks all that depends on a probe that did not succeed, and nothing else.
use capagent.Base.{
  ◌∙◌, ℕ, zero, suc, ◌+◌, ◌≤◌, ◌<◌, ◌≡◌, ◌==◌, ==_iff, List, [], ◌∷◌, true, false, if◌then◌else◌,
  length, ◌⊎◌, inl, inr, Bool-cases, refl, arith, subst, ap, sym,
}
use capagent.Probe.Execution.{ExecutionPlan}
use capagent.Orchestrator.Counting.{count, total, total-set, total-le}
use capagent.Orchestrator.Outcome.{skipped_result}
use capagent.Orchestrator.Scheduler.{
  ProbeState, States, set_state, skip_state, node_at, push_each, push_open, cascade, cascade_skip,
  cascade_fuel,
}
use capagent.Orchestrator.Plan.{IsPlan, size, down, IsBad, IsBlamed, finals, final_at}
use capagent.Orchestrator.Stack.{length-push_open, push_each-count, push_open-count}

module _ (plan : ExecutionPlan) (ok : IsPlan plan) (s0 : States) (seeds : List ℕ) where
  -- The states `s` come from `s0` by marking, with `stack` left to visit.
  pub record Cascaded (s : States) (stack : List ℕ) (c : ℕ) : Type 0 where
    pub kept : (i : ℕ) → (s0 i).finalized ≡ true → s i ≡ s0 i
    pub same_deps : (i : ℕ) → (s i).remaining_deps ≡ (s0 i).remaining_deps
    pub marked :
        (i : ℕ)
        → (s0 i).finalized ≡ false
        → (s i).finalized ≡ true
        → ((s i).result ≡ skipped_result (node_at plan i).id) × IsBlamed plan s i
    pub counted : finals plan s ≡ finals plan s0 + c
    pub closed :
        (i j : ℕ)
        → (s0 i).finalized ≡ false
        → (s i).finalized ≡ true
        → 0 < count j (down plan i)
        → ((s j).finalized ≡ true) ⊎ (0 < count j stack)
    pub seeded : (j : ℕ) → 0 < count j seeds → ((s j).finalized ≡ true) ⊎ (0 < count j stack)
    pub blamed : (j : ℕ) → 0 < count j stack → IsBlamed plan s j × (j < size plan)

  -- A probe that is final is passed over.
  pass-Cascaded :
      (s : States) (id : ℕ) (stack : List ℕ) (c : ℕ)
      → (s id).finalized ≡ true
      → Cascaded s (id ∷ stack) c
      → Cascaded s stack c
  unfolding count
  pass-Cascaded s id stack c e v =
      let here : (j : ℕ)
          → 0 < count j (id ∷ stack)
          → ((s j).finalized ≡ true) ⊎ (0 < count j stack) =
        λ j h. elim (Bool-cases (id == j)) [
          | inl q ↦ inl (subst (λ w. (s w).finalized ≡ true) ((==_iff id j).0 q) e)
          | inr q ↦ inr (ground arith)
        ] in
      record {
        kept = v.kept;
        same_deps = v.same_deps;
        marked = v.marked;
        counted = v.counted;
        closed = λ i j f g h. elim (v.closed i j f g h) [ inl a ↦ inl a | inr a ↦ here j a ];
        seeded = λ j h. elim (v.seeded j h) [ inl a ↦ inl a | inr a ↦ here j a ];
        blamed = λ j h. v.blamed j (omega arith);
      }

  module _ (s : States) (id : ℕ) (stack : List ℕ) (c : ℕ) (e : (s id).finalized ≡ false)
      (v : Cascaded s (id ∷ stack) c) where
    abbrev after : States
    after = set_state s id (skip_state plan id (s id))

    abbrev next : List ℕ
    next = push_open after (down plan id) stack

    after-final : (j : ℕ) → (s j).finalized ≡ true → after j ≡ s j
    after-final j h = elim (Bool-cases (id == j)) [
      | inl q ↦
          let f : (s j).finalized ≡ false =
            subst (λ w. (s w).finalized ≡ false) ((==_iff id j).0 q) e in
          absurd (ground arith)
      | inr q ↦ rw q
    ]

    still-IsBad : (d : ℕ) → IsBad s d → IsBad after d
    still-IsBad d h = rw (after-final d h.0) h

    still_blamed : (j : ℕ) → IsBlamed plan s j → IsBlamed plan after j
    still_blamed j (d, m, h) = (d, m, still-IsBad d h)

    id_before : (s0 id).finalized ≡ false
    id_before = elim (Bool-cases (s0 id).finalized) [
      | inr f ↦ f
      | inl f ↦ let q = ap (λ (w : ProbeState). w.finalized) (v.kept id f) in absurd (ground arith)
    ]

    id_blamed : IsBlamed plan s id × (id < size plan)
    unfolding count
    id_blamed = v.blamed id (ground arith)

    id-IsBad : IsBad after id
    id-IsBad = ground arith

    -- What was on the stack is marked or on it still.
    onward : (j : ℕ) → 0 < count j (id ∷ stack) → ((after j).finalized ≡ true) ⊎ (0 < count j next)
    unfolding count
    onward j h = elim (Bool-cases (id == j)) [
      | inl q ↦ inl (rw q)
      | inr q ↦ inr ((push_open-count after j (down plan id) stack).1 (ground arith))
    ]

    onward_final :
        (j : ℕ)
        → ((s j).finalized ≡ true) ⊎ (0 < count j (id ∷ stack))
        → ((after j).finalized ≡ true) ⊎ (0 < count j next)
    onward_final j (inl a) = inl (rw (after-final j a) a)
    onward_final j (inr a) = onward j a

    skip-closed :
        (i j : ℕ)
        → (s0 i).finalized ≡ false
        → (after i).finalized ≡ true
        → 0 < count j (down plan i)
        → ((after j).finalized ≡ true) ⊎ (0 < count j next)
    skip-closed i j f g h = elim (Bool-cases (id == i)) [
      | inl q ↦
          let h' : 0 < count j (down plan id) =
            subst (λ w. 0 < count j (down plan w)) (sym ((==_iff id i).0 q)) h in
          (push_open-count after j (down plan id) stack).2 h'
      | inr q ↦ onward_final j (v.closed i j f (rw q at g) h)
    ]

    skip-blamed : (j : ℕ) → 0 < count j next → IsBlamed plan after j × (j < size plan)
    unfolding count
    skip-blamed j h = elim ((push_open-count after j (down plan id) stack).0 h) [
      | inl m ↦
          let low = ok.down_range j id m in ((id, omega (arith, ok.linked j id low), id-IsBad), low)
      | inr m ↦ let (b, low) = v.blamed j (omega arith) in (still_blamed j b, low)
    ]

    skip-marked :
        (i : ℕ)
        → (s0 i).finalized ≡ false
        → (after i).finalized ≡ true
        → ((after i).result ≡ skipped_result (node_at plan i).id) × IsBlamed plan after i
    skip-marked i f g = elim (Bool-cases (id == i)) [
      | inl q ↦
          let b = subst (IsBlamed plan after) ((==_iff id i).0 q) (still_blamed id id_blamed.0) in
          (rw q (ap (λ w. skipped_result (node_at plan w).id) ((==_iff id i).0 q)), b)
      | inr q ↦ let (st, b) = v.marked i f (rw q at g) in (rw q st, still_blamed i b)
    ]

    skip-counted : finals plan after ≡ finals plan s0 + (c + 1)
    skip-counted =
        let one =
          total-set (size plan) id (final_at s) (final_at after) id_blamed.1 (λ j q. rw q) in
        ground (arith, v.counted)

    skip-Cascaded : Cascaded after next (c + 1)
    skip-Cascaded = record {
      kept = λ i f. let q = v.kept i f in after-final i (rw q f) ∙ q;
      same_deps = λ i. elim (Bool-cases (id == i)) [
        | inl q ↦ rw q (
            subst (λ w. (s w).remaining_deps ≡ (s0 i).remaining_deps) (sym ((==_iff id i).0 q))
              (v.same_deps i))
        | inr q ↦ rw q (v.same_deps i)
      ];
      marked = skip-marked;
      counted = skip-counted;
      closed = skip-closed;
      seeded = λ j h. onward_final j (v.seeded j h);
      blamed = skip-blamed;
    }

  -- The edges from probes that are not final.
  open_edges : States → ℕ
  open_edges s = total (size plan) (λ i. if (s i).finalized then 0 else length (down plan i))

  skip-open_edges :
      (s : States) (id : ℕ)
      → (s id).finalized ≡ false
      → id < size plan
      → open_edges (set_state s id (skip_state plan id (s id))) + length (down plan id)
        ≡ open_edges s
  unfolding open_edges
  skip-open_edges s id e low =
      let after = set_state s id (skip_state plan id (s id)) in
      let one =
        total-set (size plan) id (λ i. if (s i).finalized then 0 else length (down plan i))
          (λ i. if (after i).finalized then 0 else length (down plan i)) low (λ j q. rw q) in
      ground arith

  cascade-Cascaded :
      (fuel : ℕ) (s : States) (stack : List ℕ) (c : ℕ)
      → length stack + open_edges s ≤ fuel
      → Cascaded s stack c
      → let r = cascade fuel plan s stack c in Cascaded r.0 [] r.1
  unfolding cascade
  cascade-Cascaded zero s [] c m v = v
  cascade-Cascaded zero s (id ∷ stack) c m v = absurd (omega arith)
  cascade-Cascaded (suc fuel) s [] c m v = v
  cascade-Cascaded (suc fuel) s (id ∷ stack) c m v = elim (Bool-cases (s id).finalized) [
    | inl e ↦ rw e (cascade-Cascaded fuel s stack c (omega arith) (pass-Cascaded s id stack c e v))
    | inr e ↦
        let after = set_state s id (skip_state plan id (s id)) in
        rw e (
          cascade-Cascaded fuel after (push_open after (down plan id) stack) (c + 1)
            (omega (
              arith,
              length-push_open after (down plan id) stack,
              skip-open_edges s id e (id_blamed s id stack c e v).1,
            ))
            (skip-Cascaded s id stack c e v))
  ]

  -- The fuel is enough: the loop ends with nothing on the stack.
  pub cascade_skip-Cascaded :
      ((j : ℕ) → 0 < count j seeds → IsBlamed plan s0 j × (j < size plan))
      → let r = cascade_skip plan s0 seeds in Cascaded r.0 [] r.1
  unfolding cascade_skip open_edges count
  cascade_skip-Cascaded blamed =
      let each = λ (j : ℕ). push_each-count j seeds [] in
      cascade-Cascaded (cascade_fuel plan seeds) s0 (push_each seeds []) 0
        (omega (
          arith,
          (each 0).1,
          total-le (size plan) (λ i. if (s0 i).finalized then 0 else length (down plan i))
              (λ i. length (down plan i)) (λ i h. ground arith),
        ))
        (record {
          kept = λ i f. refl;
          same_deps = λ i. refl;
          marked = λ i f g. absurd (ground arith);
          counted = omega arith;
          closed = λ i j f g h. absurd (ground arith);
          seeded = λ j h. inr (omega (arith, (each j).0));
          blamed = λ j h. blamed j (omega (arith, (each j).0));
        })
