-- ===== src/Orchestrator/Failure.antt =====
-- recordFinal for a probe that did not succeed (internal/probe/orchestrator.go).
use capagent.Base.{
  ℕ, ◌+◌, ◌<◌, ◌≡◌, ◌==◌, ==_iff, ltb, [], true, false, length, if◌then◌else◌, arith, inl, inr,
  Bool-cases, refl, subst, sym, ap, ◌∙◌, ◌⊎◌,
}
use capagent.Probe.Execution.{ExecutionPlan}
use capagent.Orchestrator.Counting.{count, hits, hits_cong, total-set}
use capagent.Orchestrator.Outcome.{ProbeResult, skipped_result}
use capagent.Orchestrator.Scheduler.{States, set_state, node_at, is_success, cascade_skip}
use capagent.Orchestrator.Plan.{IsPlan, size, deps, down, is_ok, IsBad, IsBlamed, finals, final_at}
use capagent.Orchestrator.Sound.{IsSound, Settled, active, IsRun, is_skipped, blamed_waits}
use capagent.Orchestrator.Cascade.{Cascaded, cascade_skip-Cascaded}

module _ (plan : ExecutionPlan) (ok : IsPlan plan) (s : States) (sound : IsSound plan s) (i : ℕ)
    (low : i < size plan) (unset : (s i).finalized ≡ false) (due : (s i).remaining_deps ≡ 0)
    (r : ProbeResult) (run : IsRun plan i r) (failure : is_success r.status ≡ false) where
  abbrev marked : States
  marked = set_state s i (record (s i) { finalized = true; result = r })

  abbrev after : States
  after = (cascade_skip plan marked (down plan i)).0

  abbrev extra : ℕ
  extra = (cascade_skip plan marked (down plan i)).1

  seeds_blamed : (j : ℕ) → 0 < count j (down plan i) → IsBlamed plan marked j × (j < size plan)
  seeds_blamed j h =
      let below = ok.down_range j i h in
      ((i, omega (arith, ok.linked j i below), ground arith), below)

  cascaded : Cascaded plan ok marked (down plan i) after [] extra
  cascaded = cascade_skip-Cascaded plan ok marked (down plan i) seeds_blamed

  -- A probe that was final is another one.
  other : (z : ℕ) → (s z).finalized ≡ true → (i == z) ≡ false
  other z h = elim (Bool-cases (i == z)) [
    | inr e ↦ e
    | inl e ↦
        let h' : (s i).finalized ≡ true =
          subst (λ w. (s w).finalized ≡ true) (sym ((==_iff i z).0 e)) h in
        absurd (ground arith)
  ]

  kept_same : (z : ℕ) → (s z).finalized ≡ true → after z ≡ s z
  kept_same z h = let e = other z h in rw e at (cascaded.kept z (rw e h))

  here_same : after i ≡ record (s i) { finalized = true; result = r }
  here_same = let q = cascaded.kept i (ground arith) in ground arith

  -- What becomes final is the probe itself, or is skipped for a dependency.
  new_final :
      (z : ℕ)
      → (i == z) ≡ false
      → (s z).finalized ≡ false
      → (after z).finalized ≡ true
      → ((after z).result ≡ skipped_result (node_at plan z).id) × IsBlamed plan after z
  new_final z e f g = cascaded.marked z (rw e f) g

  after-deps : (z : ℕ) → (after z).remaining_deps ≡ (s z).remaining_deps
  after-deps z = elim (Bool-cases (i == z)) [
    | inl e ↦ rw e at (cascaded.same_deps z) ∙ ap (λ w. (s w).remaining_deps) ((==_iff i z).0 e)
    | inr e ↦ rw e at (cascaded.same_deps z)
  ]

  here-IsBad : IsBad after i
  here-IsBad = rw here_same (refl, failure)

  still-IsBad : (d : ℕ) → IsBad s d → IsBad after d
  still-IsBad d h = rw (kept_same d h.0) h

  after-ok : (z : ℕ) → is_ok after z ≡ is_ok s z
  after-ok z = elim (Bool-cases (i == z)) [
    | inl e ↦
        subst (λ w. is_ok after w ≡ is_ok s w) ((==_iff i z).0 e) (rw here_same (ground arith))
    | inr e ↦ elim (Bool-cases (s z).finalized) [
      | inl f ↦ rw (kept_same z f)
      | inr f ↦ elim (Bool-cases (after z).finalized) [
        | inr g ↦ ground arith
        | inl g ↦ let q = (new_final z e f g).0 in ground arith
      ]
    ]
  ]

  after-sums :
      (z : ℕ)
      → z < size plan
      → (after z).remaining_deps + hits (is_ok after) (deps plan z) ≡ length (deps plan z)
  after-sums z h = omega (
    arith,
    after-deps z,
    sound.sums z h,
    hits_cong (is_ok after) (is_ok s) (deps plan z) (λ d m. after-ok d),
  )

  -- The dependents of what was final already are final.
  old_spread :
      (j d : ℕ)
      → (s d).finalized ≡ true
      → IsBad after d
      → 0 < count j (down plan d)
      → (after j).finalized ≡ true
  old_spread j d f bad m =
      let g = sound.spread j d (rw (kept_same d f) at bad) m in rw (kept_same j g) g

  from_stack :
      (j : ℕ) → ((after j).finalized ≡ true) ⊎ (0 < count j []) → (after j).finalized ≡ true
  unfolding count
  from_stack j (inl a) = a
  from_stack j (inr a) = absurd (omega arith)

  after-spread : (j d : ℕ) → IsBad after d → 0 < count j (down plan d) → (after j).finalized ≡ true
  after-spread j d bad m = elim (Bool-cases (i == d)) [
    | inl e ↦
        let m' : 0 < count j (down plan i) =
          subst (λ w. 0 < count j (down plan w)) (sym ((==_iff i d).0 e)) m in
        from_stack j (cascaded.seeded j m')
    | inr e ↦ elim (Bool-cases (s d).finalized) [
      | inl f ↦ old_spread j d f bad m
      | inr f ↦ from_stack j (cascaded.closed d j (rw e f) bad.0 m)
    ]
  ]

  after-blamed :
      (z : ℕ)
      → (after z).finalized ≡ true
      → is_skipped (after z).result.status ≡ true
      → IsBlamed plan after z
  after-blamed z f k = elim (Bool-cases (i == z)) [
    | inl e ↦
        let k' =
          subst (λ w. is_skipped (after w).result.status ≡ true) (sym ((==_iff i z).0 e)) k in
        let k'' = rw here_same at k' in absurd (ground (arith, run.1))
    | inr e ↦ elim (Bool-cases (s z).finalized) [
      | inr g ↦ (new_final z e g f).1
      | inl g ↦
          let (d, m, bad) = sound.blamed z g (rw (kept_same z g) at k) in (d, m, still-IsBad d bad)
    ]
  ]

  after-ran :
      (z : ℕ)
      → (after z).finalized ≡ true
      → is_skipped (after z).result.status ≡ false
      → (after z).remaining_deps ≡ 0
  after-ran z f k = elim (Bool-cases (i == z)) [
    | inl e ↦ after-deps z ∙ subst (λ w. (s w).remaining_deps ≡ 0) ((==_iff i z).0 e) due
    | inr e ↦ elim (Bool-cases (s z).finalized) [
      | inr g ↦ let q = (new_final z e g f).0 in absurd (ground arith)
      | inl g ↦ after-deps z ∙ sound.ran z g (rw (kept_same z g) at k)
    ]
  ]

  after-owned :
      (z : ℕ) → (after z).finalized ≡ true → (after z).result.probe_id ≡ (node_at plan z).id
  after-owned z f = elim (Bool-cases (i == z)) [
    | inl e ↦
        subst (λ w. (after w).result.probe_id ≡ (node_at plan w).id) ((==_iff i z).0 e)
          (rw here_same (run.0))
    | inr e ↦ elim (Bool-cases (s z).finalized) [
      | inr g ↦ ap (λ (w : ProbeResult). w.probe_id) (new_final z e g f).0
      | inl g ↦ rw (kept_same z g) (sound.owned z g)
    ]
  ]

  after-IsSound : IsSound plan after
  after-IsSound = record {
    sums = after-sums;
    spread = after-spread;
    blamed = after-blamed;
    ran = after-ran;
    owned = after-owned;
  }

  after-handed :
      (z : ℕ) → count z [] + active plan s z ≡ active plan after z + (if i == z then 1 else 0)
  unfolding active count
  after-handed z = elim (Bool-cases (ltb z (size plan))) [
    | inr k ↦ ground arith
    | inl k ↦ elim (Bool-cases (i == z)) [
      | inl e ↦
          let same : i ≡ z = (==_iff i z).0 e in
          let unset' = subst (λ w. (s w).finalized ≡ false) same unset in
          let due' = subst (λ w. (s w).remaining_deps ≡ 0) same due in
          let final = subst (λ w. (after w).finalized ≡ true) same here-IsBad.0 in ground arith
      | inr e ↦ elim (Bool-cases (s z).finalized) [
        | inl f ↦ rw (e, kept_same z f) (ground arith)
        | inr f ↦ elim (Bool-cases (after z).finalized) [
          | inr g ↦ ground (arith, after-deps z)
          | inl g ↦
              let waits =
                blamed_waits plan after z (after-sums z (ground arith)) (new_final z e f g).1 in
              ground (arith, after-deps z)
        ]
      ]
    ]
  ]

  after-grown : finals plan after ≡ finals plan s + 1 + extra
  after-grown =
      let one = total-set (size plan) i (final_at s) (final_at marked) low (λ j e. rw e) in
      ground (arith, cascaded.counted)

  pub failure-Settled : Settled plan i r s after (record { additions = extra; runnable = [] })
  failure-Settled = record {
    sound = after-IsSound;
    here = (here-IsBad.0, rw here_same);
    kept = λ j f. rw (kept_same j f) (f, refl);
    grown = after-grown;
    handed = after-handed;
  }
