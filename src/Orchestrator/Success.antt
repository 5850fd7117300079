-- ===== src/Orchestrator/Success.antt =====
-- recordFinal for a probe that succeeded (internal/probe/orchestrator.go).
use capagent.Base.{
  ◌≤◌, ℕ, ◌+◌, ◌-◌, ◌<◌, ◌≡◌, ◌==◌, ==_iff, ltb, List, true, false, length, if◌then◌else◌, arith,
  inl, inr, Bool-cases, subst, sym, ap, ◌∙◌,
}
use capagent.Probe.Execution.{ExecutionPlan}
use capagent.Graph.Rounds.{fires}
use capagent.Orchestrator.Counting.{count, hits, hits-add-count, hits-set, total-set}
use capagent.Orchestrator.Outcome.{ProbeResult}
use capagent.Orchestrator.Scheduler.{States, set_state, node_at, is_success, release}
use capagent.Orchestrator.Plan.{IsPlan, size, deps, down, is_ok, IsBad, IsBlamed, finals, final_at}
use capagent.Orchestrator.Sound.{
  IsSound, Settled, active, IsRun, is_skipped, blamed_waits, not_own_dep,
}
use capagent.Orchestrator.Release.{release_lem}

module _ (plan : ExecutionPlan) (ok : IsPlan plan) (s : States) (sound : IsSound plan s) (i : ℕ)
    (low : i < size plan) (unset : (s i).finalized ≡ false) (due : (s i).remaining_deps ≡ 0)
    (r : ProbeResult) (run : IsRun plan i r) (success : is_success r.status ≡ true) where
  abbrev marked : States
  marked = set_state s i (record (s i) { finalized = true; result = r })

  abbrev after : States
  after = (release marked (down plan i)).0

  abbrev news : List ℕ
  news = (release marked (down plan i)).1

  after-remaining :
      (z : ℕ) → (after z).remaining_deps ≡ (s z).remaining_deps - count z (down plan i)
  after-remaining z = elim (Bool-cases (i == z)) [
    | inl e ↦
        rw e at ((release_lem marked (down plan i) z).0)
        ∙ ap (λ w. (s w).remaining_deps - count z (down plan i)) ((==_iff i z).0 e)
    | inr e ↦ rw e at ((release_lem marked (down plan i) z).0)
  ]

  after-final : (z : ℕ) → (after z).finalized ≡ (if i == z then true else (s z).finalized)
  after-final z = elim (Bool-cases (i == z)) [
    | inl e ↦ rw e (rw e at ((release_lem marked (down plan i) z).1))
    | inr e ↦ rw e (rw e at ((release_lem marked (down plan i) z).1))
  ]

  after-result : (z : ℕ) → (after z).result ≡ (if i == z then r else (s z).result)
  after-result z = elim (Bool-cases (i == z)) [
    | inl e ↦ rw e (rw e at ((release_lem marked (down plan i) z).2))
    | inr e ↦ rw e (rw e at ((release_lem marked (down plan i) z).2))
  ]

  news-count : (z : ℕ) → count z news ≡ fires (s z).remaining_deps (count z (down plan i))
  news-count z = elim (Bool-cases (i == z)) [
    | inl e ↦
        rw e at ((release_lem marked (down plan i) z).3)
        ∙ ap (λ w. fires (s w).remaining_deps (count z (down plan i))) ((==_iff i z).0 e)
    | inr e ↦ rw e at ((release_lem marked (down plan i) z).3)
  ]

  -- A probe that was final is another one.
  other : (z : ℕ) → (s z).finalized ≡ true → (i == z) ≡ false
  other z h = elim (Bool-cases (i == z)) [
    | inr e ↦ e
    | inl e ↦
        let h' : (s i).finalized ≡ true =
          subst (λ w. (s w).finalized ≡ true) (sym ((==_iff i z).0 e)) h in
        absurd (ground arith)
  ]

  kept :
      (z : ℕ)
      → (s z).finalized ≡ true
      → ((after z).finalized ≡ true) × ((after z).result ≡ (s z).result)
  kept z h = let e = other z h in (rw e at (after-final z) ∙ h, rw e at (after-result z))

  after-ok : (z : ℕ) → is_ok after z ≡ (if i == z then true else is_ok s z)
  after-ok z = elim (Bool-cases (i == z)) [
    | inl e ↦ rw (after-final z, after-result z, e) success
    | inr e ↦ rw (after-final z, after-result z, e)
  ]

  -- The edges to a probe are among its dependencies that have not succeeded.
  edges-le :
      (z : ℕ)
      → z < size plan
      → hits (is_ok s) (deps plan z) + count z (down plan i) ≤ length (deps plan z)
  edges-le z h = rw (ok.linked z i h) (hits-add-count (is_ok s) i (deps plan z) (ground arith))

  after-sums :
      (z : ℕ)
      → z < size plan
      → (after z).remaining_deps + hits (is_ok after) (deps plan z) ≡ length (deps plan z)
  after-sums z h =
      let more = hits-set (is_ok s) (is_ok after) i (deps plan z) (ground arith) after-ok in
      omega (arith, after-remaining z, more, ok.linked z i h, edges-le z h, sound.sums z h)

  was-IsBad : (d : ℕ) → IsBad after d → IsBad s d
  was-IsBad d (f, b) = elim (Bool-cases (i == d)) [
    | inl e ↦ let b' = rw (after-result d, e) at b in absurd (ground arith)
    | inr e ↦ (rw (after-final d, e) at f, rw (after-result d, e) at b)
  ]

  still-IsBad : (d : ℕ) → IsBad s d → IsBad after d
  still-IsBad d (f, b) = let (f', q) = kept d f in (f', rw q b)

  after-blamed :
      (z : ℕ)
      → (after z).finalized ≡ true
      → is_skipped (after z).result.status ≡ true
      → IsBlamed plan after z
  after-blamed z f k = elim (Bool-cases (i == z)) [
    | inl e ↦ let k' = rw (after-result z, e) at k in absurd (ground (arith, run.1))
    | inr e ↦
        let (d, m, bad) =
          sound.blamed z (rw (after-final z, e) at f) (rw (after-result z, e) at k) in
        (d, m, still-IsBad d bad)
  ]

  after-ran :
      (z : ℕ)
      → (after z).finalized ≡ true
      → is_skipped (after z).result.status ≡ false
      → (after z).remaining_deps ≡ 0
  after-ran z f k = elim (Bool-cases (i == z)) [
    | inl e ↦
        let due' : (s z).remaining_deps ≡ 0 =
          subst (λ w. (s w).remaining_deps ≡ 0) ((==_iff i z).0 e) due in
        omega (arith, after-remaining z)
    | inr e ↦
        let left = sound.ran z (rw (after-final z, e) at f) (rw (after-result z, e) at k) in
        omega (arith, after-remaining z)
  ]

  after-owned :
      (z : ℕ) → (after z).finalized ≡ true → (after z).result.probe_id ≡ (node_at plan z).id
  after-owned z f = elim (Bool-cases (i == z)) [
    | inl e ↦ rw (after-result z, e) (run.0 ∙ ap (λ w. (node_at plan w).id) ((==_iff i z).0 e))
    | inr e ↦ rw (after-result z, e) (sound.owned z (rw (after-final z, e) at f))
  ]

  after-IsSound : IsSound plan after
  after-IsSound = record {
    sums = after-sums;
    spread = λ j d bad m. (kept j (sound.spread j d (was-IsBad d bad) m)).0;
    blamed = after-blamed;
    ran = after-ran;
    owned = after-owned;
  }

  -- A final probe does not become runnable.
  final_fires :
      (z : ℕ)
      → z < size plan
      → (s z).finalized ≡ true
      → fires (s z).remaining_deps (count z (down plan i)) ≡ 0
  unfolding fires
  final_fires z h f = elim (Bool-cases (is_skipped (s z).result.status)) [
    | inr k ↦ ground (arith, sound.ran z f k)
    | inl k ↦
        let (d, m, bad) = sound.blamed z f k in
        let waits = blamed_waits plan after z (after-sums z h) (d, m, still-IsBad d bad) in
        ground (arith, after-remaining z)
  ]

  -- The tokens of a probe that is not the one recorded.
  open_handed :
      (z : ℕ)
      → z < size plan
      → (i == z) ≡ false
      → (s z).finalized ≡ false
      → count z news + active plan s z ≡ active plan after z
  unfolding active fires
  open_handed z h e f =
      let final = rw e at (after-final z) in ground (arith, news-count z, after-remaining z)

  out_of_range : (z : ℕ) → size plan ≤ z → count z news ≡ 0
  unfolding fires
  out_of_range z h = elim (Bool-cases (count z (down plan i) == 0)) [
    | inl e ↦ ground (arith, news-count z)
    | inr e ↦ absurd (omega (arith, ok.down_range z i (ground arith)))
  ]

  here_handed : count i news ≡ 0
  unfolding fires
  here_handed = ground (arith, news-count i, ok.linked i i low, not_own_dep plan ok i low)

  final_handed : (z : ℕ) → z < size plan → (s z).finalized ≡ true → count z news ≡ 0
  final_handed z h f = news-count z ∙ final_fires z h f

  after-handed :
      (z : ℕ) → count z news + active plan s z ≡ active plan after z + (if i == z then 1 else 0)
  unfolding active
  after-handed z = elim (Bool-cases (ltb z (size plan))) [
    | inr k ↦ ground (arith, out_of_range z)
    | inl k ↦ elim (Bool-cases (i == z)) [
      | inl e ↦
          let same : i ≡ z = (==_iff i z).0 e in
          let none_new = subst (λ w. count w news ≡ 0) same here_handed in
          let unset' = subst (λ w. (s w).finalized ≡ false) same unset in
          let due' = subst (λ w. (s w).remaining_deps ≡ 0) same due in
          let final = rw e at (after-final z) in ground arith
      | inr e ↦ elim (Bool-cases (s z).finalized) [
        | inl f ↦ let final = rw e at (after-final z) in ground (arith, final_handed z)
        | inr f ↦ rw e (omega (arith, open_handed z (ground arith) e f))
      ]
    ]
  ]

  after-grown : finals plan after ≡ finals plan s + 1
  after-grown =
      let one =
        total-set (size plan) i (final_at s) (final_at after) low (λ j e. rw (after-final j, e)) in
      let here = after-final i in ground arith

  pub success-Settled : Settled plan i r s after (record { additions = 0; runnable = news })
  success-Settled = record {
    sound = after-IsSound;
    here = (ground (arith, after-final i), ground (arith, after-result i));
    kept = kept;
    grown = omega (arith, after-grown);
    handed = after-handed;
  }
