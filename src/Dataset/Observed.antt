-- ===== src/Dataset/Observed.antt =====
-- The contexts, observations and facts that ValidateDataset of internal/capability/graph.go accepts.
use capagent.Model.Scope.{scope_eq, scope_eq→eq}
use capagent.Dataset.Steps.{
  not_refused, Indexed-cases, refuse_error-none, continue-accepted, refuse_if-none,
}
use capagent.Model.States.{is_complete}
use capagent.Model.Identity.{identity_is_valid, EvaluationContext}
use capagent.Model.Observation.{Fact, Observation}
use capagent.Dataset.Index.{
  check_observation, index_facts, observation_at, index_observations, invalid_context_id, accepted,
  is_nil, check_context, index_contexts, check_fact,
}
use capagent.Base.{
  text_eq→eq, text_eq, Bool-cases, occ-append, inr, inl, ◌⊎◌, refl, contains_iff, ltb,
  cons-IsDistinct, In, some, absent, Option, ◌||◌, is_empty, ltb-false→le, ||-false, [], IsDistinct,
  ◌+◌, All, arith, ◌++◌, none, false, ◌≤◌, true, map, ◌∷◌, ◌<◌, ◌≡◌, Text, occ, List, contains,
}

pub fact_ids : List Observation → List Text
fact_ids [] = []
fact_ids (o ∷ os) = map (λ f. f.id) o.facts ++ fact_ids os

abbrev pub IsFactOf : Observation → Fact → Type 0
IsFactOf o f =
    (f.scope ≡ o.scope)
    × (f.timestamp ≤ o.timestamp)
    × (is_complete o.completeness ≡ true → is_complete f.completeness ≡ true)

-- An observation from one of the contexts, with facts of its own scope that are as old as it is.
abbrev pub IsObserved : List Text → Observation → Type 0
IsObserved contexts o =
    (0 < occ o.scope.context_id contexts) × (is_nil o.facts ≡ false) × All (IsFactOf o) o.facts

pub index_contexts-occ :
    (ids : List Text) (cs : List EvaluationContext) (out : List Text)
    → index_contexts ids cs ≡ accepted out
    → ((z : Text) → occ z out ≡ occ z ids + occ z (map (λ c. c.id) cs))
      × (IsDistinct ids → IsDistinct out)
unfolding index_contexts check_context occ
index_contexts-occ ids [] out h =
    let e : ids ≡ out = ground arith in rw e (λ z. omega arith, λ d. d)
index_contexts-occ ids (c ∷ cs) out h =
    let (good, rest) = continue-accepted (check_context ids c) _ out h in
    let (valid, named) = refuse_error-none (identity_is_valid c.identity) _ good in
    let (new, spaces) =
      refuse_if-none (is_empty c.id || contains ids c.id) invalid_context_id _ named in
    let (count, distinct) = index_contexts-occ (c.id ∷ ids) cs out rest in
    let unseen_id = absent ids c.id (||-false (is_empty c.id) (contains ids c.id) new).1 in
    (λ z. omega (arith, count z), λ d. distinct (cons-IsDistinct c.id ids unseen_id d))

check_fact-IsFactOf :
    (o : Observation) (facts : List Text) (f : Fact)
    → check_fact o facts f ≡ none
    → IsFactOf o f × (occ f.id facts ≡ 0)
unfolding check_fact
check_fact-IsFactOf o facts f h =
    let new : contains facts f.id ≡ false = ground arith in
    let within : scope_eq f.scope o.scope ≡ true = ground arith in
    let past : ltb o.timestamp f.timestamp ≡ false = ground arith in
    (
      (
        scope_eq→eq f.scope o.scope within,
        ltb-false→le o.timestamp f.timestamp past,
        λ e. ground arith,
      ),
      absent facts f.id new,
    )

index_facts-IsFactOf :
    (o : Observation) (facts : List Text) (fs : List Fact) (out : List Text)
    → index_facts o facts fs ≡ accepted out
    → All (IsFactOf o) fs
      × ((z : Text) → occ z out ≡ occ z facts + occ z (map (λ f. f.id) fs))
      × (IsDistinct facts → IsDistinct out)
unfolding index_facts occ
index_facts-IsFactOf o facts [] out h =
    let e : facts ≡ out = ground arith in rw e (tt, λ z. omega arith, λ d. d)
index_facts-IsFactOf o facts (f ∷ fs) out h =
    let (good, rest) =
      continue-accepted (check_fact o facts f) (index_facts o (f.id ∷ facts) fs) out h in
    let (fact, new) = check_fact-IsFactOf o facts f good in
    let (facts_of, count, distinct) = index_facts-IsFactOf o (f.id ∷ facts) fs out rest in
    (
      (fact, facts_of),
      λ z. omega (arith, count z),
      λ d. distinct (cons-IsDistinct f.id facts new d),
    )

check_observation-IsObserved :
    (contexts : List Text) (seen : List Observation) (o : Observation)
    → check_observation contexts seen o ≡ none
    → (0 < occ o.scope.context_id contexts)
      × (is_nil o.facts ≡ false)
      × (observation_at seen o.id ≡ none)
unfolding check_observation
check_observation-IsObserved contexts seen o h =
    let known : contains contexts o.scope.context_id ≡ true = ground arith in
    ((contains_iff contexts o.scope.context_id).0 known, ground arith, ground arith)

-- What the index of observations holds.
abbrev pub Source : List Observation → Text → Option Observation → Type 0
Source os id none = occ id (map (λ o. o.id) os) ≡ 0
Source os id (some o) = (o.id ≡ id) × In o os

later :
    (o : Observation) (os : List Observation) (id : Text) (r : Option Observation)
    → text_eq o.id id ≡ false
    → Source os id r
    → Source (o ∷ os) id r
unfolding occ
later o os id none e h = rw e (omega (arith, h))
later o os id (some p) e h = (h.0, inr h.1)

pub observation_at-Source :
    (os : List Observation) (id : Text) → Source os id (observation_at os id)
unfolding observation_at occ
observation_at-Source [] id = refl
observation_at-Source (o ∷ os) id = elim (Bool-cases (text_eq o.id id)) [
  | inl e ↦ rw e (text_eq→eq o.id id e, inl refl)
  | inr e ↦ rw e (later o os id (observation_at os id) e (observation_at-Source os id))
]

pub index_observations-IsObserved :
    (contexts : List Text) (seen : List Observation) (facts : List Text) (os out : List Observation)
    → index_observations contexts seen facts os ≡ accepted out
    → All (IsObserved contexts) os
      × ((o : Observation) → In o out → In o seen ⊎ In o os)
      × ((z : Text)
          → occ z (map (λ o. o.id) out) ≡ occ z (map (λ o. o.id) seen) + occ z (map (λ o. o.id) os))
      × (IsDistinct (map (λ o. o.id) seen) → IsDistinct (map (λ o. o.id) out))
      × (IsDistinct facts → (z : Text) → occ z facts + occ z (fact_ids os) ≤ 1)
unfolding index_observations fact_ids occ
index_observations-IsObserved contexts seen facts [] out h =
    let e : seen ≡ out = ground arith in
    rw e (tt, λ o m. inl m, λ z. omega arith, λ d. d, λ d z. omega (arith, d z))
index_observations-IsObserved contexts seen facts (o ∷ os) out h =
    let (good, rest) = continue-accepted (check_observation contexts seen o) _ out h in
    let (known, full, new) = check_observation-IsObserved contexts seen o good in
    elim (Indexed-cases (index_facts o facts o.facts)) [
      | inr (e, q) ↦ absurd (not_refused e out (rw q at rest))
      | inl (more, q) ↦
          let (facts_of, count, distinct) = index_facts-IsFactOf o facts o.facts more q in
          let (observed, origin, counted, once, unique) =
            index_observations-IsObserved contexts (o ∷ seen) more os out (rw q at rest) in
          let unseen : occ o.id (map (λ o. o.id) seen) ≡ 0 =
            rw new at (observation_at-Source seen o.id) in
          (
            ((known, full, facts_of), observed),
            λ p m. elim (origin p m) [
              | inl (inl e) ↦ inr (inl e)
              | inl (inr n) ↦ inl n
              | inr n ↦ inr (inr n)
            ],
            λ z. omega (arith, counted z),
            λ d. once (cons-IsDistinct o.id (map (λ o. o.id) seen) unseen d),
            λ d z. omega (
              arith,
              unique (distinct d) z,
              count z,
              occ-append z (map (λ f. f.id) o.facts) (fact_ids os),
            ),
          )
    ]
