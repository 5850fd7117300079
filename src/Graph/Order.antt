-- ===== src/Graph/Order.antt =====
-- What Kahn's algorithm returns: an order of all nodes, unless there is a cycle.
use native.Mathlib.Nat.{le_trans}
use capagent.Graph.Rounds.{round-Inv, length-snoc, longer-le, incoming, Needs, Inv, Keeps}
use capagent.Graph.Kahn.{round, Counts, rounds, Progress, Links}
use capagent.Base.{
  text_eq→eq, ltb→lt, refl, ltb-false→le, subst, inr, inl, text_eq, ◌||◌, ltb, Bool-cases, ap, zero,
  sum-le, distinct_length-le, ◌⊎◌, ◌++◌, ◌∷◌, suc, ◌==◌, arith, ◌+◌, length, ◌≤◌, if◌then◌else◌, [],
  ℕ, ◌≡◌, occ, ◌<◌, IsDistinct, Text, List,
}

module _ (arrange : List Text → List Text → List Text) (keeps : Keeps arrange) (ids : List Text)
    (downstream : Links) (distinct : IsDistinct ids)
    (inside : (d z : Text) → 0 < occ z (downstream d) → 0 < occ z ids) where
  -- With fuel for the nodes that are not yet in order, the loop runs until no node is ready.
  pub rounds-Inv :
      (fuel : ℕ) (counts : Counts) (ready order : List Text)
      → Inv ids downstream (record { counts = counts; ready = ready; order = order })
      → length ids ≤ fuel + length order
      → let p =
          rounds arrange downstream fuel
            (record { counts = counts; ready = ready; order = order }) in
        Inv ids downstream p × (p.ready ≡ [])
  unfolding rounds
  rounds-Inv zero counts [] order inv enough = (inv, refl)
  rounds-Inv zero counts (id ∷ rest) order inv enough =
      let longer : length (order ++ (id ∷ [])) ≤ length ids =
        distinct_length-le (order ++ (id ∷ [])) ids
          (λ z.
            le_trans
              (longer-le arrange keeps ids downstream distinct inside counts id rest order inv z)
              (distinct z))
          (λ z h.
            le_trans h (
              longer-le arrange keeps ids downstream distinct inside counts id rest order inv z)) in
      absurd (omega (arith, length-snoc order id))
  rounds-Inv (suc fuel) counts [] order inv enough = (inv, refl)
  rounds-Inv (suc fuel) counts (id ∷ rest) order inv enough =
      let after = round arrange downstream counts id rest order in
      rounds-Inv fuel after.counts after.ready after.order
        (round-Inv arrange keeps ids downstream distinct inside counts id rest order inv)
        (omega (arith, length-snoc order id))

module _ (ids : List Text) (downstream : Links) (distinct : IsDistinct ids) (p : Progress)
    (inv : Inv ids downstream p) (done : p.ready ≡ []) where
  in_order : (z : Text) → occ z p.order ≡ (if p.counts z == 0 then occ z ids else 0)
  unfolding occ
  in_order z = let none_ready : occ z p.ready ≡ 0 = ap (occ z) done in omega (arith, inv.placed z)

  pub order-le : (z : Text) → occ z p.order ≤ occ z ids
  order-le z = ground (arith, in_order z)

  order_cons-le : (z x : Text) → occ z p.order < occ z ids → occ x (z ∷ p.order) ≤ occ x ids
  unfolding occ
  order_cons-le z x lacks = elim (Bool-cases (text_eq z x)) [
    | inl e ↦
        let here : 1 + occ z p.order ≤ occ z ids = omega arith in
        rw e (subst (λ w. 1 + occ w p.order ≤ occ w ids) (text_eq→eq z x e) here)
    | inr e ↦ rw e (omega (arith, order-le x))
  ]

  -- As long as the nodes, the order holds each node once.
  pub full_order : length p.order ≡ length ids → (z : Text) → occ z p.order ≡ occ z ids
  full_order full z = elim (Bool-cases (ltb (occ z p.order) (occ z ids))) [
    | inr e ↦ omega (arith, order-le z, ltb-false→le (occ z p.order) (occ z ids) e)
    | inl e ↦
        let lacks = ltb→lt (occ z p.order) (occ z ids) e in
        let longer : length (z ∷ p.order) ≤ length ids =
          distinct_length-le (z ∷ p.order) ids
            (λ x. le_trans (order_cons-le z x lacks) (distinct x))
            (λ x h. le_trans h (order_cons-le z x lacks)) in
        absurd (omega arith)
  ]

  module _ (rank : Text → ℕ)
      (falls : (z d : Text) → Needs ids downstream z d → rank d < rank z) where
    settled :
        (n : ℕ) (z : Text)
        → rank z < suc n
        → ((d : Text) → rank d < n → 0 < occ d ids → 0 < occ d p.order)
        → (d : Text) → (occ z (downstream d) ≡ 0) ⊎ (occ d ids ≤ occ d p.order)
    settled n z low below d = elim (Bool-cases (occ z (downstream d) == 0 || occ d ids == 0)) [
      | inl e ↦ ground arith
      | inr e ↦
          let edge : 0 < occ z (downstream d) = ground arith in
          let node : 0 < occ d ids = ground arith in
          inr (omega (arith, below d (omega (arith, falls z d (node, edge))) node, distinct d))
    ]

    -- Where a rank falls along the edges, no node is left.
    ranked_all : (n : ℕ) (z : Text) → rank z < n → 0 < occ z ids → 0 < occ z p.order
    ranked_all zero z low node = absurd (omega arith)
    ranked_all (suc n) z low node =
        let no_open : incoming ids downstream z ids ≤ incoming ids downstream z p.order =
          sum-le (λ d. occ z (downstream d)) ids p.order (settled n z low (ranked_all n)) in
        let closed : p.counts z ≡ 0 = omega (arith, inv.open_edges z) in ground (arith, in_order z)

    pub ranked_full : length p.order ≡ length ids
    ranked_full =
        let short : length p.order ≤ length ids =
          distinct_length-le p.order ids (λ z. le_trans (order-le z) (distinct z))
            (λ z h. le_trans h (order-le z)) in
        let long : length ids ≤ length p.order =
          distinct_length-le ids p.order distinct
            (λ z h. ranked_all (suc (rank z)) z (omega arith) h) in
        omega arith
