-- ===== src/Graph/Rounds.antt =====
-- What the rounds of Kahn's algorithm keep, for any order in which ready nodes are taken.
use capagent.Base.{
  ==_iff, occ-snoc, subst, sum-le, ◌≤◌, occ_self, IsDistinct, append_assoc, append-nil, ◌<◌, ap,
  refl, false, true, Bool, inr, text_eq→eq, inl, text_eq, Bool-cases, length-append, arith, ◌+◌, [],
  ◌-◌, ◌≡◌, leb, ◌∷◌, length, ◌++◌, ◌==◌, Text, sum, if◌then◌else◌, occ, ℕ, List,
}
use capagent.Graph.Kahn.{round, Progress, Links, update, Counts, relax}

-- 1 where lowering a count `c` by `n` reaches 0 from above.
unfoldable pub fires : ℕ → ℕ → ℕ
fires c n = if c == 0 then 0 else if leb c n then 1 else 0

occ-freed :
    (z x : Text) (b : Bool) (xs : List Text)
    → occ z (if b then x ∷ xs else xs)
      ≡ (if b then (if text_eq x z then 1 else 0) else 0) + occ z xs
unfolding occ
occ-freed z x true xs = refl
occ-freed z x false xs = omega arith

relax-occ :
    (counts : Counts) (children : List Text) (z : Text)
    → ((relax counts children).0 z ≡ counts z - occ z children)
      × (occ z (relax counts children).1 ≡ fires (counts z) (occ z children))
unfolding relax occ fires
relax-occ counts [] z = (omega arith, ground arith)
relax-occ counts (child ∷ rest) z =
    let (left, freed) = relax-occ (update counts child (counts child - 1)) rest z in
    elim (Bool-cases (text_eq child z)) [
      | inl e ↦
          let same : child ≡ z = text_eq→eq child z e in
          let here : counts child ≡ counts z = ap counts same in
          let left' = rw e at left in
          let freed' = rw e at freed in
          (
            rw e (omega arith),
            rw
                (
                  occ-freed z child (counts child == 1)
                      (relax (update counts child (counts child - 1)) rest).1,
                  e,
                )
                (ground arith),
          )
      | inr e ↦
          let left' = rw e at left in
          let freed' = rw e at freed in
          (
            rw e (omega arith),
            rw
                (
                  occ-freed z child (counts child == 1)
                      (relax (update counts child (counts child - 1)) rest).1,
                  e,
                )
                (ground arith),
          )
    ]

sum-snoc : (f : Text → ℕ) (xs : List Text) (x : Text) → sum f (xs ++ (x ∷ [])) ≡ sum f xs + f x
unfolding sum
sum-snoc f [] x = omega arith
sum-snoc f (y ∷ ys) x = omega (arith, sum-snoc f ys x)

pub length-snoc : (xs : List Text) (x : Text) → length (xs ++ (x ∷ [])) ≡ length xs + 1
length-snoc xs x = omega (arith, length-append xs (x ∷ []))

-- Each string stands behind all that it needs, where `seen` stands in front of the list.
abbrev pub IsOrdered : (Text → Text → Type 0) → List Text → List Text → Type 0
IsOrdered needs seen [] = Unit
IsOrdered needs seen (x ∷ xs) =
    ((d : Text) → needs x d → 0 < occ d seen) × IsOrdered needs (seen ++ (x ∷ [])) xs

IsOrdered-snoc :
    (needs : Text → Text → Type 0) (seen xs : List Text) (x : Text)
    → IsOrdered needs seen xs
    → ((d : Text) → needs x d → 0 < occ d (seen ++ xs))
    → IsOrdered needs seen (xs ++ (x ∷ []))
IsOrdered-snoc needs seen [] x h k = ((λ d n. rw append-nil at (k d n)), tt)
IsOrdered-snoc needs seen (y ∷ ys) x h k = (
  h.0,
  IsOrdered-snoc needs (seen ++ (y ∷ [])) ys x h.1
      (λ d n. rw (append_assoc seen (y ∷ []) ys) (k d n)),
)

-- How `ready` takes the nodes that are freed: it keeps them all, in any order.
abbrev pub Keeps : (List Text → List Text → List Text) → Type 0
Keeps arrange =
    (z : Text) (rest freed : List Text) → occ z (arrange rest freed) ≡ occ z rest + occ z freed

module _ (ids : List Text) (downstream : Links) where
  -- Among the nodes, `d` has `z` as a child.
  abbrev pub Needs : Text → Text → Type 0
  Needs z d = (0 < occ d ids) × (0 < occ z (downstream d))

  -- How often `z` is a child of the nodes of a list.
  abbrev pub incoming : Text → List Text → ℕ
  incoming z = sum (λ d. occ z (downstream d))

  -- A count is the number of edges from nodes that are not yet in order, and a node is in order or
  -- ready, once, exactly if its count is 0.
  pub record Inv (p : Progress) : Type 0 where
    pub open_edges : (z : Text) → p.counts z + incoming z p.order ≡ incoming z ids
    pub placed :
        (z : Text) → occ z p.order + occ z p.ready ≡ (if p.counts z == 0 then occ z ids else 0)
    pub ordered : IsOrdered Needs [] p.order

place_arith :
    (o b r c n t : ℕ)
    → o + (b + r) ≡ (if c == 0 then t else 0)
    → n ≤ c
    → (0 < n → 0 < t)
    → t ≤ 1
    → (o + b) + (r + fires c n) ≡ (if (c - n) == 0 then t else 0)
unfolding fires
place_arith o b r c n t h k l m = ground (arith, l)

module _ (arrange : List Text → List Text → List Text) (keeps : Keeps arrange) (ids : List Text)
    (downstream : Links) (distinct : IsDistinct ids)
    (inside : (d z : Text) → 0 < occ z (downstream d) → 0 < occ z ids) where
  module _ (counts : Counts) (id : Text) (rest order : List Text)
      (inv : Inv ids downstream
        (record { counts = counts; ready = id ∷ rest; order = order })) where
    -- A node that is ready is a node, is not in order, and has no open edge.
    at_front : (counts id ≡ 0) × (occ id ids ≡ 1) × (occ id order ≡ 0)
    at_front = ground (arith, inv.placed id, occ_self id rest, distinct id)

    pub placed-le : (z : Text) → occ z order ≤ occ z ids
    placed-le z = ground (arith, inv.placed z)

    -- With the node put in order, the list is still within the nodes.
    pub longer-le : (z : Text) → occ z (order ++ (id ∷ [])) ≤ occ z ids
    longer-le z = elim (Bool-cases (text_eq id z)) [
      | inl e ↦
          let (c, one, free) =
            subst (λ w. (counts w ≡ 0) × (occ w ids ≡ 1) × (occ w order ≡ 0)) (text_eq→eq id z e)
              at_front in
          rw (occ-snoc z order id, e) (omega arith)
      | inr e ↦ rw (occ-snoc z order id, e) (omega (arith, placed-le z))
    ]

    enough : (z : Text) → occ z (downstream id) ≤ counts z
    enough z = omega (
      arith,
      inv.open_edges z,
      sum-snoc (λ d. occ z (downstream d)) order id,
      sum-le (λ d. occ z (downstream d)) (order ++ (id ∷ [])) ids (λ x. inr (longer-le x)),
    )

    -- A node that is not in order may be put in front of the order, and stays within the nodes.
    missing-le : (d x : Text) → 0 < occ d ids → occ d order ≡ 0 → occ x (d ∷ order) ≤ occ x ids
    unfolding occ
    missing-le d x node none_yet = elim (Bool-cases (text_eq d x)) [
      | inl e ↦
          let here : 1 + occ d order ≤ occ d ids = omega arith in
          rw e (subst (λ w. 1 + occ w order ≤ occ w ids) (text_eq→eq d x e) here)
      | inr e ↦ rw e (omega (arith, placed-le x))
    ]

    -- All that the node needs is in order already.
    ready_is_free : (d : Text) → Needs ids downstream id d → 0 < occ d order
    unfolding sum
    ready_is_free d (node, edge) = elim (Bool-cases (occ d order == 0)) [
      | inr e ↦ ground arith
      | inl e ↦
          let none_yet : occ d order ≡ 0 = (==_iff (occ d order) 0).0 e in
          absurd (
            omega (
              arith,
              inv.open_edges id,
              at_front.0,
              sum-le (λ x. occ id (downstream x)) (d ∷ order) ids
                  (λ x. inr (missing-le d x node none_yet)),
            ))
    ]

    pub round-Inv : Inv ids downstream (round arrange downstream counts id rest order)
    unfolding round occ
    round-Inv = record {
      open_edges = λ z.
          let (left, freed) = relax-occ counts (downstream id) z in
          omega (arith, inv.open_edges z, sum-snoc (λ d. occ z (downstream d)) order id, enough z);
      placed = λ z.
          let (left, freed) = relax-occ counts (downstream id) z in
          rw (occ-snoc z order id, keeps z rest (relax counts (downstream id)).1, freed, left)
            (place_arith (occ z order) (if text_eq id z then 1 else 0) (occ z rest) (counts z)
              (occ z (downstream id)) (occ z ids) (inv.placed z) (enough z) (inside id z)
              (distinct z));
      ordered = IsOrdered-snoc (Needs ids downstream) [] order id inv.ordered ready_is_free;
    }
