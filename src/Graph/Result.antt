-- ===== src/Graph/Result.antt =====
-- What Kahn's algorithm returns for a graph given by dependencies, whatever the maps are built by.
use native.Mathlib.Nat.{le_trans}
use capagent.Graph.Order.{order-le, ranked_full, full_order, rounds-Inv}
use capagent.Graph.Kahn.{rounds, Progress, Counts, Links}
use capagent.Base.{
  ◌*◌, text_eq→eq, ==_iff, ap, inl, inr, sum_test, refl, sum_add, ◌==◌, text_eq, Bool-cases, [],
  occ_self, arith, sum_zero, length, if◌then◌else◌, ◌∷◌, ℕ, Bool, ◌<◌, ◌≡◌, Text, List, keep, sum,
  IsDistinct, occ, ◌∙◌, ◌++◌,
}
use capagent.Graph.Rounds.{Needs, IsOrdered, Inv, Keeps}

pub IsOrdered-map :
    (needs needs' : Text → Text → Type 0) (seen xs : List Text)
    → ((x d : Text) → 0 < occ x xs → needs' x d → needs x d)
    → IsOrdered needs seen xs
    → IsOrdered needs' seen xs
unfolding occ
IsOrdered-map needs needs' seen [] h o = tt
IsOrdered-map needs needs' seen (x ∷ xs) h o = (
  (λ d n. o.0 d (h x d (omega (arith, occ_self x xs)) n)),
  IsOrdered-map needs needs' (seen ++ (x ∷ [])) xs (λ y d m. h y d (omega arith)) o.1,
)

sum_cong : (f g : Text → ℕ) (xs : List Text) → ((x : Text) → f x ≡ g x) → sum f xs ≡ sum g xs
unfolding sum
sum_cong f g [] h = refl
sum_cong f g (x ∷ xs) h = omega (arith, h x, sum_cong f g xs h)

-- A list whose elements each stand once in `ids` is counted by going through `ids`.
sum-occ :
    (ids deps : List Text)
    → ((d : Text) → 0 < occ d deps → occ d ids ≡ 1)
    → sum (λ d. occ d deps) ids ≡ length deps
unfolding occ
sum-occ ids [] once = sum_zero ids
sum-occ ids (y ∷ ys) once =
    let here : occ y ids ≡ 1 = once y (omega (arith, occ_self y ys)) in
    let rest : sum (λ d. occ d ys) ids ≡ length ys = sum-occ ids ys (λ d h. once d (omega arith)) in
    sum_add (λ d. if text_eq y d then 1 else 0) (λ d. occ d ys) ids ∙ omega (arith, sum_test y ids)

occ-keep :
    (test : Text → Bool) (z : Text) (xs : List Text)
    → occ z (keep test xs) ≡ (if test z then occ z xs else 0)
unfolding occ keep
occ-keep test z [] = ground arith
occ-keep test z (x ∷ xs) = elim (Bool-cases (text_eq x z)) [
  | inl e ↦
      let same : test x ≡ test z = ap test (text_eq→eq x z e) in
      elim (Bool-cases (test x)) [
        | inl t ↦ rw (t, occ) (ground (arith, occ-keep test z xs))
        | inr t ↦ rw t (ground (arith, occ-keep test z xs))
      ]
  | inr e ↦ elim (Bool-cases (test x)) [
    | inl t ↦ rw (t, occ) (ground (arith, occ-keep test z xs))
    | inr t ↦ rw t (ground (arith, occ-keep test z xs))
  ]
]

-- The maps of counts and children, as they stand for the dependencies of the nodes `ids`.
pub record IsBuilt (ids : List Text) (deps : Links) (counts : Counts) (downstream : Links)
    : Type 0 where
  pub counted : (z : Text) → counts z ≡ occ z ids * length (deps z)
  pub linked : (z d : Text) → occ z (downstream d) ≡ occ z ids * occ d (deps z)
  pub declared : (z d : Text) → 0 < occ z ids → 0 < occ d (deps z) → 0 < occ d ids

module _ (arrange : List Text → List Text → List Text) (keeps : Keeps arrange) (ids : List Text)
    (deps : Links) (counts : Counts) (downstream : Links) (first : List Text)
    (distinct : IsDistinct ids) (built : IsBuilt ids deps counts downstream)
    (starts : (z : Text) → occ z first ≡ occ z (keep (λ id. counts id == 0) ids)) where
  -- The loop from its start.
  abbrev run : Progress
  run =
      rounds arrange downstream (length ids) (record { counts = counts; ready = first; order = [] })

  inside : (d z : Text) → 0 < occ z (downstream d) → 0 < occ z ids
  unfolding occ
  inside d z h = elim (Bool-cases (occ z ids == 0)) [
    | inr e ↦ ground arith
    | inl e ↦
        let none_there : occ z ids ≡ 0 = (==_iff (occ z ids) 0).0 e in
        absurd (omega (arith, h, rw none_there at (built.linked z d)))
  ]

  -- A node is a child of exactly its dependencies, and its count is their number.
  links_of : (z d : Text) → occ z ids ≡ 1 → occ z (downstream d) ≡ occ d (deps z)
  unfolding occ
  links_of z d one = omega (arith, rw one at (built.linked z d))

  edges_of : (z : Text) → counts z ≡ sum (λ d. occ z (downstream d)) ids
  unfolding occ
  edges_of z = elim (Bool-cases (occ z ids == 0)) [
    | inl e ↦
        let none_there : occ z ids ≡ 0 = (==_iff (occ z ids) 0).0 e in
        let no_links =
          sum_cong (λ d. occ z (downstream d)) (λ d. 0) ids
            (λ d. omega (arith, rw none_there at (built.linked z d))) in
        omega (arith, rw none_there at (built.counted z), no_links, sum_zero ids)
    | inr e ↦
        let one : occ z ids ≡ 1 = ground (arith, distinct z) in
        let once : (d : Text) → 0 < occ d (deps z) → occ d ids ≡ 1 =
          λ d h. omega (arith, built.declared z d (omega arith) h, distinct d) in
        let links =
          sum_cong (λ d. occ z (downstream d)) (λ d. occ d (deps z)) ids (λ d. links_of z d one) in
        omega (arith, rw one at (built.counted z), links, sum-occ ids (deps z) once)
  ]

  start-Inv : Inv ids downstream (record { counts = counts; ready = first; order = [] })
  unfolding sum occ
  start-Inv = record {
    open_edges = λ z. omega (arith, edges_of z);
    placed = λ z. omega (arith, starts z, occ-keep (λ id. counts id == 0) z ids);
    ordered = tt;
  }

  run-Inv : Inv ids downstream run × (run.ready ≡ [])
  run-Inv =
      rounds-Inv arrange keeps ids downstream distinct inside (length ids) counts first [] start-Inv
        (omega arith)

  pub run_order-IsOrdered : IsOrdered (λ z d. 0 < occ d (deps z)) [] run.order
  run_order-IsOrdered =
      let (inv, done) = run-Inv in
      IsOrdered-map (Needs ids downstream) (λ z d. 0 < occ d (deps z)) [] run.order
        (λ z d m n.
          let node : 0 < occ z ids = le_trans m (order-le ids downstream distinct run inv done z) in
          let one : occ z ids ≡ 1 = omega (arith, distinct z) in
          (omega (arith, built.declared z d node n), omega (arith, links_of z d one)))
        inv.ordered

  pub run_order-full : length run.order ≡ length ids → (z : Text) → occ z run.order ≡ occ z ids
  run_order-full full z =
      let (inv, done) = run-Inv in full_order ids downstream distinct run inv done full z

  pub run_order-ranked :
      (rank : Text → ℕ)
      → ((z d : Text) → 0 < occ d (deps z) → rank d < rank z)
      → length run.order ≡ length ids
  run_order-ranked rank falls =
      let (inv, done) = run-Inv in
      ranked_full ids downstream distinct run inv done rank (λ z d needs.
        let one : occ z ids ≡ 1 = omega (arith, inside d z needs.1, distinct z) in
        falls z d (omega (arith, needs.1, links_of z d one)))
