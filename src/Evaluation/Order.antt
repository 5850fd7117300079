-- ===== src/Evaluation/Order.antt =====
-- NewRegistry of internal/capability/registry.go keeps the definitions and puts them in order.
use capagent.Graph.Result.{IsOrdered-map}
use capagent.Capability.GraphOrder.{topological-bounded, topological_order}
use capagent.Capability.Topological.{max_graph_entries, err, topological, ok, Outcome}
use capagent.Graph.Rounds.{IsOrdered}
use capagent.Base.{
  ◌≤◌, length, All-of, subst, ◌∙◌, sym, All-In, cons-IsDistinct, occ-snoc, text_eq_refl, refl,
  absent, inr, text_eq→eq, occ_self, ap, text_eq, inl, contains, ◌+◌, occ-append, Bool-cases,
  In-occ, ◌++◌, false, arith, All, ◌<◌, In, IsDistinct, map, Text, ◌∷◌, ◌≡◌, occ, [], List,
}
use capagent.Evaluation.Registry.{
  rejected, edges_of, registry_of, nothing_collected, construct, Registry, Construction,
  new_registry, collect_one, is_invalid, constructed, Definition, collect, Collected,
}

abbrev pub ids : List Definition → List Text
ids defs = map (λ def. def.id) defs

abbrev IsCollected : Collected → Definition → Type 0
IsCollected c def = (c.by_id def.id ≡ def) × (is_invalid def ≡ false)

collect_step :
    (c : Collected) (def : Definition) (defs : List Definition) (out : Collected)
    → collect c (def ∷ defs) ≡ constructed out
    → (is_invalid def ≡ false)
      × (contains c.keys def.id ≡ false)
      × (collect (collect_one c def) defs ≡ constructed out)
unfolding collect
collect_step c def defs out h = elim (Bool-cases (is_invalid def)) [
  | inl e ↦ absurd (ground (arith, (rw e at h)))
  | inr e ↦ elim (Bool-cases (contains c.keys def.id)) [
    | inl k ↦ absurd (ground (arith, (rw (e, k) at h)))
    | inr k ↦ (e, k, rw (e, k) at h)
  ]
]

same_end : (c out : Collected) → collect c [] ≡ constructed out → c ≡ out
unfolding collect
same_end c out h = ground arith

collect_kept :
    (c : Collected) (defs : List Definition) (out : Collected) (z : Text)
    → collect c defs ≡ constructed out
    → 0 < occ z c.keys
    → out.by_id z ≡ c.by_id z
collect_kept c [] out z h k = let e = same_end c out h in rw e
collect_kept c (def ∷ defs) out z h k =
    let (valid, new, rest) = collect_step c def defs out h in
    let more : 0 < occ z (c.keys ++ (def.id ∷ [])) =
      omega (arith, occ-append z c.keys (def.id ∷ [])) in
    let later = collect_kept (collect_one c def) defs out z rest more in
    elim (Bool-cases (text_eq def.id z)) [
      | inl e ↦
          let none_there = rw (text_eq→eq def.id z e) at (absent c.keys def.id new) in
          absurd (omega arith)
      | inr e ↦ rw e at later
    ]

collect_all :
    (c : Collected) (defs : List Definition) (out : Collected)
    → collect c defs ≡ constructed out
    → All (IsCollected out) defs
      × ((z : Text) → occ z out.keys ≡ occ z c.keys + occ z (ids defs))
      × (IsDistinct c.keys → IsDistinct out.keys)
unfolding occ
collect_all c [] out h = let e = same_end c out h in rw e (tt, λ z. omega arith, λ d. d)
collect_all c (def ∷ defs) out h =
    let (valid, new, rest) = collect_step c def defs out h in
    let (collected, count, distinct) = collect_all (collect_one c def) defs out rest in
    let last : 0 < occ def.id (c.keys ++ (def.id ∷ [])) =
      omega (arith, occ-append def.id c.keys (def.id ∷ []), occ_self def.id []) in
    let later = collect_kept (collect_one c def) defs out def.id rest last in
    (
      ((rw (text_eq_refl def.id) at later, valid), collected),
      λ z. omega (arith, count z, occ-snoc z c.keys def.id),
      λ d. distinct (λ z. omega (
        arith,
        occ-snoc z c.keys def.id,
        cons-IsDistinct def.id c.keys (absent c.keys def.id new) d z,
      )),
    )

In-ids :
    (defs : List Definition) (z : Text)
    → 0 < occ z (ids defs)
    → (def : Definition) × In def defs × (def.id ≡ z)
unfolding occ
In-ids [] z h = absurd (omega arith)
In-ids (def ∷ defs) z h = elim (Bool-cases (text_eq def.id z)) [
  | inl e ↦ (def, inl refl, text_eq→eq def.id z e)
  | inr e ↦ let (found, m, q) = In-ids defs z (ground arith) in (found, inr m, q)
]

-- What depends on what among the definitions.
abbrev pub Depends : List Definition → Text → Text → Type 0
Depends defs z dep = (def : Definition) × In def defs × (def.id ≡ z) × In dep def.dependencies

-- The definitions are those given, valid, each once, and each behind all its dependencies.
pub record IsOrderOf (given sorted : List Definition) : Type 0 where
  pub same : (z : Text) → occ z (ids sorted) ≡ occ z (ids given)
  pub distinct : IsDistinct (ids sorted)
  pub members : All (λ def. In def given) sorted
  pub valid : All (λ def. is_invalid def ≡ false) sorted
  pub ordered : IsOrdered (Depends sorted) [] (ids sorted)
  pub bounded : length (ids sorted) ≤ max_graph_entries

-- One of the given definitions, valid and stored.
abbrev IsFound : List Definition → Collected → Definition → Type 0
IsFound given c def = In def given × (is_invalid def ≡ false) × (c.by_id def.id ≡ def)

module _ (given : List Definition) (c : Collected) (order : List Text)
    (found : (z : Text)
      → 0 < occ z order
      → In (c.by_id z) given × ((c.by_id z).id ≡ z) × (is_invalid (c.by_id z) ≡ false)) where
  ids_map : (zs : List Text) → ((z : Text) → In z zs → In z order) → ids (map c.by_id zs) ≡ zs
  ids_map [] sub = refl
  ids_map (z ∷ zs) sub =
      let (_, e, _) = found z (In-occ z order (sub z (inl refl))) in
      rw (e, ids_map zs (λ y m. sub y (inr m)))

  all-IsFound :
      (zs : List Text)
      → ((z : Text) → In z zs → In z order)
      → All (IsFound given c) (map c.by_id zs)
  all-IsFound [] sub = tt
  all-IsFound (z ∷ zs) sub =
      let (m, e, v) = found z (In-occ z order (sub z (inl refl))) in
      ((m, v, ap c.by_id e), all-IsFound zs (λ y n. sub y (inr n)))

registry_of-constructed :
    (c : Collected) (o : Outcome (List Text)) (r : Registry)
    → registry_of c o ≡ constructed r
    → (order : List Text) × (o ≡ ok order) × (r.definitions ≡ map c.by_id order)
registry_of-constructed c (err e) r h = absurd (ground arith)
registry_of-constructed c (ok order) r h = (order, refl, ground arith)

construct_cases :
    (x : Construction Collected) (r : Registry)
    → construct x ≡ constructed r
    → (c : Collected) × (x ≡ constructed c)
      × (registry_of c (topological (edges_of c)) ≡ constructed r)
unfolding topological
construct_cases (rejected e) r h = absurd (ground arith)
construct_cases (constructed c) r h = (c, refl, h)

-- What is stored at an ID.
abbrev IsAt : List Definition → Collected → Text → Type 0
IsAt given c z = In (c.by_id z) given × ((c.by_id z).id ≡ z) × (is_invalid (c.by_id z) ≡ false)

stored-IsAt :
    (given : List Definition) (c : Collected)
    → All (IsCollected c) given
    → (z : Text) → 0 < occ z (ids given)
    → IsAt given c z
stored-IsAt given c collected z h =
    let (def, m, e) = In-ids given z h in
    let (stored, valid) = All-In (IsCollected c) given collected def m in
    let here : c.by_id z ≡ def = ap c.by_id (sym e) ∙ stored in
    subst (λ w. In w given × (w.id ≡ z) × (is_invalid w ≡ false)) (sym here) (m, e, valid)

depends_on :
    (given : List Definition) (c : Collected) (defs : List Definition)
    → All (IsFound given c) defs
    → (z dep : Text) → Depends defs z dep
    → 0 < occ dep (c.by_id z).dependencies
depends_on given c defs all z dep (def, m, e, listed) =
    let (_, _, stored) = All-In (IsFound given c) defs all def m in
    subst (λ w. 0 < occ dep w.dependencies) (sym (ap c.by_id (sym e) ∙ stored))
      (In-occ dep def.dependencies listed)

-- The definitions of a registry that NewRegistry returns are those given, all valid and with distinct IDs,
-- each behind all its dependencies, which are defined too, and at most 4096.
pub new_registry-IsOrderOf :
    (given : List Definition) (r : Registry)
    → new_registry given ≡ constructed r
    → IsOrderOf given r.definitions
unfolding new_registry occ
new_registry-IsOrderOf given r h =
    let (c, q, built) = construct_cases (collect nothing_collected given) r h in
    let (order, sorted, definitions) =
      registry_of-constructed c (topological (edges_of c)) r built in
    let (collected, keys, once) = collect_all nothing_collected given c q in
    let distinct = once (λ z. omega arith) in
    let (full, ordered) = topological_order (edges_of c) order distinct sorted in
    let found : (z : Text) → 0 < occ z order → IsAt given c z =
      λ z k. stored-IsAt given c collected z (omega (arith, full z, keys z)) in
    let all_ids : ids r.definitions ≡ order =
      ap ids definitions ∙ ids_map given c order found order (λ z m. m) in
    let all = all-IsFound given c order found order (λ z m. m) in
    let everything : All (IsFound given c) r.definitions = rw definitions all in
    record {
      same = λ z. rw all_ids (omega (arith, full z, keys z));
      distinct = λ z. rw all_ids (omega (arith, full z, distinct z));
      members =
          All-of (λ def. In def given) r.definitions
            (λ def m. (All-In (IsFound given c) r.definitions everything def m).0);
      valid =
          All-of (λ def. is_invalid def ≡ false) r.definitions
            (λ def m. (All-In (IsFound given c) r.definitions everything def m).1);
      ordered = rw all_ids (
          IsOrdered-map (λ z d. 0 < occ d (c.by_id z).dependencies) (Depends r.definitions) [] order
            (λ z dep k n. depends_on given c r.definitions everything z dep n) ordered);
      bounded = rw all_ids (topological-bounded (edges_of c) order sorted);
    }
