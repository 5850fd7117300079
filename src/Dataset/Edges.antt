-- ===== src/Dataset/Edges.antt =====
-- The dependencies that ValidateDataset of internal/capability/graph.go accepts.
use capagent.Model.Scope.{scope_eq→eq, scope_eq}
use capagent.Dataset.Steps.{first_error-none}
use capagent.Model.States.{is_complete}
use capagent.Dataset.Accepted.{IsStoredIn}
use capagent.Graph.Rounds.{IsOrdered}
use capagent.Model.Evidence.{Evidence}
use capagent.Dataset.Check.{check_edges_of, EvidenceIndex, check_edges, check_edge}
use capagent.Base.{
  subst, refl, ltb-false→le, append_assoc, sym, false, In-occ, occ_self, ltb, occ-append, arith,
  inr, inl, All-In, true, occ-In, All-of, ◌∷◌, [], ◌++◌, none, ◌<◌, map, ◌≤◌, In, All, ◌≡◌, Text,
  occ, List,
}

In-map :
    (evs : List Evidence) (z : Text)
    → In z (map (λ ev. ev.id) evs)
    → (ev : Evidence) × In ev evs × (ev.id ≡ z)
In-map [] z m = absurd m
In-map (ev ∷ evs) z (inl e) = (ev, inl refl, e)
In-map (ev ∷ evs) z (inr m) = let (found, n, e) = In-map evs z m in (found, inr n, e)

pub In-map_of :
    (evs : List Evidence) (ev : Evidence) → In ev evs → 0 < occ ev.id (map (λ ev. ev.id) evs)
unfolding occ
In-map_of [] ev m = absurd m
In-map_of (e ∷ es) ev (inl q) = rw q (omega (arith, occ_self ev.id (map (λ ev. ev.id) es)))
In-map_of (e ∷ es) ev (inr m) = omega (arith, In-map_of es ev m)

-- What a node needs stands in the order too.
ordered_dependency :
    (needs : Text → Text → Type 0) (seen xs : List Text) (z d : Text)
    → IsOrdered needs seen xs
    → In z xs
    → needs z d
    → 0 < occ d (seen ++ xs)
unfolding occ
ordered_dependency needs seen [] z d o m n = absurd m
ordered_dependency needs seen (x ∷ xs) z d o (inl e) n =
    omega (arith, occ-append d seen (x ∷ xs), o.0 d (subst (λ w. needs w d) (sym e) n))
ordered_dependency needs seen (x ∷ xs) z d o (inr m) n =
    let there = ordered_dependency needs (seen ++ (x ∷ [])) xs z d o.1 m n in
    rw (append_assoc seen (x ∷ []) xs) at there

edge_of :
    (evidence : Text → Evidence) (id : Text) (deps : List Text)
    → check_edges_of evidence id deps ≡ none
    → All (λ dep. check_edge (evidence id) (evidence dep) ≡ none) deps
unfolding check_edges_of
edge_of evidence id [] h = tt
edge_of evidence id (dep ∷ deps) h =
    let (here, rest) = first_error-none (check_edge (evidence id) (evidence dep)) _ h in
    (here, edge_of evidence id deps rest)

edges_of :
    (index : EvidenceIndex) (ids : List Text)
    → check_edges index ids ≡ none
    → All
        (λ id.
          All
            (λ dep. check_edge (index.evidence id) (index.evidence dep) ≡ none)
            (index.edges.dependencies id))
        ids
unfolding check_edges
edges_of index [] h = tt
edges_of index (id ∷ ids) h =
    let (here, rest) =
      first_error-none (check_edges_of index.evidence id (index.edges.dependencies id)) _ h in
    (edge_of index.evidence id (index.edges.dependencies id) here, edges_of index ids rest)

-- A dependency on one of the items, of the same scope, no later, and complete if the item is.
abbrev pub IsDependency : List Evidence → Evidence → Text → Type 0
IsDependency evs ev dep =
    (base : Evidence) × In base evs
    × (base.id ≡ dep)
    × (base.scope ≡ ev.scope)
    × (base.timestamp ≤ ev.timestamp)
    × (is_complete ev.completeness ≡ true → is_complete base.completeness ≡ true)

checked_edge :
    (item base : Evidence)
    → check_edge item base ≡ none
    → (base.scope ≡ item.scope)
      × (base.timestamp ≤ item.timestamp)
      × (is_complete item.completeness ≡ true → is_complete base.completeness ≡ true)
unfolding check_edge
checked_edge item base h =
    let within : scope_eq base.scope item.scope ≡ true = ground arith in
    let past : ltb item.timestamp base.timestamp ≡ false = ground arith in
    (
      scope_eq→eq base.scope item.scope within,
      ltb-false→le item.timestamp base.timestamp past,
      λ e. ground arith,
    )

module _ (index : EvidenceIndex) (evs : List Evidence) (stored : All (IsStoredIn index) evs)
    (keys : (z : Text) → occ z index.edges.keys ≡ occ z (map (λ ev. ev.id) evs)) (order : List Text)
    (full : (z : Text) → occ z order ≡ occ z index.edges.keys)
    (ordered : IsOrdered (λ z d. 0 < occ d (index.edges.dependencies z)) [] order)
    (visited : List Text) (same : (z : Text) → occ z visited ≡ occ z index.edges.keys)
    (fine : check_edges index visited ≡ none) where
  listed : (z : Text) → 0 < occ z index.edges.keys → (ev : Evidence) × In ev evs × (ev.id ≡ z)
  listed z h = In-map evs z (occ-In z (map (λ ev. ev.id) evs) (omega (arith, keys z)))

  dependency :
      (ev : Evidence) → In ev evs → (dep : Text) → In dep ev.depends_on → IsDependency evs ev dep
  dependency ev m dep n =
      let (item, deps) = All-In (IsStoredIn index) evs stored ev m in
      let here : 0 < occ ev.id index.edges.keys = omega (arith, keys ev.id, In-map_of evs ev m) in
      let all =
        All-In
          (λ id.
            All (λ dep. check_edge (index.evidence id) (index.evidence dep) ≡ none)
              (index.edges.dependencies id))
          visited (edges_of index visited fine) ev.id
          (occ-In ev.id visited (omega (arith, same ev.id))) in
      let all' : All (λ dep. check_edge ev (index.evidence dep) ≡ none) ev.depends_on =
        rw (item, deps) at all in
      let edge =
        All-In (λ dep. check_edge ev (index.evidence dep) ≡ none) ev.depends_on all' dep n in
      let needed : 0 < occ dep (index.edges.dependencies ev.id) =
        rw deps (In-occ dep ev.depends_on n) in
      let there =
        ordered_dependency (λ z d. 0 < occ d (index.edges.dependencies z)) [] order ev.id dep
          ordered (occ-In ev.id order (omega (arith, full ev.id))) needed in
      let (base, k, e) = listed dep (omega (arith, full dep)) in
      let (base_item, _) = All-In (IsStoredIn index) evs stored base k in
      let found : index.evidence dep ≡ base = rw e at base_item in
      let (within, past, whole) = checked_edge ev base (rw found at edge) in
      (base, k, e, within, past, whole)

  pub dependencies : All (λ ev. All (IsDependency evs ev) ev.depends_on) evs
  dependencies =
      All-of (λ ev. All (IsDependency evs ev) ev.depends_on) evs
        (λ ev m. All-of (IsDependency evs ev) ev.depends_on (dependency ev m))
