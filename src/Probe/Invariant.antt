-- ===== src/Probe/Invariant.antt =====
-- What the calls of internal/probe/registry.go keep true of a registry.
use capagent.Probe.Execution.{Probe}
use capagent.Probe.Registry.{Registry, is_present, new_registry, add_probe}
use capagent.Base.{
  get_elem?, Text, List, [], ◌∷◌, ◌++◌, ℕ, zero, suc, ◌<◌, ◌≡◌, occ, occ-snoc, IsDistinct, length,
  true, false, none, some, refl, arith, Bool-cases, inl, inr, text_eq, text_eq→eq, subst, ap, ◌==◌,
  ◌∙◌,
}

get_elem?-snoc :
    (xs : List Text) (x y : Text) (i : ℕ)
    → get_elem? xs i ≡ some y
    → get_elem? (xs ++ (x ∷ [])) i ≡ some y
get_elem?-snoc [] x y i h = absurd (ground arith)
get_elem?-snoc (z ∷ zs) x y zero h = h
get_elem?-snoc (z ∷ zs) x y (suc i) h = get_elem?-snoc zs x y i h

get_elem?-length : (xs : List Text) (x : Text) → get_elem? (xs ++ (x ∷ [])) (length xs) ≡ some x
get_elem?-length [] x = refl
get_elem?-length (z ∷ zs) x = get_elem?-length zs x

-- The registered IDs are distinct, stand where `regIndex` says, and are the keys of `probes`, and an
-- open registry has no error.
pub record IsRegistry (r : Registry) : Type 0 where
  pub distinct : IsDistinct r.ordered_ids
  pub listed : (z : Text) → is_present (r.probes z) ≡ true → 0 < occ z r.ordered_ids
  pub stored : (z : Text) → 0 < occ z r.ordered_ids → is_present (r.probes z) ≡ true
  pub indexed :
      (z : Text) → 0 < occ z r.ordered_ids → get_elem? r.ordered_ids (r.reg_index z) ≡ some z
  pub unset : r.resolved ≡ false → r.resolve_err ≡ none

pub new_registry-IsRegistry : IsRegistry new_registry
unfolding occ
new_registry-IsRegistry = record {
  distinct = λ z. omega arith;
  listed = λ z h. cc;
  stored = λ z h. absurd (omega arith);
  indexed = λ z h. absurd (omega arith);
  unset = λ h. refl;
}

module _ (r : Registry) (p : Probe) (inv : IsRegistry r)
    (is_new : is_present (r.probes p.id) ≡ false) where
  absent : occ p.id r.ordered_ids ≡ 0
  absent = elim (Bool-cases (occ p.id r.ordered_ids == 0)) [
    | inl e ↦ ground arith
    | inr e ↦ let there = inv.stored p.id (ground arith) in absurd cc
  ]

  snoc-IsDistinct : IsDistinct (r.ordered_ids ++ (p.id ∷ []))
  snoc-IsDistinct z = elim (Bool-cases (text_eq p.id z)) [
    | inl e ↦
        let none_there : occ z r.ordered_ids ≡ 0 =
          subst (λ w. occ w r.ordered_ids ≡ 0) (text_eq→eq p.id z e) absent in
        rw (occ-snoc z r.ordered_ids p.id, e) (omega arith)
    | inr e ↦ rw (occ-snoc z r.ordered_ids p.id, e) (omega (arith, inv.distinct z))
  ]

  add_probe-listed :
      (z : Text)
      → is_present ((add_probe r p).probes z) ≡ true
      → 0 < occ z (r.ordered_ids ++ (p.id ∷ []))
  add_probe-listed z h = elim (Bool-cases (text_eq p.id z)) [
    | inl e ↦ rw (occ-snoc z r.ordered_ids p.id, e) (omega arith)
    | inr e ↦ rw (occ-snoc z r.ordered_ids p.id, e) (omega (arith, inv.listed z (rw e at h)))
  ]

  add_probe-stored :
      (z : Text)
      → 0 < occ z (r.ordered_ids ++ (p.id ∷ []))
      → is_present ((add_probe r p).probes z) ≡ true
  add_probe-stored z h = elim (Bool-cases (text_eq p.id z)) [
    | inl e ↦ rw e
    | inr e ↦
        let h' = rw (occ-snoc z r.ordered_ids p.id, e) at h in rw e (inv.stored z (omega arith))
  ]

  add_probe-indexed :
      (z : Text)
      → 0 < occ z (r.ordered_ids ++ (p.id ∷ []))
      → get_elem? (r.ordered_ids ++ (p.id ∷ [])) ((add_probe r p).reg_index z) ≡ some z
  add_probe-indexed z h = elim (Bool-cases (text_eq p.id z)) [
    | inl e ↦ rw e (get_elem?-length r.ordered_ids p.id ∙ ap (λ w. some w) (text_eq→eq p.id z e))
    | inr e ↦
        let h' = rw (occ-snoc z r.ordered_ids p.id, e) at h in
        rw e (get_elem?-snoc r.ordered_ids p.id z (r.reg_index z) (inv.indexed z (omega arith)))
  ]

  pub add_probe-IsRegistry : IsRegistry (add_probe r p)
  add_probe-IsRegistry = record {
    distinct = snoc-IsDistinct;
    listed = add_probe-listed;
    stored = add_probe-stored;
    indexed = add_probe-indexed;
    unset = inv.unset;
  }
