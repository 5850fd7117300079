-- ===== src/Model/Ranges.antt =====
-- SubIDRanges.IsValid of internal/model/target.go accepts what is an allocation.
use capagent.Model.Errors.{overlapping_ranges, fail_if-none, or_else-none}
use capagent.Model.Identity.{
  uint64, max_uint32, sort_ranges, ranges_is_valid, range_is_valid, check_ranges, insert_range,
  SubIdRange,
}
use capagent.Base.{
  le→ltb-false, ltb-false→le, refl, ltb, [], Bool-cases, ◌⊎◌, arith, none, inr, ◌+◌, ◌∷◌, ◌↔◌, ◌<◌,
  All, ◌≤◌, ◌≡◌, inl, List, ℕ,
}

abbrev pub IsUint32 : ℕ → Type 0
IsUint32 n = n ≤ max_uint32

abbrev pub IsStored : SubIdRange → Type 0
IsStored r = IsUint32 r.start × IsUint32 r.length

-- Some IDs, all below the invalid one.
abbrev pub IsAllocation : SubIdRange → Type 0
IsAllocation r = (0 < r.length) × (r.start + r.length ≤ max_uint32)

-- No ID is in both.
abbrev pub IsApart : SubIdRange → SubIdRange → Type 0
IsApart r s = (r.start + r.length ≤ s.start) ⊎ (s.start + s.length ≤ r.start)

abbrev pub IsDisjoint : List SubIdRange → Type 0
IsDisjoint [] = Unit
IsDisjoint (r ∷ rs) = All (IsApart r) rs × IsDisjoint rs

abbrev IsAscending : List SubIdRange → Type 0
IsAscending [] = Unit
IsAscending (r ∷ rs) = All (λ s. r.start ≤ s.start) rs × IsAscending rs

module _ (P : SubIdRange → Type 0) where
  All-insert_range :
      (r : SubIdRange) (rs : List SubIdRange) → All P (insert_range r rs) ↔ (P r × All P rs)
  unfolding insert_range
  All-insert_range r [] = (λ h. h, λ h. h)
  All-insert_range r (s ∷ ss) =
      let ih = All-insert_range r ss in
      elim (Bool-cases (ltb s.start r.start)) [
        | inl e ↦
            rw e (λ h. let (a, b) = ih.0 h.1 in (a, (h.0, b)), λ h. (h.1.0, ih.1 (h.0, h.1.1)))
        | inr e ↦ rw e (λ h. h, λ h. h)
      ]

  All-sort_ranges : (rs : List SubIdRange) → All P (sort_ranges rs) ↔ All P rs
  unfolding sort_ranges
  All-sort_ranges [] = (λ h. h, λ h. h)
  All-sort_ranges (r ∷ rs) =
      let ih = All-sort_ranges rs in
      let here = All-insert_range r (sort_ranges rs) in
      (λ h. let (a, b) = here.0 h in (a, ih.0 b), λ h. here.1 (h.0, ih.1 h.1))

All-above :
    (low mid : ℕ) (rs : List SubIdRange)
    → low ≤ mid
    → All (λ s. mid ≤ s.start) rs
    → All (λ s. low ≤ s.start) rs
All-above low mid [] h k = tt
All-above low mid (r ∷ rs) h k = (omega (arith, k.0), All-above low mid rs h k.1)

insert_range-IsAscending :
    (r : SubIdRange) (rs : List SubIdRange) → IsAscending rs → IsAscending (insert_range r rs)
unfolding insert_range
insert_range-IsAscending r [] h = (tt, tt)
insert_range-IsAscending r (s ∷ ss) h = elim (Bool-cases (ltb s.start r.start)) [
  | inl e ↦ rw e (
    (All-insert_range (λ t. s.start ≤ t.start) r ss).1 (ground arith, h.0),
    insert_range-IsAscending r ss h.1,
  )
  | inr e ↦
      let low : r.start ≤ s.start = ltb-false→le s.start r.start e in
      rw e ((low, All-above r.start s.start ss low h.0), h)
]

sort_ranges-IsAscending : (rs : List SubIdRange) → IsAscending (sort_ranges rs)
unfolding sort_ranges
sort_ranges-IsAscending [] = tt
sort_ranges-IsAscending (r ∷ rs) =
    insert_range-IsAscending r (sort_ranges rs) (sort_ranges-IsAscending rs)

IsApart-sym : (r s : SubIdRange) → IsApart r s → IsApart s r
IsApart-sym r s (inl h) = inr h
IsApart-sym r s (inr h) = inl h

insert_range-IsDisjoint :
    (r : SubIdRange) (rs : List SubIdRange) → IsDisjoint (insert_range r rs) ↔ IsDisjoint (r ∷ rs)
unfolding insert_range
insert_range-IsDisjoint r [] = (λ h. h, λ h. h)
insert_range-IsDisjoint r (s ∷ ss) =
    let ih = insert_range-IsDisjoint r ss in
    let moved = All-insert_range (IsApart s) r ss in
    elim (Bool-cases (ltb s.start r.start)) [
      | inl e ↦ rw e (
        λ h. let (a, b) = moved.0 h.0 in let (c, d) = ih.0 h.1 in ((IsApart-sym s r a, c), (b, d)),
        λ h. (moved.1 (IsApart-sym r s h.0.0, h.1.0), ih.1 (h.0.1, h.1.1)),
      )
      | inr e ↦ rw e (λ h. h, λ h. h)
    ]

sort_ranges-IsDisjoint : (rs : List SubIdRange) → IsDisjoint (sort_ranges rs) ↔ IsDisjoint rs
unfolding sort_ranges
sort_ranges-IsDisjoint [] = (λ h. h, λ h. h)
sort_ranges-IsDisjoint (r ∷ rs) =
    let ih = sort_ranges-IsDisjoint rs in
    let here = insert_range-IsDisjoint r (sort_ranges rs) in
    let moved = All-sort_ranges (IsApart r) rs in
    (λ h. let (a, b) = here.0 h in (moved.0 a, ih.0 b), λ h. here.1 (moved.1 h.0, ih.1 h.1))

no_wrap : (r : SubIdRange) → IsStored r → uint64 (r.start + r.length) ≡ r.start + r.length
no_wrap r h = omega (arith, h.0, h.1)

range_iff : (r : SubIdRange) → IsStored r → (range_is_valid r ≡ none) ↔ IsAllocation r
unfolding range_is_valid
range_iff r h = (λ e. ground (arith, h, no_wrap r h), λ a. ground (arith, h, no_wrap r h))

All-end :
    (r : SubIdRange) (rs : List SubIdRange)
    → All (λ s. r.start + r.length ≤ s.start) rs
    → All (IsApart r) rs
All-end r [] h = tt
All-end r (s ∷ ss) h = (inl h.0, All-end r ss h.1)

-- The ranges from one end on, in ascending order.
accepted :
    (end : ℕ) (rs : List SubIdRange)
    → All IsStored rs
    → check_ranges end rs ≡ none
    → All IsAllocation rs × All (λ s. end ≤ s.start) rs × IsDisjoint rs
unfolding check_ranges
accepted end [] stored h = (tt, tt, tt)
accepted end (r ∷ rs) stored h =
    let (valid, rest) = or_else-none (range_is_valid r) _ h in
    let (low, left) = fail_if-none (ltb r.start end) overlapping_ranges _ rest in
    let within = (range_iff r stored.0).0 valid in
    let (allocated, above, apart) =
      accepted (r.start + r.length) rs stored.1 (rw (no_wrap r stored.0) at left) in
    let from : end ≤ r.start = ltb-false→le r.start end low in
    (
      (within, allocated),
      (from, All-above end (r.start + r.length) rs (omega (arith, from)) above),
      (All-end r rs above, apart),
    )

All-apart :
    (r : SubIdRange) (rs : List SubIdRange)
    → IsAllocation r
    → All IsAllocation rs
    → All (λ s. r.start ≤ s.start) rs
    → All (IsApart r) rs
    → All (λ s. r.start + r.length ≤ s.start) rs
All-apart r [] a valid up apart = tt
All-apart r (s ∷ ss) a valid up apart =
    (ground (arith, a, valid.0, up.0, apart.0), All-apart r ss a valid.1 up.1 apart.1)

accepts :
    (end : ℕ) (rs : List SubIdRange)
    → All IsStored rs
    → All IsAllocation rs
    → All (λ s. end ≤ s.start) rs
    → IsAscending rs
    → IsDisjoint rs
    → check_ranges end rs ≡ none
unfolding check_ranges
accepts end [] stored allocated above up apart = refl
accepts end (r ∷ rs) stored allocated above up apart =
    let next = All-apart r rs allocated.0 allocated.1 up.0 apart.0 in
    rw ((range_iff r stored.0).1 allocated.0, le→ltb-false r.start end above.0, no_wrap r stored.0)
      (accepts (r.start + r.length) rs stored.1 allocated.1 next up.1 apart.1)

All-from : (rs : List SubIdRange) → All (λ s. 0 ≤ s.start) rs
All-from [] = tt
All-from (r ∷ rs) = (omega arith, All-from rs)

-- SubIDRanges.IsValid accepts a pool of stored ranges exactly if each range has an ID, all IDs are below
-- the invalid one, and no two ranges share an ID.
pub ranges_is_valid-IsDisjoint :
    (rs : List SubIdRange)
    → All IsStored rs
    → (ranges_is_valid rs ≡ none) ↔ (All IsAllocation rs × IsDisjoint rs)
unfolding ranges_is_valid
ranges_is_valid-IsDisjoint rs stored =
    let allocated = All-sort_ranges IsAllocation rs in
    let apart = sort_ranges-IsDisjoint rs in
    let kept = (All-sort_ranges IsStored rs).1 stored in
    (
      λ h. let (a, _, b) = accepted 0 (sort_ranges rs) kept h in (allocated.0 a, apart.0 b),
      λ h.
          accepts 0 (sort_ranges rs) kept (allocated.1 h.0) (All-from (sort_ranges rs))
            (sort_ranges-IsAscending rs) (apart.1 h.1),
    )
