-- ===== src/Config/Layers.antt =====
-- What merging layers keeps (internal/config/engine.go).
use capagent.Base.{
  false, [], if◌then◌else◌, inr, inl, arith, refl, All-append, length-append, ap, ◌∷◌, ◌++◌, ◌<◌,
  none, ◌+◌, map, Bool-cases, length, Bool, Text, ◌≤◌, All, ◌≡◌, some, List, Option, ℕ,
}
use capagent.Config.Marks.{marked, marked-shifted, marked-append}
use capagent.Config.Merge.{
  replaced, shifted, new_list, appends, append_after, extended, ConfigRedactedList,
  overlay_redacted, merge_redacted, merge_list, overlay_list, ConfigList, ListLayer,
}

-- The indices name entries, and each entry has an origin.
abbrev pub IsAligned : ConfigList → Type 0
IsAligned l =
    (length l.origins ≡ length l.values)
    × All (λ i. i < length l.values) l.invalid_indices
    × All (λ i. i < length l.values) l.unmodeled_indices

abbrev pub IsLayer : ListLayer → Type 0
IsLayer l =
    All (λ i. i < length l.values) l.invalid_indices
    × All (λ i. i < length l.values) l.unmodeled_indices

-- `P` of the value behind a pointer, if any.
abbrev pub Holds : {A : Type 0} → (A → Type 0) → Option A → Type 0
Holds P none = Unit
Holds P (some a) = P a

length-map : {A B : Type 0} (f : A → B) (xs : List A) → length (map f xs) ≡ length xs
length-map f [] = refl
length-map f (x ∷ xs) = omega (arith, length-map f xs)

within : (m n : ℕ) (is : List ℕ) → m ≤ n → All (λ i. i < m) is → All (λ i. i < n) is
within m n [] h k = tt
within m n (i ∷ is) h k = (omega (arith, h, k.0), within m n is h k.1)

shifted_within : (m n : ℕ) (is : List ℕ) → All (λ i. i < n) is → All (λ i. i < m + n) (shifted m is)
shifted_within m n [] k = tt
shifted_within m n (i ∷ is) k = (omega (arith, k.0), shifted_within m n is k.1)

indices_within :
    (m n total : ℕ) (is js : List ℕ)
    → total ≡ m + n
    → All (λ i. i < m) is
    → All (λ i. i < n) js
    → All (λ i. i < total) (is ++ shifted m js)
indices_within m n total is js e h k = rw e (
    All-append (λ i. i < m + n) is (shifted m js) (within m (m + n) is (omega arith) h)
      (shifted_within m n js k))

extended-IsAligned :
    (out : ConfigList) (layer : ListLayer) (source : Text)
    → IsAligned out
    → IsLayer layer
    → IsAligned (extended out layer source)
extended-IsAligned out layer source (same, invalid, unmodeled) (invalid', unmodeled') =
    let total = length-append out.values layer.values in
    (
      omega (
        arith,
        total,
        same,
        length-append out.origins (map (λ v. source) layer.values),
        length-map (λ v. source) layer.values,
      ),
      indices_within (length out.values) (length layer.values) _ out.invalid_indices
          layer.invalid_indices total invalid invalid',
      indices_within (length out.values) (length layer.values) _ out.unmodeled_indices
          layer.unmodeled_indices total unmodeled unmodeled',
    )

overlay_list-IsAligned :
    (out : ConfigList) (layer : ListLayer) (source : Text)
    → IsAligned out
    → IsLayer layer
    → IsAligned (overlay_list out layer source)
unfolding overlay_list
overlay_list-IsAligned out layer source h k =
    let flag = append_after out.append layer.append in
    elim (Bool-cases (appends flag)) [
      | inl q ↦ rw q (extended-IsAligned (record out { append = flag }) layer source h k)
      | inr q ↦ rw q (
          extended-IsAligned (replaced (record out { append = flag })) layer source (refl, tt, tt)
            k)
    ]

-- What is kept of the entries so far: nothing, unless the layer appends.
abbrev pub kept :
    (ConfigList → List (Option Text)) → Option ConfigList → ListLayer → List (Option Text)
kept entries none layer = []
kept entries (some previous) layer =
    if appends (append_after previous.append layer.append) then entries previous else []

abbrev pub invalid_entries : ConfigList → List (Option Text)
invalid_entries l = marked l.values l.invalid_indices

abbrev pub unmodeled_entries : ConfigList → List (Option Text)
unmodeled_entries l = marked l.values l.unmodeled_indices

-- The marked entries of the result are the marked ones that are kept, and then those of the layer.
abbrev pub KeepsMarks : Option ConfigList → Option ListLayer → ConfigList → Type 0
KeepsMarks previous none out = previous ≡ some out
KeepsMarks previous (some layer) out =
    (invalid_entries out
      ≡ kept invalid_entries previous layer ++ marked layer.values layer.invalid_indices)
    × (unmodeled_entries out
        ≡ kept unmodeled_entries previous layer ++ marked layer.values layer.unmodeled_indices)

overlay_list-KeepsMarks :
    (previous : ConfigList) (layer : ListLayer) (source : Text)
    → IsAligned previous
    → KeepsMarks (some previous) (some layer) (overlay_list previous layer source)
unfolding overlay_list
overlay_list-KeepsMarks previous layer source (same, invalid, unmodeled) =
    elim (Bool-cases (appends (append_after previous.append layer.append))) [
      | inl q ↦ rw q (
        marked-append previous.values layer.values previous.invalid_indices layer.invalid_indices
            invalid,
        marked-append previous.values layer.values previous.unmodeled_indices
            layer.unmodeled_indices unmodeled,
      )
      | inr q ↦ rw q (
        marked-shifted [] layer.values layer.invalid_indices,
        marked-shifted [] layer.values layer.unmodeled_indices,
      )
    ]

first_list-KeepsMarks :
    (layer : ListLayer) (source : Text)
    → KeepsMarks none (some layer) (overlay_list new_list layer source)
unfolding overlay_list
first_list-KeepsMarks layer source =
    elim (Bool-cases (appends (append_after new_list.append layer.append))) [
      | inl q ↦ rw q (
        marked-shifted [] layer.values layer.invalid_indices,
        marked-shifted [] layer.values layer.unmodeled_indices,
      )
      | inr q ↦ rw q (
        marked-shifted [] layer.values layer.invalid_indices,
        marked-shifted [] layer.values layer.unmodeled_indices,
      )
    ]

-- Merging a layer keeps a list of settings aligned: each entry has an origin, and every invalid or
-- unmodeled index is that of an entry, if the indices of the layer and of the list so far are those of
-- their own entries. And the entries that it marks are those that the list so far marked, unless the
-- layer replaces them, followed by those that the layer marks.
pub merge_list-IsAligned :
    (previous : Option ConfigList) (layer : Option ListLayer) (source : Text)
    → Holds IsAligned previous
    → Holds IsLayer layer
    → Holds
        (λ out. IsAligned out × KeepsMarks previous layer out)
        (merge_list previous layer source)
unfolding merge_list
merge_list-IsAligned none none source h k = tt
merge_list-IsAligned (some previous) none source h k = (h, refl)
merge_list-IsAligned none (some layer) source h k = (
  overlay_list-IsAligned new_list layer source (refl, tt, tt) k,
  first_list-KeepsMarks layer source,
)
merge_list-IsAligned (some previous) (some layer) source h k = (
  overlay_list-IsAligned previous layer source h k,
  overlay_list-KeepsMarks previous layer source h,
)

-- What a redacted list keeps of a list.
abbrev pub redacted : ConfigList → ConfigRedactedList
redacted l = record {
  count = length l.values;
  source_id = l.source_id;
  append = l.append;
  inherited_default = l.inherited_default;
}

abbrev pub redact : Option ConfigList → Option ConfigRedactedList
redact none = none
redact (some l) = some (redacted l)

abbrev with_count : ℕ → Option Bool → Bool → Text → ConfigRedactedList
with_count c flag inherited source = record {
  count = c;
  source_id = source;
  append = flag;
  inherited_default = inherited;
}

redacted-overlay_list :
    (out : ConfigList) (layer : ListLayer) (source : Text)
    → redacted (overlay_list out layer source) ≡ overlay_redacted (redacted out) layer source
unfolding overlay_list overlay_redacted
redacted-overlay_list out layer source =
    elim (Bool-cases (appends (append_after out.append layer.append))) [
      | inl q ↦ rw q (
          ap (λ c. with_count c (append_after out.append layer.append) out.inherited_default source)
            (length-append out.values layer.values))
      | inr q ↦
          rw q (
            ap (λ c. with_count c (append_after out.append layer.append) false source)
              (omega arith))
    ]

-- Merging redacted lists is merging the lists and redacting the result: the count, the flag and the source
-- are those of the entries that were not kept.
pub redact-merge_list :
    (previous : Option ConfigList) (layer : Option ListLayer) (source : Text)
    → redact (merge_list previous layer source) ≡ merge_redacted (redact previous) layer source
unfolding merge_list merge_redacted
redact-merge_list none none source = refl
redact-merge_list (some previous) none source = refl
redact-merge_list none (some layer) source = ap some (redacted-overlay_list new_list layer source)
redact-merge_list (some previous) (some layer) source =
    ap some (redacted-overlay_list previous layer source)
