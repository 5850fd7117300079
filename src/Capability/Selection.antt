-- ===== src/Capability/Selection.antt =====
-- What the first loop of Resolve collects: the usable items of the claim, and the best precedence.
use capagent.Requirement.Node.{present}
use capagent.Capability.Resolver.{unusable, Selection, select_one, select_all}
use capagent.Model.CapabilityId.{CapabilityId}
use capagent.Base.{
  keep, append_assoc, ap, ◌∙◌, refl, append-nil, Option-cases, false, Bool-cases, sym, ◌++◌, not,
  inr, true, arith, inl, [], ltb, ◌&&◌, ◌⊎◌, All, text_eq, if◌then◌else◌, ◌≡◌, In, ◌∷◌, ◌≤◌, Bool,
  List, ℕ,
}
use capagent.Model.Evidence.{Time, EvidencePrecedence, Evidence}
use capagent.Model.Scope.{EvaluationScope}

-- An item about the capability that the code does not exclude.
unfoldable pub is_usable : EvaluationScope → CapabilityId → Time → Evidence → Bool
is_usable scope id at e = text_eq e.claim id && not (present (unusable e scope at))

-- The least of a number and the precedences of the items.
unfoldable pub least : EvidencePrecedence → List Evidence → EvidencePrecedence
least p [] = p
least p (e ∷ es) = least (if ltb e.precedence p then e.precedence else p) es

module _ (scope : EvaluationScope) (id : CapabilityId) (at : Time) where
  select_one-cases :
      (s : Selection) (e : Evidence)
      → (is_usable scope id at e ≡ true)
          × ((select_one scope id at s e).selected ≡ s.selected ++ (e ∷ []))
          × ((select_one scope id at s e).best
              ≡ (if ltb e.precedence s.best then e.precedence else s.best))
        ⊎ (is_usable scope id at e ≡ false)
          × ((select_one scope id at s e).selected ≡ s.selected)
          × ((select_one scope id at s e).best ≡ s.best)
  unfolding select_one is_usable
  select_one-cases s e = elim (Bool-cases (text_eq e.claim id)) [
    | inr q ↦ inr (rw q, rw q, rw q)
    | inl q ↦ elim (Option-cases (unusable e scope at)) [
      | inl u ↦ inl (rw (q, u), rw (q, u), rw (q, u))
      | inr (c, u) ↦ inr (rw (q, u), rw (q, u), rw (q, u))
    ]
  ]

  pub select_all-keep :
      (s : Selection) (es : List Evidence)
      → ((select_all scope id at s es).selected ≡ s.selected ++ keep (is_usable scope id at) es)
        × ((select_all scope id at s es).best ≡ least s.best (keep (is_usable scope id at) es))
  unfolding select_all keep least
  select_all-keep s [] = (sym (append-nil s.selected), refl)
  select_all-keep s (e ∷ es) =
      let (selected, best) = select_all-keep (select_one scope id at s e) es in
      elim (select_one-cases s e) [
        | inl (u, grown, lower) ↦ (
          rw u (
              selected
              ∙ ap (λ l. l ++ keep (is_usable scope id at) es) grown
              ∙ append_assoc s.selected (e ∷ []) (keep (is_usable scope id at) es)),
          rw u (best ∙ ap (λ p. least p (keep (is_usable scope id at) es)) lower),
        )
        | inr (u, same, still) ↦ (
          rw u (selected ∙ ap (λ l. l ++ keep (is_usable scope id at) es) same),
          rw u (best ∙ ap (λ p. least p (keep (is_usable scope id at) es)) still),
        )
      ]

pub least-le :
    (p : ℕ) (es : List Evidence) → (least p es ≤ p) × All (λ e. least p es ≤ e.precedence) es
unfolding least
least-le p [] = (omega arith, tt)
least-le p (e ∷ es) =
    let (low, all) = least-le (if ltb e.precedence p then e.precedence else p) es in
    (ground (arith, low), (ground (arith, low), all))

-- The least is the number itself or the precedence of an item.
pub least-attained :
    (p : ℕ) (es : List Evidence)
    → (least p es ≡ p) ⊎ ((e : Evidence) × In e es × (e.precedence ≡ least p es))
unfolding least
least-attained p [] = inl refl
least-attained p (e ∷ es) =
    elim (least-attained (if ltb e.precedence p then e.precedence else p) es) [
      | inr (x, m, q) ↦ inr (x, inr m, q)
      | inl q ↦ elim (Bool-cases (ltb e.precedence p)) [
        | inl lower ↦ inr (e, inl refl, ground arith)
        | inr other ↦ inl (ground arith)
      ]
    ]
