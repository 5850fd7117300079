-- ===== src/Capability/Joint.antt =====
-- The joint state of a list of items, and what sorting by ID keeps (internal/capability/resolver.go).
use capagent.Model.States.{state_eq→eq, state_eq_refl, state_eq, CapabilityState}
use capagent.Base.{
  sym, ◌∙◌, refl, inr, inl, text_lt, Bool-cases, [], ◌≢◌, ◌∷◌, ◌⊎◌, true, ◌↔◌, ◌≡◌, All, In, false,
  List,
}
use capagent.Capability.Choice.{joint_state}
use capagent.Capability.Resolver.{insert_by_id, sort_by_id}
use capagent.Model.Evidence.{Evidence}

⊎-swap : {A B C Z : Type 0} → Z ↔ (B ⊎ C) → (A ⊎ Z) ↔ (B ⊎ (A ⊎ C))
⊎-swap both = (
  elim [ inl a ↦ inr (inl a) | inr z ↦ elim (both.0 z) [ inl b ↦ inl b | inr c ↦ inr (inr c) ] ],
  elim [
    | inl b ↦ inr (both.1 (inl b))
    | inr other ↦ elim other [ inl a ↦ inl a | inr c ↦ inr (both.1 (inr c)) ]
  ],
)

⊎-tail : {B X Y Z : Type 0} → Z ↔ (B ⊎ Y) → Y ↔ X → Z ↔ (B ⊎ X)
⊎-tail both tails = (
  λ z. elim (both.0 z) [ inl b ↦ inl b | inr y ↦ inr (tails.0 y) ],
  elim [ inl b ↦ both.1 (inl b) | inr x ↦ both.1 (inr (tails.1 x)) ],
)

In-insert_by_id :
    (e x : Evidence) (xs : List Evidence) → In e (insert_by_id x xs) ↔ ((x ≡ e) ⊎ In e xs)
unfolding insert_by_id
In-insert_by_id e x [] = (λ m. m, λ m. m)
In-insert_by_id e x (y ∷ ys) = elim (Bool-cases (text_lt x.id y.id)) [
  | inl b ↦ rw b (λ m. m, λ m. m)
  | inr b ↦ rw b (⊎-swap (In-insert_by_id e x ys))
]

pub In-sort_by_id : (e : Evidence) (xs : List Evidence) → In e (sort_by_id xs) ↔ In e xs
unfolding sort_by_id
In-sort_by_id e [] = (λ m. m, λ m. m)
In-sort_by_id e (x ∷ xs) = ⊎-tail (In-insert_by_id e x (sort_by_id xs)) (In-sort_by_id e xs)

pub joint_state_agrees :
    (s t : CapabilityState) (es : List Evidence)
    → joint_state false s es ≡ t
    → t ≢ CapabilityState.unknown
    → (s ≡ t) × All (λ e. e.state ≡ t) es
unfolding joint_state
joint_state_agrees s t [] h known = (h, tt)
joint_state_agrees s t (e ∷ es) h known = elim (Bool-cases (state_eq e.state s)) [
  | inl same ↦
      let (q, rest) = joint_state_agrees s t es (rw same at h) known in
      (q, (state_eq→eq e.state s same ∙ q, rest))
  | inr differs ↦
      let (q, rest) = joint_state_agrees CapabilityState.unknown t es (rw differs at h) known in
      absurd (known (sym q))
]

pub joint_state_agreed :
    (s : CapabilityState) (es : List Evidence)
    → All (λ e. e.state ≡ s) es
    → joint_state false s es ≡ s
unfolding joint_state
joint_state_agreed s [] h = refl
joint_state_agreed s (e ∷ es) h =
    let same : state_eq e.state s ≡ true = rw h.0 (state_eq_refl s) in
    rw same (joint_state_agreed s es h.1)
