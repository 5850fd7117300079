-- ===== src/Capability/Choice.antt =====
-- What the second loop of Resolve makes of the selected items.
use capagent.Model.Capability.{conflicting_evidence, selected_evidence}
use capagent.Model.Evidence.{EvidenceRef, EvidencePrecedence, Evidence}
use capagent.Capability.Resolver.{choose_all, Choice, choose_one}
use capagent.Base.{
  append-nil, sym, append_assoc, ap, ◌∙◌, Text, inr, inl, Bool-cases, ◌≤◌, true, All, refl,
  if◌then◌else◌, keep, ◌++◌, false, some, [], arith, ◌∷◌, ◌≡◌, ◌==◌, not, Bool, List,
}
use capagent.Model.States.{state_eq, CapabilityState}
use capagent.Capability.Levels.{IsLevel, IsReadable, confidence_lem, rank, strength, weaker_lem}

abbrev pub ids : List Evidence → List EvidenceRef
ids [] = []
ids (e ∷ es) = e.id ∷ ids es

-- The state of the items in turn: the first gives its own, and each that differs makes it unknown.
unfoldable pub joint_state : Bool → CapabilityState → List Evidence → CapabilityState
joint_state first s [] = s
joint_state true s (e ∷ es) = joint_state false e.state es
joint_state false s (e ∷ es) =
    joint_state false (if state_eq e.state s then s else CapabilityState.unknown) es

abbrev pub is_best : EvidencePrecedence → Evidence → Bool
is_best best e = e.precedence == best

abbrev pub is_beaten : EvidencePrecedence → Evidence → Bool
is_beaten best e = not (e.precedence == best)

-- What a run of the loop returns, from what it starts with.
pub record IsChoice (best : EvidencePrecedence) (c : Choice) (es : List Evidence) (c' : Choice)
    : Type 0 where
  pub level : IsLevel c'.confidence
  pub cited : c'.evidence ≡ c.evidence ++ ids (keep (is_best best) es)
  pub passed : c'.superseded ≡ c.superseded ++ ids (keep (is_beaten best) es)
  pub joint : c'.state ≡ joint_state c.first c.state (keep (is_best best) es)
  pub weakest : All (λ e. rank c'.confidence ≤ strength e) (keep (is_best best) es)
  pub bounded : c.first ≡ false → rank c'.confidence ≤ rank c.confidence

-- One round: an item that is beaten, the first item, and any later one.
choose_one_beaten :
    (best : EvidencePrecedence) (c : Choice) (e : Evidence)
    → is_best best e ≡ false
    → choose_one best c e ≡ some (record c { superseded = c.superseded ++ (e.id ∷ []) })
unfolding choose_one
choose_one_beaten best c e h = rw h

module _ (best : EvidencePrecedence) (c : Choice) (e : Evidence) (now : is_best best e ≡ true)
    (readable : IsReadable e) where
  choose_one_first :
      c.first ≡ true
      → (c' : Choice) × (choose_one best c e ≡ some c')
        × IsLevel c'.confidence
        × (c'.first ≡ false)
        × (c'.state ≡ e.state)
        × (c'.evidence ≡ c.evidence ++ (e.id ∷ []))
        × (c'.superseded ≡ c.superseded)
        × (rank c'.confidence ≤ strength e)
  unfolding choose_one
  choose_one_first f =
      let (level, read, ok, power) = confidence_lem e readable in
      (
        record c {
          evidence = c.evidence ++ (e.id ∷ []);
          state = e.state;
          first = false;
          reason = selected_evidence best;
          confidence = level;
        },
        rw (now, f, read),
        ok,
        refl,
        refl,
        refl,
        refl,
        omega arith,
      )

  choose_one_later :
      c.first ≡ false
      → IsLevel c.confidence
      → (c' : Choice) × (choose_one best c e ≡ some c')
        × IsLevel c'.confidence
        × (c'.first ≡ false)
        × (c'.state ≡ (if state_eq e.state c.state then c.state else CapabilityState.unknown))
        × (c'.evidence ≡ c.evidence ++ (e.id ∷ []))
        × (c'.superseded ≡ c.superseded)
        × (rank c'.confidence ≤ strength e)
        × (rank c'.confidence ≤ rank c.confidence)
  unfolding choose_one
  choose_one_later f known =
      let (level, read, ok, power) = confidence_lem e readable in
      let (lower, weak, fine, least) = weaker_lem c.confidence level known ok in
      elim (Bool-cases (state_eq e.state c.state)) [
        | inl same ↦ (
          record c { evidence = c.evidence ++ (e.id ∷ []); confidence = lower },
          rw (now, f, read, same, weak),
          fine,
          f,
          rw same,
          refl,
          refl,
          omega arith,
          omega arith,
        )
        | inr differs ↦ (
          record c {
            evidence = c.evidence ++ (e.id ∷ []);
            state = CapabilityState.unknown;
            reason = conflicting_evidence;
            confidence = lower;
          },
          rw (now, f, read, differs, weak),
          fine,
          f,
          rw differs,
          refl,
          refl,
          omega arith,
          omega arith,
        )
      ]

snoc_append : (xs : List Text) (x : Text) (ys : List Text) → (xs ++ (x ∷ [])) ++ ys ≡ xs ++ (x ∷ ys)
snoc_append xs x ys = append_assoc xs (x ∷ []) ys

-- The run of the rest, with the first round put in front.
module _ (best : EvidencePrecedence) (c c₁ c' : Choice) (e : Evidence) (es : List Evidence)
    (rest : IsChoice best c₁ es c') where
  IsChoice-beaten :
      is_best best e ≡ false
      → c₁ ≡ record c { superseded = c.superseded ++ (e.id ∷ []) }
      → IsChoice best c (e ∷ es) c'
  unfolding keep
  IsChoice-beaten out q = record {
    level = rest.level;
    cited = rw out (rest.cited ∙ ap (λ x. x.evidence ++ ids (keep (is_best best) es)) q);
    passed = rw out (
        rest.passed
        ∙ ap (λ x. x.superseded ++ ids (keep (is_beaten best) es)) q
        ∙ snoc_append c.superseded e.id (ids (keep (is_beaten best) es)));
    joint = rw out (rest.joint ∙ ap (λ x. joint_state x.first x.state (keep (is_best best) es)) q);
    weakest = rw out rest.weakest;
    bounded = λ f. rw (ap (λ x. x.confidence) q) at (rest.bounded (ap (λ x. x.first) q ∙ f));
  }

  IsChoice-best :
      is_best best e ≡ true
      → c₁.evidence ≡ c.evidence ++ (e.id ∷ [])
      → c₁.superseded ≡ c.superseded
      → c₁.first ≡ false
      → joint_state c.first c.state (e ∷ keep (is_best best) es)
        ≡ joint_state false c₁.state (keep (is_best best) es)
      → rank c₁.confidence ≤ strength e
      → (c.first ≡ false → rank c₁.confidence ≤ rank c.confidence)
      → IsChoice best c (e ∷ es) c'
  unfolding keep
  IsChoice-best now cites keeps later joins strong lower = record {
    level = rest.level;
    cited = rw now (
        rest.cited
        ∙ ap (λ x. x ++ ids (keep (is_best best) es)) cites
        ∙ snoc_append c.evidence e.id (ids (keep (is_best best) es)));
    passed = rw now (rest.passed ∙ ap (λ x. x ++ ids (keep (is_beaten best) es)) keeps);
    joint =
        rw now (
          rest.joint ∙ ap (λ b. joint_state b c₁.state (keep (is_best best) es)) later ∙ sym joins);
    weakest = rw now (omega (arith, rest.bounded later), rest.weakest);
    bounded = λ f. omega (arith, rest.bounded later, lower f);
  }

-- The loop ends without a panic, and returns what IsChoice says.
pub choose_all-IsChoice :
    (best : EvidencePrecedence) (c : Choice) (es : List Evidence)
    → IsLevel c.confidence
    → All IsReadable es
    → (c' : Choice) × (choose_all best c es ≡ some c') × IsChoice best c es c'
unfolding choose_all keep joint_state
choose_all-IsChoice best c [] known readable = (
  c,
  refl,
  record {
    level = known;
    cited = sym (append-nil c.evidence);
    passed = sym (append-nil c.superseded);
    joint = refl;
    weakest = tt;
    bounded = λ f. omega arith;
  },
)
choose_all-IsChoice best c (e ∷ es) known readable = elim (Bool-cases (is_best best e)) [
  | inr out ↦
      let next : Choice = record c { superseded = c.superseded ++ (e.id ∷ []) } in
      let (c', ran, rest) = choose_all-IsChoice best next es known readable.1 in
      (
        c',
        rw (choose_one_beaten best c e out, choose_all) ran,
        IsChoice-beaten best c next c' e es rest out refl,
      )
  | inl now ↦ elim (Bool-cases c.first) [
    | inl f ↦
        let (next, ran₁, ok, later, st, cites, keeps, strong) =
          choose_one_first best c e now readable.0 f in
        let (c', ran, rest) = choose_all-IsChoice best next es ok readable.1 in
        (
          c',
          rw (ran₁, choose_all) ran,
          IsChoice-best best c next c' e es rest now cites keeps later (rw (f, st)) strong
              (λ g. absurd (cc)),
        )
    | inr f ↦
        let (next, ran₁, ok, later, st, cites, keeps, strong, lower) =
          choose_one_later best c e now readable.0 f known in
        let (c', ran, rest) = choose_all-IsChoice best next es ok readable.1 in
        (
          c',
          rw (ran₁, choose_all) ran,
          IsChoice-best best c next c' e es rest now cites keeps later (rw (f, st)) strong
              (λ g. lower),
        )
  ]
]
