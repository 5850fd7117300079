-- ===== src/Capability/Resolution.antt =====
-- What Resolve decides: the joint state of the usable evidence of the best precedence.
use capagent.Capability.Joint.{In-sort_by_id, joint_state_agreed, joint_state_agrees}
use native.Mathlib.Nat.{le_trans}
use capagent.Model.Errors.{failed}
use capagent.Capability.Selection.{least-attained, select_all-keep, least, least-le, is_usable}
use capagent.Model.States.{ConfidenceLevel, confidence_is_valid, CapabilityState}
use capagent.Model.CapabilityId.{id_validate, CapabilityId}
use capagent.Base.{
  min, ap, All-of, if◌then◌else◌, ◌||◌, some, ◌+◌, ==_iff, In-keep_of, All-In, In-keep, keep, sym,
  ◌∙◌, refl, inr, inl, arith, ◌≤◌, Bool-cases, [], ◌≢◌, none, ◌∷◌, true, ◌↔◌, ◌≡◌, All, In, false,
  List,
}
use capagent.Capability.Choice.{is_beaten, ids, choose_all-IsChoice, IsChoice, is_best, joint_state}
use capagent.Capability.Levels.{rank, strength}
use capagent.Capability.Resolver.{
  is_unknown, ceiling, finish, invalid_scope, choose_all, resolve, no_selection, select_all,
  resolution_of, no_choice, Choice, Resolution, unusable, sort_by_id,
}
use capagent.Model.Evidence.{
  evidence_validate, zero_time, is_zero, precedence_heuristic, EvidencePrecedence, Time, Evidence,
}
use capagent.Model.Scope.{scope_is_valid, EvaluationScope}
use capagent.Capability.InOrder.{IsInOrder, sort_by_id-IsInOrder, keep-IsInOrder}

-- Of the usable items those of the least precedence number, `precedence`, are one at least and all in
-- the state `s`.
pub record IsAgreed (scope : EvaluationScope) (id : CapabilityId) (at : Time)
    (input : List Evidence) (s : CapabilityState) : Type 0 where
  pub evidence : Evidence
  pub listed : In evidence input
  pub usable : is_usable scope id at evidence ≡ true
  pub in_state : evidence.state ≡ s
  pub least :
      (e : Evidence)
      → In e input
      → is_usable scope id at e ≡ true
      → evidence.precedence ≤ e.precedence
  pub agree :
      (e : Evidence)
      → In e input
      → is_usable scope id at e ≡ true
      → e.precedence ≡ evidence.precedence
      → e.state ≡ s

-- What the code asks of a scope, a claim and a time.
abbrev pub IsQuery : EvaluationScope → CapabilityId → Time → Type 0
IsQuery scope id at = (scope_is_valid scope ≡ none) × (id_validate id ≡ none) × (at ≢ zero_time)

module _ (scope : EvaluationScope) (id : CapabilityId) (at : Time) (input : List Evidence) where
  -- The usable items in order, the best precedence, and the items that have it.
  abbrev pub usable_items : List Evidence
  usable_items = keep (is_usable scope id at) (sort_by_id input)

  abbrev pub best_precedence : EvidencePrecedence
  best_precedence = least (precedence_heuristic + 1) usable_items

  abbrev pub best_items : List Evidence
  best_items = keep (is_best best_precedence) usable_items

  In-usable_items : (e : Evidence) → In e input → is_usable scope id at e ≡ true → In e usable_items
  In-usable_items e m u =
      In-keep_of (is_usable scope id at) e (sort_by_id input) ((In-sort_by_id e input).1 m) u

  pub usable_items-In :
      (e : Evidence) → In e usable_items → In e input × (is_usable scope id at e ≡ true)
  usable_items-In e m =
      let (n, u) = In-keep (is_usable scope id at) e (sort_by_id input) m in
      ((In-sort_by_id e input).0 n, u)

  usable_items-IsInOrder : IsInOrder usable_items
  usable_items-IsInOrder =
      keep-IsInOrder (is_usable scope id at) (sort_by_id input) (sort_by_id-IsInOrder input)

  best_items-In :
      (e : Evidence)
      → In e best_items
      → In e input × (is_usable scope id at e ≡ true) × (e.precedence ≡ best_precedence)
  best_items-In e m =
      let (n, b) = In-keep (is_best best_precedence) e usable_items m in
      let (k, u) = usable_items-In e n in (k, u, (==_iff e.precedence best_precedence).0 b)

  In-best_items :
      (e : Evidence)
      → In e input
      → is_usable scope id at e ≡ true
      → e.precedence ≡ best_precedence
      → In e best_items
  In-best_items e m u p =
      In-keep_of (is_best best_precedence) e usable_items (In-usable_items e m u)
        ((==_iff e.precedence best_precedence).1 p)

  best-le :
      (e : Evidence) → In e input → is_usable scope id at e ≡ true → best_precedence ≤ e.precedence
  best-le e m u =
      All-In (λ x. best_precedence ≤ x.precedence) usable_items
        (least-le (precedence_heuristic + 1) usable_items).1 e (In-usable_items e m u)

  -- The resolution, by its loops.
  pub record IsResolved (r : Resolution) : Type 0 where
    pub choice : Choice
    pub ran : IsChoice best_precedence no_choice usable_items choice
    pub result :
        r
        ≡ resolution_of scope id
            (select_all scope id at no_selection (sort_by_id input)).diagnostics
            choice

  usable-precedence : (e : Evidence) → is_usable scope id at e ≡ true → e.precedence ≤ 5
  unfolding is_usable unusable evidence_validate
  usable-precedence e u = ground arith

  usable-IsReadable :
      (e : Evidence) → is_usable scope id at e ≡ true → confidence_is_valid e.confidence ≡ none
  unfolding is_usable unusable
  usable-IsReadable e u = ground arith

  -- Resolve, with what it calls shut.
  resolve_step : resolve scope id at input ≡ (
      if failed (scope_is_valid scope) || (failed (id_validate id) || is_zero at)
      then some
          (resolution_of scope id (record { code = invalid_scope; reference = [] } ∷ []) no_choice)
      else finish scope id (select_all scope id at no_selection (sort_by_id input)).diagnostics (
          choose_all
            (select_all scope id at no_selection (sort_by_id input)).best
            no_choice
            (select_all scope id at no_selection (sort_by_id input)).selected))
  unfolding resolve
  resolve_step = refl

  All-readable :
      (es : List Evidence)
      → ((e : Evidence) → In e es → is_usable scope id at e ≡ true)
      → All (λ e. confidence_is_valid e.confidence ≡ none) es
  All-readable [] h = tt
  All-readable (e ∷ es) h =
      (usable-IsReadable e (h e (inl refl)), All-readable es (λ x m. h x (inr m)))

  -- The loops end without a panic, whatever the input.
  loops :
      (c : Choice) × (choose_all
          (select_all scope id at no_selection (sort_by_id input)).best
          no_choice
          (select_all scope id at no_selection (sort_by_id input)).selected
        ≡ some c)
      × IsChoice best_precedence no_choice usable_items c
  unfolding confidence_is_valid
  loops =
      let (selected, best) = select_all-keep scope id at no_selection (sort_by_id input) in
      let (c, ran, is) =
        choose_all-IsChoice best_precedence no_choice usable_items refl
          (All-readable usable_items (λ e m. (usable_items-In e m).1)) in
      (c, rw (selected, best) ran, is)

  abbrev diagnosed : Choice → Resolution
  diagnosed =
      resolution_of scope id (select_all scope id at no_selection (sort_by_id input)).diagnostics

  abbrev refused_query : Resolution
  refused_query =
      resolution_of scope id (record { code = invalid_scope; reference = [] } ∷ []) no_choice

  -- Resolve never panics: for every scope, claim, time and list of evidence it returns a resolution.
  pub resolve_total : (r : Resolution) × (resolve scope id at input ≡ some r)
  resolve_total =
      let (c, ran, is) = loops in
      elim (Bool-cases (failed (scope_is_valid scope) || (failed (id_validate id) || is_zero at))) [
        | inl e ↦ (refused_query, rw (resolve_step, e))
        | inr e ↦ (diagnosed c, rw (resolve_step, e, ran))
      ]

  confidence_le :
      {r : Resolution} (done : IsResolved r)
      → rank r.capability.confidence ≤ rank done.choice.confidence
  unfolding rank
  confidence_le {r} done =
      let q : r.capability.confidence ≡ (
          if is_unknown done.choice.state
          then ConfidenceLevel.unknown
          else done.choice.confidence) =
        ap (λ x. x.capability.confidence) done.result in
      rw q (ground arith)

  module _ (query : IsQuery scope id at) where
    query_ok : (failed (scope_is_valid scope) || (failed (id_validate id) || is_zero at)) ≡ false
    query_ok = ground (arith, query.0, query.1, query.2)

    pub resolve-IsResolved : {r : Resolution} → resolve scope id at input ≡ some r → IsResolved r
    resolve-IsResolved {r} h =
        let (c, ran, is) = loops in
        let same : some r ≡ some (diagnosed c) = sym h ∙ (rw (resolve_step, query_ok, ran)) in
        record { choice = c; ran = is; result = ground arith }

    IsAgreed-of :
        (s : CapabilityState)
        → s ≢ CapabilityState.unknown
        → (l : List Evidence) → best_items ≡ l
        → joint_state true CapabilityState.unknown l ≡ s
        → IsAgreed scope id at input s
    unfolding joint_state
    IsAgreed-of s known [] e h = absurd (known (sym h))
    IsAgreed-of s known (x ∷ xs) e h =
        let (first, others) = joint_state_agrees x.state s xs h known in
        let (listed, usable, best) = best_items-In x (rw e (inl refl)) in
        record {
          evidence = x;
          listed = listed;
          usable = usable;
          in_state = first;
          least = λ y m u. rw best (best-le y m u);
          agree = λ y m u p.
              All-In (λ z. z.state ≡ s) (x ∷ xs) (first, others) y
                (rw e at (In-best_items y m u (p ∙ best)));
        }

    best_attained :
        (e : Evidence)
        → In e input
        → is_usable scope id at e ≡ true
        → (x : Evidence) × In x usable_items × (x.precedence ≡ best_precedence)
    best_attained e m u = elim (least-attained (precedence_heuristic + 1) usable_items) [
      | inr found ↦ found
      | inl none_found ↦ absurd (omega (arith, best-le e m u, usable-precedence e u))
    ]

    joint_of :
        (s : CapabilityState)
        → (l : List Evidence) → ((e : Evidence) → In e l → e.state ≡ s)
        → (e : Evidence) → In e l
        → joint_state true CapabilityState.unknown l ≡ s
    unfolding joint_state
    joint_of s [] all e m = absurd m
    joint_of s (x ∷ xs) all e m =
        rw (all x (inl refl))
          (joint_state_agreed s xs (All-of (λ y. y.state ≡ s) xs (λ y n. all y (inr n))))

    agreed_joint :
        (s : CapabilityState)
        → IsAgreed scope id at input s
        → joint_state true CapabilityState.unknown best_items ≡ s
    agreed_joint s agreed =
        let e = agreed.evidence in
        let (x, n, q) = best_attained e agreed.listed agreed.usable in
        let (m, u) = usable_items-In x n in
        let best : e.precedence ≡ best_precedence =
          omega (arith, agreed.least x m u, best-le e agreed.listed agreed.usable) in
        joint_of s best_items
          (λ y k. let (l, v, p) = best_items-In y k in agreed.agree y l v (p ∙ sym best)) e
          (In-best_items e agreed.listed agreed.usable best)

    -- For a valid query, the resolution is in a state other than unknown exactly when the usable items
    -- of the best precedence among the usable ones are one at least and all in that state. So neither the
    -- order of the evidence nor any item of a lower precedence bears on the state.
    pub resolve-IsAgreed :
        {r : Resolution} (s : CapabilityState)
        → resolve scope id at input ≡ some r
        → s ≢ CapabilityState.unknown
        → (r.capability.state ≡ s) ↔ IsAgreed scope id at input s
    resolve-IsAgreed {r} s h known =
        let done = resolve-IsResolved h in
        let state : r.capability.state ≡ joint_state true CapabilityState.unknown best_items =
          ap (λ x. x.capability.state) done.result ∙ done.ran.joint in
        (
          λ e. IsAgreed-of s known best_items refl (sym state ∙ e),
          λ agreed. state ∙ agreed_joint s agreed,
        )

    -- For a valid query, the capability cites the usable items of the best precedence, in the order of
    -- their IDs, none of which is less than one before it, and the other usable items are listed as
    -- superseded, in that order too. The items cited are those of the input that are usable and of the best
    -- precedence. The confidence is no higher than that of any cited item, nor than the ceiling of its
    -- precedence.
    pub resolve_accounts :
        {r : Resolution}
        → resolve scope id at input ≡ some r
        → (r.capability.evidence ≡ ids best_items)
          × IsInOrder best_items
          × ((e : Evidence)
              → In e best_items ↔ (
                  In e input × (is_usable scope id at e ≡ true) × (e.precedence ≡ best_precedence)))
          × (r.superseded ≡ ids (keep (is_beaten best_precedence) usable_items))
          × IsInOrder (keep (is_beaten best_precedence) usable_items)
          × All
              (λ e.
                rank r.capability.confidence
                ≤ min (rank (ceiling e.precedence)) (rank e.confidence))
              best_items
    unfolding strength
    resolve_accounts {r} h =
        let done = resolve-IsResolved h in
        (
          ap (λ x. x.capability.evidence) done.result ∙ done.ran.cited,
          keep-IsInOrder (is_best best_precedence) usable_items usable_items-IsInOrder,
          λ e. (best_items-In e, λ m. In-best_items e m.0 m.1 m.2),
          ap (λ x. x.superseded) done.result ∙ done.ran.passed,
          keep-IsInOrder (is_beaten best_precedence) usable_items usable_items-IsInOrder,
          All-of
              (λ e.
                rank r.capability.confidence
                ≤ min (rank (ceiling e.precedence)) (rank e.confidence))
              best_items
              (λ e m.
                let weak : rank done.choice.confidence ≤ strength e =
                  All-In (λ x. rank done.choice.confidence ≤ strength x) best_items done.ran.weakest
                    e m in
                le_trans (confidence_le done) weak),
        )
