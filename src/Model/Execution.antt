-- ===== src/Model/Execution.antt =====
-- The execution identity of an accepted context (internal/model/target.go).
use capagent.Model.Errors.{
  or_else-none, groups_unobserved, fail_if, invalid_identity, invalid_group,
  execution_groups_differ, fail_if-none,
}
use capagent.Base.{
  Option, ◌&&◌, cons-IsDistinct, false, distinct_length-le, ltb-false→le, text_eq→eq, inr, ◌||◌,
  subst, ||-false, ltb→lt, not, ◌==◌, inl, ltb, refl, Bool-cases, arith, [], ◌+◌, ◌≤◌, ◌<◌, ◌∷◌,
  some, IsDistinct, ◌↔◌, map, true, text_eq, none, length, Text, ◌≡◌, occ, ℕ, List,
}
use capagent.Model.Identity.{
  pointed_is_valid, selector_is_valid, max_identity_groups, max_uint32, IdentityContext,
  check_groups, user_is_valid, check_members, check_execution, identity_is_valid, UserIdentity,
  has_id,
}

abbrev entries : List ℕ → List Text
entries gs = map (λ g. g ∷ []) gs

has_id-occ : (gs : List ℕ) (g : ℕ) → (has_id gs g ≡ true) ↔ (0 < occ (g ∷ []) (entries gs))
unfolding has_id occ text_eq
has_id-occ [] g = ground arith
has_id-occ (h ∷ hs) g = let ih = has_id-occ hs g in ground arith

check_groups-distinct :
    (seen gs : List ℕ)
    → check_groups seen gs ≡ none
    → IsDistinct (entries seen)
    → (x : Text) → occ x (entries seen) + occ x (entries gs) ≤ 1
unfolding check_groups occ
check_groups-distinct seen [] h d x = omega (arith, d x)
check_groups-distinct seen (g ∷ gs) h d x =
    let (new, rest) =
      fail_if-none ((g == max_uint32) || has_id seen g) invalid_group (check_groups (g ∷ seen) gs)
        h in
    let unseen : has_id seen g ≡ false = (||-false (g == max_uint32) (has_id seen g) new).1 in
    let iff = has_id-occ seen g in
    let none_there : occ (g ∷ []) (entries seen) ≡ 0 = ground arith in
    let more =
      check_groups-distinct (g ∷ seen) gs rest
        (cons-IsDistinct (g ∷ []) (entries seen) none_there d) x in
    omega (arith, more)

members_all :
    (groups gs : List ℕ)
    → check_members groups gs ≡ none
    → (x : Text) → 0 < occ x (entries gs)
    → 0 < occ x (entries groups)
unfolding check_members occ
members_all groups [] h x k = absurd (omega (arith, k))
members_all groups (g ∷ gs) h x k =
    let (known, rest) =
      fail_if-none (not (has_id groups g)) execution_groups_differ (check_members groups gs) h in
    let member : has_id groups g ≡ true = ground arith in
    let there = (has_id-occ groups g).0 member in
    elim (Bool-cases (text_eq (g ∷ []) x)) [
      | inl e ↦ subst (λ w. 0 < occ w (entries groups)) (text_eq→eq (g ∷ []) x e) there
      | inr e ↦ members_all groups gs rest x (omega (arith, (rw e at k)))
    ]

added :
    (x : Text) (xs ys : List Text)
    → ((z : Text) → 0 < occ z xs → 0 < occ z ys)
    → 0 < occ x ys
    → (z : Text) → 0 < occ z (x ∷ xs)
    → 0 < occ z ys
unfolding occ
added x xs ys sub there z h = elim (Bool-cases (text_eq x z)) [
  | inl e ↦ subst (λ w. 0 < occ w ys) (text_eq→eq x z e) there
  | inr e ↦ sub z (omega (arith, (rw e at h)))
]

-- Two lists of one length without repetitions, one within the other, have the same elements.
same_elements :
    (xs ys : List Text)
    → IsDistinct xs
    → length ys ≤ length xs
    → ((x : Text) → 0 < occ x xs → 0 < occ x ys)
    → (x : Text) → 0 < occ x ys
    → 0 < occ x xs
unfolding occ
same_elements xs ys d short sub x there = elim (Bool-cases (ltb 0 (occ x xs))) [
  | inl e ↦ ltb→lt 0 (occ x xs) e
  | inr e ↦
      let nothing : occ x xs ≡ 0 = omega (arith, ltb-false→le 0 (occ x xs) e) in
      let long =
        distinct_length-le (x ∷ xs) ys (cons-IsDistinct x xs nothing d) (added x xs ys sub there) in
      absurd (omega (arith, long, short))
]

length-entries : (gs : List ℕ) → length (entries gs) ≡ length gs
length-entries [] = refl
length-entries (g ∷ gs) = omega (arith, length-entries gs)

user_groups-IsDistinct :
    (u : UserIdentity) → user_is_valid u ≡ none → IsDistinct (entries u.supplementary_groups)
unfolding user_is_valid occ
user_groups-IsDistinct u h x =
    let groups = u.supplementary_groups in
    let (_, h1) =
      fail_if-none
        ((u.uid == max_uint32)
          || ((u.gid == max_uint32) || ltb max_identity_groups (length groups)))
        invalid_identity
        (fail_if (not u.groups_known && not (length groups == 0)) groups_unobserved
          (check_groups [] groups))
        h in
    let (_, h2) =
      fail_if-none (not u.groups_known && not (length groups == 0)) groups_unobserved
        (check_groups [] groups) h1 in
    omega (arith, check_groups-distinct [] groups h2 (λ z. omega arith) x)

-- The target that an execution identity stands for: the same user and group, and the same supplementary
-- groups in any order.
abbrev pub IsSameUser : UserIdentity → UserIdentity → Type 0
IsSameUser e t =
    (e.uid ≡ t.uid)
    × (e.gid ≡ t.gid)
    × ((g : ℕ)
        → (has_id e.supplementary_groups g ≡ true) ↔ (has_id t.supplementary_groups g ≡ true))

same_user :
    (e t : UserIdentity)
    → user_is_valid e ≡ none
    → check_execution (some e) (some t) ≡ none
    → IsSameUser e t
unfolding check_execution
same_user e t valid h =
    let xs = e.supplementary_groups in
    let ys = t.supplementary_groups in
    let members : check_members ys xs ≡ none = ground arith in
    let lengths : length xs ≡ length ys = ground arith in
    let sub = members_all ys xs members in
    let back =
      same_elements (entries xs) (entries ys) (user_groups-IsDistinct e valid)
        (omega (arith, length-entries xs, length-entries ys, lengths)) sub in
    (
      ground arith,
      ground arith,
      λ g. (
        λ k. (has_id-occ ys g).1 (sub (g ∷ []) ((has_id-occ xs g).0 k)),
        λ k. (has_id-occ xs g).1 (back (g ∷ []) ((has_id-occ ys g).0 k)),
      ),
    )

with_target :
    (e : UserIdentity) (o : Option UserIdentity)
    → user_is_valid e ≡ none
    → check_execution (some e) o ≡ none
    → (t : UserIdentity) × (o ≡ some t) × IsSameUser e t
unfolding check_execution
with_target e none valid h = absurd (ground arith)
with_target e (some t) valid h = (t, refl, same_user e t valid h)

execution_valid :
    (o : Option UserIdentity) (e : UserIdentity)
    → o ≡ some e
    → pointed_is_valid o ≡ none
    → user_is_valid e ≡ none
unfolding user_is_valid
execution_valid none e q h = absurd (ground arith)
execution_valid (some u) e q h =
    let same : u ≡ e = ground arith in subst (λ w. user_is_valid w ≡ none) same h

-- A context that IsValid accepts with an execution identity has a target, and the execution identity has
-- the user, the group and the set of supplementary groups of the target.
pub identity_is_valid-IsSameUser :
    (c : IdentityContext) (e : UserIdentity)
    → identity_is_valid c ≡ none
    → c.execution ≡ some e
    → (t : UserIdentity) × (c.target ≡ some t) × IsSameUser e t
unfolding identity_is_valid
identity_is_valid-IsSameUser c e h q =
    let (_, h1) = or_else-none (selector_is_valid c.selection) _ h in
    let (_, h2) = or_else-none (pointed_is_valid c.current) _ h1 in
    let (_, h3) = or_else-none (pointed_is_valid c.target) _ h2 in
    let (valid, h4) = or_else-none (pointed_is_valid c.execution) _ h3 in
    let (matched, _) = or_else-none (check_execution c.execution c.target) _ h4 in
    with_target e c.target (execution_valid c.execution e q valid) (rw q at matched)
