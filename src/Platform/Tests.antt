-- ===== src/Platform/Tests.antt =====
-- A file that is read in pieces of two bytes, with one interruption.
use capagent.Platform.Exact.{read_bounded-IsExact, IsFile, IsExact}
use capagent.Platform.Reading.{
  limit_exceeded, interrupted, returned, Reply, Source, read_bounded, take,
}
use capagent.Base.{
  inr, inl, Bool-cases, true, ◌∙◌, false, min, refl, none, some, zero, arith, sym, ap, [], suc,
  ◌==◌, ◌≡◌, length, ◌++◌, ◌<◌, ◌∷◌, ℕ, List, Bool,
}
use capagent.Platform.Bounds.{read_bounded-Returns, Returns}

program : Unit {0}
unfolding read_bounded
program = tt

-- What is left of a file behind some bytes.
unfoldable drop : ℕ → List ℕ → List ℕ
drop n [] = []
drop zero (x ∷ xs) = x ∷ xs
drop (suc n) (x ∷ xs) = drop n xs

abbrev contents : List ℕ
contents = 1 ∷ 2 ∷ 3 ∷ 4 ∷ 5 ∷ []

abbrev reply_of : Bool → List ℕ → Reply
reply_of true bytes = record { bytes = []; error = some interrupted }
reply_of false bytes = record { bytes = bytes; error = none }

abbrev file : Source
unfolding take drop
file = record {
  read = λ number offset size. reply_of (number == 1) (take (min size 2) (drop offset contents));
  ended_before = λ number. false;
  ended_after = λ number. false;
}

drop_past : (before rest : List ℕ) → drop (length before) (before ++ rest) ≡ rest
unfolding drop
drop_past [] [] = refl
drop_past [] (x ∷ xs) = refl
drop_past (x ∷ xs) rest = drop_past xs rest

take-drop : (n : ℕ) (xs : List ℕ) → take n xs ++ drop n xs ≡ xs
unfolding take drop
take-drop n [] = refl
take-drop zero (x ∷ xs) = refl
take-drop (suc n) (x ∷ xs) = ap (λ ys. x ∷ ys) (take-drop n xs)

drop_empty : (n : ℕ) (xs : List ℕ) → 0 < n → length (take n xs) ≡ 0 → drop n xs ≡ []
unfolding take drop
drop_empty n [] h k = refl
drop_empty zero (x ∷ xs) h k = absurd (omega (arith, h))
drop_empty (suc n) (x ∷ xs) h k = absurd (omega (arith, k))

file-IsFile : IsFile contents file
unfolding take drop
file-IsFile number size before rest positive h =
    let here : drop (length before) contents ≡ rest =
      ap (drop (length before)) (sym h) ∙ drop_past before rest in
    elim (Bool-cases (number == 1)) [
      | inl q ↦ rw q (
        rest,
        refl,
        λ end. elim end [ inl e ↦ absurd (ground arith) | inr e ↦ absurd (ground (arith, e.0)) ],
      )
      | inr q ↦
          rw (q, here)
            (
              drop (min size 2) rest,
              take-drop (min size 2) rest,
              λ end. elim end [
                | inl e ↦ absurd (ground arith)
                | inr e ↦ drop_empty (min size 2) rest (omega (arith, positive)) e.1
              ],
            )
    ]

read_bounded-file : read_bounded file 5 ≡ returned contents none
unfolding program take drop
read_bounded-file = refl

read_bounded-limit :
    read_bounded file 3 ≡ returned (1 ∷ 2 ∷ 3 ∷ []) (some (limit_exceeded 3 none false))
unfolding program take drop
read_bounded-limit = refl

read_bounded-IsExact_example :
    IsExact contents 3 (1 ∷ 2 ∷ 3 ∷ []) (some (limit_exceeded 3 none false))
read_bounded-IsExact_example =
    read_bounded-IsExact contents file file-IsFile 3 (1 ∷ 2 ∷ 3 ∷ [])
      (some (limit_exceeded 3 none false)) read_bounded-limit

read_bounded-Returns_example : Returns 3 (read_bounded file 3)
read_bounded-Returns_example = read_bounded-Returns file 3
