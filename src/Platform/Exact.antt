-- ===== src/Platform/Exact.antt =====
-- readBounded of internal/platform/bounded_io.go returns what the file holds.
use capagent.Platform.Bounds.{ReadTurn-cases, read_turn-IsBounded}
use capagent.Platform.Reading.{
  read_turn, io_chunk_bytes, returned, read_loop, read_bounded, interrupted, failure, after_read,
  incomplete, again, limit_exceeded, context_failure, Failure, end_of_file, ReadError, returns,
  Source, ReadTurn, take, receive, Reply,
}
use capagent.Base.{
  ◌*◌, min, append_assoc, if◌then◌else◌, ltb-false→le, length-append, append-nil, ◌∙◌, ==_iff, sym,
  inr, ltb→lt, inl, ◌==◌, ltb, zero, none, ◌<◌, Bool-cases, refl, false, true, suc, arith, ◌⊎◌, ◌-◌,
  ap, ◌+◌, [], ◌∷◌, length, Bool, Option, some, ◌++◌, ◌≤◌, ℕ, ◌≡◌, List,
}

-- A reply that ends the file: io.EOF, or nothing.
abbrev EndsFile : Reply → Type 0
EndsFile r = (r.error ≡ some end_of_file) ⊎ ((r.error ≡ none) × (length r.bytes ≡ 0))

-- Each read gives a next part of the contents, and ends the file only at its end.
abbrev pub IsFile : List ℕ → Source → Type 0
IsFile contents source =
    (number size : ℕ) (before rest : List ℕ)
    → 0 < size
    → before ++ rest ≡ contents
    → (left : List ℕ) × ((source.read number (length before) size).bytes ++ left ≡ rest)
      × (EndsFile (source.read number (length before) size) → left ≡ [])

-- The data of a result: all contents without an error, and the first of them up to the limit if there are
-- more. With an incomplete read, nothing is said.
abbrev pub IsExact : List ℕ → ℕ → List ℕ → Option Failure → Type 0
IsExact contents limit more none = more ≡ contents
IsExact contents limit more (some (limit_exceeded l e ended)) =
    (more ≡ take limit contents) × (limit < length contents)
IsExact contents limit more (some (incomplete e ended)) = Unit

abbrev IsPrefix : List ℕ → List ℕ → Type 0
IsPrefix contents more = (rest : List ℕ) × (more ++ rest ≡ contents)

abbrev IsExactTurn : List ℕ → ℕ → ReadTurn → Type 0
IsExactTurn contents limit (returns more failed) = IsExact contents limit more failed
IsExactTurn contents limit (again tries more) = IsPrefix contents more

pub take_all : (n : ℕ) (xs : List ℕ) → length xs ≤ n → take n xs ≡ xs
unfolding take
take_all n [] h = refl
take_all zero (x ∷ xs) h = absurd (omega (arith, h))
take_all (suc n) (x ∷ xs) h = ap (λ ys. x ∷ ys) (take_all n xs (omega (arith, h)))

take-append : (n : ℕ) (xs ys : List ℕ) → n ≤ length xs → take n (xs ++ ys) ≡ take n xs
unfolding take
take-append zero [] [] h = refl
take-append zero [] (y ∷ ys) h = refl
take-append zero (x ∷ xs) ys h = refl
take-append (suc n) [] ys h = absurd (omega (arith, h))
take-append (suc n) (x ∷ xs) ys h = ap (λ zs. x ∷ zs) (take-append n xs ys (omega (arith, h)))

take_past : (n : ℕ) (xs ys : List ℕ) → take (length xs + n) (xs ++ ys) ≡ xs ++ take n ys
unfolding take
take_past n [] ys = ap (λ k. take k ys) (omega arith)
take_past n (x ∷ xs) ys =
    let next : suc (length xs) + n ≡ suc (length xs + n) = omega arith in
    rw next (ap (λ zs. x ∷ zs) (take_past n xs ys))

context-IsExact :
    (contents : List ℕ) (limit : ℕ) (more : List ℕ) (ended : Bool)
    → more ≡ contents
    → IsExact contents limit more (context_failure ended)
context-IsExact contents limit more true h = tt
context-IsExact contents limit more false h = h

after_read-IsExact :
    (contents : List ℕ) (limit n retries : ℕ) (more left : List ℕ) (ended : Bool)
    (e : Option ReadError)
    → more ++ left ≡ contents
    → ((e ≡ some end_of_file) ⊎ ((e ≡ none) × (n ≡ 0)) → left ≡ [])
    → IsExactTurn contents limit (after_read n more retries ended e)
after_read-IsExact contents limit n retries more left ended none h end =
    elim (Bool-cases (n == 0)) [
      | inl q ↦
          let empty = end (inr (refl, (==_iff n 0).0 q)) in
          rw q (context-IsExact contents limit more ended (sym (append-nil more) ∙ (rw empty at h)))
      | inr q ↦ rw q (left, h)
    ]
after_read-IsExact contents limit n retries more left ended (some end_of_file) h end =
    let empty = end (inl refl) in
    context-IsExact contents limit more ended (sym (append-nil more) ∙ (rw empty at h))
after_read-IsExact contents limit n retries more left ended (some interrupted) h end =
    elim (Bool-cases (ltb retries 8)) [ inl q ↦ rw q (left, h) | inr q ↦ rw q tt ]
after_read-IsExact contents limit n retries more left ended (some (failure t)) h end = tt

receive-IsExact :
    (contents : List ℕ) (limit retries : ℕ) (before left : List ℕ) (ended : Bool) (reply : Reply)
    → length before ≤ limit
    → before ++ (reply.bytes ++ left) ≡ contents
    → (EndsFile reply → left ≡ [])
    → IsExactTurn contents limit (receive limit before retries ended reply)
unfolding receive
receive-IsExact contents limit retries before left ended reply short h end =
    let n = length reply.bytes in
    let remaining = limit - length before in
    elim (Bool-cases (ltb remaining n)) [
      | inl q ↦
          let over = ltb→lt remaining n q in
          let whole : length contents ≡ length before + (n + length left) =
            ap length (sym h)
            ∙ (length-append before (reply.bytes ++ left)
                ∙ ap (λ k. length before + k) (length-append reply.bytes left)) in
          let first_part : take limit contents ≡ before ++ take remaining reply.bytes =
            ap (λ k. take k contents) (omega (arith, short))
            ∙ (ap (take (length before + remaining)) (sym h)
                ∙ (take_past remaining before (reply.bytes ++ left)
                    ∙ ap (λ zs. before ++ zs)
                        (take-append remaining reply.bytes left (omega (arith, over))))) in
          rw q (sym first_part, omega (arith, whole, over, short))
      | inr q ↦
          let fits = ltb-false→le remaining n q in
          let all : take remaining reply.bytes ≡ reply.bytes =
            take_all remaining reply.bytes fits in
          rw (q, all)
            (after_read-IsExact contents limit n (if n == 0 then retries else 0)
              (before ++ reply.bytes) left ended reply.error
              (append_assoc before reply.bytes left ∙ h) end)
    ]

module _ (contents : List ℕ) (source : Source) (file : IsFile contents source) (limit : ℕ) where
  read_turn-IsExact :
      (number retries : ℕ) (before : List ℕ)
      → length before ≤ limit
      → IsPrefix contents before
      → IsExactTurn contents limit (read_turn source limit number retries before)
  unfolding read_turn
  read_turn-IsExact number retries before short (rest, h) =
      elim (Bool-cases (source.ended_before number)) [
        | inl q ↦ rw q tt
        | inr q ↦
            let size = min (min io_chunk_bytes (limit + 1)) (limit - length before + 1) in
            let (left, part, end) = file number size before rest (omega arith) h in
            rw q (
              receive-IsExact contents limit retries before left (source.ended_after number)
                (source.read number (length before) size) short (ap (λ ys. before ++ ys) part ∙ h)
                end)
      ]

  read_loop-IsExact :
      (fuel number retries : ℕ) (before : List ℕ)
      → length before ≤ limit
      → retries ≤ 8
      → IsPrefix contents before
      → (more : List ℕ) (failed : Option Failure)
      → read_loop source limit fuel number retries before ≡ returned more failed
      → IsExact contents limit more failed
  unfolding read_loop
  read_loop-IsExact zero number retries before short few part more failed h = absurd (ground arith)
  read_loop-IsExact (suc fuel) number retries before short few part more failed h =
      let exact = read_turn-IsExact number retries before short part in
      let bounded = read_turn-IsBounded source limit number retries before short few in
      elim (ReadTurn-cases (read_turn source limit number retries before)) [
        | inr (xs, failure_of, q) ↦
            let same : returned xs failure_of ≡ returned more failed = rw (read_loop, q) at h in
            let e : xs ≡ more = ground arith in
            let e' : failure_of ≡ failed = ground arith in rw (e, e') at (rw q at exact)
        | inl (tries, xs, q) ↦
            let (fits, tried, _) = rw q at bounded in
            read_loop-IsExact fuel (number + 1) tries xs fits tried (rw q at exact) more failed
              (rw (read_loop, q) at h)
      ]

  -- Where the reads deliver a file in any pieces, with any interruptions, the data that readBounded returns
  -- without an error is all of the file, and with a LimitError it is the first bytes of the file, as many
  -- as the limit, which the file exceeds.
  pub read_bounded-IsExact :
      (more : List ℕ) (failed : Option Failure)
      → read_bounded source limit ≡ returned more failed
      → IsExact contents limit more failed
  unfolding read_bounded
  read_bounded-IsExact =
      read_loop-IsExact (limit * 9 + 9) 0 0 [] (omega arith) (omega arith) (contents, refl)
