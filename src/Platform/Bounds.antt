-- ===== src/Platform/Bounds.antt =====
-- readBounded of internal/platform/bounded_io.go returns, with no more than the limit.
use capagent.Platform.Reading.{
  read_turn, io_chunk_bytes, returned, Failure, Source, read_loop, ReadOutcome, read_bounded,
  interrupted, end_of_file, failure, after_read, again, ReadError, Reply, returns, ReadTurn, take,
  receive,
}
use capagent.Base.{
  ==_iff, refl, length-append, ltb-false→le, ◌++◌, ◌⊎◌, none, ltb→lt, ltb, some, inr, inl, zero,
  ◌==◌, [], Bool-cases, suc, ◌∷◌, ◌≢◌, arith, ◌<◌, min, ◌+◌, ◌*◌, Option, ◌≤◌, ◌≡◌, Bool, ◌-◌,
  length, List, ℕ,
}

length-take : (n : ℕ) (xs : List ℕ) → length (take n xs) ≡ min n (length xs)
unfolding take
length-take n [] = omega arith
length-take zero (x ∷ xs) = omega arith
length-take (suc n) (x ∷ xs) = omega (arith, length-take n xs)

-- What is left to do: nine turns at most for each byte.
abbrev measure : ℕ → ℕ → List ℕ → ℕ
measure limit retries data_read = (limit - length data_read) * 9 + (8 - retries)

-- A turn that goes on has less left to do, and one that returns keeps to the limit.
abbrev IsBounded : ℕ → ℕ → ReadTurn → Type 0
IsBounded limit left (returns more failed) = length more ≤ limit
IsBounded limit left (again tries more) =
    (length more ≤ limit) × (tries ≤ 8) × (measure limit tries more < left)

after_read-IsBounded :
    (limit left n retries : ℕ) (more : List ℕ) (ended : Bool) (e : Option ReadError)
    → length more ≤ limit
    → retries ≤ 8
    → (n ≢ 0 → measure limit retries more < left)
    → (retries < 8 → measure limit (retries + 1) more < left)
    → IsBounded limit left (after_read n more retries ended e)
after_read-IsBounded limit left n retries more ended none short few progress retry =
    elim (Bool-cases (n == 0)) [
      | inl q ↦ rw q short
      | inr q ↦ rw q (short, few, progress (λ e. ground arith))
    ]
after_read-IsBounded limit left n retries more ended (some end_of_file) short few progress retry =
    short
after_read-IsBounded limit left n retries more ended (some interrupted) short few progress retry =
    elim (Bool-cases (ltb retries 8)) [
      | inl q ↦ let low = ltb→lt retries 8 q in rw q (short, omega (arith, low), retry low)
      | inr q ↦ rw q short
    ]
after_read-IsBounded limit left n retries more ended (some (failure t)) short few progress retry =
    short

length_more :
    (limit : ℕ) (data_read xs : List ℕ)
    → length (data_read ++ take (limit - length data_read) xs)
      ≡ length data_read + min (limit - length data_read) (length xs)
length_more limit data_read xs = omega (
  arith,
  length-append data_read (take (limit - length data_read) xs),
  length-take (limit - length data_read) xs,
)

receive-IsBounded :
    (limit retries : ℕ) (data_read : List ℕ) (ended : Bool) (reply : Reply)
    → length data_read ≤ limit
    → retries ≤ 8
    → IsBounded limit
        (measure limit retries data_read)
        (receive limit data_read retries ended reply)
unfolding receive
receive-IsBounded limit retries data_read ended reply short few =
    let n = length reply.bytes in
    let more = data_read ++ take (limit - length data_read) reply.bytes in
    let size : length more ≡ length data_read + min (limit - length data_read) n =
      length_more limit data_read reply.bytes in
    elim (Bool-cases (ltb (limit - length data_read) n)) [
      | inl q ↦ rw q (omega (arith, size, short))
      | inr q ↦
          let fits : n ≤ limit - length data_read = ltb-false→le (limit - length data_read) n q in
          elim (Bool-cases (n == 0)) [
            | inl z ↦
                let nothing : n ≡ 0 = (==_iff n 0).0 z in
                rw (q, z)
                  (after_read-IsBounded limit (measure limit retries data_read) n retries more ended
                    reply.error (omega (arith, size, short)) few (λ k. absurd (k nothing))
                    (λ low. omega (arith, size, nothing, low)))
            | inr z ↦
                let something : 0 < n = ground arith in
                rw (q, z)
                  (after_read-IsBounded limit (measure limit retries data_read) n 0 more ended
                    reply.error (omega (arith, size, short)) (omega arith)
                    (λ k. omega (arith, size, something, fits, short, few))
                    (λ low. omega (arith, size, something, fits, short, few)))
          ]
    ]

pub read_turn-IsBounded :
    (source : Source) (limit number retries : ℕ) (data_read : List ℕ)
    → length data_read ≤ limit
    → retries ≤ 8
    → IsBounded limit
        (measure limit retries data_read)
        (read_turn source limit number retries data_read)
unfolding read_turn
read_turn-IsBounded source limit number retries data_read short few =
    elim (Bool-cases (source.ended_before number)) [
      | inl q ↦ rw q short
      | inr q ↦ rw q (
          receive-IsBounded limit retries data_read (source.ended_after number)
            (source.read number (length data_read)
              (min (min io_chunk_bytes (limit + 1)) (limit - length data_read + 1)))
            short few)
    ]

pub ReadTurn-cases :
    (t : ReadTurn)
    → ((tries : ℕ) × (more : List ℕ) × (t ≡ again tries more))
      ⊎ ((more : List ℕ) × (failed : Option Failure) × (t ≡ returns more failed))
ReadTurn-cases (again tries more) = inl (tries, more, refl)
ReadTurn-cases (returns more failed) = inr (more, failed, refl)

abbrev pub Returns : ℕ → ReadOutcome → Type 0
Returns limit o =
    (read_data : List ℕ) × (failed : Option Failure) × (o ≡ returned read_data failed)
    × (length read_data ≤ limit)

read_loop-Returns :
    (source : Source) (limit fuel number retries : ℕ) (data_read : List ℕ)
    → length data_read ≤ limit
    → retries ≤ 8
    → measure limit retries data_read < fuel
    → Returns limit (read_loop source limit fuel number retries data_read)
unfolding read_loop
read_loop-Returns source limit zero number retries data_read short few enough = absurd (omega arith)
read_loop-Returns source limit (suc fuel) number retries data_read short few enough =
    let bounded = read_turn-IsBounded source limit number retries data_read short few in
    elim (ReadTurn-cases (read_turn source limit number retries data_read)) [
      | inr (more, failed, q) ↦ rw (read_loop, q) (more, failed, refl, (rw q at bounded))
      | inl (tries, more, q) ↦
          let (fits, tried, less) = rw q at bounded in
          rw (read_loop, q)
            (read_loop-Returns source limit fuel (number + 1) tries more fits tried
              (omega (arith, less)))
    ]

-- Whatever the reads give and whenever the context ends, readBounded returns, and the data has no more
-- bytes than the limit.
pub read_bounded-Returns : (source : Source) (limit : ℕ) → Returns limit (read_bounded source limit)
unfolding read_bounded
read_bounded-Returns source limit =
    read_loop-Returns source limit (limit * 9 + 9) 0 0 [] (omega arith) (omega arith) (omega arith)
