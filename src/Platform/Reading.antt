-- ===== src/Platform/Reading.antt =====
-- readBounded of internal/platform/bounded_io.go.
use capagent.Base.{
  false, ◌==◌, ltb, true, if◌then◌else◌, zero, ◌++◌, none, [], ◌+◌, ◌-◌, some, ◌∷◌, ◌*◌, Option,
  suc, min, length, ℕ, List, Text, Bool,
}

pub data ReadError : Type 0 where
  end_of_file interrupted : ReadError
  failure : Text → ReadError

-- The errors that readBounded returns: a LimitError, or ErrIncomplete, each joined with the error of the
-- last read, if any, and with that of the context, if it has ended.
pub data Failure : Type 0 where
  limit_exceeded : ℕ → Option ReadError → Bool → Failure
  incomplete : Option ReadError → Bool → Failure

-- What one call of `read` gives.
pub record Reply : Type 0 where
  pub bytes : List ℕ
  pub error : Option ReadError

-- `read`, by the number of the turn, the bytes read before and the size of the buffer, and the context,
-- as the turn asks it before and after the read.
pub record Source : Type 0 where
  pub read : ℕ → ℕ → ℕ → Reply
  pub ended_before : ℕ → Bool
  pub ended_after : ℕ → Bool

abbrev pub io_chunk_bytes : ℕ
io_chunk_bytes = 4096

abbrev pub interrupted_retries : ℕ
interrupted_retries = 8

-- `xs[:n]`, and all of `xs` if it is shorter.
unfoldable pub take : ℕ → List ℕ → List ℕ
take n [] = []
take zero (x ∷ xs) = []
take (suc n) (x ∷ xs) = x ∷ take n xs

-- What a turn does: it goes on with a number of retries and the data so far, or returns.
pub data ReadTurn : Type 0 where
  again : ℕ → List ℕ → ReadTurn
  returns : List ℕ → Option Failure → ReadTurn

-- `incomplete(ctx.Err())`.
abbrev pub context_failure : Bool → Option Failure
context_failure true = some (incomplete none true)
context_failure false = none

-- The turn after the read, by its error.
abbrev pub after_read : ℕ → List ℕ → ℕ → Bool → Option ReadError → ReadTurn
after_read n more retries ended (some end_of_file) = returns more (context_failure ended)
after_read n more retries ended (some interrupted) =
    if ltb retries interrupted_retries
    then again (retries + 1) more
    else returns more (some (incomplete (some interrupted) ended))
after_read n more retries ended (some (failure t)) =
    returns more (some (incomplete (some (failure t)) ended))
after_read n more retries ended none =
    if n == 0 then returns more (context_failure ended) else again retries more

-- The body of the loop from the reply on.
unfoldable pub receive : ℕ → List ℕ → ℕ → Bool → Reply → ReadTurn
unfolding take
receive limit data_read retries ended reply =
    let n = length reply.bytes in
    let remaining = limit - length data_read in
    let more = data_read ++ take remaining reply.bytes in
    if ltb remaining n
    then returns more (some (limit_exceeded limit reply.error ended))
    else after_read n more (if n == 0 then retries else 0) ended reply.error

unfoldable pub read_turn : Source → ℕ → ℕ → ℕ → List ℕ → ReadTurn
unfolding receive
read_turn source limit number retries data_read =
    let size = min (min io_chunk_bytes (limit + 1)) (limit - length data_read + 1) in
    if source.ended_before number
    then returns data_read (some (incomplete none true))
    else receive limit data_read retries (source.ended_after number)
        (source.read number (length data_read) size)

pub data ReadOutcome : Type 0 where
  returned : List ℕ → Option Failure → ReadOutcome
  out_of_fuel : ReadOutcome

unfoldable pub read_loop : Source → ℕ → ℕ → ℕ → ℕ → List ℕ → ReadOutcome
unfolding read_turn
read_loop source limit zero number retries data_read = out_of_fuel
read_loop source limit (suc fuel) number retries data_read =
    elim (read_turn source limit number retries data_read) [
      | returns more failed ↦ returned more failed
      | again tries more ↦ read_loop source limit fuel (number + 1) tries more
    ]

-- The loop with fuel for each byte and the retries before it.
unfoldable pub read_bounded : Source → ℕ → ReadOutcome
unfolding read_loop
read_bounded source limit = read_loop source limit (limit * 9 + 9) 0 0 []
