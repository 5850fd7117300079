-- ===== src/Capability/Levels.antt =====
-- Levels of confidence and precedence, as Resolve of internal/capability/resolver.go ranks them.
use capagent.Model.Evidence.{Evidence}
use capagent.Capability.Resolver.{confidence, weaker, ceiling}
use capagent.Base.{ltb, if◌then◌else◌, none, some, arith, ◌≡◌, min, ℕ}
use capagent.Model.States.{verified, derived, heuristic, confidence_is_valid, ConfidenceLevel}

abbrev pub IsLevel : ConfidenceLevel → Type 0
IsLevel c = confidence_is_valid c ≡ none

-- Unknown, heuristic, derived and verified, from weakest to strongest.
unfoldable pub rank : ConfidenceLevel → ℕ
rank ConfidenceLevel.unknown = 0
rank heuristic = 1
rank derived = 2
rank verified = 3
rank (ConfidenceLevel.other s) = 0

pub weaker_lem :
    (a b : ConfidenceLevel)
    → IsLevel a
    → IsLevel b
    → (c : ConfidenceLevel) × (weaker a b ≡ some c) × IsLevel c × (rank c ≡ min (rank a) (rank b))
unfolding weaker rank confidence_is_valid
weaker_lem a b h k =
    (if ltb (rank a) (rank b) then a else b, ground arith, ground arith, ground arith)

ceiling-IsLevel : (p : ℕ) → IsLevel (ceiling p)
unfolding ceiling confidence_is_valid
ceiling-IsLevel p = ground arith

-- An item whose confidence the loop can read.
abbrev pub IsReadable : Evidence → Type 0
IsReadable e = IsLevel e.confidence

-- The confidence that one item can give.
unfoldable pub strength : Evidence → ℕ
strength e = min (rank (ceiling e.precedence)) (rank e.confidence)

pub confidence_lem :
    (e : Evidence)
    → IsReadable e
    → (c : ConfidenceLevel) × (confidence e ≡ some c) × IsLevel c × (rank c ≡ strength e)
unfolding confidence strength
confidence_lem e h = weaker_lem (ceiling e.precedence) e.confidence (ceiling-IsLevel e.precedence) h
