-- ===== src/Base/Decimal.antt =====
-- Decimal texts: `%d`, `big.Int.String`, `strconv.ParseUint(s, 10, bits)` and
-- `big.Int.SetString(s, 10)`.
use Prim.Native.Nat.{suc, zero, ℕ, ◌%◌, ◌*◌, ◌+◌, ◌-◌, ◌/◌, ◌<◌, ◌≤◌}
use mathlib.Core.Bool.{Bool, false, true, ◌||◌}
use mathlib.Core.List.{[], ◌∷◌}
use mathlib.Core.Logic.{inl, inr, ◌⊎◌}
use mathlib.Core.Option
use mathlib.Core.Option.{Option, none, some}
use mathlib.Core.Path.{refl, ◌≡◌}
use native.Mathlib.Omega.{arith}
use omnicatena.Base.Bytes.{Bytes}
use omnicatena.Base.Int.{negsuc, pos, ℤ}
use omnicatena.Base.Lists.{All}
use omnicatena.Base.Tests.{Bool-cases, eqb, if◌then◌else◌, ltb}

abbrev pub digit : ℕ → ℕ
digit n = b'0' + n % 10

-- The digits of `n` in front of `out`; a round for each digit, and `suc n` rounds are enough.
emit : ℕ → ℕ → Bytes → Bytes
emit zero n out = out
emit (suc fuel) n out = elim (ltb n 10) [
  | true ↦ digit n ∷ out
  | false ↦ emit fuel (n / 10) (digit n ∷ out)
]

unfoldable pub decimal : ℕ → Bytes
unfolding emit
decimal n = emit (suc n) n []

abbrev not_digit : ℕ → Bool
not_digit c = ltb c b'0' || ltb b'9' c

-- `max` is the largest value that fits.
scan_uint : ℕ → Bytes → ℕ → Option ℕ
scan_uint max [] n = some n
scan_uint max (c ∷ s) n = elim (not_digit c || ltb max (n * 10 + (c - b'0'))) [
  | true ↦ none
  | false ↦ scan_uint max s (n * 10 + (c - b'0'))
]

unfoldable pub parse_uint : ℕ → Bytes → Option ℕ
unfolding scan_uint
parse_uint max [] = none
parse_uint max (c ∷ s) = scan_uint max (c ∷ s) 0

scan_nat : Bytes → ℕ → Option ℕ
scan_nat [] n = some n
scan_nat (c ∷ s) n = elim (not_digit c) [ true ↦ none | false ↦ scan_nat s (n * 10 + (c - b'0')) ]

parse_nat : Bytes → Option ℕ
parse_nat [] = none
parse_nat (c ∷ s) = scan_nat (c ∷ s) 0

abbrev neg_ℕ : ℕ → ℤ
neg_ℕ zero = pos 0
neg_ℕ (suc n) = negsuc n

-- One sign may stand in front of the digits.
unfoldable pub set_string : Bytes → Option ℤ
unfolding scan_nat parse_nat
set_string [] = none
set_string (c ∷ s) =
    if eqb c b'-'
    then Option.map neg_ℕ (parse_nat s)
    else if eqb c b'+'
    then Option.map pos (parse_nat s)
    else Option.map pos (parse_nat (c ∷ s))

unfoldable pub decimal_ℤ : ℤ → Bytes
decimal_ℤ (pos n) = decimal n
decimal_ℤ (negsuc n) = b'-' ∷ decimal (suc n)

emit-scan_uint :
    (max fuel n : ℕ) (out : Bytes)
    → n < fuel
    → n ≤ max
    → scan_uint max (emit fuel n out) 0 ≡ scan_uint max out n
unfolding emit scan_uint
emit-scan_uint max zero n out h k = absurd (omega arith)
emit-scan_uint max (suc fuel) n out h k = elim (Bool-cases (ltb n 10)) [
  | inl small ↦ ground arith
  | inr large ↦ ground (arith, emit-scan_uint max fuel (n / 10) (digit n ∷ out))
]

emit-scan_nat :
    (fuel n : ℕ) (out : Bytes) → n < fuel → scan_nat (emit fuel n out) 0 ≡ scan_nat out n
unfolding emit scan_nat
emit-scan_nat zero n out h = absurd (omega arith)
emit-scan_nat (suc fuel) n out h = elim (Bool-cases (ltb n 10)) [
  | inl small ↦ ground arith
  | inr large ↦ ground (arith, emit-scan_nat fuel (n / 10) (digit n ∷ out))
]

abbrev pub IsDigit : ℕ → Type 0
IsDigit c = (b'0' ≤ c) × (c ≤ b'9')

-- A text that is not empty, with a digit first.
abbrev pub StartsWithDigit : Bytes → Type 0
StartsWithDigit [] = ⊥
StartsWithDigit (c ∷ s) = IsDigit c

emit-StartsWithDigit :
    (fuel n : ℕ) (out : Bytes) → 0 < fuel ⊎ StartsWithDigit out → StartsWithDigit (emit fuel n out)
unfolding emit
emit-StartsWithDigit zero n out (inl h) = absurd (omega arith)
emit-StartsWithDigit zero n out (inr h) = h
emit-StartsWithDigit (suc fuel) n out h = elim (Bool-cases (ltb n 10)) [
  | inl small ↦ rw (small, StartsWithDigit) (omega arith)
  | inr large ↦
      rw (large, StartsWithDigit)
        (emit-StartsWithDigit fuel (n / 10) (digit n ∷ out) (inr (omega arith)))
]

emit-All-IsDigit : (fuel n : ℕ) (out : Bytes) → All IsDigit out → All IsDigit (emit fuel n out)
unfolding emit
emit-All-IsDigit zero n out h = h
emit-All-IsDigit (suc fuel) n out h = elim (Bool-cases (ltb n 10)) [
  | inl small ↦ rw (small, All) (omega arith, h)
  | inr large ↦ rw (large, All) (emit-All-IsDigit fuel (n / 10) (digit n ∷ out) (omega arith, h))
]

pub decimal-All-IsDigit : (n : ℕ) → All IsDigit (decimal n)
unfolding decimal
decimal-All-IsDigit n = emit-All-IsDigit (suc n) n [] tt

pub decimal-StartsWithDigit : (n : ℕ) → StartsWithDigit (decimal n)
unfolding decimal
decimal-StartsWithDigit n = emit-StartsWithDigit (suc n) n [] (inl (omega arith))

parse_uint-scan_uint :
    (max : ℕ) (s : Bytes) → StartsWithDigit s → parse_uint max s ≡ scan_uint max s 0
unfolding parse_uint
parse_uint-scan_uint max [] h = absurd h
parse_uint-scan_uint max (c ∷ s) h = refl

-- A number that fits is read back from its decimal print.
pub parse_uint-decimal : (max n : ℕ) → n ≤ max → parse_uint max (decimal n) ≡ some n
unfolding decimal scan_uint
parse_uint-decimal max n h =
    rw (parse_uint-scan_uint max _ (decimal-StartsWithDigit n))
      (emit-scan_uint max (suc n) n [] (omega arith) h)

parse_nat-scan_nat : (s : Bytes) → StartsWithDigit s → parse_nat s ≡ scan_nat s 0
unfolding parse_nat
parse_nat-scan_nat [] h = absurd h
parse_nat-scan_nat (c ∷ s) h = refl

parse_nat-decimal : (n : ℕ) → parse_nat (decimal n) ≡ some n
unfolding decimal scan_nat
parse_nat-decimal n =
    rw (parse_nat-scan_nat _ (decimal-StartsWithDigit n)) (emit-scan_nat (suc n) n [] (omega arith))

set_string-unsigned : (s : Bytes) → StartsWithDigit s → set_string s ≡ Option.map pos (parse_nat s)
unfolding set_string
set_string-unsigned [] h = absurd h
set_string-unsigned (c ∷ s) h = ground arith

-- `SetString` reads back what `String` writes.
pub set_string-decimal_ℤ : (z : ℤ) → set_string (decimal_ℤ z) ≡ some z
unfolding decimal_ℤ
set_string-decimal_ℤ (pos n) =
    rw (set_string-unsigned _ (decimal-StartsWithDigit n), parse_nat-decimal n) refl
set_string-decimal_ℤ (negsuc n) = unfold set_string in rw (parse_nat-decimal (suc n))
