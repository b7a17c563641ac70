-- ===== src/Base/Bytes.antt =====
-- Go strings that the program walks, as their bytes, with what it uses of `strings` and `hex`.
use Prim.Native.Char.{code}
use Prim.Native.Nat.{ℕ, ◌%◌, ◌*◌, ◌+◌, ◌-◌, ◌/◌, ◌<◌}
use Prim.Native.String.{String}
use mathlib.Core.Bool.{false, true, ◌&&◌}
use mathlib.Core.List.{List, [], append-nil, append_assoc, ◌++◌, ◌∷◌}
use mathlib.Core.Logic.{◌≢◌}
use mathlib.Core.Option.{Option, none, some}
use mathlib.Core.Path.{ap, refl, ◌≡◌}
use native.Mathlib.Omega.{arith}
use omnicatena.Base.Lists.{All}
use omnicatena.Base.Tests.{eqb, if◌then◌else◌, leb, ltb}

abbrev pub Bytes : Type 0
Bytes = List ℕ

-- The bytes of an ASCII literal.
abbrev pub codes : String → Bytes
codes String.[] = []
codes (String.◌∷◌ c s) = code c ∷ codes s

-- `strings.Split(s, sep)` for a separator of one byte; `cur` is the part that is being read.
unfoldable pub split_from : ℕ → Bytes → Bytes → List Bytes
split_from sep cur [] = cur ∷ []
split_from sep cur (c ∷ s) = elim (eqb c sep) [
  | true ↦ cur ∷ split_from sep [] s
  | false ↦ split_from sep (cur ++ c ∷ []) s
]

unfoldable pub split : Bytes → ℕ → List Bytes
unfolding split_from
split s sep = split_from sep [] s

abbrev pub Lacks : ℕ → Bytes → Type 0
Lacks b = All (λ c. c ≢ b)

-- Parts joined by a separator.
abbrev pub join : List Bytes → ℕ → Bytes
join [] sep = []
join (p ∷ []) sep = p
join (p ∷ q ∷ ps) sep = p ++ sep ∷ join (q ∷ ps) sep

split_from-append :
    (sep : ℕ) (p cur rest : Bytes)
    → Lacks sep p
    → split_from sep cur (p ++ rest) ≡ split_from sep (cur ++ p) rest
unfolding split_from
split_from-append sep [] cur rest h = rw append-nil
split_from-append sep (c ∷ p) cur rest h =
    ground (arith, split_from-append sep p (cur ++ c ∷ []) rest h.1, append_assoc cur (c ∷ []) p)

split_from_sep :
    (sep : ℕ) (cur s : Bytes) → split_from sep cur (sep ∷ s) ≡ cur ∷ split_from sep [] s
unfolding split_from
split_from_sep sep cur s = ground arith

-- Splitting a join gives the parts back, if there is a part and none holds the separator.
pub split-join :
    (ps : List Bytes) (sep : ℕ) → ps ≢ [] → All (Lacks sep) ps → split (join ps sep) sep ≡ ps
unfolding split
split-join [] sep h _ = absurd (h refl)
split-join (p ∷ []) sep _ (hp, _) =
    rw (← append-nil p) (rw (split_from-append sep p [] [] hp) (rw append-nil refl))
split-join (p ∷ q ∷ ps) sep _ (hp, hps) =
    rw (split_from-append sep p [] _ hp, split_from_sep)
      (ap (◌∷◌ p) (unfold split in split-join (q ∷ ps) sep (cc) hps))

-- `hex.EncodeToString`
unfoldable pub hex_digit : ℕ → ℕ
hex_digit n = if ltb n 10 then b'0' + n else b'a' + (n - 10)

unfoldable pub hex_encode : Bytes → Bytes
unfolding hex_digit
hex_encode [] = []
hex_encode (b ∷ s) = hex_digit (b / 16) ∷ hex_digit (b % 16) ∷ hex_encode s

hex_value : ℕ → Option ℕ
hex_value c =
    if leb b'0' c && leb c b'9'
    then some (c - b'0')
    else if leb b'a' c && leb c b'f'
    then some (c - b'a' + 10)
    else if leb b'A' c && leb c b'F'
    then some (c - b'A' + 10)
    else none

abbrev both : Option ℕ → Option ℕ → Option Bytes → Option Bytes
both (some h) (some l) (some s) = some ((h * 16 + l) ∷ s)
both _ _ _ = none

-- `hex.DecodeString`: an odd length or another byte is an error.
unfoldable pub hex_decode : Bytes → Option Bytes
unfolding hex_value
hex_decode [] = some []
hex_decode (h ∷ []) = none
hex_decode (h ∷ l ∷ s) = both (hex_value h) (hex_value l) (hex_decode s)

hex_value-hex_digit : (n : ℕ) → n < 16 → hex_value (hex_digit n) ≡ some n
unfolding hex_value hex_digit
hex_value-hex_digit n h = ground arith

-- Bytes are read back from their hex print.
pub hex_decode-hex_encode : (s : Bytes) → All (λ b. b < 256) s → hex_decode (hex_encode s) ≡ some s
unfolding hex_decode hex_encode
hex_decode-hex_encode [] h = refl
hex_decode-hex_encode (b ∷ s) (hb, hs) =
    rw (hex_value-hex_digit (b / 16) (omega arith), hex_value-hex_digit (b % 16) (omega arith))
      (rw (hex_decode-hex_encode s hs) (ap (λ (n : ℕ). some (n ∷ s)) (omega arith)))
