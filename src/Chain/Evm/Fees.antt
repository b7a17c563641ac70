-- ===== src/Chain/Evm/Fees.antt =====
-- `ScaleTip`, the fee of `EstimateFee`, and how `BuildTransfer` reads it back:
-- internal/adapter/chain/evm/adapter.go.
use Prim.Native.Nat.{ℕ, ◌*◌, ◌+◌, ◌/◌}
use Prim.Native.String.{String}
use mathlib.Core.List.{[], ◌∷◌}
use mathlib.Core.Logic.{inl, inr, ◌≢◌, ◌⊎◌}
use mathlib.Core.Option.{Option, none, some}
use mathlib.Core.Path.{ap, refl, ◌∙◌, ◌≡◌}
use native.Mathlib.Omega.{arith}
use omnicatena.Base.{Bool-cases, if◌then◌else◌, nat_eq, string_eq, ◌==◌}
use omnicatena.Base.Bytes.{Bytes}
use omnicatena.Base.Decimal.{decimal, decimal_ℤ, set_string, set_string-decimal_ℤ}
use omnicatena.Base.Int.{negsuc, pos, sub_ℕ, ℤ, ◌*ℤ◌, ◌+ℤ◌, ◌≤ℤ◌}
use omnicatena.Base.Map.{lookup}
use omnicatena.Chain.Evm.Client.{native_eth}
use omnicatena.Domain.{FeeEstimate, speed_economy, speed_fast}

-- big.Int's Div by 10 is Euclidean: it rounds down.
abbrev pub div10 : ℤ → ℤ
div10 (pos n) = pos (n / 10)
div10 (negsuc n) = negsuc (n / 10)

abbrev pub tip_factor : String → ℕ
tip_factor speed = if speed == speed_fast then 15 else if speed == speed_economy then 8 else 10

unfoldable pub scale_tip : ℤ → String → ℤ
scale_tip tip speed = div10 (tip *ℤ pos (tip_factor speed))

abbrev pub gas_limit : ℕ
gas_limit = 21000

unfoldable pub max_fee_of : ℤ → ℤ → ℤ
max_fee_of base_fee tip = (base_fee *ℤ pos 2) +ℤ tip

-- A header without a base fee counts as one with 0.
abbrev pub base_fee_of : Option ℤ → ℤ
base_fee_of none = pos 0
base_fee_of (some z) = z

unfoldable pub estimate_from : String → ℤ → Option ℤ → FeeEstimate
estimate_from speed tip base_fee =
    let adjusted = scale_tip tip speed in
    let max_fee = max_fee_of (base_fee_of base_fee) adjusted in
    record {
      speed = speed;
      total = record { asset = native_eth; base = some (max_fee *ℤ pos gas_limit) };
      params =
          ("gas_limit", decimal gas_limit)
          ∷ ("max_fee_per_gas", decimal_ℤ max_fee)
          ∷ ("max_priority_fee_per_gas", decimal_ℤ adjusted)
          ∷ [];
    }

-- new(big.Int), then SetString of the parameter, which leaves the number open where it fails; 0 here.
-- A key that the map lacks gives the empty text.
number_or_zero : Option ℤ → ℤ
number_or_zero none = pos 0
number_or_zero (some z) = z

text_or_empty : Option Bytes → Bytes
text_or_empty none = []
text_or_empty (some t) = t

unfoldable pub read_param : String → FeeEstimate → ℤ
unfolding number_or_zero text_or_empty
read_param key fee = number_or_zero (set_string (text_or_empty (lookup key fee.params)))

tip_factor-cases :
    (speed : String)
    → ((speed ≡ speed_fast) × (tip_factor speed ≡ 15))
      ⊎ ((speed ≡ speed_economy) × (tip_factor speed ≡ 8))
      ⊎ (tip_factor speed ≡ 10)
tip_factor-cases speed = elim (Bool-cases (speed == speed_fast)) [
  | inl fast ↦ inl ((string_eq.beq_iff speed speed_fast).0 fast, rw fast refl)
  | inr f ↦ elim (Bool-cases (speed == speed_economy)) [
    | inl economy ↦
        inr (inl ((string_eq.beq_iff speed speed_economy).0 economy, rw (f, economy) refl))
    | inr g ↦ inr (inr (rw (f, g) refl))
  ]
]

scale_tip-pos :
    (n factor : ℕ) (speed : String)
    → tip_factor speed ≡ factor
    → scale_tip (pos n) speed ≡ pos (n * factor / 10)
unfolding scale_tip ◌*ℤ◌
scale_tip-pos n factor speed h = ap (λ (f : ℕ). div10 (pos n *ℤ pos f)) h ∙ scaled (n * factor)
  where
    scaled : (m : ℕ) → div10 (sub_ℕ (m + 0) (n * 0 + 0 * factor)) ≡ pos (m / 10)
    scaled m = ground arith

-- The tip of a speed, rounded down: half as much again for fast, four fifths for economy, and the tip as
-- it is for any other.
abbrev pub Scaled : ℕ → String → ℤ → Type 0
Scaled tip speed cap =
    (speed ≡ "fast" → cap ≡ pos (tip * 15 / 10))
    × (speed ≡ "economy" → cap ≡ pos (tip * 8 / 10))
    × (speed ≢ "fast" → speed ≢ "economy" → cap ≡ pos tip)

pub scale_tip-Scaled : (n : ℕ) (speed : String) → Scaled n speed (scale_tip (pos n) speed)
scale_tip-Scaled n speed = (
  λ e. rw e (scale_tip-pos n 15 "fast" refl),
  λ e. rw e (scale_tip-pos n 8 "economy" refl),
  λ p q. elim (tip_factor-cases speed) [
    | inl (same, _) ↦ absurd (p same)
    | inr (inl (same, _)) ↦ absurd (q same)
    | inr (inr f) ↦ scale_tip-pos n 10 speed f ∙ ap pos (omega arith)
  ],
)

-- For a tip that is not negative, no speed has a smaller tip than economy or a larger one than fast,
-- and a speed other than these two has the tip as it is.
scale_tip_ordered :
    (n : ℕ) (speed : String)
    → (scale_tip (pos n) speed_economy ≤ℤ scale_tip (pos n) speed)
      × (scale_tip (pos n) speed ≤ℤ scale_tip (pos n) speed_fast)
      × (speed ≢ speed_economy → speed ≢ speed_fast → scale_tip (pos n) speed ≡ pos n)
scale_tip_ordered n speed =
    let least = scale_tip-pos n 8 speed_economy refl in
    let most = scale_tip-pos n 15 speed_fast refl in
    elim (tip_factor-cases speed) [
      | inl (same, f) ↦
          let this = scale_tip-pos n 15 speed f in
          (rw (least, this) (omega arith), rw (this, most) (omega arith), λ p q. absurd (q same))
      | inr (inl (same, f)) ↦
          let this = scale_tip-pos n 8 speed f in
          (rw (least, this) (omega arith), rw (this, most) (omega arith), λ p q. absurd (p same))
      | inr (inr f) ↦
          let this = scale_tip-pos n 10 speed f in
          (
            rw (least, this) (omega arith),
            rw (this, most) (omega arith),
            λ p q. this ∙ ap pos (omega arith),
          )
    ]

-- The parameters of an estimate are read back as the numbers that they were made from.
pub read_param-estimate_from :
    (speed : String) (tip : ℤ) (base_fee : Option ℤ)
    → (read_param "max_fee_per_gas" (estimate_from speed tip base_fee)
        ≡ max_fee_of (base_fee_of base_fee) (scale_tip tip speed))
      × (read_param "max_priority_fee_per_gas" (estimate_from speed tip base_fee)
          ≡ scale_tip tip speed)
unfolding read_param estimate_from lookup
read_param-estimate_from speed tip base_fee = (
  ap number_or_zero
      (set_string-decimal_ℤ (max_fee_of (base_fee_of base_fee) (scale_tip tip speed))),
  ap number_or_zero (set_string-decimal_ℤ (scale_tip tip speed)),
)
