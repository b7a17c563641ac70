-- ===== src/HdWallet/Path/Laws.antt =====
-- A path as it is written, from its components, and what `parse_path` makes of it.
use Prim.Native.Nat.{ℕ, ◌%◌, ◌+◌, ◌-◌, ◌<◌, ◌^◌}
use mathlib.Core.Bool.{Bool, false, true}
use mathlib.Core.List.{List, [], append_assoc, map, ◌++◌, ◌∷◌}
use mathlib.Core.Logic.{◌≢◌}
use mathlib.Core.Option.{some}
use mathlib.Core.Path.{ap, refl, ◌∙◌, ◌≡◌}
use native.Mathlib.Omega.{arith}
use omnicatena.Base.{All, All-append, if◌then◌else◌}
use omnicatena.Base.Bytes.{Bytes, Lacks, codes, join, split-join}
use omnicatena.Base.Decimal.{
  IsDigit, StartsWithDigit, decimal, decimal-All-IsDigit, decimal-StartsWithDigit, parse_uint,
  parse_uint-decimal,
}
use omnicatena.Base.Result.{ok}
use omnicatena.Domain.{ChainId}
use omnicatena.HdWallet.Path.{
  bip44_path, coin_type, cut_mark, parse_component, parse_components, parse_path,
}

-- A component: its number, and whether it carries the hardening mark.
abbrev pub Component : Type 0
Component = ℕ × Bool

abbrev pub print_component : Component → Bytes
print_component (n, true) = decimal n ++ b'\'' ∷ []
print_component (n, false) = decimal n

-- The text m/n₁/n₂'/… of a path.
abbrev pub print_path : List Component → Bytes
print_path cs = b'm' ∷ b'/' ∷ join (map print_component cs) b'/'

-- The BIP-32 index that a component stands for, in 32 bits.
abbrev pub index_of : Component → ℕ
index_of (n, true) = (n + 2 ^ 31) % 2 ^ 32
index_of (n, false) = n

abbrev pub FitsU32 : Component → Type 0
FitsU32 (n, _) = n < 2 ^ 32

cut_mark-decimal : (s : Bytes) → All IsDigit s → StartsWithDigit s → cut_mark s ≡ (s, false)
unfolding cut_mark
cut_mark-decimal [] d h = absurd h
cut_mark-decimal (c ∷ []) d h = ground arith
cut_mark-decimal (c ∷ e ∷ s) (hc, hs) h = rw (cut_mark-decimal (e ∷ s) hs hs.0)

cut_mark-marked : (s : Bytes) → cut_mark (s ++ b'\'' ∷ []) ≡ (s, true)
unfolding cut_mark
cut_mark-marked [] = refl
cut_mark-marked (c ∷ []) = refl
cut_mark-marked (c ∷ e ∷ s) = rw (cut_mark-marked (e ∷ s))

parse_component-eq_ok :
    (s p : Bytes) (hardened : Bool) (n : ℕ)
    → cut_mark s ≡ (p, hardened)
    → parse_uint (2 ^ 32 - 1) p ≡ some n
    → parse_component s ≡ ok (if hardened then (n + 2 ^ 31) % 2 ^ 32 else n)
unfolding parse_component
parse_component-eq_ok s p hardened n h k = ground arith

parse_component-print :
    (c : Component) → FitsU32 c → parse_component (print_component c) ≡ ok (index_of c)
parse_component-print (n, true) h =
    parse_component-eq_ok _ (decimal n) true n (cut_mark-marked (decimal n))
      (parse_uint-decimal (2 ^ 32 - 1) n (omega arith))
parse_component-print (n, false) h =
    parse_component-eq_ok _ (decimal n) false n
      (cut_mark-decimal (decimal n) (decimal-All-IsDigit n) (decimal-StartsWithDigit n))
      (parse_uint-decimal (2 ^ 32 - 1) n (omega arith))

parse_components-print :
    (cs : List Component)
    → All FitsU32 cs
    → parse_components (map print_component cs) ≡ ok (map index_of cs)
unfolding parse_components
parse_components-print [] h = refl
parse_components-print (c ∷ cs) (hc, hcs) =
    rw (parse_component-print c hc, parse_components-print cs hcs)

digits-Lacks : (s : Bytes) → All IsDigit s → Lacks b'/' s
digits-Lacks [] h = tt
digits-Lacks (c ∷ s) (hc, hs) = (omega arith, digits-Lacks s hs)

print_component-Lacks : (c : Component) → Lacks b'/' (print_component c)
print_component-Lacks (n, true) =
    All-append _ (decimal n) (b'\'' ∷ []) (digits-Lacks _ (decimal-All-IsDigit n)) (omega arith)
print_component-Lacks (n, false) = digits-Lacks _ (decimal-All-IsDigit n)

map-Lacks : (cs : List Component) → All (Lacks b'/') (map print_component cs)
map-Lacks [] = tt
map-Lacks (c ∷ cs) = (print_component-Lacks c, map-Lacks cs)

-- Every path of at least one component, each number below 2³², is parsed to the indices that its
-- components stand for: a marked number has 2³¹ added modulo 2³².
pub parse_path-print_path :
    (cs : List Component)
    → cs ≢ []
    → All FitsU32 cs
    → parse_path (print_path cs) ≡ ok (map index_of cs)
unfolding parse_path
parse_path-print_path [] h _ = absurd (h refl)
parse_path-print_path (c ∷ cs) h fits =
    rw (split-join (map print_component (c ∷ cs)) b'/' (cc) (map-Lacks (c ∷ cs)))
      (parse_components-print (c ∷ cs) fits)

-- The components of the path that a wallet uses on a chain.
abbrev pub bip44_components : ChainId → List Component
bip44_components chain =
    (44, true) ∷ (coin_type chain, true) ∷ (0, true) ∷ (0, false) ∷ (0, false) ∷ []

coin_type-lt : (chain : ChainId) → coin_type chain < 2 ^ 31
unfolding coin_type
coin_type-lt chain = ground arith

bip44_text :
    (d : Bytes)
    → codes "m/44'/" ++ d ++ codes "'/0'/0/0"
      ≡ b'm'
        ∷ b'/'
        ∷ join
            (print_component (44, true)
              ∷ (d ++ b'\'' ∷ [])
              ∷ print_component (0, true)
              ∷ print_component (0, false)
              ∷ print_component (0, false)
              ∷ [])
            b'/'
unfolding decimal
bip44_text d = simp append_assoc

bip44_path-print : (chain : ChainId) → bip44_path chain ≡ print_path (bip44_components chain)
unfolding bip44_path
bip44_path-print chain = bip44_text (decimal (coin_type chain))

-- The path that a wallet uses on a chain is parsed to the indices 44', coin type', 0', 0 and 0.
pub parse_path-bip44_path :
    (chain : ChainId)
    → parse_path (bip44_path chain)
      ≡ ok ((44 + 2 ^ 31) ∷ (coin_type chain + 2 ^ 31) ∷ (2 ^ 31) ∷ 0 ∷ 0 ∷ [])
parse_path-bip44_path chain = rw (bip44_path-print chain) (
    parse_path-print_path (bip44_components chain) (cc) (omega (arith, coin_type-lt chain))
    ∙ ap (λ (i : ℕ). ok ((44 + 2 ^ 31) ∷ i ∷ (2 ^ 31) ∷ 0 ∷ 0 ∷ []))
        (omega (arith, coin_type-lt chain)))
