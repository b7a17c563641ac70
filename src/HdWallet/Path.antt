-- ===== src/HdWallet/Path.antt =====
-- `parsePath` of internal/hdwallet/hdwallet.go, and `bip44Path` of internal/app/wallet_service.go.
pub mod Laws
use Prim.Native.Nat.{ℕ, ◌%◌, ◌+◌, ◌-◌, ◌^◌}
use mathlib.Core.Bool.{Bool, false, true, ◌&&◌, ◌||◌}
use mathlib.Core.List.{List, [], ◌++◌, ◌∷◌}
use mathlib.Core.Option.{Option, none, some}
use omnicatena.Base.{eqb, if◌then◌else◌, string_eq, ◌==◌}
use omnicatena.Base.Bytes.{Bytes, codes, split}
use omnicatena.Base.Decimal.{decimal, parse_uint}
use omnicatena.Base.Result.{Error, Result, bytes, err, errorf, ok, ◌>>=◌, ◌>>◌}
use omnicatena.Domain.{ChainId, chain_base, chain_ethereum, chain_solana, chain_tron}

abbrev pub hardened_start : ℕ
hardened_start = 2 ^ 31

-- strings.HasSuffix(p, "'") with p[:len(p)-1]: whether the mark was there, and what is left.
cut_mark : Bytes → Bytes × Bool
cut_mark [] = ([], false)
cut_mark (c ∷ []) = if eqb c b'\'' then ([], true) else (c ∷ [], false)
cut_mark (c ∷ d ∷ s) = let (p, hardened) = cut_mark (d ∷ s) in (c ∷ p, hardened)

bad_component : Bytes → Error
bad_component p = errorf "hdwallet: invalid path component %q" (bytes p ∷ [])

-- One round of the loop: `idx += HardenedKeyStart` is a sum of `uint32`s.
parse_component : Bytes → Result ℕ
parse_component part =
    let (p, hardened) = cut_mark part in
    elim (parse_uint (2 ^ 32 - 1) p) [
      | none ↦ err (bad_component p)
      | some n ↦ ok (if hardened then (n + hardened_start) % 2 ^ 32 else n)
    ]

parse_components : List Bytes → Result (List ℕ)
parse_components [] = ok []
parse_components (p ∷ parts) = do
  idx ← parse_component p
  rest ← parse_components parts
  ok (idx ∷ rest)

unfoldable pub parse_path : Bytes → Result (List ℕ)
unfolding parse_components parse_component cut_mark bad_component
parse_path (b ∷ c ∷ rest) =
    if eqb b b'm' && eqb c b'/'
    then parse_components (split rest b'/')
    else err (errorf "hdwallet: path must start with m/: %q" (bytes (b ∷ c ∷ rest) ∷ []))
parse_path s = err (errorf "hdwallet: path must start with m/: %q" (bytes s ∷ []))

-- bip44CoinType[chain], 0 for a chain that the map lacks
unfoldable pub coin_type : ChainId → ℕ
coin_type chain =
    if chain == chain_ethereum || chain == chain_base
    then 60
    else if chain == chain_solana
    then 501
    else if chain == chain_tron
    then 195
    else 0

unfoldable pub bip44_path : ChainId → Bytes
bip44_path chain = codes "m/44'/" ++ decimal (coin_type chain) ++ codes "'/0'/0/0"
