-- ===== src/Chain/Bitcoin/Coins.antt =====
-- The coins of internal/adapter/chain/bitcoin/adapter.go: `utxo`, the loops of `fetchUTXOs` and
-- `spendable`, and `selectUTXOs`. A slice that is filtered or sorted in place is a new list: no
-- caller looks at the old one again.
pub mod Loop
pub mod Selection
use Prim.Native.Nat.{ℕ}
use Prim.Native.String.{String}
use mathlib.Core.Bool.{Bool, false, true, ◌&&◌}
use mathlib.Core.List.{List, [], ◌++◌, ◌∷◌}
use mathlib.Core.Option.{none, some}
use omnicatena.Base.{if◌then◌else◌}
use omnicatena.Base.Bytes.{Bytes, hex_decode}
use omnicatena.Base.Int.{leb_ℤ, ltb_ℤ, pos, wrap64, ℤ, ◌+ℤ◌, ◌-ℤ◌}
use omnicatena.Base.Result.{Error, Result, err, errorf, int, ok}

pub record Utxo : Type 0 where
  pub txid : String
  pub vout : ℕ
  pub satoshis : ℤ
  pub script_pub_key : Bytes
  pub coinbase : Bool
  pub height : ℤ

-- An element of scantxoutset's `unspents`; `F` is float64.
pub record Unspent (F : Type 0) : Type 0 where
  pub txid : String
  pub vout : ℕ
  pub script_pub_key : Bytes
  pub amount : F
  pub coinbase : Bool
  pub height : ℤ

-- The body of the loop of fetchUTXOs: an entry that cannot be read is skipped. `new_amount` is
-- btcutil.NewAmount.
read_unspent : {F : Type 0} → (F → Result ℤ) → Unspent F → List Utxo
read_unspent new_amount u = elim (new_amount u.amount) [
  | err e ↦ []
  | ok amt ↦ elim (hex_decode u.script_pub_key) [
    | none ↦ []
    | some spk ↦
        record {
          txid = u.txid;
          vout = u.vout;
          satoshis = amt;
          script_pub_key = spk;
          coinbase = u.coinbase;
          height = u.height;
        }
        ∷ []
  ]
]

unfoldable pub read_unspents : {F : Type 0} → (F → Result ℤ) → List (Unspent F) → List Utxo
unfolding read_unspent
read_unspents new_amount [] = []
read_unspents new_amount (u ∷ rest) = read_unspent new_amount u ++ read_unspents new_amount rest

-- The test of spendable's loop, on `int64`s.
unfoldable pub immature : ℤ → Utxo → Bool
immature tip u = u.coinbase && ltb_ℤ (wrap64 (tip -ℤ u.height)) (pos 99)

unfoldable pub spendable : ℤ → List Utxo → List Utxo
unfolding immature
spendable tip [] = []
spendable tip (u ∷ rest) = if immature tip u then spendable tip rest else u ∷ spendable tip rest

pub insufficient : ℤ → ℤ → Error
insufficient need total =
    errorf "insufficient funds: need %d sat, have %d sat" (int need ∷ int total ∷ [])

-- The loop of selectUTXOs over the sorted slice; `total` is an `int64`.
unfoldable pub pick : ℤ → List Utxo → ℤ → List Utxo → Result (List Utxo × ℤ)
unfolding insufficient
pick need selected total [] = err (insufficient need total)
pick need selected total (u ∷ rest) =
    let total' = wrap64 (total +ℤ u.satoshis) in
    elim (leb_ℤ need total') [
      | true ↦ ok (selected ++ u ∷ [], total')
      | false ↦ pick need (selected ++ u ∷ []) total' rest
    ]

-- `sort` is what sort.Slice makes of a slice under the order "more satoshis first".
unfoldable pub select_utxos : (List Utxo → List Utxo) → List Utxo → ℤ → Result (List Utxo × ℤ)
select_utxos sort utxos need = pick need [] (pos 0) (sort utxos)
