-- ===== src/Domain.antt =====
-- internal/domain: the chain-agnostic types that every port and adapter is built around.
-- A Go string that is only compared is a `String`; one that the program walks is its `Bytes`.
-- A nil `*big.Int` is `none`.
use Prim.Native.Nat.{ℕ}
use Prim.Native.String.{String}
use mathlib.Core.Bool.{Bool, false}
use mathlib.Core.List.{List, Mem, [], mem-cons_of_mem, mem-cons_self, ◌∷◌}
use mathlib.Core.Logic.{inl, inr}
use mathlib.Core.Option.{Option, none, some, some-injective}
use mathlib.Core.Path.{ap, subst, sym, ◌∙◌, ◌≡◌}
use omnicatena.Base.{Bool-cases, if◌then◌else◌, string_eq, ◌==◌}
use omnicatena.Base.Bytes.{Bytes}
use omnicatena.Base.Int.{ℤ}
use omnicatena.Base.Map.{Map}
use omnicatena.Base.Result.{Result, err, ok, sentinel}

-- domain.ChainID, a string type
abbrev pub ChainId : Type 0
ChainId = String

abbrev pub chain_bitcoin : ChainId
chain_bitcoin = "bitcoin"

abbrev pub chain_ethereum : ChainId
chain_ethereum = "ethereum"

abbrev pub chain_base : ChainId
chain_base = "base"

abbrev pub chain_solana : ChainId
chain_solana = "solana"

abbrev pub chain_tron : ChainId
chain_tron = "tron"

abbrev pub env_local : String
env_local = "local"

pub record Network : Type 0 where
  pub chain : ChainId
  pub env : String

pub record Asset : Type 0 where
  pub symbol : String
  pub decimals : ℕ
  pub native : Bool
  pub contract_address : String

pub record Amount : Type 0 where
  pub asset : Asset
  pub base : Option ℤ

-- the zero values
abbrev pub no_asset : Asset
no_asset = record { symbol = ""; decimals = 0; native = false; contract_address = "" }

abbrev pub no_amount : Amount
no_amount = record { asset = no_asset; base = none }

-- A method call on `a.Base`: a nil pointer panics.
abbrev pub base_of : Amount → Result ℤ
base_of a = elim a.base [ none ↦ err (sentinel "nil pointer dereference") | some z ↦ ok z ]

abbrev pub speed_economy : String
speed_economy = "economy"

abbrev pub speed_standard : String
speed_standard = "standard"

abbrev pub speed_fast : String
speed_fast = "fast"

pub record FeeEstimate : Type 0 where
  pub speed : String
  pub total : Amount
  pub params : Map String Bytes

abbrev pub Address : Type 0
Address = String

pub record Account : Type 0 where
  pub chain : ChainId
  pub address : Address
  pub path : Bytes

abbrev pub no_account : Account
no_account = record { chain = ""; address = ""; path = [] }

pub record Wallet : Type 0 where
  pub id : String
  pub label : String
  pub created_at : ℕ
  pub accounts : List Account

-- The loop of `Wallet.Account`.
unfoldable pub find_account : ChainId → List Account → Option Account
find_account chain [] = none
find_account chain (a ∷ rest) = if a.chain == chain then some a else find_account chain rest

unfoldable pub account : Wallet → ChainId → Option Account
unfolding find_account
account w chain = find_account chain w.accounts

pub data TxStatus : Type 0 where
  pending confirmed failed unknown : TxStatus

pub record TransferRequest : Type 0 where
  pub network : Network
  pub source : Address
  pub dest : Address
  pub amount : Amount
  pub speed : String

pub record UnsignedTx : Type 0 where
  pub chain : ChainId
  pub signing_account : Account
  pub request : TransferRequest
  pub fee : FeeEstimate
  pub payload : Bytes

pub record SignedTx : Type 0 where
  pub chain : ChainId
  pub raw : Bytes
  pub hash : String

pub record Transaction : Type 0 where
  pub chain : ChainId
  pub hash : String
  pub status : TxStatus
  pub confirmations : ℕ
  pub block_height : ℕ
  pub fee : Amount

-- `domain.Transaction{Chain: chain, Hash: hash, Status: status}`
abbrev pub bare_transaction : ChainId → String → TxStatus → Transaction
bare_transaction chain hash status = record {
  chain = chain;
  hash = hash;
  status = status;
  confirmations = 0;
  block_height = 0;
  fee = no_amount;
}

-- domain.TxEventType
pub data TxEventType : Type 0 where
  inbound outbound confirmation : TxEventType

pub record TxEvent : Type 0 where
  pub kind : TxEventType
  pub chain : ChainId
  pub address : Address
  pub counterparty : Address
  pub hash : String
  pub amount : Amount
  pub status : TxStatus
  pub block_height : ℕ
  pub timestamp : ℤ

find_account_sound :
    (chain : ChainId) (accounts : List Account) {acc : Account}
    → find_account chain accounts ≡ some acc
    → Mem acc accounts × (acc.chain ≡ chain)
unfolding find_account
find_account_sound chain [] h = absurd (cc)
find_account_sound chain (a ∷ rest) {acc} h = elim (Bool-cases (a.chain == chain)) [
  | inl same ↦
      let e : a ≡ acc = some-injective a acc (rw same at h) in
      (
        subst (λ x. Mem x (a ∷ rest)) e (mem-cons_self {a = a} {l = rest}),
        ap (λ (x : Account). x.chain) (sym e) ∙ (string_eq.beq_iff a.chain chain).0 same,
      )
  | inr other ↦
      let (m, e) = find_account_sound chain rest (rw other at h) in (mem-cons_of_mem a m, e)
]

pub account_sound :
    (w : Wallet) (chain : ChainId) {acc : Account}
    → account w chain ≡ some acc
    → Mem acc w.accounts × (acc.chain ≡ chain)
unfolding account
account_sound w chain = find_account_sound chain w.accounts

pub base_of-inv : (a : Amount) {z : ℤ} → base_of a ≡ ok z → a.base ≡ some z
base_of-inv a {z} h = go' a.base h
  where
    go' :
        (b : Option ℤ)
        → ◌≡◌ {A = Result ℤ}
            (elim b [ none ↦ err (sentinel "nil pointer dereference") | some z ↦ ok z ])
            (ok z)
        → b ≡ some z
    go' none e = absurd (cc)
    go' (some y) e = cc
