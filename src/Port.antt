-- ===== src/Port.antt =====
-- internal/port: the interfaces between the use cases and what they drive. `S` is the state of the
-- world that an implementation talks to. A signer keeps no state.
use Prim.Native.Nat.{ℕ}
use Prim.Native.String.{String}
use mathlib.Core.List.{List}
use mathlib.Core.Option.{Option}
use omnicatena.Base.Bytes.{Bytes}
use omnicatena.Base.Exec.{Exec}
use omnicatena.Base.Result.{Error, Result}
use omnicatena.Domain.{
  Account, Address, Amount, Asset, ChainId, FeeEstimate, SignedTx, Transaction, TransferRequest,
  TxEvent, UnsignedTx, Wallet,
}

pub record Signer : Type 0 where
  pub sign : Account → Bytes → Result Bytes
  pub public_key : Account → Result Bytes

pub record ChainAdapter (S : Type 0) : Type 0 where
  pub chain : ChainId
  pub derive_account : Bytes → Bytes → Result Account
  pub balance : Address → Asset → Exec S Amount
  pub estimate_fee : TransferRequest → Exec S FeeEstimate
  pub build_transfer : TransferRequest → Exec S UnsignedTx
  pub sign : UnsignedTx → Signer → Result SignedTx
  pub broadcast : SignedTx → Exec S String
  pub get_transaction : String → Exec S Transaction

-- What a `select` on a channel of events and on a context gives: an event, the channel closed, or the
-- context cancelled, with its error.
pub data Selected : Type 0 where
  received : TxEvent → Selected
  closed : Selected
  cancelled : Error → Selected

-- The channel that `watch` returns is the list of what the selects on it and on the context give, in
-- turn, as far as a run goes.
pub record ChainWatcher (S : Type 0) : Type 0 where
  pub chain : ChainId
  pub watch : List Address → Exec S (List Selected)

pub record KeyStore (S : Type 0) : Type 0 where
  pub create : String → Bytes → Exec S Bytes
  pub unlock : String → Bytes → Exec S Bytes
  pub signer : String → Bytes → Exec S Signer

pub record WalletRepository (S : Type 0) : Type 0 where
  pub save : Wallet → Exec S (Unit {0})
  pub get : String → Exec S Wallet
  pub list : Exec S (List Wallet)

pub record TransactionRepository (S : Type 0) : Type 0 where
  pub save_event : String → TxEvent → Exec S (Unit {0})

pub record TxEventPublisher (S : Type 0) : Type 0 where
  pub publish : TxEvent → Exec S (Unit {0})

pub record ChainCursorStore (S : Type 0) : Type 0 where
  pub get : ChainId → Exec S (Option ℕ)
  pub set : ChainId → ℕ → Exec S (Unit {0})
