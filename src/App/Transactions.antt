-- ===== src/App/Transactions.antt =====
-- internal/app/transaction_service.go.
pub mod Laws
use Prim.Native.String.{String}
use mathlib.Core.List.{[], ◌∷◌}
use mathlib.Core.Option.{Option, none, some}
use omnicatena.Base.Bytes.{Bytes}
use omnicatena.Base.Exec.{Exec, lift, ◌>>=◌, ◌>>◌}
use omnicatena.Base.Result.{Result, err, errorf, ok, str}
use omnicatena.Chain.Registry
use omnicatena.Chain.Registry.{Registry, adapter}
use omnicatena.Domain.{Account, ChainId, FeeEstimate, Transaction, TransferRequest, account}
use omnicatena.Port.{KeyStore, WalletRepository}

pub record TransactionService (S W : Type 0) : Type 0 where
  pub registry : Registry S W
  pub keys : KeyStore S
  pub repo : WalletRepository S

no_account_for : ChainId → Option Account → Result Account
no_account_for chain none = err (errorf "transaction: no account for chain %s" (str chain ∷ []))
no_account_for chain (some a) = ok a

module _ {S W : Type 0} (service : TransactionService S W) where
  unfoldable pub estimate_fee : TransferRequest → Exec S FeeEstimate
  estimate_fee req = do
    adapter ← lift (Registry.adapter service.registry req.network.chain)
    adapter.estimate_fee req

  unfoldable pub transfer : String → Bytes → TransferRequest → Exec S String
  unfolding no_account_for
  transfer wallet_id passphrase req = do
    adapter ← lift (Registry.adapter service.registry req.network.chain)
    wallet ← service.repo.get wallet_id
    acc ← lift (no_account_for req.network.chain (account wallet req.network.chain))
    signer ← service.keys.signer wallet_id passphrase
    unsigned ← adapter.build_transfer req
    signed ← lift (adapter.sign (record unsigned { signing_account = acc }) signer)
    adapter.broadcast signed

  unfoldable pub status : ChainId → String → Exec S Transaction
  status chain hash = do
    adapter ← lift (Registry.adapter service.registry chain)
    adapter.get_transaction hash
