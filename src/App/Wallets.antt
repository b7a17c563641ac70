-- ===== src/App/Wallets.antt =====
-- internal/app/wallet_service.go. `S` is the state of the world behind the ports.
pub mod Laws
pub mod Solana
pub mod Opening
pub mod Finding
use Prim.Native.Nat.{ℕ}
use Prim.Native.String.{String}
use mathlib.Core.Bool.{Bool, true}
use mathlib.Core.List.{List, [], ◌++◌, ◌∷◌}
use mathlib.Core.Option.{Option, none, some}
use omnicatena.Base.Bytes.{Bytes}
use omnicatena.Base.Exec.{Exec, lift, pure, wrapped, ◌>>=◌, ◌>>◌}
use omnicatena.Base.Map.{Map}
use omnicatena.Base.Result.{Result, err, errorf, ok, str}
use omnicatena.Chain.Registry
use omnicatena.Chain.Registry.{Registry, adapter}
use omnicatena.Domain.{Account, Amount, ChainId, Wallet, account, no_asset}
use omnicatena.HdWallet.Path.{bip44_path}
use omnicatena.Port.{ChainAdapter, KeyStore, WalletRepository}
use omnicatena.Repository.Memory.{save}

-- `now` is time.Now() in nanoseconds, and `format_id n` is the text w<n>.
pub record WalletService (S W : Type 0) : Type 0 where
  pub registry : Registry S W
  pub keys : KeyStore S
  pub repo : WalletRepository S
  pub now : Exec S ℕ
  pub format_id : ℕ → String
  pub range : Map ChainId (ChainAdapter S) → Map ChainId (ChainAdapter S)

module _ {S W : Type 0} (service : WalletService S W) where
  -- The body of the loop over the supported chains: a chain that fails is skipped.
  account_on : Bytes → ChainId → List Account
  account_on seed chain = elim (Registry.adapter service.registry chain) [
    | err e ↦ []
    | ok adapter ↦ elim (adapter.derive_account seed (bip44_path chain)) [
      | err e ↦ []
      | ok account ↦ account ∷ []
    ]
  ]

  unfoldable pub derive_accounts : Bytes → List ChainId → List Account
  unfolding account_on
  derive_accounts seed [] = []
  derive_accounts seed (chain ∷ rest) = account_on seed chain ++ derive_accounts seed rest

  unfoldable pub create : String → Bytes → Exec S Wallet
  create label passphrase = do
    stamp ← service.now
    created ← service.now
    let id = service.format_id stamp
    let w : Wallet = record { id = id; label = label; created_at = created; accounts = [] }
    wrapped "wallet: save: %w" [] (service.repo.save w)
    seed ← wrapped "wallet: create keys: %w" [] (service.keys.create id passphrase)
    let full : Wallet = record {
      id = id;
      label = label;
      created_at = created;
      accounts = derive_accounts seed (Registry.supported service.range service.registry);
    }
    wrapped "wallet: save accounts: %w" [] (service.repo.save full)
    pure full

  unfoldable pub get : String → Exec S Wallet
  get id = service.repo.get id

  unfoldable pub list : Exec S (List Wallet)
  list = service.repo.list

  account_or_error : ChainId → Option Account → Result Account
  account_or_error chain none = err (errorf "wallet: no account for chain %s" (str chain ∷ []))
  account_or_error chain (some a) = ok a

  unfoldable pub balance : String → ChainId → Exec S Amount
  unfolding account_or_error
  balance wallet_id chain = do
    wallet ← service.repo.get wallet_id
    acc ← lift (account_or_error chain (account wallet chain))
    adapter ← lift (Registry.adapter service.registry chain)
    adapter.balance acc.address (record no_asset { native = true })
