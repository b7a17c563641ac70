-- ===== src/App/Transactions/Laws.antt =====
-- What a transfer that succeeds did: internal/app/transaction_service.go.
use Prim.Native.String.{String}
use mathlib.Core.List.{List, Mem}
use mathlib.Core.Option.{Option, none, some}
use mathlib.Core.Path.{sym, ◌≡◌}
use omnicatena.App.Transactions.{TransactionService, no_account_for, transfer}
use omnicatena.Base.Bytes.{Bytes}
use omnicatena.Base.Exec.{bind-inv, lift-inv}
use omnicatena.Base.Result.{ok}
use omnicatena.Chain.Registry
use omnicatena.Chain.Registry.{Registry, adapter-new_registry, new_registry}
use omnicatena.Domain.{
  Account, ChainId, SignedTx, TransferRequest, UnsignedTx, Wallet, account, account_sound,
}
use omnicatena.Port.{ChainAdapter, Signer}

no_account_for-inv :
    (chain : ChainId) (found : Option Account) {acc : Account}
    → no_account_for chain found ≡ ok acc
    → found ≡ some acc
unfolding no_account_for
no_account_for-inv chain none h = absurd (cc)
no_account_for-inv chain (some a) h = cc

module _ {S W : Type 0} (service : TransactionService S W) (adapters : List (ChainAdapter S)) where
  -- The steps of a transfer of `req` from the wallet `id`, from the state `s` to the state `t`, in
  -- their order. Each starts from the state that the one before it left.
  pub record IsTransferOf (id : String) (passphrase : Bytes) (req : TransferRequest) (s t : S)
      (hash : String) : Type 0 where
    pub adapter : ChainAdapter S
    pub wallet : Wallet
    pub account : Account
    pub signer : Signer
    pub unsigned : UnsignedTx
    pub signed : SignedTx
    pub after_get : S
    pub after_unlock : S
    pub after_build : S
    pub found : Registry.adapter (new_registry {W = W} adapters) req.network.chain ≡ ok adapter
    pub serves : adapter.chain ≡ req.network.chain
    pub read : service.repo.get id s ≡ (ok wallet, after_get)
    pub own : Mem account wallet.accounts
    pub on_chain : account.chain ≡ req.network.chain
    pub unlocked : service.keys.signer id passphrase after_get ≡ (ok signer, after_unlock)
    pub built : adapter.build_transfer req after_unlock ≡ (ok unsigned, after_build)
    pub sealed : adapter.sign (record unsigned { signing_account = account }) signer ≡ ok signed
    pub sent : adapter.broadcast signed after_build ≡ (ok hash, t)

  -- A transfer that returns a hash went through every step, in order: the hash is the answer of the
  -- broadcast of a transaction that an adapter of the request's chain built for the request and
  -- signed with the keys that the passphrase unlocks, as an account of the stored wallet on that
  -- chain. The service's registry is one that `new_registry` makes.
  pub transfer-eq_ok :
      service.registry ≡ new_registry adapters
      → (id : String) (passphrase : Bytes) (req : TransferRequest) (s t : S) (hash : String)
      → transfer service id passphrase req s ≡ (ok hash, t)
      → IsTransferOf id passphrase req s t hash
  unfolding transfer
  transfer-eq_ok r id passphrase req s t hash h =
      lift-inv (Registry.adapter service.registry req.network.chain) _ h λ a e0 h0.
        bind-inv (service.repo.get id) _ h0 λ w s1 e1 h1.
          lift-inv (no_account_for req.network.chain (account w req.network.chain)) _ h1
            λ acc e2 h2. bind-inv (service.keys.signer id passphrase) _ h2 λ signer s2 e3 h3.
              bind-inv (a.build_transfer req) _ h3 λ u s3 e4 h4.
                lift-inv (a.sign (record u { signing_account = acc }) signer) _ h4 λ signed e5 h5.
                  let found : Registry.adapter (new_registry {W = W} adapters) req.network.chain
                      ≡ ok a =
                    rw (sym r) e0 in
                  let (own, on_chain) =
                    account_sound w req.network.chain
                      (no_account_for-inv req.network.chain (account w req.network.chain) e2) in
                  record {
                    adapter = a;
                    wallet = w;
                    account = acc;
                    signer = signer;
                    unsigned = u;
                    signed = signed;
                    after_get = s1;
                    after_unlock = s2;
                    after_build = s3;
                    found = found;
                    serves = (adapter-new_registry W adapters req.network.chain).1 a found;
                    read = e1;
                    own = own;
                    on_chain = on_chain;
                    unlocked = e3;
                    built = e4;
                    sealed = e5;
                    sent = h5;
                  }
