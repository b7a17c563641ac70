-- ===== src/Tests/Wallets.antt =====
-- The registry, the repository and the use cases, over a repository in memory.
use mathlib.Core.List.{[], ◌∷◌}
use mathlib.Core.Path.{refl, ◌≡◌}
use omnicatena.App.Transactions.{TransactionService, transfer}
use omnicatena.App.Transactions.Laws.{IsTransferOf, transfer-eq_ok}
use omnicatena.App.Wallets.{WalletService, create}
use omnicatena.App.Wallets.Laws.{IsCreated, create-eq_ok}
use omnicatena.Base.Map.{insert, lookup}
use omnicatena.Base.Result.{ok}
use omnicatena.Chain.Registry
use omnicatena.Chain.Registry.{Registry, adapter-new_registry, new_registry}
use omnicatena.Domain.{
  UnsignedTx, Wallet, account, bare_transaction, no_account, no_amount, pending,
}
use omnicatena.HdWallet.Path.{bip44_path}
use omnicatena.Port.{ChainAdapter, KeyStore, Signer, WalletRepository}
use omnicatena.Repository.Memory
use omnicatena.Repository.Memory.{Wallets, get-save}

abbrev pub no_transaction : UnsignedTx
no_transaction = record {
  chain = "ethereum";
  signing_account = no_account;
  request = record {
    network = record { chain = "ethereum"; env = "local" };
    source = "alice";
    dest = "bob";
    amount = no_amount;
    speed = "fast";
  };
  fee = record { speed = "fast"; total = no_amount; params = [] };
  payload = [];
}

-- An adapter that signs with the account's address for a hash.
abbrev pub plain : ChainAdapter Wallets
plain = record {
  chain = "ethereum";
  derive_account = λ seed path. ok (record { chain = "ethereum"; address = "alice"; path = path });
  balance = λ addr asset s. (ok no_amount, s);
  estimate_fee = λ req s. (ok (record { speed = req.speed; total = no_amount; params = [] }), s);
  build_transfer = λ req s. (ok (record no_transaction { request = req }), s);
  sign = λ tx signer. ok (record { chain = tx.chain; raw = []; hash = tx.signing_account.address });
  broadcast = λ tx s. (ok tx.hash, s);
  get_transaction = λ hash s. (ok (bare_transaction "ethereum" hash pending), s);
}

abbrev pub alice : Wallet
alice = record {
  id = "w7";
  label = "first";
  created_at = 7;
  accounts = record { chain = "ethereum"; address = "alice"; path = bip44_path "ethereum" } ∷ [];
}

abbrev idle_signer : Signer
idle_signer = record { sign = λ account digest. ok digest; public_key = λ account. ok [] }

abbrev pub open_keys : KeyStore Wallets
open_keys = record {
  create = λ id pass s. (ok (1 ∷ []), s);
  unlock = λ id pass s. (ok (1 ∷ []), s);
  signer = λ id pass s. (ok idle_signer, s);
}

abbrev pub in_memory : WalletRepository Wallets
in_memory = record { save = Memory.save; get = Memory.get; list = Memory.list (λ m. m) }

abbrev pub transfers : TransactionService Wallets (Unit {0})
transfers = record { registry = new_registry (plain ∷ []); keys = open_keys; repo = in_memory }

abbrev pub saved_alice : Wallets
saved_alice = ("w7", alice) ∷ []

pub transfer_alice :
    transfer transfers "w7" [] no_transaction.request saved_alice ≡ (ok "alice", saved_alice)
unfolding transfer account Memory.get lookup new_registry Registry.adapter insert
transfer_alice = refl

transfer-eq_ok_example :
    IsTransferOf transfers
      (plain ∷ [])
      "w7"
      []
      no_transaction.request
      saved_alice
      saved_alice
      "alice"
transfer-eq_ok_example =
    transfer-eq_ok transfers (plain ∷ []) refl "w7" [] no_transaction.request saved_alice
      saved_alice "alice" transfer_alice

abbrev pub wallets : WalletService Wallets (Unit {0})
wallets = record {
  registry = new_registry (plain ∷ []);
  keys = open_keys;
  repo = in_memory;
  now = λ s. (ok 7, s);
  format_id = λ n. "w7";
  range = λ m. m;
}

create_alice : create wallets "first" [] [] ≡ (ok alice, saved_alice)
unfolding create omnicatena.App.Wallets.derive_accounts Memory.save new_registry Registry.adapter
    Registry.supported insert lookup
create_alice = refl

create-eq_ok_example : IsCreated wallets "first" [] alice [] saved_alice
create-eq_ok_example = create-eq_ok wallets "first" [] alice [] saved_alice create_alice
