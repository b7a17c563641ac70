-- ===== src/Tests/Opening.antt =====
-- A wallet created over the repository and the key store in memory.
use Prim.Native.Nat.{ℕ}
use Prim.Native.String.{String}
use mathlib.Core.List.{Memᴰ, [], ◌∷◌}
use mathlib.Core.Logic.{◌≢◌}
use mathlib.Core.Path.{ap, refl, sym, ◌≡◌}
use omnicatena.App.Wallets.{WalletService, create}
use omnicatena.App.Wallets.Laws.{DerivedOn}
use omnicatena.App.Wallets.Opening.{KeepsSeeds, created_opens}
use omnicatena.Base.Bytes.{Bytes, codes}
use omnicatena.Base.Exec.{Exec}
use omnicatena.Base.Map.{Map}
use omnicatena.Base.Result.{err, ok, sentinel}
use omnicatena.Chain.Registry
use omnicatena.Chain.Registry.{Registry, new_registry}
use omnicatena.Domain.{Account, ChainId, Wallet, no_amount}
use omnicatena.HdWallet.Path.{bip44_path}
use omnicatena.Keystore.Contract.{IsKeyStore}
use omnicatena.Keystore.Memory.{Seeds, unlock-create}
use omnicatena.Keystore.Stores.{memory_store, memory_store-IsKeyStore}
use omnicatena.Port.{ChainAdapter, KeyStore, WalletRepository}
use omnicatena.Repository.Memory
use omnicatena.Repository.Memory.{Wallets}
use omnicatena.Tests.Keys.{toy, toy-IsAead}
use omnicatena.Tests.Solana.{toy_ed, toy_hmac}
use omnicatena.Tests.Transfers.{index_keys, plain_curve}

record Both : Type 0 where
  wallets : Wallets
  seeds : Seeds ℕ

abbrev on_wallets {ℓ} : {A : Type ℓ} → Exec Wallets A → Exec Both A
on_wallets m s = let (r, t) = m s.wallets in (r, record s { wallets = t })

abbrev on_seeds {ℓ} : {A : Type ℓ} → Exec (Seeds ℕ) A → Exec Both A
on_seeds m s = let (r, t) = m s.seeds in (r, record s { seeds = t })

abbrev box : KeyStore (Seeds ℕ)
box = memory_store toy toy_hmac index_keys plain_curve toy_ed

abbrev seeds_of_both : KeyStore Both
seeds_of_both = record {
  create = λ id pass. on_seeds (box.create id pass);
  unlock = λ id pass. on_seeds (box.unlock id pass);
  signer = λ id pass. on_seeds (box.signer id pass);
}

abbrev wallets_of_both : WalletRepository Both
wallets_of_both = record {
  save = λ w. on_wallets (Memory.save w);
  get = λ id. on_wallets (Memory.get id);
  list = on_wallets (Memory.list (λ m. m));
}

seeds_of_both-IsKeyStore : IsKeyStore seeds_of_both
seeds_of_both-IsKeyStore =
    let law = memory_store-IsKeyStore toy toy_hmac index_keys plain_curve toy_ed toy-IsAead in
    record {
      unlock-create = λ id pass seed s t h.
          law.unlock-create id pass seed s.seeds t.seeds (ap (λ x. (x.0, x.1.seeds)) h);
      others = λ id pass seed s t h.
          law.others id pass seed s.seeds t.seeds (ap (λ x. (x.0, x.1.seeds)) h);
    }

wallets_of_both-KeepsSeeds : KeepsSeeds wallets_of_both seeds_of_both
wallets_of_both-KeepsSeeds = record {
  kept = λ w s t h id pass. ap (λ x. (box.unlock id pass x.1.seeds).0) (sym h);
}

abbrev lone : ChainAdapter Both
lone = record {
  chain = "ethereum";
  derive_account = λ seed path. ok (record { chain = "ethereum"; address = "alice"; path = path });
  balance = λ addr asset s. (ok no_amount, s);
  estimate_fee = λ req s. (ok (record { speed = req.speed; total = no_amount; params = [] }), s);
  build_transfer = λ req s. (err (sentinel "unsupported"), s);
  sign = λ tx signer. err (sentinel "unsupported");
  broadcast = λ tx s. (ok tx.hash, s);
  get_transaction = λ hash s. (err (sentinel "unsupported"), s);
}

abbrev over_both : WalletService Both (Unit {0})
over_both = record {
  registry = new_registry (lone ∷ []);
  keys = seeds_of_both;
  repo = wallets_of_both;
  now = λ s. (ok 7, s);
  format_id = λ n. "w7";
  range = λ m. m;
}

abbrev empty_both : Both
empty_both = record { wallets = []; seeds = record { store = []; world = 0 } }

abbrev alice_7 : Wallet
alice_7 = record {
  id = "w7";
  label = "first";
  created_at = 7;
  accounts = record { chain = "ethereum"; address = "alice"; path = bip44_path "ethereum" } ∷ [];
}

abbrev filled_both : Both
filled_both = record {
  wallets = ("w7", alice_7) ∷ [];
  seeds = record {
    store = ("w7", record { salt = 1 ∷ []; nonce = 2 ∷ []; ciphertext = 2 ∷ codes "abandon" }) ∷ [];
    world = 3;
  };
}

create_both : create over_both "first" (5 ∷ []) empty_both ≡ (ok alice_7, filled_both)
unfolding create omnicatena.App.Wallets.derive_accounts Memory.save new_registry
    omnicatena.Chain.Registry.adapter omnicatena.Chain.Registry.supported omnicatena.Base.Map.insert
    omnicatena.Base.Map.lookup omnicatena.Keystore.Memory.create omnicatena.Keystore.new_seed
    omnicatena.Keystore.seal
create_both = refl

created_opens_example :
    (seed : Bytes) × ((seeds_of_both.unlock "w7" (5 ∷ []) filled_both).0 ≡ ok seed)
    × ((acc : Account)
        → Memᴰ acc alice_7.accounts
        → (chain : ChainId) × DerivedOn over_both seed acc chain)
    × ((other : String) (pass : Bytes)
        → "w7" ≢ other
        → (seeds_of_both.unlock other pass filled_both).0
          ≡ (seeds_of_both.unlock other pass empty_both).0)
created_opens_example =
    created_opens over_both seeds_of_both-IsKeyStore wallets_of_both-KeepsSeeds
      (λ s t n h id pass. ap (λ x. (box.unlock id pass x.1.seeds).0) (sym h)) "first" (5 ∷ [])
      alice_7 empty_both filled_both create_both
