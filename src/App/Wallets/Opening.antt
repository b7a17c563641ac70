-- ===== src/App/Wallets/Opening.antt =====
-- The wallets of internal/app/wallet_service.go and the key store behind them.
use Prim.Native.Nat.{ℕ}
use Prim.Native.String.{String}
use mathlib.Core.List.{Memᴰ, []}
use mathlib.Core.Logic.{◌≢◌}
use mathlib.Core.Path.{◌∙◌, ◌≡◌}
use omnicatena.App.Wallets.{WalletService, create}
use omnicatena.App.Wallets.Laws.{DerivedOn, create-eq_ok}
use omnicatena.Base.Bytes.{Bytes}
use omnicatena.Base.Result.{ok}
use omnicatena.Domain.{Account, ChainId, Wallet}
use omnicatena.Keystore.Contract.{IsKeyStore}
use omnicatena.Port.{KeyStore, WalletRepository}

-- Saving a wallet leaves the seeds alone.
pub record KeepsSeeds {S : Type 0} (repo : WalletRepository S) (keys : KeyStore S) : Type 0 where
  pub kept :
      (w : Wallet) (s t : S)
      → repo.save w s ≡ (ok tt, t)
      → (id : String) (pass : Bytes) → (keys.unlock id pass t).0 ≡ (keys.unlock id pass s).0

module _ {S W : Type 0} (service : WalletService S W) where
  -- The passphrase of a wallet that was created opens a seed, and this seed is the one from which the
  -- chains' adapters derived every account of the wallet; the seeds of other wallets are opened by
  -- what opened them before, where the clock changes no seed and saving a wallet does not either.
  pub created_opens :
      IsKeyStore service.keys
      → KeepsSeeds service.repo service.keys
      → ((s t : S) (n : ℕ)
          → service.now s ≡ (ok n, t)
          → (id : String) (pass : Bytes)
          → (service.keys.unlock id pass t).0 ≡ (service.keys.unlock id pass s).0)
      → (label : String) (passphrase : Bytes) (w : Wallet) (s t : S)
      → create service label passphrase s ≡ (ok w, t)
      → (seed : Bytes) × ((service.keys.unlock w.id passphrase t).0 ≡ ok seed)
        × ((acc : Account)
            → Memᴰ acc w.accounts
            → (chain : ChainId) × DerivedOn service seed acc chain)
        × ((other : String) (pass : Bytes)
            → w.id ≢ other
            → (service.keys.unlock other pass t).0 ≡ (service.keys.unlock other pass s).0)
  created_opens store frame steady label passphrase w s t h =
      let made = create-eq_ok service label passphrase w s t h in
      (
        made.seed,
        frame.kept w made.after_keys t made.stored w.id passphrase
            ∙ store.unlock-create w.id passphrase made.seed made.after_row made.after_keys
                made.keyed,
        λ acc m. let (chain, _, by) = made.sound acc m in (chain, by),
        λ other pass ne.
            frame.kept w made.after_keys t made.stored other pass
            ∙ store.others w.id passphrase made.seed made.after_row made.after_keys made.keyed other
                pass ne
            ∙ frame.kept (record w { accounts = [] }) made.after_clock made.after_row made.row other
                pass
            ∙ steady made.after_stamp made.after_clock w.created_at made.clock other pass
            ∙ steady s made.after_stamp made.stamp made.stamped other pass,
      )
