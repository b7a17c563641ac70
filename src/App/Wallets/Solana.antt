-- ===== src/App/Wallets/Solana.antt =====
-- Wallets of internal/app/wallet_service.go and the adapter of Solana.
use Prim.Native.String.{String}
use mathlib.Core.List.{List, Memᴰ, [], ◌∷◌}
use mathlib.Core.Logic.{◌≢◌}
use mathlib.Core.Option.{none}
use mathlib.Core.Path.{ap, refl, subst, sym, ◌∙◌, ◌≡◌}
use native.Mathlib.Omega.{arith}
use omnicatena.App.Wallets.{WalletService, create}
use omnicatena.App.Wallets.Laws.{create-eq_ok}
use omnicatena.Base.{==_false}
use omnicatena.Base.Bytes.{Bytes}
use omnicatena.Base.Result.{ok}
use omnicatena.Chain.Registry
use omnicatena.Chain.Registry.{Registry}
use omnicatena.Chain.Solana.{SolanaGo, derive_account}
use omnicatena.Domain.{Account, ChainId, Wallet, account, chain_solana, find_account}
use omnicatena.HdWallet.Curve.{Ed25519}
use omnicatena.HdWallet.Derive.Laws.{derive_key_ed25519-bip44_path}
use omnicatena.HdWallet.Path.{bip44_path}
use omnicatena.Port.{ChainAdapter}

find_account-none :
    (chain : ChainId) (accounts : List Account)
    → ((acc : Account) → Memᴰ acc accounts → acc.chain ≢ chain)
    → find_account chain accounts ≡ none
unfolding find_account
find_account-none chain [] h = refl
find_account-none chain (a ∷ rest) h =
    rw (==_false a.chain chain (h a (Memᴰ.head refl)))
      (find_account-none chain rest (λ acc m. h acc (Memᴰ.tail m)))

module _ {S W PublicKey Hash Instruction Tx EdKey : Type 0} (service : WalletService S W)
    (go : SolanaGo PublicKey Hash Instruction Tx) (hmac : Bytes → Bytes → Bytes)
    (ed : Ed25519 EdKey) where
  -- The standard path has no account on Solana.
  pub derive_account-bip44_path :
      (seed : Bytes) (acc : Account)
      → derive_account go hmac ed seed (bip44_path chain_solana) ≢ ok acc
  unfolding derive_account
  derive_account-bip44_path seed acc h =
      let e = derive_key_ed25519-bip44_path hmac seed chain_solana in absurd (ground (arith, e))

  -- No wallet is created with an account on Solana, where the registry's adapters name their own
  -- chain in the accounts that they derive and the one of Solana, if it is there, derives as Solana's
  -- adapter does.
  pub no_solana_account :
      ((chain : ChainId) (a : ChainAdapter S) (seed path : Bytes) (acc : Account)
        → Registry.adapter service.registry chain ≡ ok a
        → a.derive_account seed path ≡ ok acc
        → acc.chain ≡ chain)
      → ((a : ChainAdapter S)
          → Registry.adapter service.registry chain_solana ≡ ok a
          → a.derive_account ≡ derive_account go hmac ed)
      → (label : String) (passphrase : Bytes) (w : Wallet) (s t : S)
      → create service label passphrase s ≡ (ok w, t)
      → account w chain_solana ≡ none
  unfolding account
  no_solana_account named solana label passphrase w s t h =
      let made = create-eq_ok service label passphrase w s t h in
      find_account-none chain_solana w.accounts (λ acc m on.
        let (chain, _, by) = made.sound acc m in
        let (a, found, derived) = by in
        let same : chain ≡ chain_solana =
          sym (named chain a made.seed (bip44_path chain) acc found derived) ∙ on in
        let at : Registry.adapter service.registry chain_solana ≡ ok a =
          subst (λ c. Registry.adapter service.registry c ≡ ok a) same found in
        derive_account-bip44_path made.seed acc (
          ap (λ f. f made.seed (bip44_path chain_solana)) (sym (solana a at))
          ∙ subst (λ c. a.derive_account made.seed (bip44_path c) ≡ ok acc) same derived))
