-- ===== src/Start/Laws.antt =====
-- The wallets of the programs of cmd/api/main.go and cmd/cli/main.go.
use Prim.Native.String.{String}
use mathlib.Core.List.{List, [], ◌∷◌}
use mathlib.Core.Logic.{inl, inr, ◌⊎◌}
use mathlib.Core.Option.{none}
use mathlib.Core.Path.{ap, refl, sym, ◌∙◌, ◌≡◌}
use omnicatena.App.Wallets.{WalletService, create}
use omnicatena.App.Wallets.Solana.{no_solana_account}
use omnicatena.Base.{All}
use omnicatena.Base.Bytes.{Bytes}
use omnicatena.Base.Exec.{bind-inv, pure-inv, wrapped}
use omnicatena.Base.Result.{Result, bytes, err, ok, wrap, |>-inv}
use omnicatena.Chain.Adapters.{
  NamesItsChain, bitcoin_adapter, bitcoin_adapter-NamesItsChain, evm_adapter,
  evm_adapter-NamesItsChain, new_bitcoin, new_evm, solana_adapter-NamesItsChain,
  tron_adapter-NamesItsChain,
}
use omnicatena.Chain.Bitcoin.Client.{Btcd, Rpc}
use omnicatena.Chain.Bitcoin.Coins.{Utxo}
use omnicatena.Chain.Evm.Client.{EvmConfig}
use omnicatena.Chain.Evm.Transfer.{EthClient, EthTypes}
use omnicatena.Chain.Evm.Watching.{Watcher}
use omnicatena.Chain.Registry
use omnicatena.Chain.Registry.{
  Registry, adapter-All, adapter-new_registry, new_registry, register_watcher,
}
use omnicatena.Chain.Solana.{derive_account}
use omnicatena.Config.{BitcoinNode, Config}
use omnicatena.Domain.{
  Account, Address, ChainId, Wallet, account, chain_base, chain_ethereum, chain_solana,
}
use omnicatena.HdWallet.Curve.{Secp256k1}
use omnicatena.HdWallet.Derive.{Bip32}
use omnicatena.Port.{ChainAdapter, ChainWatcher}
use omnicatena.Start.{
  Nodes, Outside, adapters, api_registry, connect, evm_config, evm_new, solana_and_tron,
}

-- A client that was made is in the adapter.
new_evm-inv :
    {S Key Priv EthAddress Tx Hash : Type 0} (bip32 : Bip32 Key) (curve : Secp256k1 Key Priv)
    (e : EthTypes EthAddress Tx Hash) (pubkey_to_hex : Priv → Address)
    (dial : Bytes → Result (EthClient S EthAddress Tx Hash)) (cfg : EvmConfig) {a : ChainAdapter S}
    → new_evm bip32 curve e pubkey_to_hex dial cfg ≡ ok a
    → (client : EthClient S EthAddress Tx Hash) × (evm_adapter bip32 curve e client pubkey_to_hex
          cfg.chain cfg.chain_id
        ≡ a)
unfolding new_evm
new_evm-inv bip32 curve e pubkey_to_hex dial cfg h =
    |>-inv (wrap "evm: dial %s: %w" (bytes cfg.rpc_url ∷ []) (dial cfg.rpc_url))
      (λ client. evm_adapter bip32 curve e client pubkey_to_hex cfg.chain cfg.chain_id) h

new_bitcoin-inv :
    {S Key Priv F Tx Hash Addr : Type 0} (bip32 : Bip32 Key) (curve : Secp256k1 Key Priv)
    (b : Btcd F Tx Hash Addr) (sort : List Utxo → List Utxo)
    (dial : BitcoinNode → Result (Rpc S Tx Hash)) (cfg : BitcoinNode) {a : ChainAdapter S}
    → new_bitcoin bip32 curve b sort dial cfg ≡ ok a
    → (rpc : Rpc S Tx Hash) × (bitcoin_adapter bip32 curve b rpc sort ≡ a)
unfolding new_bitcoin
new_bitcoin-inv bip32 curve b sort dial cfg h =
    |>-inv (wrap "bitcoin: connect %s: %w" (bytes cfg.host ∷ []) (dial cfg))
      (λ rpc. bitcoin_adapter bip32 curve b rpc sort) h

module _ {S : Type 0} (o : Outside S) (cfg : Config) where
  -- The adapters of a program that connected stand over clients.
  pub connect-adapters :
      {list : List (ChainAdapter S)} (s t : S)
      → connect o cfg s ≡ (ok list, t)
      → (n : Nodes o) × (adapters o cfg n ≡ list)
  unfolding connect evm_new
  connect-adapters {list} s t h =
      bind-inv (wrapped "db: %v" [] (o.open_pool cfg.database_url)) _ {s = s} h λ _ s1 _ h1.
        bind-inv (wrapped "db: ping: %v" [] o.ping) _ {s = s1} h1 λ _ s2 _ h2.
          pure-inv "eth adapter: %v" [] (evm_new o cfg cfg.ethereum chain_ethereum) _ h2
            λ eth e3 h3.
              pure-inv "base adapter: %v" [] (evm_new o cfg cfg.base chain_base) _ h3 λ base e4 h4.
                pure-inv "btc adapter: %v" []
                  (new_bitcoin o.libs.bip32 o.libs.curve o.libs.btcd o.libs.sort o.connect_btcd
                    cfg.bitcoin)
                  _ h4
                  λ btc e5 h5.
                    let (eth_client, eth_same) =
                      new_evm-inv o.libs.bip32 o.libs.curve o.libs.eth_types o.libs.pubkey_to_hex
                        o.dial (evm_config cfg.ethereum chain_ethereum) e3 in
                    let (base_client, base_same) =
                      new_evm-inv o.libs.bip32 o.libs.curve o.libs.eth_types o.libs.pubkey_to_hex
                        o.dial (evm_config cfg.base chain_base) e4 in
                    let (btc_rpc, btc_same) =
                      new_bitcoin-inv o.libs.bip32 o.libs.curve o.libs.btcd o.libs.sort
                        o.connect_btcd cfg.bitcoin e5 in
                    (
                      record {
                        eth_client = eth_client;
                        base_client = base_client;
                        btc_rpc = btc_rpc;
                      },
                      (λ i. eth_same i ∷ base_same i ∷ btc_same i ∷ solana_and_tron o cfg)
                          ∙ ap (λ x. elim x.0 [ ok l ↦ l | err _ ↦ list ]) h5,
                    )

  module _ (n : Nodes o) where
    adapters-NamesItsChain : All NamesItsChain (adapters o cfg n)
    adapters-NamesItsChain = (
      evm_adapter-NamesItsChain o.libs.bip32 o.libs.curve o.libs.eth_types n.eth_client
          o.libs.pubkey_to_hex chain_ethereum cfg.ethereum.chain_id,
      (
        evm_adapter-NamesItsChain o.libs.bip32 o.libs.curve o.libs.eth_types n.base_client
            o.libs.pubkey_to_hex chain_base cfg.base.chain_id,
        (
          bitcoin_adapter-NamesItsChain o.libs.bip32 o.libs.curve o.libs.btcd n.btc_rpc o.libs.sort,
          (
            solana_adapter-NamesItsChain o.libs.solana_go (o.sol_rpc cfg.solana_rpc_url) o.libs.hmac
                o.libs.ed,
            (
              tron_adapter-NamesItsChain o.libs.bip32 o.libs.curve o.libs.base58 o.libs.json
                  (o.tron_node cfg.tron_rpc_url) o.libs.to_text o.libs.pubkey_to_address,
              tt,
            ),
          ),
        ),
      ),
    )

    Derives : ChainAdapter S → Type 0
    Derives a =
        a.chain ≡ chain_solana
        → a.derive_account ≡ derive_account o.libs.solana_go o.libs.hmac o.libs.ed

    adapters-Derives : All Derives (adapters o cfg n)
    unfolding Derives
    adapters-Derives = (
      λ h. absurd (cc),
      (λ h. absurd (cc), (λ h. absurd (cc), (λ h. refl, (λ h. absurd (cc), tt)))),
    )

-- The registry of the command line or of the API over the adapters.
abbrev pub IsWired :
    {S : Type 0} → (o : Outside S) → List (ChainAdapter S) → Registry S (ChainWatcher S) → Type 0
IsWired {S} o list r =
    (r ≡ new_registry list)
    ⊎ ((eth : Watcher S o.libs.EthTx) × (base : Watcher S o.libs.EthTx) × (r
          ≡ api_registry o list eth base))

pub IsWired-adapter :
    {S : Type 0} (o : Outside S) (list : List (ChainAdapter S)) (r : Registry S (ChainWatcher S))
    (chain : ChainId)
    → IsWired o list r
    → Registry.adapter r chain ≡ Registry.adapter (new_registry {W = ChainWatcher S} list) chain
unfolding api_registry register_watcher Registry.adapter
IsWired-adapter o list r chain (inl e) = ap (λ x. Registry.adapter x chain) e
IsWired-adapter o list r chain (inr (eth, base, e)) = ap (λ x. Registry.adapter x chain) e

module _ {S : Type 0} (o : Outside S) (cfg : Config) where
  module _ (list : List (ChainAdapter S)) (registry : Registry S (ChainWatcher S)) (s0 s1 : S)
      (connected : connect o cfg s0 ≡ (ok list, s1)) (wired : IsWired o list registry) where
    abbrev W : Type 0
    W = ChainWatcher S

    abbrev nodes : Nodes o
    nodes = (connect-adapters o cfg s0 s1 connected).0

    -- The registry answers with one of the program's adapters.
    found_among :
        (chain : ChainId) (a : ChainAdapter S)
        → Registry.adapter registry chain ≡ ok a
        → Registry.adapter (new_registry {W = W} (adapters o cfg nodes)) chain ≡ ok a
    found_among chain a found =
        ap (λ l. Registry.adapter (new_registry {W = W} l) chain)
          (connect-adapters o cfg s0 s1 connected).1
        ∙ sym (IsWired-adapter o list registry chain wired)
        ∙ found

    -- An account that the registry's adapter for a chain derives is on this chain.
    pub derived_on_chain :
        (chain : ChainId) (a : ChainAdapter S) (seed path : Bytes) (acc : Account)
        → Registry.adapter registry chain ≡ ok a
        → a.derive_account seed path ≡ ok acc
        → acc.chain ≡ chain
    derived_on_chain chain a seed path acc found derived =
        let among = found_among chain a found in
        adapter-All W NamesItsChain (adapters o cfg nodes) chain a
          (adapters-NamesItsChain o cfg nodes) among seed path acc derived
        ∙ (adapter-new_registry W (adapters o cfg nodes) chain).1 a among

  -- No wallet that the programs create has an account on Solana, though Solana's adapter is in their
  -- registry: whatever the libraries and the nodes answer, the derivation fails and the chain is
  -- skipped.
  pub never_on_solana :
      (service : WalletService S (ChainWatcher S)) (list : List (ChainAdapter S)) (s0 s1 : S)
      → connect o cfg s0 ≡ (ok list, s1)
      → IsWired o list service.registry
      → (label : String) (passphrase : Bytes) (w : Wallet) (s t : S)
      → create service label passphrase s ≡ (ok w, t)
      → account w chain_solana ≡ none
  unfolding Derives
  never_on_solana service list s0 s1 connected wired =
      let n = (connect-adapters o cfg s0 s1 connected).0 in
      no_solana_account service o.libs.solana_go o.libs.hmac o.libs.ed
        (derived_on_chain list service.registry s0 s1 connected wired)
        (λ a found.
          let among =
            found_among list service.registry s0 s1 connected wired chain_solana a found in
          adapter-All (ChainWatcher S) (Derives o cfg n) (adapters o cfg n) chain_solana a
            (adapters-Derives o cfg n) among
            ((adapter-new_registry (ChainWatcher S) (adapters o cfg n) chain_solana).1 a among))
