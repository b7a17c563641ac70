-- ===== src/Chain/Adapters.antt =====
-- The adapters of the chains as `port.ChainAdapter`: internal/adapter/chain/*/adapter.go. The key
-- libraries are the same for all of them; `pubkey_to_address` is crypto.PubkeyToAddress.
use Prim.Native.String.{String}
use mathlib.Core.List.{List, [], ◌∷◌}
use mathlib.Core.Path.{ap, sym, ◌≡◌}
use omnicatena.Base.Bytes.{Bytes}
use omnicatena.Base.Exec.{pure}
use omnicatena.Base.Int.{ℤ}
use omnicatena.Base.Result.{>>=-inv, Result, bytes, err, ok, wrap, wrap-inv, ◌|>◌}
use omnicatena.Chain.Bitcoin
use omnicatena.Chain.Bitcoin.Client.{Btcd, Rpc}
use omnicatena.Chain.Bitcoin.Coins.{Utxo}
use omnicatena.Chain.Evm
use omnicatena.Chain.Evm.Client.{EvmConfig}
use omnicatena.Chain.Evm.Transfer.{EthClient, EthTypes}
use omnicatena.Chain.Solana
use omnicatena.Chain.Solana.{SolanaGo, SolanaRpc}
use omnicatena.Chain.Tron
use omnicatena.Chain.Tron.{Base58, Json, Node}
use omnicatena.Config.{BitcoinNode}
use omnicatena.Domain.{Account, Address, ChainId, chain_bitcoin, chain_solana, chain_tron}
use omnicatena.HdWallet.Curve.{Ed25519, Secp256k1}
use omnicatena.HdWallet.Derive.{Bip32, derive_key, derive_key_ed25519}
use omnicatena.Port.{ChainAdapter}

module _ {S Key Priv : Type 0} (bip32 : Bip32 Key) (curve : Secp256k1 Key Priv) where
  abbrev pub bitcoin_adapter :
      {F Tx Hash Addr : Type 0}
      → Btcd F Tx Hash Addr
      → Rpc S Tx Hash
      → (List Utxo → List Utxo)
      → ChainAdapter S
  bitcoin_adapter b rpc sort = record {
    chain = chain_bitcoin;
    derive_account = Bitcoin.Signing.derive_account b bip32 curve;
    balance = Bitcoin.Queries.balance b rpc;
    estimate_fee = Bitcoin.Transfer.estimate_fee b rpc;
    build_transfer = Bitcoin.Transfer.build_transfer b rpc sort;
    sign = Bitcoin.Signing.sign b;
    broadcast = Bitcoin.Queries.broadcast b rpc;
    get_transaction = Bitcoin.Queries.get_transaction b rpc;
  }

  -- The adapter of a chain of the EVM, which the configuration names.
  abbrev pub evm_adapter :
      {EthAddress Tx Hash : Type 0}
      → EthTypes EthAddress Tx Hash
      → EthClient S EthAddress Tx Hash
      → (Priv → Address)
      → ChainId
      → ℤ
      → ChainAdapter S
  evm_adapter e client pubkey_to_hex chain chain_id = record {
    chain = chain;
    derive_account = Evm.Signing.derive_account bip32 curve pubkey_to_hex chain;
    balance = Evm.Transfer.balance e client chain chain_id;
    estimate_fee = Evm.Transfer.estimate_fee e client chain chain_id;
    build_transfer = Evm.Transfer.build_transfer e client chain chain_id;
    sign = Evm.Signing.sign e chain;
    broadcast = Evm.Transfer.broadcast e client chain chain_id;
    get_transaction = Evm.Transfer.get_transaction e client chain chain_id;
  }

  -- New of bitcoin/adapter.go; `connect` is rpcclient.New for the host, the user and the password.
  unfoldable pub new_bitcoin :
      {F Tx Hash Addr : Type 0}
      → Btcd F Tx Hash Addr
      → (List Utxo → List Utxo)
      → (BitcoinNode → Result (Rpc S Tx Hash))
      → BitcoinNode
      → Result (ChainAdapter S)
  new_bitcoin b sort connect cfg =
      wrap "bitcoin: connect %s: %w" (bytes cfg.host ∷ []) (connect cfg) |> λ rpc.
      bitcoin_adapter b rpc sort

  -- New of evm/adapter.go; `dial` is ethclient.Dial.
  unfoldable pub new_evm :
      {EthAddress Tx Hash : Type 0}
      → EthTypes EthAddress Tx Hash
      → (Priv → Address)
      → (Bytes → Result (EthClient S EthAddress Tx Hash))
      → EvmConfig
      → Result (ChainAdapter S)
  new_evm e pubkey_to_hex dial cfg =
      wrap "evm: dial %s: %w" (bytes cfg.rpc_url ∷ []) (dial cfg.rpc_url) |> λ client.
      evm_adapter e client pubkey_to_hex cfg.chain cfg.chain_id

  abbrev pub tron_adapter :
      Base58 → Json → Node S → (Bytes → String) → (Priv → Bytes) → ChainAdapter S
  tron_adapter b j node to_text pubkey_to_address = record {
    chain = chain_tron;
    derive_account = Tron.Signing.derive_account b bip32 curve pubkey_to_address;
    balance = Tron.balance b j node;
    estimate_fee = λ req. pure (Tron.estimate_fee req);
    build_transfer = Tron.build_transfer b j node;
    sign = Tron.Signing.sign j to_text;
    broadcast = Tron.broadcast b j node;
    get_transaction = Tron.get_transaction b j node;
  }

abbrev pub solana_adapter :
    {S EdKey PublicKey Hash Instruction Tx : Type 0}
    → SolanaGo PublicKey Hash Instruction Tx
    → SolanaRpc S PublicKey Hash Tx
    → (Bytes → Bytes → Bytes)
    → Ed25519 EdKey
    → ChainAdapter S
solana_adapter go rpc hmac ed = record {
  chain = chain_solana;
  derive_account = Solana.derive_account go hmac ed;
  balance = Solana.balance go rpc;
  estimate_fee = λ req. pure (Solana.estimate_fee req);
  build_transfer = Solana.build_transfer go rpc;
  sign = Solana.Signing.sign go;
  broadcast = Solana.broadcast go rpc;
  get_transaction = Solana.get_transaction go rpc;
}

-- The accounts that an adapter derives are on its own chain.
abbrev pub NamesItsChain : {S : Type 0} → ChainAdapter S → Type 0
NamesItsChain a =
    (seed path : Bytes) (acc : Account) → a.derive_account seed path ≡ ok acc → acc.chain ≡ a.chain

module _ {S Key Priv : Type 0} (bip32 : Bip32 Key) (curve : Secp256k1 Key Priv) where
  pub bitcoin_adapter-NamesItsChain :
      {F Tx Hash Addr : Type 0} (b : Btcd F Tx Hash Addr) (rpc : Rpc S Tx Hash)
      (sort : List Utxo → List Utxo)
      → NamesItsChain (bitcoin_adapter bip32 curve b rpc sort)
  unfolding Bitcoin.Signing.derive_account
  bitcoin_adapter-NamesItsChain b rpc sort seed path acc h =
      >>=-inv (derive_key bip32 seed path) _ h λ key e1 h1.
        wrap-inv "bitcoin: ec pub key: %w" [] (curve.ec_pub_key key) _ h1 λ pub_key e2 h2.
          wrap-inv "bitcoin: derive address: %w" [] (b.hash160_address pub_key) _ h2 λ addr e3 h3.
            ap (λ (x : Result Account). elim x [ ok y ↦ y.chain | err _ ↦ "" ]) (sym h3)

  pub evm_adapter-NamesItsChain :
      {EthAddress Tx Hash : Type 0} (e : EthTypes EthAddress Tx Hash)
      (client : EthClient S EthAddress Tx Hash) (pubkey_to_hex : Priv → Address) (chain : ChainId)
      (chain_id : ℤ)
      → NamesItsChain (evm_adapter bip32 curve e client pubkey_to_hex chain chain_id)
  unfolding Evm.Signing.derive_account
  evm_adapter-NamesItsChain e client pubkey_to_hex chain chain_id seed path acc h =
      >>=-inv (derive_key bip32 seed path) _ h λ key e1 h1.
        wrap-inv "evm: ec priv key: %w" [] (curve.ec_priv_key key) _ h1
          λ priv e2 h2. ap (λ (x : Result Account). elim x [ ok y ↦ y.chain | err _ ↦ "" ]) (sym h2)

  pub tron_adapter-NamesItsChain :
      (b : Base58) (j : Json) (node : Node S) (to_text : Bytes → String)
      (pubkey_to_address : Priv → Bytes)
      → NamesItsChain (tron_adapter bip32 curve b j node to_text pubkey_to_address)
  unfolding Tron.Signing.derive_account
  tron_adapter-NamesItsChain b j node to_text pubkey_to_address seed path acc h =
      >>=-inv (derive_key bip32 seed path) _ h λ key e1 h1.
        wrap-inv "tron: ec priv key: %w" [] (curve.ec_priv_key key) _ h1
          λ priv e2 h2. ap (λ (x : Result Account). elim x [ ok y ↦ y.chain | err _ ↦ "" ]) (sym h2)

pub solana_adapter-NamesItsChain :
    {S EdKey PublicKey Hash Instruction Tx : Type 0} (go : SolanaGo PublicKey Hash Instruction Tx)
    (rpc : SolanaRpc S PublicKey Hash Tx) (hmac : Bytes → Bytes → Bytes) (ed : Ed25519 EdKey)
    → NamesItsChain (solana_adapter go rpc hmac ed)
unfolding Solana.derive_account
solana_adapter-NamesItsChain go rpc hmac ed seed path acc h =
    derived (derive_key_ed25519 hmac seed path) h
  where
    derived :
        (r : Result Bytes)
        → ◌≡◌ {A = Result Account}
            (elim r [
              | err e ↦ err e
              | ok key_seed ↦ ok (record {
                chain = chain_solana;
                address = go.key_text (ed.public (ed.new_key_from_seed key_seed));
                path = path;
              })
            ])
            (ok acc)
        → acc.chain ≡ chain_solana
    derived (err e) k = absurd (cc)
    derived (ok _) k =
        ap (λ (x : Result Account). elim x [ ok y ↦ y.chain | err _ ↦ chain_solana ]) (sym k)
