-- ===== src/Keystore/Stores.antt =====
-- The two key stores as `port.KeyStore`, with their Signer: keystore.go and postgres.go of
-- internal/adapter/keystore.
use Prim.Native.String.{String}
use mathlib.Core.Path.{ap, refl, ◌≡◌}
use omnicatena.Base.Bytes.{Bytes}
use omnicatena.Base.Exec.{Exec, pure, ◌>>=◌}
use omnicatena.Base.Result.{ok}
use omnicatena.HdWallet.Curve.{Ed25519, Secp256k1}
use omnicatena.HdWallet.Derive.{Bip32}
use omnicatena.Keystore.{Crypto, IsAead, opened}
use omnicatena.Keystore.Contract.{IsKeyStore}
use omnicatena.Keystore.Memory
use omnicatena.Keystore.Memory.{Seeds, unlock-create}
use omnicatena.Keystore.Postgres
use omnicatena.Keystore.Postgres.{Backend, EnvelopeTable, IsEnvelopeTable, unlock_created}
use omnicatena.Keystore.Signing.{mem_signer}
use omnicatena.Port.{KeyStore, Signer}

module _ {W Gcm Key Priv EdKey : Type 0} (c : Crypto W Gcm) (hmac : Bytes → Bytes → Bytes)
    (bip32 : Bip32 Key) (curve : Secp256k1 Key Priv) (ed : Ed25519 EdKey) where
  unfoldable pub memory_signer : String → Bytes → Exec (Seeds W) Signer
  memory_signer wallet_id passphrase =
      Memory.unlock c wallet_id passphrase >>= λ seed. pure (mem_signer hmac bip32 curve ed seed)

  abbrev pub memory_store : KeyStore (Seeds W)
  memory_store = record {
    create = Memory.create c;
    unlock = Memory.unlock c;
    signer = memory_signer;
  }

  -- After a `create` of the store in memory, its `signer` for the wallet and the passphrase signs with
  -- keys derived from the seed that `create` returned, and nothing is changed by asking for it.
  pub signer-create :
      IsAead c
      → (id : String) (passphrase seed : Bytes) (s t : Seeds W)
      → memory_store.create id passphrase s ≡ (ok seed, t)
      → memory_store.signer id passphrase t ≡ (ok (mem_signer hmac bip32 curve ed seed), t)
  unfolding memory_signer
  signer-create aead id passphrase seed s t h =
      let (opened, others) = unlock-create c aead id passphrase seed s t h in rw opened refl

  pub memory_store-IsKeyStore : IsAead c → IsKeyStore memory_store
  memory_store-IsKeyStore aead = record {
    unlock-create =
        λ id passphrase seed s t h. ap (λ x. x.0) (unlock-create c aead id passphrase seed s t h).0;
    others = λ id passphrase seed s t h. (unlock-create c aead id passphrase seed s t h).1;
  }

  module _ {D : Type 0} (table : EnvelopeTable D) where
    unfoldable pub postgres_signer : String → Bytes → Exec (Backend W D) Signer
    postgres_signer wallet_id passphrase = Postgres.unlock c table wallet_id passphrase >>= λ seed.
        pure (mem_signer hmac bip32 curve ed seed)

    abbrev pub postgres_store : KeyStore (Backend W D)
    postgres_store = record {
      create = Postgres.create c table;
      unlock = Postgres.unlock c table;
      signer = postgres_signer;
    }

    pub postgres_store-IsKeyStore : IsAead c → IsEnvelopeTable table → IsKeyStore postgres_store
    postgres_store-IsKeyStore aead law = record {
      unlock-create =
          λ id passphrase seed s t h. (unlock_created c table aead law id passphrase seed s t h).0;
      others =
          λ id passphrase seed s t h. (unlock_created c table aead law id passphrase seed s t h).1;
    }
