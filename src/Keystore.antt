-- ===== src/Keystore.antt =====
-- internal/adapter/keystore: keystore.go and signer.go. The random source, bip39, Argon2id and AES-GCM
-- are parameters; a lock is not modelled, since each operation holds it for one access of the map.
pub mod Memory
pub mod Stores
pub mod Contract
pub mod Postgres
pub mod Signing
use Prim.Native.Nat.{ℕ, ◌*◌}
use Prim.Native.String.{String}
use mathlib.Core.List.{List, []}
use mathlib.Core.Path.{◌≡◌}
use native.Mathlib.Omega.{arith}
use omnicatena.Base.Bytes.{Bytes}
use omnicatena.Base.Exec.{Exec, bind-inv, lift, pure, ◌>>=◌, ◌>>◌}
use omnicatena.Base.Result.{Result, err, errorf, ok}

pub record Envelope : Type 0 where
  pub salt : Bytes
  pub nonce : Bytes
  pub ciphertext : Bytes

-- `W` is the state of the random source, `Gcm` is cipher.AEAD.
pub record Crypto (W Gcm : Type 0) : Type 0 where
  pub new_entropy : ℕ → Exec W Bytes
  pub new_mnemonic : Bytes → Result String
  pub new_seed : String → String → Bytes
  pub read_full : ℕ → Exec W Bytes
  -- argon2.IDKey(passphrase, salt, time, memory, threads, keyLen)
  pub id_key : Bytes → Bytes → ℕ → ℕ → ℕ → ℕ → Bytes
  -- aes.NewCipher and cipher.NewGCM
  pub new_gcm : Bytes → Result Gcm
  pub nonce_size : Gcm → ℕ
  pub seal : Gcm → Bytes → Bytes → Bytes
  pub open_sealed : Gcm → Bytes → Bytes → Result Bytes

-- What crypto/cipher documents of an AEAD: what was sealed under a nonce is opened under it.
pub record IsAead {W Gcm : Type 0} (c : Crypto W Gcm) : Type 0 where
  pub open-seal :
      (g : Gcm) (nonce plaintext : Bytes)
      → c.open_sealed g nonce (c.seal g nonce plaintext) ≡ ok plaintext

module _ {W Gcm : Type 0} (c : Crypto W Gcm) where
  unfoldable pub new_seed : Exec W Bytes
  new_seed = do
    entropy ← c.new_entropy 256
    mnemonic ← lift (c.new_mnemonic entropy)
    pure (c.new_seed mnemonic "")

  stretch_key : Bytes → Bytes → Bytes
  stretch_key passphrase salt = c.id_key passphrase salt 1 (64 * 1024) 4 32

  unfoldable pub seal : Bytes → Bytes → Exec W Envelope
  unfolding stretch_key
  seal plaintext passphrase = do
    salt ← c.read_full 16
    gcm ← lift (c.new_gcm (stretch_key passphrase salt))
    nonce ← c.read_full (c.nonce_size gcm)
    pure (record { salt = salt; nonce = nonce; ciphertext = c.seal gcm nonce plaintext })

  reject : Result Bytes → Result Bytes
  reject (ok plaintext) = ok plaintext
  reject (err e) = err (errorf "keystore: invalid passphrase" [])

  unfoldable pub open_envelope : Envelope → Bytes → Result Bytes
  unfolding stretch_key reject
  open_envelope enc passphrase = elim (c.new_gcm (stretch_key passphrase enc.salt)) [
    | err e ↦ err e
    | ok gcm ↦ reject (c.open_sealed gcm enc.nonce enc.ciphertext)
  ]

  opened :
      IsAead c
      → (plaintext passphrase salt nonce : Bytes) (gcm : Gcm)
      → c.new_gcm (stretch_key passphrase salt) ≡ ok gcm
      → open_envelope
          (record { salt = salt; nonce = nonce; ciphertext = c.seal gcm nonce plaintext })
          passphrase
        ≡ ok plaintext
  unfolding open_envelope
  opened a plaintext passphrase salt nonce gcm h =
      rw (h, open_envelope) (rw (a.open-seal gcm nonce plaintext))

  -- What was sealed with a passphrase is opened with it.
  pub open_envelope-seal :
      IsAead c
      → (plaintext passphrase : Bytes) (w w' : W) (enc : Envelope)
      → seal plaintext passphrase w ≡ (ok enc, w')
      → open_envelope enc passphrase ≡ ok plaintext
  unfolding seal open_envelope
  open_envelope-seal a plaintext passphrase w w' enc h =
      bind-inv (c.read_full 16) _ h λ salt w1 p1 h1.
        bind-inv (lift (c.new_gcm (stretch_key passphrase salt))) _ h1 λ gcm w2 p2 h2.
          bind-inv (c.read_full (c.nonce_size gcm)) _ h2 λ nonce w3 p3 h3.
            let e : enc
                ≡ record { salt = salt; nonce = nonce; ciphertext = c.seal gcm nonce plaintext } =
              ground arith in
            let k : c.new_gcm (stretch_key passphrase salt) ≡ ok gcm = ground arith in
            rw e (opened a plaintext passphrase salt nonce gcm k)
