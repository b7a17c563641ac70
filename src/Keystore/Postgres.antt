-- ===== src/Keystore/Postgres.antt =====
-- The key store of internal/adapter/keystore/postgres.go, over the table keystore.
use Prim.Native.String.{String}
use mathlib.Core.List.{[], ◌∷◌}
use mathlib.Core.Logic.{◌≢◌}
use mathlib.Core.Path.{ap, ◌∙◌, ◌≡◌}
use native.Mathlib.Omega.{arith}
use omnicatena.Base.{if◌then◌else◌}
use omnicatena.Base.Bytes.{Bytes}
use omnicatena.Base.Exec.{Exec, bind-inv, pure, wrapped, wrapped-inv, ◌>>=◌, ◌>>◌}
use omnicatena.Base.Result.{Result, err, errorf, is_error, ok, str, wrapf}
use omnicatena.Keystore.{
  Crypto, Envelope, IsAead, new_seed, open_envelope, open_envelope-seal, seal,
}

-- The two statements: SELECT salt, nonce, ciphertext, and INSERT with ON CONFLICT DO UPDATE.
pub record EnvelopeTable (D : Type 0) : Type 0 where
  pub select : String → Exec D Envelope
  pub upsert : String → Envelope → Exec D (Unit {0})

-- What PostgreSQL documents of an upsert: the row of the key has the values, the others stay.
pub record IsEnvelopeTable {D : Type 0} (table : EnvelopeTable D) : Type 0 where
  pub select-upsert :
      (id : String) (enc : Envelope) (s t : D)
      → table.upsert id enc s ≡ (ok tt, t)
      → ((table.select id t).0 ≡ ok enc)
        × ((other : String) → id ≢ other → (table.select other t).0 ≡ (table.select other s).0)

-- The database, and the state of the random source.
pub record Backend (W D : Type 0) : Type 0 where
  pub db : D
  pub world : W

abbrev pub on_world {ℓ} : {W D : Type 0} {A : Type ℓ} → Exec W A → Exec (Backend W D) A
on_world m s = let (r, w) = m s.world in (r, record s { world = w })

abbrev pub on_db {ℓ} : {W D : Type 0} {A : Type ℓ} → Exec D A → Exec (Backend W D) A
on_db m s = let (r, d) = m s.db in (r, record s { db = d })

module _ {W Gcm D : Type 0} (c : Crypto W Gcm) (table : EnvelopeTable D) where
  unfoldable pub create : String → Bytes → Exec (Backend W D) Bytes
  create wallet_id passphrase = do
    seed ← on_world (new_seed c)
    enc ← on_world (seal c seed passphrase)
    wrapped "keystore: save %s: %w" (str wallet_id ∷ []) (on_db (table.upsert wallet_id enc))
    pure seed

  open_row : String → Bytes → Result Envelope → Result Bytes
  open_row wallet_id passphrase (ok enc) = open_envelope c enc passphrase
  open_row wallet_id passphrase (err e) =
      if is_error e "ErrNoRows"
      then err (errorf "keystore: wallet %s not found" (str wallet_id ∷ []))
      else err (wrapf "keystore: query %s: %w" (str wallet_id ∷ []) e)

  unfoldable pub unlock : String → Bytes → Exec (Backend W D) Bytes
  unfolding open_row
  unlock wallet_id passphrase s =
      let (r, d) = table.select wallet_id s.db in
      (open_row wallet_id passphrase r, record s { db = d })

  -- A seed that the database's `create` returned is what `unlock` gives for the wallet and the
  -- passphrase from then on; for every other wallet `unlock` answers as before.
  pub unlock_created :
      IsAead c
      → IsEnvelopeTable table
      → (id : String) (passphrase seed : Bytes) (s t : Backend W D)
      → create id passphrase s ≡ (ok seed, t)
      → ((unlock id passphrase t).0 ≡ ok seed)
        × ((other : String) (pass : Bytes)
            → id ≢ other
            → (unlock other pass t).0 ≡ (unlock other pass s).0)
  unfolding create unlock
  unlock_created aead law id passphrase seed s t h =
      bind-inv (on_world (new_seed c)) _ h λ made s1 p1 h1.
        bind-inv (on_world (seal c made passphrase)) _ h1 λ enc s2 p2 h2.
          bind-inv (wrapped "keystore: save %s: %w" (str id ∷ []) (on_db (table.upsert id enc))) _
            h2
            λ u s3 p3 h3.
              let stored =
                wrapped-inv "keystore: save %s: %w" (str id ∷ []) (on_db (table.upsert id enc))
                  p3 in
              let upserted : table.upsert id enc s.db ≡ (ok tt, t.db) = ground arith in
              let sealed : seal c made passphrase s1.world ≡ (ok enc, s2.world) = ground arith in
              let same : made ≡ seed = ground arith in
              let (row, others) = law.select-upsert id enc s.db t.db upserted in
              (
                ap (open_row id passphrase) row
                    ∙ rw (open_row, ← same)
                        (open_envelope-seal c aead made passphrase s1.world s2.world enc sealed),
                λ other pass ne. ap (open_row other pass) (others other ne),
              )
