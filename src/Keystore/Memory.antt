-- ===== src/Keystore/Memory.antt =====
-- The in-memory key store of internal/adapter/keystore/keystore.go.
use Prim.Native.String.{String}
use mathlib.Core.List.{[], ◌∷◌}
use mathlib.Core.Logic.{◌≢◌}
use mathlib.Core.Option.{Option, none, some}
use mathlib.Core.Path.{ap, ◌∙◌, ◌≡◌}
use native.Mathlib.Omega.{arith}
use omnicatena.Base.{==_false, ==_refl, string_eq}
use omnicatena.Base.Bytes.{Bytes}
use omnicatena.Base.Exec.{Exec, bind-inv, pure, ◌>>=◌, ◌>>◌}
use omnicatena.Base.Map.{Map, insert, lookup, lookup-insert}
use omnicatena.Base.Result.{Error, Result, err, errorf, ok, str}
use omnicatena.Keystore.{
  Crypto, Envelope, IsAead, new_seed, open_envelope, open_envelope-seal, seal,
}

-- The store, and the state of the random source.
pub record Seeds (W : Type 0) : Type 0 where
  pub store : Map String Envelope
  pub world : W

abbrev pub with_world {ℓ} : {W : Type 0} {A : Type ℓ} → Exec W A → Exec (Seeds W) A
with_world m s = let (r, w) = m s.world in (r, record s { world = w })

module _ {W Gcm : Type 0} (c : Crypto W Gcm) where
  put_envelope : String → Envelope → Exec (Seeds W) (Unit {0})
  put_envelope wallet_id enc s = (ok tt, record s { store = insert wallet_id enc s.store })

  unfoldable pub create : String → Bytes → Exec (Seeds W) Bytes
  unfolding put_envelope
  create wallet_id passphrase = do
    seed ← with_world (new_seed c)
    enc ← with_world (seal c seed passphrase)
    put_envelope wallet_id enc
    pure seed

  unlock_from : String → Bytes → Option Envelope → Result Bytes
  unlock_from wallet_id passphrase none =
      err (errorf "keystore: wallet %s not found" (str wallet_id ∷ []))
  unlock_from wallet_id passphrase (some enc) = open_envelope c enc passphrase

  unfoldable pub unlock : String → Bytes → Exec (Seeds W) Bytes
  unfolding unlock_from
  unlock wallet_id passphrase s = (unlock_from wallet_id passphrase (lookup wallet_id s.store), s)

  -- A seed that `create` returned is what `unlock` gives for the wallet and the passphrase from then on;
  -- for every other wallet `unlock` answers as before.
  pub unlock-create :
      IsAead c
      → (id : String) (passphrase seed : Bytes) (s s' : Seeds W)
      → create id passphrase s ≡ (ok seed, s')
      → (unlock id passphrase s' ≡ (ok seed, s'))
        × ((other : String) (pass : Bytes)
            → id ≢ other
            → (unlock other pass s').0 ≡ (unlock other pass s).0)
  unfolding create unlock
  unlock-create a id passphrase seed s s' h =
      bind-inv (with_world (new_seed c)) _ h λ seed' s1 p1 h1.
        bind-inv (with_world (seal c seed' passphrase)) _ h1 λ enc s2 p2 h2.
          let e1 : seed' ≡ seed = ground arith in
          let e2 : s'.store ≡ insert id enc s2.store = ground arith in
          let e3 : s2.store ≡ s.store = ground arith in
          let e4 : seal c seed' passphrase s1.world ≡ (ok enc, s2.world) = ground arith in
          let e5 : lookup id s'.store ≡ some enc =
            ap (lookup id) e2 ∙ lookup-insert id id enc s2.store ∙ rw (==_refl id) in
          (
            rw (e5, unlock_from)
                (rw (open_envelope-seal c a seed' passphrase s1.world s2.world enc e4, e1)),
            λ other pass ne. ap (unlock_from other pass) (
                ap (lookup other) e2
                ∙ lookup-insert id other enc s2.store
                ∙ rw (==_false id other ne) (ap (lookup other) e3)),
          )

  -- A `create` that failed has stored nothing.
  pub create_failed :
      (id : String) (passphrase : Bytes) (e : Error) (s s' : Seeds W)
      → create id passphrase s ≡ (err e, s')
      → s'.store ≡ s.store
  unfolding create
  create_failed id passphrase e s s' h = ground arith
