-- ===== src/Keystore/Contract.antt =====
-- What the use cases rely on of a `port.KeyStore` (internal/port/security.go).
-- What a key store promises: the seed that was made is what the passphrase opens, and the seeds of
-- other wallets stay.
use Prim.Native.String.{String}
use mathlib.Core.Logic.{◌≢◌}
use mathlib.Core.Path.{◌≡◌}
use omnicatena.Base.Bytes.{Bytes}
use omnicatena.Base.Result.{ok}
use omnicatena.Port.{KeyStore}

pub record IsKeyStore {S : Type 0} (keys : KeyStore S) : Type 0 where
  pub unlock-create :
      (id : String) (passphrase seed : Bytes) (s t : S)
      → keys.create id passphrase s ≡ (ok seed, t)
      → (keys.unlock id passphrase t).0 ≡ ok seed
  pub others :
      (id : String) (passphrase seed : Bytes) (s t : S)
      → keys.create id passphrase s ≡ (ok seed, t)
      → (other : String) (pass : Bytes) → id ≢ other
      → (keys.unlock other pass t).0 ≡ (keys.unlock other pass s).0
