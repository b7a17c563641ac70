-- ===== src/HdWallet/Derive.antt =====
-- `DeriveKey` and `DeriveKeyEd25519` of internal/hdwallet/hdwallet.go.
pub mod Laws
use Prim.Native.Nat.{ℕ, ◌%◌, ◌/◌, ◌^◌}
use mathlib.Core.Bool.{Bool, false, true}
use mathlib.Core.List.{List, [], ◌++◌, ◌∷◌}
use omnicatena.Base.{drop, ltb, take}
use omnicatena.Base.Bytes.{Bytes, codes}
use omnicatena.Base.Int.{pos}
use omnicatena.Base.Result.{Error, Result, err, errorf, int, ok, wrap, ◌>>=◌, ◌>>◌}
use omnicatena.HdWallet.Path.{hardened_start, parse_path}

-- hdkeychain's NewMaster(seed, &chaincfg.MainNetParams) and ExtendedKey.Derive.
pub record Bip32 (Key : Type 0) : Type 0 where
  pub new_master : Bytes → Result Key
  pub derive : Key → ℕ → Result Key

module _ {Key : Type 0} (b : Bip32 Key) where
  -- the loop of DeriveKey
  pub derive_all : Key → List ℕ → Result Key
  derive_all key [] = ok key
  derive_all key (idx ∷ rest) = do
    key' ← wrap "hdwallet: derive index %d: %w" (int (pos idx) ∷ []) (b.derive key idx)
    derive_all key' rest

  unfoldable pub derive_key : Bytes → Bytes → Result Key
  unfolding derive_all
  derive_key seed path = do
    master ← wrap "hdwallet: master key: %w" [] (b.new_master seed)
    indices ← parse_path path
    derive_all master indices

-- binary.BigEndian.PutUint32
abbrev pub big_endian32 : ℕ → Bytes
big_endian32 n = (n / 2 ^ 24) ∷ (n / 2 ^ 16 % 256) ∷ (n / 2 ^ 8 % 256) ∷ (n % 256) ∷ []

-- `hmac key message` is HMAC-SHA512.
module _ (hmac : Bytes → Bytes → Bytes) where
  not_hardened : ℕ → Error
  not_hardened idx =
      errorf "hdwallet: ed25519 path requires all-hardened indices, got %d" (int (pos idx) ∷ [])

  -- The loop: each round takes the HMAC of 0x00, the key and the index under the chain code, and
  -- splits it into the next key and chain code. `out` is 32 bytes, as the key is.
  walk : Bytes → Bytes → List ℕ → Result Bytes
  walk key chain_code [] = ok (take 32 key)
  walk key chain_code (idx ∷ rest) = elim (ltb idx hardened_start) [
    | true ↦ err (not_hardened idx)
    | false ↦
        let digest = hmac chain_code (0 ∷ (key ++ big_endian32 idx)) in
        walk (take 32 digest) (drop 32 digest) rest
  ]

  unfoldable pub derive_key_ed25519 : Bytes → Bytes → Result Bytes
  unfolding walk not_hardened
  derive_key_ed25519 seed path =
      let digest = hmac (codes "ed25519 seed") seed in
      do indices ← parse_path path; walk (take 32 digest) (drop 32 digest) indices
