-- ===== src/HdWallet/Derive/Laws.antt =====
-- What key derivation does on the paths of the program.
use Prim.Native.Nat.{ℕ, ◌+◌, ◌<◌, ◌^◌, ◌≤◌}
use mathlib.Core.List.{List, [], map, map-append, ◌++◌, ◌∷◌}
use mathlib.Core.Logic.{inl, inr, ◌≢◌}
use mathlib.Core.Path.{refl, ◌≡◌}
use native.Mathlib.Omega.{arith}
use omnicatena.Base.{All, All-append, Bool-cases, drop, length, length-take, ltb, take, take_all}
use omnicatena.Base.Bytes.{Bytes, codes}
use omnicatena.Base.Int.{pos}
use omnicatena.Base.Result.{>>=-eq-ok, err, errorf, int, ok, wrap, ◌>>=◌}
use omnicatena.Domain.{ChainId}
use omnicatena.HdWallet.Derive.{
  Bip32, big_endian32, derive_all, derive_key, derive_key_ed25519, not_hardened, walk,
}
use omnicatena.HdWallet.Path.{bip44_path, coin_type, hardened_start, parse_path}
use omnicatena.HdWallet.Path.Laws.{
  Component, FitsU32, index_of, parse_path-bip44_path, parse_path-print_path, print_path,
}

append-ne-nil : (cs ds : List Component) → cs ≢ [] → cs ++ ds ≢ []
append-ne-nil [] ds h = absurd (h refl)
append-ne-nil (c ∷ cs) ds h = cc

module _ {Key : Type 0} (b : Bip32 Key) where
  derive_all-append :
      (key : Key) (xs ys : List ℕ)
      → derive_all b key (xs ++ ys) ≡ (derive_all b key xs >>= λ k. derive_all b k ys)
  unfolding derive_all
  derive_all-append key [] ys = refl
  derive_all-append key (x ∷ xs) ys =
      elim (b.derive key x)
        as (λ r.
          (wrap "hdwallet: derive index %d: %w" (int (pos x) ∷ []) r >>= λ k.
          derive_all b k (xs ++ ys))
          ≡ ((wrap "hdwallet: derive index %d: %w" (int (pos x) ∷ []) r >>= λ k. derive_all b k xs)
              >>= λ k. derive_all b k ys)) [ ok k ↦ derive_all-append k xs ys | err e ↦ refl ]

  -- Deriving along a path is deriving along its first components, and then from the key that they give
  -- along the others; a failure of the first part is the failure of the whole.
  pub derive_key-append :
      (seed : Bytes) (cs ds : List Component)
      → cs ≢ []
      → All FitsU32 cs
      → All FitsU32 ds
      → derive_key b seed (print_path (cs ++ ds))
        ≡ (derive_key b seed (print_path cs) >>= λ k. derive_all b k (map index_of ds))
  unfolding derive_key
  derive_key-append seed cs ds h fc fd =
      elim (wrap "hdwallet: master key: %w" [] (b.new_master seed))
        as (λ r. (r >>= λ m. parse_path (print_path (cs ++ ds)) >>= λ ixs. derive_all b m ixs) ≡ (
          (r >>= λ m. parse_path (print_path cs) >>= λ ixs. derive_all b m ixs) >>= λ k.
          derive_all b k (map index_of ds))) [
            | ok m ↦
                rw
                  (
                    parse_path-print_path (cs ++ ds) (append-ne-nil cs ds h)
                        (All-append FitsU32 cs ds fc fd),
                    parse_path-print_path cs h fc,
                    map-append,
                  )
                  (derive_all-append m (map index_of cs) (map index_of ds))
            | err e ↦ refl
          ]

abbrev pub IsHardened : ℕ → Type 0
IsHardened idx = hardened_start ≤ idx

module _ (hmac : Bytes → Bytes → Bytes) where
  -- The key is 32 bytes long all the way.
  walk-eq_ok :
      ((key message : Bytes) → length (hmac key message) ≡ 64)
      → (key chain_code : Bytes) (indices : List ℕ) (out : Bytes) → length key ≡ 32
      → walk hmac key chain_code indices ≡ ok out
      → (length out ≡ 32) × All IsHardened indices
  unfolding walk
  walk-eq_ok sized key chain_code [] out k h =
      let e : take 32 key ≡ out = ground arith in
      (rw (← e) (rw (take_all 32 key (omega arith)) k), tt)
  walk-eq_ok sized key chain_code (idx ∷ rest) out k h =
      let digest = hmac chain_code (0 ∷ (key ++ big_endian32 idx)) in
      elim (Bool-cases (ltb idx hardened_start)) [
        | inl low ↦ ground arith
        | inr high ↦
            let ih =
              walk-eq_ok sized (take 32 digest) (drop 32 digest) rest out
                (length-take 32 digest
                  (omega (arith, sized chain_code (0 ∷ (key ++ big_endian32 idx)))))
                (ground arith) in
            (ih.0, (ground arith, ih.1))
      ]

  -- A path with an index that is not hardened has no ed25519 key, whatever the key so far.
  walk-not_hardened :
      (key chain_code : Bytes) (indices : List ℕ) (idx : ℕ) (rest : List ℕ)
      → All IsHardened indices
      → idx < hardened_start
      → walk hmac key chain_code (indices ++ idx ∷ rest) ≡ err (not_hardened hmac idx)
  unfolding walk
  walk-not_hardened key chain_code [] idx rest hs h = ground arith
  walk-not_hardened key chain_code (i ∷ indices) idx rest (hi, hs) h =
      let digest = hmac chain_code (0 ∷ (key ++ big_endian32 i)) in
      ground (arith, walk-not_hardened (take 32 digest) (drop 32 digest) indices idx rest hs h)

  -- With an HMAC of 64 bytes, a path that yields an ed25519 key is parsed, all its indices are
  -- hardened, and the key has 32 bytes.
  pub derive_key_ed25519-eq_ok :
      ((key message : Bytes) → length (hmac key message) ≡ 64)
      → (seed path out : Bytes) → derive_key_ed25519 hmac seed path ≡ ok out
      → (indices : List ℕ) × (parse_path path ≡ ok indices)
        × All IsHardened indices
        × (length out ≡ 32)
  unfolding derive_key_ed25519
  derive_key_ed25519-eq_ok sized seed path out h =
      let digest = hmac (codes "ed25519 seed") seed in
      let (indices, parsed, walked) = >>=-eq-ok (parse_path path) _ h in
      let (size, hardened) =
        walk-eq_ok sized (take 32 digest) (drop 32 digest) indices out
          (length-take 32 digest (omega (arith, sized (codes "ed25519 seed") seed))) walked in
      (indices, parsed, hardened, size)

  -- The path that a wallet uses on a chain ends in indices that are not hardened, so it has no ed25519
  -- key, on any chain and from any seed: the derivation returns the error for the index 0.
  pub derive_key_ed25519-bip44_path :
      (seed : Bytes) (chain : ChainId)
      → derive_key_ed25519 hmac seed (bip44_path chain)
        ≡ err (
            errorf "hdwallet: ed25519 path requires all-hardened indices, got %d"
              (int (pos 0) ∷ []))
  unfolding derive_key_ed25519
  derive_key_ed25519-bip44_path seed chain =
      let digest = hmac (codes "ed25519 seed") seed in
      rw (parse_path-bip44_path chain) (
        walk-not_hardened (take 32 digest) (drop 32 digest)
          ((44 + 2 ^ 31) ∷ (coin_type chain + 2 ^ 31) ∷ (2 ^ 31) ∷ []) 0 (0 ∷ []) (omega arith)
          (omega arith))
