-- ===== src/Tests/Keys.antt =====
-- Paths, the keys that are derived along them, and a key store, at concrete values.
use Prim.Native.Nat.{suc, zero, ℕ, ◌+◌, ◌^◌}
use Prim.Native.String.{String}
use mathlib.Core.Bool.{false, true}
use mathlib.Core.List.{List, [], ◌++◌, ◌∷◌}
use mathlib.Core.Logic.{◌≢◌}
use mathlib.Core.Path.{refl, ◌≡◌}
use native.Mathlib.Omega.{arith}
use omnicatena.Base.{==_refl, All, if◌then◌else◌, length, nat_eq, string_eq, ◌==◌}
use omnicatena.Base.Bytes.{Bytes, codes}
use omnicatena.Base.Decimal.{decimal}
use omnicatena.Base.Map.{insert}
use omnicatena.Base.Result.{err, ok, sentinel}
use omnicatena.HdWallet.Derive.{Bip32, derive_key_ed25519}
use omnicatena.HdWallet.Derive.Laws.{IsHardened, derive_key_ed25519-eq_ok}
use omnicatena.HdWallet.Path.{parse_path}
use omnicatena.HdWallet.Path.Laws.{Component, parse_path-print_path, print_path}
use omnicatena.Keystore.{Crypto, IsAead, new_seed, seal}
use omnicatena.Keystore.Memory.{Seeds, create, unlock, unlock-create}

abbrev evm_path : List Component
evm_path = (44, true) ∷ (60, true) ∷ (0, false) ∷ []

parse_path-print_path_example :
    parse_path (codes "m/44'/60'/0") ≡ ok ((44 + 2 ^ 31) ∷ (60 + 2 ^ 31) ∷ 0 ∷ [])
unfolding omnicatena.Base.Decimal.decimal
parse_path-print_path_example =
    parse_path-print_path evm_path (λ e. absurd (cc))
      (omega arith, (omega arith, (omega arith, tt)))

-- A key is the list of the indices that led to it.
abbrev pub trail : Bip32 (List ℕ)
trail = record { new_master = λ seed. ok []; derive = λ key idx. ok (key ++ idx ∷ []) }

abbrev zeros : ℕ → Bytes
zeros zero = []
zeros (suc n) = 0 ∷ zeros n

abbrev flat : Bytes → Bytes → Bytes
flat key message = zeros 64

abbrev solana_path : List Component
solana_path = (44, true) ∷ (501, true) ∷ []

derive_flat : derive_key_ed25519 flat [] (print_path solana_path) ≡ ok (zeros 32)
unfolding derive_key_ed25519
derive_flat =
    rw (parse_path-print_path solana_path (λ e. absurd (cc)) (omega arith, (omega arith, tt))) refl

derive_key_ed25519-eq_ok_example :
    (indices : List ℕ) × (parse_path (print_path solana_path) ≡ ok indices)
    × All IsHardened indices
    × (length (zeros 32) ≡ 32)
derive_key_ed25519-eq_ok_example =
    derive_key_ed25519-eq_ok flat (λ key message. refl) [] (print_path solana_path) (zeros 32)
      derive_flat

-- The random source counts its reads; a sealed text carries its key in front.
abbrev pub toy : Crypto ℕ ℕ
toy = record {
  new_entropy = λ n w. (ok (w ∷ []), w + 1);
  new_mnemonic = λ entropy. ok "abandon";
  new_seed = λ mnemonic pass. codes mnemonic;
  read_full = λ n w. (ok (w ∷ []), w + 1);
  id_key = λ pass salt _ _ _ _. pass ++ salt;
  new_gcm = λ key. ok (length key);
  nonce_size = λ _. 12;
  seal = λ g nonce text. g ∷ text;
  open_sealed = λ g nonce sealed. elim sealed [
    | [] ↦ err (sentinel "short")
    | k ∷ text ↦ if k == g then ok text else err (sentinel "authentication failed")
  ];
}

pub toy-IsAead : IsAead toy
toy-IsAead = record { open-seal = λ g nonce text. rw (==_refl g) refl }

abbrev stored : Seeds ℕ
stored = record {
  store = ("w1", record { salt = 1 ∷ []; nonce = 2 ∷ []; ciphertext = 2 ∷ codes "abandon" }) ∷ [];
  world = 3;
}

create_w1 :
    create toy "w1" (5 ∷ []) (record { store = []; world = 0 }) ≡ (ok (codes "abandon"), stored)
unfolding create new_seed seal insert
create_w1 = refl

unlock-create_example :
    (unlock toy "w1" (5 ∷ []) stored ≡ (ok (codes "abandon"), stored))
    × ((other : String) (pass : Bytes)
        → "w1" ≢ other
        → (unlock toy other pass stored).0
          ≡ (unlock toy other pass (record { store = []; world = 0 })).0)
unlock-create_example =
    unlock-create toy toy-IsAead "w1" (5 ∷ []) (codes "abandon") (record { store = []; world = 0 })
      stored create_w1
