-- ===== src/Repository/Cursor.antt =====
-- internal/adapter/repository/cursor_postgres.go, over the table chain_cursors.
use Prim.Native.Nat.{ℕ, ◌<◌, ◌^◌}
use mathlib.Core.List.{[], ◌∷◌}
use mathlib.Core.Logic.{◌≢◌}
use mathlib.Core.Option.{Option, none, some}
use mathlib.Core.Path.{ap, refl, ◌∙◌, ◌≡◌}
use omnicatena.Base.{if◌then◌else◌}
use omnicatena.Base.Exec.{Exec, wrapped, wrapped-inv}
use omnicatena.Base.Int.{bits64, bits64-of_bits64, of_bits64, ℤ}
use omnicatena.Base.Result.{Result, err, is_error, ok, str, wrapf}
use omnicatena.Domain.{ChainId}

-- The two statements: SELECT block_height, and INSERT with ON CONFLICT DO UPDATE. The column is a
-- signed 64-bit number.
pub record CursorTable (S : Type 0) : Type 0 where
  pub select : ChainId → Exec S ℤ
  pub upsert : ChainId → ℤ → Exec S (Unit {0})

-- What PostgreSQL documents of an upsert: the row of the key has the value, the others stay.
pub record IsCursorTable {S : Type 0} (table : CursorTable S) : Type 0 where
  pub select-upsert :
      (chain : ChainId) (height : ℤ) (s t : S)
      → table.upsert chain height s ≡ (ok tt, t)
      → ((table.select chain t).0 ≡ ok height)
        × ((other : ChainId) → chain ≢ other → (table.select other t).0 ≡ (table.select other s).0)

read_height : ChainId → Result ℤ → Result (Option ℕ)
read_height chain (ok height) = ok (some (bits64 height))
read_height chain (err e) =
    if is_error e "ErrNoRows"
    then ok none
    else err (wrapf "repository: get cursor %s: %w" (str chain ∷ []) e)

module _ {S : Type 0} (table : CursorTable S) where
  unfoldable pub get : ChainId → Exec S (Option ℕ)
  unfolding read_height
  get chain s = let (r, t) = table.select chain s in (read_height chain r, t)

  unfoldable pub set : ChainId → ℕ → Exec S (Unit {0})
  set chain height =
      wrapped "repository: set cursor %s: %w" (str chain ∷ [])
        (table.upsert chain (of_bits64 height))

  -- A height of 64 bits that was stored for a chain is the one that is read for it, from 2⁶³ up as
  -- well, where the column holds a negative number; the other chains' cursors stay.
  pub get-set :
      IsCursorTable table
      → (chain : ChainId) (height : ℕ) (s t : S) → height < 2 ^ 64
      → set chain height s ≡ (ok tt, t)
      → ((get chain t).0 ≡ ok (some height))
        × ((other : ChainId) → chain ≢ other → (get other t).0 ≡ (get other s).0)
  unfolding get set
  get-set law chain height s t small h =
      let (same, others) = law.select-upsert chain (of_bits64 height) s t (
        wrapped-inv "repository: set cursor %s: %w" (str chain ∷ [])
          (table.upsert chain (of_bits64 height)) h) in
      (
        ap (read_height chain) same ∙ rw (read_height, bits64-of_bits64 height small) refl,
        λ other ne. ap (read_height other) (others other ne),
      )
