-- ===== src/Tests/Stores.antt =====
-- The stores over a database and the publisher, at concrete values. A table is an association list.
use Prim.Native.Nat.{ℕ, ◌-◌, ◌^◌, ◌≤◌}
use Prim.Native.String.{String}
use mathlib.Core.List.{[], ◌∷◌}
use mathlib.Core.Logic.{◌≢◌}
use mathlib.Core.Option.{Option, none, some}
use mathlib.Core.Path.{ap, refl, ◌∙◌, ◌≡◌}
use native.Mathlib.Omega.{arith}
use omnicatena.Base.{==_false, ==_refl, string_eq}
use omnicatena.Base.Bytes.{Bytes, codes}
use omnicatena.Base.Int.{negsuc, ℤ}
use omnicatena.Base.Map.{Map, insert, lookup, lookup-insert}
use omnicatena.Base.Result.{Result, err, ok, sentinel, str, wrap, wrapf}
use omnicatena.Domain.{ChainId, TxEvent}
use omnicatena.Events.Kafka.{publish, unknown_topic}
use omnicatena.Events.Kafka.Retries.{IsFinal, missing, publish-eq, scripted}
use omnicatena.Keystore.{Envelope}
use omnicatena.Keystore.Postgres.{Backend, EnvelopeTable, IsEnvelopeTable}
use omnicatena.Repository.Cursor
use omnicatena.Repository.Cursor.{CursorTable, IsCursorTable, get-set}
use omnicatena.Tests.Fixtures.{paid}

row_or_missing {ℓ} : {V : Type ℓ} → Option V → Result V
row_or_missing none = err (sentinel "ErrNoRows")
row_or_missing (some row) = ok row

module _ {V : Type 0} where
  unfoldable pub select_row : String → Map String V → Result V × Map String V
  unfolding row_or_missing
  select_row key rows = (row_or_missing (lookup key rows), rows)

  unfoldable pub upsert_row : String → V → Map String V → Result (Unit {0}) × Map String V
  upsert_row key row rows = (ok tt, insert key row rows)

  select_row-upsert_row :
      (key : String) (row : V) (s t : Map String V)
      → upsert_row key row s ≡ (ok tt, t)
      → ((select_row key t).0 ≡ ok row)
        × ((other : String) → key ≢ other → (select_row other t).0 ≡ (select_row other s).0)
  unfolding select_row upsert_row
  select_row-upsert_row key row s t h =
      let e : t ≡ insert key row s = cc in
      let same : lookup key t ≡ some row =
        ap (lookup key) e ∙ lookup-insert key key row s ∙ rw (==_refl key) refl in
      let kept : (other : String) → key ≢ other → lookup other t ≡ lookup other s = λ other ne.
        ap (lookup other) e ∙ lookup-insert key other row s ∙ rw (==_false key other ne) refl in
      (ap row_or_missing same, λ other ne. ap row_or_missing (kept other ne))

abbrev heights : CursorTable (Map String ℤ)
heights = record { select = select_row; upsert = upsert_row }

heights-IsCursorTable : IsCursorTable heights
heights-IsCursorTable = record { select-upsert = select_row-upsert_row }

abbrev high : Map String ℤ
high = ("base", negsuc (2 ^ 63 - 1)) ∷ []

set_high : Cursor.set heights "base" (2 ^ 63) [] ≡ (ok tt, high)
unfolding Cursor.set upsert_row insert
set_high = refl

get-set_example :
    ((Cursor.get heights "base" high).0 ≡ ok (some (2 ^ 63)))
    × ((other : ChainId)
        → "base" ≢ other
        → (Cursor.get heights other high).0 ≡ (Cursor.get heights other []).0)
get-set_example =
    get-set heights heights-IsCursorTable "base" (2 ^ 63) [] high (omega arith) set_high

abbrev envelopes : EnvelopeTable (Map String Envelope)
envelopes = record { select = select_row; upsert = upsert_row }

envelopes-IsEnvelopeTable : IsEnvelopeTable envelopes
envelopes-IsEnvelopeTable = record { select-upsert = select_row-upsert_row }

abbrev fresh : Backend ℕ (Map String Envelope)
fresh = record { db = []; world = 0 }

abbrev filled : Backend ℕ (Map String Envelope)
filled = record {
  db = ("w1", record { salt = 1 ∷ []; nonce = 2 ∷ []; ciphertext = 2 ∷ codes "abandon" }) ∷ [];
  world = 3;
}

abbrev to_bytes : TxEvent → Result Bytes
to_bytes evt = ok (codes evt.hash)

publish-eq_example :
    ((k : ℕ) (r : Result (Unit {0}))
      → k ≤ 4
      → IsFinal r
      → publish scripted to_bytes (paid "alice") (missing k (r ∷ ok tt ∷ []))
        ≡ (wrap "kafka: publish %s: %w" (str "0x1" ∷ []) r, ok tt ∷ []))
    × (publish scripted to_bytes (paid "alice") (missing 5 (ok tt ∷ [])) ≡ (
      err (wrapf "kafka: publish %s: %w" (str "0x1" ∷ []) (sentinel unknown_topic)),
      ok tt ∷ [],
    ))
publish-eq_example = publish-eq to_bytes (paid "alice") (codes "0x1") (ok tt ∷ []) refl
