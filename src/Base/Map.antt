-- ===== src/Base/Map.antt =====
-- Go maps as association lists. `insert` is `m[k] = v`, `lookup` is `v, ok := m[k]`.
use mathlib.Core.List.{List, [], map, ◌∷◌}
use mathlib.Core.Option.{Option, none, some}
use mathlib.Core.Path.{refl, ◌≡◌}
use native.Mathlib.Omega.{arith}
use omnicatena.Base.Equality.{Eq, ◌==◌}
use omnicatena.Base.Tests.{if◌then◌else◌}

abbrev pub Map {ℓ κ} : Type ℓ → Type κ → Type (ℓ ⊔ κ)
Map K V = List (K × V)

abbrev pub keys {ℓ κ} : {K : Type ℓ} {V : Type κ} → Map K V → List K
keys = map (λ (k, _). k)

module _ {ℓ κ} {K : Type ℓ} {V : Type κ} ⦃e : Eq K⦄ where
  unfoldable pub lookup : K → Map K V → Option V
  lookup key [] = none
  lookup key (entry ∷ rest) = if entry.0 == key then some entry.1 else lookup key rest

  pub lookup-nil : (key : K) → lookup key [] ≡ none
  unfolding lookup
  lookup-nil key = refl

  -- The entry of a key that is there is replaced in its place.
  unfoldable pub insert : K → V → Map K V → Map K V
  insert key val [] = (key, val) ∷ []
  insert key val (entry ∷ rest) =
      if entry.0 == key then (key, val) ∷ rest else entry ∷ insert key val rest

  pub lookup-insert :
      (key other : K) (val : V) (entries : Map K V)
      → lookup other (insert key val entries)
        ≡ (if key == other then some val else lookup other entries)
  unfolding lookup insert
  lookup-insert key other val [] = refl
  lookup-insert key other val (entry ∷ rest) =
      let ih = lookup-insert key other val rest in
      ground (arith, ih, e.beq_iff entry.0 key, e.beq_iff entry.0 other, e.beq_iff key other)
