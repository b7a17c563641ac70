-- ===== src/Chain/Registry.antt =====
-- internal/adapter/chain/registry.go. `W` is port.ChainWatcher, by its chain; `range` is the order in
-- which Go ranges over a map.
use mathlib.Core.Bool.{false}
use mathlib.Core.List.{List, [], ◌∷◌}
use mathlib.Core.Logic.{inl, inr, ◌≢◌, ◌⊎◌}
use mathlib.Core.Option.{Option, none, some, some-injective}
use mathlib.Core.Path.{ap, refl, subst, sym, ◌∙◌, ◌≡◌}
use native.Mathlib.Omega.{arith}
use omnicatena.Base.{==_false, All, Any, Bool-cases, if◌then◌else◌, string_eq, ◌==◌}
use omnicatena.Base.Map.{Map, insert, keys, lookup, lookup-insert, lookup-nil}
use omnicatena.Base.Result.{Result, err, errorf, ok, str}
use omnicatena.Domain.{ChainId}
use omnicatena.Port.{ChainAdapter}

pub record Registry (S W : Type 0) : Type 0 where
  pub adapters : Map ChainId (ChainAdapter S)
  pub watchers : Map ChainId W

module _ {S : Type 0} where
  -- the loop of NewRegistry
  unfoldable pub add_adapters :
      Map ChainId (ChainAdapter S) → List (ChainAdapter S) → Map ChainId (ChainAdapter S)
  add_adapters m [] = m
  add_adapters m (a ∷ rest) = add_adapters (insert a.chain a m) rest

module _ {S W : Type 0} where
  unfoldable pub new_registry : List (ChainAdapter S) → Registry S W
  unfolding add_adapters
  new_registry adapters = record { adapters = add_adapters [] adapters; watchers = [] }

  unfoldable pub register_watcher : ChainId → W → Registry S W → Registry S W
  register_watcher chain w r = record r { watchers = insert chain w r.watchers }

  unfoldable pub adapter : Registry S W → ChainId → Result (ChainAdapter S)
  adapter r chain = elim (lookup chain r.adapters) [
    | none ↦ err (errorf "chain: no adapter for %s" (str chain ∷ []))
    | some a ↦ ok a
  ]

  unfoldable pub watcher : Registry S W → ChainId → Result W
  watcher r chain = elim (lookup chain r.watchers) [
    | none ↦ err (errorf "chain: no watcher for %s" (str chain ∷ []))
    | some w ↦ ok w
  ]

  unfoldable pub supported :
      (Map ChainId (ChainAdapter S) → Map ChainId (ChainAdapter S)) → Registry S W → List ChainId
  supported range r = keys (range r.adapters)

module _ {S W : Type 0} where
  pub watcher-register_watcher :
      (chain other : ChainId) (w : W) (r : Registry S W)
      → watcher (register_watcher chain w r) other
        ≡ (if chain == other then ok w else watcher r other)
  unfolding watcher register_watcher
  watcher-register_watcher chain other w r =
      ap
        (λ o. elim o [
          | none ↦ err (errorf "chain: no watcher for %s" (str other ∷ []))
          | some v ↦ ok v
        ])
        (lookup-insert chain other w r.watchers)
      ∙ ground arith

module _ {S : Type 0} where
  -- The last adapter of the list that serves the chain.
  abbrev pub last_for :
      ChainId → List (ChainAdapter S) → Option (ChainAdapter S) → Option (ChainAdapter S)
  last_for chain [] found = found
  last_for chain (a ∷ rest) found = last_for chain rest (if a.chain == chain then some a else found)

  lookup-add_adapters :
      (chain : ChainId) (m : Map ChainId (ChainAdapter S)) (adapters : List (ChainAdapter S))
      → lookup chain (add_adapters m adapters) ≡ last_for chain adapters (lookup chain m)
  unfolding add_adapters
  lookup-add_adapters chain m [] = refl
  lookup-add_adapters chain m (a ∷ rest) =
      lookup-add_adapters chain (insert a.chain a m) rest
      ∙ ap (last_for chain rest) (lookup-insert a.chain chain a m)

  last_for-chain :
      (chain : ChainId) (adapters : List (ChainAdapter S)) (found : Option (ChainAdapter S))
      → ((b : ChainAdapter S) → found ≡ some b → b.chain ≡ chain)
      → (a : ChainAdapter S) → last_for chain adapters found ≡ some a
      → a.chain ≡ chain
  last_for-chain chain [] found good a h = good a h
  last_for-chain chain (b ∷ rest) found good a h = elim (Bool-cases (b.chain == chain)) [
    | inl same ↦
        last_for-chain chain rest (some b)
          (λ c e.
            ap (λ (x : ChainAdapter S). x.chain) (sym (some-injective b c e))
            ∙ (string_eq.beq_iff b.chain chain).0 same)
          a (rw same at h)
    | inr other ↦ last_for-chain chain rest found good a (rw other at h)
  ]

  last_for-All :
      (P : ChainAdapter S → Type 0) (chain : ChainId) (adapters : List (ChainAdapter S))
      (found : Option (ChainAdapter S))
      → All P adapters
      → ((b : ChainAdapter S) → found ≡ some b → P b)
      → (a : ChainAdapter S) → last_for chain adapters found ≡ some a
      → P a
  last_for-All P chain [] found _ good a h = good a h
  last_for-All P chain (b ∷ rest) found (pb, holds) good a h =
      elim (Bool-cases (b.chain == chain)) [
        | inl same ↦
            last_for-All P chain rest (some b) holds (λ c e. subst P (some-injective b c e) pb) a
              (rw same at h)
        | inr other ↦ last_for-All P chain rest found holds good a (rw other at h)
      ]

  pub last_for-some :
      (chain : ChainId) (adapters : List (ChainAdapter S)) (found : Option (ChainAdapter S))
      → Any (λ a. a.chain ≡ chain) adapters ⊎ ((b : ChainAdapter S) × (found ≡ some b))
      → (a : ChainAdapter S) × (last_for chain adapters found ≡ some a)
  last_for-some chain [] found (inl none_there) = absurd none_there
  last_for-some chain [] found (inr (b, e)) = (b, e)
  last_for-some chain (a ∷ rest) found h = elim (Bool-cases (a.chain == chain)) [
    | inl same ↦
        last_for-some chain rest (if a.chain == chain then some a else found) (inr (a, rw same))
    | inr other ↦ let (b, e) = last_for-some chain rest found (later other h) in (b, rw other e)
  ]
    where
      later :
          (a.chain == chain) ≡ false
          → Any (λ b. b.chain ≡ chain) (a ∷ rest) ⊎ ((b : ChainAdapter S) × (found ≡ some b))
          → Any (λ b. b.chain ≡ chain) rest ⊎ ((b : ChainAdapter S) × (found ≡ some b))
      later other (inl (inl same)) = absurd (ground (arith, string_eq.beq_iff a.chain chain))
      later other (inl (inr x)) = inl x
      later other (inr x) = inr x

  pub last_for-none :
      (chain : ChainId) (adapters : List (ChainAdapter S)) (found : Option (ChainAdapter S))
      → All (λ a. a.chain ≢ chain) adapters
      → last_for chain adapters found ≡ found
  last_for-none chain [] found h = refl
  last_for-none chain (a ∷ rest) found (ne, h) =
      rw (==_false a.chain chain ne) (last_for-none chain rest found h)

module _ {S : Type 0} (W : Type 0) where
  -- A registry answers for a chain with the last of its adapters that serves it, and so never with
  -- an adapter of another chain; it fails exactly for a chain that none of them serves.
  pub adapter-new_registry :
      (adapters : List (ChainAdapter S)) (chain : ChainId)
      → (adapter (new_registry {W = W} adapters) chain ≡ elim (last_for chain adapters none) [
        | none ↦ err (errorf "chain: no adapter for %s" (str chain ∷ []))
        | some a ↦ ok a
      ])
        × ((a : ChainAdapter S)
            → adapter (new_registry {W = W} adapters) chain ≡ ok a
            → a.chain ≡ chain)
  unfolding adapter new_registry
  adapter-new_registry adapters chain =
      let e =
        lookup-add_adapters chain [] adapters ∙ ap (last_for chain adapters) (lookup-nil chain) in
      (
        rw (e, adapter) refl,
        λ a h. last_for-chain chain adapters none (λ b q. absurd (cc)) a (ground (arith, e)),
      )

  -- What holds of all adapters holds of the one that a registry answers with.
  pub adapter-All :
      (P : ChainAdapter S → Type 0) (adapters : List (ChainAdapter S)) (chain : ChainId)
      (a : ChainAdapter S)
      → All P adapters
      → adapter (new_registry {W = W} adapters) chain ≡ ok a
      → P a
  adapter-All P adapters chain a holds h =
      go (last_for chain adapters none) refl (sym ((adapter-new_registry adapters chain).0) ∙ h)
    where
      go :
          (o : Option (ChainAdapter S))
          → last_for chain adapters none ≡ o
          → ◌≡◌ {A = Result (ChainAdapter S)}
              (elim o [
                | none ↦ err (errorf "chain: no adapter for %s" (str chain ∷ []))
                | some b ↦ ok b
              ])
              (ok a)
          → P a
      go none e k = absurd (cc)
      go (some b) e k =
          subst P (ap (λ x. elim x [ ok y ↦ y | err _ ↦ b ]) k)
            (last_for-All P chain adapters none holds (λ c q. absurd (cc)) b e)
