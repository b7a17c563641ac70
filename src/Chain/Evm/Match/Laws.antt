-- ===== src/Chain/Evm/Match/Laws.antt =====
-- Which events a block gives.
use Prim.Native.Nat.{ℕ}
use mathlib.Core.List.{List, [], append-nil, append_assoc, flat_map, ◌++◌, ◌∷◌}
use mathlib.Core.Logic.{inl, inr, ◌⊎◌}
use mathlib.Core.Option.{some}
use mathlib.Core.Path.{refl, subst, sym, ◌∙◌, ◌≡◌}
use native.Mathlib.Omega.{arith}
use omnicatena.Base.{==_refl, All, Bool-cases, Eq, ◌==◌}
use omnicatena.Base.Int.{ℤ}
use omnicatena.Base.Map.{Map, insert, lookup, lookup-insert}
use omnicatena.Chain.Evm.Client.{TxView}
use omnicatena.Chain.Evm.Match.{add_watched, inbound_of, match_all, outbound_of, watched_of}
use omnicatena.Domain.{Address, ChainId, TxEvent}

abbrev pub Occurs : Address → List Address → Type 0
Occurs a [] = ⊥
Occurs a (b ∷ rest) = (a ≡ b) ⊎ Occurs a rest

module _ {EthAddress Tx : Type 0} ⦃e : Eq EthAddress⦄ (v : TxView EthAddress Tx) where
  -- The events of one transaction: as sender, then as recipient.
  unfoldable pub events_of : ChainId → ℕ → ℤ → Map EthAddress Address → Tx → List TxEvent
  events_of chain n ts watched tx =
      outbound_of v chain n ts watched tx (v.sender tx)
      ++ inbound_of v chain n ts watched tx (v.recipient tx)

  pub match_all-flat_map :
      (chain : ChainId) (n : ℕ) (ts : ℤ) (watched : Map EthAddress Address) (events : List TxEvent)
      (txs : List Tx)
      → match_all v chain n ts watched events txs
        ≡ events ++ flat_map (events_of chain n ts watched) txs
  unfolding match_all flat_map events_of
  match_all-flat_map chain n ts watched events [] = sym (append-nil events)
  match_all-flat_map chain n ts watched events (tx ∷ rest) =
      match_all-flat_map chain n ts watched
        ((events ++ outbound_of v chain n ts watched tx (v.sender tx))
          ++ inbound_of v chain n ts watched tx (v.recipient tx))
        rest
      ∙ simp append_assoc

  -- What the watched map finds is an address of the list, and denotes the account that was looked up.
  add_watched_sound :
      (all : List Address) (m : Map EthAddress Address) (addrs : List Address) (k : EthAddress)
      (a : Address)
      → ((j : EthAddress) (b : Address)
          → lookup j m ≡ some b
          → Occurs b all × (v.hex_to_address b ≡ j))
      → All (λ b. Occurs b all) addrs
      → lookup k (add_watched v m addrs) ≡ some a
      → Occurs a all × (v.hex_to_address a ≡ k)
  unfolding add_watched
  add_watched_sound all m [] k a good h found = good k a found
  add_watched_sound all m (b ∷ rest) k a good (hb, hrest) found =
      add_watched_sound all (insert (v.hex_to_address b) b m) rest k a
        (λ j c q. grind (
          arith,
          lookup-insert (v.hex_to_address b) j b m,
          e.beq_iff (v.hex_to_address b) j,
          good j c,
        ))
        hrest found

  add_watched-keeps :
      (m : Map EthAddress Address) (addrs : List Address) (k : EthAddress) (a : Address)
      → lookup k m ≡ some a
      → (b : Address) × (lookup k (add_watched v m addrs) ≡ some b)
  unfolding add_watched
  add_watched-keeps m [] k a found = (a, found)
  add_watched-keeps m (b ∷ rest) k a found = elim (Bool-cases (v.hex_to_address b == k)) [
    | inl same ↦
        add_watched-keeps (insert (v.hex_to_address b) b m) rest k b
          (lookup-insert (v.hex_to_address b) k b m ∙ rw same)
    | inr other ↦
        add_watched-keeps (insert (v.hex_to_address b) b m) rest k a
          (lookup-insert (v.hex_to_address b) k b m ∙ rw other found)
  ]

  pub add_watched_complete :
      (m : Map EthAddress Address) (addrs : List Address) (a : Address)
      → Occurs a addrs
      → (b : Address) × (lookup (v.hex_to_address a) (add_watched v m addrs) ≡ some b)
  unfolding add_watched
  add_watched_complete m [] a h = absurd h
  add_watched_complete m (b ∷ rest) a (inl same) =
      add_watched-keeps (insert (v.hex_to_address b) b m) rest (v.hex_to_address a) b (
        lookup-insert (v.hex_to_address b) (v.hex_to_address a) b m
        ∙ rw (same, ==_refl (v.hex_to_address b)))
  add_watched_complete m (b ∷ rest) a (inr later) =
      add_watched_complete (insert (v.hex_to_address b) b m) rest a later

  Occurs-All : (all pre addrs : List Address) → all ≡ pre ++ addrs → All (λ b. Occurs b all) addrs
  Occurs-All all pre [] h = tt
  Occurs-All all pre (b ∷ rest) h = (
    subst (Occurs b) (sym h) (Occurs_middle pre b rest),
    Occurs-All all (pre ++ b ∷ []) rest (h ∙ sym (append_assoc pre (b ∷ []) rest)),
  )
    where
      Occurs_middle :
          (pre : List Address) (b : Address) (rest : List Address) → Occurs b (pre ++ b ∷ rest)
      Occurs_middle [] b rest = inl refl
      Occurs_middle (c ∷ pre) b rest = inr (Occurs_middle pre b rest)

  -- The watched address under which an account is found is one of the list that denotes it.
  pub watched_of_sound :
      (addrs : List Address) (k : EthAddress) (a : Address)
      → lookup k (watched_of v addrs) ≡ some a
      → Occurs a addrs × (v.hex_to_address a ≡ k)
  unfolding watched_of lookup
  watched_of_sound addrs k a found =
      add_watched_sound addrs [] addrs k a (λ j b q. absurd (cc)) (Occurs-All addrs [] addrs refl)
        found
