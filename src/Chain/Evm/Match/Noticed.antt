-- ===== src/Chain/Evm/Match/Noticed.antt =====
-- No transfer from or to a watched address is passed over.
use Prim.Native.Nat.{ℕ}
use mathlib.Core.List.{List, [], flat_map, ◌∷◌}
use mathlib.Core.Logic.{inl, inr}
use mathlib.Core.Option.{some}
use mathlib.Core.Path.{refl, subst, sym, ◌≡◌}
use native.Mathlib.Omega.{arith}
use omnicatena.Base.{Any, Any-append_left, Any-append_right, Eq}
use omnicatena.Base.Int.{of_bits64, ℤ}
use omnicatena.Base.Map.{Map, lookup}
use omnicatena.Base.Result.{ok}
use omnicatena.Chain.Evm.Client.{TxView}
use omnicatena.Chain.Evm.Match.{
  address_of, inbound_of, match_transactions, outbound_of, sender_address, tx_event, watched_of,
}
use omnicatena.Chain.Evm.Match.Laws.{
  Occurs, add_watched_complete, events_of, match_all-flat_map, watched_of_sound,
}
use omnicatena.Domain.{Address, ChainId, TxEvent, TxEventType, inbound, outbound}

module _ {EthAddress Tx : Type 0} ⦃eq : Eq EthAddress⦄ (v : TxView EthAddress Tx) (chain : ChainId)
    (n block_time : ℕ) where
  -- An event that tells of the transaction, by an address that denotes the same account as `a`.
  abbrev pub Notices : TxEventType → Tx → Address → TxEvent → Type 0
  Notices kind tx a evt =
      (evt.kind ≡ kind)
      × (evt.chain ≡ chain)
      × (evt.hash ≡ v.hash_hex tx)
      × (evt.amount.base ≡ some (v.value tx))
      × (v.hex_to_address evt.address ≡ v.hex_to_address a)

  module _ (addrs : List Address) (a : Address) (occurs : Occurs a addrs) where
    abbrev watched : Map EthAddress Address
    watched = watched_of v addrs

    abbrev ts : ℤ
    ts = of_bits64 block_time

    found_inbound :
        (m : Map EthAddress Address) (tx : Tx) (k : EthAddress) (b : Address)
        → lookup k m ≡ some b
        → v.hex_to_address b ≡ v.hex_to_address a
        → Any (Notices inbound tx a) (inbound_of v chain n ts m tx (some k))
    unfolding inbound_of tx_event
    found_inbound m tx k b found same =
        let one : inbound_of v chain n ts m tx (some k)
            ≡ tx_event v inbound chain b (sender_address v chain n ts m (v.sender tx)) tx n ts
              ∷ [] =
          ground arith in
        subst (Any (Notices inbound tx a)) (sym one) (inl (refl, refl, refl, refl, same))

    inbound_noticed :
        (tx : Tx)
        → v.recipient tx ≡ some (v.hex_to_address a)
        → Any (Notices inbound tx a) (events_of v chain n ts watched tx)
    unfolding events_of watched_of
    inbound_noticed tx h =
        let (b, found) = add_watched_complete v [] addrs a occurs in
        let same = (watched_of_sound v addrs (v.hex_to_address a) b found).1 in
        Any-append_right (Notices inbound tx a) (outbound_of v chain n ts watched tx (v.sender tx))
          (inbound_of v chain n ts watched tx (v.recipient tx))
          (rw h (found_inbound watched tx (v.hex_to_address a) b found same))

    found_outbound :
        (m : Map EthAddress Address) (tx : Tx) (k : EthAddress) (b : Address)
        → lookup k m ≡ some b
        → v.hex_to_address b ≡ v.hex_to_address a
        → Any (Notices outbound tx a) (outbound_of v chain n ts m tx (ok k))
    unfolding outbound_of tx_event
    found_outbound m tx k b found same =
        let one : outbound_of v chain n ts m tx (ok k)
            ≡ tx_event v outbound chain b (address_of v (v.recipient tx)) tx n ts ∷ [] =
          ground arith in
        subst (Any (Notices outbound tx a)) (sym one) (inl (refl, refl, refl, refl, same))

    outbound_noticed :
        (tx : Tx)
        → v.sender tx ≡ ok (v.hex_to_address a)
        → Any (Notices outbound tx a) (events_of v chain n ts watched tx)
    unfolding events_of watched_of
    outbound_noticed tx h =
        let (b, found) = add_watched_complete v [] addrs a occurs in
        let same = (watched_of_sound v addrs (v.hex_to_address a) b found).1 in
        Any-append_left (Notices outbound tx a) (outbound_of v chain n ts watched tx (v.sender tx))
          (inbound_of v chain n ts watched tx (v.recipient tx))
          (rw h (found_outbound watched tx (v.hex_to_address a) b found same))

    block_noticed :
        (kind : TxEventType) (tx : Tx) (txs : List Tx)
        → Any (Notices kind tx a) (events_of v chain n ts watched tx)
        → Any (λ t. t ≡ tx) txs
        → Any (Notices kind tx a) (flat_map (events_of v chain n ts watched) txs)
    unfolding flat_map
    block_noticed kind tx [] h there = absurd there
    block_noticed kind tx (x ∷ rest) h (inl same) =
        Any-append_left (Notices kind tx a) (events_of v chain n ts watched x)
          (flat_map (events_of v chain n ts watched) rest)
          (subst (λ t. Any (Notices kind tx a) (events_of v chain n ts watched t)) (sym same) h)
    block_noticed kind tx (x ∷ rest) h (inr later) =
        Any-append_right (Notices kind tx a) (events_of v chain n ts watched x)
          (flat_map (events_of v chain n ts watched) rest) (block_noticed kind tx rest h later)

    -- A transaction of the block from an account that a watched address denotes gives an outbound event,
    -- and one to such an account an inbound event.
    pub match_transactions-Notices :
        (tx : Tx) (txs : List Tx)
        → Any (λ t. t ≡ tx) txs
        → (v.sender tx ≡ ok (v.hex_to_address a)
            → Any (Notices outbound tx a) (match_transactions v chain txs n block_time watched))
          × (v.recipient tx ≡ some (v.hex_to_address a)
              → Any (Notices inbound tx a) (match_transactions v chain txs n block_time watched))
    unfolding match_transactions
    match_transactions-Notices tx txs there =
        let whole = sym (match_all-flat_map v chain n ts watched [] txs) in
        (
          λ h.
              subst (Any (Notices outbound tx a)) whole
                (block_noticed outbound tx txs (outbound_noticed tx h) there),
          λ h.
              subst (Any (Notices inbound tx a)) whole
                (block_noticed inbound tx txs (inbound_noticed tx h) there),
        )
