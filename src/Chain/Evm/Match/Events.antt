-- ===== src/Chain/Evm/Match/Events.antt =====
-- Every event that a block gives is about a watched address, and a transfer between two watched
-- addresses gives two.
use Prim.Native.Nat.{ℕ}
use mathlib.Core.List.{List, [], append_assoc, flat_map, ◌++◌, ◌∷◌}
use mathlib.Core.Logic.{inl, inr, ◌⊎◌}
use mathlib.Core.Option.{Option, none, some}
use mathlib.Core.Path.{ap, ap₂, refl, subst, sym, ◌∙◌, ◌≡◌}
use native.Mathlib.Omega.{arith}
use omnicatena.Base.{All, All-append, All-mono, Any, Eq}
use omnicatena.Base.Int.{of_bits64, ℤ}
use omnicatena.Base.Map.{Map, lookup}
use omnicatena.Base.Result.{Result, err, ok}
use omnicatena.Chain.Evm.Client.{TxView}
use omnicatena.Chain.Evm.Match.{
  address_of, inbound_of, match_transactions, outbound_of, sender_address, tx_event, watched_of,
}
use omnicatena.Chain.Evm.Match.Laws.{
  Occurs, add_watched_complete, events_of, match_all-flat_map, watched_of_sound,
}
use omnicatena.Domain.{Address, ChainId, TxEvent, confirmed, inbound, outbound}

module _ {EthAddress Tx : Type 0} ⦃e : Eq EthAddress⦄ (v : TxView EthAddress Tx) where
  -- What an event tells of a transaction in block `n`, as its sender or as its recipient.
  pub record Describes (chain : ChainId) (n block_time : ℕ) (tx : Tx) (evt : TxEvent) : Type 0 where
    pub chain_same : evt.chain ≡ chain
    pub hash_same : evt.hash ≡ v.hash_hex tx
    pub amount_same : evt.amount.base ≡ some (v.value tx)
    pub is_confirmed : evt.status ≡ confirmed
    pub height : evt.block_height ≡ n
    pub time : evt.timestamp ≡ of_bits64 block_time
    pub side :
        ((evt.kind ≡ outbound) × (v.sender tx ≡ ok (v.hex_to_address evt.address)))
        ⊎ ((evt.kind ≡ inbound) × (v.recipient tx ≡ some (v.hex_to_address evt.address)))

  module _ (chain : ChainId) (n block_time : ℕ) (addrs : List Address) where
    abbrev watched : Map EthAddress Address
    watched = watched_of v addrs

    abbrev ts : ℤ
    ts = of_bits64 block_time

    abbrev IsAbout : Tx → TxEvent → Type 0
    IsAbout tx evt = Occurs evt.address addrs × Describes chain n block_time tx evt

    outbound_of-IsAbout :
        (tx : Tx) (r : Result EthAddress)
        → v.sender tx ≡ r
        → All (IsAbout tx) (outbound_of v chain n ts watched tx r)
    unfolding outbound_of tx_event
    outbound_of-IsAbout tx (err f) h = tt
    outbound_of-IsAbout tx (ok from) h = go (lookup from watched) refl
      where
        go :
            (o : Option Address)
            → lookup from watched ≡ o
            → All (IsAbout tx) (elim o [
              | none ↦ []
              | some addr ↦
                  tx_event v outbound chain addr (address_of v (v.recipient tx)) tx n ts ∷ []
            ])
        go none found = tt
        go (some addr) found =
            let (occurs, same) = watched_of_sound v addrs from addr found in
            (
              (
                occurs,
                record {
                  chain_same = refl;
                  hash_same = refl;
                  amount_same = refl;
                  is_confirmed = refl;
                  height = refl;
                  time = refl;
                  side = inl (refl, h ∙ ap ok (sym same));
                },
              ),
              tt,
            )

    inbound_of-IsAbout :
        (tx : Tx) (r : Option EthAddress)
        → v.recipient tx ≡ r
        → All (IsAbout tx) (inbound_of v chain n ts watched tx r)
    unfolding inbound_of tx_event
    inbound_of-IsAbout tx none h = tt
    inbound_of-IsAbout tx (some to) h = go (lookup to watched) refl
      where
        go :
            (o : Option Address)
            → lookup to watched ≡ o
            → All (IsAbout tx) (elim o [
              | none ↦ []
              | some addr ↦
                  tx_event v inbound chain addr
                    (sender_address v chain n ts watched (v.sender tx))
                    tx
                    n
                    ts
                  ∷ []
            ])
        go none found = tt
        go (some addr) found =
            let (occurs, same) = watched_of_sound v addrs to addr found in
            (
              (
                occurs,
                record {
                  chain_same = refl;
                  hash_same = refl;
                  amount_same = refl;
                  is_confirmed = refl;
                  height = refl;
                  time = refl;
                  side = inr (refl, h ∙ ap some (sym same));
                },
              ),
              tt,
            )

    abbrev pub IsFromBlock : List Tx → TxEvent → Type 0
    IsFromBlock txs evt =
        Occurs evt.address addrs × Any (λ tx. Describes chain n block_time tx evt) txs

    flat_map-IsFromBlock :
        (txs : List Tx) → All (IsFromBlock txs) (flat_map (events_of v chain n ts watched) txs)
    unfolding flat_map events_of
    flat_map-IsFromBlock [] = tt
    flat_map-IsFromBlock (tx ∷ rest) =
        All-append (IsFromBlock (tx ∷ rest)) (events_of v chain n ts watched tx) _
          (All-mono (events_of v chain n ts watched tx) (λ evt (o, d). (o, inl d))
            (All-append (IsAbout tx) (outbound_of v chain n ts watched tx (v.sender tx)) _
              (outbound_of-IsAbout tx (v.sender tx) refl)
              (inbound_of-IsAbout tx (v.recipient tx) refl)))
          (All-mono (flat_map (events_of v chain n ts watched) rest) (λ evt (o, d). (o, inr d))
            (flat_map-IsFromBlock rest))

    -- Every event of a block bears one of the watched addresses, and tells of one of the block's
    -- transactions: its chain, hash, value, height and time, with the address as the one that denotes
    -- the sender (outbound) or the recipient (inbound).
    pub match_transactions-IsFromBlock :
        (txs : List Tx)
        → All (IsFromBlock txs) (match_transactions v chain txs n block_time (watched_of v addrs))
    unfolding match_transactions
    match_transactions-IsFromBlock txs =
        subst (All (IsFromBlock txs)) (sym (match_all-flat_map v chain n ts watched [] txs))
          (flat_map-IsFromBlock txs)

    flat_map-append :
        (f : Tx → List TxEvent) (xs ys : List Tx)
        → flat_map f (xs ++ ys) ≡ flat_map f xs ++ flat_map f ys
    unfolding flat_map
    flat_map-append f [] ys = refl
    flat_map-append f (x ∷ xs) ys = simp (flat_map-append f xs ys, append_assoc)

    found_event :
        (a : Address)
        → Occurs a addrs
        → (b : Address) × (lookup (v.hex_to_address a) (watched_of v addrs) ≡ some b)
    unfolding watched_of
    found_event a h = add_watched_complete v [] addrs a h

    two_events :
        (tx : Tx) (a b a' b' : Address)
        → v.sender tx ≡ ok (v.hex_to_address a)
        → v.recipient tx ≡ some (v.hex_to_address b)
        → lookup (v.hex_to_address a) watched ≡ some a'
        → lookup (v.hex_to_address b) watched ≡ some b'
        → events_of v chain n ts watched tx
          ≡ tx_event v outbound chain a' (v.hex (v.hex_to_address b)) tx n ts
            ∷ tx_event v inbound chain b' (v.hex (v.hex_to_address a)) tx n ts
            ∷ []
    unfolding events_of outbound_of inbound_of address_of sender_address
    two_events tx a b a' b' hs hr fa fb = ground arith

    -- A transfer from one watched address to another gives an outbound event and then an inbound one, in
    -- the place of the transaction in its block; each bears a watched address that denotes its side, and
    -- names the other side.
    pub match_transactions_between :
        (pre post : List Tx) (tx : Tx) (a b : Address)
        → Occurs a addrs
        → Occurs b addrs
        → v.sender tx ≡ ok (v.hex_to_address a)
        → v.recipient tx ≡ some (v.hex_to_address b)
        → (x y : TxEvent) × (match_transactions v chain
              (pre ++ tx ∷ post)
              n
              block_time
              (watched_of v addrs)
            ≡ match_transactions v chain pre n block_time (watched_of v addrs)
              ++ (x ∷ y ∷ match_transactions v chain post n block_time (watched_of v addrs)))
          × (x.kind ≡ outbound)
          × (y.kind ≡ inbound)
          × (v.hex_to_address x.address ≡ v.hex_to_address a)
          × (v.hex_to_address y.address ≡ v.hex_to_address b)
          × (x.counterparty ≡ v.hex (v.hex_to_address b))
          × (y.counterparty ≡ v.hex (v.hex_to_address a))
    unfolding match_transactions tx_event flat_map
    match_transactions_between pre post tx a b ha hb hs hr =
        let (a', fa) = found_event a ha in
        let (b', fb) = found_event b hb in
        (
          tx_event v outbound chain a' (v.hex (v.hex_to_address b)) tx n ts,
          tx_event v inbound chain b' (v.hex (v.hex_to_address a)) tx n ts,
          match_all-flat_map v chain n ts watched [] (pre ++ tx ∷ post)
              ∙ flat_map-append (events_of v chain n ts watched) pre (tx ∷ post)
              ∙ ap
                  (λ l.
                    flat_map (events_of v chain n ts watched) pre
                    ++ (l ++ flat_map (events_of v chain n ts watched) post))
                  (two_events tx a b a' b' hs hr fa fb)
              ∙ ap₂
                  (λ l r.
                    l
                    ++ (tx_event v outbound chain a' (v.hex (v.hex_to_address b)) tx n ts
                        ∷ tx_event v inbound chain b' (v.hex (v.hex_to_address a)) tx n ts
                        ∷ r))
                  (sym (match_all-flat_map v chain n ts watched [] pre))
                  (sym (match_all-flat_map v chain n ts watched [] post)),
          refl,
          refl,
          (watched_of_sound v addrs (v.hex_to_address a) a' fa).1,
          (watched_of_sound v addrs (v.hex_to_address b) b' fb).1,
          refl,
          refl,
        )
