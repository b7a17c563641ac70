-- ===== src/App/Monitor/Owners.antt =====
-- The map of owners that `startMonitoring` of cmd/api/monitoring.go gives to `Watch`, with the events
-- that a watcher of internal/adapter/chain/evm/watcher.go makes for its addresses.
use Prim.Native.Nat.{ℕ}
use Prim.Native.String.{String}
use mathlib.Core.List.{List, [], ◌∷◌}
use mathlib.Core.Logic.{inl, inr, ◌⊎◌}
use mathlib.Core.Option.{Option, none, some, some-injective}
use mathlib.Core.Path.{ap, refl, subst, sym, ◌∙◌, ◌≡◌}
use native.Mathlib.Omega.{arith}
use omnicatena.App.Monitor.{add_owner, owner_of, owners}
use omnicatena.Base.{
  ==_refl, All, All-mono, Any, Any-All, Any-mono, Bool-cases, Eq, string_eq, ◌==◌,
}
use omnicatena.Base.Map.{Map, insert, keys, lookup, lookup-insert, lookup-nil}
use omnicatena.Base.Result.{ok}
use omnicatena.Chain.Evm.Client.{TxView}
use omnicatena.Chain.Evm.Match.{match_transactions, watched_of}
use omnicatena.Chain.Evm.Match.Events.{match_transactions-IsFromBlock}
use omnicatena.Chain.Evm.Match.Laws.{Occurs}
use omnicatena.Chain.Evm.Match.Noticed.{Notices, match_transactions-Notices}
use omnicatena.Domain.{Account, Address, ChainId, TxEvent, Wallet, account, inbound, outbound}

-- What Go promises of a range over a map: it gives each of the map's keys, and no other.
pub record RangesOver (range : Map Address String → Map Address String) : Type 0 where
  pub sound : (m : Map Address String) (a : Address) → Occurs a (keys (range m)) → Occurs a (keys m)
  pub complete :
      (m : Map Address String) (a : Address) → Occurs a (keys m) → Occurs a (keys (range m))

-- The wallet has this id, and this address on the chain.
abbrev pub HasAddress : ChainId → Address → String → Wallet → Type 0
HasAddress chain addr id w =
    (w.id ≡ id) × (acc : Account) × (account w chain ≡ some acc) × (acc.address ≡ addr)

module _ {V : Type 0} where
  Occurs-lookup :
      (m : Map Address V) (a : Address) → Occurs a (keys m) → (x : V) × (lookup a m ≡ some x)
  unfolding lookup
  Occurs-lookup [] a h = absurd h
  Occurs-lookup ((k, x) ∷ rest) a h = elim (Bool-cases (k == a)) [
    | inl same ↦ (x, rw same)
    | inr other ↦
        let (y, e) = Occurs-lookup rest a (elim h [
          | inl same ↦ absurd (ground (arith, string_eq.beq_iff k a))
          | inr later ↦ later
        ]) in
        (y, rw other e)
  ]

  lookup-Occurs :
      (m : Map Address V) (a : Address) {x : V} → lookup a m ≡ some x → Occurs a (keys m)
  unfolding lookup
  lookup-Occurs [] a h = absurd (cc)
  lookup-Occurs ((k, y) ∷ rest) a {x} h = elim (Bool-cases (k == a)) [
    | inl same ↦ inl (sym ((string_eq.beq_iff k a).0 same))
    | inr other ↦ inr (lookup-Occurs rest a (rw other at h))
  ]

module _ (chain : ChainId) (addr : Address) where
  -- One wallet's turn.
  add_owner-lookup :
      (m : Map Address String) (w : Wallet) {id : String}
      → lookup addr (add_owner chain m w) ≡ some id
      → HasAddress chain addr id w ⊎ (lookup addr m ≡ some id)
  unfolding add_owner
  add_owner-lookup m w {id} h = go (account w chain) refl h
    where
      go :
          (r : Option Account)
          → account w chain ≡ r
          → lookup addr (elim r [ none ↦ m | some acc ↦ insert acc.address w.id m ]) ≡ some id
          → HasAddress chain addr id w ⊎ (lookup addr m ≡ some id)
      go none e k = inr k
      go (some acc) e k = elim (Bool-cases (acc.address == addr)) [
        | inl same ↦ inl (
          some-injective w.id id (sym (lookup-insert acc.address addr w.id m ∙ rw same) ∙ k),
          acc,
          e,
          (string_eq.beq_iff acc.address addr).0 same,
        )
        | inr other ↦ inr (sym (lookup-insert acc.address addr w.id m ∙ rw other) ∙ k)
      ]

  owners_sound :
      (m : Map Address String) (ws : List Wallet) {id : String}
      → lookup addr (owners chain m ws) ≡ some id
      → Any (HasAddress chain addr id) ws ⊎ (lookup addr m ≡ some id)
  unfolding owners
  owners_sound m [] h = inr h
  owners_sound m (w ∷ rest) h = elim (owners_sound (add_owner chain m w) rest h) [
    | inl later ↦ inl (inr later)
    | inr now ↦ elim (add_owner-lookup m w now) [ inl here ↦ inl (inl here) | inr old ↦ inr old ]
  ]

  add_owner-keeps :
      (m : Map Address String) (w : Wallet) {id : String}
      → lookup addr m ≡ some id
      → (x : String) × (lookup addr (add_owner chain m w) ≡ some x)
  unfolding add_owner
  add_owner-keeps m w {id} h = go (account w chain)
    where
      go :
          (r : Option Account)
          → (x : String) × (lookup addr (elim r [ none ↦ m | some acc ↦ insert acc.address w.id m ])
              ≡ some x)
      go none = (id, h)
      go (some acc) = elim (Bool-cases (acc.address == addr)) [
        | inl same ↦ (w.id, lookup-insert acc.address addr w.id m ∙ rw same)
        | inr other ↦ (id, lookup-insert acc.address addr w.id m ∙ rw other h)
      ]

  add_owner-own :
      (m : Map Address String) (w : Wallet) (acc : Account)
      → account w chain ≡ some acc
      → acc.address ≡ addr
      → lookup addr (add_owner chain m w) ≡ some w.id
  unfolding add_owner
  add_owner-own m w acc e same =
      let added : lookup addr (insert acc.address w.id m) ≡ some w.id =
        lookup-insert acc.address addr w.id m ∙ rw (same, ==_refl addr) in
      ap (λ r. lookup addr (elim r [ none ↦ m | some a ↦ insert a.address w.id m ])) e ∙ added

  owners_keeps :
      (m : Map Address String) (ws : List Wallet) {id : String}
      → lookup addr m ≡ some id
      → (x : String) × (lookup addr (owners chain m ws) ≡ some x)
  unfolding owners
  owners_keeps m [] {id} h = (id, h)
  owners_keeps m (w ∷ rest) h =
      let (y, now) = add_owner-keeps m w h in owners_keeps (add_owner chain m w) rest now

  owners_complete :
      (m : Map Address String) (ws : List Wallet) (id : String)
      → Any (HasAddress chain addr id) ws
      → (x : String) × (lookup addr (owners chain m ws) ≡ some x)
  unfolding owners
  owners_complete m [] id h = absurd h
  owners_complete m (w ∷ rest) id (inl (_, acc, e, same)) =
      owners_keeps (add_owner chain m w) rest (add_owner-own m w acc e same)
  owners_complete m (w ∷ rest) id (inr later) = owners_complete (add_owner chain m w) rest id later

module _ {EthAddress Tx : Type 0} ⦃eq : Eq EthAddress⦄ (v : TxView EthAddress Tx) (chain : ChainId)
    (n block_time : ℕ) {range : Map Address String → Map Address String} (over : RangesOver range)
    (ws : List Wallet) where
  abbrev owned : Map Address String
  owned = owners chain [] ws

  abbrev addrs : List Address
  addrs = keys (range owned)

  -- The wallet under which an event is saved is in the list and has the event's address on the chain.
  abbrev pub SavedUnderOwner : TxEvent → Type 0
  SavedUnderOwner evt = Any (HasAddress chain evt.address (owner_of owned evt.address)) ws

  owner_found : (a : Address) → Occurs a addrs → Any (HasAddress chain a (owner_of owned a)) ws
  unfolding owner_of
  owner_found a h =
      let (id, found) = Occurs-lookup owned a (over.sound owned a h) in
      elim (owners_sound chain a [] ws found) [
        | inl w ↦
            let named : owner_of owned a ≡ id = rw (found, owner_of) refl in
            subst (λ x. Any (HasAddress chain a x) ws) (sym named) w
        | inr none_there ↦ absurd (let e = lookup-nil {K = Address} {V = String} a in cc)
      ]

  -- Every event of a block is saved under a wallet of the list that has the event's address on the
  -- chain: never under the empty id that `Watch` takes for an address of no wallet.
  events_owned :
      (txs : List Tx)
      → All SavedUnderOwner (match_transactions v chain txs n block_time (watched_of v addrs))
  events_owned txs =
      All-mono (match_transactions v chain txs n block_time (watched_of v addrs))
        (λ evt about. owner_found evt.address about.0)
        (match_transactions-IsFromBlock v chain n block_time addrs txs)

  -- Of a wallet of the list with an account on the chain, no transfer of a block is passed over: one
  -- that its account sends gives an outbound event, and one that its account receives an inbound
  -- event, with the transaction's hash and value; the event is saved under a wallet of the list that has
  -- the event's address, and this address denotes the same account.
  pub transfers_noticed :
      (w : Wallet) (acc : Account) (tx : Tx) (txs : List Tx)
      → Any (λ u. u ≡ w) ws
      → account w chain ≡ some acc
      → Any (λ t. t ≡ tx) txs
      → (v.sender tx ≡ ok (v.hex_to_address acc.address)
          → Any
              (λ evt.
                Notices v chain n block_time outbound tx acc.address evt × SavedUnderOwner evt)
              (match_transactions v chain txs n block_time (watched_of v addrs)))
        × (v.recipient tx ≡ some (v.hex_to_address acc.address)
            → Any
                (λ evt.
                  Notices v chain n block_time inbound tx acc.address evt × SavedUnderOwner evt)
                (match_transactions v chain txs n block_time (watched_of v addrs)))
  transfers_noticed w acc tx txs here has there =
      let own : Any (HasAddress chain acc.address w.id) ws =
        Any-mono ws
          (λ u same.
            (ap (λ (x : Wallet). x.id) same, acc, ap (λ x. account x chain) same ∙ has, refl))
          here in
      let (id, found) = owners_complete chain acc.address [] ws w.id own in
      let occurs = over.complete owned acc.address (lookup-Occurs owned acc.address found) in
      let (sent, got) =
        match_transactions-Notices v chain n block_time addrs acc.address occurs tx txs there in
      let events = match_transactions v chain txs n block_time (watched_of v addrs) in
      (
        λ h.
            Any-All SavedUnderOwner (Notices v chain n block_time outbound tx acc.address) events
              (events_owned txs) (sent h),
        λ h.
            Any-All SavedUnderOwner (Notices v chain n block_time inbound tx acc.address) events
              (events_owned txs) (got h),
      )
