-- ===== src/Chain/Bitcoin/Transfer/Laws.antt =====
-- What BuildTransfer of internal/adapter/chain/bitcoin/adapter.go asks of the node, spends and pays.
use Prim.Native.Nat.{ℕ, ◌+◌, ◌<◌, ◌^◌}
use mathlib.Core.Bool.{false, true}
use mathlib.Core.List.{List, Perm, [], perm_middle, ◌++◌, ◌∷◌}
use mathlib.Core.List.Perm
use mathlib.Core.Logic.{inl, inr}
use mathlib.Core.Option.{some}
use mathlib.Core.Path.{ap, refl, subst, sym, ◌∙◌, ◌≡◌}
use native.Mathlib.Omega.{arith}
use omnicatena.Base.{All, Bool-cases}
use omnicatena.Base.Bytes.{Bytes}
use omnicatena.Base.Exec.{bind-inv, call-inv, continue, lift, ◌>>=◌}
use omnicatena.Base.Int.{ltb_ℤ, pos, wrap64, ℤ, ◌-ℤ◌}
use omnicatena.Base.Result.{Result, err, ok, wrap, ◌|>◌}
use omnicatena.Chain.Bitcoin.Assemble.{assemble}
use omnicatena.Chain.Bitcoin.Assemble.Laws.{IsTransfer, assemble-IsTransfer}
use omnicatena.Chain.Bitcoin.Client.{Btcd, IsWire, Rpc}
use omnicatena.Chain.Bitcoin.Coins.{Unspent, Utxo, immature, read_unspents, spendable}
use omnicatena.Chain.Bitcoin.Coins.Selection.{IsMoney, IsSort}
use omnicatena.Chain.Bitcoin.Queries.{spendable-IsMoney}
use omnicatena.Chain.Bitcoin.Transfer.{build_transfer, estimate_fee, fetch_utxos, spendable_utxos}
use omnicatena.Domain.{Address, FeeEstimate, TransferRequest, UnsignedTx, chain_bitcoin}

-- A coin that can be spent above the block `tip`: one of a coinbase is at least 99 blocks below it.
abbrev pub IsMature : ℤ → Utxo → Type 0
IsMature tip u = u.coinbase ≡ true → ltb_ℤ (wrap64 (tip -ℤ u.height)) (pos 99) ≡ false

spendable-IsMature : (tip : ℤ) (utxos : List Utxo) → All (IsMature tip) (spendable tip utxos)
unfolding spendable immature
spendable-IsMature tip [] = tt
spendable-IsMature tip (u ∷ rest) = elim (Bool-cases (immature tip u)) [
  | inl young ↦ rw young (spendable-IsMature tip rest)
  | inr old ↦ rw old (λ from. ground arith, spendable-IsMature tip rest)
]

-- The coins are those that can be spent and others, none twice.
spendable-Perm :
    (tip : ℤ) (utxos : List Utxo) → (young : List Utxo) × Perm (spendable tip utxos ++ young) utxos
unfolding spendable
spendable-Perm tip [] = ([], Perm.nil)
spendable-Perm tip (u ∷ rest) =
    let (young, p) = spendable-Perm tip rest in
    elim (Bool-cases (immature tip u)) [
      | inl e ↦
          (u ∷ young, rw e (Perm.trans (perm_middle (spendable tip rest) young) (Perm.cons u p)))
      | inr e ↦ (young, rw e (Perm.cons u p))
    ]

module _ {S F Tx Hash Addr : Type 0} (b : Btcd F Tx Hash Addr) (rpc : Rpc S Tx Hash) where
  -- The coins that the node reports for an address have amounts of money.
  pub record ReportsMoney : Type 0 where
    pub money :
        (addr : Address) (s t : S) (raw : Bytes) (found : List (Unspent F))
        → rpc.scan_tx_out_set addr s ≡ (ok raw, t)
        → b.unmarshal_unspents raw ≡ ok found
        → IsMoney (read_unspents b.new_amount found)

  -- The coins `all` of an address and the height `tip` of the chain, as the node told them.
  pub record Told (addr : Address) (all : List Utxo) (tip : ℤ) (s t : S) : Type 0 where
    pub raw : Bytes
    pub found : List (Unspent F)
    pub height : Bytes
    pub between : S
    pub scanned : rpc.scan_tx_out_set addr s ≡ (ok raw, between)
    pub parsed : b.unmarshal_unspents raw ≡ ok found
    pub coins : all ≡ read_unspents b.new_amount found
    pub counted : rpc.get_block_count between ≡ (ok height, t)
    pub tip_read : b.unmarshal_int64 height ≡ ok tip

  fetch_utxos-inv :
      (addr : Address) (s t : S) (all : List Utxo)
      → fetch_utxos b rpc addr s ≡ (ok all, t)
      → (raw : Bytes) × (found : List (Unspent F)) × (rpc.scan_tx_out_set addr s ≡ (ok raw, t))
        × (b.unmarshal_unspents raw ≡ ok found)
        × (all ≡ read_unspents b.new_amount found)
  unfolding fetch_utxos
  fetch_utxos-inv addr s t all h =
      call-inv "bitcoin: scantxoutset: %w" [] (rpc.scan_tx_out_set addr) _ h λ raw u e k.
        let (found, parsed, same) = go (b.unmarshal_unspents raw) (ap (λ x. x.0) k) in
        (raw, found, e ∙ ap (λ x. (ok raw, x.1)) k, parsed, same)
    where
      go :
          (r : Result (List (Unspent F)))
          → (wrap "bitcoin: parse scantxoutset: %w" [] r |> read_unspents b.new_amount) ≡ ok all
          → (found : List (Unspent F)) × (r ≡ ok found) × (all ≡ read_unspents b.new_amount found)
      go (err e) k = absurd (cc)
      go (ok found) k = (found, refl, sym (ap (λ x. elim x [ ok y ↦ y | err _ ↦ all ]) k))

  spendable_utxos-inv :
      (all : List Utxo) (s t : S) (mature : List Utxo)
      → spendable_utxos b rpc all s ≡ (ok mature, t)
      → (height : Bytes) × (tip : ℤ) × (rpc.get_block_count s ≡ (ok height, t))
        × (b.unmarshal_int64 height ≡ ok tip)
        × (spendable tip all ≡ mature)
  unfolding spendable_utxos
  spendable_utxos-inv all s t mature h =
      call-inv "bitcoin: getblockcount: %w" [] rpc.get_block_count _ h λ height u e k.
        let (tip, parsed, same) = go (b.unmarshal_int64 height) (ap (λ x. x.0) k) in
        (height, tip, e ∙ ap (λ x. (ok height, x.1)) k, parsed, same)
    where
      go :
          (r : Result ℤ)
          → (wrap "bitcoin: parse blockcount: %w" [] r |> (λ tip. spendable tip all)) ≡ ok mature
          → (tip : ℤ) × (r ≡ ok tip) × (spendable tip all ≡ mature)
      go (err e) k = absurd (cc)
      go (ok tip) k = (tip, refl, ap (λ x. elim x [ ok y ↦ y | err _ ↦ mature ]) k)

  -- A transfer that is built spends coins that the node reported, after the estimate of the fee, for
  -- the request's sender, and of those only ones that can be spent: one of a coinbase is at least 99
  -- blocks below the tip that the node told next. It pays the amount to the recipient's script, and the
  -- rest of the coins, less the fee, to the sender's, in one output at most, which is positive: inputs and
  -- outputs differ by the estimated fee exactly. The amounts that the node reports are not negative and fit
  -- an int64 together; the amount and the fee are not negative, and their sum fits an int64.
  pub build_transfer-IsTransfer :
      (w : IsWire b) {sort : List Utxo → List Utxo} (sorted : IsSort sort) (money : ReportsMoney)
      (req : TransferRequest) (fee : FeeEstimate) (v f : ℕ) (s s1 t : S) {utx : UnsignedTx}
      → estimate_fee b rpc req s ≡ (ok fee, s1)
      → req.amount.base ≡ some (pos v)
      → fee.total.base ≡ some (pos f)
      → v + f < 2 ^ 63
      → build_transfer b rpc sort req s ≡ (ok utx, t)
      → (all : List Utxo) × (tip : ℤ) × (mature : List Utxo) × (young : List Utxo) × Told req.source
          all tip s1 t
        × Perm (mature ++ young) all
        × All (IsMature tip) mature
        × IsTransfer b w req mature v f utx.payload
        × (utx.request ≡ req)
        × (utx.fee ≡ fee)
        × (utx.chain ≡ chain_bitcoin)
  unfolding build_transfer
  build_transfer-IsTransfer w {sort} sorted money req fee v f s s1 t {utx} estimated hv hf small h =
      let begun : (fetch_utxos b rpc req.source >>= λ all.
      spendable_utxos b rpc all >>= λ utxos. lift (assemble b sort req fee utxos))
            s1
          ≡ (ok utx, t) =
        ap
          (λ x. continue x (λ fee'. fetch_utxos b rpc req.source >>= λ all.
            spendable_utxos b rpc all >>= λ utxos. lift (assemble b sort req fee' utxos)))
          (sym estimated)
        ∙ h in
      bind-inv (fetch_utxos b rpc req.source) _ begun λ all s2 e1 h1.
        bind-inv (spendable_utxos b rpc all) _ h1 λ mature s3 e2 h2.
          let (raw, found, scanned, parsed, coins) = fetch_utxos-inv req.source s1 s2 all e1 in
          let (height, tip, counted, tip_read, same) = spendable_utxos-inv all s2 s3 mature e2 in
          let (young, part) = spendable-Perm tip all in
          let reported : IsMoney all =
            subst IsMoney (sym coins) (money.money req.source s1 s2 raw found scanned parsed) in
          let last : s3 ≡ t = ap (λ x. x.1) h2 in
          let (built, same_req, same_fee, same_chain) =
            assemble-IsTransfer b w sorted (subst IsMoney same (spendable-IsMoney tip all reported))
              req fee v f hv hf small (ap (λ x. x.0) h2) in
          (
            all,
            tip,
            mature,
            young,
            record {
              raw = raw;
              found = found;
              height = height;
              between = s2;
              scanned = scanned;
              parsed = parsed;
              coins = coins;
              counted = counted ∙ ap (λ x. (ok height, x)) last;
              tip_read = tip_read;
            },
            subst (λ l. Perm (l ++ young) all) same part,
            subst (All (IsMature tip)) same (spendable-IsMature tip all),
            built,
            same_req,
            same_fee,
            same_chain,
          )
