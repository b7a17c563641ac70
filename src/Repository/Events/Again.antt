-- ===== src/Repository/Events/Again.antt =====
-- SaveEvent of internal/adapter/repository/transaction_postgres.go, when an event comes again.
use Prim.Native.Nat.{ℕ, ◌+◌}
use Prim.Native.String.{String}
use mathlib.Core.List.{[], ◌∷◌}
use mathlib.Core.Option.{Option, none, some}
use mathlib.Core.Path.{ap, refl, subst, sym, ◌∙◌, ◌≡◌}
use omnicatena.Base.Exec.{continue}
use omnicatena.Base.Result.{Result, err, ok, str, wrap}
use omnicatena.Domain.{TxEvent}
use omnicatena.Repository.Events.{link, role_for, save_event, upsert_transaction}
use omnicatena.Repository.Events.Links.{link_tables, link_tables-twice}
use omnicatena.Repository.Events.Upsert.{upsert_transaction-twice}
use omnicatena.Repository.Tables.{Db, Tables, done, finish, serving, settle, transaction}

module _ (wallet_id : String) (evt : TxEvent) where
  -- The transaction of SaveEvent over the tables `s`, after its first statement gave `r`, and after
  -- its second one did.
  abbrev after_upsert : Tables → ℕ → Result (ℕ × Tables) → Result (Unit {0}) × Db
  after_upsert s n r =
      let (x, db) = settle done r (serving s n) in
      finish s (
        continue
          (wrap "repository: save transaction %s/%s: %w" (str evt.chain ∷ str evt.hash ∷ []) x, db)
          (λ tx_id. link tx_id wallet_id evt (role_for evt.kind)))

  abbrev after_link : Tables → Tables → ℕ → Result (Unit {0} × Tables) → Result (Unit {0}) × Db
  after_link s t n r =
      let (x, db) = settle done r (serving t n) in
      finish s
        (wrap "repository: link tx_addresses %s/%s: %w" (str evt.chain ∷ str evt.hash ∷ []) x, db)

  link-eq :
      (s t : Tables) (n tx_id : ℕ) (role : Option String)
      → finish s (link tx_id wallet_id evt role (serving t n))
        ≡ after_link s t n (link_tables tx_id wallet_id evt role t)
  unfolding link
  link-eq s t n tx_id none = refl
  link-eq s t n tx_id (some role) = refl

  save_event-eq :
      (now n : ℕ) (s : Tables)
      → save_event now wallet_id evt (serving s n)
        ≡ after_upsert s (n + 1) (upsert_transaction n now evt s)
  unfolding save_event transaction
  save_event-eq now n s = refl

  save_event-ok :
      (now n tx_id : ℕ) (s t u : Tables)
      → upsert_transaction n now evt s ≡ ok (tx_id, t)
      → link_tables tx_id wallet_id evt (role_for evt.kind) t ≡ ok (tt, u)
      → save_event now wallet_id evt (serving s n) ≡ (ok tt, serving u (n + 1))
  save_event-ok now n tx_id s t u h k =
      save_event-eq now n s
      ∙ ap (after_upsert s (n + 1)) h
      ∙ link-eq s t (n + 1) tx_id (role_for evt.kind)
      ∙ ap (after_link s t (n + 1)) k

  save_event-inv :
      {C : Type 0} (now n m : ℕ) (s u : Tables)
      → save_event now wallet_id evt (serving s n) ≡ (ok tt, serving u m)
      → ((tx_id : ℕ) (t : Tables)
          → upsert_transaction n now evt s ≡ ok (tx_id, t)
          → link_tables tx_id wallet_id evt (role_for evt.kind) t ≡ ok (tt, u)
          → C)
      → C
  save_event-inv {C} now n m s u h cont =
      go (upsert_transaction n now evt s) refl (sym (save_event-eq now n s) ∙ h)
    where
      linked :
          (tx_id : ℕ) (t : Tables) (r : Result (Unit {0} × Tables))
          → after_link s t (n + 1) r ≡ (ok tt, serving u m)
          → r ≡ ok (tt, u)
      linked tx_id t (err e) k = absurd (cc)
      linked tx_id t (ok (_, v)) k = ap (λ x. ok (tt, x)) (ap (λ (_, db). db.tables) k)

      go :
          (r : Result (ℕ × Tables))
          → upsert_transaction n now evt s ≡ r
          → after_upsert s (n + 1) r ≡ (ok tt, serving u m)
          → C
      go (err e) _ k = absurd (cc)
      go (ok (tx_id, t)) e k = cont tx_id t e (
          linked tx_id t (link_tables tx_id wallet_id evt (role_for evt.kind) t)
            (sym (link-eq s t (n + 1) tx_id (role_for evt.kind)) ∙ k))

  -- On a server that does every call: an event that was saved, and comes again when nothing was saved
  -- in between, as after a restart of the watcher, is saved again without an error, and the tables are
  -- what saving it once, at the later time, makes of the first ones: no row of a transaction or of an
  -- address is added twice.
  pub save_event_again :
      (now later n m : ℕ) (s t : Tables)
      → save_event now wallet_id evt (serving s n) ≡ (ok tt, serving t m)
      → (u : Tables) × (save_event later wallet_id evt (serving t m) ≡ (ok tt, serving u (m + 1)))
        × (save_event later wallet_id evt (serving s n) ≡ (ok tt, serving u (n + 1)))
  save_event_again now later n m s t h = save_event-inv now n m s t h (λ tx_id r first second.
      let (w, _, alone) = upsert_transaction-twice n n now now evt s r r tx_id first refl in
      let (_, _, kept) = link_tables-twice wallet_id evt tx_id (role_for evt.kind) r t w second in
      let (v, once_more, direct) =
        upsert_transaction-twice n m now later evt s r t tx_id first kept in
      let (there, linked, _) =
        link_tables-twice wallet_id evt tx_id (role_for evt.kind) r t v second in
      let same : r ≡ record s { transactions = w } =
        ap (λ x. elim x [ ok (_, y) ↦ y | err _ ↦ r ]) (sym first ∙ alone) in
      (
        record t { transactions = v },
        save_event-ok later m tx_id t (record t { transactions = v })
            (record t { transactions = v }) once_more there,
        save_event-ok later n tx_id s (record s { transactions = v })
            (record t { transactions = v }) direct
            (subst
              (λ (x : Tables).
                link_tables tx_id wallet_id evt (role_for evt.kind) (record x { transactions = v })
                ≡ ok (tt, record t { transactions = v }))
              same linked),
      ))
