-- ===== src/Repository/Events/Growth/Saving.antt =====
-- SaveEvent as a whole keeps the rows that are there.
use Prim.Native.Nat.{ℕ, ◌+◌}
use Prim.Native.String.{String}
use mathlib.Core.List.{[], ◌∷◌}
use mathlib.Core.Logic.{inl, inr}
use mathlib.Core.Option.{Option, none, some}
use mathlib.Core.Path.{ap, refl, subst, sym, ◌∙◌, ◌≡◌}
use omnicatena.Base.{Option-cases, string_eq}
use omnicatena.Base.Exec.{wrapped, wrapped-inv, ◌>>=◌}
use omnicatena.Base.Result.{Result, err, ok, str}
use omnicatena.Domain.{TxEvent}
use omnicatena.Repository.Events.{
  has_link, insert_link, insert_new, link, link_row, next_value, role_for, save_event,
  upsert_transaction,
}
use omnicatena.Repository.Events.Growth.{Extends, Extends-refl, KeepsLinks, KeepsTransactions}
use omnicatena.Repository.Events.Growth.Upsert.{upsert_transaction-keeps}
use omnicatena.Repository.Events.Links.{insert_link-new, insert_link-there}
use omnicatena.Repository.Tables.{
  Db, LinkRow, Tables, WalletRow, statement, statement-bind-inv, statement-inv, transaction_atomic,
}
use omnicatena.Repository.Wallets.{find_row, has_id}
use omnicatena.Repository.Wallets.Rows.{find_row-append_found}

module _ (evt : TxEvent) where
  insert_link-keeps :
      (wallet_id : String) (tx_id : ℕ) (role : String) (s t : Tables)
      → insert_link tx_id wallet_id evt role s ≡ ok (tt, t)
      → (t.transactions ≡ s.transactions) × KeepsLinks s.tx_addresses t.tx_addresses
  insert_link-keeps wallet_id tx_id role s t h =
      elim (Option-cases (find_row (has_link tx_id evt.address role) s.tx_addresses)) [
        | inr (old, e) ↦
            subst After (sym (insert_link-there wallet_id evt tx_id role s e) ∙ h)
              (refl, λ i a r l k. k)
        | inl e ↦
            go (find_row (has_id wallet_id) s.wallets)
              (sym (insert_link-new wallet_id evt tx_id role s e) ∙ h)
      ]
    where
      After : Result (Unit {0} × Tables) → Type 0
      After (err e) = Unit {0}
      After (ok (i, x)) =
          (x.transactions ≡ s.transactions) × KeepsLinks s.tx_addresses x.tx_addresses

      new : LinkRow
      new = link_row tx_id wallet_id evt role

      go :
          (w : Option WalletRow)
          → insert_new new w s ≡ ok (tt, t)
          → (t.transactions ≡ s.transactions) × KeepsLinks s.tx_addresses t.tx_addresses
      go none k = absurd (cc)
      go (some w) k = subst After k (
        refl,
        λ i a r l found. find_row-append_found (has_link i a r) s.tx_addresses (new ∷ []) found,
      )

  link-keeps :
      (wallet_id : String) (tx_id : ℕ) (given : Option String) (s t : Db)
      → link tx_id wallet_id evt given s ≡ (ok tt, t)
      → (t.tables.transactions ≡ s.tables.transactions)
        × KeepsLinks s.tables.tx_addresses t.tables.tx_addresses
  unfolding link
  link-keeps wallet_id tx_id none s t h = (
    ap (λ x. x.1.tables.transactions) (sym h),
    subst (λ x. KeepsLinks s.tables.tx_addresses x.1.tables.tx_addresses) h (λ i a r l k. k),
  )
  link-keeps wallet_id tx_id (some role) s t h =
      insert_link-keeps wallet_id tx_id role s.tables t.tables (
        statement-inv (insert_link tx_id wallet_id evt role) s t (
          wrapped-inv "repository: link tx_addresses %s/%s: %w" (str evt.chain ∷ str evt.hash ∷ [])
            (statement (insert_link tx_id wallet_id evt role)) {s = s} h))

module _ (now : ℕ) (wallet_id : String) (evt : TxEvent) where
  -- Whatever becomes of its statements, SaveEvent keeps the transactions with their ids, and the links.
  pub save_event-Extends : (s : Db) → Extends s.tables (save_event now wallet_id evt s).1.tables
  unfolding save_event
  save_event-Extends s =
      elim (transaction_atomic (Extends s.tables)
        (next_value >>= λ id.
          wrapped "repository: save transaction %s/%s: %w" (str evt.chain ∷ str evt.hash ∷ [])
            (statement (upsert_transaction id now evt))
          >>= λ tx_id. link tx_id wallet_id evt (role_for evt.kind))
        s
        (λ b t _ same ran.
          statement-bind-inv "repository: save transaction %s/%s: %w"
            (str evt.chain ∷ str evt.hash ∷ []) (upsert_transaction b.next_id now evt)
            (λ tx_id. link tx_id wallet_id evt (role_for evt.kind))
            (record b { next_id = b.next_id + 1 }) ran
            (λ tx_id u first second.
              subst (λ x. Extends x t.tables) same
                (both b.next_id tx_id b.tables u t first second)))) [
                  | inl done ↦ done
                  | inr (_, _, unchanged) ↦
                      subst (Extends s.tables) (sym unchanged) (Extends-refl s.tables)
                ]
    where
      both :
          (id tx_id : ℕ) (b : Tables) (u t : Db)
          → upsert_transaction id now evt b ≡ ok (tx_id, u.tables)
          → link tx_id wallet_id evt (role_for evt.kind) u ≡ (ok tt, t)
          → Extends b t.tables
      both id tx_id b u t first second =
          let (kept, same_links) = upsert_transaction-keeps evt id now tx_id b u.tables first in
          let (same_rows, links) = link-keeps evt wallet_id tx_id (role_for evt.kind) u t second in
          record {
            transactions = subst (KeepsTransactions b.transactions) (sym same_rows) kept;
            links = subst (λ l. KeepsLinks l t.tables.tx_addresses) same_links links;
          }
