-- ===== src/Repository/Events/Links.antt =====
-- The statement on tx_addresses of SaveEvent, once and a second time.
use Prim.Native.Nat.{ℕ}
use Prim.Native.String.{String}
use mathlib.Core.List.{List, [], ◌++◌, ◌∷◌}
use mathlib.Core.Logic.{inl, inr}
use mathlib.Core.Option.{Option, none, some}
use mathlib.Core.Path.{ap, refl, subst, sym, ◌∙◌, ◌≡◌}
use omnicatena.Base.{==_refl, Option-cases, eqb_iff}
use omnicatena.Base.Result.{Result, err, ok}
use omnicatena.Domain.{TxEvent}
use omnicatena.Repository.Events.{has_link, insert_link, insert_new, link_row, unless_there}
use omnicatena.Repository.Tables.{LinkRow, Tables, TransactionRow, WalletRow}
use omnicatena.Repository.Wallets.{find_row, has_id}
use omnicatena.Repository.Wallets.Rows.{find_row-append}

-- What the second statement of SaveEvent does.
abbrev pub link_tables : ℕ → String → TxEvent → Option String → Tables → Result (Unit {0} × Tables)
link_tables tx_id wallet_id evt none t = ok (tt, t)
link_tables tx_id wallet_id evt (some role) t = insert_link tx_id wallet_id evt role t

module _ (wallet_id : String) (evt : TxEvent) where
  module _ (tx_id : ℕ) (role : String) where
    pub insert_link-there :
        (t : Tables) {old : LinkRow}
        → find_row (has_link tx_id evt.address role) t.tx_addresses ≡ some old
        → insert_link tx_id wallet_id evt role t ≡ ok (tt, t)
    unfolding insert_link
    insert_link-there t e =
        ap
          (λ o. unless_there o t (
            insert_new (link_row tx_id wallet_id evt role) (find_row (has_id wallet_id) t.wallets)
              t))
          e

    pub insert_link-new :
        (t : Tables)
        → find_row (has_link tx_id evt.address role) t.tx_addresses ≡ none
        → insert_link tx_id wallet_id evt role t
          ≡ insert_new (link_row tx_id wallet_id evt role) (find_row (has_id wallet_id) t.wallets) t
    unfolding insert_link
    insert_link-new t e =
        ap
          (λ o. unless_there o t (
            insert_new (link_row tx_id wallet_id evt role) (find_row (has_id wallet_id) t.wallets)
              t))
          e

    pub find_row-linked :
        (rows : List LinkRow)
        → find_row (has_link tx_id evt.address role) rows ≡ none
        → find_row
            (has_link tx_id evt.address role)
            (rows ++ link_row tx_id wallet_id evt role ∷ [])
          ≡ some (link_row tx_id wallet_id evt role)
    unfolding find_row
    find_row-linked rows e =
        find_row-append (has_link tx_id evt.address role) rows
          (link_row tx_id wallet_id evt role ∷ []) e
        ∙ rw ((eqb_iff tx_id tx_id).1 refl, ==_refl evt.address, ==_refl role) refl

  -- The second statement where the link is there already, and where the transactions differ.
  pub link_tables-twice :
      (tx_id : ℕ) (role : Option String) (t u : Tables) (v : List TransactionRow)
      → link_tables tx_id wallet_id evt role t ≡ ok (tt, u)
      → (link_tables tx_id wallet_id evt role (record u { transactions = v })
          ≡ ok (tt, record u { transactions = v }))
        × (link_tables tx_id wallet_id evt role (record t { transactions = v })
            ≡ ok (tt, record u { transactions = v }))
        × (u.transactions ≡ t.transactions)
  link_tables-twice tx_id none t u v h =
      subst
        (λ (x : Tables).
          (link_tables tx_id wallet_id evt none (record x { transactions = v })
            ≡ ok (tt, record x { transactions = v }))
          × (link_tables tx_id wallet_id evt none (record t { transactions = v })
              ≡ ok (tt, record x { transactions = v }))
          × (x.transactions ≡ t.transactions))
        (ap (λ x. elim x [ ok (_, y) ↦ y | err _ ↦ t ]) h) (refl, refl, refl)
  link_tables-twice tx_id (some role) t u v h =
      elim (Option-cases (find_row (has_link tx_id evt.address role) t.tx_addresses)) [
        | inr (old, e) ↦ subst Twice (result (sym (insert_link-there tx_id role t e) ∙ h)) (
          insert_link-there tx_id role (record t { transactions = v }) e,
          insert_link-there tx_id role (record t { transactions = v }) e,
          refl,
        )
        | inl e ↦
            checked e (find_row (has_id wallet_id) t.wallets) refl
              (sym (insert_link-new tx_id role t e) ∙ h)
      ]
    where
      new : LinkRow
      new = link_row tx_id wallet_id evt role

      result : {x : Tables} → ◌≡◌ {A = Result (Unit {0} × Tables)} (ok (tt, x)) (ok (tt, u)) → x ≡ u
      result {x} k = ap (λ r. elim r [ ok (_, y) ↦ y | err _ ↦ x ]) k

      Twice : Tables → Type 0
      Twice x =
          (insert_link tx_id wallet_id evt role (record x { transactions = v })
            ≡ ok (tt, record x { transactions = v }))
          × (insert_link tx_id wallet_id evt role (record t { transactions = v })
              ≡ ok (tt, record x { transactions = v }))
          × (x.transactions ≡ t.transactions)

      checked :
          find_row (has_link tx_id evt.address role) t.tx_addresses ≡ none
          → (w : Option WalletRow) → find_row (has_id wallet_id) t.wallets ≡ w
          → insert_new new w t ≡ ok (tt, u)
          → Twice u
      checked e none f k = absurd (cc)
      checked e (some w) f k = subst Twice (result k) (
        insert_link-there tx_id role
            (record t { transactions = v; tx_addresses = t.tx_addresses ++ new ∷ [] })
            (find_row-linked tx_id role t.tx_addresses e),
        insert_link-new tx_id role (record t { transactions = v }) e
            ∙ ap (λ o. insert_new new o (record t { transactions = v })) f,
        refl,
      )
