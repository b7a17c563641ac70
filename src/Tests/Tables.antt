-- ===== src/Tests/Tables.antt =====
-- Wallets and events in tables, at concrete rows, and with statements that fail.
use Prim.Native.Nat.{ℕ, ◌*◌, ◌/◌}
use Prim.Native.String.{String}
use mathlib.Core.List.{[], ◌∷◌}
use mathlib.Core.Logic.{◌≢◌, ◌⊎◌}
use mathlib.Core.Option
use mathlib.Core.Option.{Option, some}
use mathlib.Core.Path.{refl, ◌≡◌}
use omnicatena.Base.Int.{pos}
use omnicatena.Base.Result.{Error, err, ok, sentinel}
use omnicatena.Chain.Evm.Client.{native_eth}
use omnicatena.Domain.{ChainId, TxEvent, Wallet, account, confirmed}
use omnicatena.Repository.Contract.{AllOrNothing, OneEach, save-AllOrNothing}
use omnicatena.Repository.Events
use omnicatena.Repository.Events.{
  block_height_or_nil, from_to, insert_link, non_empty, numeric, transaction_row,
  upsert_transaction,
}
use omnicatena.Repository.Events.Again.{save_event_again}
use omnicatena.Repository.Events.Saving.{Recorded, save_event_atomic}
use omnicatena.Repository.Stores.{memory_wallets, postgres_wallets}
use omnicatena.Repository.Tables.{Db, Tables, done, refused, serving, transaction, unanswered}
use omnicatena.Repository.Wallets
use omnicatena.Repository.Wallets.{
  find_row, has_id, has_key, relabelled, replace_rows, rows_where, save_accounts, to_account,
  upsert_account, upsert_wallet, wallet_row,
}
use omnicatena.Repository.Wallets.Accounts.{newest}
use omnicatena.Repository.Wallets.Reading.{get_saved}
use omnicatena.Repository.Wallets.Saving.{Saved, save_atomic}
use omnicatena.Tests.Fixtures.{paid, same_order-GivesAll}

abbrev microseconds : ℕ → ℕ
microseconds t = t / 1000 * 1000

abbrev empty : Tables
empty = record { wallets = []; accounts = []; transactions = []; tx_addresses = [] }

abbrev alice_wallet : Wallet
alice_wallet = record {
  id = "w1";
  label = "savings";
  created_at = 1234567;
  accounts =
      record { chain = "ethereum"; address = "alice"; path = [] }
      ∷ record { chain = "bitcoin"; address = "malice"; path = [] }
      ∷ [];
}

-- The second statement of the transaction is refused.
abbrev failing : Db
failing = record {
  tables = empty;
  next_id = 1;
  answers = done ∷ done ∷ refused (sentinel "57014") ∷ [];
}

-- The answer of Commit is lost.
abbrev cut_off : Db
cut_off = record {
  tables = empty;
  next_id = 1;
  answers = done ∷ done ∷ done ∷ done ∷ unanswered (sentinel "EOF") ∷ [];
}

failing_saved : (Wallets.save microseconds alice_wallet failing).1.tables ≡ empty
unfolding Wallets.save save_accounts transaction upsert_wallet
failing_saved = refl

save_atomic_example :
    Saved microseconds alice_wallet empty (Wallets.save microseconds alice_wallet cut_off).1.tables
    ⊎ ((e : Error) × ((Wallets.save microseconds alice_wallet cut_off).0 ≡ err e)
        × ((Wallets.save microseconds alice_wallet cut_off).1.tables ≡ empty))
save_atomic_example = save_atomic microseconds alice_wallet cut_off

abbrev pub alice_tables : Tables
alice_tables = record {
  wallets = record { id = "w1"; label = "savings"; created_at = 1234000 } ∷ [];
  accounts =
      record { wallet_id = "w1"; chain = "ethereum"; address = "alice"; derivation_path = [] }
      ∷ record { wallet_id = "w1"; chain = "bitcoin"; address = "malice"; derivation_path = [] }
      ∷ [];
  transactions = [];
  tx_addresses = [];
}

save_alice :
    Wallets.save microseconds alice_wallet (serving empty 1) ≡ (ok tt, serving alice_tables 1)
unfolding Wallets.save save_accounts transaction upsert_wallet upsert_account replace_rows
    rows_where find_row
save_alice = refl

get_saved_example :
    ((got : Wallet) × ((Wallets.get "w1" (serving alice_tables 1)).0 ≡ ok got)
      × (got.label ≡ "savings")
      × (got.created_at
          ≡ (relabelled
              (wallet_row microseconds alice_wallet)
              (find_row (has_id "w1") empty.wallets)).created_at)
      × ((chain : ChainId)
          → account got chain
            ≡ Option.map to_account (
                newest "w1" chain alice_wallet.accounts
                  (find_row (has_key "w1" chain) empty.accounts))))
    × ((other : String)
        → "w1" ≢ other
        → (Wallets.get other (serving alice_tables 1)).0 ≡ (Wallets.get other (serving empty 1)).0)
get_saved_example =
    get_saved microseconds alice_wallet (serving empty 1) (serving alice_tables 1) 1 save_alice

abbrev pub payment : TxEvent
payment = record (paid "alice") { amount = record { asset = native_eth; base = some (pos 5) } }

abbrev paid_tables : Tables
paid_tables = record alice_tables {
  transactions =
      record {
        id = 1;
        chain = "ethereum";
        hash = "0x1";
        status = confirmed;
        from_address = some "bob";
        to_address = some "alice";
        amount = pos 5;
        asset_symbol = "ETH";
        block_height = some (pos 6);
        confirmed_at = some 700;
      }
      ∷ [];
  tx_addresses =
      record {
        tx_id = 1;
        wallet_id = "w1";
        chain = "ethereum";
        address = "alice";
        role = "receiver";
      }
      ∷ [];
}

save_payment :
    Events.save_event 700 "w1" payment (serving alice_tables 1) ≡ (ok tt, serving paid_tables 2)
unfolding Events.save_event transaction upsert_transaction insert_link numeric transaction_row
    from_to non_empty block_height_or_nil replace_rows rows_where find_row
save_payment = refl

save_event_again_example :
    (u : Tables) × (Events.save_event 900 "w1" payment (serving paid_tables 2)
      ≡ (ok tt, serving u 3))
    × (Events.save_event 900 "w1" payment (serving alice_tables 1) ≡ (ok tt, serving u 2))
save_event_again_example =
    save_event_again "w1" payment 700 900 1 2 alice_tables paid_tables save_payment

save_event_atomic_example :
    Recorded payment (Events.save_event 700 "w1" payment failing).1.tables
    ⊎ ((e : Error) × ((Events.save_event 700 "w1" payment failing).0 ≡ err e)
        × ((Events.save_event 700 "w1" payment failing).1.tables ≡ empty))
save_event_atomic_example = save_event_atomic "w1" payment 700 failing

two_chains : OneEach alice_wallet.accounts
two_chains = ((λ e. absurd (cc), tt), (tt, tt))

save-AllOrNothing_example :
    AllOrNothing
      (memory_wallets (λ m. m))
      (λ m. m)
      alice_wallet
      []
      ((memory_wallets (λ m. m)).save alice_wallet [])
    × AllOrNothing
        (postgres_wallets microseconds)
        (λ db. serving db.tables 1)
        alice_wallet
        failing
        ((postgres_wallets microseconds).save alice_wallet failing)
save-AllOrNothing_example =
    save-AllOrNothing microseconds 1 (λ m. m) same_order-GivesAll alice_wallet [] failing two_chains
