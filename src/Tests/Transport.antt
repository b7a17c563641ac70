-- ===== src/Tests/Transport.antt =====
-- Transfers and queries by the HTTP API and by the command line, at concrete values.
use Prim.Native.Nat.{ℕ}
use Prim.Native.String.{String}
use mathlib.Core.Bool.{true}
use mathlib.Core.List.{[], ◌∷◌}
use mathlib.Core.Logic.{◌↔◌}
use mathlib.Core.Option.{some}
use mathlib.Core.Path.{refl, ◌≡◌}
use omnicatena.App.Transactions.Laws.{IsTransferOf}
use omnicatena.Base.{if◌then◌else◌, string_eq, ◌==◌}
use omnicatena.Base.Bytes.{Bytes, codes}
use omnicatena.Base.Decimal.{set_string}
use omnicatena.Base.Exec.{Exec}
use omnicatena.Base.Int.{ℤ}
use omnicatena.Base.Result.{Result, err, ok, sentinel}
use omnicatena.Repository.Memory.{Wallets}
use omnicatena.Tests.Wallets.{plain, saved_alice, transfers, wallets}
use omnicatena.Transport.Agreement.{flags_of, transfer_agrees}
use omnicatena.Transport.Answers.{transfer_answered}
use omnicatena.Transport.Cli
use omnicatena.Transport.Commands.{Cli, new_cli}
use omnicatena.Transport.Http
use omnicatena.Transport.Http.{TransferBody, hash_field}
use omnicatena.Transport.Operations.{DoTheSame, queries_agree}
use omnicatena.Transport.Routes.{Handler, new_handler}

abbrev request : TransferBody
request = record {
  wallet_id = "w7";
  passphrase = [];
  chain = "ethereum";
  env = "";
  source = "alice";
  dest = "bob";
  amount = codes "12";
  speed = "fast";
}

-- A body of one byte is the request.
read_request : Bytes → Result TransferBody
read_request [] = err (sentinel "EOF")
read_request (b ∷ body) = ok request

abbrev typed : Exec Wallets Bytes
typed s = (ok [], s)

http_200 :
    Http.transfer transfers read_request (1 ∷ []) saved_alice
    ≡ (Http.write_json 200 (hash_field "alice"), saved_alice)
unfolding Http.transfer read_request set_string omnicatena.App.Transactions.transfer
    omnicatena.Chain.Registry.adapter omnicatena.Base.Map.lookup
    omnicatena.Chain.Registry.new_registry omnicatena.Base.Map.insert
    omnicatena.Repository.Memory.get omnicatena.Domain.account
http_200 = refl

http_400 :
    Http.transfer transfers read_request [] saved_alice
    ≡ (Http.write_err 400 (sentinel "EOF"), saved_alice)
unfolding Http.transfer read_request
http_400 = refl

transfer_agrees_example :
    ((Http.transfer transfers read_request (1 ∷ []) saved_alice).1
      ≡ (Cli.tx_transfer true transfers typed (flags_of request) saved_alice).1)
    × ((hash : String)
        → ((Http.transfer transfers read_request (1 ∷ []) saved_alice).0
            ≡ Http.write_json 200 (hash_field hash))
          ↔ ((Cli.tx_transfer true transfers typed (flags_of request) saved_alice).0
              ≡ ok (Cli.print_with true hash_field Cli.hash_lines hash)))
unfolding read_request
transfer_agrees_example =
    transfer_agrees transfers read_request true typed (1 ∷ []) request saved_alice refl refl

transfer_answered_example :
    (◌≡◌ {A = ℕ} 200 200
      → (req : TransferBody) × (amount : ℤ) × (hash : String) × (read_request (1 ∷ []) ≡ ok req)
        × (set_string req.amount ≡ some amount)
        × (hash_field "alice" ≡ hash_field hash)
        × IsTransferOf transfers
            (plain ∷ [])
            req.wallet_id
            req.passphrase
            (Http.transfer_request req amount)
            saved_alice
            saved_alice
            hash)
    × (◌≡◌ {A = ℕ} 200 400 → saved_alice ≡ saved_alice)
transfer_answered_example =
    transfer_answered transfers (plain ∷ []) read_request refl (1 ∷ []) saved_alice saved_alice
      (Http.write_json 200 (hash_field "alice")) http_200

-- The parameters of a path and the flags of a command.
abbrev named : String → String
named name = if name == "id" then "w7" else if name == "chain" then "ethereum" else "0x1"

abbrev api : Handler Wallets (Unit {0})
api = new_handler wallets transfers (λ body. err (sentinel "EOF")) read_request

abbrev omni : Cli Wallets (Unit {0})
omni = new_cli wallets transfers typed (λ t. [])

queries_agree_example :
    DoTheSame api omni "GET" "/wallets" "wallet" "list" 500 named named []
    × DoTheSame api omni "GET" "/wallets/{id}" "wallet" "get <id>" 404 named named ("w7" ∷ [])
    × DoTheSame api omni "GET" "/wallets/{id}/balance/{chain}" "wallet" "balance <id>" 500 named
        named
        ("w7" ∷ [])
    × DoTheSame api omni "GET" "/transactions/{chain}/{hash}" "tx" "status <hash>" 500 named named
        ("0x1" ∷ [])
queries_agree_example =
    queries_agree wallets transfers (λ body. err (sentinel "EOF")) read_request typed (λ t. [])
      named named refl
