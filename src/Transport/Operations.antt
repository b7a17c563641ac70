-- ===== src/Transport/Operations.antt =====
-- The routes of internal/transport/http/handler.go and the commands of internal/transport/cli, side by
-- side.
use Prim.Native.Nat.{ℕ}
use Prim.Native.String.{String}
use mathlib.Core.Bool.{true, ◌&&◌}
use mathlib.Core.List.{List, [], ◌∷◌}
use mathlib.Core.Logic.{◌↔◌, ◌≢◌}
use mathlib.Core.Option.{Option, none, some}
use mathlib.Core.Path.{ap, refl, subst, sym, ◌≡◌}
use native.Mathlib.Omega.{arith}
use omnicatena.App.Transactions
use omnicatena.App.Transactions.{TransactionService}
use omnicatena.App.Wallets
use omnicatena.App.Wallets.{WalletService}
use omnicatena.Base.{if◌then◌else◌, string_eq, ◌==◌}
use omnicatena.Base.Bytes.{Bytes}
use omnicatena.Base.Exec.{Exec, continue, pure}
use omnicatena.Base.Result.{Error, Result, err, ok}
use omnicatena.Domain.{ChainId}
use omnicatena.Transport.Cli
use omnicatena.Transport.Cli.{Output, balance_body, json}
use omnicatena.Transport.Commands.{Cli, Command, Group, new_cli, root}
use omnicatena.Transport.Http
use omnicatena.Transport.Http.{
  Body, CreateWalletRequest, Response, TransferBody, answer_with, error_field, many_wallets,
  one_transaction, one_wallet, write_err, write_json,
}
use omnicatena.Transport.Routes.{Handler, Route, new_handler, router}

-- The route of a method and a pattern, and the command of a group.
abbrev pub find_route : {S : Type 0} → String → String → List (Route S) → Option (Route S)
find_route method pattern [] = none
find_route method pattern (r ∷ rest) =
    if r.method == method && r.pattern == pattern then some r else find_route method pattern rest

abbrev pub find_command : {S : Type 0} → String → List (Command S) → Option (Command S)
find_command name [] = none
find_command name (c ∷ rest) = if c.use_line == name then some c else find_command name rest

abbrev pub find_in_group : {S : Type 0} → String → String → List (Group S) → Option (Command S)
find_in_group group name [] = none
find_in_group group name (g ∷ rest) =
    if g.use_line == group then find_command name g.commands else find_in_group group name rest

-- The same was done: the states are the same, what the one writes with 200 is what the other prints,
-- and an error that the one writes, with the code `bad`, is the other's.
abbrev pub SameAnswer : {S : Type 0} → ℕ → Response × S → Result Output × S → Type 0
SameAnswer bad (response, s) (output, t) =
    (s ≡ t)
    × ((b : Body) → (response ≡ write_json 200 b) ↔ (output ≡ ok (json b)))
    × ((e : Error) → (response ≡ write_err bad e) ↔ (output ≡ err e))

answer-SameAnswer :
    {S A : Type 0} (bad : ℕ)
    → ◌≢◌ {A = ℕ} 200 bad
    → (f : A → Body) (r : Result A × S)
    → SameAnswer bad (answer_with 200 bad f r) (continue r (λ a. pure (json (f a))))
answer-SameAnswer bad ne f (ok a, s) = (
  refl,
  λ b. (
    λ h. ap (λ (x : Response). ok (json x.body)) h,
    λ h. ap (λ x. elim x [ ok (json y) ↦ write_json 200 y | _ ↦ write_json 200 (f a) ]) h,
  ),
  λ e. (λ h. absurd (ne (ap (λ (x : Response). x.code) h)), λ h. absurd (cc)),
)
answer-SameAnswer bad ne f (err er, s) = (
  refl,
  λ b. (λ h. absurd (ne (sym (ap (λ (x : Response). x.code) h))), λ h. absurd (cc)),
  λ e. (
    λ h. ap (λ (x : Response). elim x.body [ error_field y ↦ err y | _ ↦ err er ]) h,
    λ h. ap (λ x. elim x [ err y ↦ write_err bad y | ok _ ↦ write_err bad er ]) h,
  ),
)

module _ {S W : Type 0} (h : Handler S W) (c : Cli S W) where
  -- There are such a route and such a command, and with --json they do the same for these parameters,
  -- flags and arguments.
  abbrev pub DoTheSame :
      String
      → String
      → String
      → String
      → ℕ
      → (String → String)
      → (String → String)
      → List String
      → Type 0
  DoTheSame method pattern group name bad param flags args =
      (r : Route S) × (cmd : Command S) × (find_route method pattern (router h) ≡ some r)
      × (find_in_group group name (root c).groups ≡ some cmd)
      × ((body : Bytes) (s : S)
          → SameAnswer bad (r.handler_func param body s) (cmd.run true flags args s))

module _ {S W : Type 0} (wallets : WalletService S W) (transactions : TransactionService S W)
    (read_create : Bytes → Result CreateWalletRequest) (read_transfer : Bytes → Result TransferBody)
    (read_passphrase : Exec S Bytes) (rfc3339 : ℕ → Bytes) where
  abbrev handler : Handler S W
  handler = new_handler wallets transactions read_create read_transfer

  abbrev cli : Cli S W
  cli = new_cli wallets transactions read_passphrase rfc3339

  -- The two front ends over the same services do the same for each query. With --json, where the
  -- argument of the command is the last parameter of the path, or the wallet's id, and the flag --chain is
  -- the path's chain: the command for a list of the wallets, for a wallet, for a balance and for the
  -- status of a transaction leaves the same state as the route, prints what this answers with 200, and
  -- fails with the error for which this answers 404 for a wallet and 500 for the others.
  pub queries_agree :
      (param flags : String → String)
      → param "chain" ≡ flags "chain"
      → DoTheSame handler cli "GET" "/wallets" "wallet" "list" 500 param flags []
        × DoTheSame handler cli "GET" "/wallets/{id}" "wallet" "get <id>" 404 param flags
            (param "id" ∷ [])
        × DoTheSame handler cli "GET" "/wallets/{id}/balance/{chain}" "wallet" "balance <id>" 500
            param flags
            (param "id" ∷ [])
        × DoTheSame handler cli "GET" "/transactions/{chain}/{hash}" "tx" "status <hash>" 500 param
            flags
            (param "hash" ∷ [])
  unfolding router root Http.list_wallets Http.get_wallet Http.wallet_balance Http.tx_status
      Cli.wallet_list Cli.wallet_get Cli.wallet_balance Cli.tx_status
  queries_agree param flags same = (
    (
      _,
      _,
      refl,
      refl,
      λ body s. answer-SameAnswer 500 (omega arith) many_wallets (Wallets.list wallets s),
    ),
    (
      _,
      _,
      refl,
      refl,
      λ body s. answer-SameAnswer 404 (omega arith) one_wallet (Wallets.get wallets (param "id") s),
    ),
    (
      _,
      _,
      refl,
      refl,
      λ body s.
          subst
            (λ (chain : ChainId).
              SameAnswer 500 (Http.wallet_balance wallets (param "id") (param "chain") s)
                (Cli.wallet_balance true wallets chain (param "id") s))
            same
            (answer-SameAnswer 500 (omega arith) (balance_body (param "chain"))
              (Wallets.balance wallets (param "id") (param "chain") s)),
    ),
    (
      _,
      _,
      refl,
      refl,
      λ body s.
          subst
            (λ (chain : ChainId).
              SameAnswer 500 (Http.tx_status transactions (param "chain") (param "hash") s)
                (Cli.tx_status true transactions chain (param "hash") s))
            same
            (answer-SameAnswer 500 (omega arith) one_transaction
              (Transactions.status transactions (param "chain") (param "hash") s)),
    ),
  )
