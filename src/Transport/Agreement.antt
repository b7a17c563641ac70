-- ===== src/Transport/Agreement.antt =====
-- A transfer by internal/transport/http/handler.go and one by internal/transport/cli/tx.go.
use Prim.Native.String.{String}
use mathlib.Core.Bool.{Bool, false, true}
use mathlib.Core.List.{[], ◌∷◌}
use mathlib.Core.Logic.{◌↔◌}
use mathlib.Core.Option.{Option, none, some}
use mathlib.Core.Path.{ap, refl, subst, sym, ◌∙◌, ◌≡◌}
use native.Mathlib.Omega.{arith}
use omnicatena.App.Transactions
use omnicatena.App.Transactions.{TransactionService}
use omnicatena.Base.Bytes.{Bytes}
use omnicatena.Base.Decimal.{set_string}
use omnicatena.Base.Exec.{Exec, continue, pure, ◌>>=◌}
use omnicatena.Base.Int.{ℤ}
use omnicatena.Base.Result.{Result, bytes, err, errorf, ok, str}
use omnicatena.Transport.Answers.{http-eq}
use omnicatena.Transport.Cli
use omnicatena.Transport.Cli.{
  Output, TransferFlags, hash_lines, json, lines, print_with, transfer_of,
}
use omnicatena.Transport.Http
use omnicatena.Transport.Http.{
  Body, Response, TransferBody, answer_with, hash_field, literal, transfer_request, write_err,
  write_json,
}

-- The flags for a request's fields.
abbrev pub flags_of : TransferBody → TransferFlags
flags_of req = record {
  wallet = req.wallet_id;
  chain = req.chain;
  source = req.source;
  dest = req.dest;
  amount = req.amount;
  speed = req.speed;
  env = req.env;
}

body_hash : Body → String
body_hash (hash_field h) = h
body_hash _ = ""

output_hash : Output → String
unfolding body_hash
output_hash (json b) = body_hash b
output_hash (lines ((_, str h ∷ _) ∷ _)) = h
output_hash _ = ""

output_hash-print_with :
    (json_out : Bool) (hash : String)
    → output_hash (print_with json_out hash_field hash_lines hash) ≡ hash
unfolding output_hash
output_hash-print_with true hash = refl
output_hash-print_with false hash = refl

module _ {S W : Type 0} (transactions : TransactionService S W)
    (read_transfer : Bytes → Result TransferBody) where
  -- What the command does after the passphrase was typed.
  cli-eq :
      (json_out : Bool) (read_passphrase : Exec S Bytes) (flags : TransferFlags) (pass : Bytes)
      (s : S)
      → read_passphrase s ≡ (ok pass, s)
      → Cli.tx_transfer json_out transactions read_passphrase flags s
        ≡ elim (set_string flags.amount) [
          | none ↦ (err (errorf "invalid amount: %q" (bytes flags.amount ∷ [])), s)
          | some z ↦
              (Transactions.transfer transactions flags.wallet pass (transfer_of flags z)
                  >>= λ hash. pure (print_with json_out hash_field hash_lines hash))
                s
        ]
  unfolding Cli.tx_transfer
  cli-eq json_out read_passphrase flags pass s h = go (set_string flags.amount) refl
    where
      go :
          (o : Option ℤ)
          → set_string flags.amount ≡ o
          → Cli.tx_transfer json_out transactions read_passphrase flags s ≡ elim o [
            | none ↦ (err (errorf "invalid amount: %q" (bytes flags.amount ∷ [])), s)
            | some z ↦
                (Transactions.transfer transactions flags.wallet pass (transfer_of flags z)
                    >>= λ hash. pure (print_with json_out hash_field hash_lines hash))
                  s
          ]
      go none e = rw (Cli.tx_transfer, h, e) refl
      go (some z) e = rw (Cli.tx_transfer, h, e) refl

  -- A result of the service, as the two programs show it: they leave the same state, and the one
  -- answers 200 with a hash exactly when the other prints it.
  abbrev Agree : Bool → Response × S → Result Output × S → Type 0
  Agree json_out (response, s) (output, t) =
      (s ≡ t)
      × ((hash : String)
          → (response ≡ write_json 200 (hash_field hash))
            ↔ (output ≡ ok (print_with json_out hash_field hash_lines hash)))

  shown :
      (json_out : Bool) (r : Result String × S)
      → Agree json_out
          (answer_with 200 500 hash_field r)
          (continue r (λ hash. pure (print_with json_out hash_field hash_lines hash)))
  unfolding body_hash
  shown json_out (err e, s) = (
    refl,
    λ hash. (
      λ h. absurd (let bad : 500 ≡ 200 = ap (λ (x : Response). x.code) h in omega arith),
      λ h. absurd (cc),
    ),
  )
  shown json_out (ok hash', s) = (
    refl,
    λ hash. (
      λ h.
          ap (λ x. ok (print_with json_out hash_field hash_lines x))
            (ap (λ (x : Response). body_hash x.body) h),
      λ h.
          ap (λ x. write_json 200 (hash_field x))
            (sym (output_hash-print_with json_out hash')
              ∙ ap (λ x. elim x [ ok o ↦ output_hash o | err _ ↦ hash' ]) h
              ∙ output_hash-print_with json_out hash),
    ),
  )

  -- A transfer by the HTTP API and one by the command line with the same fields, where the passphrase
  -- that is typed is the request's and typing it changes nothing, leave the same state, and the API
  -- answers 200 with a hash exactly when the command prints that hash.
  pub transfer_agrees :
      (json_out : Bool) (read_passphrase : Exec S Bytes) (body : Bytes) (req : TransferBody) (s : S)
      → read_transfer body ≡ ok req
      → read_passphrase s ≡ (ok req.passphrase, s)
      → ((Http.transfer transactions read_transfer body s).1
          ≡ (Cli.tx_transfer json_out transactions read_passphrase (flags_of req) s).1)
        × ((hash : String)
            → ((Http.transfer transactions read_transfer body s).0
                ≡ write_json 200 (hash_field hash))
              ↔ ((Cli.tx_transfer json_out transactions read_passphrase (flags_of req) s).0
                  ≡ ok (print_with json_out hash_field hash_lines hash)))
  transfer_agrees json_out read_passphrase body req s read typed =
      let h = http-eq transactions read_transfer body req s read in
      let c = cli-eq json_out read_passphrase (flags_of req) req.passphrase s typed in
      subst
        (λ x.
          Agree json_out x (Cli.tx_transfer json_out transactions read_passphrase (flags_of req) s))
        (sym h)
        (subst
          (λ y.
            Agree json_out
              (elim (set_string req.amount) [
                | none ↦ (write_json 400 (literal "{\"error\":\"invalid amount\"}"), s)
                | some z ↦ answer_with 200 500 hash_field (
                    Transactions.transfer transactions req.wallet_id req.passphrase
                      (transfer_request req z) s)
              ])
              y)
          (sym c) (go (set_string req.amount)))
    where
      go :
          (o : Option ℤ)
          → Agree json_out
              (elim o [
                | none ↦ (write_json 400 (literal "{\"error\":\"invalid amount\"}"), s)
                | some z ↦ answer_with 200 500 hash_field (
                    Transactions.transfer transactions req.wallet_id req.passphrase
                      (transfer_request req z)
                      s)
              ])
              (elim o [
                | none ↦ (err (errorf "invalid amount: %q" (bytes req.amount ∷ [])), s)
                | some z ↦
                    (Transactions.transfer transactions req.wallet_id req.passphrase
                          (transfer_of (flags_of req) z)
                        >>= λ hash. pure (print_with json_out hash_field hash_lines hash))
                      s
              ])
      go none = (
        refl,
        λ hash. (
          λ h. absurd (let bad : 400 ≡ 200 = ap (λ (x : Response). x.code) h in omega arith),
          λ h. absurd (cc),
        ),
      )
      go (some z) = shown json_out (
          Transactions.transfer transactions req.wallet_id req.passphrase (transfer_request req z)
            s)
