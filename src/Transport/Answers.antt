-- ===== src/Transport/Answers.antt =====
-- The answers of internal/transport/http/handler.go to a transfer.
use Prim.Native.String.{String}
use mathlib.Core.List.{List}
use mathlib.Core.Option.{Option, none, some}
use mathlib.Core.Path.{refl, subst, sym, ◌∙◌, ◌≡◌}
use native.Mathlib.Omega.{arith}
use omnicatena.App.Transactions
use omnicatena.App.Transactions.{TransactionService}
use omnicatena.App.Transactions.Laws.{IsTransferOf, transfer-eq_ok}
use omnicatena.Base.Bytes.{Bytes}
use omnicatena.Base.Decimal.{set_string}
use omnicatena.Base.Int.{ℤ}
use omnicatena.Base.Result.{Error, Result, err, ok}
use omnicatena.Chain.Registry.{new_registry}
use omnicatena.Port.{ChainAdapter}
use omnicatena.Transport.Http
use omnicatena.Transport.Http.{
  Body, Response, TransferBody, answer_with, hash_field, literal, transfer_request, write_err,
  write_json,
}

module _ {S W : Type 0} (transactions : TransactionService S W)
    (read_transfer : Bytes → Result TransferBody) where
  -- What the handler does with a body that is read.
  pub http-eq :
      (body : Bytes) (req : TransferBody) (s : S)
      → read_transfer body ≡ ok req
      → Http.transfer transactions read_transfer body s ≡ elim (set_string req.amount) [
        | none ↦ (write_json 400 (literal "{\"error\":\"invalid amount\"}"), s)
        | some z ↦ answer_with 200 500 hash_field (
            Transactions.transfer transactions req.wallet_id req.passphrase
              (transfer_request req z)
              s)
      ]
  unfolding Http.transfer
  http-eq body req s h = go (set_string req.amount) refl
    where
      go :
          (o : Option ℤ)
          → set_string req.amount ≡ o
          → Http.transfer transactions read_transfer body s ≡ elim o [
            | none ↦ (write_json 400 (literal "{\"error\":\"invalid amount\"}"), s)
            | some z ↦ answer_with 200 500 hash_field (
                Transactions.transfer transactions req.wallet_id req.passphrase
                  (transfer_request req z)
                  s)
          ]
      go none e = rw (Http.transfer, h, e) refl
      go (some z) e = rw (Http.transfer, h, e) refl

module _ {S W : Type 0} (transactions : TransactionService S W) (adapters : List (ChainAdapter S))
    (read_transfer : Bytes → Result TransferBody) where
  -- An answer of 200 to a transfer's request has the hash of a transfer that went through every step:
  -- the body was read, its amount is a decimal number, and the service had an adapter build, sign and
  -- broadcast it for the wallet and the addresses of the body. An answer of 400 leaves everything as
  -- it was. The service's registry is one that `new_registry` makes.
  pub transfer_answered :
      transactions.registry ≡ new_registry adapters
      → (body : Bytes) (s t : S) (response : Response)
      → Http.transfer transactions read_transfer body s ≡ (response, t)
      → (response.code ≡ 200
          → (req : TransferBody) × (amount : ℤ) × (hash : String) × (read_transfer body ≡ ok req)
            × (set_string req.amount ≡ some amount)
            × (response.body ≡ hash_field hash)
            × IsTransferOf transactions adapters req.wallet_id req.passphrase
                (transfer_request req amount)
                s
                t
                hash)
        × (response.code ≡ 400 → t ≡ s)
  unfolding Http.transfer
  transfer_answered made body s t response h = go (read_transfer body) refl
    where
      Answered : Response × S → Type 0
      Answered (a, u) =
          (a.code ≡ 200
            → (req : TransferBody) × (amount : ℤ) × (hash : String) × (read_transfer body ≡ ok req)
              × (set_string req.amount ≡ some amount)
              × (a.body ≡ hash_field hash)
              × IsTransferOf transactions adapters req.wallet_id req.passphrase
                  (transfer_request req amount) s u hash)
          × (a.code ≡ 400 → u ≡ s)

      served :
          (req : TransferBody) (z : ℤ)
          → read_transfer body ≡ ok req
          → set_string req.amount ≡ some z
          → (r : Result String × S)
          → Transactions.transfer transactions req.wallet_id req.passphrase
              (transfer_request req z)
              s
            ≡ r
          → Answered (answer_with 200 500 hash_field r)
      served req z e f (err er, u) k =
          (λ c. absurd (omega (arith, c)), λ c. absurd (omega (arith, c)))
      served req z e f (ok hash, u) k = (
        λ c. (
          req,
          z,
          hash,
          e,
          f,
          refl,
          transfer-eq_ok transactions adapters made req.wallet_id req.passphrase
              (transfer_request req z) s u hash k,
        ),
        λ c. absurd (omega (arith, c)),
      )

      parsed :
          (req : TransferBody)
          → read_transfer body ≡ ok req
          → (o : Option ℤ) → set_string req.amount ≡ o
          → Answered (elim o [
            | none ↦ (write_json 400 (literal "{\"error\":\"invalid amount\"}"), s)
            | some z ↦ answer_with 200 500 hash_field (
                Transactions.transfer transactions req.wallet_id req.passphrase
                  (transfer_request req z)
                  s)
          ])
      parsed req e none f = (λ c. absurd (omega (arith, c)), λ c. refl)
      parsed req e (some z) f =
          served req z e f
            (Transactions.transfer transactions req.wallet_id req.passphrase
              (transfer_request req z) s)
            refl

      bad_body :
          (e : Error)
          → read_transfer body ≡ err e
          → Http.transfer transactions read_transfer body s ≡ (write_err 400 e, s)
      bad_body e k = rw (Http.transfer, k) refl

      go : (r : Result TransferBody) → read_transfer body ≡ r → Answered (response, t)
      go (err e) k =
          let refused : ◌≡◌ {A = Response × S} (write_err 400 e, s) (response, t) =
            sym (bad_body e k) ∙ h in
          subst Answered refused (λ c. absurd (omega (arith, c)), λ c. refl)
      go (ok req) k =
          subst Answered (sym (http-eq transactions read_transfer body req s k) ∙ h)
            (parsed req k (set_string req.amount) refl)
