-- ===== src/Transport/Http.antt =====
-- internal/transport/http/handler.go. Reading JSON is a parameter; what is written as JSON is the
-- value that is written.
use Prim.Native.Nat.{ℕ}
use Prim.Native.String.{String}
use mathlib.Core.Bool.{true}
use mathlib.Core.List.{List}
use mathlib.Core.Option.{Option, none, some}
use omnicatena.App.Transactions
use omnicatena.App.Transactions.{TransactionService}
use omnicatena.App.Wallets
use omnicatena.App.Wallets.{WalletService}
use omnicatena.Base.{if◌then◌else◌, string_eq, ◌==◌}
use omnicatena.Base.Bytes.{Bytes, codes}
use omnicatena.Base.Decimal.{decimal_ℤ, set_string}
use omnicatena.Base.Int.{ℤ}
use omnicatena.Base.Result.{Error, Result, err, ok}
use omnicatena.Domain.{
  Amount, ChainId, Transaction, TransferRequest, Wallet, env_local, no_asset, speed_standard,
}

pub record CreateWalletRequest : Type 0 where
  pub label : String
  pub passphrase : Bytes

-- The struct transferReq.
pub record TransferBody : Type 0 where
  pub wallet_id : String
  pub passphrase : Bytes
  pub chain : String
  pub env : String
  pub source : String
  pub dest : String
  pub amount : Bytes
  pub speed : String

pub data Body : Type 0 where
  one_wallet : Wallet → Body
  many_wallets : List Wallet → Body
  one_transaction : Transaction → Body
  hash_field : String → Body
  balance_fields : ChainId → Bytes → String → Body
  error_field : Error → Body
  literal : String → Body

pub record Response : Type 0 where
  pub code : ℕ
  pub body : Body

abbrev pub write_json : ℕ → Body → Response
write_json code body = record { code = code; body = body }

abbrev pub write_err : ℕ → Error → Response
write_err code e = write_json code (error_field e)

-- `amount.Base.String()`: the text of a nil number is <nil>.
unfoldable pub base_text : Option ℤ → Bytes
base_text none = codes "<nil>"
base_text (some z) = decimal_ℤ z

-- `fallback` where a field is empty.
abbrev pub or_default : String → String → String
or_default s fallback = if s == "" then fallback else s

abbrev pub transfer_request : TransferBody → ℤ → TransferRequest
transfer_request req amount = record {
  network = record { chain = req.chain; env = or_default req.env env_local };
  source = req.source;
  dest = req.dest;
  amount = record { base = some amount; asset = record no_asset { native = true } };
  speed = or_default req.speed speed_standard;
}

-- A handler answers and leaves a state. `answer_with` gives the service's result to `writeJSON`, or
-- its error to `writeErr`.
abbrev pub answer_with {ℓ} :
    {S : Type 0} {A : Type ℓ} → ℕ → ℕ → (A → Body) → Result A × S → Response × S
answer_with good bad f (ok a, s) = (write_json good (f a), s)
answer_with good bad f (err e, s) = (write_err bad e, s)

module _ {S W : Type 0} (wallets : WalletService S W)
    (read_create : Bytes → Result CreateWalletRequest) where
  -- after the decoding of the body
  created : Result CreateWalletRequest → S → Response × S
  created (err e) s = (write_err 400 e, s)
  created (ok req) s =
      answer_with 201 500 one_wallet (Wallets.create wallets req.label req.passphrase s)

  unfoldable pub create_wallet : Bytes → S → Response × S
  unfolding created
  create_wallet body s = created (read_create body) s

module _ {S W : Type 0} (wallets : WalletService S W) where
  unfoldable pub list_wallets : S → Response × S
  list_wallets s = answer_with 200 500 many_wallets (Wallets.list wallets s)

  unfoldable pub get_wallet : String → S → Response × S
  get_wallet id s = answer_with 200 404 one_wallet (Wallets.get wallets id s)

  unfoldable pub wallet_balance : String → ChainId → S → Response × S
  wallet_balance id chain s =
      answer_with 200 500
        (λ (amount : Amount). balance_fields chain (base_text amount.base) amount.asset.symbol)
        (Wallets.balance wallets id chain s)

module _ {S W : Type 0} (transactions : TransactionService S W)
    (read_transfer : Bytes → Result TransferBody) where
  -- after the decoding of the body, and of its amount
  sent : TransferBody → Option ℤ → S → Response × S
  sent req none s = (write_json 400 (literal "{\"error\":\"invalid amount\"}"), s)
  sent req (some amount) s = answer_with 200 500 hash_field (
      Transactions.transfer transactions req.wallet_id req.passphrase (transfer_request req amount)
        s)

  decoded : Result TransferBody → S → Response × S
  unfolding sent
  decoded (err e) s = (write_err 400 e, s)
  decoded (ok req) s = sent req (set_string req.amount) s

  unfoldable pub transfer : Bytes → S → Response × S
  unfolding decoded
  transfer body s = decoded (read_transfer body) s

module _ {S W : Type 0} (transactions : TransactionService S W) where
  unfoldable pub tx_status : ChainId → String → S → Response × S
  tx_status chain hash s =
      answer_with 200 500 one_transaction (Transactions.status transactions chain hash s)
