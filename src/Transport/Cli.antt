-- ===== src/Transport/Cli.antt =====
-- internal/transport/cli: what the commands do once cobra has read their flags. `read_passphrase` is
-- term.ReadPassword, and `json_out` the flag --json.
use Prim.Native.Nat.{ℕ}
use Prim.Native.String.{String}
use mathlib.Core.Bool.{Bool, true}
use mathlib.Core.List.{List, [], ◌++◌, ◌∷◌}
use mathlib.Core.Option.{Option, none, some}
use omnicatena.App.Transactions
use omnicatena.App.Transactions.{TransactionService, status}
use omnicatena.App.Wallets
use omnicatena.App.Wallets.{WalletService}
use omnicatena.Base.{if◌then◌else◌, ltb}
use omnicatena.Base.Bytes.{Bytes}
use omnicatena.Base.Decimal.{set_string}
use omnicatena.Base.Exec.{Exec, lift, pure, ◌>>=◌}
use omnicatena.Base.Int.{pos, ℤ}
use omnicatena.Base.Result.{Arg, Result, bytes, err, errorf, int, ok, str}
use omnicatena.Domain.{
  Account, Amount, ChainId, Transaction, TransferRequest, TxStatus, Wallet, confirmed, env_local,
  failed, no_asset, pending, speed_standard, unknown,
}
use omnicatena.Transport.Http.{
  Body, balance_fields, base_text, hash_field, many_wallets, one_transaction, one_wallet,
  or_default,
}

-- What a command prints: a value as JSON, or lines by their formats with their arguments.
pub data Output : Type 0 where
  json : Body → Output
  lines : List (String × List Arg) → Output

-- `--wallet --chain --from --to --amount --speed --env`
pub record TransferFlags : Type 0 where
  pub wallet : String
  pub chain : String
  pub source : String
  pub dest : String
  pub amount : Bytes
  pub speed : String
  pub env : String

abbrev pub transfer_of : TransferFlags → ℤ → TransferRequest
transfer_of flags amount = record {
  network = record { chain = flags.chain; env = or_default flags.env env_local };
  source = flags.source;
  dest = flags.dest;
  amount = record { base = some amount; asset = record no_asset { native = true } };
  speed = or_default flags.speed speed_standard;
}

unfoldable pub account_lines : List Account → List (String × List Arg)
account_lines [] = []
account_lines (a ∷ rest) = ("  %-10s %s\n", str a.chain ∷ str a.address ∷ []) ∷ account_lines rest

-- printWallet; `rfc3339` is the text of a time.
unfoldable pub wallet_lines : (ℕ → Bytes) → Wallet → List (String × List Arg)
wallet_lines rfc3339 w =
    ("ID:      %s\n", str w.id ∷ [])
    ∷ ("Label:   %s\n", str w.label ∷ [])
    ∷ ("Created: %s\n", bytes (rfc3339 w.created_at) ∷ [])
    ∷ ("Accounts:\n", [])
    ∷ account_lines w.accounts

-- The wallets after the first, with an empty line before each.
more_wallets : (ℕ → Bytes) → List Wallet → List (String × List Arg)
more_wallets rfc3339 [] = []
more_wallets rfc3339 (w ∷ rest) = (("\n", []) ∷ wallet_lines rfc3339 w) ++ more_wallets rfc3339 rest

unfoldable pub wallets_lines : (ℕ → Bytes) → List Wallet → List (String × List Arg)
unfolding more_wallets
wallets_lines rfc3339 [] = []
wallets_lines rfc3339 (w ∷ rest) = wallet_lines rfc3339 w ++ more_wallets rfc3339 rest

abbrev pub status_text : TxStatus → String
status_text pending = "pending"
status_text confirmed = "confirmed"
status_text failed = "failed"
status_text unknown = "unknown"

block_line : ℕ → List (String × List Arg)
block_line height = if ltb 0 height then ("block          %d\n", int (pos height) ∷ []) ∷ [] else []

-- printTx
unfoldable pub tx_lines : Transaction → List (String × List Arg)
unfolding block_line
tx_lines tx =
    ("chain          %s\n", str tx.chain ∷ [])
    ∷ ("hash           %s\n", str tx.hash ∷ [])
    ∷ ("status         %s\n", str (status_text tx.status) ∷ [])
    ∷ ("confirmations  %d\n", int (pos tx.confirmations) ∷ [])
    ∷ block_line tx.block_height

abbrev pub print_with {ℓ} :
    {A : Type ℓ} → Bool → (A → Body) → (A → List (String × List Arg)) → A → Output
print_with json_out body lines_of a = if json_out then json (body a) else lines (lines_of a)

module _ {S W : Type 0} (wallets : WalletService S W) (rfc3339 : ℕ → Bytes) (json_out : Bool) where
  unfoldable pub wallet_create : Exec S Bytes → String → Exec S Output
  wallet_create read_passphrase label = do
    pass ← read_passphrase
    w ← Wallets.create wallets label pass
    pure (print_with json_out one_wallet (wallet_lines rfc3339) w)

  unfoldable pub wallet_list : Exec S Output
  wallet_list = do
    ws ← Wallets.list wallets
    pure (print_with json_out many_wallets (wallets_lines rfc3339) ws)

  unfoldable pub wallet_get : String → Exec S Output
  wallet_get id = do
    w ← Wallets.get wallets id
    pure (print_with json_out one_wallet (wallet_lines rfc3339) w)

abbrev pub balance_line : ChainId → Amount → List (String × List Arg)
balance_line chain amount =
    ("%-10s %s %s\n", str chain ∷ bytes (base_text amount.base) ∷ str amount.asset.symbol ∷ []) ∷ []

abbrev pub balance_body : ChainId → Amount → Body
balance_body chain amount = balance_fields chain (base_text amount.base) amount.asset.symbol

abbrev pub hash_lines : String → List (String × List Arg)
hash_lines hash = ("hash  %s\n", str hash ∷ []) ∷ []

read_amount : Bytes → Option ℤ → Result ℤ
read_amount amount none = err (errorf "invalid amount: %q" (bytes amount ∷ []))
read_amount amount (some z) = ok z

module _ {S W : Type 0} (json_out : Bool) where
  unfoldable pub wallet_balance : WalletService S W → ChainId → String → Exec S Output
  wallet_balance wallets chain id = do
    amount ← Wallets.balance wallets id chain
    pure (print_with json_out (balance_body chain) (balance_line chain) amount)

  unfoldable pub tx_transfer : TransactionService S W → Exec S Bytes → TransferFlags → Exec S Output
  unfolding read_amount
  tx_transfer transactions read_passphrase flags = do
    pass ← read_passphrase
    amount ← lift (read_amount flags.amount (set_string flags.amount))
    hash ← Transactions.transfer transactions flags.wallet pass (transfer_of flags amount)
    pure (print_with json_out hash_field hash_lines hash)

  unfoldable pub tx_status : TransactionService S W → ChainId → String → Exec S Output
  tx_status transactions chain hash = do
    tx ← Transactions.status transactions chain hash
    pure (print_with json_out one_transaction tx_lines tx)
