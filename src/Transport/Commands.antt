-- ===== src/Transport/Commands.antt =====
-- The commands that internal/transport/cli declares to cobra: cli.go, wallet.go and tx.go. What cobra
-- does with them is not part of the program.
use Prim.Native.Nat.{ℕ}
use Prim.Native.String.{String}
use mathlib.Core.Bool.{Bool, false, true}
use mathlib.Core.List.{List, [], ◌∷◌}
use mathlib.Core.Option.{Option, none, some}
use omnicatena.App.Transactions.{TransactionService}
use omnicatena.App.Wallets.{WalletService}
use omnicatena.Base.Bytes.{Bytes, codes}
use omnicatena.Base.Exec.{Exec, fail}
use omnicatena.Base.Result.{sentinel}
use omnicatena.Transport.Cli.{
  Output, TransferFlags, tx_status, tx_transfer, wallet_balance, wallet_create, wallet_get,
  wallet_list,
}

-- A flag for a text, which is empty where the flag is not given.
pub record Flag : Type 0 where
  pub name : String
  pub usage : String
  pub required : Bool

-- `args` is the n of cobra.ExactArgs(n). `run` has the flag --json, the values of the other flags by
-- their names, and the arguments.
pub record Command (S : Type 0) : Type 0 where
  pub use_line : String
  pub short : String
  pub flags : List Flag
  pub args : Option ℕ
  pub run : Bool → (String → String) → List String → Exec S Output

pub record Group (S : Type 0) : Type 0 where
  pub use_line : String
  pub short : String
  pub commands : List (Command S)

pub record Root (S : Type 0) : Type 0 where
  pub use_line : String
  pub short : String
  pub json_flag : Flag
  pub groups : List (Group S)

-- CLI; `read_passphrase` asks the terminal, and `rfc3339` is the text of a time.
pub record Cli (S W : Type 0) : Type 0 where
  pub wallets : WalletService S W
  pub txs : TransactionService S W
  pub read_passphrase : Exec S Bytes
  pub rfc3339 : ℕ → Bytes

abbrev pub new_cli :
    {S W : Type 0}
    → WalletService S W
    → TransactionService S W
    → Exec S Bytes
    → (ℕ → Bytes)
    → Cli S W
new_cli w t read_passphrase rfc3339 = record {
  wallets = w;
  txs = t;
  read_passphrase = read_passphrase;
  rfc3339 = rfc3339;
}

-- `args[0]`, which panics where there is no argument.
abbrev pub with_first : {S : Type 0} → (String → Exec S Output) → List String → Exec S Output
with_first f [] = fail (sentinel "index out of range")
with_first f (arg ∷ rest) = f arg

abbrev pub transfer_flags : (String → String) → TransferFlags
transfer_flags flags = record {
  wallet = flags "wallet";
  chain = flags "chain";
  source = flags "from";
  dest = flags "to";
  amount = codes (flags "amount");
  speed = flags "speed";
  env = flags "env";
}

module _ {S W : Type 0} (c : Cli S W) where
  abbrev wallet_create_command : Command S
  wallet_create_command = record {
    use_line = "create";
    short = "Create a new HD wallet";
    flags = record { name = "label"; usage = "wallet label"; required = true } ∷ [];
    args = none;
    run =
        λ json flags args. wallet_create c.wallets c.rfc3339 json c.read_passphrase (flags "label");
  }

  abbrev wallet_list_command : Command S
  wallet_list_command = record {
    use_line = "list";
    short = "List all wallets";
    flags = [];
    args = none;
    run = λ json flags args. wallet_list c.wallets c.rfc3339 json;
  }

  abbrev wallet_get_command : Command S
  wallet_get_command = record {
    use_line = "get <id>";
    short = "Get a wallet by ID";
    flags = [];
    args = some 1;
    run = λ json flags args. with_first (wallet_get c.wallets c.rfc3339 json) args;
  }

  abbrev wallet_balance_command : Command S
  wallet_balance_command = record {
    use_line = "balance <id>";
    short = "Get wallet balance on a chain";
    flags =
        record { name = "chain"; usage = "chain ID (bitcoin, ethereum, ...)"; required = true }
        ∷ [];
    args = some 1;
    run = λ json flags args. with_first (wallet_balance json c.wallets (flags "chain")) args;
  }

  abbrev wallet_group : Group S
  wallet_group = record {
    use_line = "wallet";
    short = "Manage wallets";
    commands =
        wallet_create_command ∷ wallet_list_command ∷ wallet_get_command ∷ wallet_balance_command
        ∷ [];
  }

  abbrev tx_transfer_command : Command S
  tx_transfer_command = record {
    use_line = "transfer";
    short = "Send a native asset transfer";
    flags =
        record { name = "wallet"; usage = "wallet ID"; required = true }
        ∷ record { name = "chain"; usage = "chain ID"; required = true }
        ∷ record { name = "from"; usage = "sender address"; required = true }
        ∷ record { name = "to"; usage = "recipient address"; required = true }
        ∷ record {
          name = "amount";
          usage = "amount in smallest unit (satoshi, wei, ...)";
          required = true;
        }
        ∷ record {
          name = "speed";
          usage = "fee speed: economy|standard|fast (default: standard)";
          required = false;
        }
        ∷ record {
          name = "env";
          usage = "network env: local|testnet|mainnet (default: local)";
          required = false;
        }
        ∷ [];
    args = none;
    run = λ json flags args. tx_transfer json c.txs c.read_passphrase (transfer_flags flags);
  }

  abbrev tx_status_command : Command S
  tx_status_command = record {
    use_line = "status <hash>";
    short = "Get transaction status";
    flags = record { name = "chain"; usage = "chain ID"; required = true } ∷ [];
    args = some 1;
    run = λ json flags args. with_first (tx_status json c.txs (flags "chain")) args;
  }

  abbrev tx_group : Group S
  tx_group = record {
    use_line = "tx";
    short = "Manage transactions";
    commands = tx_transfer_command ∷ tx_status_command ∷ [];
  }

  -- What `Run` gives to cobra.
  unfoldable pub root : Root S
  root = record {
    use_line = "omni";
    short = "Omnicatena wallet CLI";
    json_flag = record { name = "json"; usage = "output as JSON"; required = false };
    groups = wallet_group ∷ tx_group ∷ [];
  }
