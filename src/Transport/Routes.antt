-- ===== src/Transport/Routes.antt =====
-- NewHandler and Router of internal/transport/http/handler.go. chi, which chooses the route of a request
-- and gives the handler the parameters of its path, is not part of the program.
use Prim.Native.String.{String}
use mathlib.Core.List.{List, [], ◌∷◌}
use omnicatena.App.Transactions.{TransactionService}
use omnicatena.App.Wallets.{WalletService}
use omnicatena.Base.Bytes.{Bytes}
use omnicatena.Base.Result.{Result}
use omnicatena.Transport.Http.{
  CreateWalletRequest, Response, TransferBody, create_wallet, get_wallet, list_wallets, transfer,
  tx_status, wallet_balance,
}

-- A handler reads the parameters of the path (chi.URLParam) and the body.
pub record Route (S : Type 0) : Type 0 where
  pub method : String
  pub pattern : String
  pub handler_func : (String → String) → Bytes → S → Response × S

-- `read_create` and `read_transfer` decode the bodies.
pub record Handler (S W : Type 0) : Type 0 where
  pub wallets : WalletService S W
  pub transactions : TransactionService S W
  pub read_create : Bytes → Result CreateWalletRequest
  pub read_transfer : Bytes → Result TransferBody

abbrev pub new_handler :
    {S W : Type 0}
    → WalletService S W
    → TransactionService S W
    → (Bytes → Result CreateWalletRequest)
    → (Bytes → Result TransferBody)
    → Handler S W
new_handler w t read_create read_transfer = record {
  wallets = w;
  transactions = t;
  read_create = read_create;
  read_transfer = read_transfer;
}

module _ {S W : Type 0} (h : Handler S W) where
  unfoldable pub router : List (Route S)
  router =
      record {
        method = "POST";
        pattern = "/wallets";
        handler_func = λ param body. create_wallet h.wallets h.read_create body;
      }
      ∷ record {
        method = "GET";
        pattern = "/wallets";
        handler_func = λ param body. list_wallets h.wallets;
      }
      ∷ record {
        method = "GET";
        pattern = "/wallets/{id}";
        handler_func = λ param body. get_wallet h.wallets (param "id");
      }
      ∷ record {
        method = "GET";
        pattern = "/wallets/{id}/balance/{chain}";
        handler_func = λ param body. wallet_balance h.wallets (param "id") (param "chain");
      }
      ∷ record {
        method = "POST";
        pattern = "/transactions";
        handler_func = λ param body. transfer h.transactions h.read_transfer body;
      }
      ∷ record {
        method = "GET";
        pattern = "/transactions/{chain}/{hash}";
        handler_func = λ param body. tx_status h.transactions (param "chain") (param "hash");
      }
      ∷ []
