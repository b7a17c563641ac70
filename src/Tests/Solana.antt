-- ===== src/Tests/Solana.antt =====
-- The adapter of Solana at concrete values: a key is its text, a transaction its instructions.
use Prim.Native.Nat.{ℕ}
use Prim.Native.String.{String}
use mathlib.Core.List.{List, [], ◌∷◌}
use mathlib.Core.Option.{some}
use mathlib.Core.Path.{refl, ◌≡◌}
use omnicatena.Base.Bytes.{Bytes, codes}
use omnicatena.Base.Int.{negsuc, pos}
use omnicatena.Base.Result.{err, ok, sentinel}
use omnicatena.Chain.Solana
use omnicatena.Chain.Solana.{SolanaGo, SolanaRpc, native_sol}
use omnicatena.Chain.Solana.Laws.{IsPayment, build_transfer_pays}
use omnicatena.Domain.{TransferRequest, UnsignedTx, no_account}
use omnicatena.HdWallet.Curve.{Ed25519}
use omnicatena.Repository.Memory.{Wallets}

abbrev pub toy_go : SolanaGo String ℕ (ℕ × String × String) (List (ℕ × String × String))
toy_go = record {
  key_text = λ key. "key";
  public_key_from_base58 = ok;
  transfer_instruction = λ lamports source dest. (lamports, source, dest);
  new_transaction = λ instructions blockhash payer. ok instructions;
  marshal_binary = λ tx. ok (elim tx [ [] ↦ [] | i ∷ _ ↦ i.0 ∷ [] ]);
  transaction_from_decoder = λ raw. ok [];
  marshal_message = λ tx. ok [];
  with_signatures = λ tx sigs. tx;
  signature_text = λ sig. "sig";
  signature_from_base58 = λ text. ok [];
}

abbrev pub toy_rpc : SolanaRpc Wallets String ℕ (List (ℕ × String × String))
toy_rpc = record {
  get_balance = λ key s. (ok 9, s);
  get_latest_blockhash = λ s. (ok 77, s);
  send_transaction = λ tx s. (ok [], s);
  get_transaction = λ sig s. (err (sentinel "ErrNotFound"), s);
}

abbrev pub toy_hmac : Bytes → Bytes → Bytes
toy_hmac key message = message

abbrev pub toy_ed : Ed25519 ℕ
toy_ed = record {
  new_key_from_seed = λ seed. 1;
  sign = λ key message. message;
  public = λ key. key ∷ [];
}

abbrev lamports_request : TransferRequest
lamports_request = record {
  network = record { chain = "solana"; env = "local" };
  source = "alice";
  dest = "bob";
  amount = record { asset = native_sol; base = some (negsuc 4) };
  speed = "standard";
}

-- A negative amount is paid as a positive one.
abbrev five_lamports : UnsignedTx
five_lamports = record {
  chain = "solana";
  signing_account = no_account;
  request = lamports_request;
  fee = record {
    speed = "standard";
    total = record { asset = native_sol; base = some (pos 5000) };
    params = ("lamports", codes "5000") ∷ [];
  };
  payload = 5 ∷ [];
}

build_five : Solana.build_transfer toy_go toy_rpc lamports_request [] ≡ (ok five_lamports, [])
unfolding Solana.build_transfer Solana.estimate_fee
build_five = refl

build_transfer_pays_example : IsPayment toy_go toy_rpc lamports_request five_lamports [] []
build_transfer_pays_example =
    build_transfer_pays toy_go toy_rpc lamports_request five_lamports [] [] build_five
