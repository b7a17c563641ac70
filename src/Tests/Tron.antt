-- ===== src/Tests/Tron.antt =====
-- The adapter of TRON at concrete values.
use Prim.Native.Char.{code}
use Prim.Native.Nat.{suc, zero, ℕ, ◌+◌}
use Prim.Native.String.{String}
use mathlib.Core.Bool.{Bool, false, true, ◌&&◌}
use mathlib.Core.List.{[], ◌++◌, ◌∷◌}
use mathlib.Core.Logic.{◌≢◌}
use mathlib.Core.Option.{some}
use mathlib.Core.Path.{ap, ap₂, refl, sym, ◌∙◌, ◌≡◌}
use native.Mathlib.Omega.{arith}
use omnicatena.Base.{drop, eqb, if◌then◌else◌, length, string_eq, take, ◌==◌}
use omnicatena.Base.Bytes.{Bytes, codes, hex_decode, hex_encode}
use omnicatena.Base.Int.{pos, wrap64, ℤ}
use omnicatena.Base.Map.{Map, insert, lookup}
use omnicatena.Base.Result.{Result, err, ok, sentinel}
use omnicatena.Chain.Tron
use omnicatena.Chain.Tron.{Base58, Json, Node}
use omnicatena.Chain.Tron.Laws.{IsJson, build_transfer_asks, sign_keeps_fields}
use omnicatena.Chain.Tron.Requests.{IsHexOf, Posts}
use omnicatena.Chain.Tron.Signing
use omnicatena.Domain.{SignedTx, TransferRequest, UnsignedTx, no_account}
use omnicatena.Port.{Signer}

-- A text for a list of numbers: each is written as so many letters a, and a letter b.
unary : ℕ → String → String
unary zero s = String.◌∷◌ "b" s
unary (suc n) s = String.◌∷◌ "a" (unary n s)

to_text : Bytes → String
unfolding unary
to_text [] = String.[]
to_text (b ∷ s) = unary b (to_text s)

from_text : ℕ → String → Bytes
from_text n String.[] = []
from_text n (String.◌∷◌ c s) =
    let more = from_text (suc n) s in
    let next = from_text 0 s in if eqb (code c) 97 then more else n ∷ next

from_text-unary : (n m : ℕ) (s : String) → from_text n (unary m s) ≡ (n + m) ∷ from_text 0 s
unfolding from_text unary
from_text-unary n zero s = ap (λ (k : ℕ). k ∷ from_text 0 s) (omega arith)
from_text-unary n (suc m) s =
    from_text-unary (suc n) m s ∙ ap (λ (k : ℕ). k ∷ from_text 0 s) (omega arith)

from_text-to_text : (s : Bytes) → from_text 0 (to_text s) ≡ s
unfolding from_text to_text
from_text-to_text [] = refl
from_text-to_text (b ∷ s) =
    from_text-unary 0 b (to_text s)
    ∙ ap (λ (k : ℕ). k ∷ from_text 0 (to_text s)) (omega arith)
    ∙ ap (λ (r : Bytes). b ∷ r) (from_text-to_text s)

abbrev version_first : Bytes → Result (Bytes × ℕ)
version_first [] = err (sentinel "short")
version_first (ver ∷ raw) = ok (raw, ver)

abbrev toy_base58 : Base58
toy_base58 = record {
  check_encode = λ raw ver. to_text (ver ∷ raw);
  check_decode = λ addr. version_first (from_text 0 addr);
}

-- A key's Ethereum address is its bytes.
-- An object of a txID and a signature is written as the length of the first and both.
write_both : Map String Bytes → Result Bytes
write_both ((n1, v1) ∷ (n2, v2) ∷ []) =
    if (n1 == "txID") && (n2 == "signature")
    then ok (length v1 ∷ (v1 ++ v2))
    else err (sentinel "unsupported")
write_both _ = err (sentinel "unsupported")

read_both : Bytes → Result (Map String Bytes)
read_both [] = err (sentinel "EOF")
read_both (n ∷ s) = ok (("txID", take n s) ∷ ("signature", drop n s) ∷ [])

take-append : (xs ys : Bytes) → take (length xs) (xs ++ ys) ≡ xs
take-append [] ys = refl
take-append (x ∷ xs) ys = ap (λ (r : Bytes). x ∷ r) (take-append xs ys)

drop-append : (xs ys : Bytes) → drop (length xs) (xs ++ ys) ≡ ys
drop-append [] ys = refl
drop-append (x ∷ xs) ys = drop-append xs ys

abbrev toy_json : Json
toy_json = record {
  marshal = λ body. ok [];
  read_balance = λ raw. ok (pos 0);
  read_raw = ok;
  read_error = λ raw. ok "";
  read_fields = read_both;
  read_text = λ raw. elim raw [ [] ↦ err (sentinel "EOF") | c ∷ rest ↦ ok (c ∷ rest) ];
  read_broadcast = λ raw. ok (record { result = true; code = ""; message = "" });
  read_info = λ raw. ok Tron.no_info;
  write_texts = λ texts. elim texts [ [] ↦ [] | t ∷ _ ↦ t ];
  write_fields = write_both;
}

read_both-write_both :
    (fields : Map String Bytes) (raw : Bytes)
    → write_both fields ≡ ok raw
    → (read : Map String Bytes) × (read_both raw ≡ ok read)
      × ((name : String) → lookup name read ≡ lookup name fields)
unfolding write_both read_both
read_both-write_both [] raw h = absurd (cc)
read_both-write_both ((n1, v1) ∷ []) raw h = absurd (cc)
read_both-write_both ((n1, v1) ∷ (n2, v2) ∷ (e ∷ rest)) raw h = absurd (cc)
read_both-write_both ((n1, v1) ∷ (n2, v2) ∷ []) raw h =
    go (n1 == "txID") (n2 == "signature") refl refl h
  where
    go :
        (b1 b2 : Bool)
        → (n1 == "txID") ≡ b1
        → (n2 == "signature") ≡ b2
        → ◌≡◌ {A = Result Bytes}
            (if b1 && b2 then ok (length v1 ∷ (v1 ++ v2)) else err (sentinel "unsupported"))
            (ok raw)
        → (read : Map String Bytes) × (read_both raw ≡ ok read)
          × ((name : String) → lookup name read ≡ lookup name ((n1, v1) ∷ (n2, v2) ∷ []))
    go false b2 e1 e2 k = absurd (cc)
    go true false e1 e2 k = absurd (cc)
    go true true e1 e2 k =
        let first : n1 ≡ "txID" = (string_eq.beq_iff n1 "txID").0 e1 in
        let second : n2 ≡ "signature" = (string_eq.beq_iff n2 "signature").0 e2 in
        let whole : length v1 ∷ (v1 ++ v2) ≡ raw = ap (λ x. elim x [ ok y ↦ y | err _ ↦ raw ]) k in
        (
          ("txID", v1) ∷ ("signature", v2) ∷ [],
          ap read_both (sym whole)
              ∙ ap₂ (λ a b. ok (("txID", a) ∷ ("signature", b) ∷ [])) (take-append v1 v2)
                  (drop-append v1 v2),
          λ name. ap₂ (λ a b. lookup name ((a, v1) ∷ (b, v2) ∷ [])) (sym first) (sym second),
        )

toy_json-IsJson : IsJson toy_json
toy_json-IsJson = record {
  read_text-nil = (sentinel "EOF", refl);
  read-write = read_both-write_both;
}

abbrev toy_node : Node ℕ
toy_node = record {
  rpc_url = "http://localhost:9090";
  send = λ url path body s. (ok (record { status_code = 200; body = 2 ∷ codes "07" }), s + 1);
}

abbrev sun_request : TransferRequest
sun_request = record {
  network = record { chain = "tron"; env = "local" };
  source = to_text (65 ∷ 7 ∷ []);
  dest = to_text (65 ∷ 9 ∷ []);
  amount = record { asset = Tron.native_trx; base = some (pos 12) };
  speed = "standard";
}

abbrev asked : UnsignedTx
asked = record {
  chain = "tron";
  signing_account = no_account;
  request = sun_request;
  fee = Tron.estimate_fee sun_request;
  payload = 2 ∷ codes "07";
}

build_asked : Tron.build_transfer toy_base58 toy_json toy_node sun_request 0 ≡ (ok asked, 1)
unfolding Tron.build_transfer Tron.post Tron.post_raw Tron.to_hex_addr to_text from_text
build_asked = refl

build_transfer_asks_example :
    (from_hex : Bytes) × (to_hex : Bytes) × (amount : ℤ) × IsHexOf toy_base58 sun_request.source
      from_hex
    × IsHexOf toy_base58 sun_request.dest to_hex
    × (sun_request.amount.base ≡ some amount)
    × Posts toy_json toy_node "/wallet/createtransaction"
        (("owner_address", Tron.hex_field from_hex)
          ∷ ("to_address", Tron.hex_field to_hex)
          ∷ ("amount", Tron.number_field (wrap64 amount))
          ∷ ("visible", Tron.flag_field false)
          ∷ [])
        toy_json.read_raw
        asked.payload
        0
        1
    × ((message : String) → toy_json.read_error asked.payload ≡ ok message → message ≡ "")
    × (asked.fee.total.base ≡ some (pos 268000))
    × (asked.request ≡ sun_request)
build_transfer_asks_example =
    build_transfer_asks toy_base58 toy_json toy_node sun_request asked 0 1 build_asked

abbrev echo_signer : Signer
echo_signer = record { sign = λ acc digest. ok digest; public_key = λ acc. ok [] }

abbrev signed_7 : SignedTx
signed_7 = record { chain = "tron"; raw = 2 ∷ codes "0707"; hash = "07" }

sign_asked : Signing.sign toy_json (λ raw. "07") asked echo_signer ≡ ok signed_7
unfolding Signing.sign insert lookup hex_encode hex_decode read_both write_both
sign_asked = refl

sign_keeps_fields_example :
    (fields : Map String Bytes) × (sent : Map String Bytes) × (id_field : Bytes) × (tx_id : Bytes)
    × (digest : Bytes) × (sig : Bytes) × (toy_json.read_fields asked.payload ≡ ok fields)
    × (lookup "txID" fields ≡ some id_field)
    × (toy_json.read_text id_field ≡ ok tx_id)
    × (toy_json.read_fields signed_7.raw ≡ ok sent)
    × (hex_decode tx_id ≡ some digest)
    × (echo_signer.sign asked.signing_account digest ≡ ok sig)
    × (signed_7.hash ≡ "07")
    × (lookup "signature" sent ≡ some (toy_json.write_texts (hex_encode sig ∷ [])))
    × ((name : String) → "signature" ≢ name → lookup name sent ≡ lookup name fields)
sign_keeps_fields_example =
    sign_keeps_fields toy_json (λ raw. "07") toy_json-IsJson asked echo_signer signed_7 sign_asked
