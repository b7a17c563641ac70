-- ===== src/Chain/Tron/Requests.antt =====
-- The requests that the adapter of internal/adapter/chain/tron/adapter.go makes of the node.
use Prim.Native.Nat.{ℕ}
use Prim.Native.String.{String}
use mathlib.Core.List.{[], ◌++◌, ◌∷◌}
use mathlib.Core.Logic.{inl, inr}
use mathlib.Core.Path.{ap, refl, sym, ◌∙◌, ◌≡◌}
use native.Mathlib.Omega.{arith}
use omnicatena.Base.{Bool-cases, eqb, if◌then◌else◌, string_eq}
use omnicatena.Base.Bytes.{Bytes, hex_encode}
use omnicatena.Base.Exec.{bind-inv, lift, lift-inv}
use omnicatena.Base.Int.{pos}
use omnicatena.Base.Map.{Map}
use omnicatena.Base.Result.{Result, err, errorf, int, ok, str, wrapf}
use omnicatena.Chain.Tron.{Base58, Field, HttpResponse, Json, Node, post, post_raw, to_hex_addr}
use omnicatena.Domain.{Address}

-- The hexadecimal digits of an address: of its version, and then of the other bytes.
abbrev pub IsHexOf : Base58 → Address → Bytes → Type 0
IsHexOf b addr hex =
    (raw : Bytes) × (ver : ℕ) × (b.check_decode addr ≡ ok (raw, ver))
    × (hex ≡ hex_encode (ver ∷ []) ++ hex_encode raw)

pub to_hex_addr-IsHexOf :
    (b : Base58) (addr : Address) (hex : Bytes) → to_hex_addr b addr ≡ ok hex → IsHexOf b addr hex
unfolding to_hex_addr
to_hex_addr-IsHexOf b addr hex h = go (b.check_decode addr) refl h
  where
    go :
        (r : Result (Bytes × ℕ))
        → b.check_decode addr ≡ r
        → ◌≡◌ {A = Result Bytes}
            (elim r [
              | err e ↦ err (wrapf "tron: bad address %s: %w" (str addr ∷ []) e)
              | ok (raw, ver) ↦ ok (hex_encode (ver ∷ []) ++ hex_encode raw)
            ])
            (ok hex)
        → IsHexOf b addr hex
    go (err e) _ k = absurd (cc)
    go (ok (raw, ver)) e k = (raw, ver, e, sym (ap (λ x. elim x [ ok y ↦ y | err _ ↦ hex ]) k))

-- A request to the node: the body that was written, and its answer, of status 200, as it was read.
abbrev pub Posts :
    {S A : Type 0}
    → Json
    → Node S
    → String
    → Map String Field
    → (Bytes → Result A)
    → A
    → S
    → S
    → Type 0
Posts j node path fields read answer s t =
    (body : Bytes) × (response : HttpResponse) × (j.marshal fields ≡ ok body)
    × (node.send node.rpc_url path body s ≡ (ok response, t))
    × (response.status_code ≡ 200)
    × (read response.body ≡ ok answer)

module _ {S : Type 0} (b : Base58) (j : Json) (node : Node S) where
  pub post-Posts :
      {A : Type 0} (path : String) (fields : Map String Field) (read : Bytes → Result A)
      (answer : A) (s t : S)
      → post b j node path fields read s ≡ (ok answer, t)
      → Posts j node path fields read answer s t
  unfolding post post_raw
  post-Posts path fields read answer s t h = lift-inv (j.marshal fields) _ h λ body e1 h1.
      bind-inv (node.send node.rpc_url path body) _ h1 λ response u e2 h2.
        let (good, whole) = checked_inv response u h2 in
        (body, response, e1, e2 ∙ ap (λ x. (ok response, x.1)) h2, good, whole)
    where
      checked_inv :
          (response : HttpResponse) (u : S)
          → lift
              (if eqb response.status_code 200
                then read response.body
                else err (errorf "http %d" (int (pos response.status_code) ∷ [])))
              u
            ≡ (ok answer, t)
          → (response.status_code ≡ 200) × (read response.body ≡ ok answer)
      checked_inv response u k = elim (Bool-cases (eqb response.status_code 200)) [
        | inl e ↦ (ground arith, ap (λ x. x.0) (rw e at k))
        | inr e ↦ absurd (let bad = rw e at k in cc)
      ]
