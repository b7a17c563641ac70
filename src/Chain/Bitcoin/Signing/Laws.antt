-- ===== src/Chain/Bitcoin/Signing/Laws.antt =====
-- What Sign leaves of a transaction, and that it signs with the key of the account's address.
use Prim.Native.Nat.{suc, zero, ℕ, ◌+◌, ◌<◌, ◌≤◌}
use mathlib.Core.List.{List, [], ◌++◌, ◌∷◌}
use mathlib.Core.Logic.{inl, inr}
use mathlib.Core.Option.{Option, none, some}
use mathlib.Core.Path.{ap, subst, sym, ◌∙◌, ◌≡◌}
use native.Mathlib.Omega.{arith}
use omnicatena.Base.{Bool-cases, get_elem?, length, ltb, ltb→lt}
use omnicatena.Base.Bytes.{Bytes}
use omnicatena.Base.Result.{>>=-inv, Result, err, ok, sentinel, wrap-inv}
use omnicatena.Chain.Bitcoin.Client.{Btcd, UnsignedPayload}
use omnicatena.Chain.Bitcoin.Signing.{derive_account, script_at, sign, sign_inputs}
use omnicatena.Domain.{Account, SignedTx, UnsignedTx, chain_bitcoin}
use omnicatena.HdWallet.Curve.{Ed25519, IsPaired, Secp256k1}
use omnicatena.HdWallet.Derive.{Bip32, derive_key}
use omnicatena.Keystore.Signing.{mem_signer, public_key_for}
use omnicatena.Port.{Signer}

-- What btcd documents of a signature script: it is kept beside the inputs and the outputs, one for each
-- input, and the hash that is signed for all inputs and outputs leaves the scripts out.
pub record KeepsScripts {F Tx Hash Addr : Type 0} (b : Btcd F Tx Hash Addr) : Type 0 where
  pub tx_in-set : (t : Tx) (i : ℕ) (s : Bytes) → b.tx_in (b.set_signature_script t i s) ≡ b.tx_in t
  pub tx_out-set :
      (t : Tx) (i : ℕ) (s : Bytes) → b.tx_out (b.set_signature_script t i s) ≡ b.tx_out t
  pub script-set :
      (t : Tx) (i : ℕ) (s : Bytes)
      → i < length (b.tx_in t)
      → b.script_of (b.set_signature_script t i s) i ≡ s
  pub script-other :
      (t : Tx) (i k : ℕ) (s : Bytes)
      → k < i
      → b.script_of (b.set_signature_script t i s) k ≡ b.script_of t k
  pub hash-set :
      (t : Tx) (i k : ℕ) (s script : Bytes)
      → b.calc_signature_hash script (b.set_signature_script t i s) k
        ≡ b.calc_signature_hash script t k

module _ {F Tx Hash Addr : Type 0} (b : Btcd F Tx Hash Addr) where
  sign_inputs_keeps :
      KeepsScripts b
      → (signer : Signer) (acc : Account) (scripts : List Bytes) (key : Bytes) (left i : ℕ)
        (tx : Tx) {signed : Tx}
      → sign_inputs b signer acc scripts key left i tx ≡ ok signed
      → (b.tx_in signed ≡ b.tx_in tx) × (b.tx_out signed ≡ b.tx_out tx)
  unfolding sign_inputs
  sign_inputs_keeps keeps signer acc scripts key zero i tx {signed} h =
      let e : signed ≡ tx = ground arith in (ap b.tx_in e, ap b.tx_out e)
  sign_inputs_keeps keeps signer acc scripts key (suc left) i tx h =
      >>=-inv (script_at b scripts i) _ h λ script p0 h0.
        wrap-inv _ _ (b.calc_signature_hash script tx i) _ h0 λ digest p1 h1.
          wrap-inv _ _ (signer.sign acc digest) _ h1 λ sig p2 h2.
            wrap-inv _ _ (b.signature_script (sig ++ 1 ∷ []) key) _ h2 λ text p3 h3.
              let (ins, outs) =
                sign_inputs_keeps keeps signer acc scripts key left (i + 1)
                  (b.set_signature_script tx i text) h3 in
              (ins ∙ keeps.tx_in-set tx i text, outs ∙ keeps.tx_out-set tx i text)

  script_at-inv :
      (scripts : List Bytes) (i : ℕ) {script : Bytes}
      → script_at b scripts i ≡ ok script
      → get_elem? scripts i ≡ some script
  unfolding script_at
  script_at-inv scripts i {script} h = go (get_elem? scripts i) h
    where
      go :
          (o : Option Bytes)
          → ◌≡◌ {A = Result Bytes}
              (elim o [ none ↦ err (sentinel "index out of range") | some x ↦ ok x ])
              (ok script)
          → o ≡ some script
      go none e = absurd (cc)
      go (some x) e = cc

  -- The text that unlocks an input of the transaction `tx`: the account's signature of the hash that
  -- `tx` has for the input and the script that locks it, with the byte of SigHashAll, and the key.
  module _ (signer : Signer) (acc : Account) (scripts : List Bytes) (key : Bytes) where
    abbrev pub Unlocks : Tx → ℕ → Bytes → Type 0
    Unlocks tx i text =
        (script : Bytes) × (digest : Bytes) × (sig : Bytes) × (get_elem? scripts i ≡ some script)
        × (b.calc_signature_hash script tx i ≡ ok digest)
        × (signer.sign acc digest ≡ ok sig)
        × (b.signature_script (sig ++ 1 ∷ []) key ≡ ok text)

    sign_inputs-Unlocks :
        KeepsScripts b
        → (left i : ℕ) (tx : Tx) {signed : Tx}
        → sign_inputs b signer acc scripts key left i tx ≡ ok signed
        → i + left ≤ length (b.tx_in tx)
        → ((k : ℕ) → i ≤ k → k < i + left → Unlocks tx k (b.script_of signed k))
          × ((k : ℕ) → k < i → b.script_of signed k ≡ b.script_of tx k)
    unfolding sign_inputs
    sign_inputs-Unlocks keeps zero i tx {signed} h size =
        let e : tx ≡ signed = ground arith in
        (λ k low high. absurd (omega arith), λ k low. ap (λ x. b.script_of x k) (sym e))
    sign_inputs-Unlocks keeps (suc left) i tx {signed} h size =
        >>=-inv (script_at b scripts i) _ h λ script p0 h0.
          wrap-inv _ _ (b.calc_signature_hash script tx i) _ h0 λ digest p1 h1.
            wrap-inv _ _ (signer.sign acc digest) _ h1 λ sig p2 h2.
              wrap-inv _ _ (b.signature_script (sig ++ 1 ∷ []) key) _ h2 λ text p3 h3.
                let next = b.set_signature_script tx i text in
                let room : i + 1 + left ≤ length (b.tx_in next) =
                  subst (λ (l : List (Hash × ℕ)). i + 1 + left ≤ length l)
                    (sym (keeps.tx_in-set tx i text)) (omega arith) in
                let (later, before) = sign_inputs-Unlocks keeps left (i + 1) next h3 room in
                let own : b.script_of signed i ≡ text =
                  before i (omega arith) ∙ keeps.script-set tx i text (omega arith) in
                (
                  λ k low high. elim (Bool-cases (ltb i k)) [
                    | inl e ↦
                        let above : i < k = ltb→lt i k e in
                        let (script', digest', sig', q0, q1, q2, q3) =
                          later k (omega arith) (omega arith) in
                        (
                          script',
                          digest',
                          sig',
                          q0,
                          sym (keeps.hash-set tx i k text script') ∙ q1,
                          q2,
                          q3,
                        )
                    | inr e ↦
                        let same : i ≡ k = ground arith in
                        subst (λ n. Unlocks tx n (b.script_of signed n)) same
                          (
                            script,
                            digest,
                            sig,
                            script_at-inv scripts i p0,
                            p1,
                            p2,
                            p3 ∙ ap ok (sym own),
                          )
                  ],
                  λ k low. before k (omega arith) ∙ keeps.script-other tx i k text low,
                )

  -- A transaction that is signed spends the same outputs and pays the same as the one in the
  -- payload of the unsigned transaction. Each of its inputs has a script that is made of the account's
  -- public key and the account's signature, which is the signature of the hash of the unsigned
  -- transaction for this input and the script that the payload has for it. Its bytes and its hash are those
  -- of what was signed.
  pub sign-eq_ok :
      KeepsScripts b
      → (utx : UnsignedTx) (signer : Signer) (stx : SignedTx) → sign b utx signer ≡ ok stx
      → (p : UnsignedPayload) × (tx : Tx) × (signed : Tx) × (key : Bytes) × (b.unmarshal_payload
            utx.payload
          ≡ ok p)
        × (b.deserialize p.raw_tx ≡ ok tx)
        × (signer.public_key utx.signing_account ≡ ok key)
        × (b.tx_in signed ≡ b.tx_in tx)
        × (b.tx_out signed ≡ b.tx_out tx)
        × ((k : ℕ)
            → k < length (b.tx_in tx)
            → Unlocks signer utx.signing_account p.script_pub_keys key tx k (b.script_of signed k))
        × (b.serialize signed ≡ ok stx.raw)
        × (stx.hash ≡ b.hash_string (b.tx_hash signed))
  unfolding sign
  sign-eq_ok keeps utx signer stx h = wrap-inv _ _ (b.unmarshal_payload utx.payload) _ h λ p p0 h0.
      wrap-inv _ _ (b.deserialize p.raw_tx) _ h0 λ tx p1 h1.
        wrap-inv _ _ (signer.public_key utx.signing_account) _ h1 λ key p2 h2.
          >>=-inv
            (sign_inputs b signer utx.signing_account p.script_pub_keys key (length (b.tx_in tx)) 0
              tx)
            _ h2
            λ signed p3 h3. wrap-inv _ _ (b.serialize signed) _ h3 λ raw p4 h4.
              let (ins, outs) =
                sign_inputs_keeps keeps signer utx.signing_account p.script_pub_keys key
                  (length (b.tx_in tx)) 0 tx p3 in
              let (unlocked, _) =
                sign_inputs-Unlocks signer utx.signing_account p.script_pub_keys key keeps
                  (length (b.tx_in tx)) 0 tx p3 (omega arith) in
              let e : raw ≡ stx.raw = ground arith in
              (
                p,
                tx,
                signed,
                key,
                p0,
                p1,
                p2,
                ins,
                outs,
                λ k small. unlocked k (omega arith) (omega arith),
                p4 ∙ ap ok e,
                ground arith,
              )

  module _ {Key Priv EdKey : Type 0} (hmac : Bytes → Bytes → Bytes) (bip32 : Bip32 Key)
      (curve : Secp256k1 Key Priv) (ed : Ed25519 EdKey) where
    -- The key store's signer for a seed has, for a Bitcoin account that was derived from the same
    -- seed, the public key of the account's address, where the private key can be taken at all.
    pub public_key-derive_account :
        IsPaired curve
        → (seed path : Bytes) (acc : Account) (key : Key) (priv : Priv)
        → derive_account b bip32 curve seed path ≡ ok acc
        → derive_key bip32 seed path ≡ ok key
        → curve.ec_priv_key key ≡ ok priv
        → (pub_key : Bytes) × (addr : Addr) × ((mem_signer hmac bip32 curve ed seed).public_key acc
            ≡ ok pub_key)
          × (b.hash160_address pub_key ≡ ok addr)
          × (acc.address ≡ b.encode_address addr)
    unfolding derive_account public_key_for
    public_key-derive_account pairs seed path acc key priv h k q =
        >>=-inv (derive_key bip32 seed path) _ h λ key' p0 h0.
          wrap-inv _ _ (curve.ec_pub_key key') _ h0 λ pub_key p1 h1.
            wrap-inv _ _ (b.hash160_address pub_key) _ h1 λ addr p2 h2.
              let same : key' ≡ key = ground arith in
              let e : acc
                  ≡ record { chain = chain_bitcoin; address = b.encode_address addr; path = path } =
                ground arith in
              let pair : curve.compressed priv ≡ pub_key =
                pairs.paired key priv pub_key q (rw (← same) p1) in
              (pub_key, addr, rw (e, k, q) (ap ok pair), p2, ap (λ (a : Account). a.address) e)
