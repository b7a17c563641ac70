-- ===== src/Events/Kafka/Retries.antt =====
-- How often `Publish` of internal/adapter/events/kafka/publisher.go writes.
use Prim.Native.Nat.{suc, zero, ℕ, ◌≤◌}
use mathlib.Core.Bool.{Bool, false, true}
use mathlib.Core.List.{List, [], ◌∷◌}
use mathlib.Core.Path.{ap, refl, ◌∙◌, ◌≡◌}
use native.Mathlib.Omega.{arith}
use omnicatena.Base.Bytes.{Bytes}
use omnicatena.Base.Exec.{Exec, fail, pure, ◌>>◌}
use omnicatena.Base.Result.{Error, Result, err, is_error, ok, sentinel, str, wrap, wrapf}
use omnicatena.Domain.{TxEvent}
use omnicatena.Events.Kafka.{Broker, Message, encode, publish, unknown_topic, write_retrying}

-- The broker's answers to come; each write takes one, and no wait is cut off.
abbrev pub Answers : Type 0
Answers = List (Result (Unit {0}))

pub next_answer : Exec Answers (Unit {0})
next_answer [] = (ok tt, [])
next_answer (r ∷ rest) = (r, rest)

abbrev pub scripted : Broker Answers
scripted = record { write_messages = λ msg. next_answer; close = pure tt; wait = pure tt }

-- `k` answers in a row of a topic that is not there.
abbrev pub missing : ℕ → Answers → Answers
missing zero rest = rest
missing (suc k) rest = err (sentinel unknown_topic) ∷ missing k rest

-- Whether the loop ends at this answer.
abbrev pub IsFinal : Result (Unit {0}) → Type 0
IsFinal (ok u) = Unit
IsFinal (err e) = is_error e unknown_topic ≡ false

write_missing :
    (msg : Message) (n : ℕ) (rest : Answers)
    → write_retrying scripted msg (suc n) (err (sentinel unknown_topic) ∷ rest)
      ≡ write_retrying scripted msg n rest
unfolding write_retrying next_answer is_error
write_missing msg n rest = refl

write_refused :
    (msg : Message) (n : ℕ) (e : Error) (rest : Answers)
    → is_error e unknown_topic ≡ false
    → write_retrying scripted msg n (err e ∷ rest) ≡ (err e, rest)
unfolding write_retrying next_answer
write_refused msg zero e rest h = refl
write_refused msg (suc n) e rest h =
    ap
      (λ (x : Bool).
        (elim x as (λ _. Exec Answers (Unit {0})) [
          | true ↦ scripted.wait >> write_retrying scripted msg n
          | false ↦ fail e
        ])
          rest)
      h

write_accepted :
    (msg : Message) (n : ℕ) (rest : Answers)
    → write_retrying scripted msg n (ok tt ∷ rest) ≡ (ok tt, rest)
unfolding write_retrying next_answer
write_accepted msg zero rest = refl
write_accepted msg (suc n) rest = refl

write_retrying-final :
    (msg : Message) (k n : ℕ) (r : Result (Unit {0})) (rest : Answers)
    → k ≤ n
    → IsFinal r
    → write_retrying scripted msg n (missing k (r ∷ rest)) ≡ (r, rest)
write_retrying-final msg zero n (ok u) rest h f = write_accepted msg n rest
write_retrying-final msg zero n (err e) rest h f = write_refused msg n e rest f
write_retrying-final msg (suc k) zero r rest h f = absurd (omega (arith, h))
write_retrying-final msg (suc k) (suc n) r rest h f =
    write_missing msg n (missing k (r ∷ rest))
    ∙ write_retrying-final msg k n r rest (omega (arith, h)) f

write_retrying-missing :
    (msg : Message) (n : ℕ) (rest : Answers)
    → write_retrying scripted msg n (missing (suc n) rest) ≡ (err (sentinel unknown_topic), rest)
write_retrying-missing msg zero rest = unfold write_retrying next_answer in refl
write_retrying-missing msg (suc n) rest =
    write_missing msg n (missing (suc n) rest) ∙ write_retrying-missing msg n rest

encode-eq_ok :
    (marshal : TxEvent → Result Bytes) (evt : TxEvent) (text : Bytes)
    → marshal evt ≡ ok text
    → encode marshal evt ≡ ok (record { key = evt.hash; value = text })
unfolding encode
encode-eq_ok marshal evt text h = rw (encode, h) refl

-- A publication of an event that can be encoded writes until the first answer that is not a missing
-- topic, which is its result, where at most four such answers came before; after five it gives up.
-- No answer is taken beyond the one that ends it.
pub publish-eq :
    (marshal : TxEvent → Result Bytes) (evt : TxEvent) (text : Bytes) (rest : Answers)
    → marshal evt ≡ ok text
    → ((k : ℕ) (r : Result (Unit {0}))
        → k ≤ 4
        → IsFinal r
        → publish scripted marshal evt (missing k (r ∷ rest))
          ≡ (wrap "kafka: publish %s: %w" (str evt.hash ∷ []) r, rest))
      × (publish scripted marshal evt (missing 5 rest) ≡ (
        err (wrapf "kafka: publish %s: %w" (str evt.hash ∷ []) (sentinel unknown_topic)),
        rest,
      ))
unfolding publish
publish-eq marshal evt text rest h =
    let msg : Message = record { key = evt.hash; value = text } in
    (
      λ k r small final. rw (encode-eq_ok marshal evt text h) (
          ap
            (λ (x : Result (Unit {0}) × Answers).
              (wrap "kafka: publish %s: %w" (str evt.hash ∷ []) x.0, x.1))
            (write_retrying-final msg k 4 r rest small final)),
      rw (encode-eq_ok marshal evt text h) (
          ap
            (λ (x : Result (Unit {0}) × Answers).
              (wrap "kafka: publish %s: %w" (str evt.hash ∷ []) x.0, x.1))
            (write_retrying-missing msg 4 rest)),
    )
