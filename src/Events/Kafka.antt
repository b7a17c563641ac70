-- ===== src/Events/Kafka.antt =====
-- internal/adapter/events/kafka/publisher.go.
pub mod Retries
use Prim.Native.Nat.{suc, zero, ℕ, ◌-◌}
use Prim.Native.String.{String}
use mathlib.Core.Bool.{Bool, false, true}
use mathlib.Core.List.{List, [], ◌∷◌}
use omnicatena.Base.Bytes.{Bytes}
use omnicatena.Base.Exec.{Exec, attempt, fail, lift, pure, wrapped, ◌>>=◌, ◌>>◌}
use omnicatena.Base.Result.{Result, err, is_error, ok, str, wrap}
use omnicatena.Domain.{TxEvent}
use omnicatena.Port.{TxEventPublisher}

pub record Message : Type 0 where
  pub key : String
  pub value : Bytes

-- What a kafkago.Writer is given. Its balancer is always LeastBytes, and is left out.
pub record WriterConfig : Type 0 where
  pub addr : List Bytes
  pub topic : Bytes
  pub allow_auto_topic_creation : Bool

-- kafka-go's Writer, and the wait for autoCreateRetryDelay, which fails with the context's error.
pub record Broker (S : Type 0) : Type 0 where
  pub write_messages : Message → Exec S (Unit {0})
  pub close : Exec S (Unit {0})
  pub wait : Exec S (Unit {0})

abbrev pub unknown_topic : String
unknown_topic = "UnknownTopicOrPartition"

abbrev pub auto_create_retries : ℕ
auto_create_retries = 5

-- `marshal` is json.Marshal
unfoldable pub encode : (TxEvent → Result Bytes) → TxEvent → Result Message
encode marshal evt = elim (wrap "kafka: marshal event %s: %w" (str evt.hash ∷ []) (marshal evt)) [
  | err e ↦ err e
  | ok value ↦ ok (record { key = evt.hash; value = value })
]

module _ {S : Type 0} (broker : Broker S) where
  -- The loop, in which `left` attempts may follow: attempt = 5 - left.
  write_retrying : Message → ℕ → Exec S (Unit {0})
  write_retrying msg zero = broker.write_messages msg
  write_retrying msg (suc left) = attempt (broker.write_messages msg) >>= λ r. elim r [
    | ok u ↦ pure tt
    | err e ↦ elim (is_error e unknown_topic) [
      | true ↦ broker.wait >> write_retrying msg left
      | false ↦ fail e
    ]
  ]

  unfoldable pub publish : (TxEvent → Result Bytes) → TxEvent → Exec S (Unit {0})
  unfolding write_retrying
  publish marshal evt = lift (encode marshal evt) >>= λ msg.
      wrapped "kafka: publish %s: %w" (str evt.hash ∷ [])
        (write_retrying msg (auto_create_retries - 1))

pub record Publisher (S : Type 0) : Type 0 where
  pub writer : Broker S

module _ {S : Type 0} where
  -- `make` is a kafkago.Writer of what it is given.
  unfoldable pub new : (WriterConfig → Broker S) → List Bytes → Bytes → Publisher S
  new make brokers topic = record {
    writer = make (record { addr = brokers; topic = topic; allow_auto_topic_creation = true });
  }

  abbrev pub close : Publisher S → Exec S (Unit {0})
  close p = p.writer.close

  -- The publisher as the port's record.
  abbrev pub kafka_publisher : (TxEvent → Result Bytes) → Publisher S → TxEventPublisher S
  kafka_publisher marshal p = record { publish = publish p.writer marshal }
