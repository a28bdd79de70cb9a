-- ===== src/Streaming/Producer.antt =====
-- `ThreatIntelProducer` of src/streaming/producer.py. The client of confluent_kafka is an
-- interface; keys and values are the texts that are encoded. Log entries and metrics are left out.
use cryptosentinel_ai.Prelude.{
  ℕ, suc, ◌≡◌, String, Option, none, some, List, [], ◌∷◌, ◌++◌, length, ltb, if◌then◌else◌,
}
use cryptosentinel_ai.Dict.{Dict, lookup}
use Prim.Native.String

pub record Message : Type 0 where
  pub topic : String
  pub key : String
  pub value : String

-- How a call of the client ends: a `KafkaException` is told from any other exception.
pub data Outcome : Type 0 where
  done kafka_exception other_exception : Outcome

-- The client: `produce` hands a message over, `poll(0)` serves callbacks. A message that
-- `produce` accepts is in the log of messages handed over, and `poll` hands nothing over.
pub record KafkaClient : Type 1 where
  pub K : Type 0
  pub produce : Message → K → Outcome × K
  pub poll : K → Outcome × K
  pub handed_over : K → List Message
  pub produce_done :
      (m : Message) (k : K)
      → (produce m k).0 ≡ done
      → handed_over (produce m k).1 ≡ handed_over k ++ m ∷ []
  pub produce_kafka_exception :
      (m : Message) (k : K)
      → (produce m k).0 ≡ kafka_exception
      → handed_over (produce m k).1 ≡ handed_over k
  pub produce_other_exception :
      (m : Message) (k : K)
      → (produce m k).0 ≡ other_exception
      → handed_over (produce m k).1 ≡ handed_over k
  pub poll_keeps : (k : K) → handed_over (poll k).1 ≡ handed_over k

-- CHAIN_TOPIC_MAP
abbrev pub chain_topic_map : Dict String
chain_topic_map =
    ("ethereum-sepolia", "raw.transactions.ethereum")
    ∷ ("ethereum-mainnet", "raw.transactions.ethereum")
    ∷ ("polygon-mumbai", "raw.transactions.polygon")
    ∷ ("polygon-mainnet", "raw.transactions.polygon")
    ∷ []

-- `_BUFFER_MAXLEN`
abbrev pub buffer_maxlen : ℕ
buffer_maxlen = 10_000

-- `CHAIN_TOPIC_MAP.get(chain_name, "raw.transactions.ethereum")`
unfoldable pub topic_of : String → String
topic_of chain_name = elim (lookup chain_name chain_topic_map) [
  | none ↦ "raw.transactions.ethereum"
  | some topic ↦ topic
]

abbrev pub rest_of : List Message → List Message
rest_of [] = []
rest_of (m ∷ ms) = ms

-- `append` on a `deque(maxlen=n)` drops the oldest entry when it is full.
unfoldable pub append_bounded : ℕ → Message → List Message → List Message
append_bounded n m buffer =
    let longer = buffer ++ m ∷ [] in if ltb n (length longer) then rest_of longer else longer

module _ (kc : KafkaClient) where
  open kc use {K, produce, poll}

  pub record ThreatIntelProducer : Type 0 where
    pub producer : K
    pub buffer : List Message

  -- `produce` and then `poll(0)`.
  unfoldable pub send : Message → K → Outcome × K
  send m k = elim (produce m k).0 [
    | done ↦ poll (produce m k).1
    | kafka_exception ↦ produce m k
    | other_exception ↦ produce m k
  ]

  -- The loop of `_drain_buffer`: what stays buffered, the client, and the count.
  unfoldable pub drain : List Message → K → List Message × K × ℕ
  drain [] k = ([], k, 0)
  drain (m ∷ buffer) k =
      let (left, k', n) = drain buffer (send m k).1 in
      elim (send m k).0 [
        | done ↦ (left, k', suc n)
        | kafka_exception ↦ (m ∷ buffer, (send m k).1, 0)
        | other_exception ↦ (m ∷ buffer, (send m k).1, 0)
      ]

  -- `_drain_buffer`: the number of messages, and the new state.
  unfoldable pub drain_buffer : ThreatIntelProducer → ℕ × ThreatIntelProducer
  drain_buffer p =
      let (left, k, n) = drain p.buffer p.producer in (n, record { producer = k; buffer = left })

  -- The `try` of `produce_transaction`, which buffers the message on any exception.
  unfoldable pub produce_or_buffer : Message → ThreatIntelProducer → ThreatIntelProducer
  produce_or_buffer m p =
      let q = (drain_buffer p).1 in
      let (outcome, k) = send m q.producer in
      elim outcome [
        | done ↦ record q { producer = k }
        | kafka_exception ↦ record {
          producer = k;
          buffer = append_bounded buffer_maxlen m q.buffer;
        }
        | other_exception ↦ record {
          producer = k;
          buffer = append_bounded buffer_maxlen m q.buffer;
        }
      ]

  -- `produce_transaction`; the payload is the text that `json.dumps` makes of it.
  unfoldable pub produce_transaction :
      String → String → String → ThreatIntelProducer → ThreatIntelProducer
  produce_transaction chain_name from_addr payload p =
      produce_or_buffer (record { topic = topic_of chain_name; key = from_addr; value = payload }) p

  -- `alert.get("address", "unknown")`
  abbrev key_of : Option String → String
  key_of none = "unknown"
  key_of (some address) = address

  -- `f"alerts.{severity}"`
  abbrev alert_topic : String → String
  alert_topic severity = String.◌++◌ "alerts." severity

  -- What is left of an outcome after `except KafkaException`.
  abbrev pub unlogged : Outcome → Outcome
  unlogged done = done
  unlogged kafka_exception = done
  unlogged other_exception = other_exception

  -- `produce_alert`: a `KafkaException` is logged, any other exception is the caller's.
  unfoldable pub produce_alert :
      Option String → String → String → ThreatIntelProducer → Outcome × ThreatIntelProducer
  produce_alert address alert severity p =
      let (outcome, k) =
        send (record { topic = alert_topic severity; key = key_of address; value = alert })
          p.producer in
      (unlogged outcome, record p { producer = k })
