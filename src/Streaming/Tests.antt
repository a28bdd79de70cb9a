-- ===== src/Streaming/Tests.antt =====
-- Runs of the producer and the consumer of src/streaming, and their theorems there.
use cryptosentinel_ai.Prelude.{
  ℕ, ◌+◌, ◌≤◌, ◌<◌, ◌≡◌, ◌≢◌, refl, ◌⊎◌, String, Bool, true, false, List, [], ◌∷◌, ◌++◌, length, In,
  arith, eqb, if◌then◌else◌,
}
use cryptosentinel_ai.Streaming.Producer.{
  Message, Outcome, done, kafka_exception, other_exception, KafkaClient, ThreatIntelProducer,
  buffer_maxlen, send, drain, drain_buffer, produce_or_buffer,
}
use cryptosentinel_ai.Streaming.Buffer.{nothing_lost, buffer_drained}
use cryptosentinel_ai.Streaming.Consumer.{
  Polled, message, Decoded, payload, Ended, returned, raised_other, ConsumerClient, Consumer,
  consume,
}
use cryptosentinel_ai.Streaming.Commits.{Committed, commits_only_done}
use cryptosentinel_ai.Streaming.Skipped.{failed_message_skipped}

-- A client that is up or down, with what it was handed.
abbrev hand : Message → Bool × List Message → Outcome × (Bool × List Message)
hand m (true, log) = (done, (true, log ++ m ∷ []))
hand m (false, log) = (kafka_exception, (false, log))

hand_done :
    (m : Message) (k : Bool × List Message) → (hand m k).0 ≡ done → (hand m k).1.1 ≡ k.1 ++ m ∷ []
hand_done m (true, log) e = refl
hand_done m (false, log) e = cc

hand_kafka :
    (m : Message) (k : Bool × List Message) → (hand m k).0 ≡ kafka_exception → (hand m k).1.1 ≡ k.1
hand_kafka m (true, log) e = cc
hand_kafka m (false, log) e = refl

hand_other :
    (m : Message) (k : Bool × List Message) → (hand m k).0 ≡ other_exception → (hand m k).1.1 ≡ k.1
hand_other m (true, log) e = cc
hand_other m (false, log) e = cc

abbrev switch : KafkaClient
switch = record {
  K = Bool × List Message;
  produce = hand;
  poll = λ k. (done, k);
  handed_over = λ k. k.1;
  produce_done = hand_done;
  produce_kafka_exception = hand_kafka;
  produce_other_exception = hand_other;
  poll_keeps = λ k. refl;
}

abbrev first : Message
first = record { topic = "raw.transactions.ethereum"; key = "a"; value = "1" }

abbrev second : Message
second = record { topic = "raw.transactions.ethereum"; key = "a"; value = "2" }

-- Up again, with one message in the buffer.
abbrev recovered : ThreatIntelProducer switch
recovered = record { producer = (true, []); buffer = first ∷ [] }

in_order : (produce_or_buffer switch second recovered).producer.1 ≡ first ∷ second ∷ []
unfolding produce_or_buffer drain_buffer drain send
in_order = refl

nothing_lost_example :
    let p' = produce_or_buffer switch second recovered in
    (length p'.buffer ≤ buffer_maxlen)
    × ((x : Message) → In x [] → In x p'.producer.1)
    × ((x : Message) → In x (second ∷ first ∷ []) → In x p'.producer.1 ⊎ In x p'.buffer)
nothing_lost_example = nothing_lost switch second recovered (omega arith)

abbrev Up : Bool × List Message → Type 0
Up k = k.0 ≡ true

produce-Up :
    (m : Message) (k : Bool × List Message) → Up k → ((hand m k).0 ≡ done) × Up (hand m k).1
produce-Up m (true, log) u = (refl, refl)
produce-Up m (false, log) u = cc

buffer_drained_example :
    let p' = produce_or_buffer switch second recovered in
    (p'.buffer ≡ []) × (p'.producer.1 ≡ first ∷ second ∷ [])
buffer_drained_example =
    buffer_drained switch Up produce-Up (λ k u. (refl, u)) second recovered refl

-- A client whose state is the committed position of each partition.
abbrev store : ℕ → ℕ → (ℕ → ℕ) → ℕ → ℕ
store partition offset c any = if eqb any partition then offset + 1 else c any

store_at : (partition offset : ℕ) (c : ℕ → ℕ) → store partition offset c partition ≡ offset + 1
store_at partition offset c = ground arith

store_other :
    (partition offset : ℕ) (c : ℕ → ℕ) (other : ℕ)
    → other ≢ partition
    → store partition offset c other ≡ c other
store_other partition offset c other n = ground (arith, n)

never_fails :
    (partition offset : ℕ) (c : ℕ → ℕ) (any : ℕ)
    → ◌≡◌ {A = Bool} true false
    → store partition offset c any ≡ c any
never_fails partition offset c any e = cc

abbrev stored : ConsumerClient
stored = record {
  C = ℕ → ℕ;
  commit = λ partition offset c. (true, store partition offset c);
  position = λ c. c;
  commit_done = λ partition offset c e. store_at partition offset c;
  commit_other = store_other;
  commit_failed = never_fails;
}

abbrev loads : String → Decoded ℕ
loads value = payload 1

-- The handler raises on its first call only.
abbrev handler : ℕ → Bool → Ended × Bool
handler p b = (if b then returned else raised_other, true)

abbrev consumer : Consumer stored loads handler
consumer = record { client = λ any. 0; handled = false; messages_processed = 0 }

abbrev polls : List Polled
polls = message 2 0 "x" ∷ message 2 1 "y" ∷ []

commits_only_done_example :
    Committed stored loads handler consumer 2 polls
      ((consume stored loads handler polls consumer).1.client 2)
commits_only_done_example = commits_only_done stored loads handler polls consumer 2

failed_message_skipped_example :
    let r = consume stored loads handler polls consumer in
    (r.0 ≡ true) × (r.1.client 2 ≡ 2) × (0 < r.1.client 2)
failed_message_skipped_example =
    failed_message_skipped stored loads handler 2 0 1 "x" "y" 1 1 consumer (omega arith) refl refl
      refl refl refl
