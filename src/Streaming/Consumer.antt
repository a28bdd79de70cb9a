-- ===== src/Streaming/Consumer.antt =====
-- `ThreatIntelConsumer.consume` of src/streaming/consumer.py, over the results of its polls. The
-- client, the decoder and the handler are parameters; log entries are left out. All messages are of
-- the one topic that the consumer is subscribed to, and each is of a partition of it.
use cryptosentinel_ai.Prelude.{
  ℕ, ◌+◌, ◌≡◌, ◌≢◌, String, Bool, true, false, List, [], ◌∷◌, if◌then◌else◌,
}

-- What `poll` returns: nothing, the end of the partition, any other error, or a message, with its
-- partition, its offset and its payload.
pub data Polled : Type 0 where
  nothing partition_eof broken : Polled
  message : ℕ → ℕ → String → Polled

-- What decoding a payload gives: a value, a `JSONDecodeError`, or any other exception.
pub data Decoded (P : Type 0) : Type 0 where
  payload : P → Decoded P
  json_error other_error : Decoded P

-- How a call ends: it returns, or raises a `JSONDecodeError` or any other exception.
pub data Ended : Type 0 where
  returned raised_json raised_other : Ended

-- `commit` of one message stores the offset after it for its partition, from which a restart reads
-- on there; it may fail. `position` is what is stored for a partition.
pub record ConsumerClient : Type 1 where
  pub C : Type 0
  pub commit : ℕ → ℕ → C → Bool × C
  pub position : C → ℕ → ℕ
  pub commit_done :
      (partition offset : ℕ) (c : C)
      → (commit partition offset c).0 ≡ true
      → position (commit partition offset c).1 partition ≡ offset + 1
  pub commit_other :
      (partition offset : ℕ) (c : C) (other : ℕ)
      → other ≢ partition
      → position (commit partition offset c).1 other ≡ position c other
  pub commit_failed :
      (partition offset : ℕ) (c : C) (any : ℕ)
      → (commit partition offset c).0 ≡ false
      → position (commit partition offset c).1 any ≡ position c any

module _ (cl : ConsumerClient) {P H : Type 0} (loads : String → Decoded P)
    (handler : P → H → Ended × H) where
  open cl use {C, commit}

  -- The consumer, with the state of its handler.
  pub record Consumer : Type 0 where
    pub client : C
    pub handled : H
    pub messages_processed : ℕ

  -- The first two calls of the `try`: the payload is decoded and handled.
  unfoldable pub attempt : String → H → Ended × H
  attempt value h = elim (loads value) [
    | payload p ↦ handler p h
    | json_error ↦ (raised_json, h)
    | other_error ↦ (raised_other, h)
  ]

  -- The rest of the `try`: the commit, and the count if it is done. A commit that raises is caught.
  unfoldable pub commit_processed : ℕ → ℕ → Consumer → Consumer
  commit_processed partition offset s =
      let (done, client) = commit partition offset s.client in
      record s {
        client = client;
        messages_processed = if done then s.messages_processed + 1 else s.messages_processed;
      }

  -- What follows the two calls: the rest of the `try`, the clause for a `JSONDecodeError` of either
  -- call, whose commit may raise, or the clause for any other exception.
  unfoldable pub conclude : Ended → ℕ → ℕ → Consumer → Bool × Consumer
  conclude returned partition offset s = (true, commit_processed partition offset s)
  conclude raised_json partition offset s = (
    (commit partition offset s.client).0,
    record s { client = (commit partition offset s.client).1 },
  )
  conclude raised_other partition offset s = (true, s)

  -- One message: whether the loop goes on, and the new state.
  unfoldable pub process : ℕ → ℕ → String → Consumer → Bool × Consumer
  process partition offset value s =
      let (ended, h) = attempt value s.handled in
      conclude ended partition offset (record s { handled = h })

  unfoldable pub round : Polled → Consumer → Bool × Consumer
  round nothing s = (true, s)
  round partition_eof s = (true, s)
  round broken s = (false, s)
  round (message partition offset value) s = process partition offset value s

  -- `consume` over the polls made while `_running`: whether it ended with no exception.
  unfoldable pub consume : List Polled → Consumer → Bool × Consumer
  consume [] s = (true, s)
  consume (polled ∷ later) s =
      let rest = consume later (round polled s).1 in
      elim (round polled s).0 [ true ↦ rest | false ↦ (false, (round polled s).1) ]
