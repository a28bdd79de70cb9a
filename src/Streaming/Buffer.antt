-- ===== src/Streaming/Buffer.antt =====
-- What the buffer of src/streaming/producer.py keeps, and when it is emptied.
use cryptosentinel_ai.Prelude.{
  ℕ, suc, ◌≤◌, ◌<◌, ◌≡◌, ◌≢◌, refl, sym, ap, subst, ◌∙◌, ◌⊎◌, inl, inr, List, [], ◌∷◌, ◌++◌, length,
  In, In-append_left, In-append_right, length-append, arith,
}
use cryptosentinel_ai.Streaming.Producer.{
  Message, Outcome, done, kafka_exception, other_exception, KafkaClient, buffer_maxlen,
  append_bounded, ThreatIntelProducer, send, drain, drain_buffer, produce_or_buffer,
}

Outcome-cases : (o : Outcome) → (o ≡ done) ⊎ (o ≡ kafka_exception) ⊎ (o ≡ other_exception)
Outcome-cases done = inl refl
Outcome-cases kafka_exception = inr (inl refl)
Outcome-cases other_exception = inr (inr refl)

append_assoc : {A : Type 0} (xs ys zs : List A) → (xs ++ ys) ++ zs ≡ xs ++ (ys ++ zs)
append_assoc [] ys zs = refl
append_assoc (x ∷ xs) ys zs = ap (λ t. x ∷ t) (append_assoc xs ys zs)

append-nil : {A : Type 0} (xs : List A) → xs ++ [] ≡ xs
append-nil [] = refl
append-nil (x ∷ xs) = ap (λ t. x ∷ t) (append-nil xs)

append_bounded_fits :
    (n : ℕ) (m : Message) (b : List Message) → length b < n → append_bounded n m b ≡ b ++ m ∷ []
unfolding append_bounded
append_bounded_fits n m b h = ground (arith, length-append b (m ∷ []))

module _ (kc : KafkaClient) where
  open kc use {K, produce, poll, handed_over}

  -- `send` is `produce`, and then `poll` if that ended well.
  send_cases :
      (m : Message) (k : K)
      → (((produce m k).0 ≡ done) × (send kc m k ≡ poll (produce m k).1))
        ⊎ (((produce m k).0 ≢ done) × (send kc m k ≡ produce m k))
  unfolding send
  send_cases m k = elim (Outcome-cases (produce m k).0) [
    | inl e ↦ inl (e, ground (arith, e))
    | inr (inl e) ↦ inr (λ d. cc (e, d), ground (arith, e))
    | inr (inr e) ↦ inr (λ d. cc (e, d), ground (arith, e))
  ]

  -- A message is handed over by a `send` that ends well, and nothing is taken back by any.
  send_done :
      (m : Message) (k : K)
      → (send kc m k).0 ≡ done
      → handed_over (send kc m k).1 ≡ handed_over k ++ m ∷ []
  send_done m k e = elim (send_cases m k) [
    | inl (d, s) ↦
        ap (λ r. handed_over r.1) s ∙ kc.poll_keeps (produce m k).1 ∙ kc.produce_done m k d
    | inr (n, s) ↦ absurd (n (sym (ap (λ r. r.0) s) ∙ e))
  ]

  send_keeps : (m x : Message) (k : K) → In x (handed_over k) → In x (handed_over (send kc m k).1)
  send_keeps m x k h = elim (send_cases m k) [
    | inl (d, s) ↦
        subst (In x)
          (sym
            (ap (λ r. handed_over r.1) s ∙ kc.poll_keeps (produce m k).1 ∙ kc.produce_done m k d))
          (In-append_left x (handed_over k) (m ∷ []) h)
    | inr (n, s) ↦ subst (In x) (sym (ap (λ r. handed_over r.1) s ∙ failed n)) h
  ]
    where
      failed : (produce m k).0 ≢ done → handed_over (produce m k).1 ≡ handed_over k
      failed n = elim (Outcome-cases (produce m k).0) [
        | inl e ↦ absurd (n e)
        | inr (inl e) ↦ kc.produce_kafka_exception m k e
        | inr (inr e) ↦ kc.produce_other_exception m k e
      ]

  module _ (m : Message) (buffer : List Message) (k : K) where
    drain_cases :
        (((send kc m k).0 ≡ done)
          × (drain kc (m ∷ buffer) k ≡ (
            (drain kc buffer (send kc m k).1).0,
            (drain kc buffer (send kc m k).1).1,
            suc (drain kc buffer (send kc m k).1).2,
          )))
        ⊎ (((send kc m k).0 ≢ done) × (drain kc (m ∷ buffer) k ≡ (m ∷ buffer, (send kc m k).1, 0)))
    unfolding drain
    drain_cases = elim (Outcome-cases (send kc m k).0) [
      | inl e ↦ inl (e, ground (arith, e))
      | inr (inl e) ↦ inr (λ d. cc (e, d), ground (arith, e))
      | inr (inr e) ↦ inr (λ d. cc (e, d), ground (arith, e))
    ]

  -- Every message is handed over or still buffered after a drain, and no more are buffered.
  drain_keeps :
      (buffer : List Message) (k : K)
      → let r = drain kc buffer k in
        (length r.0 ≤ length buffer)
        × ((x : Message) → In x (handed_over k) → In x (handed_over r.1))
        × ((x : Message) → In x buffer → In x (handed_over r.1) ⊎ In x r.0)
  unfolding drain
  drain_keeps [] k = (omega arith, λ x h. h, λ x h. absurd h)
  drain_keeps (m ∷ buffer) k = elim (drain_cases m buffer k) [
    | inl (d, s) ↦
        let (fewer, kept, all) = drain_keeps buffer (send kc m k).1 in
        let first =
          subst (In m) (sym (send_done m k d))
            (In-append_right m (handed_over k) (m ∷ []) (inl refl)) in
        (
          omega (arith, fewer, ap (λ r. length r.0) s),
          λ x h. subst (λ r. In x (handed_over r.1)) (sym s) (kept x (send_keeps m x k h)),
          λ x h.
              subst (λ r. In x (handed_over r.1) ⊎ In x r.0) (sym s)
                (elim h [
                  | inl e ↦
                      inl (kept x (subst (λ t. In t (handed_over (send kc m k).1)) (sym e) first))
                  | inr later ↦ all x later
                ]),
        )
    | inr (n, s) ↦ (
      omega (arith, ap (λ r. length r.0) s),
      λ x h. subst (λ r. In x (handed_over r.1)) (sym s) (send_keeps m x k h),
      λ x h. subst (λ r. In x (handed_over r.1) ⊎ In x r.0) (sym s) (inr h),
    )
  ]

  -- When every call of the client ends well, a drain hands all over in order.
  module _ (up : K → Type 0)
      (send_up : (m : Message) (k : K) → up k → ((send kc m k).0 ≡ done) × up (send kc m k).1) where
    drain_up :
        (buffer : List Message) (k : K)
        → up k
        → let r = drain kc buffer k in
          (r.0 ≡ []) × (handed_over r.1 ≡ handed_over k ++ buffer) × up r.1
    unfolding drain
    drain_up [] k h = (refl, sym (append-nil (handed_over k)), h)
    drain_up (m ∷ buffer) k h = elim (drain_cases m buffer k) [
      | inr (n, s) ↦ absurd (n (send_up m k h).0)
      | inl (d, s) ↦
          let (empty, sent, still) = drain_up buffer (send kc m k).1 (send_up m k h).1 in
          (
            ap (λ r. r.0) s ∙ empty,
            ap (λ r. handed_over r.1) s
                ∙ sent
                ∙ ap (λ t. t ++ buffer) (send_done m k d)
                ∙ append_assoc (handed_over k) (m ∷ []) buffer,
            subst (λ r. up r.1) (sym s) still,
          )
    ]

  module _ (m : Message) (p : ThreatIntelProducer kc) where
    abbrev drained : ThreatIntelProducer kc
    drained = (drain_buffer kc p).1

    abbrev sent : Outcome × K
    sent = send kc m drained.producer

    produce_or_buffer_cases :
        ((sent.0 ≡ done) × (produce_or_buffer kc m p ≡ record drained { producer = sent.1 }))
        ⊎ ((sent.0 ≢ done)
            × (produce_or_buffer kc m p ≡ record {
              producer = sent.1;
              buffer = append_bounded buffer_maxlen m drained.buffer;
            }))
    unfolding produce_or_buffer
    produce_or_buffer_cases = elim (Outcome-cases sent.0) [
      | inl e ↦ inl (e, ground (arith, e))
      | inr (inl e) ↦ inr (λ d. cc (e, d), ground (arith, e))
      | inr (inr e) ↦ inr (λ d. cc (e, d), ground (arith, e))
    ]

    drained_lem :
        (length drained.buffer ≤ length p.buffer)
        × ((x : Message) → In x (handed_over p.producer) → In x (handed_over drained.producer))
        × ((x : Message)
            → In x p.buffer
            → In x (handed_over drained.producer) ⊎ In x drained.buffer)
    unfolding drain_buffer
    drained_lem = drain_keeps p.buffer p.producer

  -- After one call of `produce_transaction`, with room left in the buffer, its message and every
  -- message that was buffered is handed over to the client or buffered, and nothing handed over
  -- before is lost; the buffer keeps to its bound.
  pub nothing_lost :
      (m : Message) (p : ThreatIntelProducer kc)
      → length p.buffer < buffer_maxlen
      → let p' = produce_or_buffer kc m p in
        (length p'.buffer ≤ buffer_maxlen)
        × ((x : Message) → In x (handed_over p.producer) → In x (handed_over p'.producer))
        × ((x : Message) → In x (m ∷ p.buffer) → In x (handed_over p'.producer) ⊎ In x p'.buffer)
  nothing_lost m p room =
      let (fewer, kept, all) = drained_lem m p in
      elim (produce_or_buffer_cases m p) [
        | inl (d, s) ↦
            let k = (drained m p).producer in
            (
              omega (arith, fewer, room, ap (λ q. length q.buffer) s),
              λ x h.
                  subst (λ q. In x (handed_over q.producer)) (sym s) (send_keeps m x k (kept x h)),
              λ x h.
                  subst (λ q. In x (handed_over q.producer) ⊎ In x q.buffer) (sym s)
                    (elim h [
                      | inl e ↦ inl (
                          subst (In x) (sym (send_done m k d))
                            (In-append_right x (handed_over k) (m ∷ []) (inl e)))
                      | inr old ↦ elim (all x old) [
                        | inl gone ↦ inl (send_keeps m x k gone)
                        | inr left ↦ inr left
                      ]
                    ]),
            )
        | inr (n, s) ↦
            let k = (drained m p).producer in
            let whole =
              append_bounded_fits buffer_maxlen m (drained m p).buffer
                (omega (arith, fewer, room)) in
            let longer = (drained m p).buffer ++ m ∷ [] in
            (
              omega (
                arith,
                fewer,
                room,
                ap (λ q. length q.buffer) s,
                ap length whole,
                length-append (drained m p).buffer (m ∷ []),
              ),
              λ x h.
                  subst (λ q. In x (handed_over q.producer)) (sym s) (send_keeps m x k (kept x h)),
              λ x h.
                  subst (λ q. In x (handed_over q.producer) ⊎ In x q.buffer) (sym s)
                    (subst (λ b. In x (handed_over (send kc m k).1) ⊎ In x b) (sym whole)
                      (elim h [
                        | inl e ↦ inr (In-append_right x (drained m p).buffer (m ∷ []) (inl e))
                        | inr old ↦ elim (all x old) [
                          | inl gone ↦ inl (send_keeps m x k gone)
                          | inr left ↦ inr (In-append_left x (drained m p).buffer (m ∷ []) left)
                        ]
                      ])),
            )
      ]

  -- When every call of the client ends well, `produce_transaction` empties the buffer, and hands
  -- over what was buffered, in its order, and then its message.
  pub buffer_drained :
      (up : K → Type 0)
      → ((m : Message) (k : K) → up k → ((produce m k).0 ≡ done) × up (produce m k).1)
      → ((k : K) → up k → ((poll k).0 ≡ done) × up (poll k).1)
      → (m : Message) (p : ThreatIntelProducer kc) → up p.producer
      → let p' = produce_or_buffer kc m p in
        (p'.buffer ≡ [])
        × (handed_over p'.producer ≡ handed_over p.producer ++ (p.buffer ++ m ∷ []))
  unfolding drain_buffer
  buffer_drained up produce-Up poll_up m p h = elim (produce_or_buffer_cases m p) [
    | inr (n, s) ↦ absurd (n (send_up m (drained m p).producer still).0)
    | inl (d, s) ↦ (
      ap (λ q. q.buffer) s ∙ empty,
      ap (λ q. handed_over q.producer) s
          ∙ send_done m (drained m p).producer d
          ∙ ap (λ t. t ++ m ∷ []) gone
          ∙ append_assoc (handed_over p.producer) p.buffer (m ∷ []),
    )
  ]
    where
      send_up : (x : Message) (k : K) → up k → ((send kc x k).0 ≡ done) × up (send kc x k).1
      send_up x k u = elim (send_cases x k) [
        | inl (e, s) ↦
            let (fine, on) = poll_up (produce x k).1 (produce-Up x k u).1 in
            (ap (λ r. r.0) s ∙ fine, subst (λ r. up r.1) (sym s) on)
        | inr (n, s) ↦ absurd (n (produce-Up x k u).0)
      ]

      all_up :
          ((drained m p).buffer ≡ [])
          × (handed_over (drained m p).producer ≡ handed_over p.producer ++ p.buffer)
          × up (drained m p).producer
      all_up = drain_up up send_up p.buffer p.producer h

      empty : (drained m p).buffer ≡ []
      empty = all_up.0

      gone : handed_over (drained m p).producer ≡ handed_over p.producer ++ p.buffer
      gone = all_up.1

      still : up (drained m p).producer
      still = all_up.2
