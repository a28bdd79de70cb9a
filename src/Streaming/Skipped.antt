-- ===== src/Streaming/Skipped.antt =====
-- A failed message that the next commit of src/streaming/consumer.py leaves behind.
use cryptosentinel_ai.Prelude.{ℕ, ◌+◌, ◌<◌, ◌≡◌, refl, ap, ◌∙◌, String, true, [], ◌∷◌, arith}
use cryptosentinel_ai.Streaming.Consumer.{
  message, Decoded, payload, Ended, returned, raised_other, ConsumerClient, Consumer, attempt,
  commit_processed, conclude, process, round, consume,
}

module _ (cl : ConsumerClient) {P H : Type 0} (loads : String → Decoded P)
    (handler : P → H → Ended × H) where
  module _ (partition a b : ℕ) (v w : String) (p q : P) (s : Consumer cl loads handler)
      (ev : loads v ≡ payload p) (ew : loads w ≡ payload q) where
    attempt_decoded :
        (t : String) (x : P) (h : H)
        → loads t ≡ payload x
        → attempt cl loads handler t h ≡ handler x h
    unfolding attempt
    attempt_decoded t x h e = rw (e, attempt) refl

    after_first :
        (handler p s.handled).0 ≡ raised_other
        → process cl loads handler partition a v s
          ≡ (true, record s { handled = (handler p s.handled).1 })
    unfolding process conclude
    after_first raised =
        ap (λ r. conclude cl loads handler r.0 partition a (record s { handled = r.1 }))
          (attempt_decoded v p s.handled ev)
        ∙ ap
            (λ o.
              conclude cl loads handler o partition a
                (record s { handled = (handler p s.handled).1 }))
            raised

    after_second :
        (h : H)
        → (handler q h).0 ≡ returned
        → process cl loads handler partition b w (record s { handled = h }) ≡ (
          true,
          commit_processed cl loads handler partition b (record s { handled = (handler q h).1 }),
        )
    unfolding process conclude
    after_second h fine =
        ap (λ r. conclude cl loads handler r.0 partition b (record s { handled = r.1 }))
          (attempt_decoded w q h ew)
        ∙ ap (λ o. conclude cl loads handler o partition b (record s { handled = (handler q h).1 }))
            fine

    consume_both :
        (handler p s.handled).0 ≡ raised_other
        → (handler q (handler p s.handled).1).0 ≡ returned
        → consume cl loads handler (message partition a v ∷ message partition b w ∷ []) s ≡ (
          true,
          commit_processed cl loads handler partition b
              (record s { handled = (handler q (handler p s.handled).1).1 }),
        )
    unfolding consume round
    consume_both raised fine =
        ground (arith, after_first raised, after_second (handler p s.handled).1 fine)

  -- When the handler raises anything but a `JSONDecodeError` on a message, returns on a later one of the
  -- same partition, and that one is committed, the loop goes on, and the committed position of the
  -- partition is directly behind the later message and so behind both: a restart reads neither again.
  pub failed_message_skipped :
      (partition a b : ℕ) (v w : String) (p q : P) (s : Consumer cl loads handler)
      → a < b
      → loads v ≡ payload p
      → (handler p s.handled).0 ≡ raised_other
      → loads w ≡ payload q
      → (handler q (handler p s.handled).1).0 ≡ returned
      → (cl.commit partition b s.client).0 ≡ true
      → let r = consume cl loads handler (message partition a v ∷ message partition b w ∷ []) s in
        (r.0 ≡ true)
        × (cl.position r.1.client partition ≡ b + 1)
        × (a < cl.position r.1.client partition)
  unfolding commit_processed
  failed_message_skipped partition a b v w p q s lt ev raised ew fine stored = (
    ap (λ r. r.0) (consume_both partition a b v w p q s ev ew raised fine),
    at_end,
    omega (arith, lt, at_end),
  )
    where
      at_end :
          cl.position
            (consume cl loads handler
              (message partition a v ∷ message partition b w ∷ [])
              s).1.client
            partition
          ≡ b + 1
      at_end =
          ap (λ r. cl.position r.1.client partition)
            (consume_both partition a b v w p q s ev ew raised fine)
          ∙ cl.commit_done partition b s.client stored
