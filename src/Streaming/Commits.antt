-- ===== src/Streaming/Commits.antt =====
-- What the commits of src/streaming/consumer.py stand for.
use cryptosentinel_ai.Prelude.{
  ℕ, ◌+◌, ◌≡◌, ◌≢◌, refl, sym, ap, subst, ◌∙◌, ◌⊎◌, inl, inr, String, true, false, List, [], ◌∷◌,
  ◌++◌, Bool, Bool-cases, arith,
}
use cryptosentinel_ai.Streaming.Consumer.{
  Polled, nothing, partition_eof, broken, message, Decoded, payload, json_error, other_error, Ended,
  returned, raised_json, raised_other, ConsumerClient, Consumer, attempt, commit_processed,
  conclude, process, round, consume,
}

module _ (cl : ConsumerClient) {P H : Type 0} (loads : String → Decoded P)
    (handler : P → H → Ended × H) where
  -- A message that may be committed: it is no JSON, or the handler, in the state `h`, returns on its
  -- payload or raises a `JSONDecodeError` of its own.
  abbrev pub MayCommit : String → H → Type 0
  MayCommit value h =
      (loads value ≡ json_error)
      ⊎ ((p : P) × (loads value ≡ payload p)
          × (((handler p h).0 ≡ returned) ⊎ ((handler p h).0 ≡ raised_json)))

  -- The position `k` of a partition is that of `s`, or behind a message of it in `polls` that may be
  -- committed in the state to which the polls before it lead.
  abbrev pub Committed : Consumer cl loads handler → ℕ → List Polled → ℕ → Type 0
  Committed s partition polls k =
      (k ≡ cl.position s.client partition)
      ⊎ ((before : List Polled) × (after : List Polled) × (offset : ℕ) × (value : String) × (polls
            ≡ before ++ message partition offset value ∷ after)
          × ((consume cl loads handler before s).0 ≡ true)
          × MayCommit value (consume cl loads handler before s).1.handled
          × (k ≡ offset + 1))

  -- The same of one poll.
  abbrev AfterOne : Consumer cl loads handler → ℕ → Polled → ℕ → Type 0
  AfterOne s partition polled k =
      (k ≡ cl.position s.client partition)
      ⊎ ((offset : ℕ) × (value : String) × (polled ≡ message partition offset value)
          × MayCommit value s.handled
          × (k ≡ offset + 1))

  commit-Committed :
      (any partition offset : ℕ) (c : cl.C)
      → ((any ≡ partition) × (cl.position (cl.commit partition offset c).1 any ≡ offset + 1))
        ⊎ (cl.position (cl.commit partition offset c).1 any ≡ cl.position c any)
  commit-Committed any partition offset c = elim (same_partition any partition) [
    | inr other ↦ inr (cl.commit_other partition offset c any other)
    | inl same ↦ elim (Bool-cases (cl.commit partition offset c).0) [
      | inl e ↦ inl (
        same,
        ap (cl.position (cl.commit partition offset c).1) same
            ∙ cl.commit_done partition offset c e,
      )
      | inr e ↦ inr (cl.commit_failed partition offset c any e)
    ]
  ]
    where
      same_partition : (a b : ℕ) → (a ≡ b) ⊎ (a ≢ b)
      same_partition a b = ground arith

  Decoded-cases :
      (d : Decoded P) → ((p : P) × (d ≡ payload p)) ⊎ (d ≡ json_error) ⊎ (d ≡ other_error)
  Decoded-cases (payload p) = inl (p, refl)
  Decoded-cases json_error = inr (inl refl)
  Decoded-cases other_error = inr (inr refl)

  -- How the decoder and the handler end on a payload, and why.
  attempt_cases :
      (value : String) (h : H)
      → (((attempt cl loads handler value h).0 ≡ raised_other) ⊎ MayCommit value h)
  unfolding attempt
  attempt_cases value h = elim (Decoded-cases (loads value)) [
    | inr (inl e) ↦ inr (inl e)
    | inr (inr e) ↦ inl (ground (arith, e))
    | inl (p, e) ↦ by_end p e (handler p h).0 refl
  ]
    where
      by_end :
          (p : P)
          → loads value ≡ payload p
          → (o : Ended) → (handler p h).0 ≡ o
          → ((attempt cl loads handler value h).0 ≡ raised_other) ⊎ MayCommit value h
      by_end p e returned q = inr (inr (p, e, inl q))
      by_end p e raised_json q = inr (inr (p, e, inr q))
      by_end p e raised_other q = inl (ground (arith, e, q))

  module _ (any partition offset : ℕ) (value : String) (s : Consumer cl loads handler) (h : H) where
    after_commit :
        (k : ℕ)
        → MayCommit value s.handled
        → k ≡ cl.position (cl.commit partition offset s.client).1 any
        → AfterOne s any (message partition offset value) k
    after_commit k may e = elim (commit-Committed any partition offset s.client) [
      | inl (same, stored) ↦
          inr (offset, value, ap (λ t. message t offset value) (sym same), may, e ∙ stored)
      | inr same ↦ inl (e ∙ same)
    ]

    conclude-AfterOne :
        (ended : Ended)
        → (ended ≡ raised_other) ⊎ MayCommit value s.handled
        → AfterOne s any (message partition offset value) (
            cl.position
              (conclude cl loads handler ended partition offset (record s { handled = h })).1.client
              any)
    unfolding conclude commit_processed
    conclude-AfterOne returned (inl e) = cc
    conclude-AfterOne returned (inr may) = after_commit _ may refl
    conclude-AfterOne raised_json (inl e) = cc
    conclude-AfterOne raised_json (inr may) = after_commit _ may refl
    conclude-AfterOne raised_other _ = inl refl

  round-AfterOne :
      (any : ℕ) (polled : Polled) (s : Consumer cl loads handler)
      → AfterOne s any polled (cl.position (round cl loads handler polled s).1.client any)
  unfolding round process
  round-AfterOne any nothing s = inl refl
  round-AfterOne any partition_eof s = inl refl
  round-AfterOne any broken s = inl refl
  round-AfterOne any (message partition offset value) s =
      conclude-AfterOne any partition offset value s (attempt cl loads handler value s.handled).1
        (attempt cl loads handler value s.handled).0 (attempt_cases value s.handled)

  AfterOne-Committed :
      (s : Consumer cl loads handler) (any k : ℕ) (polled : Polled) (later : List Polled)
      → AfterOne s any polled k
      → Committed s any (polled ∷ later) k
  unfolding consume
  AfterOne-Committed s any k polled later (inl e) = inl e
  AfterOne-Committed s any k polled later (inr (offset, value, same, may, e)) =
      inr ([], later, offset, value, ap (λ p. p ∷ later) same, refl, may, e)

  goes_on :
      (polled : Polled) (later : List Polled) (s : Consumer cl loads handler)
      → (round cl loads handler polled s).0 ≡ true
      → consume cl loads handler (polled ∷ later) s
        ≡ consume cl loads handler later (round cl loads handler polled s).1
  unfolding consume
  goes_on polled later s e = ground (arith, e)

  stops :
      (polled : Polled) (later : List Polled) (s : Consumer cl loads handler)
      → (round cl loads handler polled s).0 ≡ false
      → consume cl loads handler (polled ∷ later) s ≡ (false, (round cl loads handler polled s).1)
  unfolding consume
  stops polled later s e = ground (arith, e)

  Committed-next :
      (polled : Polled) (later : List Polled) (s : Consumer cl loads handler) (any k : ℕ)
      → (round cl loads handler polled s).0 ≡ true
      → Committed (round cl loads handler polled s).1 any later k
      → Committed s any (polled ∷ later) k
  Committed-next polled later s any k on (inl same) =
      subst (Committed s any (polled ∷ later)) (sym same)
        (AfterOne-Committed s any _ polled later (round-AfterOne any polled s))
  Committed-next polled later s any k on (inr (before, after, offset, value, q, fine, may, e)) =
      inr (
        polled ∷ before,
        after,
        offset,
        value,
        ap (λ l. polled ∷ l) q,
        ap (λ r. r.0) (goes_on polled before s on) ∙ fine,
        subst (λ (r : Bool × Consumer cl loads handler). MayCommit value r.1.handled)
            (sym (goes_on polled before s on)) may,
        e,
      )

  -- However `consume` ends, the committed position of each partition is where it was, or directly
  -- behind a polled message of that partition that is no JSON, or on whose payload the handler, in the
  -- state in which the polls before it leave it, returns or raises a `JSONDecodeError`, which the code takes
  -- for one of the decoder.
  pub commits_only_done :
      (polls : List Polled) (s : Consumer cl loads handler) (partition : ℕ)
      → Committed s partition polls
          (cl.position (consume cl loads handler polls s).1.client partition)
  unfolding consume
  commits_only_done [] s any = inl refl
  commits_only_done (polled ∷ later) s any = elim (Bool-cases (round cl loads handler polled s).0) [
    | inr ended ↦
        subst
          (λ (r : Bool × Consumer cl loads handler).
            Committed s any (polled ∷ later) (cl.position r.1.client any))
          (sym (stops polled later s ended))
          (AfterOne-Committed s any _ polled later (round-AfterOne any polled s))
    | inl on ↦
        subst
          (λ (r : Bool × Consumer cl loads handler).
            Committed s any (polled ∷ later) (cl.position r.1.client any))
          (sym (goes_on polled later s on))
          (Committed-next polled later s any _ on
            (commits_only_done later (round cl loads handler polled s).1 any))
  ]
