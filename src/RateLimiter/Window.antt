-- ===== src/RateLimiter/Window.antt =====
-- The sliding window of src/api/middleware/rate_limiter.py against the whole history of a key: the
-- pruned list of times decides as the list of all times at which the key was served would.
use cryptosentinel_ai.Prelude.{
  ℕ, ◌-◌, ◌≤◌, ◌<◌, ◌≡◌, refl, sym, ap, ◌∙◌, subst, arith, String, ◌≢◌, Bool, true, false, ◌↔◌, inl,
  inr, List, [], ◌∷◌, ◌++◌, length, keep, leb, length-keep, length-append, keep-append, keep-keep,
  Bool-cases, String-cases,
}
use cryptosentinel_ai.Dict.{lookup, insert, lookup-insert_self, lookup-insert_ne}
use cryptosentinel_ai.Float.{Float, of_int}
use cryptosentinel_ai.RateLimiter.Defs.{Windows, window_of, recent, check_rate_limit}
use cryptosentinel_ai.RateLimiter.History.{
  counted, serve_one_refused, serve_one_served, Call, Served, serve_one, serve, nothing_served,
  times_of, Ordered, Uniform, times_of-append_self, times_of-append_ne,
}

module _ {A : Type 0} where
  length-keep_le :
      (p q : A → Bool)
      → ((x : A) → q x ≡ true → p x ≡ true)
      → (xs : List A) → length (keep q xs) ≤ length (keep p xs)
  length-keep_le p q h [] = omega arith
  length-keep_le p q h (x ∷ xs) = ground (arith, length-keep_le p q h xs, h x)

module _ (fl : Float) where
  open fl use {F, place, sub, sub_mono}

  module _ (k : String) (limit window : ℕ) where
    -- At the time `now` the store knows of `k` what counts, and no more than the limit counts.
    record Inv (now : F) (s : Served fl) : Type 0 where
      known :
          keep (recent fl now window) (window_of fl k s.windows)
          ≡ keep (recent fl now window) (times_of fl k s.log)
      bounded : length (keep (recent fl now window) (times_of fl k s.log)) ≤ limit

    recent_later :
        (now later : F)
        → place now ≤ place later
        → (t : F) → recent fl later window t ≡ true
        → recent fl now window t ≡ true
    recent_later now later h t r = ground (arith, sub_mono now later (of_int fl window) h)

    Inv-later : (now later : F) (s : Served fl) → place now ≤ place later → Inv now s → Inv later s
    Inv-later now later s h v =
        let narrower = recent_later now later h in
        let p = recent fl now window in
        let q = recent fl later window in
        record {
          known =
              sym (keep-keep p q narrower (window_of fl k s.windows))
              ∙ ap (keep q) v.known
              ∙ keep-keep p q narrower (times_of fl k s.log);
          bounded = omega (arith, length-keep_le p q narrower (times_of fl k s.log), v.bounded);
        }

    window_of-insert_self :
        (times : List F) (w : Windows fl) → window_of fl k (insert k times w) ≡ times
    unfolding window_of
    window_of-insert_self times w = ground (arith, lookup-insert_self k times w)

    window_of-insert_ne :
        (j : String) (times : List F) (w : Windows fl)
        → j ≢ k
        → window_of fl k (insert j times w) ≡ window_of fl k w
    unfolding window_of
    window_of-insert_ne j times w ne = ground (arith, lookup-insert_ne j k times w ne)

    -- A call for another key.
    Inv-other :
        (c : Call fl) (now : F) (s : Served fl) → c.key ≢ k → Inv now s → Inv now (serve_one fl c s)
    Inv-other c now s ne v = elim (Bool-cases (leb c.limit (length (counted fl c s)))) [
      | inl full ↦ rw (serve_one_refused fl c s full) (record {
        known = ap p (window_of-insert_ne c.key (counted fl c s) s.windows ne) ∙ v.known;
        bounded = v.bounded;
      })
      | inr free ↦
          let same_log = sym (times_of-append_ne fl k c.key s.log c.now ne) in
          rw (serve_one_served fl c s free) (record {
            known =
                ap p (window_of-insert_ne c.key (counted fl c s ++ c.now ∷ []) s.windows ne)
                ∙ v.known
                ∙ ap p same_log;
            bounded = subst (λ l. length (p l) ≤ limit) same_log v.bounded;
          })
    ]
      where
        p : List F → List F
        p l = keep (recent fl now window) l

    abbrev own : F → Call fl
    own now = record { key = k; limit = limit; window = window; now = now }

    own-eq : (c : Call fl) → c.key ≡ k → c.limit ≡ limit → c.window ≡ window → own c.now ≡ c
    own-eq c ek el ew =
        λ i. record { key = sym ek i; limit = sym el i; window = sym ew i; now = c.now }

    -- What the store counts is what the log counts.
    counted-eq :
        (now : F) (s : Served fl)
        → Inv now s
        → counted fl (own now) s ≡ keep (recent fl now window) (times_of fl k s.log)
    counted-eq now s v = v.known

    -- A call for `k` at a time at which the invariant holds.
    Inv-own : (now : F) (s : Served fl) → Inv now s → Inv now (serve_one fl (own now) s)
    Inv-own now s v = elim (Bool-cases (leb limit (length (counted fl (own now) s)))) [
      | inl full ↦ rw (serve_one_refused fl (own now) s full) (record {
        known =
            ap p (window_of-insert_self (counted fl (own now) s) s.windows)
            ∙ keep-keep q q (λ t e. e) (window_of fl k s.windows)
            ∙ v.known;
        bounded = v.bounded;
      })
      | inr free ↦
          let times = counted fl (own now) s in
          let logged = times_of-append_self fl k s.log now in
          let both : p (times_of fl k s.log ++ now ∷ []) ≡ p (times_of fl k s.log) ++ p (now ∷ []) =
            keep-append q (times_of fl k s.log) (now ∷ []) in
          rw (serve_one_served fl (own now) s free) (record {
            known =
                ap p (window_of-insert_self (times ++ now ∷ []) s.windows)
                ∙ keep-append q times (now ∷ [])
                ∙ ap (λ l. l ++ p (now ∷ []))
                    (keep-keep q q (λ t e. e) (window_of fl k s.windows) ∙ v.known)
                ∙ sym both
                ∙ ap p (sym logged);
            bounded = omega (
              arith,
              ap (λ l. length (p l)) logged,
              ap length both,
              length-append (p (times_of fl k s.log)) (p (now ∷ [])),
              length-keep q (now ∷ []),
              ap length v.known,
              not_full _ _ free,
            );
          })
    ]
      where
        q : F → Bool
        q = recent fl now window

        p : List F → List F
        p l = keep q l

        not_full : (a b : ℕ) → leb a b ≡ false → b < a
        not_full a b e = ground arith

    -- Any call for any key.
    Inv-step :
        (c : Call fl) (now : F) (s : Served fl)
        → (c.key ≡ k → (c.limit ≡ limit) × (c.window ≡ window))
        → place now ≤ place c.now
        → Inv now s
        → Inv c.now (serve_one fl c s)
    Inv-step c now s uniform order v =
        let later = Inv-later now c.now s order v in
        elim (String-cases c.key k) [
          | inl e ↦
              let (el, ew) = uniform e in
              subst (λ d. Inv c.now (serve_one fl d s)) (own-eq c e el ew) (Inv-own c.now s later)
          | inr ne ↦ Inv-other c c.now s ne later
        ]

    Inv-serve :
        (calls : List (Call fl)) (from to : F) (s : Served fl)
        → Uniform fl k limit window calls
        → Ordered fl from calls to
        → Inv from s
        → Inv to (serve fl calls s)
    unfolding serve
    Inv-serve [] from to s u o v = Inv-later from to s o v
    Inv-serve (c ∷ calls) from to s u o v =
        Inv-serve calls c.now to (serve_one fl c s) u.1 o.1 (Inv-step c from s u.0 o.0 v)

    Inv-start : (now : F) → Inv now (nothing_served fl)
    unfolding window_of lookup times_of
    Inv-start now = record { known = refl; bounded = omega arith }

    -- Whatever calls were made since the start, with a clock that does not run backwards and one
    -- limit for the key, at any later time at most `limit` of the calls served for the key lie in
    -- the window that ends then.
    pub window_bound :
        (calls : List (Call fl)) (from now : F)
        → Uniform fl k limit window calls
        → Ordered fl from calls now
        → length
            (keep (recent fl now window) (times_of fl k (serve fl calls (nothing_served fl)).log))
          ≤ limit
    window_bound calls from now u o =
        (Inv-serve calls from now (nothing_served fl) u o (Inv-start from)).bounded

    -- After any calls since the start, whose clock does not run backwards and which give this key one
    -- limit and one window: a further call for the key, with these and at no earlier time, is served
    -- exactly when fewer than `limit` of the calls served for it before lie in the window that ends at its
    -- time. The second answer is `limit` less these and itself, or 0 where that is below 0.
    pub served_iff :
        (calls : List (Call fl)) (from now : F)
        → Uniform fl k limit window calls
        → Ordered fl from calls now
        → let s = serve fl calls (nothing_served fl) in
          let n = length (keep (recent fl now window) (times_of fl k s.log)) in
          let r = check_rate_limit fl k limit window now s.windows in
          ((r.0 ≡ true) ↔ (n < limit)) × (r.1 ≡ limit - n - 1)
    unfolding check_rate_limit
    served_iff calls from now u o =
        let s = serve fl calls (nothing_served fl) in
        let v = Inv-serve calls from now (nothing_served fl) u o (Inv-start from) in
        let e = ap length v.known in ((λ h. ground arith, λ h. ground arith), ground arith)
