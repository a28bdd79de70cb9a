-- ===== src/Features/History.antt =====
-- The history of src/ml/tabular/feature_engineer.py against all transactions that were ever seen.
use text.Mathlib.Text.{◌==◌}
use cryptosentinel_ai.Prelude.{
  ℕ, ◌≤◌, ◌≡◌, ◌≢◌, refl, sym, ap, subst, ◌∙◌, inl, inr, String, true, List, [], ◌∷◌, ◌++◌, keep,
  keep-keep, keep-append, leb→le, le→leb, if◌then◌else◌, arith, String-cases, eq_iff,
}
use cryptosentinel_ai.Dict.{lookup, lookup-insert_self, lookup-insert_ne}
use cryptosentinel_ai.Float.{Float, of_int}
use cryptosentinel_ai.Features.Defs.{
  get, Histories, history_of, since, cutoff_of, update_history, get_recent_history, TxPayload,
  extract, features_of,
}

append-nil : {A : Type 0} (xs : List A) → xs ++ [] ≡ xs
append-nil [] = refl
append-nil (x ∷ xs) = ap (λ t. x ∷ t) (append-nil xs)

append_assoc : {A : Type 0} (xs ys zs : List A) → (xs ++ ys) ++ zs ≡ xs ++ (ys ++ zs)
append_assoc [] ys zs = refl
append_assoc (x ∷ xs) ys zs = ap (λ t. x ∷ t) (append_assoc xs ys zs)

module _ (fl : Float) where
  open fl use {F, place, sub}

  -- A transaction that was seen: sender, time and value.
  abbrev pub Seen : Type 0
  Seen = String × F × F

  -- All that `address` sent, in order.
  unfoldable pub sent_by : String → List Seen → List (F × F)
  sent_by address [] = []
  sent_by address (x ∷ xs) =
      if x.0 == address then (x.1, x.2) ∷ sent_by address xs else sent_by address xs

  -- The histories after a list of transactions.
  unfoldable pub after : ℕ → List Seen → Histories fl → Histories fl
  after window [] h = h
  after window (x ∷ xs) h = after window xs (update_history fl window x.0 x.1 x.2 h)

  -- The times do not decrease, from `start` on.
  abbrev pub Ascending : F → List Seen → Type 0
  Ascending start [] = Unit
  Ascending start (x ∷ xs) = (place start ≤ place x.1) × Ascending x.1 xs

  abbrev last_time : F → List Seen → F
  last_time start [] = start
  last_time start (x ∷ xs) = last_time x.1 xs

  sent_by-append :
      (address : String) (xs ys : List Seen)
      → sent_by address (xs ++ ys) ≡ sent_by address xs ++ sent_by address ys
  unfolding sent_by
  sent_by-append address [] ys = refl
  sent_by-append address (x ∷ xs) ys = ground (arith, sent_by-append address xs ys)

  module _ (window : ℕ) where
    -- No cutoff from that of `start` on tells the history of an address from all it sent.
    abbrev Exact : F → List Seen → Histories fl → Type 0
    Exact start past h =
        (address : String) (cutoff : F)
        → place (cutoff_of fl window start) ≤ place cutoff
        → keep (since fl cutoff) (history_of fl address h)
          ≡ keep (since fl cutoff) (sent_by address past)

    history_of-update_self :
        (address : String) (t v : F) (h : Histories fl)
        → history_of fl address (update_history fl window address t v h)
          ≡ keep (since fl (cutoff_of fl window t)) (history_of fl address h ++ (t, v) ∷ [])
    unfolding update_history
    history_of-update_self address t v h = rw lookup-insert_self

    history_of-update_ne :
        (a address : String) (t v : F) (h : Histories fl)
        → a ≢ address
        → history_of fl address (update_history fl window a t v h) ≡ history_of fl address h
    unfolding update_history
    history_of-update_ne a address t v h ne = ap (get fl []) (lookup-insert_ne a address _ h ne)

    Exact-update :
        (start : F) (x : Seen) (past : List Seen) (h : Histories fl)
        → place start ≤ place x.1
        → Exact start past h
        → Exact x.1 (past ++ x ∷ []) (update_history fl window x.0 x.1 x.2 h)
    unfolding sent_by
    Exact-update start x past h le exact address cutoff later =
        let kept = λ (e : F × F) (k : since fl cutoff e ≡ true).
          le→leb _ _ (le_trans later (leb→le _ _ k)) in
        let same =
          exact address cutoff (le_trans (fl.sub_mono start x.1 (of_int fl window) le) later) in
        elim (String-cases x.0 address) [
          | inl e ↦
              subst
                (λ t.
                  keep (since fl cutoff)
                    (history_of fl address (update_history fl window t x.1 x.2 h))
                  ≡ keep (since fl cutoff) (sent_by address (past ++ x ∷ [])))
                (sym e)
                (ap (keep (since fl cutoff)) (history_of-update_self address x.1 x.2 h)
                  ∙ keep-keep (since fl (cutoff_of fl window x.1)) (since fl cutoff) kept
                      (history_of fl address h ++ (x.1, x.2) ∷ [])
                  ∙ keep-append (since fl cutoff) (history_of fl address h) ((x.1, x.2) ∷ [])
                  ∙ ap (λ t. t ++ keep (since fl cutoff) ((x.1, x.2) ∷ [])) same
                  ∙ sym (keep-append (since fl cutoff) (sent_by address past) ((x.1, x.2) ∷ []))
                  ∙ ap (λ t. keep (since fl cutoff) t) (sym (sent_by_last e)))
          | inr ne ↦
              ap (keep (since fl cutoff)) (history_of-update_ne x.0 address x.1 x.2 h ne)
              ∙ same
              ∙ ap (keep (since fl cutoff)) (sym (sent_by_other ne))
        ]
      where
        le_trans : {a b c : ℕ} → a ≤ b → b ≤ c → a ≤ c
        le_trans p q = omega (arith, p, q)

        last_self : x.0 ≡ address → sent_by address (x ∷ []) ≡ (x.1, x.2) ∷ []
        last_self e = ground (arith, eq_iff x.0 address)

        last_ne : x.0 ≢ address → sent_by address (x ∷ []) ≡ []
        last_ne ne = ground (arith, eq_iff x.0 address)

        sent_by_last :
            x.0 ≡ address
            → sent_by address (past ++ x ∷ []) ≡ sent_by address past ++ (x.1, x.2) ∷ []
        sent_by_last e =
            sent_by-append address past (x ∷ []) ∙ ap (λ t. sent_by address past ++ t) (last_self e)

        sent_by_other : x.0 ≢ address → sent_by address (past ++ x ∷ []) ≡ sent_by address past
        sent_by_other ne =
            sent_by-append address past (x ∷ [])
            ∙ ap (λ t. sent_by address past ++ t) (last_ne ne)
            ∙ append-nil (sent_by address past)

    Exact-after :
        (start : F) (later past : List Seen) (h : Histories fl)
        → Ascending start later
        → Exact start past h
        → Exact (last_time start later) (past ++ later) (after window later h)
    unfolding after
    Exact-after start [] past h up exact =
        subst (λ t. Exact start t h) (sym (append-nil past)) exact
    Exact-after start (x ∷ later) past h up exact =
        subst
          (λ t.
            Exact (last_time x.1 later) t
              (after window later (update_history fl window x.0 x.1 x.2 h)))
          (append_assoc past (x ∷ []) later)
          (Exact-after x.1 later (past ++ x ∷ []) (update_history fl window x.0 x.1 x.2 h) up.1
            (Exact-update start x past h up.0 exact))

    Exact-nothing : (start : F) → Exact start [] []
    unfolding lookup sent_by
    Exact-nothing start address cutoff later = refl

  after-append :
      (window : ℕ) (xs : List Seen) (x : Seen) (h : Histories fl)
      → after window (xs ++ x ∷ []) h ≡ update_history fl window x.0 x.1 x.2 (after window xs h)
  unfolding after
  after-append window [] x h = refl
  after-append window (y ∷ xs) x h =
      after-append window xs x (update_history fl window y.0 y.1 y.2 h)

  last_time-append : (start : F) (xs : List Seen) (x : Seen) → last_time start (xs ++ x ∷ []) ≡ x.1
  last_time-append start [] x = refl
  last_time-append start (y ∷ xs) x = last_time-append y.1 xs x

  -- A transaction as it is seen: a missing time is the clock's.
  abbrev pub seen_as : F → TxPayload fl → Seen
  seen_as now tx =
      (get fl "" tx.from_addr, get fl now tx.block_timestamp, get fl (fl.lit 0) tx.value_eth)

  -- When times do not decrease, `extract` makes the features of a transaction as if from all that
  -- its sender has sent since the start, this transaction included, within the history window.
  pub extract_exact :
      (log1p : F → F) (window : ℕ) (seen : List Seen) (start now : F) (tx : TxPayload fl)
      → Ascending start (seen ++ seen_as now tx ∷ [])
      → let (a, t, v) = seen_as now tx in
        (extract fl log1p now tx
          (record { history_window = window; address_history = after window seen [] })).0
        ≡ features_of fl log1p tx a v t
            (keep (since fl (cutoff_of fl window t)) (sent_by a (seen ++ seen_as now tx ∷ [])))
  unfolding extract get_recent_history
  extract_exact log1p window seen start now tx up =
      let x = seen_as now tx in
      let cutoff = cutoff_of fl window x.1 in
      let exact = Exact-after window start (seen ++ x ∷ []) [] [] up (Exact-nothing window start) in
      ap (features_of fl log1p tx x.0 x.2 x.1) (
        ap (λ h. keep (since fl cutoff) (history_of fl x.0 h)) (sym (after-append window seen x []))
        ∙ exact x.0 cutoff (ends start seen x))
    where
      ends :
          (start : F) (seen : List Seen) (x : Seen)
          → place (cutoff_of fl window (last_time start (seen ++ x ∷ [])))
            ≤ place (cutoff_of fl window x.1)
      ends start seen x =
          omega (arith, ap (λ t. place (cutoff_of fl window t)) (last_time-append start seen x))
