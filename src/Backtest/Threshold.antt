-- ===== src/Backtest/Threshold.antt =====
-- What a higher threshold of src/backtesting/backtester.py does, and what the best one is.
use cryptosentinel_ai.Prelude.{
  ℕ, suc, le→leb, leb→le, ◌+◌, ◌≤◌, ◌≡◌, refl, ◌⊎◌, inl, inr, Bool, true, false, List, [], ◌∷◌,
  length, All, arith,
}
use cryptosentinel_ai.Float.{Float, le_f}
use cryptosentinel_ai.Backtest.Defs.{
  Confusion, one_if, counted, confusion, predictions, evaluate_at_threshold,
}

-- The counts of two runs over n samples, the second with the higher threshold.
abbrev pub Raised : Confusion → Confusion → ℕ → Type 0
Raised a b n =
    (a.tp + a.fp + a.tn + a.fn ≡ n) × (b.tp ≤ a.tp) × (b.fp ≤ a.fp) × (a.tn ≤ b.tn) × (a.fn ≤ b.fn)

module _ (a b : Confusion) (n : ℕ) where
  counted_zero :
      (low high : Bool)
      → (high ≡ true → low ≡ true)
      → Raised a b n
      → Raised (counted 0 (one_if low) a) (counted 0 (one_if high) b) (suc n)
  unfolding counted
  counted_zero true true h (e, p, q, r, s) =
      (omega (arith, e), omega (arith, p), omega (arith, q), omega (arith, r), omega (arith, s))
  counted_zero true false h (e, p, q, r, s) =
      (omega (arith, e), omega (arith, p), omega (arith, q), omega (arith, r), omega (arith, s))
  counted_zero false true h k = absurd (grind (arith, h refl))
  counted_zero false false h (e, p, q, r, s) =
      (omega (arith, e), omega (arith, p), omega (arith, q), omega (arith, r), omega (arith, s))

  counted_one :
      (low high : Bool)
      → (high ≡ true → low ≡ true)
      → Raised a b n
      → Raised (counted 1 (one_if low) a) (counted 1 (one_if high) b) (suc n)
  unfolding counted
  counted_one true true h (e, p, q, r, s) =
      (omega (arith, e), omega (arith, p), omega (arith, q), omega (arith, r), omega (arith, s))
  counted_one true false h (e, p, q, r, s) =
      (omega (arith, e), omega (arith, p), omega (arith, q), omega (arith, r), omega (arith, s))
  counted_one false true h k = absurd (grind (arith, h refl))
  counted_one false false h (e, p, q, r, s) =
      (omega (arith, e), omega (arith, p), omega (arith, q), omega (arith, r), omega (arith, s))

module _ (fl : Float) where
  open fl use {F, place}

  -- A label of the data: 0 or 1.
  abbrev pub IsLabelled : F × ℕ → Type 0
  IsLabelled s = (s.1 ≡ 0) ⊎ (s.1 ≡ 1)

  abbrev pub at : F → List (F × ℕ) → Confusion
  at threshold samples = confusion (predictions fl threshold samples)

  All-Raised :
      (low high : F)
      → place low ≤ place high
      → (samples : List (F × ℕ)) → All IsLabelled samples
      → Raised (at low samples) (at high samples) (length samples)
  unfolding predictions confusion
  All-Raised low high h [] all = (refl, omega arith, omega arith, omega arith, omega arith)
  All-Raised low high h ((x, label) ∷ samples) (l, all) = elim l [
    | inl zero_label ↦ rw zero_label (
        counted_zero _ _ _ (le_f fl low x) (le_f fl high x) (still low high x h)
          (All-Raised low high h samples all))
    | inr one_label ↦ rw one_label (
        counted_one _ _ _ (le_f fl low x) (le_f fl high x) (still low high x h)
          (All-Raised low high h samples all))
  ]
    where
      still :
          (low high x : F) → place low ≤ place high → le_f fl high x ≡ true → le_f fl low x ≡ true
      still low high x h e =
          le→leb (place low) (place x) (omega (arith, h, leb→le (place high) (place x) e))

  -- Where every label is 0 or 1, each sample is counted once; and a higher threshold has no more true and
  -- no more false positives, no fewer true negatives and no fewer false negatives.
  pub higher_threshold :
      (low high : F) (samples : List (F × ℕ))
      → place low ≤ place high
      → All IsLabelled samples
      → let a = (evaluate_at_threshold fl samples low).conf in
        let b = (evaluate_at_threshold fl samples high).conf in
        (a.tp + a.fp + a.tn + a.fn ≡ length samples)
        × (b.tp ≤ a.tp)
        × (b.fp ≤ a.fp)
        × (a.tn ≤ b.tn)
        × (a.fn ≤ b.fn)
  unfolding evaluate_at_threshold
  higher_threshold low high samples h all = All-Raised low high h samples all
