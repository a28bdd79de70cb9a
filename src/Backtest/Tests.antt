-- ===== src/Backtest/Tests.antt =====
-- A run of src/backtesting/backtester.py, and its theorem there.
use cryptosentinel_ai.Prelude.{ℕ, ◌+◌, ◌≤◌, ◌≡◌, refl, inl, inr, List, [], ◌∷◌, All, arith}
use cryptosentinel_ai.Float.Fixed.{fixed}
use cryptosentinel_ai.Backtest.Defs.{confusion, counted, predictions, evaluate_at_threshold}
use cryptosentinel_ai.Backtest.Threshold.{IsLabelled, higher_threshold}

-- Two illicit transactions at 0.9 and 0.4, and two licit ones at 0.6 and 0.1.
abbrev samples : List (ℕ × ℕ)
samples = (900_001, 1) ∷ (400_001, 1) ∷ (600_001, 0) ∷ (100_001, 0) ∷ []

at_half :
    (evaluate_at_threshold fixed samples 500_001).conf ≡ record { tp = 1; fp = 1; tn = 1; fn = 1 }
unfolding evaluate_at_threshold predictions confusion counted
at_half = refl

samples-IsLabelled : All (IsLabelled fixed) samples
samples-IsLabelled = (inr refl, (inr refl, (inl refl, (inl refl, tt))))

higher_threshold_example :
    let a = (evaluate_at_threshold fixed samples 500_001).conf in
    let b = (evaluate_at_threshold fixed samples 800_001).conf in
    (a.tp + a.fp + a.tn + a.fn ≡ 4) × (b.tp ≤ a.tp) × (b.fp ≤ a.fp) × (a.tn ≤ b.tn) × (a.fn ≤ b.fn)
higher_threshold_example =
    higher_threshold fixed 500_001 800_001 samples (omega arith) samples-IsLabelled
