-- ===== src/Backtest/Defs.antt =====
-- `_confusion`, `_metrics_from_confusion`, `evaluate_at_threshold`, `threshold_sweep` and
-- `find_best_threshold` of src/backtesting/backtester.py. The thresholds of `np.linspace` are an argument;
-- an array of labels is a list of numbers, as long as that of the scores.
use cryptosentinel_ai.Prelude.{
  ℕ, ◌+◌, Bool, ◌&&◌, Option, none, some, List, [], ◌∷◌, map, ltb, eqb, if◌then◌else◌,
}
use cryptosentinel_ai.Float.{Float, lt_f, le_f, of_int}

pub record Confusion : Type 0 where
  pub tp : ℕ
  pub fp : ℕ
  pub tn : ℕ
  pub fn : ℕ

abbrev pub one_if : Bool → ℕ
one_if b = if b then 1 else 0

-- The entry of a prediction and a label, 0 or 1: others count nowhere.
unfoldable pub counted : ℕ → ℕ → Confusion → Confusion
counted y_true y_pred c = record {
  tp = one_if (eqb y_pred 1 && eqb y_true 1) + c.tp;
  fp = one_if (eqb y_pred 1 && eqb y_true 0) + c.fp;
  tn = one_if (eqb y_pred 0 && eqb y_true 0) + c.tn;
  fn = one_if (eqb y_pred 0 && eqb y_true 1) + c.fn;
}

unfoldable pub confusion : List (ℕ × ℕ) → Confusion
confusion [] = record { tp = 0; fp = 0; tn = 0; fn = 0 }
confusion ((y_true, y_pred) ∷ ys) = counted y_true y_pred (confusion ys)

module _ (fl : Float) where
  open fl use {F, lit, add, mul, div, round}

  -- `a / b if b > 0 else 0.0`
  unfoldable pub ratio : ℕ → ℕ → F
  ratio a b = if ltb 0 b then div (of_int fl a) (of_int fl b) else lit 0

  pub record Metrics : Type 0 where
    pub precision : F
    pub recall : F
    pub f1 : F
    pub accuracy : F

  unfoldable pub f1_of : F → F → F
  f1_of precision recall =
      if lt_f fl (lit 0) (add precision recall)
      then div (mul (mul (lit 2_000_000) precision) recall) (add precision recall)
      else lit 0

  unfoldable pub metrics_from_confusion : Confusion → Metrics
  metrics_from_confusion c =
      let precision = ratio c.tp (c.tp + c.fp) in
      let recall = ratio c.tp (c.tp + c.fn) in
      record {
        precision = round precision 4;
        recall = round recall 4;
        f1 = round (f1_of precision recall) 4;
        accuracy = round (ratio (c.tp + c.tn) (c.tp + c.fp + c.tn + c.fn)) 4;
      }

  pub record Evaluation : Type 0 where
    pub metrics : Metrics
    pub conf : Confusion
    pub threshold : F

  -- `(scores >= threshold).astype(int)`, with the labels
  unfoldable pub predictions : F → List (F × ℕ) → List (ℕ × ℕ)
  predictions threshold samples = map (λ s. (s.1, one_if (le_f fl threshold s.0))) samples

  unfoldable pub evaluate_at_threshold : List (F × ℕ) → F → Evaluation
  evaluate_at_threshold samples threshold =
      let conf = confusion (predictions threshold samples) in
      record { metrics = metrics_from_confusion conf; conf = conf; threshold = round threshold 3 }

  unfoldable pub threshold_sweep : List F → List (F × ℕ) → List Evaluation
  threshold_sweep thresholds samples = map (evaluate_at_threshold samples) thresholds

  -- `max(sweep, key=...)` keeps the first of those with the highest F1.
  unfoldable pub better : Evaluation → List Evaluation → Evaluation
  better best [] = best
  better best (m ∷ ms) = better (if lt_f fl best.metrics.f1 m.metrics.f1 then m else best) ms

  -- `none` is the ValueError of `max`.
  unfoldable pub find_best_threshold : List Evaluation → Option Evaluation
  find_best_threshold [] = none
  find_best_threshold (m ∷ ms) = some (better m ms)
