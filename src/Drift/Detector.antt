-- ===== src/Drift/Detector.antt =====
-- `compute_psi` and `DriftDetector` of src/monitoring/drift_detector.py. What numpy computes is a
-- parameter; the file of the baseline is read before, and is part of the state.
use cryptosentinel_ai.Prelude.{
  ℕ, ◌+◌, String, Option, none, some, List, [], ◌∷◌, ◌++◌, length, map, ltb, if◌then◌else◌,
}
use cryptosentinel_ai.Float.{Float, lt_f, max_f, of_int}

-- `np.histogram(scores, bins=edges)[0]`, `np.log` of a number and `np.sum`.
pub record Numpy (fl : Float) : Type 0 where
  pub histogram : List fl.F → List fl.F → List ℕ
  pub log : fl.F → fl.F
  pub sum : List fl.F → fl.F

module _ {A : Type 0} where
  abbrev pub tail : List A → List A
  tail [] = []
  tail (x ∷ xs) = xs

  -- `append` on a `deque(maxlen=n)` drops the oldest entry when it is full.
  unfoldable pub push : ℕ → A → List A → List A
  push n x window =
      let longer = window ++ x ∷ [] in if ltb n (length longer) then tail longer else longer

module _ (fl : Float) (np : Numpy fl) where
  open fl use {F, lit, add, sub, mul, div}

  -- BIN_EDGES
  abbrev pub bin_edges : List F
  bin_edges =
      lit 0
      ∷ lit 100_000
      ∷ lit 200_000
      ∷ lit 300_000
      ∷ lit 400_000
      ∷ lit 500_000
      ∷ lit 600_000
      ∷ lit 700_000
      ∷ lit 800_000
      ∷ lit 900_000
      ∷ lit 1_000_000
      ∷ []

  abbrev total_of : List ℕ → ℕ
  total_of [] = 0
  total_of (c ∷ cs) = c + total_of cs

  -- The parts of the counts, at least a millionth each.
  unfoldable pub binned_pct : List F → List F
  binned_pct scores =
      let counts = np.histogram scores bin_edges in
      let total = if ltb 1 (total_of counts) then total_of counts else 1 in
      map (λ c. max_f fl (div (of_int fl c) (of_int fl total)) (lit 1)) counts

  -- The terms of the sum, bin by bin.
  unfoldable pub psi_terms : List F → List F → List F
  psi_terms [] live = []
  psi_terms (b ∷ base) [] = []
  psi_terms (b ∷ base) (l ∷ live) = mul (sub l b) (np.log (div l b)) ∷ psi_terms base live

  unfoldable pub compute_psi : List F → List F → F
  compute_psi baseline live = np.sum (psi_terms (binned_pct baseline) (binned_pct live))

  unfoldable pub classify_psi : F → String
  classify_psi psi =
      if lt_f fl psi (lit 100_000)
      then "stable"
      else if lt_f fl psi (lit 250_000)
      then "moderate"
      else "significant"

  -- The state, with the two Prometheus gauges.
  pub record DriftDetector : Type 0 where
    pub window_size : ℕ
    pub min_samples : ℕ
    pub window : List F
    pub baseline : Option (List F)
    pub psi_gauge : Option F
    pub samples_gauge : ℕ

  abbrev pub new_detector : ℕ → ℕ → Option (List F) → DriftDetector
  new_detector window_size min_samples baseline = record {
    window_size = window_size;
    min_samples = min_samples;
    window = [];
    baseline = baseline;
    psi_gauge = none;
    samples_gauge = 0;
  }

  unfoldable pub observe_score : F → DriftDetector → DriftDetector
  observe_score score d = record d { window = push d.window_size score d.window }

  -- An empty baseline is none.
  abbrev psi_against : Option (List F) → ℕ → List F → Option F
  psi_against none min_samples window = none
  psi_against (some []) min_samples window = none
  psi_against (some (b ∷ bs)) min_samples window =
      if ltb (length window) min_samples then none else some (compute_psi (b ∷ bs) window)

  unfoldable pub current_psi : DriftDetector → Option F
  current_psi d = psi_against d.baseline d.min_samples d.window

  abbrev or_before : Option F → Option F → Option F
  or_before none before = before
  or_before (some psi) before = some psi

  -- `update_metrics`: what it returns, and the state with the gauges set.
  unfoldable pub update_metrics : DriftDetector → Option F × DriftDetector
  update_metrics d = (
    current_psi d,
    record d { samples_gauge = length d.window; psi_gauge = or_before (current_psi d) d.psi_gauge },
  )
