-- ===== src/Features/Velocity.antt =====
-- src/ml/tabular/vectorized_features.py: the velocity of sorted times, by the compiled loops and by
-- the broadcast of numpy. Arrays are lists.
use cryptosentinel_ai.Prelude.{
  ℕ, ◌+◌, ◌≡◌, refl, ap, ap₂, ◌∙◌, Bool, ◌&&◌, List, [], ◌∷◌, map, length, keep, leb, if◌then◌else◌,
  arith,
}
use cryptosentinel_ai.Float.{Float, le_f, of_int}

module _ (fl : Float) where
  open fl use {F, lit, sub, div}

  -- `0.0 <= diff <= window_seconds`
  abbrev pub in_window : F → F → Bool
  in_window window diff = le_f fl (lit 0) diff && le_f fl diff window

  -- The inner loop, with the count so far.
  unfoldable pub count_near : F → F → ℕ → List F → ℕ
  count_near window t n [] = n
  count_near window t n (u ∷ us) =
      count_near window t (if in_window window (sub t u) then n + 1 else n) us

  -- `compute_velocity_numba`
  unfoldable pub compute_velocity_numba : List F → F → List ℕ
  compute_velocity_numba times window = map (λ t. count_near window t 0 times) times

  -- `t - t_other`, broadcast to a matrix.
  unfoldable pub differences : List F → List (List F)
  differences times = map (λ t. map (λ u. sub t u) times) times

  abbrev pub sum_row : List Bool → ℕ
  sum_row [] = 0
  sum_row (b ∷ bs) = (if b then 1 else 0) + sum_row bs

  -- `compute_velocity_numpy`
  unfoldable pub compute_velocity_numpy : List F → F → List ℕ
  compute_velocity_numpy times window =
      map sum_row (map (map (in_window window)) (differences times))

  -- `detect_burst_numba`
  unfoldable pub detect_burst_numba : List F → F → ℕ → List Bool
  detect_burst_numba times window burst_threshold =
      map (λ t. leb burst_threshold (count_near window t 0 times)) times

  -- `compute_gas_percentile_numba`
  unfoldable pub compute_gas_percentile_numba : F → List F → F
  compute_gas_percentile_numba gas_price [] = lit 500_000
  compute_gas_percentile_numba gas_price (p ∷ ps) =
      div (of_int fl (length (keep (λ q. le_f fl q gas_price) (p ∷ ps))))
        (of_int fl (length (p ∷ ps)))

  count-near_sum :
      (window t : F) (n : ℕ) (us : List F)
      → count_near window t n us ≡ n + sum_row (map (in_window window) (map (λ u. sub t u) us))
  unfolding count_near
  count-near_sum window t n [] = omega arith
  count-near_sum window t n (u ∷ us) =
      ground (arith, count-near_sum window t (n + 1) us, count-near_sum window t n us)

  zero_plus : (n : ℕ) → 0 + n ≡ n
  zero_plus n = omega arith

  rows :
      (window : F) (all ts : List F)
      → map (λ t. count_near window t 0 all) ts
        ≡ map sum_row (map (map (in_window window)) (map (λ t. map (λ u. sub t u) all) ts))
  rows window all [] = refl
  rows window all (t ∷ ts) =
      ap₂ (λ n ns. n ∷ ns) (count-near_sum window t 0 all ∙ zero_plus _) (rows window all ts)

  bursts :
      (window : F) (k : ℕ) (all ts : List F)
      → map (λ t. leb k (count_near window t 0 all)) ts
        ≡ map (leb k) (map (λ t. count_near window t 0 all) ts)
  bursts window k all [] = refl
  bursts window k all (t ∷ ts) =
      ap (λ bs. leb k (count_near window t 0 all) ∷ bs) (bursts window k all ts)

  -- The compiled loop and the broadcast count alike, and a burst is flagged exactly where the
  -- count of either reaches the threshold.
  pub velocity_agrees :
      (times : List F) (window : F) (burst_threshold : ℕ)
      → (compute_velocity_numba times window ≡ compute_velocity_numpy times window)
        × (detect_burst_numba times window burst_threshold
            ≡ map (leb burst_threshold) (compute_velocity_numpy times window))
  unfolding compute_velocity_numba compute_velocity_numpy detect_burst_numba differences
  velocity_agrees times window k =
      let same = rows window times times in
      (same, bursts window k times times ∙ ap (map (leb k)) same)
