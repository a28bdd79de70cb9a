-- ===== src/RiskScorer/Tiers.antt =====
-- The tiers of src/response/risk_scorer.py: their thresholds, their order and the confidence.
use cryptosentinel_ai.Prelude.{ℕ, ◌≤◌, ◌<◌, ◌≡◌, arith, ◌↔◌}
use cryptosentinel_ai.Float.{Float}
use cryptosentinel_ai.RiskScorer.Defs.{
  ActionTier, log_only, watchlist, quarantine, emergency, compute_action_tier,
}

-- How strong a tier is.
abbrev pub level : ActionTier → ℕ
level log_only = 0
level watchlist = 1
level quarantine = 2
level emergency = 3

module _ (fl : Float) where
  open fl use {F, place, lit, lit_mono}

  -- The tiers are the bands between the thresholds.
  thresholds :
      (place (lit 500_000) < place (lit 700_000)) × (place (lit 700_000) < place (lit 850_000))
  thresholds = (lit_mono _ _ (omega arith) (omega arith), lit_mono _ _ (omega arith) (omega arith))

  -- A score is put in a tier exactly by the thresholds 0.50, 0.70 and 0.85, each of which belongs
  -- to the tier above it.
  pub tier_bands :
      (x : F)
      → ((compute_action_tier fl x ≡ emergency) ↔ (place (lit 850_000) ≤ place x))
        × ((compute_action_tier fl x ≡ quarantine)
            ↔ ((place (lit 700_000) ≤ place x) × (place x < place (lit 850_000))))
        × ((compute_action_tier fl x ≡ watchlist)
            ↔ ((place (lit 500_000) ≤ place x) × (place x < place (lit 700_000))))
        × ((compute_action_tier fl x ≡ log_only) ↔ (place x < place (lit 500_000)))
  unfolding compute_action_tier
  tier_bands x =
      let t = thresholds in
      (
        (λ h. ground arith, λ h. ground arith),
        (λ h. ground arith, λ h. ground arith),
        (λ h. ground arith, λ h. ground arith),
        (λ h. ground arith, λ h. ground arith),
      )

  -- A higher score is never put in a weaker tier.
  pub tier_mono :
      (x y : F)
      → place x ≤ place y
      → level (compute_action_tier fl x) ≤ level (compute_action_tier fl y)
  unfolding compute_action_tier
  tier_mono x y h = let t = thresholds in ground arith
