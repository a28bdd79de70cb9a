-- ===== src/RiskScorer/Composite.antt =====
-- The composite score of src/response/risk_scorer.py: its range, what raises it, and the damping
-- of a lone centrality in live mode.
use cryptosentinel_ai.Prelude.{
  ℕ, ◌≤◌, ◌<◌, ◌≡◌, refl, sym, ap, ap₂, subst, ◌∙◌, arith, Bool, true, false, [], ◌∷◌,
}
use cryptosentinel_ai.Dict.{Dict, lookup, insert}
use cryptosentinel_ai.Float.{Float}
use cryptosentinel_ai.Float.Laws.{Nonneg, le-mul_right, lit_le, mul_mono_left}
use cryptosentinel_ai.RiskScorer.Tiers.{tier_bands, tier_mono, level}
use cryptosentinel_ai.RiskScorer.Defs.{
  emergency, watchlist, compute_action_tier, ModelScores, composite_of, clamp, adjust_boost,
  adjust_known_bad, adjust_velocity, weighted, damp, available_scores, ml_present, sum,
  total_weight, ensemble_weights,
}

module _ (fl : Float) where
  open fl use {F, place, lit, mul, div, add, lit_mono}

  one_pos : place (lit 0) < place (lit 1_000_000)
  one_pos = lit_mono 0 1_000_000 (omega arith) (omega arith)

  clamp_bounds :
      (x : F) → (place (lit 0) ≤ place (clamp fl x)) × (place (clamp fl x) ≤ place (lit 1_000_000))
  unfolding clamp
  clamp_bounds x = let p = one_pos in (ground arith, ground arith)

  -- Whatever the scores, the weights and the boost, the composite lies in [0, 1].
  pub composite_bounds :
      (weights : Dict F) (s : ModelScores fl) (boost : F) (live_mode : Bool)
      → let c = composite_of fl weights s boost live_mode in
        (place (lit 0) ≤ place c) × (place c ≤ place (lit 1_000_000))
  unfolding composite_of
  composite_bounds weights s boost live_mode = clamp_bounds _

  boost-le : (boost x : F) → Nonneg fl x → place x ≤ place (adjust_boost fl boost x)
  unfolding adjust_boost
  boost-le boost x h = ground (arith, le-mul_right fl x boost h)

  floor-le : (x : F) → place (lit 900_000) ≤ place (adjust_known_bad fl true x)
  unfolding adjust_known_bad
  floor-le x = ground arith

  clamp-le :
      (x : F) (n : ℕ) → n ≤ 1_000_000 → place (lit n) ≤ place x → place (lit n) ≤ place (clamp fl x)
  unfolding clamp
  clamp-le x n k h =
      ground
        (arith, lit_le fl n 1_000_000 k (omega arith), lit_le fl 0 n (omega arith) (omega arith))

  floored :
      (boost x : F)
      → place (lit 900_000) ≤ place (clamp fl (adjust_boost fl boost (adjust_known_bad fl true x)))
  floored boost x =
      let nonneg = lit_le fl 0 900_000 (omega arith) (omega arith) in
      let floor = floor-le x in
      clamp-le _ 900_000 (omega arith)
        (omega (arith, floor, boost-le boost (adjust_known_bad fl true x) (omega arith)))

  -- An address on the watchlist scores at least 0.9, so it is escalated as an emergency, whatever
  -- the model scores, the weights, the boost and the mode.
  pub known_bad_escalates :
      (weights : Dict F) (s : ModelScores fl) (boost : F) (live_mode : Bool)
      → s.known_bad_address ≡ true
      → let c = composite_of fl weights s boost live_mode in
        (place (lit 900_000) ≤ place c) × (compute_action_tier fl c ≡ emergency)
  unfolding composite_of
  known_bad_escalates weights s boost live_mode h =
      let x =
        adjust_velocity fl s.velocity_flag
          (weighted fl weights (damp fl live_mode (available_scores fl s))) in
      let high =
        subst
          (λ b.
            place (lit 900_000)
            ≤ place (clamp fl (adjust_boost fl boost (adjust_known_bad fl b x))))
          (sym h) (floored boost x) in
      (
        high,
        (tier_bands fl _).0.1
            (omega (arith, high, lit_le fl 850_000 900_000 (omega arith) (omega arith))),
      )

  -- Only the centrality `c` is available: the three models are marked unavailable.
  abbrev pub LoneCentrality : ModelScores fl → F → Type 0
  LoneCentrality s c =
      (place s.gnn < place (lit 0))
      × (place s.autoencoder < place (lit 0))
      × (place s.isolation_forest < place (lit 0))
      × (s.graph_centrality ≡ c)
      × (s.velocity_flag ≡ false)
      × (s.known_bad_address ≡ false)

  available_alone :
      (s : ModelScores fl) (c : F)
      → LoneCentrality s c
      → available_scores fl s ≡ ("graph_centrality", c) ∷ []
  unfolding available_scores insert
  available_alone s c h = ground arith

  damp_alone :
      (c : F)
      → damp fl true (("graph_centrality", c) ∷ []) ≡ ("graph_centrality", mul c (lit 500_000)) ∷ []
  unfolding damp ml_present lookup insert
  damp_alone c = refl

  weighted_alone :
      (v : F)
      → weighted fl (ensemble_weights fl) (("graph_centrality", v) ∷ [])
        ≡ div (mul v (lit 100_000)) (lit 100_000)
  unfolding weighted sum total_weight lookup
  weighted_alone v =
      let pos = lit_mono 0 100_000 (omega arith) (omega arith) in
      simp fl.zero-add (ground (arith, pos))

  weighted_damped :
      (s : ModelScores fl) (c : F)
      → LoneCentrality s c
      → weighted fl (ensemble_weights fl) (damp fl true (available_scores fl s))
        ≡ div (mul (mul c (lit 500_000)) (lit 100_000)) (lit 100_000)
  weighted_damped s c h =
      ap (λ d. weighted fl (ensemble_weights fl) (damp fl true d)) (available_alone s c h)
      ∙ ap (weighted fl (ensemble_weights fl)) (damp_alone c)
      ∙ weighted_alone (mul c (lit 500_000))

  -- With no flag and no boost the adjustments are idle.
  adjusted_alone :
      (boost x : F)
      → place boost ≤ place (lit 1_000_000)
      → adjust_boost fl boost (adjust_known_bad fl false (adjust_velocity fl false x)) ≡ x
  unfolding adjust_boost adjust_known_bad adjust_velocity
  adjusted_alone boost x h = ground arith

  composite_alone :
      (s : ModelScores fl) (c boost : F)
      → LoneCentrality s c
      → place boost ≤ place (lit 1_000_000)
      → composite_of fl (ensemble_weights fl) s boost true
        ≡ clamp fl (div (mul (mul c (lit 500_000)) (lit 100_000)) (lit 100_000))
  unfolding composite_of
  composite_alone s c boost h b = ap (clamp fl) (
      ap (adjust_boost fl boost)
        (ap₂ (adjust_known_bad fl) h.5 (ap₂ (adjust_velocity fl) h.4 (weighted_damped s c h)))
      ∙ adjusted_alone boost _ b)

  -- Half of what is at most 1 is at most a half, also after the weight is divided out again.
  half_share :
      (c : F)
      → Nonneg fl c
      → place c ≤ place (lit 1_000_000)
      → place (div (mul (mul c (lit 500_000)) (lit 100_000)) (lit 100_000)) ≤ place (lit 500_000)
  half_share c h k =
      let zero_half = lit_le fl 0 500_000 (omega arith) (omega arith) in
      let zero_weight = lit_le fl 0 100_000 (omega arith) (omega arith) in
      let halved = mul_mono_left fl c (lit 1_000_000) (lit 500_000) zero_half k in
      let one_half =
        ap place (fl.mul_comm (lit 1_000_000) (lit 500_000) ∙ fl.mul-one (lit 500_000)) in
      let shared =
        mul_mono_left fl (mul c (lit 500_000)) (lit 500_000) (lit 100_000) zero_weight
          (omega (arith, halved, one_half)) in
      let divided =
        fl.div_mono (mul (mul c (lit 500_000)) (lit 100_000)) (mul (lit 500_000) (lit 100_000))
          (lit 100_000) shared (lit_mono 0 100_000 (omega arith) (omega arith)) in
      omega (arith, divided, ap place (fl.half-div 50_000 (omega arith) (omega arith)))

  half_exact :
      div (mul (mul (lit 1_000_000) (lit 500_000)) (lit 100_000)) (lit 100_000) ≡ lit 500_000
  half_exact =
      ap (λ t. div (mul t (lit 100_000)) (lit 100_000))
        (fl.mul_comm (lit 1_000_000) (lit 500_000) ∙ fl.mul-one (lit 500_000))
      ∙ fl.half-div 50_000 (omega arith) (omega arith)

  clamp_half : (x : F) → place x ≤ place (lit 500_000) → place (clamp fl x) ≤ place (lit 500_000)
  unfolding clamp
  clamp_half x h = let p = lit_le fl 0 500_000 (omega arith) (omega arith) in ground (arith, p)

  clamp_at_half : clamp fl (lit 500_000) ≡ lit 500_000
  unfolding clamp
  clamp_at_half = ground (
    arith,
    lit_mono 0 500_000 (omega arith) (omega arith),
    lit_mono 500_000 1_000_000 (omega arith) (omega arith),
  )

  -- In live mode, with the default weights and no flag or boost, a centrality in [0, 1] alone
  -- scores at most 0.5, so it is never quarantined or escalated.
  pub LoneCentrality-cap :
      (s : ModelScores fl) (c boost : F)
      → LoneCentrality s c
      → Nonneg fl c
      → place c ≤ place (lit 1_000_000)
      → place boost ≤ place (lit 1_000_000)
      → let x = composite_of fl (ensemble_weights fl) s boost true in
        (place x ≤ place (lit 500_000)) × (level (compute_action_tier fl x) ≤ 1)
  LoneCentrality-cap s c boost h low high b =
      let cap =
        subst (λ t. place t ≤ place (lit 500_000)) (sym (composite_alone s c boost h b))
          (clamp_half _ (half_share c low high)) in
      (cap, capped_tier _ cap)
    where
      capped_tier : (x : F) → place x ≤ place (lit 500_000) → level (compute_action_tier fl x) ≤ 1
      capped_tier x cap = omega (
        arith,
        tier_mono fl x (lit 600_000)
            (omega (arith, cap, lit_le fl 500_000 600_000 (omega arith) (omega arith))),
        ap level (
            (tier_bands fl (lit 600_000)).2.1 (
              lit_le fl 500_000 600_000 (omega arith) (omega arith),
              lit_mono 600_000 700_000 (omega arith) (omega arith),
            )),
      )

  -- The cap is met: at a full centrality of 1.0 the score is exactly 0.5, which is the threshold
  -- of the watchlist tier, so a lone centrality does reach it.
  pub full_centrality_watched :
      (s : ModelScores fl) (boost : F)
      → LoneCentrality s (lit 1_000_000)
      → place boost ≤ place (lit 1_000_000)
      → let x = composite_of fl (ensemble_weights fl) s boost true in
        (x ≡ lit 500_000) × (compute_action_tier fl x ≡ watchlist)
  full_centrality_watched s boost h b =
      let e =
        composite_alone s (lit 1_000_000) boost h b ∙ ap (clamp fl) half_exact ∙ clamp_at_half in
      (
        e,
        (tier_bands fl _).2.1 (
          omega (arith, ap place e),
          omega (arith, ap place e, lit_mono 500_000 700_000 (omega arith) (omega arith)),
        ),
      )
