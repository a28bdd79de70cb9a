-- ===== src/RiskScorer/Defs.antt =====
-- The data and the functions of src/response/risk_scorer.py. Logging is left out; the two
-- Prometheus calls are the events of a run.
use text.Mathlib.Text.{◌==◌}
use cryptosentinel_ai.Prelude.{
  String, Bool, true, false, not, ◌&&◌, ◌||◌, Option, none, some, List, [], ◌∷◌, map, foldl, length,
  if◌then◌else◌, keep, eqb,
}
use cryptosentinel_ai.Dict.{Dict, lookup, keys, values, insert}
use cryptosentinel_ai.Float.{Float, lt_f, le_f, min_f, max_f, of_int}

pub data ActionTier : Type 0 where
  log_only watchlist quarantine emergency : ActionTier

-- `action.value`
unfoldable pub tier_value : ActionTier → String
tier_value log_only = "LOG_ONLY"
tier_value watchlist = "WATCHLIST_ADD"
tier_value quarantine = "QUARANTINE"
tier_value emergency = "EMERGENCY_ESCALATE"

-- `action != ActionTier.LOG_ONLY`
unfoldable pub is_logged_only : ActionTier → Bool
is_logged_only log_only = true
is_logged_only _ = false

-- `RiskAssessment.severity`, a chain of tests on the action.
unfoldable pub severity : ActionTier → String
severity emergency = "CRITICAL"
severity quarantine = "HIGH"
severity watchlist = "MEDIUM"
severity log_only = "LOW"

module _ (fl : Float) where
  open fl use {F, place, lit, minus_one, add, mul, div, round, format_2f}

  pub record ModelScores : Type 0 where
    pub gnn : F
    pub autoencoder : F
    pub isolation_forest : F
    pub graph_centrality : F
    pub velocity_flag : Bool
    pub known_bad_address : Bool

  abbrev pub ensemble_weights : Dict F
  ensemble_weights =
      ("gnn", lit 550_000)
      ∷ ("autoencoder", lit 250_000)
      ∷ ("isolation_forest", lit 100_000)
      ∷ ("graph_centrality", lit 100_000)
      ∷ []

  -- `if c: scores[k] = v`
  abbrev pub add_if : Bool → String → F → Dict F → Dict F
  add_if c k v scores = if c then insert k v scores else scores

  unfoldable pub available_scores : ModelScores → Dict F
  available_scores s =
      let scores₁ = add_if (le_f fl (lit 0) s.gnn) "gnn" s.gnn [] in
      let scores₂ = add_if (le_f fl (lit 0) s.autoencoder) "autoencoder" s.autoencoder scores₁ in
      let scores₃ =
        add_if (le_f fl (lit 0) s.isolation_forest) "isolation_forest" s.isolation_forest scores₂ in
      insert "graph_centrality" s.graph_centrality scores₃

  unfoldable pub compute_action_tier : F → ActionTier
  compute_action_tier score =
      if le_f fl (lit 850_000) score
      then emergency
      else if le_f fl (lit 700_000) score
      then quarantine
      else if le_f fl (lit 500_000) score
      then watchlist
      else log_only

  -- `sum(xs)`
  unfoldable pub sum : List F → F
  sum = foldl add (lit 0)

  -- `mean >= 0.5`, or `mean < 0.5`: the side that a score must be on to agree.
  abbrev pub agrees : Bool → F → Bool
  agrees high s = if high then le_f fl (lit 500_000) s else lt_f fl s (lit 500_000)

  unfoldable pub confidence_of : List F → F
  unfolding sum
  confidence_of [] = lit 0
  confidence_of scores =
      let n = length scores in
      let mean_score = div (sum scores) (of_int fl n) in
      let agreeing = keep (agrees (le_f fl (lit 500_000) mean_score)) scores in
      div (of_int fl (length agreeing)) (of_int fl n)

  unfoldable pub compute_confidence : ModelScores → F
  compute_confidence s = confidence_of (values (available_scores s))

  abbrev pub abs : F → F
  abs x = if lt_f fl x (lit 0) then fl.sub (lit 0) x else x

  -- `weights or ENSEMBLE_WEIGHTS`
  abbrev pub weights_or_default : Option (Dict F) → Dict F
  weights_or_default none = ensemble_weights
  weights_or_default (some []) = ensemble_weights
  weights_or_default (some weights) = weights

  -- `CompositeRiskScorer.__init__`; `none` is the `AssertionError`.
  unfoldable pub new_scorer : Option (Dict F) → Option (Dict F)
  unfolding sum
  new_scorer weights =
      let w = weights_or_default weights in
      if lt_f fl (abs (fl.sub (sum (values w)) (lit 1_000_000))) (lit 1) then some w else none

  -- `self.weights.get(k, 0)`
  abbrev pub weight : Dict F → String → F
  weight weights k = elim (lookup k weights) [ none ↦ lit 0 | some w ↦ w ]

  abbrev pub is_ml : String → Bool
  is_ml k = k == "gnn" || k == "autoencoder" || k == "isolation_forest"

  -- `any(k in available for k in (...))`
  unfoldable pub ml_present : Dict F → Bool
  ml_present [] = false
  ml_present ((k, v) ∷ d) = is_ml k || ml_present d

  abbrev pub halve_centrality : Dict F → Option F → Dict F
  halve_centrality available none = available
  halve_centrality available (some v) = insert "graph_centrality" (mul v (lit 500_000)) available

  -- The damping of a lone centrality in live mode.
  unfoldable pub damp : Bool → Dict F → Dict F
  damp live_mode available =
      if live_mode && not (ml_present available)
      then halve_centrality available (lookup "graph_centrality" available)
      else available

  unfoldable pub total_weight : Dict F → Dict F → F
  unfolding sum
  total_weight weights available = sum (map (weight weights) (keys available))

  abbrev pub share : Dict F → F → String × F → F
  share weights total (k, v) = div (mul v (weight weights k)) total

  -- The weighted average; `total_weight == 0` falls back to the plain one.
  unfoldable pub weighted : Dict F → Dict F → F
  unfolding sum total_weight
  weighted weights available =
      let total = total_weight weights available in
      if eqb (place total) (place (lit 0))
      then div (sum (values available)) (of_int fl (length available))
      else sum (map (share weights total) available)

  unfoldable pub adjust_velocity : Bool → F → F
  adjust_velocity flag composite =
      if flag then min_f fl (lit 1_000_000) (mul composite (lit 1_300_000)) else composite

  unfoldable pub adjust_known_bad : Bool → F → F
  adjust_known_bad flag composite = if flag then max_f fl composite (lit 900_000) else composite

  unfoldable pub adjust_boost : F → F → F
  adjust_boost boost composite =
      if lt_f fl (lit 1_000_000) boost then mul composite boost else composite

  unfoldable pub clamp : F → F
  clamp composite = max_f fl (lit 0) (min_f fl (lit 1_000_000) composite)

  -- The number that `score` computes from the available scores.
  unfoldable pub composite_of : Dict F → ModelScores → F → Bool → F
  composite_of weights s boost live_mode = clamp (
      adjust_boost boost (
        adjust_known_bad s.known_bad_address (
          adjust_velocity s.velocity_flag
            (weighted weights (damp live_mode (available_scores s))))))
