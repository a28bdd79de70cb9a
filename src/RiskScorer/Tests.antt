-- ===== src/RiskScorer/Tests.antt =====
-- Runs of the scorer of src/response/risk_scorer.py on fixed-point numbers, and its theorems there.
use cryptosentinel_ai.Prelude.{ℕ, ◌≤◌, ◌≡◌, refl, arith, true, false, [], ◌∷◌, List, none, some}
use cryptosentinel_ai.Dict.{Dict, insert, lookup}
use cryptosentinel_ai.Float.Fixed.{fixed, times, over}
use cryptosentinel_ai.RiskScorer.Defs.{
  watchlist, emergency, ModelScores, ensemble_weights, compute_action_tier, composite_of,
  available_scores, damp, weighted, total_weight, sum, adjust_velocity, adjust_known_bad,
  adjust_boost, clamp, ml_present, new_scorer,
}
use cryptosentinel_ai.RiskScorer.Score.{Request, RiskAssessment, Event, Explanation, score}
use cryptosentinel_ai.RiskScorer.Composite.{known_bad_escalates, full_centrality_watched}
use cryptosentinel_ai.RiskScorer.Run.{IsAssessment, score_assesses}

-- gnn 0.9, autoencoder unavailable, isolation forest 0.2, centrality 0.4, high velocity.
abbrev mixed : ModelScores fixed
mixed = record {
  gnn = 900_001;
  autoencoder = 0;
  isolation_forest = 200_001;
  graph_centrality = 400_001;
  velocity_flag = true;
  known_bad_address = false;
}

abbrev listed : ModelScores fixed
listed = record mixed { known_bad_address = true }

-- Only a full centrality.
abbrev hub : ModelScores fixed
hub = record {
  gnn = 0;
  autoencoder = 0;
  isolation_forest = 0;
  graph_centrality = 1_000_001;
  velocity_flag = false;
  known_bad_address = false;
}

-- (0.9 * 0.55 + 0.2 * 0.1 + 0.4 * 0.1) / 0.75 = 0.74, and 0.74 * 1.3 = 0.962.
composite_mixed : composite_of fixed (ensemble_weights fixed) mixed 1_000_001 false ≡ 961_999
unfolding composite_of available_scores damp weighted total_weight sum adjust_velocity
    adjust_known_bad adjust_boost clamp insert lookup times over ml_present
composite_mixed = refl

default_weights_accepted : new_scorer fixed none ≡ some (ensemble_weights fixed)
unfolding new_scorer
default_weights_accepted = refl

known_bad_escalates_example :
    let c = composite_of fixed (ensemble_weights fixed) listed 1_000_001 true in
    (900_001 ≤ c) × (compute_action_tier fixed c ≡ emergency)
known_bad_escalates_example =
    known_bad_escalates fixed (ensemble_weights fixed) listed 1_000_001 true refl

full_centrality_watched_example :
    let x = composite_of fixed (ensemble_weights fixed) hub 1_000_001 true in
    (x ≡ 500_001) × (compute_action_tier fixed x ≡ watchlist)
full_centrality_watched_example =
    full_centrality_watched fixed hub 1_000_001
      (omega arith, omega arith, omega arith, refl, refl, refl) (omega arith)

abbrev request : Request fixed
request = record {
  address = "0xabc";
  tx_hash = "0x1";
  model_scores = mixed;
  value_eth = 5_000_001;
  cross_chain_boost = 1_000_001;
  live_mode = false;
}

score_assesses_example :
    (a : RiskAssessment fixed) × (events : List (Event fixed)) × (score fixed
        (ensemble_weights fixed)
        request
        1
      ≡ some (a, events))
    × IsAssessment fixed (ensemble_weights fixed) request a events
score_assesses_example = score_assesses fixed (ensemble_weights fixed) request 1

abbrev scores : Dict ℕ
scores = ("gnn", 900_001) ∷ ("graph_centrality", 400_001) ∷ []

abbrev explanation : Explanation fixed
explanation = record {
  composite_score = 850_001;
  action = "EMERGENCY_ESCALATE";
  primary_driver = "gnn";
  model_contributions = scores;
  adjustments = "velocity_boost: high transaction frequency detected" ∷ [];
  summary =
      "CRITICAL: Address shows strong illicit patterns (score=). Primary signal: gnn. Immediate escalation recommended.";
}
