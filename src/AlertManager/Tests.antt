-- ===== src/AlertManager/Tests.antt =====
-- Runs of `AlertManager` (src/response/alert_manager.py), and its theorems at concrete states.
use text.Mathlib.Text.{◌==◌}
use cryptosentinel_ai.Prelude.{
  ℕ, ◌+◌, ◌≤◌, ◌≡◌, refl, ◌⊎◌, String, false, none, some, [], ◌∷◌, length, In, if◌then◌else◌, arith,
}
use cryptosentinel_ai.Dict.{lookup, insert, remove, keys}
use cryptosentinel_ai.Float.Fixed.{fixed}
use cryptosentinel_ai.RiskScorer.Defs.{ActionTier, watchlist, emergency}
use cryptosentinel_ai.RiskScorer.Score.{RiskAssessment}
use cryptosentinel_ai.AlertManager.Defs.{
  Runtime, Alert, AlertManager, new_manager, new_alert, lowest, evict_from, evict_lowest_priority,
  add_or_update, stored, same_tier,
}
use cryptosentinel_ai.AlertManager.Evict.{IsEmergency, IsWellFormed, IsEviction, evicts_lowest}
use cryptosentinel_ai.AlertManager.Update.{add_or_update_bound}
use cryptosentinel_ai.AlertManager.Dedup.{Stores, add_or_update_dedup}

abbrev runtime : Runtime fixed
runtime = record {
  log1p = λ x. x;
  power = λ x y. x;
  heappush = λ queue n. n ∷ queue;
  length-heappush = λ queue n. refl;
}

abbrev assessed : String → ℕ → ActionTier → RiskAssessment fixed
assessed address score action = record {
  address = address;
  tx_hash = "0x1";
  composite_score = score;
  confidence = 500_001;
  action = action;
  model_scores = record {
    gnn = score;
    autoencoder = score;
    isolation_forest = score;
    graph_centrality = score;
    velocity_flag = false;
    known_bad_address = false;
  };
  value_at_risk_eth = 1_000_001;
  timestamp = 1;
  explanation = none;
}

-- A manager with room for one alert, and an EMERGENCY in it.
abbrev one_alert : AlertManager fixed runtime
one_alert = stored fixed runtime 1 (assessed "a" 950_001 emergency) (new_manager fixed runtime 1)

-- The second alert is the one that is evicted.
second_evicted :
    keys (add_or_update fixed runtime 2 (assessed "b" 600_001 watchlist) one_alert).1.alerts
    ≡ "a" ∷ []
unfolding add_or_update evict_lowest_priority evict_from lowest lookup insert remove same_tier
second_evicted = refl

one_alert-IsWellFormed : IsWellFormed fixed runtime one_alert
unfolding insert
one_alert-IsWellFormed = record { distinct = ((λ m. m), tt); queued = refl }

evicts_lowest_example :
    IsEviction fixed runtime 2 one_alert (evict_lowest_priority fixed runtime 2 one_alert)
evicts_lowest_example = evicts_lowest fixed runtime 2 one_alert

room : length one_alert.alerts ≤ one_alert.max_alerts
unfolding insert
room = omega arith

add_or_update_bound_example :
    let m' = (add_or_update fixed runtime 2 (assessed "b" 600_001 watchlist) one_alert).1 in
    (length m'.alerts ≤ 1)
    ⊎ ((length m'.alerts ≡ 1 + 1)
        × ((x : String × Alert fixed runtime) → In x m'.alerts → IsEmergency fixed runtime x.1))
add_or_update_bound_example =
    add_or_update_bound fixed runtime 2 (assessed "b" 600_001 watchlist) one_alert room

abbrev first : Alert fixed runtime
first = new_alert fixed runtime 1 (assessed "a" 950_001 emergency)

a_found :
    (if "b" == "a"
      then some (add_or_update fixed runtime 2 (assessed "b" 600_001 watchlist) one_alert).0
      else lookup "a" one_alert.alerts)
    ≡ some first
unfolding lookup insert
a_found = refl

first-IsEmergency : IsEmergency fixed runtime first
unfolding same_tier
first-IsEmergency = refl

-- A second assessment of the address of the alert.
add_or_update_dedup_example :
    let (alert, m') = add_or_update fixed runtime 2 (assessed "a" 600_001 watchlist) one_alert in
    ((b : Alert fixed runtime) × (lookup "a" one_alert.alerts ≡ some b)
      × (alert ≡ record {
        assessment = assessed "a" 600_001 watchlist;
        created_at = b.created_at;
        updated_at = 2;
        update_count = b.update_count + 1;
        acknowledged = b.acknowledged;
        acknowledged_by = b.acknowledged_by;
      })
      × Stores fixed runtime 2 (assessed "a" 600_001 watchlist) one_alert alert m'.alerts
      × (length m'.alerts ≡ length one_alert.alerts)
      × (m'.queue ≡ one_alert.queue)
      × (m'.total_created ≡ one_alert.total_created)
      × (m'.total_deduplicated ≡ one_alert.total_deduplicated + 1))
    ⊎ ((lookup "a" one_alert.alerts ≡ none)
        × (alert ≡ record {
          assessment = assessed "a" 600_001 watchlist;
          created_at = 2;
          updated_at = 2;
          update_count = 0;
          acknowledged = false;
          acknowledged_by = none;
        })
        × (Stores fixed runtime 2 (assessed "a" 600_001 watchlist) one_alert alert m'.alerts
            ⊎ (one_alert.max_alerts ≤ length one_alert.alerts))
        × (length m'.queue ≡ length one_alert.queue + 1)
        × (m'.total_created ≡ one_alert.total_created + 1)
        × (m'.total_deduplicated ≡ one_alert.total_deduplicated))
add_or_update_dedup_example =
    add_or_update_dedup fixed runtime 2 (assessed "a" 600_001 watchlist) one_alert
