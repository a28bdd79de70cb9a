-- ===== src/Pipeline/Offline.antt =====
-- The offline models in the loop of src/pipeline/scoring_pipeline.py.
use cryptosentinel_ai.Prelude.{
  ◌≡◌, refl, ap, ◌∙◌, Bool, false, not, Option, none, some, List, [], ◌∷◌,
}
use cryptosentinel_ai.Float.{Float}
use cryptosentinel_ai.RiskScorer.Score.{score}
use cryptosentinel_ai.CrossChain.Defs.{cross_chain_risk_boost}
use cryptosentinel_ai.Features.Defs.{TransactionFeatures}
use cryptosentinel_ai.Pipeline.Worker.{
  Tx, value_eth, Models, Environment, Pipeline, model_scores_of, of_assessment, request_of,
  scored_round, model_round, round_of, scoring_worker,
}

module _ (fl : Float) where
  -- Offline models that return for every vector, with a live model.
  abbrev pub models_with :
      (List fl.F → fl.F)
      → (List fl.F → fl.F)
      → (List fl.F → fl.F)
      → (List fl.F → Option fl.F)
      → Models fl
  models_with autoencoder isolation_forest gnn live = record {
    score_autoencoder = λ x. some (autoencoder x);
    score_isolation_forest = λ x. some (isolation_forest x);
    score_with_gnn = λ x. some (gnn x);
    score_live = live;
  }

  module _ (env : Environment fl) (untrusted : env.trust_live_model_scores ≡ false) where
    scores_same :
        (g a i g' a' i' live c : fl.F) (v : Bool)
        → model_scores_of fl env env.trust_live_model_scores g a i live c v
          ≡ model_scores_of fl env env.trust_live_model_scores g' a' i' live c v
    unfolding model_scores_of
    scores_same g a i g' a' i' live c v = rw untrusted refl

    request_same :
        (tx : Tx) (f : TransactionFeatures fl) (g a i g' a' i' live : fl.F) (s : Pipeline fl env)
        → request_of fl env tx f g a i live s ≡ request_of fl env tx f g' a' i' live s
    unfolding request_of
    request_same tx f g a i g' a' i' live s =
        ap
          (λ m. record {
            address = tx.from_addr;
            tx_hash = tx.tx_hash;
            model_scores = m;
            value_eth = value_eth fl tx;
            cross_chain_boost = cross_chain_risk_boost fl tx.from_addr s.analyzer;
            live_mode = not env.trust_live_model_scores;
          })
          (scores_same g a i g' a' i' live _ _)

    scored_round_same :
        (now : fl.F) (tx : Tx) (f : TransactionFeatures fl) (live : Option fl.F)
        (g a i g' a' i' : fl.F) (s : Pipeline fl env)
        → scored_round fl env now tx f live g a i s ≡ scored_round fl env now tx f live g' a' i' s
    unfolding scored_round
    scored_round_same now tx f none g a i g' a' i' s = refl
    scored_round_same now tx f (some live) g a i g' a' i' s =
        ap (λ q. of_assessment fl env now tx (score fl env.weights q now) s)
          (request_same tx f g a i g' a' i' live s)

    round_same :
        (a i g a' i' g' : List fl.F → fl.F) (live : List fl.F → Option fl.F) (now : fl.F) (tx : Tx)
        (s : Pipeline fl env)
        → round_of fl env (models_with a i g live) now tx s
          ≡ round_of fl env (models_with a' i' g' live) now tx s
    unfolding round_of model_round
    round_same a i g a' i' g' live now tx s = scored_round_same now tx _ _ _ _ _ _ _ _ _

  -- Where the settings do not trust the offline models on live traffic, what they return changes nothing:
  -- the loop ends in the same state for any autoencoder, isolation forest and graph network that
  -- return a score for each vector, with the same live model.
  pub offline_models_ignored :
      (env : Environment fl)
      → env.trust_live_model_scores ≡ false
      → (a i g a' i' g' : List fl.F → fl.F) (live : List fl.F → Option fl.F)
        (txs : List (fl.F × Tx)) (s : Pipeline fl env)
      → scoring_worker fl env (models_with a i g live) txs s
        ≡ scoring_worker fl env (models_with a' i' g' live) txs s
  unfolding scoring_worker
  offline_models_ignored env untrusted a i g a' i' g' live [] s = refl
  offline_models_ignored env untrusted a i g a' i' g' live ((now, tx) ∷ txs) s =
      ap (scoring_worker fl env (models_with a i g live) txs)
        (round_same env untrusted a i g a' i' g' live now tx s)
      ∙ offline_models_ignored env untrusted a i g a' i' g' live txs _
