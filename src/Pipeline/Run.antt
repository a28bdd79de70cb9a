-- ===== src/Pipeline/Run.antt =====
-- What the loop of src/pipeline/scoring_pipeline.py keeps, and what it does not depend on.
use cryptosentinel_ai.Prelude.{
  ℕ, ◌≤◌, inl, inr, Option, none, some, List, [], ◌∷◌, ◌++◌, length, Bool-cases, eqb,
}
use Prim.Native.Nat.{◌%◌}
use cryptosentinel_ai.Float.{Float}
use cryptosentinel_ai.RiskScorer.Score.{RiskAssessment, Event, is_threat}
use cryptosentinel_ai.AlertManager.Evict
use cryptosentinel_ai.AlertManager.Defs.{add_or_update}
use cryptosentinel_ai.AlertManager.Update.{add_or_update-IsWellFormed}
use cryptosentinel_ai.ThreatGraph.Transactions
use cryptosentinel_ai.Drift.Detector.{DriftDetector, observe_score, update_metrics}
use cryptosentinel_ai.Drift.Window.{observe_score_bound}
use cryptosentinel_ai.Features.Defs.{TransactionFeatures, to_numpy}
use cryptosentinel_ai.Streaming.Producer.{
  Outcome, done, kafka_exception, other_exception, ThreatIntelProducer,
}
use cryptosentinel_ai.Pipeline.Worker.{
  Tx, Models, Environment, Pipeline, add_to_graph, observe_chain, measure, handle_threat,
  of_assessment, scored_round, model_round, round_of, scoring_worker,
}

module _ (fl : Float) (env : Environment fl) where
  -- The invariant of the components that a round writes.
  pub record IsSound (s : Pipeline fl env) : Type 0 where
    pub edges_join : Transactions.IsWellFormed fl env.dg s.graph
    pub alerts_distinct : Evict.IsWellFormed fl env.rt s.alerts
    pub window_bounded : length s.drift.window ≤ s.drift.window_size

  abbrev Within : DriftDetector fl env.np → Type 0
  Within d = length d.window ≤ d.window_size

  measure-Within : (n : ℕ) (d : DriftDetector fl env.np) → Within d → Within (measure fl env n d)
  unfolding measure update_metrics
  measure-Within n d h = elim (Bool-cases (eqb (n % 50) 0)) [ inl e ↦ rw e h | inr e ↦ rw e h ]

  observed-Within :
      (n : ℕ) (x : fl.F) (d : DriftDetector fl env.np)
      → Within d
      → Within (measure fl env n (observe_score fl env.np x d))
  observed-Within n x d h =
      measure-Within n (observe_score fl env.np x d) (observe_score_bound fl env.np x d h)

  sent-IsSound :
      (o : Outcome) (t u : Pipeline fl env)
      → IsSound t
      → IsSound u
      → IsSound (elim o [ done ↦ t | _ ↦ u ])
  sent-IsSound done t u h k = h
  sent-IsSound kafka_exception t u h k = k
  sent-IsSound other_exception t u h k = k

  handle_threat-IsSound :
      (now : fl.F) (a : RiskAssessment fl) (s : Pipeline fl env)
      → IsSound s
      → IsSound (handle_threat fl env now a s)
  unfolding handle_threat
  handle_threat-IsSound now a s h = sent-IsSound _ _ _ alerted alerted
    where
      alerted :
          {p : ThreatIntelProducer env.kc} {d : env.db.D}
          → IsSound (record s {
            alerts = (add_or_update fl env.rt now a s.alerts).1;
            producer = p;
            database = d;
          })
      alerted = record {
        edges_join = h.edges_join;
        alerts_distinct = add_or_update-IsWellFormed fl env.rt now a s.alerts h.alerts_distinct;
        window_bounded = h.window_bounded;
      }

  of_assessment-IsSound :
      (now : fl.F) (tx : Tx) (r : Option (RiskAssessment fl × List (Event fl)))
      (s : Pipeline fl env)
      → IsSound s
      → IsSound (of_assessment fl env now tx r s)
  unfolding of_assessment
  of_assessment-IsSound now tx none s h = h
  of_assessment-IsSound now tx (some (a, events)) s h = elim (Bool-cases (is_threat fl a)) [
    | inl e ↦ rw e (handle_threat-IsSound now a _ counted)
    | inr e ↦ rw e counted
  ]
    where
      counted : IsSound (record s {
        events = s.events ++ events;
        scanned = s.scanned ++ tx.chain_name ∷ [];
        drift = measure fl env s.processed (observe_score fl env.np a.composite_score s.drift);
      })
      counted = record {
        edges_join = h.edges_join;
        alerts_distinct = h.alerts_distinct;
        window_bounded = observed-Within s.processed a.composite_score s.drift h.window_bounded;
      }

  graphed-IsSound :
      (now : fl.F) (tx : Tx) (s : Pipeline fl env)
      → IsSound s
      → IsSound (observe_chain fl env tx (add_to_graph fl env now tx s))
  unfolding add_to_graph observe_chain
  graphed-IsSound now tx s h = record {
    edges_join = Transactions.add_transaction-IsWellFormed fl env.dg now _ s.graph h.edges_join;
    alerts_distinct = h.alerts_distinct;
    window_bounded = h.window_bounded;
  }

  scored_round-IsSound :
      (now : fl.F) (tx : Tx) (f : TransactionFeatures fl) (live : Option fl.F)
      (gnn autoencoder isolation_forest : fl.F) (s : Pipeline fl env)
      → IsSound s
      → IsSound (scored_round fl env now tx f live gnn autoencoder isolation_forest s)
  unfolding scored_round
  scored_round-IsSound now tx f none gnn autoencoder isolation_forest s h = h
  scored_round-IsSound now tx f (some live) gnn autoencoder isolation_forest s h =
      of_assessment-IsSound now tx _ s h

  model_round-IsSound :
      (models : Models fl) (now : fl.F) (tx : Tx) (f : TransactionFeatures fl)
      (autoencoder isolation_forest gnn : Option fl.F) (s : Pipeline fl env)
      → IsSound s
      → IsSound (model_round fl env models now tx f autoencoder isolation_forest gnn s)
  unfolding model_round
  model_round-IsSound models now tx f (some autoencoder) (some isolation_forest) (some gnn) s h =
      scored_round-IsSound now tx f (models.score_live (to_numpy fl env.float32 f)) gnn autoencoder
        isolation_forest _ (graphed-IsSound now tx s h)
  model_round-IsSound models now tx f none isolation_forest gnn s h = h
  model_round-IsSound models now tx f (some autoencoder) none gnn s h = h
  model_round-IsSound models now tx f (some autoencoder) (some isolation_forest) none s h = h

  round_of-IsSound :
      (models : Models fl) (now : fl.F) (tx : Tx) (s : Pipeline fl env)
      → IsSound s
      → IsSound (round_of fl env models now tx s)
  unfolding round_of
  round_of-IsSound models now tx s h = model_round-IsSound models now tx _ _ _ _ _ (record {
    edges_join = h.edges_join;
    alerts_distinct = h.alerts_distinct;
    window_bounded = h.window_bounded;
  })

  -- Whatever the models return or raise, and whatever the producer does, the loop keeps the graph well
  -- formed, with edges between known wallets only, one alert for each address, and the window of scores
  -- within its size.
  pub scoring_worker-IsSound :
      (models : Models fl) (txs : List (fl.F × Tx)) (s : Pipeline fl env)
      → IsSound s
      → IsSound (scoring_worker fl env models txs s)
  unfolding scoring_worker
  scoring_worker-IsSound models [] s h = h
  scoring_worker-IsSound models ((now, tx) ∷ txs) s h =
      scoring_worker-IsSound models txs (round_of fl env models now tx s)
        (round_of-IsSound models now tx s h)
