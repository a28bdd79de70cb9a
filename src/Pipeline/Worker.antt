-- ===== src/Pipeline/Worker.antt =====
-- One round of `scoring_worker` (src/pipeline/scoring_pipeline.py): a transaction of
-- src/blockchain/models.py through the components. A round runs to its end before the next begins; the
-- models, the database and the text of `json.dumps` are parameters. Logs are left out, and so is
-- `task_done` of the queue.
use cryptosentinel_ai.Prelude.{
  ℕ, ◌+◌, String, Bool, false, not, Option, none, some, List, [], ◌∷◌, ◌++◌, eqb, if◌then◌else◌,
}
use Prim.Native.Nat.{◌%◌}
use cryptosentinel_ai.Dict.{Dict}
use cryptosentinel_ai.Float.{Float, lt_f, min_f, of_int}
use cryptosentinel_ai.DiGraph.{DiGraph}
use cryptosentinel_ai.ThreatGraph.Defs.{
  WalletNode, TransactionEdge, WalletStats, ThreatGraph, add_transaction, get_wallet_stats,
}
use cryptosentinel_ai.RiskScorer.Defs.{emergency, ModelScores}
use cryptosentinel_ai.RiskScorer.Score.{Request, RiskAssessment, Event, score, is_threat}
use cryptosentinel_ai.AlertManager.Defs.{Runtime, AlertManager, add_or_update, same_tier}
use cryptosentinel_ai.CrossChain.Defs.{CrossChainAnalyzer, observe, cross_chain_risk_boost}
use cryptosentinel_ai.Drift.Detector.{Numpy, DriftDetector, observe_score, update_metrics}
use cryptosentinel_ai.Features.Defs.{
  TransactionFeatures, to_numpy, TxPayload, FeatureEngineer, extract,
}
use cryptosentinel_ai.Streaming.Producer.{KafkaClient, done, ThreatIntelProducer, produce_alert}

-- `Transaction` of src/blockchain/models.py.
pub record Tx : Type 0 where
  pub tx_hash : String
  pub block_number : ℕ
  pub block_timestamp : ℕ
  pub from_addr : String
  pub to_addr : Option String
  pub value_wei : ℕ
  pub gas : ℕ
  pub gas_price : ℕ
  pub input_data : String
  pub is_contract_creation : Bool
  pub is_contract_call : Bool
  pub chain_id : ℕ
  pub chain_name : String

module _ (fl : Float) where
  -- `value_eth`: Wei over 1e18
  unfoldable pub value_eth : Tx → fl.F
  value_eth tx = fl.div (of_int fl tx.value_wei) (fl.lit 1_000_000_000_000_000_000_000_000)

  -- `is_high_value`
  unfoldable pub is_high_value : Tx → Bool
  is_high_value tx = lt_f fl (fl.lit 1_000_000) (value_eth tx)

  -- The models; `none` is an exception, which the round catches.
  pub record Models : Type 0 where
    pub score_autoencoder : List fl.F → Option fl.F
    pub score_isolation_forest : List fl.F → Option fl.F
    pub score_with_gnn : List fl.F → Option fl.F
    pub score_live : List fl.F → Option fl.F

  -- The database: `is_available` and `save_alert`, which returns on any error.
  pub record Database : Type 1 where
    pub D : Type 0
    pub is_available : D → Bool
    pub save_alert : RiskAssessment fl → D → D

  -- What the components are parameters of.
  pub record Environment : Type 1 where
    pub rt : Runtime fl
    pub dg : DiGraph (WalletNode fl) (TransactionEdge fl)
    pub np : Numpy fl
    pub kc : KafkaClient
    pub db : Database
    pub lower : String → String
    pub log1p : fl.F → fl.F
    -- numpy's rounding to 32 bits
    pub float32 : fl.F → fl.F
    -- `json.dumps(assessment.to_dict())`
    pub dumps : RiskAssessment fl → String
    pub trust_live_model_scores : Bool
    pub weights : Dict fl.F

  module _ (env : Environment) where
    open env use {rt, dg, np, kc, db, lower, log1p, float32, dumps}

    pub record Pipeline : Type 0 where
      pub processed : ℕ
      pub features : FeatureEngineer fl
      pub graph : ThreatGraph fl dg
      pub analyzer : CrossChainAnalyzer
      pub events : List (Event fl)
      pub scanned : List String
      pub drift : DriftDetector fl np
      pub alerts : AlertManager fl rt
      pub producer : ThreatIntelProducer kc
      pub database : db.D

    -- `tx_payload`
    unfoldable pub tx_payload : Tx → TxPayload fl
    tx_payload tx = record {
      tx_hash = some tx.tx_hash;
      from_addr = some tx.from_addr;
      chain_name = some tx.chain_name;
      value_eth = some (value_eth tx);
      block_timestamp = some (of_int fl tx.block_timestamp);
      input_data = some tx.input_data;
      gas_price = some (of_int fl tx.gas_price);
      gas = some (of_int fl tx.gas);
      is_contract_call = some tx.is_contract_call;
      is_contract_creation = some tx.is_contract_creation;
    }

    -- `tx.to_addr or ""`
    abbrev receiver : Option String → String
    receiver none = ""
    receiver (some a) = a

    unfoldable pub add_to_graph : fl.F → Tx → Pipeline → Pipeline
    add_to_graph now tx s = record s {
      graph =
          add_transaction fl dg now
            (record {
              tx_hash = tx.tx_hash;
              from_addr = tx.from_addr;
              to_addr = receiver tx.to_addr;
              value_eth = value_eth tx;
              timestamp = of_int fl tx.block_timestamp;
              block_number = tx.block_number;
              is_contract_call = tx.is_contract_call;
              risk_score = fl.lit 0;
            })
            s.graph;
    }

    -- `min(1.0, total_deg / 100)`, or 0 where there are no statistics
    unfoldable pub graph_centrality : Option (WalletStats fl dg) → fl.F
    graph_centrality none = fl.lit 0
    graph_centrality (some stats) =
        min_f fl (fl.lit 1_000_000)
          (fl.div (of_int fl (stats.in_degree + stats.out_degree)) (fl.lit 100_000_000))

    -- The scores that the composite takes: the offline models only where they are trusted.
    unfoldable pub model_scores_of : Bool → fl.F → fl.F → fl.F → fl.F → fl.F → Bool → ModelScores fl
    model_scores_of trust gnn autoencoder isolation_forest live centrality velocity = record {
      gnn = if trust then gnn else live;
      autoencoder = if trust then autoencoder else fl.minus_one;
      isolation_forest = if trust then isolation_forest else fl.minus_one;
      graph_centrality = centrality;
      velocity_flag = velocity;
      known_bad_address = false;
    }

    -- `update_metrics` in every fiftieth round
    unfoldable pub measure : ℕ → DriftDetector fl np → DriftDetector fl np
    measure processed d = if eqb (processed % 50) 0 then (update_metrics fl np d).1 else d

    -- The severity, with `critical` or `high` as the topic
    unfoldable pub alert_severity : RiskAssessment fl → String
    alert_severity a = if same_tier a.action emergency then "critical" else "high"

    abbrev save_if_available : RiskAssessment fl → db.D → db.D
    save_if_available a d = if db.is_available d then db.save_alert a d else d

    -- A threat: the alert, its message, and the database where the message raised no exception.
    unfoldable pub handle_threat : fl.F → RiskAssessment fl → Pipeline → Pipeline
    handle_threat now a s =
        let (outcome, p) =
          produce_alert kc (some a.address) (dumps a) (alert_severity a) s.producer in
        let alerted = record s { alerts = (add_or_update fl rt now a s.alerts).1; producer = p } in
        elim outcome [
          | done ↦ record alerted { database = save_if_available a s.database }
          | _ ↦ alerted
        ]

    unfoldable pub of_assessment :
        fl.F → Tx → Option (RiskAssessment fl × List (Event fl)) → Pipeline → Pipeline
    of_assessment now tx none s = s
    of_assessment now tx (some (a, events)) s =
        let counted = record s {
          events = s.events ++ events;
          scanned = s.scanned ++ tx.chain_name ∷ [];
          drift = measure s.processed (observe_score fl np a.composite_score s.drift);
        } in
        if is_threat fl a then handle_threat now a counted else counted

    -- The request for the scorer, from what the graph and the analyzer hold of the sender.
    unfoldable pub request_of :
        Tx → TransactionFeatures fl → fl.F → fl.F → fl.F → fl.F → Pipeline → Request fl
    request_of tx f gnn autoencoder isolation_forest live s = record {
      address = tx.from_addr;
      tx_hash = tx.tx_hash;
      model_scores =
          model_scores_of env.trust_live_model_scores gnn autoencoder isolation_forest live
            (graph_centrality (get_wallet_stats fl dg tx.from_addr s.graph))
            (lt_f fl (fl.lit 20_000_000) f.tx_count_1h);
      value_eth = value_eth tx;
      cross_chain_boost = cross_chain_risk_boost fl tx.from_addr s.analyzer;
      live_mode = not env.trust_live_model_scores;
    }

    -- From the graph on, with the scores of the tabular models and of the GNN.
    unfoldable pub scored_round :
        fl.F → Tx → TransactionFeatures fl → Option fl.F → fl.F → fl.F → fl.F → Pipeline → Pipeline
    scored_round now tx f none gnn autoencoder isolation_forest s = s
    scored_round now tx f (some live) gnn autoencoder isolation_forest s =
        of_assessment now tx
          (score fl env.weights (request_of tx f gnn autoencoder isolation_forest live s) now) s

    unfoldable pub observe_chain : Tx → Pipeline → Pipeline
    observe_chain tx s = record s {
      analyzer = (observe lower tx.from_addr tx.to_addr tx.chain_name s.analyzer).1;
    }

    unfoldable pub model_round :
        Models
        → fl.F
        → Tx
        → TransactionFeatures fl
        → Option fl.F
        → Option fl.F
        → Option fl.F
        → Pipeline
        → Pipeline
    model_round models now tx f (some autoencoder) (some isolation_forest) (some gnn) s =
        scored_round now tx f (models.score_live (to_numpy fl float32 f)) gnn autoencoder
          isolation_forest (observe_chain tx (add_to_graph now tx s))
    model_round models now tx f _ _ _ s = s

    -- The round: an exception leaves what was written before it.
    unfoldable pub round_of : Models → fl.F → Tx → Pipeline → Pipeline
    round_of models now tx s =
        let (f, engineer) = extract fl log1p now (tx_payload tx) s.features in
        let x = to_numpy fl float32 f in
        model_round models now tx f (models.score_autoencoder x) (models.score_isolation_forest x)
          (models.score_with_gnn x) (record s { processed = s.processed + 1; features = engineer })

    -- The loop, over transactions with the times of their rounds.
    unfoldable pub scoring_worker : Models → List (fl.F × Tx) → Pipeline → Pipeline
    scoring_worker models [] s = s
    scoring_worker models ((now, tx) ∷ txs) s = scoring_worker models txs (round_of models now tx s)
