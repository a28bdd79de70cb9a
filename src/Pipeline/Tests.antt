-- ===== src/Pipeline/Tests.antt =====
-- Runs of src/pipeline/scoring_pipeline.py, and its theorems there.
use cryptosentinel_ai.Prelude.{
  ℕ, suc, ◌≡◌, refl, true, false, none, some, List, [], ◌∷◌, ◌++◌, length, arith,
}
use cryptosentinel_ai.Float.Fixed.{fixed}
use cryptosentinel_ai.DiGraph.{DiGraph}
use cryptosentinel_ai.DiGraph.Table.{table}
use cryptosentinel_ai.ThreatGraph.Defs.{WalletNode, TransactionEdge, new_graph}
use cryptosentinel_ai.ThreatGraph.Transactions.{new_graph-IsWellFormed}
use cryptosentinel_ai.RiskScorer.Defs.{ensemble_weights}
use cryptosentinel_ai.AlertManager.Defs.{new_manager}
use cryptosentinel_ai.CrossChain.Defs.{new_analyzer}
use cryptosentinel_ai.Drift.Detector.{new_detector}
use cryptosentinel_ai.Streaming.Producer.{
  Message, done, kafka_exception, other_exception, KafkaClient,
}
use cryptosentinel_ai.Pipeline.Worker.{Tx, Models, Environment, Pipeline, scoring_worker}
use cryptosentinel_ai.Pipeline.Run.{IsSound, scoring_worker-IsSound}
use cryptosentinel_ai.Pipeline.Offline.{models_with, offline_models_ignored}

abbrev graphs : DiGraph (WalletNode fixed) (TransactionEdge fixed)
graphs = table (WalletNode fixed) (TransactionEdge fixed)

done-ne_kafka : done ≡ kafka_exception → ⊥
done-ne_kafka e = cc

done-ne_other : done ≡ other_exception → ⊥
done-ne_other e = cc

-- A client that takes every message.
abbrev kafka : KafkaClient
kafka = record {
  K = List Message;
  produce = λ m k. (done, k ++ m ∷ []);
  poll = λ k. (done, k);
  handed_over = λ k. k;
  produce_done = λ m k e. refl;
  produce_kafka_exception = λ m k e. absurd (done-ne_kafka e);
  produce_other_exception = λ m k e. absurd (done-ne_other e);
  poll_keeps = λ k. refl;
}

abbrev setting : Environment fixed
setting = record {
  rt = record {
    log1p = λ x. x;
    power = λ x y. x;
    heappush = λ queue n. n ∷ queue;
    length-heappush = λ queue n. refl;
  };
  dg = graphs;
  np = record { histogram = λ scores edges. length scores ∷ []; log = λ x. x; sum = λ xs. 1 };
  kc = kafka;
  db = record { D = ℕ; is_available = λ d. true; save_alert = λ a d. suc d };
  lower = λ s. s;
  log1p = λ x. x;
  float32 = λ x. x;
  dumps = λ a. a.address;
  trust_live_model_scores = false;
  weights = ensemble_weights fixed;
}

abbrev fresh : Pipeline fixed setting
fresh = record {
  processed = 0;
  features = record { history_window = 3600; address_history = [] };
  graph = new_graph fixed graphs;
  analyzer = new_analyzer;
  events = [];
  scanned = [];
  drift = new_detector fixed setting.np 500 100 none;
  alerts = new_manager fixed setting.rt 1000;
  producer = record { producer = []; buffer = [] };
  database = 0;
}

abbrev payment : Tx
payment = record {
  tx_hash = "0x1";
  block_number = 7;
  block_timestamp = 1000;
  from_addr = "a";
  to_addr = some "b";
  value_wei = 2_000_000_000_000_000_000;
  gas = 21_000;
  gas_price = 1_000_000_000;
  input_data = "0x";
  is_contract_creation = false;
  is_contract_call = false;
  chain_id = 1;
  chain_name = "ethereum-mainnet";
}

abbrev traffic : List (ℕ × Tx)
traffic = (1_000_000_001, payment) ∷ (1_001_000_001, payment) ∷ []

-- A live model that finds every transaction illicit.
abbrev models : Models fixed
models = models_with fixed (λ x. 1) (λ x. 1) (λ x. 1) (λ x. some 1_000_001)

fresh-IsSound : IsSound fixed setting fresh
fresh-IsSound = record {
  edges_join = new_graph-IsWellFormed fixed graphs;
  alerts_distinct = record { distinct = tt; queued = refl };
  window_bounded = omega arith;
}

scoring_worker-IsSound_example :
    IsSound fixed setting (scoring_worker fixed setting models traffic fresh)
scoring_worker-IsSound_example =
    scoring_worker-IsSound fixed setting models traffic fresh fresh-IsSound

offline_models_ignored_example :
    scoring_worker fixed setting models traffic fresh
    ≡ scoring_worker fixed setting
        (models_with fixed (λ x. 1_000_001) (λ x. 1_000_001) (λ x. 1_000_001) (λ x. some 1_000_001))
        traffic
        fresh
offline_models_ignored_example =
    offline_models_ignored fixed setting refl (λ x. 1) (λ x. 1) (λ x. 1) (λ x. 1_000_001)
      (λ x. 1_000_001) (λ x. 1_000_001) (λ x. some 1_000_001) traffic fresh
