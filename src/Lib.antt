-- ===== src/Lib.antt =====
-- A model of the core of CryptoSentinel: the stream of transactions, the features computed of them, the
-- graph of wallets and transactions, the risk scorer, the cross-chain analyzer, the store of alerts,
-- the scanner of contracts, and the authentication and the rate limiter of its API.
--
-- How the parts interact. Transactions read from the chain are produced to Kafka, consumed, turned into
-- features for the models, and added to the threat graph; the graph's
-- union-find names the clusters of wallets; an analyst flags a wallet, and the graph passes half of
-- the risk on to those who paid it and searches the paths the money took. The risk scorer turns the
-- scores of the models, with a boost for cross-chain behaviour, into one number, and the number
-- into an action tier. The alert manager keeps the assessments by address, and evicts the least
-- urgent. The rate limiter and the validation of tokens stand in front of
-- the API that asks for all this, and for scans of contracts.
--
--   Prelude       names of the libraries, Boolean tests and lemmas on lists
--   Dict          Python's dict, as an association list in the order of insertion
--   Float         Python's float, as an interface: an order by `place` in the natural numbers,
--                 literals in millionths, sums, products and quotients, and the laws of rounding
--                 arithmetic that the code relies on; a value is finite. Float/Fixed has numbers that keep them.
--   DiGraph       networkx's DiGraph, which is not part of the repository, as an interface with the
--                 documented effect of each method. DiGraph/Table has a graph that keeps them.
--   UnionFind     class UnionFind of src/graph/threat_graph.py: `find`, `union`, `same_cluster` and
--                 `get_clusters` are functions from the state to an optional result and new state
--   ThreatGraph   class ThreatGraph of src/graph/threat_graph.py: `add_transaction`, `flag_address`,
--                 `get_wallet_stats`, `cluster_wallets_union_find` in ThreatGraph/Owners,
--                 `find_laundering_paths` in ThreatGraph/Paths, `peel_back` in ThreatGraph/Trace,
--                 `detect_round_trips` in ThreatGraph/RoundTrips and `propagate_cluster_risk` in
--                 ThreatGraph/ClusterRisk
--   RiskScorer    src/response/risk_scorer.py: `compute_action_tier`, `compute_confidence` and
--                 `CompositeRiskScorer.score` with the metrics it writes and its explanation
--   AlertManager  src/response/alert_manager.py: `add_or_update`, `acknowledge`, the eviction, the lists
--                 and the statistics, with theorems in AlertManager/Evict, Update and Dedup.
--                 `math.log1p`, powers and `heapq.heappush` are parameters.
--   CrossChain    src/graph/cross_chain.py: `observe`, which counts the chains and bridges of an address,
--                 and the risk boost that `score` takes. `str.lower` is a parameter.
--   RateLimiter   src/api/middleware/rate_limiter.py: `_get_limit`, `_check_rate_limit` and
--                 `dispatch`; the clock and the decoded token are arguments
--   Streaming     src/streaming/producer.py, its buffer and its drain (Streaming/Producer, Buffer), and
--                 src/streaming/consumer.py, its loop and its commits (Streaming/Consumer, Commits,
--                 Skipped).
--                 The clients of confluent_kafka are parameters, and positions are per partition.
--   Features      src/ml/tabular/feature_engineer.py: `extract` and the history of addresses (Features/Defs,
--                 History); src/ml/tabular/vectorized_features.py: velocity and bursts (Features/Velocity)
--   Scanner       src/scanner/rule_engine.py: regular expressions (Scanner/Text, Patterns), the results
--                 (Scanner/Report) and the six checks (Scanner/Rules), with what they find in Scanner/Found and
--                 Complete; src/scanner/ml_classifier.py (Scanner/Bytecode, Opcodes);
--                 src/scanner/contract_scanner.py (Scanner/Contract, Risk)
--   Drift         src/monitoring/drift_detector.py: the window, the index and the gauges (Drift/Detector), and
--                 what the window holds (Drift/Window). numpy is a parameter.
--   Backtest      src/backtesting/backtester.py: confusion counts and measures at a threshold (Backtest/Defs), and
--                 what a higher threshold does to them (Backtest/Threshold)
--   Pipeline      src/pipeline/scoring_pipeline.py: a round of `scoring_worker` on the components above
--                 (Pipeline/Worker), what it keeps (Pipeline/Run) and what it does not depend on
--                 (Pipeline/Offline). The models and the database are parameters, as are those
--                 of the components.
--   Auth          src/api/token_store.py (Auth/Store), src/api/auth.py (Auth/Defs) and src/api/routes/auth.py
--                 (Auth/Routes), with theorems in Auth/Access and Revocation. redis and jose are parameters.
--
-- Fuel. The recursion of `find` has as fuel the greatest rank and two more, counted from the state
-- itself. The loop of `find_laundering_paths` counts its rounds by fuel that the caller gives; the
-- bound `rounds` of ThreatGraph/Paths/Complete is one for a path that may grow no more, and one more
-- than `width` times the bound of a path an edge longer for any other. The loop over bytecode has a
-- round for each byte and one more. `none` is fuel that ran out, and the theorems on the loops
-- say that they return.
--
-- Not modelled: Louvain communities, which a third-party package finds; logs; the interleaving of two
-- workers and the set-up of the pipeline; the trained models, the database, the dashboard and the
-- set-up of services; the vector of bytecode features for a trained classifier, which the scan does
-- not use; statistics that numpy alone computes; infinities and NaN.
pub mod Prelude
pub mod Dict
pub mod Float
pub mod DiGraph
pub mod UnionFind
pub mod ThreatGraph
pub mod RiskScorer
pub mod RateLimiter
pub mod CrossChain
pub mod AlertManager
pub mod Streaming
pub mod Auth
pub mod Features
pub mod Scanner
pub mod Drift
pub mod Pipeline
pub mod Backtest
