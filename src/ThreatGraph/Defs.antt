-- ===== src/ThreatGraph/Defs.antt =====
-- The state of `ThreatGraph` (src/graph/threat_graph.py), and the methods that write one wallet or
-- one edge. `_risk_cache` is never used by the code. The clock is an argument.
use text.Mathlib.Text.{◌==◌}
use cryptosentinel_ai.Prelude.{
  ℕ, ◌+◌, String, Bool, true, false, Option, none, some, List, [], ◌∷◌, length, take, if◌then◌else◌,
}
use cryptosentinel_ai.Float.{Float, lt_f, max_f}
use cryptosentinel_ai.DiGraph.{DiGraph}
use cryptosentinel_ai.UnionFind.Defs.{UnionFind, init}

module _ (fl : Float) where
  open fl use {F, lit, add, mul}

  -- `WalletNode`, the attributes of a node.
  pub record WalletNode : Type 0 where
    pub risk_score : F
    pub cluster_id : Option ℕ
    pub entity_label : String
    pub first_seen : F
    pub last_seen : F
    pub tx_count : ℕ
    pub total_value_eth : F
    pub is_flagged : Bool

  -- `TransactionEdge`, the attributes of an edge.
  pub record TransactionEdge : Type 0 where
    pub tx_hash : String
    pub value_eth : F
    pub timestamp : F
    pub block_number : ℕ
    pub is_contract_call : Bool

  -- The attributes with which `add_transaction` adds a node.
  unfoldable pub new_wallet : F → WalletNode
  new_wallet now = record {
    risk_score = lit 0;
    cluster_id = none;
    entity_label = "unknown";
    first_seen = now;
    last_seen = now;
    tx_count = 0;
    total_value_eth = lit 0;
    is_flagged = false;
  }

  -- The arguments of `add_transaction`.
  pub record Transaction : Type 0 where
    pub tx_hash : String
    pub from_addr : String
    pub to_addr : String
    pub value_eth : F
    pub timestamp : F
    pub block_number : ℕ
    pub is_contract_call : Bool
    pub risk_score : F

  -- The sender's node after a transaction: `last_seen`, `tx_count`, `total_value_eth`, and the
  -- greater of the two risks where the transaction has one.
  unfoldable pub sent : F → Transaction → WalletNode → WalletNode
  sent now tx w = record w {
    last_seen = now;
    tx_count = w.tx_count + 1;
    total_value_eth = add w.total_value_eth tx.value_eth;
    risk_score =
        if lt_f fl (lit 0) tx.risk_score then max_f fl w.risk_score tx.risk_score else w.risk_score;
  }

  unfoldable pub new_edge : Transaction → TransactionEdge
  new_edge tx = record {
    tx_hash = tx.tx_hash;
    value_eth = tx.value_eth;
    timestamp = tx.timestamp;
    block_number = tx.block_number;
    is_contract_call = tx.is_contract_call;
  }

  -- An edge that is there takes the value and the time of the new transaction.
  unfoldable pub merged_edge : Transaction → Option TransactionEdge → TransactionEdge
  unfolding new_edge
  merged_edge tx none = new_edge tx
  merged_edge tx (some e) = record e {
    value_eth = add e.value_eth tx.value_eth;
    timestamp = tx.timestamp;
  }

  module _ (dg : DiGraph WalletNode TransactionEdge) where
    open dg use {G, node, edge, set_node, set_edge, successors, predecessors}

    pub record ThreatGraph : Type 0 where
      pub graph : G
      pub union_find : UnionFind

    -- `__init__`
    abbrev pub new_graph : ThreatGraph
    new_graph = record { graph = dg.empty; union_find = init }

    -- `if not self.G.has_node(a): self.G.add_node(a, ...)`
    unfoldable pub ensure_node : F → String → G → G
    unfolding new_wallet
    ensure_node now a g = elim (node g a) [ none ↦ set_node g a (new_wallet now) | some _ ↦ g ]

    -- Writes to `self.G.nodes[a][...]`; every caller has tested that the node is there.
    unfoldable pub update_node : String → (WalletNode → WalletNode) → G → G
    update_node a f g = elim (node g a) [ none ↦ g | some w ↦ set_node g a (f w) ]

    -- `add_transaction`, less the two Prometheus gauges.
    unfoldable pub add_transaction : F → Transaction → ThreatGraph → ThreatGraph
    add_transaction now tx s =
        let known = ensure_node now tx.from_addr s.graph in
        let both = ensure_node now tx.to_addr known in
        let counted = update_node tx.from_addr (sent now tx) both in
        let edged =
          set_edge counted tx.from_addr tx.to_addr
            (merged_edge tx (edge counted tx.from_addr tx.to_addr)) in
        record s { graph = if tx.to_addr == "" then known else edged }

    abbrev pub with_risk : F → WalletNode → WalletNode
    with_risk risk w = record w { risk_score = risk }

    -- `max(current, propagated)`
    abbrev pub raise_to : F → WalletNode → WalletNode
    raise_to risk w = record w { risk_score = max_f fl w.risk_score risk }

    -- `for a in addresses: self.G.nodes[a]["risk_score"] = max(...)`
    unfoldable pub raise_all : F → List String → G → G
    raise_all risk [] g = g
    raise_all risk (a ∷ addresses) g = raise_all risk addresses (update_node a (raise_to risk) g)

    -- `flag_address`
    unfoldable pub flag_address : String → F → ThreatGraph → ThreatGraph
    flag_address address risk s = elim (node s.graph address) [
      | none ↦ s
      | some w ↦
          let flagged =
            set_node s.graph address (record w { is_flagged = true; risk_score = risk }) in
          record s {
            graph = raise_all (mul risk (lit 500_000)) (predecessors flagged address) flagged;
          }
    ]

    -- `get_wallet_stats`; `none` is the empty dict.
    pub record WalletStats : Type 0 where
      pub address : String
      pub risk_score : F
      pub cluster_id : Option ℕ
      pub entity_label : String
      pub tx_count : ℕ
      pub total_value_eth : F
      pub is_flagged : Bool
      pub in_degree : ℕ
      pub out_degree : ℕ
      pub neighbors : List String

    unfoldable pub get_wallet_stats : String → ThreatGraph → Option WalletStats
    get_wallet_stats address s = elim (node s.graph address) [
      | none ↦ none
      | some w ↦ some (record {
        address = address;
        risk_score = w.risk_score;
        cluster_id = w.cluster_id;
        entity_label = w.entity_label;
        tx_count = w.tx_count;
        total_value_eth = w.total_value_eth;
        is_flagged = w.is_flagged;
        in_degree = length (predecessors s.graph address);
        out_degree = length (successors s.graph address);
        neighbors = take 10 (successors s.graph address);
      })
    ]
