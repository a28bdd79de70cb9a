-- ===== src/ThreatGraph/Transactions.antt =====
-- `add_transaction` of src/graph/threat_graph.py: every node and every edge after it.
use text.Mathlib.Text.{◌==◌}
use cryptosentinel_ai.Prelude.{
  ◌+◌, ◌≡◌, refl, sym, ap, subst, ◌∙◌, ◌≢◌, String, Bool, ◌&&◌, none, some, if◌then◌else◌, arith,
  eq_iff, inl, inr, eq_self, eq_of_ne, String-cases,
}
use cryptosentinel_ai.Float.{Float}
use cryptosentinel_ai.DiGraph.{DiGraph}
use cryptosentinel_ai.ThreatGraph.Defs.{
  WalletNode, TransactionEdge, Transaction, ThreatGraph, new_wallet, sent, merged_edge, ensure_node,
  update_node, add_transaction, new_graph,
}
use cryptosentinel_ai.ThreatGraph.Nodes.{
  or_new, node-ensure_node, edge-ensure_node, node-update_node, edge-update_node,
}

module _ (fl : Float) (dg : DiGraph (WalletNode fl) (TransactionEdge fl)) where
  open dg use {G, node, edge, set_node, set_edge, node-set_edge, edge-set_edge}

  -- An edge joins two known wallets.
  pub record IsWellFormed (s : ThreatGraph fl dg) : Type 0 where
    pub ends :
        (a b : String) → edge s.graph a b ≢ none → (node s.graph a ≢ none) × (node s.graph b ≢ none)

  module _ (now : fl.F) (tx : Transaction fl) (s : ThreatGraph fl dg) (to : tx.to_addr ≢ "") where
    open tx use {from_addr, to_addr}

    abbrev known : G
    known = ensure_node fl dg now from_addr s.graph

    abbrev both : G
    both = ensure_node fl dg now to_addr known

    abbrev counted : G
    counted = update_node fl dg from_addr (sent fl now tx) both

    abbrev pub merged : TransactionEdge fl
    merged = merged_edge fl tx (edge s.graph from_addr to_addr)

    edge-counted : (a b : String) → edge counted a b ≡ edge s.graph a b
    edge-counted a b =
        edge-update_node fl dg from_addr (sent fl now tx) both a b
        ∙ edge-ensure_node fl dg now to_addr known a b
        ∙ edge-ensure_node fl dg now from_addr s.graph a b

    graph-add_transaction :
        (add_transaction fl dg now tx s).graph ≡ set_edge counted from_addr to_addr merged
    unfolding add_transaction
    graph-add_transaction =
        ap
          (λ (b : Bool).
            if b
            then known
            else set_edge counted from_addr to_addr
                (merged_edge fl tx (edge counted from_addr to_addr)))
          (eq_of_ne to_addr "" to)
        ∙ ap (λ e. set_edge counted from_addr to_addr (merged_edge fl tx e))
            (edge-counted from_addr to_addr)

    -- The sender and the receiver as `ensure_node` leaves them.
    abbrev pub sender : WalletNode fl
    sender = or_new (new_wallet fl now) (node s.graph from_addr)

    abbrev pub receiver : WalletNode fl
    receiver = or_new (new_wallet fl now) (node s.graph to_addr)

    node-counted :
        (c : String)
        → node counted c ≡ (
            if from_addr == c
            then some (sent fl now tx sender)
            else if to_addr == c
            then some receiver
            else node s.graph c)
    node-counted c = ground (
      arith,
      node-update_node fl dg from_addr (sent fl now tx) both c,
      node-ensure_node fl dg now to_addr known c,
      node-ensure_node fl dg now to_addr known from_addr,
      node-ensure_node fl dg now from_addr s.graph c,
      node-ensure_node fl dg now from_addr s.graph from_addr,
      node-ensure_node fl dg now from_addr s.graph to_addr,
      eq_iff from_addr c,
      eq_iff to_addr c,
      eq_iff from_addr to_addr,
      eq_iff to_addr from_addr,
      eq_self from_addr,
    )

    sender_known : node counted from_addr ≢ none
    sender_known e = ground (arith, node-counted from_addr, eq_self from_addr)

    receiver_known : node counted to_addr ≢ none
    receiver_known e = ground (arith, node-counted to_addr, eq_self to_addr)

    -- A transaction with a receiver changes two nodes and one edge: the sender, new or old, counts
    -- it (`sent`); a receiver that is no sender is there, new or as it was; the edge between them is
    -- new or takes the value in (`merged_edge`); every other node and edge is as it was.
    pub add_transaction_effect :
        let s' = add_transaction fl dg now tx s in
        ((c : String)
          → node s'.graph c ≡ (
              if from_addr == c
              then some (sent fl now tx sender)
              else if to_addr == c
              then some receiver
              else node s.graph c))
        × ((c d : String)
            → edge s'.graph c d
              ≡ (if from_addr == c && to_addr == d then some merged else edge s.graph c d))
    add_transaction_effect = (
      λ c.
          ap (λ g. node g c) graph-add_transaction
          ∙ node-set_edge counted from_addr to_addr c merged sender_known receiver_known
          ∙ node-counted c,
      λ c d.
          ap (λ g. edge g c d) graph-add_transaction
          ∙ edge-set_edge counted from_addr to_addr c d merged
          ∙ ap (λ o. if from_addr == c && to_addr == d then some merged else o) (edge-counted c d),
    )

  module _ (now : fl.F) (tx : Transaction fl) (s : ThreatGraph fl dg) where
    graph_alone :
        tx.to_addr ≡ ""
        → (add_transaction fl dg now tx s).graph ≡ ensure_node fl dg now tx.from_addr s.graph
    unfolding add_transaction
    graph_alone e = ground (arith, eq_iff tx.to_addr "")

    ensure_node_stays :
        (c : String)
        → node s.graph c ≢ none
        → node (ensure_node fl dg now tx.from_addr s.graph) c ≢ none
    ensure_node_stays c k e = ground (arith, node-ensure_node fl dg now tx.from_addr s.graph c)

    module _ (h : IsWellFormed s) (a b : String) where
      abbrev Ends : G → Type 0
      Ends g = edge g a b ≢ none → (node g a ≢ none) × (node g b ≢ none)

      Ends-alone : Ends (ensure_node fl dg now tx.from_addr s.graph)
      Ends-alone k =
          let (x, y) =
            h.ends a b (λ e. k (edge-ensure_node fl dg now tx.from_addr s.graph a b ∙ e)) in
          (ensure_node_stays a x, ensure_node_stays b y)

      Ends-after : tx.to_addr ≢ "" → Ends (add_transaction fl dg now tx s).graph
      Ends-after to k =
          let (nodes, edges) = add_transaction_effect now tx s to in
          let old = h.ends a b in
          (
            λ e. ground (
              arith,
              nodes a,
              edges a b,
              eq_iff tx.from_addr a,
              eq_iff tx.to_addr b,
              eq_iff tx.to_addr a,
              old,
            ),
            λ e. ground (
              arith,
              nodes b,
              edges a b,
              eq_iff tx.from_addr a,
              eq_iff tx.to_addr b,
              eq_iff tx.from_addr b,
              old,
            ),
          )

  -- A transaction keeps the graph well formed, with a receiver or without.
  pub add_transaction-IsWellFormed :
      (now : fl.F) (tx : Transaction fl) (s : ThreatGraph fl dg)
      → IsWellFormed s
      → IsWellFormed (add_transaction fl dg now tx s)
  add_transaction-IsWellFormed now tx s h = elim (String-cases tx.to_addr "") [
    | inl missing ↦ record {
      ends = λ a b.
          subst (Ends now tx s h a b) (sym (graph_alone now tx s missing))
            (Ends-alone now tx s h a b);
    }
    | inr to ↦ record { ends = λ a b. Ends-after now tx s h a b to }
  ]

  pub new_graph-IsWellFormed : IsWellFormed (new_graph fl dg)
  new_graph-IsWellFormed = record { ends = λ a b k. absurd (k (dg.edge-empty a b)) }

  -- A transaction that is added again is counted again: the sender's count goes up by two, and its
  -- edge holds the value once more.
  pub repeated_transaction :
      (now later : fl.F) (tx : Transaction fl) (s : ThreatGraph fl dg)
      → tx.to_addr ≢ ""
      → let s₁ = add_transaction fl dg now tx s in
        let s₂ = add_transaction fl dg later tx s₁ in
        (w : WalletNode fl) × (e : TransactionEdge fl) × (node s₂.graph tx.from_addr ≡ some w)
        × (edge s₂.graph tx.from_addr tx.to_addr ≡ some e)
        × (w.tx_count ≡ (or_new (new_wallet fl now) (node s.graph tx.from_addr)).tx_count + 2)
        × (e.value_eth
            ≡ fl.add
                (merged_edge fl tx (edge s.graph tx.from_addr tx.to_addr)).value_eth
                tx.value_eth)
  unfolding sent
  repeated_transaction now later tx s to =
      let s₁ = add_transaction fl dg now tx s in
      let (n₁, e₁) = add_transaction_effect now tx s to in
      let (n₂, e₂) = add_transaction_effect later tx s₁ to in
      (
        sent fl later tx (sent fl now tx (or_new (new_wallet fl now) (node s.graph tx.from_addr))),
        merged_edge fl tx (some (merged_edge fl tx (edge s.graph tx.from_addr tx.to_addr))),
        ground (arith, n₁ tx.from_addr, n₂ tx.from_addr, eq_self tx.from_addr),
        ground (
          arith,
          e₁ tx.from_addr tx.to_addr,
          e₂ tx.from_addr tx.to_addr,
          eq_self tx.from_addr,
          eq_self tx.to_addr,
        ),
        omega arith,
        (unfold merged_edge in refl),
      )
