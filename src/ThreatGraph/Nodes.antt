-- ===== src/ThreatGraph/Nodes.antt =====
-- What the small writes of src/graph/threat_graph.py do to the nodes and the edges.
use text.Mathlib.Text.{◌==◌}
use cryptosentinel_ai.Prelude.{
  ◌≡◌, String, Option, none, some, if◌then◌else◌, arith, eq_iff, Option-cases, inl, inr,
}
use cryptosentinel_ai.Float.{Float}
use cryptosentinel_ai.DiGraph.{DiGraph}
use cryptosentinel_ai.ThreatGraph.Defs.{
  WalletNode, TransactionEdge, new_wallet, ensure_node, update_node,
}

-- The node that is there, or a new one.
abbrev pub or_new : {A : Type 0} → A → Option A → A
or_new new none = new
or_new new (some a) = a

abbrev pub on_some : {A B : Type 0} → (A → B) → Option A → Option B
on_some f none = none
on_some f (some a) = some (f a)

module _ (fl : Float) (dg : DiGraph (WalletNode fl) (TransactionEdge fl)) where
  open dg use {G, node, edge, set_node, node-set_node, edge-set_node}

  module _ (now : fl.F) (a : String) (g : G) where
    pub node-ensure_node :
        (b : String)
        → node (ensure_node fl dg now a g) b
          ≡ (if a == b then some (or_new (new_wallet fl now) (node g a)) else node g b)
    unfolding ensure_node
    node-ensure_node b = ground (arith, node-set_node g a b (new_wallet fl now), eq_iff a b)

    pub edge-ensure_node : (b c : String) → edge (ensure_node fl dg now a g) b c ≡ edge g b c
    unfolding ensure_node
    edge-ensure_node b c = ground (arith, edge-set_node g a b c (new_wallet fl now))

  module _ (a : String) (f : WalletNode fl → WalletNode fl) (g : G) where
    pub node-update_node :
        (b : String)
        → node (update_node fl dg a f g) b ≡ (if a == b then on_some f (node g a) else node g b)
    unfolding update_node
    node-update_node b = elim (Option-cases (node g a)) [
      | inl missing ↦ ground (arith, eq_iff a b)
      | inr (w, known) ↦ ground (arith, node-set_node g a b (f w))
    ]

    pub edge-update_node : (b c : String) → edge (update_node fl dg a f g) b c ≡ edge g b c
    unfolding update_node
    edge-update_node b c = elim (Option-cases (node g a)) [
      | inl missing ↦ ground arith
      | inr (w, known) ↦ ground (arith, edge-set_node g a b c (f w))
    ]
