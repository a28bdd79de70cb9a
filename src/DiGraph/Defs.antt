-- ===== src/DiGraph/Defs.antt =====
-- The operations and laws of networkx's `DiGraph`.
use text.Mathlib.Text.{◌==◌}
use cryptosentinel_ai.Prelude.{
  ℕ, ◌≡◌, ◌≢◌, ◌↔◌, String, ◌&&◌, Option, none, some, List, In, if◌then◌else◌,
}

pub record DiGraph (N E : Type 0) : Type 1 where
  pub G : Type 0
  -- `nx.DiGraph()`
  pub empty : G
  -- `G.nodes[a]`, `none` where `not G.has_node(a)`
  pub node : G → String → Option N
  -- `G[a][b]`, `none` where `not G.has_edge(a, b)`
  pub edge : G → String → String → Option E
  -- `G.add_node(a, **n)`, and a write to the attributes of a node
  pub set_node : G → String → N → G
  -- `G.add_edge(a, b, **e)`, and a write to the attributes of an edge
  pub set_edge : G → String → String → E → G
  pub successors : G → String → List String
  pub predecessors : G → String → List String
  -- `G.number_of_nodes()`, `G.number_of_edges()`
  pub number_of_nodes : G → ℕ
  pub number_of_edges : G → ℕ
  pub node-empty : (a : String) → node empty a ≡ none
  pub edge-empty : (a b : String) → edge empty a b ≡ none
  pub node-set_node :
      (g : G) (a b : String) (n : N)
      → node (set_node g a n) b ≡ (if a == b then some n else node g b)
  pub edge-set_node : (g : G) (a b c : String) (n : N) → edge (set_node g a n) b c ≡ edge g b c
  pub node-set_edge :
      (g : G) (a b c : String) (e : E)
      → node g a ≢ none
      → node g b ≢ none
      → node (set_edge g a b e) c ≡ node g c
  pub edge-set_edge :
      (g : G) (a b c d : String) (e : E)
      → edge (set_edge g a b e) c d ≡ (if a == c && b == d then some e else edge g c d)
  pub In-successors : (g : G) (a b : String) → In b (successors g a) ↔ (edge g a b ≢ none)
  pub In-predecessors : (g : G) (a b : String) → In b (predecessors g a) ↔ (edge g b a ≢ none)
