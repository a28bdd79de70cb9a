-- ===== src/ThreatGraph/Trace/Peel.antt =====
-- `peel_back` of src/graph/threat_graph.py. A set is a list with no order that the code relies on.
use text.Mathlib.Text.{◌==◌}
use cryptosentinel_ai.Prelude.{
  ℕ, zero, suc, String, Bool, not, ◌&&◌, none, some, List, [], ◌∷◌, gather, if◌then◌else◌,
}
use cryptosentinel_ai.Float.{Float}
use cryptosentinel_ai.DiGraph.{DiGraph}
use cryptosentinel_ai.ThreatGraph.Defs.{WalletNode, TransactionEdge, ThreatGraph}
use cryptosentinel_ai.ThreatGraph.Paths.Search.{contains}

-- `pred not in ancestors and pred != address`
abbrev pub is_new : String → List String → String → Bool
is_new address ancestors p = not (contains p ancestors) && not (p == address)

-- The loops over the predecessors: the ancestors, and the next frontier.
unfoldable pub visit : String → List String → List String × List String → List String × List String
visit address [] s = s
visit address (p ∷ ps) (ancestors, next) =
    visit address ps
      (if is_new address ancestors p then (p ∷ ancestors, p ∷ next) else (ancestors, next))

module _ (fl : Float) (dg : DiGraph (WalletNode fl) (TransactionEdge fl)) where
  open dg use {G, node, predecessors}

  -- The loop over the depths, which ends early when the frontier is empty.
  unfoldable pub peel : String → G → ℕ → List String → List String → List String
  peel address g zero frontier ancestors = ancestors
  peel address g (suc depth) frontier ancestors =
      let (found, next) = visit address (gather (predecessors g) frontier) (ancestors, []) in
      let deeper = peel address g depth next found in elim next [ [] ↦ found | _ ∷ _ ↦ deeper ]

  unfoldable pub peel_back : String → ℕ → ThreatGraph fl dg → List String
  peel_back address max_depth s = elim (node s.graph address) [
    | none ↦ []
    | some _ ↦ peel address s.graph max_depth (address ∷ []) []
  ]
