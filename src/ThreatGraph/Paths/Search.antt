-- ===== src/ThreatGraph/Paths/Search.antt =====
-- The search of `find_laundering_paths` (src/graph/threat_graph.py). Each round of its `while` takes
-- one path off the frontier; the rounds are counted by fuel.
use text.Mathlib.Text.{◌==◌}
use cryptosentinel_ai.Prelude.{
  ℕ, zero, suc, ◌+◌, String, Bool, true, false, not, ◌||◌, Option, none, some, List, [], ◌∷◌, ◌++◌,
  map, length, keep, ltb, leb,
}
use cryptosentinel_ai.Float.{Float}
use cryptosentinel_ai.DiGraph.{DiGraph}
use cryptosentinel_ai.ThreatGraph.Defs.{WalletNode, TransactionEdge, ThreatGraph}

-- `x in xs`
abbrev pub contains : String → List String → Bool
contains x [] = false
contains x (y ∷ ys) = x == y || contains x ys

-- `path[-1]`; no path is empty.
abbrev pub last : List String → String
last [] = ""
last (x ∷ []) = x
last (x ∷ y ∷ ys) = last (y ∷ ys)

-- `[path + [n] for n in neighbors if n not in path]`
unfoldable pub extensions : List String → List String → List (List String)
extensions path neighbors = map (λ n. path ++ n ∷ []) (keep (λ n. not (contains n path)) neighbors)

module _ (fl : Float) (dg : DiGraph (WalletNode fl) (TransactionEdge fl)) where
  open dg use {G, node, successors}

  -- `if len(current_path) > 1: paths.append(current_path)`
  unfoldable pub record_path : List String → List (List String) → List (List String)
  record_path path paths = elim (ltb 1 (length path)) [ true ↦ paths ++ path ∷ [] | false ↦ paths ]

  -- The `while frontier` loop; `none` is fuel that ran out.
  unfoldable pub search :
      G → ℕ → ℕ → ℕ → List (List String) → List (List String) → Option (List (List String))
  search g max_depth max_paths fuel [] paths = some paths
  search g max_depth max_paths zero (path ∷ frontier) paths = none
  search g max_depth max_paths (suc fuel) (path ∷ frontier) paths =
      let found = record_path path paths in
      elim (leb (max_depth + 1) (length path)) [
        | true ↦ search g max_depth max_paths fuel frontier found
        | false ↦ elim (leb max_paths (length found)) [
          | true ↦ some found
          | false ↦
              search g max_depth max_paths fuel
                (frontier ++ extensions path (successors g (last path))) found
        ]
      ]

  -- `find_laundering_paths`
  unfoldable pub find_laundering_paths :
      ℕ → String → ℕ → ℕ → ThreatGraph fl dg → Option (List (List String))
  find_laundering_paths fuel source max_depth max_paths s = elim (node s.graph source) [
    | none ↦ some []
    | some _ ↦ search s.graph max_depth max_paths fuel ((source ∷ []) ∷ []) []
  ]
