-- ===== src/ThreatGraph/Paths/Limit.antt =====
-- Where the `max_paths` test of `find_laundering_paths` (src/graph/threat_graph.py) stands: a path of
-- full length is recorded, and the `continue` after it skips the test.
use cryptosentinel_ai.Prelude.{
  ℕ, zero, suc, ◌+◌, ◌≤◌, ◌≡◌, refl, sym, ap, ◌∙◌, ◌≢◌, inl, inr, String, not, false, none, some,
  List, [], ◌∷◌, ◌++◌, map, length, leb, keep, length-keep, arith, Option-cases,
}
use cryptosentinel_ai.Float.{Float}
use cryptosentinel_ai.DiGraph.{DiGraph}
use cryptosentinel_ai.ThreatGraph.Defs.{WalletNode, TransactionEdge, ThreatGraph}
use cryptosentinel_ai.ThreatGraph.Paths.Search.{
  contains, extensions, record_path, search, find_laundering_paths,
}
use cryptosentinel_ai.ThreatGraph.Paths.Sound.{search_on}

append-assoc_one :
    {A : Type 0} (xs : List A) (x : A) (ys : List A) → (xs ++ x ∷ []) ++ ys ≡ xs ++ x ∷ ys
append-assoc_one [] x ys = refl
append-assoc_one (z ∷ xs) x ys = ap (λ t. z ∷ t) (append-assoc_one xs x ys)

append-nil : {A : Type 0} (xs : List A) → xs ++ [] ≡ xs
append-nil [] = refl
append-nil (x ∷ xs) = ap (λ t. x ∷ t) (append-nil xs)

not_full : (m : ℕ) → leb (suc m) 0 ≡ false
not_full m = ground arith

module _ (fl : Float) (dg : DiGraph (WalletNode fl) (TransactionEdge fl)) where
  -- A frontier of paths of one edge is recorded whole when `max_depth` is 1.
  search_pairs :
      (g : dg.G) (m : ℕ) (a : String) (ns : List String) (fuel : ℕ) (paths : List (List String))
      → length ns ≤ fuel
      → search fl dg g 1 m fuel (map (λ n. a ∷ n ∷ []) ns) paths
        ≡ some (paths ++ map (λ n. a ∷ n ∷ []) ns)
  unfolding search record_path
  search_pairs g m a [] fuel paths h = ap some (sym (append-nil paths))
  search_pairs g m a (n ∷ ns) zero paths h = absurd (omega (arith, h))
  search_pairs g m a (n ∷ ns) (suc fuel) paths h =
      search_pairs g m a ns fuel (paths ++ (a ∷ n ∷ []) ∷ []) (omega (arith, h))
      ∙ ap some (append-assoc_one paths (a ∷ n ∷ []) (map (λ k. a ∷ k ∷ []) ns))

  -- With a `max_depth` of 1, every `max_paths` from 1 on and enough fuel, `find_laundering_paths`
  -- on a wallet of the graph returns the paths to all its successors but itself, however many.
  pub one_hop_unlimited :
      (s : ThreatGraph fl dg) (source : String) (m fuel : ℕ)
      → dg.node s.graph source ≢ none
      → 1 ≤ m
      → 1 + length (dg.successors s.graph source) ≤ fuel
      → find_laundering_paths fl dg fuel source 1 m s
        ≡ some (extensions (source ∷ []) (dg.successors s.graph source))
  unfolding find_laundering_paths record_path extensions
  one_hop_unlimited s source m zero known pos enough = absurd (omega (arith, enough))
  one_hop_unlimited s source zero (suc fuel) known pos enough = absurd (omega (arith, pos))
  one_hop_unlimited s source (suc m) (suc fuel) known pos enough =
      elim (Option-cases (dg.node s.graph source)) [
        | inl absent ↦ absurd (known absent)
        | inr (v, e) ↦
            let fresh = keep (λ n. not (contains n (source ∷ []))) (dg.successors s.graph source) in
            rw (e, find_laundering_paths)
              (search_on fl dg s.graph 1 (suc m) fuel (source ∷ []) [] [] refl (not_full m)
                ∙ search_pairs s.graph (suc m) source fresh fuel [] (
                    omega (
                      arith,
                      enough,
                      length-keep (λ n. not (contains n (source ∷ [])))
                          (dg.successors s.graph source),
                    )))
      ]
