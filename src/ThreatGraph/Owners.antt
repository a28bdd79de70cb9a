-- ===== src/ThreatGraph/Owners.antt =====
-- `cluster_wallets_union_find` of src/graph/threat_graph.py: inputs of one transaction have one owner.
use cryptosentinel_ai.Prelude.{
  ℕ, ◌+◌, ◌≡◌, refl, sym, ap, subst, ◌∙◌, ◌↔◌, inl, inr, String, Option, some, List, [], ◌∷◌, In,
}
use cryptosentinel_ai.Dict.{Dict, keys}
use cryptosentinel_ai.Float.{Float}
use cryptosentinel_ai.DiGraph.{DiGraph}
use cryptosentinel_ai.UnionFind.Defs.{UnionFind, union, get_clusters, ◌>>=◌}
use cryptosentinel_ai.UnionFind.Roots.{Root}
use cryptosentinel_ai.UnionFind.Invariant.{par, IsValid}
use cryptosentinel_ai.UnionFind.Union.{SameRoot, find_keeps_clusters}
use cryptosentinel_ai.UnionFind.Merge.{union_joins}
use cryptosentinel_ai.UnionFind.Clusters.{InCluster, get_clusters_groups}
use cryptosentinel_ai.ThreatGraph.Defs.{WalletNode, TransactionEdge, ThreatGraph, update_node}

-- `for i in range(1, len(inputs)): union(inputs[0], inputs[i])`
unfoldable pub union_inputs : String → List String → UnionFind → Option UnionFind
union_inputs first [] u = some u
union_inputs first (x ∷ xs) u = union first x u >>= λ v. union_inputs first xs v

-- The loop over the transactions; one of fewer than two inputs unites nothing.
unfoldable pub union_all : List (List String) → UnionFind → Option UnionFind
union_all [] u = some u
union_all ([] ∷ transactions) u = union_all transactions u
union_all ((first ∷ inputs) ∷ transactions) u =
    union_inputs first inputs u >>= λ v. union_all transactions v

module _ (fl : Float) (dg : DiGraph (WalletNode fl) (TransactionEdge fl)) where
  abbrev with_cluster : ℕ → WalletNode fl → WalletNode fl
  with_cluster n w = record w { cluster_id = some n }

  unfoldable pub mark_members : ℕ → List String → dg.G → dg.G
  mark_members n [] g = g
  mark_members n (a ∷ members) g = mark_members n members (update_node fl dg a (with_cluster n) g)

  -- `for cluster_id, (root, members) in enumerate(clusters.items())`
  unfoldable pub number_clusters : ℕ → Dict (List String) → dg.G → dg.G
  number_clusters n [] g = g
  number_clusters n ((root, members) ∷ clusters) g =
      number_clusters (n + 1) clusters (mark_members n members g)

  unfoldable pub cluster_wallets_union_find :
      List (List String) → ThreatGraph fl dg → Option (Dict (List String) × ThreatGraph fl dg)
  cluster_wallets_union_find transactions s = union_all transactions s.union_find >>= λ u.
      get_clusters u >>= λ found.
      some (found.0, record { graph = number_clusters 0 found.0 s.graph; union_find = found.1 })

-- The first input has the root of every other.
abbrev pub OneOwner : UnionFind → List String → Type 0
OneOwner u [] = Unit
OneOwner u (x ∷ xs) = (y : String) → In y xs → SameRoot u x y

abbrev Coarser : UnionFind → UnionFind → Type 0
Coarser u v = (a b : String) → SameRoot u a b → SameRoot v a b

own_root : (u : UnionFind) → IsValid u → (x : String) → SameRoot u x x
own_root u h x = let (r, _, _, d, _, _) = find_keeps_clusters x u h in (r, d, d)

union_inputs_lem :
    (x : String) (xs : List String) (u : UnionFind)
    → IsValid u
    → (v : UnionFind) × (union_inputs x xs u ≡ some v)
      × IsValid v
      × Coarser u v
      × OneOwner v (x ∷ xs)
unfolding union_inputs
union_inputs_lem x [] u h = (u, refl, h, λ a b s. s, λ y m. absurd m)
union_inputs_lem x (z ∷ xs) u h =
    let (v, e, hv, joined) = union_joins x z u h in
    let (w, e', hw, coarser, owner) = union_inputs_lem x xs v hv in
    (
      w,
      ap (λ o. o >>= λ v. union_inputs x xs v) e ∙ e',
      hw,
      λ a b s. coarser a b ((joined a b).1 (inl s)),
      λ y m. elim m [
        | inl same ↦
            subst (SameRoot w x) (sym same)
              (coarser x z ((joined x z).1 (inr (inl (own_root u h x, own_root u h z)))))
        | inr later ↦ owner y later
      ],
    )

OneOwner-Coarser :
    (u v : UnionFind) (xs : List String) → Coarser u v → OneOwner u xs → OneOwner v xs
OneOwner-Coarser u v [] c o = o
OneOwner-Coarser u v (x ∷ xs) c o = λ y m. c x y (o y m)

union_all_lem :
    (transactions : List (List String)) (u : UnionFind)
    → IsValid u
    → (v : UnionFind) × (union_all transactions u ≡ some v)
      × IsValid v
      × Coarser u v
      × ((inputs : List String) → In inputs transactions → OneOwner v inputs)
unfolding union_all
union_all_lem [] u h = (u, refl, h, λ a b s. s, λ inputs m. absurd m)
union_all_lem ([] ∷ transactions) u h =
    let (v, e, hv, coarser, owners) = union_all_lem transactions u h in
    (
      v,
      e,
      hv,
      coarser,
      λ inputs m. elim m [
        | inl same ↦ subst (OneOwner v) (sym same) tt
        | inr later ↦ owners inputs later
      ],
    )
union_all_lem ((x ∷ xs) ∷ transactions) u h =
    let (v, e, hv, coarser, owner) = union_inputs_lem x xs u h in
    let (w, e', hw, coarser', owners) = union_all_lem transactions v hv in
    (
      w,
      ap (λ o. o >>= λ v. union_all transactions v) e ∙ e',
      hw,
      λ a b s. coarser' a b (coarser a b s),
      λ inputs m. elim m [
        | inl same ↦ subst (OneOwner w) (sym same) (OneOwner-Coarser v w (x ∷ xs) coarser' owner)
        | inr later ↦ owners inputs later
      ],
    )

-- With a well-formed union-find `cluster_wallets_union_find` never fails. The partition that it
-- returns joins all inputs of each transaction, keeps together what was together, and lists under a
-- root exactly the known wallets that have this root.
pub owners_clustered :
    (fl : Float) (dg : DiGraph (WalletNode fl) (TransactionEdge fl))
    (transactions : List (List String)) (s : ThreatGraph fl dg)
    → IsValid s.union_find
    → (v : UnionFind) × (clusters : Dict (List String)) × (s' : ThreatGraph fl dg)
      × (cluster_wallets_union_find fl dg transactions s ≡ some (clusters, s'))
      × ((inputs : List String) → In inputs transactions → OneOwner v inputs)
      × ((a b : String) → SameRoot s.union_find a b → SameRoot v a b)
      × ((root node : String)
          → InCluster clusters root node ↔ (In node (keys v.parent) × Root (par v) node root))
unfolding cluster_wallets_union_find
owners_clustered fl dg transactions s h =
    let (v, e, hv, coarser, owners) = union_all_lem transactions s.union_find h in
    let (clusters, w, e', groups) = get_clusters_groups v hv in
    (
      v,
      clusters,
      record { graph = number_clusters fl dg 0 clusters s.graph; union_find = w },
      ap
            (λ o. o >>= λ u. get_clusters u >>= λ found. some (
              found.0,
              record { graph = number_clusters fl dg 0 found.0 s.graph; union_find = found.1 },
            ))
            e
          ∙ ap
              (λ o. o >>= λ found. some (
                found.0,
                record { graph = number_clusters fl dg 0 found.0 s.graph; union_find = found.1 },
              ))
              e',
      owners,
      coarser,
      groups,
    )
