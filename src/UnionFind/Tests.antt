-- ===== src/UnionFind/Tests.antt =====
-- Runs of `UnionFind` (src/graph/threat_graph.py), and its theorems at concrete states.
use cryptosentinel_ai.Prelude.{String, Bool, true, ◌≡◌, refl, ◌↔◌, some, List, [], ◌∷◌, In}
use cryptosentinel_ai.Dict.{Dict, keys, lookup, insert}
use cryptosentinel_ai.UnionFind.Defs.{
  UnionFind, init, find, find_fuel, union, get_clusters, ◌>>=◌, ensure, set_parent, enough, attach,
  link, group, add_member, same_cluster,
}
use cryptosentinel_ai.UnionFind.Roots.{Root}
use cryptosentinel_ai.UnionFind.Invariant.{par, IsValid}
use cryptosentinel_ai.UnionFind.Union.{
  SameRoot, SameClusters, Joined, init-IsValid, find_keeps_clusters,
}
use cryptosentinel_ai.UnionFind.Merge.{union_joins, same_cluster_iff}
use cryptosentinel_ai.UnionFind.Clusters.{InCluster, get_clusters_groups}

-- Two unions make one cluster of three.
three_wallets :
    (union "a" "b" init >>= λ u. union "b" "c" u >>= λ v. get_clusters v >>= λ r. some r.0)
    ≡ some (("a", "a" ∷ "b" ∷ "c" ∷ []) ∷ [])
unfolding union find find_fuel ensure set_parent enough attach link get_clusters group add_member
    lookup insert
three_wallets = refl

-- The state after `union("a", "b")`.
abbrev joined : UnionFind
joined = (union_joins "a" "b" init init-IsValid).0

joined-IsValid : IsValid joined
joined-IsValid = (union_joins "a" "b" init init-IsValid).2

find_keeps_clusters_example :
    (r : String) × (v : UnionFind) × (find "b" joined ≡ some (r, v))
    × Root (par joined) "b" r
    × IsValid v
    × SameClusters joined v
find_keeps_clusters_example = find_keeps_clusters "b" joined joined-IsValid

union_joins_example :
    (v : UnionFind) × (union "b" "c" joined ≡ some v)
    × IsValid v
    × ((a b : String) → SameRoot v a b ↔ Joined joined "b" "c" a b)
union_joins_example = union_joins "b" "c" joined joined-IsValid

same_cluster_iff_example :
    (b : Bool) × (v : UnionFind) × (same_cluster "a" "b" joined ≡ some (b, v))
    × IsValid v
    × SameClusters joined v
    × ((b ≡ true) ↔ SameRoot joined "a" "b")
same_cluster_iff_example = same_cluster_iff "a" "b" joined joined-IsValid

get_clusters_groups_example :
    (clusters : Dict (List String)) × (v : UnionFind) × (get_clusters joined ≡ some (clusters, v))
    × ((root node : String)
        → InCluster clusters root node
          ↔ (In node (keys joined.parent) × Root (par joined) node root))
get_clusters_groups_example = get_clusters_groups joined joined-IsValid
