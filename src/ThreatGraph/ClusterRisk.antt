-- ===== src/ThreatGraph/ClusterRisk.antt =====
-- `propagate_cluster_risk` of src/graph/threat_graph.py. `false` is the ValueError of `max` for a cluster
-- with no member in the graph; what was written before it stays.
use text.Mathlib.Text.{◌==◌}
use cryptosentinel_ai.Prelude.{
  ◌≡◌, refl, sym, ap, ◌∙◌, inl, inr, String, Bool, true, false, Option, none, some, List, [], ◌∷◌,
  In, if◌then◌else◌, ◌&&◌, Bool-cases, Option-cases, arith, subst,
}
use cryptosentinel_ai.Dict.{Dict, lookup, keys}
use cryptosentinel_ai.Float.{Float, lt_f, max_f}
use cryptosentinel_ai.DiGraph.{DiGraph}
use cryptosentinel_ai.UnionFind.Defs.{get_clusters, ◌>>=◌}
use cryptosentinel_ai.UnionFind.Roots.{Root}
use cryptosentinel_ai.UnionFind.Invariant.{par, IsValid}
use cryptosentinel_ai.UnionFind.Clusters.{get_clusters_groups}
use cryptosentinel_ai.ThreatGraph.Defs.{
  WalletNode, TransactionEdge, ThreatGraph, raise_to, raise_all,
}
use cryptosentinel_ai.ThreatGraph.Nodes.{on_some}
use cryptosentinel_ai.ThreatGraph.Paths.Search.{contains}
use cryptosentinel_ai.ThreatGraph.Trace.Visit.{contains-In, contains-not_In}
use cryptosentinel_ai.ThreatGraph.Flags.{raise_all-In, raise_all-other}

module _ (fl : Float) (dg : DiGraph (WalletNode fl) (TransactionEdge fl)) where
  open fl use {F, lit, mul}
  open dg use {G, node}

  abbrev with_risk_of : Option (WalletNode fl) → List F → List F
  with_risk_of none risks = risks
  with_risk_of (some w) risks = w.risk_score ∷ risks

  -- `self.G.nodes[m]["risk_score"] for m in members if self.G.has_node(m)`
  unfoldable pub member_risks : G → List String → List F
  member_risks g [] = []
  member_risks g (m ∷ members) = with_risk_of (node g m) (member_risks g members)

  -- `max` of a generator, which fails when there is nothing.
  abbrev greatest : F → List F → F
  greatest best [] = best
  greatest best (x ∷ xs) = greatest (max_f fl best x) xs

  unfoldable pub max_of : List F → Option F
  max_of [] = none
  max_of (x ∷ xs) = some (greatest x xs)

  -- `max(...) if members else 0.0`
  unfoldable pub max_risk : G → List String → Option F
  max_risk g [] = some (lit 0)
  max_risk g (m ∷ members) = max_of (member_risks g (m ∷ members))

  -- One cluster: whether there was no exception, and the graph.
  unfoldable pub raise_members : List String → G → Option F → Bool × G
  raise_members members g none = (false, g)
  raise_members members g (some risk) = (
    true,
    if lt_f fl (lit 500_000) risk then raise_all fl dg (mul risk (lit 700_000)) members g else g,
  )

  unfoldable pub raise_cluster : List String → G → Bool × G
  raise_cluster members g = raise_members members g (max_risk g members)

  unfoldable pub raise_clusters : Dict (List String) → G → Bool × G
  raise_clusters [] g = (true, g)
  raise_clusters ((root, members) ∷ clusters) g =
      let (fine, g') = raise_cluster members g in
      let rest = raise_clusters clusters g' in if fine then rest else (false, g')

  unfoldable pub propagate_cluster_risk : ThreatGraph fl dg → Option (Bool × ThreatGraph fl dg)
  propagate_cluster_risk s = get_clusters s.union_find >>= λ found.
      let (fine, g) = raise_clusters found.0 s.graph in
      some (fine, record { graph = g; union_find = found.1 })

  absent_risks :
      (g : G) (members : List String)
      → ((m : String) → In m members → node g m ≡ none)
      → member_risks g members ≡ []
  unfolding member_risks
  absent_risks g [] h = refl
  absent_risks g (m ∷ members) h =
      ap (λ o. with_risk_of o (member_risks g members)) (h m (inl refl))
      ∙ absent_risks g members (λ x i. h x (inr i))

  -- At a cluster whose members are all missing from the graph there is no greatest risk.
  absent_max :
      (m : String) (members : List String) (g : G)
      → ((x : String) → In x members → node g x ≡ none)
      → In m members
      → max_risk g members ≡ none
  unfolding max_risk max_of
  absent_max m [] g h i = absurd i
  absent_max m (x ∷ members) g h i = ap max_of (absent_risks g (x ∷ members) h)

  -- A cluster with the greatest risk `risk`: above 0.5 each member of it in the graph takes at least
  -- seven tenths of that, and else nothing changes; no other wallet changes.
  pub raise_cluster_effect :
      (members : List String) (g : G) (risk : F)
      → max_risk g members ≡ some risk
      → (b : String)
      → node (raise_cluster members g).1 b ≡ (
          if lt_f fl (lit 500_000) risk && contains b members
          then on_some (raise_to fl dg (mul risk (lit 700_000))) (node g b)
          else node g b)
  unfolding raise_cluster raise_members
  raise_cluster_effect members g risk e b =
      ap (λ r. node (raise_members members g r).1 b) e ∙ by_test (lt_f fl (lit 500_000) risk)
    where
      by_test :
          (t : Bool)
          → node (if t then raise_all fl dg (mul risk (lit 700_000)) members g else g) b ≡ (
              if t && contains b members
              then on_some (raise_to fl dg (mul risk (lit 700_000))) (node g b)
              else node g b)
      by_test false = refl
      by_test true = elim (Bool-cases (contains b members)) [
        | inl i ↦
            raise_all-In fl dg (mul risk (lit 700_000)) members g b (contains-In b members i)
            ∙ sym (
                ap
                  (λ t.
                    if t
                    then on_some (raise_to fl dg (mul risk (lit 700_000))) (node g b)
                    else node g b)
                  i)
        | inr o ↦
            raise_all-other fl dg (mul risk (lit 700_000)) members g b (contains-not_In b members o)
            ∙ sym (
                ap
                  (λ t.
                    if t
                    then on_some (raise_to fl dg (mul risk (lit 700_000))) (node g b)
                    else node g b)
                  o)
      ]

  raise_cluster_failed :
      (members : List String) (g : G)
      → max_risk g members ≡ none
      → raise_cluster members g ≡ (false, g)
  unfolding raise_cluster raise_members
  raise_cluster_failed members g e = ap (raise_members members g) e

  -- What is missing from the graph stays so.
  raise_cluster-none :
      (members : List String) (g : G) (x : String)
      → node g x ≡ none
      → node (raise_cluster members g).1 x ≡ none
  raise_cluster-none members g x e = elim (Option-cases (max_risk g members)) [
    | inl missing ↦ ap (λ r. node r.1 x) (raise_cluster_failed members g missing) ∙ e
    | inr (risk, there) ↦
        raise_cluster_effect members g risk there x
        ∙ by_test (lt_f fl (lit 500_000) risk && contains x members) (mul risk (lit 700_000))
  ]
    where
      by_test :
          (t : Bool) (risk : F)
          → (if t then on_some (raise_to fl dg risk) (node g x) else node g x) ≡ none
      by_test true risk = ap (on_some (raise_to fl dg risk)) e
      by_test false risk = e

  module _ (root m : String) (ms : List String) (i : In m ms) where
    raise_clusters_step :
        (r : String) (members : List String) (clusters : Dict (List String)) (g : G) (same : Bool)
        → ((x : String) → In x ms → node g x ≡ none)
        → (if same then some members else lookup root clusters) ≡ some ms
        → (lookup root clusters ≡ some ms
            → (raise_clusters clusters (raise_cluster members g).1).0 ≡ false)
        → (raise_clusters ((r, members) ∷ clusters) g).0 ≡ false
    unfolding raise_clusters
    raise_clusters_step r members clusters g true h l later =
        let absent =
          absent_max m members g (subst (λ o. Absent o) (sym l) h)
            (subst (λ o. Member o) (sym l) i) in
        ap (λ (o : Bool × G). (if o.0 then raise_clusters clusters o.1 else (false, o.1)).0)
          (raise_cluster_failed members g absent)
      where
        Absent : Option (List String) → Type 0
        Absent none = Unit
        Absent (some xs) = (x : String) → In x xs → node g x ≡ none

        Member : Option (List String) → Type 0
        Member none = Unit
        Member (some xs) = In m xs
    raise_clusters_step r members clusters g false h l later = by_flag (raise_cluster members g).0
      where
        by_flag :
            (fine : Bool)
            → (if fine
                then raise_clusters clusters (raise_cluster members g).1
                else (false, (raise_cluster members g).1)).0
              ≡ false
        by_flag true = later l
        by_flag false = refl

    raise_clusters_fails :
        (clusters : Dict (List String)) (g : G)
        → ((x : String) → In x ms → node g x ≡ none)
        → lookup root clusters ≡ some ms
        → (raise_clusters clusters g).0 ≡ false
    unfolding lookup
    raise_clusters_fails [] g h l = absurd (grind (arith, l))
    raise_clusters_fails ((r, members) ∷ clusters) g h l =
        raise_clusters_step r members clusters g (r == root) h l (
          raise_clusters_fails clusters (raise_cluster members g).1
            (λ x j. raise_cluster-none members g x (h x j)))

  -- In a well-formed state, with a known wallet such that every known wallet of its cluster is missing from
  -- the graph, `propagate_cluster_risk` raises, whatever the other clusters are.
  pub absent_cluster_fails :
      (s : ThreatGraph fl dg) (wallet root : String)
      → IsValid s.union_find
      → In wallet (keys s.union_find.parent)
      → Root (par s.union_find) wallet root
      → ((x : String)
          → In x (keys s.union_find.parent)
          → Root (par s.union_find) x root
          → node s.graph x ≡ none)
      → (s' : ThreatGraph fl dg) × (propagate_cluster_risk s ≡ some (false, s'))
  unfolding propagate_cluster_risk
  absent_cluster_fails s wallet root v known top absent =
      let (clusters, u, found, grouped) = get_clusters_groups s.union_find v in
      let (ms, l, i) = (grouped root wallet).1 (known, top) in
      let failed =
        raise_clusters_fails root wallet ms i clusters s.graph
          (λ x j. let (there, at) = (grouped root x).0 (ms, l, j) in absent x there at) l in
      (
        record { graph = (raise_clusters clusters s.graph).1; union_find = u },
        ground (arith, found, failed),
      )
