-- ===== src/ThreatGraph/Tests.antt =====
-- Runs of `ThreatGraph` (src/graph/threat_graph.py), and its theorems at concrete graphs.
use text.Mathlib.Text.{◌==◌}
use mathlib.Core.Bool.{◌&&◌, false}
use cryptosentinel_ai.Prelude.{
  ℕ, false, inl, inr, ap, ◌+◌, ◌≤◌, ◌<◌, ◌≡◌, refl, ◌≢◌, String, eq_iff, some, none, List, [], ◌∷◌,
  length, if◌then◌else◌, In, arith, ◌↔◌,
}
use cryptosentinel_ai.Dict.{lookup, insert, Dict, keys}
use cryptosentinel_ai.Float.Fixed.{fixed}
use cryptosentinel_ai.DiGraph.{DiGraph}
use cryptosentinel_ai.DiGraph.Table.{table, row}
use cryptosentinel_ai.UnionFind.Defs.{UnionFind, init, ensure}
use cryptosentinel_ai.UnionFind.Roots.{Root}
use cryptosentinel_ai.UnionFind.Invariant.{par, IsValid, ensure_lem}
use cryptosentinel_ai.UnionFind.Union.{SameRoot, init-IsValid}
use cryptosentinel_ai.UnionFind.Clusters.{InCluster}
use cryptosentinel_ai.ThreatGraph.Owners.{cluster_wallets_union_find, OneOwner, owners_clustered}
use cryptosentinel_ai.ThreatGraph.Defs.{
  WalletNode, TransactionEdge, Transaction, ThreatGraph, new_graph, add_transaction, flag_address,
  sent, merged_edge, new_wallet,
}
use cryptosentinel_ai.ThreatGraph.Nodes.{or_new, on_some}
use cryptosentinel_ai.ThreatGraph.Transactions.{
  add_transaction_effect, sender, receiver, merged, repeated_transaction,
}
use cryptosentinel_ai.ThreatGraph.Flags.{is_some, flag_address_effect, at_least, half, before}
use cryptosentinel_ai.ThreatGraph.Trace.Peel.{visit, peel, peel_back}
use cryptosentinel_ai.ThreatGraph.Trace.Exact.{Walk, peel_back-exact}
use cryptosentinel_ai.ThreatGraph.RoundTrips.{
  RoundTrip, in_a_day, trip_of, trip_by, detect_round_trips, round_trips_exact,
}
use cryptosentinel_ai.ThreatGraph.ClusterRisk.{
  member_risks, max_of, max_risk, propagate_cluster_risk, absent_cluster_fails,
}
use cryptosentinel_ai.ThreatGraph.Paths.Search.{
  extensions, find_laundering_paths, search, record_path,
}
use cryptosentinel_ai.ThreatGraph.Paths.Sound.{IsLaunderingPath}
use cryptosentinel_ai.ThreatGraph.Paths.Complete.{laundering_paths_exact}
use cryptosentinel_ai.ThreatGraph.Paths.Limit.{one_hop_unlimited}

abbrev graphs : DiGraph (WalletNode fixed) (TransactionEdge fixed)
graphs = table (WalletNode fixed) (TransactionEdge fixed)

abbrev payment : String → String → Transaction fixed
payment a b = record {
  tx_hash = "0x1";
  from_addr = a;
  to_addr = b;
  value_eth = 2_000_001;
  timestamp = 5_000_001;
  block_number = 7;
  is_contract_call = false;
  risk_score = 300_001;
}

abbrev start : ThreatGraph fixed graphs
start = new_graph fixed graphs

abbrev one_payment : ThreatGraph fixed graphs
one_payment = add_transaction fixed graphs 1 (payment "a" "b") start

abbrev wallet : WalletNode fixed
wallet = record {
  risk_score = 1;
  cluster_id = none;
  entity_label = "unknown";
  first_seen = 1;
  last_seen = 1;
  tx_count = 1;
  total_value_eth = 2_000_001;
  is_flagged = false;
}

abbrev paid : TransactionEdge fixed
paid = record {
  tx_hash = "0x1";
  value_eth = 2_000_001;
  timestamp = 5_000_001;
  block_number = 7;
  is_contract_call = false;
}

-- Three wallets, where `a` paid `b` and `c`, and `b` paid `c`.
abbrev payments : ThreatGraph fixed graphs
payments = record start {
  graph = record {
    nodes = ("a", wallet) ∷ ("b", wallet) ∷ ("c", wallet) ∷ [];
    rows = ("a", ("b", paid) ∷ ("c", paid) ∷ []) ∷ ("b", ("c", paid) ∷ []) ∷ [];
  };
}

b_is_known : (payment "a" "b").to_addr ≢ ""
b_is_known e = ground (arith, eq_iff "b" "")

-- The paths from `a` over the three payments.
three_paths :
    find_laundering_paths fixed graphs 9 "a" 5 100 payments
    ≡ some (("a" ∷ "b" ∷ []) ∷ ("a" ∷ "c" ∷ []) ∷ ("a" ∷ "b" ∷ "c" ∷ []) ∷ [])
unfolding find_laundering_paths search record_path extensions row lookup
three_paths = refl

narrow : (a : String) → length (graphs.successors payments.graph a) ≤ 2
unfolding row lookup
narrow a = ground arith

a_known : graphs.node payments.graph "a" ≢ none
unfolding row lookup
a_known e = ground arith

c_known : graphs.node payments.graph "c" ≡ some wallet
unfolding lookup
c_known = refl

c_present : graphs.node payments.graph "c" ≢ none
unfolding row lookup
c_present e = ground arith

-- From `c` back over one payment, and over two.
two_payers : peel_back fixed graphs "c" 1 payments ≡ "b" ∷ "a" ∷ []
unfolding peel_back peel visit row lookup
two_payers = refl

peel_back-exact_example : In "a" (peel_back fixed graphs "c" 1 payments) ↔ (
    (◌≢◌ {A = String} "a" "c") × ((n : ℕ) × (n ≤ 1) × Walk fixed graphs payments.graph n "a" "c"))
peel_back-exact_example = peel_back-exact fixed graphs "c" 1 payments c_present "a"

add_transaction_effect_example :
    let s' = add_transaction fixed graphs 4 (payment "a" "b") one_payment in
    ((c : String)
      → graphs.node s'.graph c ≡ (
          if "a" == c
          then some (
              sent fixed 4
                (payment "a" "b")
                (sender fixed graphs 4 (payment "a" "b") one_payment b_is_known))
          else if "b" == c
          then some (receiver fixed graphs 4 (payment "a" "b") one_payment b_is_known)
          else graphs.node one_payment.graph c))
    × ((c d : String)
        → graphs.edge s'.graph c d ≡ (
            if "a" == c && "b" == d
            then some (merged fixed graphs 4 (payment "a" "b") one_payment b_is_known)
            else graphs.edge one_payment.graph c d))
add_transaction_effect_example =
    add_transaction_effect fixed graphs 4 (payment "a" "b") one_payment b_is_known

repeated_transaction_example :
    let s₂ = add_transaction fixed graphs 2 (payment "a" "b") one_payment in
    (w : WalletNode fixed) × (e : TransactionEdge fixed) × (graphs.node s₂.graph "a" ≡ some w)
    × (graphs.edge s₂.graph "a" "b" ≡ some e)
    × (w.tx_count ≡ (or_new (new_wallet fixed 1) (graphs.node start.graph "a")).tx_count + 2)
    × (e.value_eth
        ≡ fixed.add
            (merged_edge fixed (payment "a" "b") (graphs.edge start.graph "a" "b")).value_eth
            2_000_001)
repeated_transaction_example =
    repeated_transaction fixed graphs 1 2 (payment "a" "b") start b_is_known

one_hop_unlimited_example :
    find_laundering_paths fixed graphs 3 "a" 1 1 payments
    ≡ some (extensions ("a" ∷ []) (graphs.successors payments.graph "a"))
one_hop_unlimited_example =
    one_hop_unlimited fixed graphs payments "a" 1 3 a_known (omega arith)
      (omega (arith, narrow "a"))

laundering_paths_exact_example :
    (r : List (List String)) × (find_laundering_paths fixed graphs 7 "a" 2 100 payments ≡ some r)
    × ((q : List String) → In q r → IsLaunderingPath fixed graphs payments.graph "a" 2 q)
    × (length r < 100
        → (q : List String) → IsLaunderingPath fixed graphs payments.graph "a" 2 q
        → In q r)
laundering_paths_exact_example =
    laundering_paths_exact fixed graphs payments "a" 2 2 100 7 a_known narrow (omega arith)

flag_address_effect_example :
    let s' = flag_address fixed graphs "c" 900_001 payments in
    ((a b : String) → graphs.edge s'.graph a b ≡ graphs.edge payments.graph a b)
    × ((p : String)
        → graphs.node s'.graph p ≡ (
            if is_some (graphs.edge payments.graph p "c")
            then on_some
                (at_least fixed graphs (half fixed graphs "c" 900_001 payments c_known))
                (before fixed graphs "c" 900_001 payments c_known p)
            else before fixed graphs "c" 900_001 payments c_known p))
flag_address_effect_example = flag_address_effect fixed graphs "c" 900_001 payments c_known

owners_clustered_example :
    (v : UnionFind) × (clusters : Dict (List String)) × (s' : ThreatGraph fixed graphs)
    × (cluster_wallets_union_find fixed graphs (("a" ∷ "b" ∷ []) ∷ []) payments
        ≡ some (clusters, s'))
    × ((inputs : List String) → In inputs (("a" ∷ "b" ∷ []) ∷ []) → OneOwner v inputs)
    × ((a b : String) → SameRoot payments.union_find a b → SameRoot v a b)
    × ((root node : String)
        → InCluster clusters root node ↔ (In node (keys v.parent) × Root (par v) node root))
owners_clustered_example =
    owners_clustered fixed graphs (("a" ∷ "b" ∷ []) ∷ []) payments init-IsValid

-- `c` pays `a` back a thousand seconds later.
abbrev returned : TransactionEdge fixed
returned = record paid { timestamp = 1_005_000_001 }

abbrev payments_back : ThreatGraph fixed graphs
payments_back = record start {
  graph = record {
    nodes = ("a", wallet) ∷ ("c", wallet) ∷ [];
    rows = ("a", ("c", paid) ∷ []) ∷ ("c", ("a", returned) ∷ []) ∷ [];
  };
}

a_is_back : graphs.node payments_back.graph "a" ≢ none
unfolding row lookup
a_is_back e = ground arith

abbrev trip : RoundTrip fixed graphs
trip = record {
  intermediate = "c";
  time_out = paid.timestamp;
  time_in = returned.timestamp;
  round_trip_seconds = fixed.sub returned.timestamp paid.timestamp;
  value_eth = returned.value_eth;
}

trip_reported : detect_round_trips fixed graphs "a" payments_back ≡ trip ∷ []
unfolding detect_round_trips trip_by trip_of in_a_day row lookup
trip_reported = refl

round_trips_exact_example : In trip (detect_round_trips fixed graphs "a" payments_back) ↔ (
    (src : String) × (out : TransactionEdge fixed) × (back : TransactionEdge fixed) × (graphs.edge
        payments_back.graph "a" src
      ≡ some out)
    × (graphs.edge payments_back.graph src "a" ≡ some back)
    × (trip ≡ record {
      intermediate = src;
      time_out = out.timestamp;
      time_in = back.timestamp;
      round_trip_seconds = fixed.sub back.timestamp out.timestamp;
      value_eth = back.value_eth;
    })
    × (fixed.place (fixed.lit 0) < fixed.place (fixed.sub back.timestamp out.timestamp))
    × (fixed.place (fixed.sub back.timestamp out.timestamp)
        < fixed.place (fixed.lit 86_400_000_000)))
round_trips_exact_example = round_trips_exact fixed graphs "a" payments_back a_is_back trip

-- A flagged member of risk 0.9.
abbrev risky : ThreatGraph fixed graphs
risky = record start {
  graph = record {
    nodes = ("a", record wallet { risk_score = 900_001 }) ∷ ("b", wallet) ∷ [];
    rows = [];
  };
}

risky_max : max_risk fixed graphs risky.graph ("a" ∷ "b" ∷ []) ≡ some 900_001
unfolding max_risk max_of member_risks lookup
risky_max = refl

-- A wallet that only the union-find knows.
abbrev unseen : ThreatGraph fixed graphs
unseen = record risky { union_find = record { parent = ("x", "x") ∷ []; rank = ("x", 0) ∷ [] } }

unseen-IsValid : IsValid unseen.union_find
unfolding ensure lookup insert
unseen-IsValid = (ensure_lem "x" init init-IsValid).0

x_top : Root (par unseen.union_find) "x" "x"
unfolding lookup
x_top = Root.stop refl refl

x_absent :
    (a : String)
    → In a ("x" ∷ [])
    → Root (par unseen.union_find) a "x"
    → graphs.node unseen.graph a ≡ none
unfolding lookup
x_absent a (inl e) r = ap (λ t. graphs.node risky.graph t) e
x_absent a (inr i) r = absurd i

absent_cluster_fails_example :
    (s' : ThreatGraph fixed graphs) × (propagate_cluster_risk fixed graphs unseen
      ≡ some (false, s'))
absent_cluster_fails_example =
    absent_cluster_fails fixed graphs unseen "x" "x" unseen-IsValid (inl refl) x_top x_absent
