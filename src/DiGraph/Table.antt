-- ===== src/DiGraph/Table.antt =====
-- An instance of the parameter, on which the tests and the examples run: a dict of nodes, and for
-- each source a dict of its edges.
use text.Mathlib.Text.{◌==◌}
use cryptosentinel_ai.Prelude.{
  In-keep, keep-In, ◌+◌, ℕ, ◌≡◌, refl, ◌≢◌, ◌↔◌, inl, inr, String, Bool, true, false, ◌&&◌, Option,
  none, some, List, [], ◌∷◌, In, length, keep, if◌then◌else◌, arith, eq_iff, Option-cases,
}
use cryptosentinel_ai.Dict.{
  Dict, lookup, insert, keys, lookup-insert, In-keys_of_lookup, lookup_of_In-keys,
}
use cryptosentinel_ai.DiGraph.Defs.{DiGraph}

abbrev pub is_some : {A : Type 0} → Option A → Bool
is_some none = false
is_some (some a) = true

module _ (N E : Type 0) where
  pub record Table : Type 0 where
    pub nodes : Dict N
    pub rows : Dict (Dict E)

  unfoldable pub row : Table → String → Dict E
  row g a = elim (lookup a g.rows) [ none ↦ [] | some r ↦ r ]

  abbrev pub edge_at : Table → String → String → Option E
  edge_at g a b = lookup b (row g a)

  abbrev pub with_edge : Table → String → String → E → Table
  with_edge g a b e = record g { rows = insert a (insert b e (row g a)) g.rows }

  pub edge_at-with_edge :
      (g : Table) (a b c d : String) (e : E)
      → edge_at (with_edge g a b e) c d ≡ (if a == c && b == d then some e else edge_at g c d)
  unfolding row
  edge_at-with_edge g a b c d e = ground (
    arith,
    lookup-insert a c (insert b e (row g a)) g.rows,
    lookup-insert b d e (row g a),
    eq_iff a c,
  )

  abbrev pub sources : Table → String → List String
  sources g a = keep (λ b. is_some (edge_at g b a)) (keys g.rows)

  pub In-row : (g : Table) (a b : String) → In b (keys (row g a)) ↔ (edge_at g a b ≢ none)
  In-row g a b = (
    lookup_of_In-keys b (row g a),
    λ h. elim (Option-cases (edge_at g a b)) [
      | inl missing ↦ absurd (h missing)
      | inr (e, found) ↦ In-keys_of_lookup b (row g a) found
    ],
  )

  is_some-ne-none : {A : Type 0} (o : Option A) → is_some o ≡ true → o ≢ none
  is_some-ne-none o h = ground arith

  ne-none-is_some : {A : Type 0} (o : Option A) → o ≢ none → is_some o ≡ true
  ne-none-is_some o h = ground arith

  row_missing : (g : Table) (a b : String) → lookup a g.rows ≡ none → edge_at g a b ≡ none
  unfolding row lookup
  row_missing g a b e = ground arith

  -- A source with an edge has a row.
  row_known : (g : Table) (a b : String) → edge_at g a b ≢ none → In a (keys g.rows)
  row_known g a b h = elim (Option-cases (lookup a g.rows)) [
    | inl missing ↦ absurd (h (row_missing g a b missing))
    | inr (r, found) ↦ In-keys_of_lookup a g.rows found
  ]

  pub In-sources : (g : Table) (a b : String) → In b (sources g a) ↔ (edge_at g b a ≢ none)
  In-sources g a b = (
    λ h.
        is_some-ne-none (edge_at g b a)
          (In-keep (λ c. is_some (edge_at g c a)) b (keys g.rows) h).1,
    λ h.
        keep-In (λ c. is_some (edge_at g c a)) b (keys g.rows) (row_known g b a h)
          (ne-none-is_some (edge_at g b a) h),
  )

  pub nothing : (a : String) → lookup {V = N} a [] ≡ none
  unfolding lookup
  nothing a = refl

  pub no_edge : (a b : String) → edge_at (record { nodes = []; rows = [] }) a b ≡ none
  unfolding row lookup
  no_edge a b = refl

  pub edge_at-with_node :
      (g : Table) (a b c : String) (n : N)
      → edge_at (record g { nodes = insert a n g.nodes }) b c ≡ edge_at g b c
  unfolding row
  edge_at-with_node g a b c n = refl

  abbrev pub count_edges : Dict (Dict E) → ℕ
  count_edges [] = 0
  count_edges ((a, r) ∷ rows) = length r + count_edges rows

  abbrev pub table : DiGraph N E
  table = record {
    G = Table;
    empty = record { nodes = []; rows = [] };
    node = λ g a. lookup a g.nodes;
    edge = edge_at;
    set_node = λ g a n. record g { nodes = insert a n g.nodes };
    set_edge = with_edge;
    successors = λ g a. keys (row g a);
    predecessors = sources;
    number_of_nodes = λ g. length g.nodes;
    number_of_edges = λ g. count_edges g.rows;
    node-empty = nothing;
    edge-empty = no_edge;
    node-set_node = λ g a b n. lookup-insert a b n g.nodes;
    edge-set_node = edge_at-with_node;
    node-set_edge = λ g a b c e _ _. refl;
    edge-set_edge = edge_at-with_edge;
    In-successors = In-row;
    In-predecessors = In-sources;
  }
