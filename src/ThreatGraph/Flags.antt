-- ===== src/ThreatGraph/Flags.antt =====
-- `flag_address` of src/graph/threat_graph.py: every node after it.
use text.Mathlib.Text.{◌==◌}
use cryptosentinel_ai.Prelude.{
  ◌≡◌, refl, sym, ap, ◌∙◌, String, Bool, true, false, Option, none, some, List, [], ◌∷◌, In,
  if◌then◌else◌, arith, ltb, eq_iff, Option-cases, inl, inr, eq_of_ne,
}
use cryptosentinel_ai.Float.{Float}
use cryptosentinel_ai.DiGraph.{DiGraph}
use cryptosentinel_ai.ThreatGraph.Defs.{
  WalletNode, TransactionEdge, ThreatGraph, update_node, raise_to, raise_all, flag_address,
}
use cryptosentinel_ai.ThreatGraph.Nodes.{on_some, node-update_node, edge-update_node}

abbrev pub is_some : {A : Type 0} → Option A → Bool
is_some none = false
is_some (some a) = true

module _ (fl : Float) (dg : DiGraph (WalletNode fl) (TransactionEdge fl)) where
  open dg use {G, node, edge, set_node, predecessors, node-set_node, edge-set_node, In-predecessors}

  abbrev raised : fl.F → WalletNode fl → WalletNode fl
  raised = raise_to fl dg

  -- A wallet whose risk is below `risk` takes it, and any other is as it was.
  abbrev pub at_least : fl.F → WalletNode fl → WalletNode fl
  at_least risk w = record w {
    risk_score = if ltb (fl.place w.risk_score) (fl.place risk) then risk else w.risk_score;
  }

  raised-at_least :
      (risk : fl.F) (o : Option (WalletNode fl))
      → on_some (raised risk) o ≡ on_some (at_least risk) o
  raised-at_least risk none = refl
  raised-at_least risk (some w) = ground arith

  -- Raising to the same risk again changes nothing.
  raised_twice : (risk : fl.F) (w : WalletNode fl) → raised risk (raised risk w) ≡ raised risk w
  raised_twice risk w = ground arith

  raised_some :
      (risk : fl.F) (o : Option (WalletNode fl))
      → on_some (raised risk) (on_some (raised risk) o) ≡ on_some (raised risk) o
  raised_some risk none = refl
  raised_some risk (some w) = ap some (raised_twice risk w)

  edge-raise_all :
      (risk : fl.F) (xs : List String) (g : G) (a b : String)
      → edge (raise_all fl dg risk xs g) a b ≡ edge g a b
  unfolding raise_all
  edge-raise_all risk [] g a b = refl
  edge-raise_all risk (x ∷ xs) g a b =
      edge-raise_all risk xs (update_node fl dg x (raised risk) g) a b
      ∙ edge-update_node fl dg x (raised risk) g a b

  -- A node that was raised once stays so.
  raise_all-raised :
      (risk : fl.F) (xs : List String) (g : G) (b : String) (o : Option (WalletNode fl))
      → node g b ≡ on_some (raised risk) o
      → node (raise_all fl dg risk xs g) b ≡ on_some (raised risk) o
  unfolding raise_all
  raise_all-raised risk [] g b o e = e
  raise_all-raised risk (x ∷ xs) g b o e =
      raise_all-raised risk xs (update_node fl dg x (raised risk) g) b o (
        ground
          (arith, node-update_node fl dg x (raised risk) g b, eq_iff x b, raised_some risk o, e))

  pub raise_all-In :
      (risk : fl.F) (xs : List String) (g : G) (b : String)
      → In b xs
      → node (raise_all fl dg risk xs g) b ≡ on_some (raised risk) (node g b)
  unfolding raise_all
  raise_all-In risk [] g b h = absurd h
  raise_all-In risk (x ∷ xs) g b (inl same) =
      raise_all-raised risk xs (update_node fl dg x (raised risk) g) b (node g b)
        (ground (arith, node-update_node fl dg x (raised risk) g b, eq_iff x b, same))
  raise_all-In risk (x ∷ xs) g b (inr m) =
      raise_all-In risk xs (update_node fl dg x (raised risk) g) b m
      ∙ ground (
        arith,
        node-update_node fl dg x (raised risk) g b,
        eq_iff x b,
        raised_some risk (node g b),
      )

  pub raise_all-other :
      (risk : fl.F) (xs : List String) (g : G) (b : String)
      → ¬ In b xs
      → node (raise_all fl dg risk xs g) b ≡ node g b
  unfolding raise_all
  raise_all-other risk [] g b h = refl
  raise_all-other risk (x ∷ xs) g b h =
      raise_all-other risk xs (update_node fl dg x (raised risk) g) b (λ m. h (inr m))
      ∙ node-update_node fl dg x (raised risk) g b
      ∙ ap (λ (c : Bool). if c then on_some (raised risk) (node g x) else node g b)
          (eq_of_ne x b (λ e. h (inl (sym e))))

  module _ (address : String) (risk : fl.F) (s : ThreatGraph fl dg) {w : WalletNode fl}
      (known : node s.graph address ≡ some w) where
    abbrev pub flagged : WalletNode fl
    flagged = record w { is_flagged = true; risk_score = risk }

    abbrev pub half : fl.F
    half = fl.mul risk (fl.lit 500_000)

    abbrev marked : G
    marked = set_node s.graph address flagged

    abbrev senders : List String
    senders = predecessors marked address

    graph-flag_address :
        (flag_address fl dg address risk s).graph ≡ raise_all fl dg half senders marked
    unfolding flag_address
    graph-flag_address = ground (arith, known)

    -- The node of `p` before the propagation.
    abbrev pub before : String → Option (WalletNode fl)
    before p = if address == p then some flagged else node s.graph p

    edge-marked : (p : String) → edge marked p address ≡ edge s.graph p address
    edge-marked p = edge-set_node s.graph address p address flagged

    node-flagged :
        (p : String)
        → node (raise_all fl dg half senders marked) p ≡ (
            if is_some (edge s.graph p address) then on_some (raised half) (before p) else before p)
    node-flagged p = elim (Option-cases (edge s.graph p address)) [
      | inl missing ↦
          raise_all-other half senders marked p
            (λ m. (In-predecessors marked address p).0 m (edge-marked p ∙ missing))
          ∙ node-set_node s.graph address p flagged
          ∙ ap (λ o. if is_some o then on_some (raised half) (before p) else before p) (sym missing)
      | inr (e, there) ↦
          raise_all-In half senders marked p (
            (In-predecessors marked address p).1
              (λ none_there. cc (none_there, edge-marked p, there)))
          ∙ ap (on_some (raised half)) (node-set_node s.graph address p flagged)
          ∙ ap (λ o. if is_some o then on_some (raised half) (before p) else before p) (sym there)
    ]

    -- A flag for a known address writes its risk and its mark, and then raises every wallet that sent
    -- to it (itself included, if it did) to at least half of that risk; all else is as it was.
    pub flag_address_effect :
        let s' = flag_address fl dg address risk s in
        ((a b : String) → edge s'.graph a b ≡ edge s.graph a b)
        × ((p : String)
            → node s'.graph p ≡ (
                if is_some (edge s.graph p address)
                then on_some (at_least half) (before p)
                else before p))
    flag_address_effect = (
      λ a b.
          ap (λ g. edge g a b) graph-flag_address
          ∙ edge-raise_all half senders marked a b
          ∙ edge-set_node s.graph address a b flagged,
      λ p.
          ap (λ g. node g p) graph-flag_address
          ∙ node-flagged p
          ∙ ap (λ o. if is_some (edge s.graph p address) then o else before p)
              (raised-at_least half (before p)),
    )
