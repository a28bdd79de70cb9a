-- ===== src/ThreatGraph/Trace/Exact.antt =====
-- The wallets that `peel_back` (src/graph/threat_graph.py) returns.
use cryptosentinel_ai.Prelude.{
  ℕ, zero, suc, ◌+◌, ◌≤◌, ◌≡◌, refl, sym, ap, subst, ◌∙◌, ◌≢◌, ◌↔◌, ◌⊎◌, inl, inr, String, none,
  some, List, [], ◌∷◌, In, gather, In-gather, gather-In, arith, Option-cases,
}
use cryptosentinel_ai.Float.{Float}
use cryptosentinel_ai.DiGraph.{DiGraph}
use cryptosentinel_ai.ThreatGraph.Defs.{WalletNode, TransactionEdge, ThreatGraph}
use cryptosentinel_ai.ThreatGraph.Trace.Peel.{visit, peel, peel_back}
use cryptosentinel_ai.ThreatGraph.Trace.Visit.{Known, visit-Visited}

module _ (fl : Float) (dg : DiGraph (WalletNode fl) (TransactionEdge fl)) (g : dg.G) where
  open dg use {edge, predecessors}

  -- A walk of n edges from one wallet to another.
  abbrev pub Walk : ℕ → String → String → Type 0
  Walk zero a b = a ≡ b
  Walk (suc n) a b = (x : String) × (edge g x b ≢ none) × Walk n a x

  Walk-before : (n : ℕ) (a b c : String) → edge g a b ≢ none → Walk n b c → Walk (suc n) a c
  Walk-before zero a b c e w = (a, subst (λ t. edge g a t ≢ none) w e, refl)
  Walk-before (suc n) a b c e (x, d, w) = (x, d, Walk-before n a b x e w)

  module _ (address : String) where
    abbrev pub Within : ℕ → String → Type 0
    Within k a = (n : ℕ) × (n ≤ k) × Walk n a address

    abbrev swept : List String → List String → List String × List String
    swept frontier ancestors = visit address (gather (predecessors g) frontier) (ancestors, [])

    peel_empty :
        (depth : ℕ) (ancestors : List String) → peel fl dg address g depth [] ancestors ≡ ancestors
    unfolding peel visit
    peel_empty zero ancestors = refl
    peel_empty (suc depth) ancestors = refl

    peel-suc :
        (depth : ℕ) (frontier ancestors : List String)
        → peel fl dg address g (suc depth) frontier ancestors
          ≡ peel fl dg address g depth (swept frontier ancestors).1 (swept frontier ancestors).0
    unfolding peel
    peel-suc depth frontier ancestors =
        let found = (swept frontier ancestors).0 in
        by_next (swept frontier ancestors).1 found _
          (λ e. sym (ap (λ t. peel fl dg address g depth t found) e ∙ peel_empty depth found))
      where
        by_next :
            (next found deeper : List String)
            → (next ≡ [] → found ≡ deeper)
            → (elim next [ [] ↦ found | _ ∷ _ ↦ deeper ]) ≡ deeper
        by_next [] found deeper h = h refl
        by_next (x ∷ next) found deeper h = refl

    before-Within :
        (k : ℕ) (frontier : List String)
        → ((x : String) → In x frontier → Within k x)
        → (x : String) → In x (gather (predecessors g) frontier)
        → Within (suc k) x
    before-Within k frontier f x m =
        let (b, l, r) = In-gather (predecessors g) x frontier m in
        let (n, h, w) = f b l in
        (suc n, omega (arith, h), Walk-before n x b address ((dg.In-predecessors g b x).0 r) w)

    peel_sound :
        (depth k : ℕ) (frontier ancestors : List String)
        → ((x : String) → In x frontier → Within k x)
        → ((x : String) → In x ancestors → (x ≢ address) × Within (k + depth) x)
        → (x : String) → In x (peel fl dg address g depth frontier ancestors)
        → (x ≢ address) × Within (k + depth) x
    unfolding peel
    peel_sound zero k frontier ancestors f h x m = h x m
    peel_sound (suc depth) k frontier ancestors f h x m =
        let v = visit-Visited address (gather (predecessors g) frontier) ancestors [] in
        let (d, (n, l, w)) =
          peel_sound depth (suc k) (swept frontier ancestors).1 (swept frontier ancestors).0
            (λ y i. new_only y (before-Within k frontier f y) (v.later_new y i))
            (λ y i. elim (v.from_ps y i) [
              | inl old ↦ let (d, (n, l, w)) = h y old in (d, (n, omega (arith, l), w))
              | inr (p, d, _) ↦
                  let (n, l, w) = before-Within k frontier f y p in (d, (n, omega (arith, l), w))
            ])
            x (subst (In x) (peel-suc depth frontier ancestors) m) in
        (d, (n, omega (arith, l), w))
      where
        new_only :
            (y : String)
            → (In y (gather (predecessors g) frontier) → Within (suc k) y)
            → In y [] ⊎ In y (gather (predecessors g) frontier)
            → Within (suc k) y
        new_only y f (inl m) = absurd m
        new_only y f (inr m) = f m

    -- Each known wallet is in the frontier, or its predecessors are known.
    abbrev Closed : List String → List String → Type 0
    Closed frontier ancestors =
        (b : String)
        → Known address b ancestors
        → In b frontier ⊎ ((p : String) → In p (predecessors g b) → Known address p ancestors)

    swept-Known :
        (frontier ancestors : List String)
        → Closed frontier ancestors
        → (b : String) → Known address b ancestors
        → (p : String) → In p (predecessors g b)
        → Known address p (swept frontier ancestors).0
    swept-Known frontier ancestors c b known p m =
        let v = visit-Visited address (gather (predecessors g) frontier) ancestors [] in
        elim (c b known) [
          | inl l ↦ v.covered p (gather-In (predecessors g) p b frontier l m)
          | inr all ↦ elim (all p m) [ inl e ↦ inl e | inr i ↦ inr (v.kept p i) ]
        ]

    swept-Closed :
        (frontier ancestors : List String)
        → Closed frontier ancestors
        → Closed (swept frontier ancestors).1 (swept frontier ancestors).0
    swept-Closed frontier ancestors c b (inl e) = inr (swept-Known frontier ancestors c b (inl e))
    swept-Closed frontier ancestors c b (inr m) =
        let v = visit-Visited address (gather (predecessors g) frontier) ancestors [] in
        elim (v.from_ps b m) [
          | inl old ↦ inr (swept-Known frontier ancestors c b (inr old))
          | inr (_, _, l) ↦ inl l
        ]

    peel_complete :
        (depth : ℕ) (frontier ancestors : List String)
        → Closed frontier ancestors
        → (b : String) → Known address b ancestors
        → (n : ℕ) (a : String) → n ≤ depth
        → Walk n a b
        → Known address a (peel fl dg address g depth frontier ancestors)
    unfolding peel
    peel_complete zero frontier ancestors c b known zero a h w =
        subst (λ t. Known address t ancestors) (sym w) known
    peel_complete zero frontier ancestors c b known (suc n) a h w = absurd (omega (arith, h))
    peel_complete (suc depth) frontier ancestors c b known zero a h w =
        subst (Known address a) (sym (peel-suc depth frontier ancestors)) (
          peel_complete depth _ _ (swept-Closed frontier ancestors c) b (kept known) 0 a
            (omega arith) w)
      where
        kept : Known address b ancestors → Known address b (swept frontier ancestors).0
        kept (inl e) = inl e
        kept (inr m) =
            inr ((visit-Visited address (gather (predecessors g) frontier) ancestors []).kept b m)
    peel_complete (suc depth) frontier ancestors c b known (suc n) a h (x, e, w) =
        subst (Known address a) (sym (peel-suc depth frontier ancestors)) (
          peel_complete depth _ _ (swept-Closed frontier ancestors c) x
            (swept-Known frontier ancestors c b known x ((dg.In-predecessors g b x).1 e)) n a
            (omega (arith, h)) w)

module _ (fl : Float) (dg : DiGraph (WalletNode fl) (TransactionEdge fl)) where
  peel_back_known :
      (address : String) (max_depth : ℕ) (s : ThreatGraph fl dg) (w : WalletNode fl)
      → dg.node s.graph address ≡ some w
      → peel_back fl dg address max_depth s ≡ peel fl dg address s.graph max_depth (address ∷ []) []
  unfolding peel_back
  peel_back_known address max_depth s w e = rw (e, peel_back) refl

  -- For a wallet of the graph, `peel_back` returns the other wallets from which a walk of at most
  -- `max_depth` transactions leads to it, and no more.
  pub peel_back-exact :
      (address : String) (max_depth : ℕ) (s : ThreatGraph fl dg)
      → dg.node s.graph address ≢ none
      → (a : String)
      → In a (peel_back fl dg address max_depth s)
        ↔ ((a ≢ address) × ((n : ℕ) × (n ≤ max_depth) × Walk fl dg s.graph n a address))
  peel_back-exact address max_depth s known a = elim (Option-cases (dg.node s.graph address)) [
    | inl missing ↦ absurd (known missing)
    | inr (w, e) ↦
        let same = peel_back_known address max_depth s w e in
        (
          (λ m. at_most (
              peel_sound fl dg s.graph address max_depth 0 (address ∷ []) [] start (λ x i. absurd i)
                a (subst (In a) same m))),
          (λ (other, (n, h, walk)). subst (In a) (sym same) (
              others _ other (
                peel_complete fl dg s.graph address max_depth (address ∷ []) [] closed address
                  (inl refl) n a h walk))),
        )
  ]
    where
      start : (x : String) → In x (address ∷ []) → Within fl dg s.graph address 0 x
      start x (inl q) = (0, omega arith, q)
      start x (inr i) = absurd i

      closed : Closed fl dg s.graph address (address ∷ []) []
      closed b (inl q) = inl (inl q)
      closed b (inr i) = absurd i

      at_most :
          (a ≢ address) × Within fl dg s.graph address (0 + max_depth) a
          → (a ≢ address) × ((n : ℕ) × (n ≤ max_depth) × Walk fl dg s.graph n a address)
      at_most (other, (n, h, walk)) = (other, (n, omega (arith, h), walk))

      others : (xs : List String) → a ≢ address → Known address a xs → In a xs
      others xs other (inl q) = absurd (other q)
      others xs other (inr m) = m
