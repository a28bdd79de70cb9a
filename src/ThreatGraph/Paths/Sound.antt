-- ===== src/ThreatGraph/Paths/Sound.antt =====
-- What `find_laundering_paths` (src/graph/threat_graph.py) returns are simple paths from the source.
use cryptosentinel_ai.Prelude.{
  ℕ, zero, suc, ◌+◌, ◌≤◌, ◌<◌, ◌≡◌, refl, sym, ap, subst, ◌∙◌, ◌≢◌, ◌⊎◌, ◌↔◌, inl, inr, String,
  true, false, not, none, some, List, [], ◌∷◌, ◌++◌, map, length, keep, ltb, leb, In, In-keep,
  keep-In, In-append_cases, In-append_left, In-append_right, ltb→lt, leb→le, arith, eq_iff,
  Bool-cases, String-cases, length-append,
}
use cryptosentinel_ai.Float.{Float}
use cryptosentinel_ai.DiGraph.{DiGraph}
use cryptosentinel_ai.ThreatGraph.Defs.{WalletNode, TransactionEdge}
use cryptosentinel_ai.ThreatGraph.Paths.Search.{contains, last, extensions, record_path, search}

pub some_inj : {x y : List (List String)} → some x ≡ some y → x ≡ y
some_inj e = cc

pub contains_iff : (x : String) (xs : List String) → (contains x xs ≡ true) ↔ In x xs
contains_iff x [] = (λ h. cc, λ h. absurd h)
contains_iff x (y ∷ ys) = let (f, g) = contains_iff x ys in (λ h. split f h, λ h. join g h)
  where
    split : (contains x ys ≡ true → In x ys) → contains x (y ∷ ys) ≡ true → In x (y ∷ ys)
    split f h = elim (String-cases x y) [
      | inl e ↦ inl e
      | inr ne ↦ inr (f (ground (arith, eq_iff x y)))
    ]

    join : (In x ys → contains x ys ≡ true) → In x (y ∷ ys) → contains x (y ∷ ys) ≡ true
    join g (inl e) = ground (arith, eq_iff x y)
    join g (inr m) = ground (arith, g m)

pub In-map :
    {A B : Type 0} (f : A → B) (b : B) (xs : List A)
    → In b (map f xs)
    → (a : A) × In a xs × (b ≡ f a)
In-map f b [] h = absurd h
In-map f b (x ∷ xs) (inl e) = (x, inl refl, e)
In-map f b (x ∷ xs) (inr h) = let (a, m, e) = In-map f b xs h in (a, inr m, e)

pub map-In : {A B : Type 0} (f : A → B) (a : A) (xs : List A) → In a xs → In (f a) (map f xs)
map-In f a (x ∷ xs) (inl e) = inl (ap f e)
map-In f a (x ∷ xs) (inr h) = inr (map-In f a xs h)
map-In f a [] h = h

module _ (fl : Float) (dg : DiGraph (WalletNode fl) (TransactionEdge fl)) (g : dg.G) where
  open dg use {edge, successors, In-successors}

  -- `Grow p q`: `q` goes on from `p` along edges, and comes to no wallet twice.
  pub data Grow (p : List String) : List String → Type 0 where
    here : {q : List String} → q ≡ p → Grow p q
    more :
        {q r : List String} (b : String)
        → Grow p q
        → edge g (last q) b ≢ none
        → ¬ In b q
        → r ≡ q ++ b ∷ []
        → Grow p r

  -- A simple path from the source of one to `max_depth` edges.
  pub record IsLaunderingPath (source : String) (max_depth : ℕ) (q : List String) : Type 0 where
    pub grows : Grow (source ∷ []) q
    pub nontrivial : 1 < length q
    pub shallow : length q ≤ max_depth + 1

  pub extensions_lem :
      (p q : List String)
      → In q (extensions p (successors g (last p)))
        ↔ ((b : String) × (edge g (last p) b ≢ none) × (¬ In b p) × (q ≡ p ++ b ∷ []))
  unfolding extensions
  extensions_lem p q = (
    λ h.
        let (b, kept, e) =
          In-map (λ n. p ++ n ∷ []) q (keep (λ n. not (contains n p)) (successors g (last p))) h in
        let (m, fresh) = In-keep (λ n. not (contains n p)) b (successors g (last p)) kept in
        (
          b,
          (In-successors g (last p) b).0 m,
          (λ old. ground (arith, fresh, (contains_iff b p).1 old)),
          e,
        ),
    λ (b, there, fresh, e).
        subst
          (λ t.
            In t (map (λ n. p ++ n ∷ []) (keep (λ n. not (contains n p)) (successors g (last p)))))
          (sym e)
          (map-In (λ n. p ++ n ∷ []) b (keep (λ n. not (contains n p)) (successors g (last p)))
            (keep-In (λ n. not (contains n p)) b (successors g (last p))
              ((In-successors g (last p) b).1 there) (not_contained b p fresh))),
  )
    where
      not_contained : (b : String) (p : List String) → ¬ In b p → not (contains b p) ≡ true
      not_contained b p fresh = elim (Bool-cases (contains b p)) [
        | inl e ↦ absurd (fresh ((contains_iff b p).0 e))
        | inr e ↦ rw e
      ]

  pub In-record_path :
      (p : List String) (paths : List (List String)) (q : List String)
      → In q (record_path fl dg p paths) ↔ (In q paths ⊎ ((q ≡ p) × (1 < length p)))
  unfolding record_path
  In-record_path p paths q = elim (Bool-cases (ltb 1 (length p))) [
    | inl e ↦
        rw (e, record_path)
          (
            λ h. elim (In-append_cases q paths (p ∷ []) h) [
              | inl old ↦ inl old
              | inr (inl same) ↦ inr (same, ltb→lt 1 (length p) e)
              | inr (inr none_left) ↦ absurd none_left
            ],
            λ h. elim h [
              | inl old ↦ In-append_left q paths (p ∷ []) old
              | inr (same, _) ↦ In-append_right q paths (p ∷ []) (inl same)
            ],
          )
    | inr e ↦
        rw (e, record_path)
          (λ h. inl h, λ h. elim h [ inl old ↦ old | inr (_, long) ↦ absurd (short e long) ])
  ]
    where
      short : ltb 1 (length p) ≡ false → ¬ (1 < length p)
      short e long = ground arith

  module _ (d m f : ℕ) (p : List String) (frontier paths : List (List String)) where
    abbrev pub found : List (List String)
    found = record_path fl dg p paths

    abbrev pub pushed : List (List String)
    pushed = frontier ++ extensions p (successors g (last p))

    pub search_deep :
        leb (d + 1) (length p) ≡ true
        → search fl dg g d m (suc f) (p ∷ frontier) paths ≡ search fl dg g d m f frontier found
    unfolding search
    search_deep e = ground arith

    pub search_full :
        leb (d + 1) (length p) ≡ false
        → leb m (length found) ≡ true
        → search fl dg g d m (suc f) (p ∷ frontier) paths ≡ some found
    unfolding search
    search_full e h = ground arith

    pub search_on :
        leb (d + 1) (length p) ≡ false
        → leb m (length found) ≡ false
        → search fl dg g d m (suc f) (p ∷ frontier) paths ≡ search fl dg g d m f pushed found
    unfolding search
    search_on e h = ground arith

    -- One round of the loop: it goes on with some frontier, or stops at the limit.
    pub search_cases :
        ((leb (d + 1) (length p) ≡ true)
          × (search fl dg g d m (suc f) (p ∷ frontier) paths ≡ search fl dg g d m f frontier found))
        ⊎ ((leb (d + 1) (length p) ≡ false)
            × (m ≤ length found)
            × (search fl dg g d m (suc f) (p ∷ frontier) paths ≡ some found))
        ⊎ ((leb (d + 1) (length p) ≡ false)
            × (search fl dg g d m (suc f) (p ∷ frontier) paths ≡ search fl dg g d m f pushed found))
    search_cases = elim (Bool-cases (leb (d + 1) (length p))) [
      | inl deep ↦ inl (deep, search_deep deep)
      | inr shallow ↦ elim (Bool-cases (leb m (length found))) [
        | inl full ↦ inr (inl (shallow, leb→le m (length found) full, search_full shallow full))
        | inr free ↦ inr (inr (shallow, search_on shallow free))
      ]
    ]

  module _ (source : String) (d m : ℕ) where
    abbrev pub Live : List String → Type 0
    Live p = Grow (source ∷ []) p × (length p ≤ d + 1)

    Live-pushed :
        (p : List String) (q : List String)
        → Live p
        → leb (d + 1) (length p) ≡ false
        → In q (extensions p (successors g (last p)))
        → Live q
    Live-pushed p q (grown, len) shallow h =
        let (b, there, fresh, e) = (extensions_lem p q).0 h in
        (
          more b grown there fresh e,
          omega (arith, ap length e, length-append p (b ∷ []), not_deep _ _ shallow),
        )
      where
        not_deep : (a b : ℕ) → leb a b ≡ false → b < a
        not_deep a b e = ground arith

    pub search_sound :
        (f : ℕ) (frontier paths r : List (List String))
        → ((p : List String) → In p frontier → Live p)
        → ((q : List String) → In q paths → IsLaunderingPath source d q)
        → search fl dg g d m f frontier paths ≡ some r
        → (q : List String) → In q r
        → IsLaunderingPath source d q
    search_sound f [] paths r live ok e q h = ok q (subst (In q) (sym (ends e)) h)
      where
        ends : search fl dg g d m f [] paths ≡ some r → paths ≡ r
        ends e = unfold search in some_inj e
    search_sound zero (p ∷ frontier) paths r live ok e q h = absurd (unfold search in cc e)
    search_sound (suc f) (p ∷ frontier) paths r live ok e q h =
        let ok' = λ (q : List String) (k : In q (record_path fl dg p paths)).
          recorded q ((In-record_path p paths q).0 k) in
        elim (search_cases d m f p frontier paths) [
          | inl (deep, s) ↦
              search_sound f frontier (record_path fl dg p paths) r (λ x k. live x (inr k)) ok'
                (sym s ∙ e) q h
          | inr (inl (_, _, s)) ↦ ok' q (subst (In q) (some_inj (sym e ∙ s)) h)
          | inr (inr (shallow, s)) ↦
              search_sound f (pushed d m f p frontier paths) (record_path fl dg p paths) r
                (λ x k. elim (In-append_cases x frontier _ k) [
                  | inl old ↦ live x (inr old)
                  | inr new ↦ Live-pushed p x (live p (inl refl)) shallow new
                ])
                ok' (sym s ∙ e) q h
        ]
      where
        recorded :
            (q : List String)
            → (In q paths ⊎ ((q ≡ p) × (1 < length p)))
            → IsLaunderingPath source d q
        recorded q (inl old) = ok q old
        recorded q (inr (e, long)) = subst (IsLaunderingPath source d) (sym e) (
            let (grown, len) = live p (inl refl) in
            record { grows = grown; nontrivial = long; shallow = len })
