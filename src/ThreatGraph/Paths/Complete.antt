-- ===== src/ThreatGraph/Paths/Complete.antt =====
-- How many rounds `find_laundering_paths` (src/graph/threat_graph.py) takes, and that it misses no path.
use native.Mathlib.Nat.{mul-le-mul_right, le_trans}
use cryptosentinel_ai.Prelude.{
  ℕ, zero, suc, ◌+◌, ◌*◌, ◌-◌, ◌≤◌, ◌<◌, ◌≡◌, refl, sym, ap, subst, ◌∙◌, ◌≢◌, ◌⊎◌, inl, inr, String,
  true, false, not, none, some, List, [], ◌∷◌, ◌++◌, map, length, keep, length-keep, leb, In,
  In-append_left, In-append_right, leb→le, arith, length-append, Option-cases,
}
use cryptosentinel_ai.Float.{Float}
use cryptosentinel_ai.DiGraph.{DiGraph}
use cryptosentinel_ai.ThreatGraph.Defs.{WalletNode, TransactionEdge, ThreatGraph}
use cryptosentinel_ai.ThreatGraph.Paths.Search.{
  contains, last, extensions, record_path, search, find_laundering_paths,
}
use cryptosentinel_ai.ThreatGraph.Paths.Sound.{
  some_inj, extensions_lem, In-record_path, IsLaunderingPath, Grow, here, more, found, pushed,
  search_cases, search_sound, Live,
}

-- The rounds that a path with `k` edges left to go takes, with what grows from it, where no
-- wallet has more than `width` successors.
abbrev pub rounds : ℕ → ℕ → ℕ
rounds width zero = 1
rounds width (suc k) = suc (width * rounds width k)

abbrev left : ℕ → List String → ℕ
left d p = (d + 1) - length p

abbrev total : ℕ → ℕ → List (List String) → ℕ
total width d [] = 0
total width d (p ∷ ps) = rounds width (left d p) + total width d ps

total-append :
    (w d : ℕ) (xs ys : List (List String)) → total w d (xs ++ ys) ≡ total w d xs + total w d ys
total-append w d [] ys = omega arith
total-append w d (x ∷ xs) ys = omega (arith, total-append w d xs ys)

length-map : {A B : Type 0} (f : A → B) (xs : List A) → length (map f xs) ≡ length xs
length-map f [] = refl
length-map f (x ∷ xs) = ap suc (length-map f xs)

-- What paths one edge longer than `p` take, when `p` has `k + 1` edges left.
total-grown :
    (w d k : ℕ) (p : List String) (ns : List String)
    → left d p ≡ suc k
    → total w d (map (λ n. p ++ n ∷ []) ns) ≤ length ns * rounds w k
total-grown w d k p [] e = omega arith
total-grown w d k p (n ∷ ns) e =
    let here_left = ap (rounds w) (shorter (ap suc (length-append p (n ∷ [])))) in
    omega (arith, total-grown w d k p ns e, here_left, suc_times (length ns) (rounds w k))
  where
    shorter : suc (length (p ++ n ∷ [])) ≡ suc (length p + 1) → left d (p ++ n ∷ []) ≡ k
    shorter h = omega (arith, h, e)

    suc_times : (a b : ℕ) → suc a * b ≡ b + a * b
    suc_times a b = omega arith

module _ (fl : Float) (dg : DiGraph (WalletNode fl) (TransactionEdge fl)) (g : dg.G) where
  open dg use {edge, successors, In-successors}

  module _ (w d m : ℕ) (narrow : (a : String) → length (successors g a) ≤ w) where
    total-extensions :
        (k : ℕ) (p : List String)
        → left d p ≡ suc k
        → total w d (extensions p (successors g (last p))) ≤ w * rounds w k
    unfolding extensions
    total-extensions k p e =
        let fresh = keep (λ n. not (contains n p)) (successors g (last p)) in
        omega (
          arith,
          total-grown w d k p fresh e,
          mul-le-mul_right (rounds w k) (
              le_trans (length-keep (λ n. not (contains n p)) (successors g (last p)))
                (narrow (last p))),
        )

    rounds_pos : (k : ℕ) → 1 ≤ rounds w k
    rounds_pos zero = omega arith
    rounds_pos (suc k) = omega arith

    search-total :
        (f : ℕ) (frontier paths : List (List String))
        → total w d frontier ≤ f
        → (r : List (List String)) × (search fl dg g d m f frontier paths ≡ some r)
    unfolding search
    search-total f [] paths h = (paths, refl)
    search-total zero (p ∷ frontier) paths h = absurd (omega (arith, h, rounds_pos (left d p)))
    search-total (suc f) (p ∷ frontier) paths h =
        elim (search_cases fl dg g d m f p frontier paths) [
          | inl (_, s) ↦
              let (r, e) =
                search-total f frontier (record_path fl dg p paths)
                  (omega (arith, h, rounds_pos (left d p))) in
              (r, s ∙ e)
          | inr (inl (_, _, s)) ↦ (record_path fl dg p paths, s)
          | inr (inr (shallow, s)) ↦
              let (k, e) = some_left shallow in
              let (r, e') =
                search-total f (pushed fl dg g d m f p frontier paths) (record_path fl dg p paths) (
                  omega (
                    arith,
                    h,
                    ap (rounds w) e,
                    total-extensions k p e,
                    total-append w d frontier (extensions p (successors g (last p))),
                  )) in
              (r, s ∙ e')
        ]
      where
        some_left : leb (d + 1) (length p) ≡ false → (k : ℕ) × (left d p ≡ suc k)
        some_left shallow = (d - length p, ground arith)

  -- A path that goes on from `p` is `p`, or goes on from one that is an edge longer.
  Grow-step :
      {p q : List String}
      → Grow fl dg g p q
      → (q ≡ p)
        ⊎ ((x : List String) × In x (extensions p (successors g (last p))) × Grow fl dg g x q)
  Grow-step (here e) = inl e
  Grow-step {p} {q = r} (more {q} b grown there fresh e) = elim (Grow-step grown) [
    | inl same ↦ inr (
      r,
      (extensions_lem fl dg g p r).1 (
        b,
        subst (λ t. edge g (last t) b ≢ none) same there,
        subst (λ t. ¬ In b t) same fresh,
        e ∙ ap (λ t. t ++ b ∷ []) same,
      ),
      here refl,
    )
    | inr (x, m, rest) ↦ inr (x, m, more b rest there fresh e)
  ]

  Grow-longer : {p q : List String} → Grow fl dg g p q → length p ≤ length q
  Grow-longer (here e) = omega (arith, ap length e)
  Grow-longer (more {q} b grown there fresh e) =
      omega (arith, Grow-longer grown, ap length e, length-append q (b ∷ []))

  module _ (source : String) (d m : ℕ) where
    -- `q` is recorded, or a path that it goes on from is still to be taken.
    abbrev Covered : List (List String) → List (List String) → List String → Type 0
    Covered frontier paths q = In q paths ⊎ ((p : List String) × In p frontier × Grow fl dg g p q)

    -- When `p` is taken off the frontier, `q` is recorded, goes on from another path, or from one
    -- that is an edge longer than `p`.
    Covered-taken :
        (p : List String) (frontier paths : List (List String)) (q : List String)
        → 1 < length q
        → Covered (p ∷ frontier) paths q
        → Covered frontier (record_path fl dg p paths) q
          ⊎ ((x : List String) × In x (extensions p (successors g (last p))) × Grow fl dg g x q)
    Covered-taken p frontier paths q long (inl old) =
        inl (inl ((In-record_path fl dg g p paths q).1 (inl old)))
    Covered-taken p frontier paths q long (inr (x, inr m, grown)) = inl (inr (x, m, grown))
    Covered-taken p frontier paths q long (inr (x, inl e, grown)) =
        elim (Grow-step (subst (λ t. Grow fl dg g t q) e grown)) [
          | inl same ↦ inl (
              inl (
                (In-record_path fl dg g p paths q).1
                  (inr (same, subst (λ t. 1 < length t) same long))))
          | inr longer ↦ inr longer
        ]

    Covered-deep :
        (p : List String) (frontier paths : List (List String)) (q : List String)
        → IsLaunderingPath fl dg g source d q
        → leb (d + 1) (length p) ≡ true
        → Covered (p ∷ frontier) paths q
        → Covered frontier (record_path fl dg p paths) q
    Covered-deep p frontier paths q is deep c =
        elim (Covered-taken p frontier paths q is.nontrivial c) [
          | inl covered ↦ covered
          | inr (x, m, grown) ↦
              let (b, _, _, e) = (extensions_lem fl dg g p x).0 m in
              absurd (
                omega (
                  arith,
                  is.shallow,
                  leb→le _ _ deep,
                  Grow-longer grown,
                  ap length e,
                  length-append p (b ∷ []),
                ))
        ]

    Covered-on :
        (p : List String) (frontier paths : List (List String)) (q : List String)
        → IsLaunderingPath fl dg g source d q
        → Covered (p ∷ frontier) paths q
        → Covered (frontier ++ extensions p (successors g (last p))) (record_path fl dg p paths) q
    Covered-on p frontier paths q is c =
        let ext = extensions p (successors g (last p)) in
        elim (Covered-taken p frontier paths q is.nontrivial c) [
          | inl (inl old) ↦ inl old
          | inl (inr (x, m, grown)) ↦ inr (x, In-append_left x frontier ext m, grown)
          | inr (x, m, grown) ↦ inr (x, In-append_right x frontier ext m, grown)
        ]

    search_complete :
        (f : ℕ) (frontier paths r : List (List String)) (q : List String)
        → IsLaunderingPath fl dg g source d q
        → Covered frontier paths q
        → search fl dg g d m f frontier paths ≡ some r
        → length r < m
        → In q r
    search_complete f [] paths r q is (inl old) e short = subst (In q) (ends e) old
      where
        ends : search fl dg g d m f [] paths ≡ some r → paths ≡ r
        ends e = unfold search in some_inj e
    search_complete f [] paths r q is (inr (x, m', _)) e short = absurd m'
    search_complete zero (p ∷ frontier) paths r q is c e short = absurd (unfold search in cc e)
    search_complete (suc f) (p ∷ frontier) paths r q is c e short =
        let rest = record_path fl dg p paths in
        elim (search_cases fl dg g d m f p frontier paths) [
          | inl (deep, s) ↦
              search_complete f frontier rest r q is (Covered-deep p frontier paths q is deep c)
                (sym s ∙ e) short
          | inr (inl (_, full, s)) ↦
              absurd (omega (arith, full, short, ap length (some_inj (sym e ∙ s))))
          | inr (inr (_, s)) ↦
              search_complete f (frontier ++ extensions p (successors g (last p))) rest r q is
                (Covered-on p frontier paths q is c) (sym s ∙ e) short
        ]

module _ (fl : Float) (dg : DiGraph (WalletNode fl) (TransactionEdge fl)) (s : ThreatGraph fl dg)
    (source : String) where
  -- For a wallet of the graph, where no wallet pays more than `width` others and fuel is at least
  -- `rounds width d`: `find_laundering_paths` returns a list; every path in it is a simple path
  -- along edges from the source of 1 to `max_depth` edges; and when the list is shorter than
  -- `max_paths`, it holds every such path.
  pub laundering_paths_exact :
      (width d m fuel : ℕ)
      → dg.node s.graph source ≢ none
      → ((a : String) → length (dg.successors s.graph a) ≤ width)
      → rounds width d ≤ fuel
      → (r : List (List String)) × (find_laundering_paths fl dg fuel source d m s ≡ some r)
        × ((q : List String) → In q r → IsLaunderingPath fl dg s.graph source d q)
        × (length r < m → (q : List String) → IsLaunderingPath fl dg s.graph source d q → In q r)
  unfolding find_laundering_paths
  laundering_paths_exact width d m fuel known narrow enough =
      elim (Option-cases (dg.node s.graph source)) [
        | inl absent ↦ absurd (known absent)
        | inr (v, e) ↦
            rw (e, find_laundering_paths)
              (let first = (source ∷ []) ∷ [] in
                let (r, found) =
                  search-total fl dg s.graph width d m narrow fuel first []
                    (omega (arith, enough, start)) in
                (
                  r,
                  found,
                  search_sound fl dg s.graph source d m fuel first [] r live
                      (λ q none_yet. absurd none_yet) found,
                  λ short q is.
                      search_complete fl dg s.graph source d m fuel first [] r q is
                        (inr (source ∷ [], inl refl, is.grows)) found short,
                ))
      ]
    where
      start : rounds width ((d + 1) - 1) ≡ rounds width d
      start = ap (rounds width) (omega arith)

      live : (p : List String) → In p ((source ∷ []) ∷ []) → Live fl dg s.graph source d m p
      live p (inl e) = (here e, omega (arith, ap length e))
      live p (inr none_left) = absurd none_left
