-- ===== src/UnionFind/Find.antt =====
-- `UnionFind.find` (src/graph/threat_graph.py) ends, returns the root, and keeps every root.
use cryptosentinel_ai.Prelude.{
  ℕ, zero, suc, ◌+◌, ◌≤◌, ◌<◌, String, ◌≡◌, refl, sym, ap, ◌∙◌, subst, ◌≢◌, inl, inr, arith, some,
  String-cases, eq_iff,
}
use cryptosentinel_ai.Dict.{lookup}
use cryptosentinel_ai.UnionFind.Defs.{UnionFind, ensure, set_parent, find_fuel, find, enough}
use cryptosentinel_ai.UnionFind.Roots.{Root, stop, step}
use cryptosentinel_ai.UnionFind.Invariant.{or_else, par, rk, Member, IsValid, Extends, ensure_lem}
use cryptosentinel_ai.UnionFind.Total.{top, rk-le-top, Extends-back}
use cryptosentinel_ai.UnionFind.Compress.{Root-rank_lt, compress-IsValid, compress-Extends}

-- The result of a call of `find`: the root, and the new state.
pub record Found (u : UnionFind) (x r : String) (v : UnionFind) : Type 0 where
  pub root : Root (par u) x r
  pub valid : IsValid v
  pub extends : Extends u v x

-- Steps along one chain make one step.
Extends-then :
    {u v w : UnionFind} {x y : String} → Extends u v x → Member v y → Extends v w y → Extends u w x
Extends-then {v = v} e m f = record {
  roots = λ z s d. f.roots z s (e.roots z s d);
  ranks = λ z. f.ranks z ∙ e.ranks z;
  members = λ z k. f.members z (e.members z k);
  no_more = λ z k. elim (f.no_more z k) [
    | inl old ↦ e.no_more z old
    | inr same ↦ e.no_more z (subst (Member v) (sym same) m)
  ];
  present = f.members _ e.present;
}

-- The last write of `find`, on the way back.
Found-back :
    {u v w : UnionFind} {x r : String}
    → IsValid u
    → IsValid v
    → Extends u v x
    → par v x ≢ x
    → Found v (par v x) r w
    → Found u x r (set_parent x r w)
Found-back {u} {v} {w} {x} {r} h k e n f =
    let below = step n f.root in
    let moved : r ≢ x = λ same. ranks_differ (Root-rank_lt k f.root) same in
    let there = f.extends.roots x r below in
    let known = f.extends.members x e.present in
    record {
      root = Extends-back h e x r below;
      valid = compress-IsValid f.valid there moved known;
      extends =
          Extends-then (Extends-then e (k.closed x e.present) f.extends) known
            (compress-Extends f.valid there moved known);
    }
  where
    ranks_differ : (r ≢ par v x → rk v (par v x) < rk v r) → r ≢ x
    ranks_differ lt same = elim (String-cases r (par v x)) [
      | inl p ↦ n (sym p ∙ same)
      | inr ne ↦ absurd (omega (arith, lt ne, k.climbs x n, ap (rk v) same))
    ]

module _ (f : ℕ) (x : String) (u : UnionFind) {p : String}
    (e : lookup x (ensure x u).parent ≡ some p) where
  find_fuel-root : p ≡ x → find_fuel (suc f) x u ≡ some (x, ensure x u)
  unfolding find_fuel
  find_fuel-root same = ground (arith, eq_iff p x)

  find_fuel-parent :
      {r : String} {w : UnionFind}
      → p ≢ x
      → find_fuel f p (ensure x u) ≡ some (r, w)
      → find_fuel (suc f) x u ≡ some (r, set_parent x r w)
  unfolding find_fuel
  find_fuel-parent ne found = ground (arith, eq_iff p x)

-- With fuel above the height that is left, `find` returns the root.
find_fuel_lem :
    (f : ℕ) (x : String) (u : UnionFind)
    → IsValid u
    → (top : ℕ) → ((y : String) → rk u y ≤ top)
    → top < f + rk u x
    → (r : String) × (v : UnionFind) × (find_fuel f x u ≡ some (r, v)) × Found u x r v
find_fuel_lem zero x u h top below lt = absurd (omega (arith, below x))
find_fuel_lem (suc f) x u h top below lt =
    let v = ensure x u in
    let (k, e) = ensure_lem x u h in
    let (p, known) = e.present in
    let at_x : par v x ≡ p = ap (or_else x) known in
    elim (String-cases p x) [
      | inl same ↦ (
        x,
        v,
        find_fuel-root f x u known same,
        record { root = Extends-back h e x x (stop (at_x ∙ same) refl); valid = k; extends = e },
      )
      | inr ne ↦
          let up : par v x ≢ x = λ q. ne (sym at_x ∙ q) in
          let (r, w, found, rest) =
            find_fuel_lem f p v k top (λ y. omega (arith, e.ranks y, below y))
              (omega (arith, e.ranks x, k.climbs x up, ap (rk v) at_x)) in
          (
            r,
            set_parent x r w,
            find_fuel-parent f x u known ne found,
            Found-back h k e up (subst (λ t. Found v t r w) (sym at_x) rest),
          )
    ]

-- In a well-formed state `find` returns, and what it returns is the root.
pub find_lem :
    (x : String) (u : UnionFind)
    → IsValid u
    → (r : String) × (v : UnionFind) × (find x u ≡ some (r, v)) × Found u x r v
unfolding find enough
find_lem x u h = find_fuel_lem (enough u) x u h (top u) (rk-le-top u) (omega arith)
