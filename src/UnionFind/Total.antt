-- ===== src/UnionFind/Total.antt =====
-- In a well-formed `UnionFind` (src/graph/threat_graph.py) every text has a root: the ranks bound
-- the length of a chain.
use cryptosentinel_ai.Prelude.{
  ℕ, zero, suc, ◌+◌, ◌≤◌, ◌<◌, String, refl, subst, inl, inr, arith, [], ◌∷◌, String-cases,
}
use cryptosentinel_ai.Dict.{Dict, lookup, values}
use cryptosentinel_ai.UnionFind.Defs.{UnionFind, max_of}
use cryptosentinel_ai.UnionFind.Roots.{Root, stop, step, Root-unique}
use cryptosentinel_ai.UnionFind.Invariant.{or_else, par, rk, IsValid, Extends}

rank-le-max : (d : Dict ℕ) (x : String) → or_else 0 (lookup x d) ≤ max_of (values d)
unfolding lookup
rank-le-max [] x = omega arith
rank-le-max ((j, n) ∷ d) x = ground (arith, rank-le-max d x)

abbrev pub top : UnionFind → ℕ
top u = max_of (values u.rank)

pub rk-le-top : (u : UnionFind) (x : String) → rk u x ≤ top u
rk-le-top u x = rank-le-max u.rank x

Root-within :
    (n : ℕ) {u : UnionFind} (x : String)
    → IsValid u
    → top u < n + rk u x
    → (r : String) × Root (par u) x r
Root-within zero {u} x h lt = absurd (omega (arith, rk-le-top u x))
Root-within (suc n) {u} x h lt = elim (String-cases (par u x) x) [
  | inl e ↦ (x, stop e refl)
  | inr ne ↦ let (r, d) = Root-within n (par u x) h (omega (arith, h.climbs x ne)) in (r, step ne d)
]

pub Root-total : {u : UnionFind} → IsValid u → (x : String) → (r : String) × Root (par u) x r
Root-total {u} h x = Root-within (suc (top u)) x h (omega arith)

-- A step that keeps the roots adds none.
pub Extends-back :
    {u v : UnionFind} {x : String}
    → IsValid u
    → Extends u v x
    → (y s : String) → Root (par v) y s
    → Root (par u) y s
Extends-back {u} h e y s d =
    let (r, c) = Root-total h y in subst (Root (par u) y) (Root-unique (e.roots y r c) d) c
