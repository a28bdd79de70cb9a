-- ===== src/UnionFind/Merge.antt =====
-- `union` and `same_cluster` of `UnionFind` (src/graph/threat_graph.py), whole calls.
use text.Mathlib.Text.{◌==◌}
use cryptosentinel_ai.Prelude.{
  String, ◌≡◌, sym, ◌∙◌, subst, ◌≢◌, inl, inr, arith, ◌↔◌, some, String-cases, eq_iff, true, Bool,
}
use cryptosentinel_ai.UnionFind.Defs.{UnionFind, find, union, attach, same_cluster}
use cryptosentinel_ai.UnionFind.Roots.{Root, Root-unique, Root-fixed}
use cryptosentinel_ai.UnionFind.Invariant.{par, Member, IsValid}
use cryptosentinel_ai.UnionFind.Compress.{Root-Member}
use cryptosentinel_ai.UnionFind.Find.{find_lem}
use cryptosentinel_ai.UnionFind.Union.{
  SameRoot, SameClusters, Extends-SameClusters, Joined, Joined-of_at, Joined-at_of, attach_lem,
}

-- The state after `find x` and then `find y`.
record FoundBoth (u : UnionFind) (x y rx ry : String) (w : UnionFind) : Type 0 where
  x_root : Root (par w) x rx
  y_root : Root (par w) y ry
  valid : IsValid w
  same : SameClusters u w
  x_known : Member w x
  y_known : Member w y

find_both :
    (x y : String) (u : UnionFind)
    → IsValid u
    → (rx ry : String) × (v w : UnionFind) × (find x u ≡ some (rx, v))
      × (find y v ≡ some (ry, w))
      × FoundBoth u x y rx ry w
find_both x y u h =
    let (rx, v, ex, fx) = find_lem x u h in
    let (ry, w, ey, fy) = find_lem y v fx.valid in
    let same_v = Extends-SameClusters h fx.extends in
    let same_w = Extends-SameClusters fx.valid fy.extends in
    (
      rx,
      ry,
      v,
      w,
      ex,
      ey,
      record {
        x_root = fy.extends.roots x rx (fx.extends.roots x rx fx.root);
        y_root = fy.extends.roots y ry fy.root;
        valid = fy.valid;
        same =
            λ a b. (λ s. (same_v a b).0 ((same_w a b).0 s), λ s. (same_w a b).1 ((same_v a b).1 s));
        x_known = fy.extends.members x fx.extends.present;
        y_known = fy.extends.present;
      },
    )

SameRoot-sym : (u : UnionFind) (a b : String) → SameRoot u a b → SameRoot u b a
SameRoot-sym u a b (r, p, q) = (r, q, p)

SameRoot-trans : (u : UnionFind) (a b c : String) → SameRoot u a b → SameRoot u b c → SameRoot u a c
SameRoot-trans u a b c (r, p, q) (s, q', t) = (r, p, subst (Root (par u) c) (Root-unique q' q) t)

-- Joining what is together already changes nothing.
Joined-same :
    (u : UnionFind) (x y : String)
    → SameRoot u x y
    → (a b : String) → Joined u x y a b
    → SameRoot u a b
Joined-same u x y s a b (inl same) = same
Joined-same u x y s a b (inr (inl (p, q))) =
    SameRoot-trans u a x b p (SameRoot-trans u x y b s (SameRoot-sym u b y q))
Joined-same u x y s a b (inr (inr (p, q))) =
    SameRoot-trans u a y b p (SameRoot-trans u y x b (SameRoot-sym u x y s) (SameRoot-sym u b x q))

Joined-cong :
    (u w : UnionFind) (x y : String)
    → SameClusters u w
    → (a b : String) → Joined w x y a b
    → Joined u x y a b
Joined-cong u w x y c a b (inl s) = inl ((c a b).0 s)
Joined-cong u w x y c a b (inr (inl (p, q))) = inr (inl ((c a x).0 p, (c b y).0 q))
Joined-cong u w x y c a b (inr (inr (p, q))) = inr (inr ((c a y).0 p, (c b x).0 q))

SameClusters-sym : (u w : UnionFind) → SameClusters u w → SameClusters w u
SameClusters-sym u w c a b = ((c a b).1, (c a b).0)

module _ (x y : String) (u : UnionFind) {rx ry : String} {v w : UnionFind}
    (ex : find x u ≡ some (rx, v)) (ey : find y v ≡ some (ry, w)) where
  union-same : rx ≡ ry → union x y u ≡ some w
  unfolding union
  union-same e = ground (arith, ex, ey, eq_iff rx ry)

  union-attach : rx ≢ ry → union x y u ≡ attach rx ry w
  unfolding union
  union-attach ne = ground (arith, ex, ey, eq_iff rx ry)

  same_cluster-eq : same_cluster x y u ≡ some (rx == ry, w)
  unfolding same_cluster
  same_cluster-eq = ground (arith, ex, ey)

module _ {u w : UnionFind} {x y rx ry : String} (f : FoundBoth u x y rx ry w) where
  Joined-from :
      (z : UnionFind)
      → ((a b : String) → SameRoot z a b ↔ Joined w x y a b)
      → (a b : String) → SameRoot z a b ↔ Joined u x y a b
  Joined-from z j a b = (
    λ s. Joined-cong u w x y f.same a b ((j a b).0 s),
    λ s. (j a b).1 (Joined-cong w u x y (SameClusters-sym u w f.same) a b s),
  )

  Joined-already : rx ≡ ry → (a b : String) → SameRoot w a b ↔ Joined w x y a b
  Joined-already e a b =
      (λ s. inl s, Joined-same w x y (rx, f.x_root, subst (Root (par w) y) (sym e) f.y_root) a b)

  attached :
      rx ≢ ry
      → (z : UnionFind) × (attach rx ry w ≡ some z)
        × IsValid z
        × ((a b : String) → SameRoot z a b ↔ Joined w x y a b)
  attached ne =
      let rx_known = Root-Member f.valid f.x_root f.x_known in
      let ry_known = Root-Member f.valid f.y_root f.y_known in
      let (m, rank_x) = f.valid.ranked rx rx_known in
      let (n, rank_y) = f.valid.ranked ry ry_known in
      let (z, e, k, j) =
        attach_lem f.valid ne (Root-fixed f.x_root) (Root-fixed f.y_root) rx_known ry_known rank_x
          rank_y in
      (
        z,
        e,
        k,
        λ a b. (
          λ s. Joined-of_at w f.x_root f.y_root a b ((j a b).0 s),
          λ s. (j a b).1 (Joined-at_of w f.x_root f.y_root a b s),
        ),
      )

-- In a well-formed state `union x y` never fails, keeps the state well formed, and joins the
-- clusters of `x` and `y` and no other two.
pub union_joins :
    (x y : String) (u : UnionFind)
    → IsValid u
    → (v : UnionFind) × (union x y u ≡ some v)
      × IsValid v
      × ((a b : String) → SameRoot v a b ↔ Joined u x y a b)
union_joins x y u h =
    let (rx, ry, v, w, ex, ey, f) = find_both x y u h in
    elim (String-cases rx ry) [
      | inl e ↦ (w, union-same x y u ex ey e, f.valid, Joined-from f w (Joined-already f e))
      | inr ne ↦
          let (z, e, k, j) = attached f ne in
          (z, union-attach x y u ex ey ne ∙ e, k, Joined-from f z j)
    ]

-- In a well-formed state `same_cluster x y` never fails, keeps the state well formed and every
-- cluster as it was, and answers yes exactly when `x` and `y` have the same root.
pub same_cluster_iff :
    (x y : String) (u : UnionFind)
    → IsValid u
    → (b : Bool) × (v : UnionFind) × (same_cluster x y u ≡ some (b, v))
      × IsValid v
      × SameClusters u v
      × ((b ≡ true) ↔ SameRoot u x y)
same_cluster_iff x y u h =
    let (rx, ry, v, w, ex, ey, f) = find_both x y u h in
    (
      rx == ry,
      w,
      same_cluster-eq x y u ex ey,
      f.valid,
      f.same,
      (
        λ e.
            (f.same x y).0
              (rx, f.x_root, subst (Root (par w) y) (sym ((eq_iff rx ry).0 e)) f.y_root),
        λ s.
            let (r, p, q) = (f.same x y).1 s in
            (eq_iff rx ry).1 (Root-unique f.x_root p ∙ Root-unique q f.y_root),
      ),
    )
