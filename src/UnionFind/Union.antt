-- ===== src/UnionFind/Union.antt =====
-- `find`, `union` and `same_cluster` of `UnionFind` (src/graph/threat_graph.py) against the
-- partition of the wallets by their roots.
use cryptosentinel_ai.Prelude.{
  ℕ, String, ◌≡◌, refl, sym, ◌∙◌, subst, ◌≢◌, ◌⊎◌, inl, inr, arith, ◌↔◌, some, eq_self, eq_iff,
  if◌then◌else◌, Bool-cases, ltb,
}
use cryptosentinel_ai.Dict.{lookup}
use cryptosentinel_ai.UnionFind.Defs.{UnionFind, init, link, find, attach}
use cryptosentinel_ai.UnionFind.Roots.{Root, Root-unique}
use cryptosentinel_ai.UnionFind.Invariant.{par, Member, IsValid, Extends}
use cryptosentinel_ai.UnionFind.Total.{Root-total, Extends-back}
use cryptosentinel_ai.UnionFind.Find.{find_lem}
use cryptosentinel_ai.UnionFind.Link.{moved, link-IsValid, link-Root}

-- Two wallets belong to one entity.
abbrev pub SameRoot : UnionFind → String → String → Type 0
SameRoot u a b = (r : String) × Root (par u) a r × Root (par u) b r

-- The same partition.
abbrev pub SameClusters : UnionFind → UnionFind → Type 0
SameClusters u v = (a b : String) → SameRoot v a b ↔ SameRoot u a b

pub Extends-SameClusters :
    {u v : UnionFind} {x : String} → IsValid u → Extends u v x → SameClusters u v
Extends-SameClusters h e a b = (
  λ s. (s.0, Extends-back h e a s.0 s.1, Extends-back h e b s.0 s.2),
  λ s. (s.0, e.roots a s.0 s.1, e.roots b s.0 s.2),
)

pub init-IsValid : IsValid init
unfolding lookup
init-IsValid = record {
  climbs = λ x n. absurd (n refl);
  closed = λ x m. cc (m.1);
  ranked = λ x m. cc (m.1);
  unranked = λ x e. refl;
}

-- In a well-formed state `find` never fails: it returns the root of its argument and keeps the
-- state well formed and every cluster as it was.
pub find_keeps_clusters :
    (x : String) (u : UnionFind)
    → IsValid u
    → (r : String) × (v : UnionFind) × (find x u ≡ some (r, v))
      × Root (par u) x r
      × IsValid v
      × SameClusters u v
find_keeps_clusters x u h =
    let (r, v, e, found) = find_lem x u h in
    (r, v, e, found.root, found.valid, Extends-SameClusters h found.extends)

moved_cases :
    (hi lo r s : String)
    → moved hi lo r ≡ moved hi lo s
    → (r ≡ s) ⊎ ((r ≡ hi) × (s ≡ lo)) ⊎ ((r ≡ lo) × (s ≡ hi))
moved_cases hi lo r s e = ground (arith, eq_iff r lo, eq_iff s lo)

moved-hi : (hi lo : String) → moved hi lo hi ≡ hi
moved-hi hi lo = ground (arith, eq_iff hi lo)

moved-lo : (hi lo : String) → moved hi lo lo ≡ hi
moved-lo hi lo = rw (eq_self lo)

-- Where the root `lo` went below `hi`, two wallets are together if they were, or if one was in
-- the cluster of `hi` and the other in that of `lo`.
abbrev pub JoinedAt : UnionFind → String → String → String → String → Type 0
JoinedAt u hi lo a b =
    SameRoot u a b
    ⊎ (Root (par u) a hi × Root (par u) b lo)
    ⊎ (Root (par u) a lo × Root (par u) b hi)

module _ (u v : UnionFind) (hi lo : String) (h : IsValid u)
    (move : (y s : String) → Root (par u) y s → Root (par v) y (moved hi lo s)) where
  joined_to : (a b : String) → SameRoot v a b → JoinedAt u hi lo a b
  joined_to a b (t, ta, tb) =
      let (r, ra) = Root-total h a in
      let (s, sb) = Root-total h b in
      elim (moved_cases hi lo r s (Root-unique (move a r ra) ta ∙ Root-unique tb (move b s sb))) [
        | inl e ↦ inl (r, ra, subst (Root (par u) b) (sym e) sb)
        | inr (inl (p, q)) ↦ inr (inl (subst (Root (par u) a) p ra, subst (Root (par u) b) q sb))
        | inr (inr (p, q)) ↦ inr (inr (subst (Root (par u) a) p ra, subst (Root (par u) b) q sb))
      ]

  joined_of : (a b : String) → JoinedAt u hi lo a b → SameRoot v a b
  joined_of a b (inl (r, ra, rb)) = (moved hi lo r, move a r ra, move b r rb)
  joined_of a b (inr (inl (ra, rb))) = (
    hi,
    subst (Root (par v) a) (moved-hi hi lo) (move a hi ra),
    subst (Root (par v) b) (moved-lo hi lo) (move b lo rb),
  )
  joined_of a b (inr (inr (ra, rb))) = (
    hi,
    subst (Root (par v) a) (moved-lo hi lo) (move a lo ra),
    subst (Root (par v) b) (moved-hi hi lo) (move b hi rb),
  )

-- What `union x y` promises: the clusters of `x` and `y` become one, and no other two.
abbrev pub Joined : UnionFind → String → String → String → String → Type 0
Joined u x y a b =
    SameRoot u a b ⊎ (SameRoot u a x × SameRoot u b y) ⊎ (SameRoot u a y × SameRoot u b x)

module _ (u : UnionFind) {x rx : String} (dx : Root (par u) x rx) where
  to_same : (a : String) → Root (par u) a rx → SameRoot u a x
  to_same a d = (rx, d, dx)

  of_same : (a : String) → SameRoot u a x → Root (par u) a rx
  of_same a (r, da, d) = subst (Root (par u) a) (Root-unique d dx) da

module _ (u : UnionFind) {x y rx ry : String} (dx : Root (par u) x rx) (dy : Root (par u) y ry)
    (a b : String) where
  pub Joined-of_at : JoinedAt u rx ry a b → Joined u x y a b
  Joined-of_at (inl s) = inl s
  Joined-of_at (inr (inl (p, q))) = inr (inl (to_same u dx a p, to_same u dy b q))
  Joined-of_at (inr (inr (p, q))) = inr (inr (to_same u dy a p, to_same u dx b q))

  pub Joined-at_of : Joined u x y a b → JoinedAt u rx ry a b
  Joined-at_of (inl s) = inl s
  Joined-at_of (inr (inl (p, q))) = inr (inl (of_same u dx a p, of_same u dy b q))
  Joined-at_of (inr (inr (p, q))) = inr (inr (of_same u dy a p, of_same u dx b q))

JoinedAt-swap : (u : UnionFind) (hi lo a b : String) → JoinedAt u hi lo a b → JoinedAt u lo hi a b
JoinedAt-swap u hi lo a b (inl s) = inl s
JoinedAt-swap u hi lo a b (inr (inl p)) = inr (inr p)
JoinedAt-swap u hi lo a b (inr (inr p)) = inr (inl p)

module _ {u : UnionFind} {rx ry : String} {m n : ℕ} (h : IsValid u) (differ : rx ≢ ry)
    (x_root : par u rx ≡ rx) (y_root : par u ry ≡ ry) (x_known : Member u rx)
    (y_known : Member u ry) (x_rank : lookup rx u.rank ≡ some m)
    (y_rank : lookup ry u.rank ≡ some n) where
  -- `attach` writes what `link` does, with the roots in the order of their ranks.
  attach-eq : attach rx ry u ≡ some (if ltb m n then link ry rx n m u else link rx ry m n u)
  unfolding attach
  attach-eq = ground (arith, x_rank, y_rank)

  pub attach_lem :
      (v : UnionFind) × (attach rx ry u ≡ some v)
      × IsValid v
      × ((a b : String) → SameRoot v a b ↔ JoinedAt u rx ry a b)
  attach_lem = elim (Bool-cases (ltb m n)) [
    | inl below ↦
        let v = link ry rx n m u in
        let move = λ (y s : String) (d : Root (par u) y s).
          link-Root h (λ q. differ (sym q)) y_root x_root y_known x_known y_rank x_rank
            (ground arith) d in
        (
          v,
          rw (attach-eq, below),
          link-IsValid h (λ q. differ (sym q)) y_root x_root y_known x_known y_rank x_rank
              (ground arith),
          λ a b. (
            λ s. JoinedAt-swap u ry rx a b (joined_to u v ry rx h move a b s),
            λ s. joined_of u v ry rx h move a b (JoinedAt-swap u rx ry a b s),
          ),
        )
    | inr above ↦
        let v = link rx ry m n u in
        let move = λ (y s : String) (d : Root (par u) y s).
          link-Root h differ x_root y_root x_known y_known x_rank y_rank (ground arith) d in
        (
          v,
          rw (attach-eq, above),
          link-IsValid h differ x_root y_root x_known y_known x_rank y_rank (ground arith),
          λ a b. (joined_to u v rx ry h move a b, joined_of u v rx ry h move a b),
        )
  ]
