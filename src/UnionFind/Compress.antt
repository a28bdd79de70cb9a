-- ===== src/UnionFind/Compress.antt =====
-- Path compression, `self._parent[x] = self.find(...)` of `UnionFind.find`
-- (src/graph/threat_graph.py), keeps the invariant and every root.
use cryptosentinel_ai.Prelude.{
  ◌≤◌, ◌<◌, String, ◌≡◌, refl, sym, ap, ◌∙◌, subst, ◌≢◌, inl, inr, arith, none, some, String-cases,
}
use cryptosentinel_ai.Dict.{lookup, insert, lookup-insert_self, lookup-insert_ne}
use cryptosentinel_ai.UnionFind.Defs.{UnionFind, set_parent}
use cryptosentinel_ai.UnionFind.Roots.{Root, stop, step, Root-compress}
use cryptosentinel_ai.UnionFind.Invariant.{or_else, par, rk, Member, IsValid, Extends}

-- Ranks do not fall along a chain, and members lead to members.
pub Root-rank : {u : UnionFind} {x r : String} → IsValid u → Root (par u) x r → rk u x ≤ rk u r
Root-rank {u} h (stop e p) = omega (arith, ap (rk u) p)
Root-rank h (step {x = x} n d) = omega (arith, h.climbs x n, Root-rank h d)

pub Root-rank_lt :
    {u : UnionFind} {x r : String} → IsValid u → Root (par u) x r → r ≢ x → rk u x < rk u r
Root-rank_lt h (stop e p) ne = absurd (ne p)
Root-rank_lt h (step {x = x} n d) ne = omega (arith, h.climbs x n, Root-rank h d)

pub Root-Member :
    {u : UnionFind} {x r : String} → IsValid u → Root (par u) x r → Member u x → Member u r
Root-Member {u} h (stop e p) m = subst (Member u) (sym p) m
Root-Member h (step {x = x} n d) m = Root-Member h d (h.closed x m)

module _ {u : UnionFind} {x r : String} (h : IsValid u) (root : Root (par u) x r) (moved : r ≢ x)
    (known : Member u x) where
  abbrev after : UnionFind
  after = record u { parent = insert x r u.parent }

  at_x : par after x ≡ r
  at_x = ap (or_else x) (lookup-insert_self x r u.parent)

  off_x : (y : String) → x ≢ y → par after y ≡ par u y
  off_x y ne = ap (or_else y) (lookup-insert_ne x y r u.parent ne)

  stays : (y : String) → Member u y → Member after y
  stays y (p, e) = elim (String-cases x y) [
    | inl same ↦
        (r, subst (λ t. lookup t after.parent ≡ some r) same (lookup-insert_self x r u.parent))
    | inr ne ↦ (p, lookup-insert_ne x y r u.parent ne ∙ e)
  ]

  was : (y : String) → Member after y → Member u y
  was y (p, e) = elim (String-cases x y) [
    | inl same ↦ subst (Member u) same known
    | inr ne ↦ (p, sym (lookup-insert_ne x y r u.parent ne) ∙ e)
  ]

  after-climbs : (y : String) → par after y ≢ y → rk u y < rk u (par after y)
  after-climbs y n = elim (String-cases x y) [
    | inl same ↦ omega (
      arith,
      ap (rk u) same,
      ap (rk u) (ap (par after) (sym same) ∙ at_x),
      Root-rank_lt h root moved,
    )
    | inr ne ↦ omega (arith, ap (rk u) (off_x y ne), h.climbs y (λ e. n (off_x y ne ∙ e)))
  ]

  after-closed : (y : String) → Member after y → Member after (par after y)
  after-closed y m = elim (String-cases x y) [
    | inl same ↦
        subst (λ t. Member after (par after t)) same
          (subst (Member after) (sym at_x) (stays r (Root-Member h root known)))
    | inr ne ↦ subst (Member after) (sym (off_x y ne)) (stays (par u y) (h.closed y (was y m)))
  ]

  after-unranked : (y : String) → lookup y after.parent ≡ none → lookup y u.rank ≡ none
  after-unranked y e = elim (String-cases x y) [
    | inl same ↦
        cc (e, subst (λ t. lookup t after.parent ≡ some r) same (lookup-insert_self x r u.parent))
    | inr ne ↦ h.unranked y (sym (lookup-insert_ne x y r u.parent ne) ∙ e)
  ]

  pub compress-IsValid : IsValid (set_parent x r u)
  unfolding set_parent
  compress-IsValid = record {
    climbs = after-climbs;
    closed = after-closed;
    ranked = λ y m. h.ranked y (was y m);
    unranked = after-unranked;
  }

  pub compress-Extends : Extends u (set_parent x r u) x
  unfolding set_parent
  compress-Extends = record {
    roots = λ y s d. Root-compress at_x off_x root moved d;
    ranks = λ y. refl;
    members = stays;
    no_more = λ y m. inl (was y m);
    present = stays x known;
  }
