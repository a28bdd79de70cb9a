-- ===== src/UnionFind/Invariant.antt =====
-- The well-formedness of the two dicts of `UnionFind` (src/graph/threat_graph.py), and what
-- `ensure` and a path compression do to it.
use cryptosentinel_ai.Prelude.{
  ℕ, ◌<◌, String, ◌≡◌, refl, sym, ap, ◌∙◌, subst, ◌≢◌, ◌⊎◌, inl, inr, arith, Option, none, some,
  Option-cases, String-cases, eq_self,
}
use cryptosentinel_ai.Dict.{lookup, insert, lookup-insert, lookup-insert_self, lookup-insert_ne}
use cryptosentinel_ai.UnionFind.Defs.{UnionFind, ensure}
use cryptosentinel_ai.UnionFind.Roots.{Root, Root-cong}

abbrev pub or_else {ℓ} : {A : Type ℓ} → A → Option A → A
or_else d none = d
or_else d (some a) = a

-- The parent of a text; one that is not in the dict is its own root.
abbrev pub par : UnionFind → String → String
par u x = or_else x (lookup x u.parent)

abbrev pub rk : UnionFind → String → ℕ
rk u x = or_else 0 (lookup x u.rank)

abbrev pub Member : UnionFind → String → Type 0
Member u x = (p : String) × (lookup x u.parent ≡ some p)

pub record IsValid (u : UnionFind) : Type 0 where
  pub climbs : (x : String) → par u x ≢ x → rk u x < rk u (par u x)
  pub closed : (x : String) → Member u x → Member u (par u x)
  pub ranked : (x : String) → Member u x → (n : ℕ) × (lookup x u.rank ≡ some n)
  pub unranked : (x : String) → lookup x u.parent ≡ none → lookup x u.rank ≡ none

-- What a step may change: parents only along their chains, no rank, and the texts stay.
pub record Extends (u v : UnionFind) (x : String) : Type 0 where
  pub roots : (y s : String) → Root (par u) y s → Root (par v) y s
  pub ranks : (y : String) → rk v y ≡ rk u y
  pub members : (y : String) → Member u y → Member v y
  pub no_more : (y : String) → Member v y → Member u y ⊎ (y ≡ x)
  pub present : Member v x

-- A new text is its own parent, at rank 0.
abbrev pub added : String → UnionFind → UnionFind
added x u = record { parent = insert x x u.parent; rank = insert x 0 u.rank }

module _ (x : String) (u : UnionFind) where
  pub ensure_new : lookup x u.parent ≡ none → ensure x u ≡ added x u
  unfolding ensure
  ensure_new e = rw (e, ensure)

  pub ensure_old : {p : String} → lookup x u.parent ≡ some p → ensure x u ≡ u
  unfolding ensure
  ensure_old e = rw (e, ensure)

  module _ (new : lookup x u.parent ≡ none) where
    par-added : (y : String) → par (added x u) y ≡ par u y
    par-added y = elim (String-cases x y) [
      | inl e ↦ simp (lookup-insert, ← e, eq_self, new)
      | inr ne ↦ simp (lookup-insert_ne x y x u.parent ne)
    ]

    rk-added : lookup x u.rank ≡ none → (y : String) → rk (added x u) y ≡ rk u y
    rk-added bare y = elim (String-cases x y) [
      | inl e ↦ simp (lookup-insert, ← e, eq_self, bare)
      | inr ne ↦ simp (lookup-insert_ne x y 0 u.rank ne)
    ]

    Member-added : (y : String) → Member u y → Member (added x u) y
    Member-added y (p, e) = elim (String-cases x y) [
      | inl same ↦ (x, rw (← same) (lookup-insert_self x x u.parent))
      | inr ne ↦ (p, lookup-insert_ne x y x u.parent ne ∙ e)
    ]

    added-Member : (y : String) → Member (added x u) y → Member u y ⊎ (y ≡ x)
    added-Member y (p, e) = elim (String-cases x y) [
      | inl same ↦ inr (sym same)
      | inr ne ↦ inl (p, sym (lookup-insert_ne x y x u.parent ne) ∙ e)
    ]

    added-climbs :
        IsValid u
        → (y : String) → par (added x u) y ≢ y
        → rk (added x u) y < rk (added x u) (par (added x u) y)
    added-climbs h y n = omega (
      arith,
      rk-added (h.unranked x new) y,
      rk-added (h.unranked x new) (par (added x u) y),
      ap (rk u) (par-added y),
      h.climbs y (λ e. n (par-added y ∙ e)),
    )

    added-closed :
        IsValid u → (y : String) → Member (added x u) y → Member (added x u) (par (added x u) y)
    added-closed h y m = elim (added-Member y m) [
      | inl old ↦
          subst (Member (added x u)) (sym (par-added y)) (Member-added (par u y) (h.closed y old))
      | inr e ↦
          subst (Member (added x u)) (sym (par-added y ∙ ap (par u) e ∙ ap (or_else x) new))
            (x, lookup-insert_self x x u.parent)
    ]

    added-ranked :
        IsValid u
        → (y : String) → Member (added x u) y
        → (n : ℕ) × (lookup y (added x u).rank ≡ some n)
    added-ranked h y m = elim (String-cases x y) [
      | inl e ↦ (0, rw (← e) (lookup-insert_self x 0 u.rank))
      | inr ne ↦
          let (n, e) =
            h.ranked y (elim (added-Member y m) [ inl old ↦ old | inr e ↦ absurd (ne (sym e)) ]) in
          (n, lookup-insert_ne x y 0 u.rank ne ∙ e)
    ]

    added-unranked :
        IsValid u
        → (y : String) → lookup y (added x u).parent ≡ none
        → lookup y (added x u).rank ≡ none
    added-unranked h y e = elim (String-cases x y) [
      | inl same ↦ cc (
        e,
        subst (λ t. lookup t (insert x x u.parent) ≡ some x) same (lookup-insert_self x x u.parent),
      )
      | inr ne ↦
          lookup-insert_ne x y 0 u.rank ne
          ∙ h.unranked y (sym (lookup-insert_ne x y x u.parent ne) ∙ e)
    ]

    added-IsValid : IsValid u → IsValid (added x u)
    added-IsValid h = record {
      climbs = added-climbs h;
      closed = added-closed h;
      ranked = added-ranked h;
      unranked = added-unranked h;
    }

    added-Extends : IsValid u → Extends u (added x u) x
    added-Extends h = record {
      roots = λ y s d. Root-cong par-added d;
      ranks = rk-added (h.unranked x new);
      members = Member-added;
      no_more = added-Member;
      present = (x, lookup-insert_self x x u.parent);
    }

  pub Extends-refl : {p : String} → lookup x u.parent ≡ some p → Extends u u x
  Extends-refl {p} e = record {
    roots = λ y s d. d;
    ranks = λ y. refl;
    members = λ y m. m;
    no_more = λ y m. inl m;
    present = (p, e);
  }

  -- `ensure` makes `x` known, and changes nothing else that counts.
  pub ensure_lem : IsValid u → IsValid (ensure x u) × Extends u (ensure x u) x
  ensure_lem h = elim (Option-cases (lookup x u.parent)) [
    | inl new ↦ rw (ensure_new new) (added-IsValid new h, added-Extends new h)
    | inr (p, old) ↦ rw (ensure_old old) (h, Extends-refl old)
  ]
