-- ===== src/UnionFind/Link.antt =====
-- The end of `UnionFind.union` (src/graph/threat_graph.py), where one root becomes the child of
-- another: the invariant, and the new roots.
use text.Mathlib.Text.{◌==◌}
use cryptosentinel_ai.Prelude.{
  ℕ, ◌+◌, ◌≤◌, ◌<◌, String, ◌≡◌, refl, sym, ap, ◌∙◌, subst, ◌≢◌, inl, inr, arith, none, some,
  Option-cases, String-cases, eq_of_ne, eq_iff, if◌then◌else◌, eqb,
}
use cryptosentinel_ai.Dict.{lookup, insert, lookup-insert_self, lookup-insert_ne}
use cryptosentinel_ai.UnionFind.Defs.{UnionFind, link}
use cryptosentinel_ai.UnionFind.Roots.{Root, stop, step}
use cryptosentinel_ai.UnionFind.Invariant.{or_else, par, rk, Member, IsValid}

-- The root after `lo` was put below `hi`.
abbrev pub moved : String → String → String → String
moved hi lo s = if s == lo then hi else s

module _ {f g : String → String} {hi lo : String} (hi_root : f hi ≡ hi) (lo_root : f lo ≡ lo)
    (differ : hi ≢ lo) (at_lo : g lo ≡ hi) (off_lo : (y : String) → lo ≢ y → g y ≡ f y) where
  pub Root-link : {y s : String} → Root f y s → Root g y (moved hi lo s)
  Root-link (stop {x = y} {r = s} e p) = elim (String-cases lo y) [
    | inl same ↦ rw ((eq_iff s lo).1 (p ∙ sym same)) (
        step (λ q. differ (sym at_lo ∙ ap g same ∙ q ∙ sym same))
          (subst (λ t. Root g t hi) (sym at_lo ∙ ap g same)
            (stop (off_lo hi (λ q. differ (sym q)) ∙ hi_root) refl)))
    | inr other ↦ rw (eq_of_ne s lo (λ q. other (sym q ∙ p))) (stop (off_lo y other ∙ e) p)
  ]
  Root-link (step {x = y} {r = s} n d) =
      let other : lo ≢ y = λ q. n (sym (ap f q) ∙ lo_root ∙ q) in
      step (λ q. n (sym (off_lo y other) ∙ q))
        (subst (λ t. Root g t (moved hi lo s)) (sym (off_lo y other)) (Root-link d))

module _ {hi lo : String} {m n : ℕ} {u : UnionFind} (h : IsValid u) (differ : hi ≢ lo)
    (hi_root : par u hi ≡ hi) (lo_root : par u lo ≡ lo) (hi_known : Member u hi)
    (lo_known : Member u lo) (hi_rank : lookup hi u.rank ≡ some m)
    (lo_rank : lookup lo u.rank ≡ some n) (order : n ≤ m) where
  abbrev after : UnionFind
  after = link hi lo m n u

  parent-link : after.parent ≡ insert lo hi u.parent
  unfolding link
  parent-link = ground arith

  at_lo : par after lo ≡ hi
  at_lo =
      ap (λ d. or_else lo (lookup lo d)) parent-link
      ∙ ap (or_else lo) (lookup-insert_self lo hi u.parent)

  off_lo : (y : String) → lo ≢ y → par after y ≡ par u y
  off_lo y ne =
      ap (λ d. or_else y (lookup y d)) parent-link
      ∙ ap (or_else y) (lookup-insert_ne lo y hi u.parent ne)

  rank_off : (y : String) → hi ≢ y → lookup y after.rank ≡ lookup y u.rank
  unfolding link
  rank_off y ne = ground (arith, lookup-insert_ne hi y (m + 1) u.rank ne)

  rank_hi : lookup hi after.rank ≡ some (if eqb m n then m + 1 else m)
  unfolding link
  rank_hi = ground (arith, lookup-insert_self hi (m + 1) u.rank)

  rank_grows : (y : String) → rk u y ≤ rk after y
  rank_grows y = elim (String-cases hi y) [
    | inl same ↦ subst (λ t. rk u t ≤ rk after t) same (ground (arith, rank_hi))
    | inr ne ↦ omega (arith, ap (or_else 0) (rank_off y ne))
  ]

  link-climbs : (y : String) → par after y ≢ y → rk after y < rk after (par after y)
  link-climbs y n' = elim (String-cases lo y) [
    | inl same ↦
        subst (λ t. rk after t < rk after (par after t)) same
          (ground (arith, rank_hi, rank_off lo differ, ap (rk after) at_lo))
    | inr ne ↦
        let other : hi ≢ y = λ q. n' (off_lo y ne ∙ ap (par u) (sym q) ∙ hi_root ∙ q) in
        omega (
          arith,
          ap (or_else 0) (rank_off y other),
          ap (rk after) (off_lo y ne),
          rank_grows (par u y),
          h.climbs y (λ q. n' (off_lo y ne ∙ q)),
        )
  ]

  pub Member-link : (y : String) → Member u y → Member after y
  Member-link y (p, e) = elim (String-cases lo y) [
    | inl same ↦ (
      hi,
      subst (λ t. lookup t after.parent ≡ some hi) same
          (ap (lookup lo) parent-link ∙ lookup-insert_self lo hi u.parent),
    )
    | inr ne ↦ (p, ap (lookup y) parent-link ∙ lookup-insert_ne lo y hi u.parent ne ∙ e)
  ]

  link-Member : (y : String) → Member after y → Member u y
  link-Member y (p, e) = elim (String-cases lo y) [
    | inl same ↦ subst (Member u) same lo_known
    | inr ne ↦ (p, sym (lookup-insert_ne lo y hi u.parent ne) ∙ ap (lookup y) (sym parent-link) ∙ e)
  ]

  link-closed : (y : String) → Member after y → Member after (par after y)
  link-closed y k = elim (String-cases lo y) [
    | inl same ↦
        subst (λ t. Member after (par after t)) same
          (subst (Member after) (sym at_lo) (Member-link hi hi_known))
    | inr ne ↦
        subst (Member after) (sym (off_lo y ne))
          (Member-link (par u y) (h.closed y (link-Member y k)))
  ]

  link-ranked : (y : String) → Member after y → (k : ℕ) × (lookup y after.rank ≡ some k)
  link-ranked y k = elim (String-cases hi y) [
    | inl same ↦ (
      if eqb m n then m + 1 else m,
      subst (λ t. lookup t after.rank ≡ some (if eqb m n then m + 1 else m)) same rank_hi,
    )
    | inr ne ↦ let (j, e) = h.ranked y (link-Member y k) in (j, rank_off y ne ∙ e)
  ]

  link-unranked : (y : String) → lookup y after.parent ≡ none → lookup y after.rank ≡ none
  link-unranked y e = elim (String-cases hi y) [
    | inl same ↦
        let (p, known) = Member-link hi hi_known in
        cc (e, subst (λ t. lookup t after.parent ≡ some p) same known)
    | inr ne ↦ rank_off y ne ∙ h.unranked y (unknown y e)
  ]
    where
      unknown : (y : String) → lookup y after.parent ≡ none → lookup y u.parent ≡ none
      unknown y e = elim (Option-cases (lookup y u.parent)) [
        | inl new ↦ new
        | inr (p, known) ↦ let (q, e') = Member-link y (p, known) in cc (e, e')
      ]

  pub link-IsValid : IsValid after
  link-IsValid = record {
    climbs = link-climbs;
    closed = link-closed;
    ranked = link-ranked;
    unranked = link-unranked;
  }

  pub link-Root : {y s : String} → Root (par u) y s → Root (par after) y (moved hi lo s)
  link-Root d = Root-link hi_root lo_root differ at_lo off_lo d
