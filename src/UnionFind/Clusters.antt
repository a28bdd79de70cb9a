-- ===== src/UnionFind/Clusters.antt =====
-- `UnionFind.get_clusters` (src/graph/threat_graph.py) lists every wallet under its root.
use cryptosentinel_ai.Prelude.{
  String, ◌≡◌, refl, sym, ap, ◌∙◌, subst, ◌≢◌, ◌⊎◌, inl, inr, ◌↔◌, Option, none, some, [], ◌∷◌,
  ◌++◌, List, Option-cases, String-cases, In, In-append_left, In-append_right, In-append_cases,
}
use cryptosentinel_ai.Dict.{Dict, lookup, insert, keys, lookup-insert_self, lookup-insert_ne}
use cryptosentinel_ai.UnionFind.Defs.{UnionFind, find, add_member, group, get_clusters}
use cryptosentinel_ai.UnionFind.Roots.{Root, Root-unique}
use cryptosentinel_ai.UnionFind.Invariant.{par, IsValid}
use cryptosentinel_ai.UnionFind.Total.{Extends-back}
use cryptosentinel_ai.UnionFind.Find.{Found, find_lem}

-- `node in clusters[root]`
abbrev pub InCluster : Dict (List String) → String → String → Type 0
InCluster c root node = (members : List String) × (lookup root c ≡ some members) × In node members

In-at :
    (d : Dict (List String)) (r : String) (ms : List String) (m : String)
    → lookup r d ≡ some ms
    → InCluster d r m
    → In m ms
In-at d r ms m e (ms', e', h) = subst (In m) (same e e') h
  where
    same : {o : Option (List String)} {xs ys : List String} → o ≡ some xs → o ≡ some ys → ys ≡ xs
    same e e' = cc (e, e')

module _ (r n : String) (c : Dict (List String)) where
  add_member_new : lookup r c ≡ none → add_member r n c ≡ insert r (n ∷ []) c
  unfolding add_member
  add_member_new e = rw (e, add_member)

  add_member_old :
      (ms : List String) → lookup r c ≡ some ms → add_member r n c ≡ insert r (ms ++ n ∷ []) c
  unfolding add_member
  add_member_old ms e = rw (e, add_member)

  -- What `clusters[r].append(n)` writes.
  add_member_writes :
      (ms : List String) × (add_member r n c ≡ insert r (ms ++ n ∷ []) c)
      × ((m : String) → In m ms ↔ InCluster c r m)
  add_member_writes = elim (Option-cases (lookup r c)) [
    | inl new ↦ ([], add_member_new new, λ m. (λ h. absurd h, λ (ms, e, h). cc (e, new)))
    | inr (ms, old) ↦
        (ms, add_member_old ms old, λ m. (λ h. (ms, old, h), λ k. In-at c r ms m old k))
  ]

  InCluster-at_root : (m : String) → InCluster (add_member r n c) r m ↔ (InCluster c r m ⊎ (m ≡ n))
  InCluster-at_root m =
      let (ms, e, old) = add_member_writes in
      let now : lookup r (add_member r n c) ≡ some (ms ++ n ∷ []) =
        ap (lookup r) e ∙ lookup-insert_self r (ms ++ n ∷ []) c in
      (
        λ k.
            elim (In-append_cases m ms (n ∷ [])
              (In-at (add_member r n c) r (ms ++ n ∷ []) m now k)) [
                | inl h ↦ inl ((old m).0 h)
                | inr (inl q) ↦ inr q
                | inr (inr q) ↦ absurd q
              ],
        λ k. (
          ms ++ n ∷ [],
          now,
          elim k [
            | inl h ↦ In-append_left m ms (n ∷ []) ((old m).1 h)
            | inr q ↦ In-append_right m ms (n ∷ []) (inl q)
          ],
        ),
      )

  lookup-add_member_ne : (s : String) → r ≢ s → lookup s (add_member r n c) ≡ lookup s c
  lookup-add_member_ne s ne =
      let (ms, e, _) = add_member_writes in
      ap (lookup s) e ∙ lookup-insert_ne r s (ms ++ n ∷ []) c ne

  InCluster-add_member :
      (s m : String) → InCluster (add_member r n c) s m ↔ (InCluster c s m ⊎ ((s ≡ r) × (m ≡ n)))
  InCluster-add_member s m = elim (String-cases r s) [
    | inl same ↦
        subst (λ t. InCluster (add_member r n c) t m ↔ (InCluster c t m ⊎ ((t ≡ r) × (m ≡ n)))) same
          (
            λ k. elim ((InCluster-at_root m).0 k) [ inl h ↦ inl h | inr q ↦ inr (refl, q) ],
            λ k. (InCluster-at_root m).1 (elim k [ inl h ↦ inl h | inr (_, q) ↦ inr q ]),
          )
    | inr ne ↦ (
      λ (ms, e, h). inl (ms, sym (lookup-add_member_ne s ne) ∙ e, h),
      λ k. elim k [
        | inl (ms, e, h) ↦ (ms, lookup-add_member_ne s ne ∙ e, h)
        | inr (q, _) ↦ absurd (ne (sym q))
      ],
    )
  ]

-- What the loop over `nodes` has added to the clusters `c`.
abbrev Grouped : List String → Dict (List String) → UnionFind → Dict (List String) → Type 0
Grouped nodes c u d =
    (root node : String)
    → InCluster d root node ↔ (InCluster c root node ⊎ (In node nodes × Root (par u) node root))

group_step :
    (n r : String) (nodes : List String) (c d : Dict (List String)) (u v : UnionFind)
    → IsValid u
    → Found u n r v
    → Grouped nodes (add_member r n c) v d
    → Grouped (n ∷ nodes) c u d
group_step n r nodes c d u v h f g root node = (
  λ k. elim ((g root node).0 k) [
    | inl now ↦ elim ((InCluster-add_member r n c root node).0 now) [
      | inl old ↦ inl old
      | inr (p, q) ↦
          inr (
            inl q,
            subst (λ t. Root (par u) t root) (sym q) (subst (Root (par u) n) (sym p) f.root),
          )
    ]
    | inr (here, d) ↦ inr (inr here, Extends-back h f.extends node root d)
  ],
  λ k. (g root node).1 (elim k [
    | inl old ↦ inl ((InCluster-add_member r n c root node).1 (inl old))
    | inr (inl q, d) ↦ inl (
        (InCluster-add_member r n c root node).1
          (inr (Root-unique (subst (λ t. Root (par u) t root) q d) f.root, q)))
    | inr (inr here, d) ↦ inr (here, f.extends.roots node root d)
  ]),
)

group_found :
    (n : String) (nodes : List String) (c : Dict (List String)) (u : UnionFind) {r : String}
    {v : UnionFind}
    → find n u ≡ some (r, v)
    → group (n ∷ nodes) c u ≡ group nodes (add_member r n c) v
unfolding group
group_found n nodes c u e = rw e

group_lem :
    (nodes : List String) (c : Dict (List String)) (u : UnionFind)
    → IsValid u
    → (d : Dict (List String)) × (w : UnionFind) × (group nodes c u ≡ some (d, w))
      × Grouped nodes c u d
unfolding group
group_lem [] c u h =
    (c, u, refl, λ root node. (λ k. inl k, λ k. elim k [ inl q ↦ q | inr (q, _) ↦ absurd q ]))
group_lem (n ∷ nodes) c u h =
    let (r, v, e, f) = find_lem n u h in
    let (d, w, e', g) = group_lem nodes (add_member r n c) v f.valid in
    (d, w, group_found n nodes c u e ∙ e', group_step n r nodes c d u v h f g)

-- In a well-formed state `get_clusters` never fails, and lists under a root exactly the known
-- wallets that have this root.
pub get_clusters_groups :
    (u : UnionFind)
    → IsValid u
    → (clusters : Dict (List String)) × (v : UnionFind) × (get_clusters u ≡ some (clusters, v))
      × ((root node : String)
          → InCluster clusters root node ↔ (In node (keys u.parent) × Root (par u) node root))
unfolding get_clusters
get_clusters_groups u h =
    let (d, w, e, g) = group_lem (keys u.parent) [] u h in
    (
      d,
      w,
      e,
      λ root node. (
        λ k. elim ((g root node).0 k) [ inl (ms, e, _) ↦ nothing root e | inr p ↦ p ],
        λ p. (g root node).1 (inr p),
      ),
    )
  where
    nothing :
        {A : Type 0} {ms : List String} (root : String)
        → lookup {V = List String} root [] ≡ some ms
        → A
    nothing root e = absurd (unfold lookup in cc e)
