-- ===== src/ThreatGraph/Trace/Visit.antt =====
-- What the loops of `peel_back` (src/graph/threat_graph.py) over predecessors add.
use cryptosentinel_ai.Prelude.{
  ◌≡◌, sym, ap, subst, ◌≢◌, ◌⊎◌, inl, inr, String, Bool, true, false, List, [], ◌∷◌, In,
  if◌then◌else◌, arith, Bool-cases, String-cases, eq_iff,
}
use cryptosentinel_ai.ThreatGraph.Paths.Search.{contains}
use cryptosentinel_ai.ThreatGraph.Trace.Peel.{is_new, visit}

pub contains-In : (x : String) (xs : List String) → contains x xs ≡ true → In x xs
contains-In x [] e = absurd (grind (arith, e))
contains-In x (y ∷ ys) e = elim (String-cases x y) [
  | inl q ↦ inl q
  | inr n ↦ inr (contains-In x ys (ground (arith, e, n, eq_iff x y)))
]

pub contains-not_In : (x : String) (xs : List String) → contains x xs ≡ false → ¬ In x xs
contains-not_In x [] e m = absurd m
contains-not_In x (y ∷ ys) e (inl q) = absurd (ground (arith, e, q, eq_iff x y))
contains-not_In x (y ∷ ys) e (inr m) = contains-not_In x ys (ground (arith, e)) m

module _ (address : String) where
  abbrev pub Known : String → List String → Type 0
  Known p ancestors = (p ≡ address) ⊎ In p ancestors

  is_new_cases :
      (ancestors : List String) (p : String)
      → ((is_new address ancestors p ≡ true) × (p ≢ address))
        ⊎ ((is_new address ancestors p ≡ false) × Known p ancestors)
  is_new_cases ancestors p = elim (String-cases p address) [
    | inl same ↦ inr (ground (arith, same, eq_iff p address), inl same)
    | inr other ↦ elim (Bool-cases (contains p ancestors)) [
      | inl e ↦ inr (ground (arith, e), inr (contains-In p ancestors e))
      | inr e ↦ inl (ground (arith, e, other, eq_iff p address), other)
    ]
  ]

  -- What holds of the ancestors and the frontier after the loops over predecessors.
  pub record Visited (ps ancestors next found later : List String) : Type 0 where
    pub kept : (x : String) → In x ancestors → In x found
    pub later_kept : (x : String) → In x next → In x later
    pub covered : (x : String) → In x ps → Known x found
    pub from_ps :
        (x : String) → In x found → In x ancestors ⊎ (In x ps × (x ≢ address) × In x later)
    pub later_new : (x : String) → In x later → In x next ⊎ In x ps

  visit_step :
      (p : String) (ps ancestors next : List String) (b : Bool)
      → is_new address ancestors p ≡ b
      → visit address (p ∷ ps) (ancestors, next)
        ≡ visit address ps (if b then (p ∷ ancestors, p ∷ next) else (ancestors, next))
  unfolding visit
  visit_step p ps ancestors next b e =
      ap (λ t. visit address ps (if t then (p ∷ ancestors, p ∷ next) else (ancestors, next))) e

  pub visit-Visited :
      (ps ancestors next : List String)
      → Visited ps ancestors next
          (visit address ps (ancestors, next)).0
          (visit address ps (ancestors, next)).1
  unfolding visit
  visit-Visited [] ancestors next = record {
    kept = λ x m. m;
    later_kept = λ x m. m;
    covered = λ x m. absurd m;
    from_ps = λ x m. inl m;
    later_new = λ x m. inl m;
  }
  visit-Visited (p ∷ ps) ancestors next = elim (is_new_cases ancestors p) [
    | inl (e, other) ↦
        let v = visit-Visited ps (p ∷ ancestors) (p ∷ next) in
        subst (λ r. Visited (p ∷ ps) ancestors next r.0 r.1)
          (sym (visit_step p ps ancestors next true e))
          (record {
            kept = λ x m. v.kept x (inr m);
            later_kept = λ x m. v.later_kept x (inr m);
            covered = λ x m. elim m [ inl q ↦ inr (v.kept x (inl q)) | inr n ↦ v.covered x n ];
            from_ps = λ x m. elim (v.from_ps x m) [
              | inl (inl q) ↦
                  inr (inl q, subst (λ t. t ≢ address) (sym q) other, v.later_kept x (inl q))
              | inl (inr n) ↦ inl n
              | inr (n, d, l) ↦ inr (inr n, d, l)
            ];
            later_new = λ x m. elim (v.later_new x m) [
              | inl (inl q) ↦ inr (inl q)
              | inl (inr n) ↦ inl n
              | inr n ↦ inr (inr n)
            ];
          })
    | inr (e, known) ↦
        let v = visit-Visited ps ancestors next in
        subst (λ r. Visited (p ∷ ps) ancestors next r.0 r.1)
          (sym (visit_step p ps ancestors next false e))
          (record {
            kept = v.kept;
            later_kept = v.later_kept;
            covered = λ x m. elim m [
              | inl q ↦
                  subst (λ t. Known t (visit address ps (ancestors, next)).0) (sym q)
                    (still v known)
              | inr n ↦ v.covered x n
            ];
            from_ps =
                λ x m. elim (v.from_ps x m) [ inl n ↦ inl n | inr (n, d, l) ↦ inr (inr n, d, l) ];
            later_new = λ x m. elim (v.later_new x m) [ inl n ↦ inl n | inr n ↦ inr (inr n) ];
          })
  ]
    where
      still :
          Visited ps ancestors next
            (visit address ps (ancestors, next)).0
            (visit address ps (ancestors, next)).1
          → Known p ancestors
          → Known p (visit address ps (ancestors, next)).0
      still v (inl q) = inl q
      still v (inr m) = inr (v.kept p m)
