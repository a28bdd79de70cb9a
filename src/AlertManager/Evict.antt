-- ===== src/AlertManager/Evict.antt =====
-- Which alert `_evict_lowest_priority` (src/response/alert_manager.py) removes, and what
-- `add_or_update` keeps.
use cryptosentinel_ai.Prelude.{
  ℕ, ◌≤◌, ◌≡◌, refl, sym, ap, subst, ◌∙◌, ◌≢◌, ◌⊎◌, inl, inr, String, Bool, true, false, not, none,
  some, List, [], ◌∷◌, length, keep, ltb, ltb→lt, if◌then◌else◌, In, In-keep, keep-In, arith,
  Bool-cases, eq_of_ne,
}
use cryptosentinel_ai.Dict.{lookup, remove, lookup-remove}
use cryptosentinel_ai.Float.{Float, lt_f}
use cryptosentinel_ai.RiskScorer.Defs.{emergency}
use cryptosentinel_ai.AlertManager.Entries.{Distinct, lookup_of_In, Distinct-remove}
use cryptosentinel_ai.AlertManager.Defs.{
  Runtime, Alert, AlertManager, current_priority, is_candidate, lowest, evict_from,
  evict_lowest_priority, same_tier,
}

module _ (fl : Float) (rt : Runtime fl) where
  open fl use {F, place}

  abbrev pub IsEmergency : Alert fl rt → Type 0
  IsEmergency a = same_tier a.assessment.action emergency ≡ true

  abbrev rank : F → String × Alert fl rt → F
  rank now e = current_priority fl rt now e.1

  -- `e` is no later than any entry of `es` in the order of eviction.
  abbrev IsLeast : F → String × Alert fl rt → List (String × Alert fl rt) → Type 0
  IsLeast now e es = (x : String × Alert fl rt) → In x es → place (rank now e) ≤ place (rank now x)

  lowest_lem :
      (now : F) (best : String × Alert fl rt) (es : List (String × Alert fl rt))
      → let low = lowest fl rt now best es in In low (best ∷ es) × IsLeast now low (best ∷ es)
  unfolding lowest
  lowest_lem now best [] = (
    inl refl,
    λ x m. elim m [
      | inl e ↦ omega (arith, ap (λ t. place (rank now t)) e)
      | inr none_left ↦ absurd none_left
    ],
  )
  lowest_lem now best (e ∷ es) = elim (Bool-cases (lt_f fl (rank now e) (rank now best))) [
    | inl lower ↦
        subst (λ (b : Bool). Low (if b then e else best)) (sym lower)
          (let (m, least) = lowest_lem now e es in
            (
              inr m,
              λ x h. elim h [
                | inl same ↦
                    omega (
                      arith,
                      least e (inl refl),
                      ltb→lt _ _ lower,
                      ap (λ t. place (rank now t)) same,
                    )
                | inr later ↦ least x later
              ],
            ))
    | inr other ↦
        subst (λ (b : Bool). Low (if b then e else best)) (sym other)
          (let (m, least) = lowest_lem now best es in
            (
              elim m [ inl same ↦ inl same | inr later ↦ inr (inr later) ],
              λ x h. elim h [
                | inl same ↦ least x (inl same)
                | inr (inl same) ↦ omega (
                  arith,
                  least best (inl refl),
                  not_lower _ _ other,
                  ap (λ t. place (rank now t)) same,
                )
                | inr (inr later) ↦ least x (inr later)
              ],
            ))
  ]
    where
      Low : String × Alert fl rt → Type 0
      Low pick =
          In (lowest fl rt now pick es) (best ∷ e ∷ es)
          × IsLeast now (lowest fl rt now pick es) (best ∷ e ∷ es)

      not_lower : (a b : ℕ) → ltb a b ≡ false → b ≤ a
      not_lower a b e = ground arith

  -- An entry that is no EMERGENCY, where no other such entry has a lower priority.
  pub record IsEvicted (now : F) (m : AlertManager fl rt) (e : String × Alert fl rt) : Type 0 where
    pub present : In e m.alerts
    pub spared : ¬ IsEmergency e.1
    pub least :
        (x : String × Alert fl rt)
        → In x m.alerts
        → ¬ IsEmergency x.1
        → place (rank now e) ≤ place (rank now x)

  abbrev pub IsEviction : F → AlertManager fl rt → AlertManager fl rt → Type 0
  IsEviction now m m' =
      (((x : String × Alert fl rt) → In x m.alerts → IsEmergency x.1) × (m' ≡ m))
      ⊎ ((e : String × Alert fl rt) × IsEvicted now m e
          × (m' ≡ record m { alerts = remove e.0 m.alerts }))

  -- `_evict_lowest_priority` changes nothing when every alert is an EMERGENCY. Otherwise it removes
  -- one that is none, and no alert that is none had a lower priority.
  pub evicts_lowest :
      (now : F) (m : AlertManager fl rt) → IsEviction now m (evict_lowest_priority fl rt now m)
  unfolding evict_lowest_priority evict_from
  evicts_lowest now m = by_candidates (keep (is_candidate fl rt) m.alerts) refl
    where
      not_emergency :
          (a : Alert fl rt) → not (same_tier a.assessment.action emergency) ≡ true → ¬ IsEmergency a
      not_emergency a e h = cc (e, ap not h)

      candidate : (x : String × Alert fl rt) → ¬ IsEmergency x.1 → is_candidate fl rt x ≡ true
      candidate x h = elim (Bool-cases (same_tier x.1.assessment.action emergency)) [
        | inl e ↦ absurd (h e)
        | inr e ↦ rw e refl
      ]

      all_emergency :
          keep (is_candidate fl rt) m.alerts ≡ []
          → (x : String × Alert fl rt) → In x m.alerts
          → IsEmergency x.1
      all_emergency q x here = elim (Bool-cases (same_tier x.1.assessment.action emergency)) [
        | inl e ↦ e
        | inr e ↦ absurd (subst (In x) q (keep-In (is_candidate fl rt) x m.alerts here (ap not e)))
      ]

      by_candidates :
          (es : List (String × Alert fl rt))
          → keep (is_candidate fl rt) m.alerts ≡ es
          → IsEviction now m (evict_from fl rt now es m)
      by_candidates [] q = inl (all_emergency q, refl)
      by_candidates (e ∷ es) q =
          let (found, least) = lowest_lem now e es in
          let low = lowest fl rt now e es in
          let (there, kept) =
            In-keep (is_candidate fl rt) low m.alerts (subst (In low) (sym q) found) in
          inr (
            low,
            record {
              present = there;
              spared = not_emergency low.1 kept;
              least = λ x h k.
                  least x
                    (subst (In x) q (keep-In (is_candidate fl rt) x m.alerts h (candidate x k)));
            },
            refl,
          )

  pub record IsWellFormed (m : AlertManager fl rt) : Type 0 where
    pub distinct : Distinct m.alerts
    pub queued : length m.queue ≡ m.total_created

  pub evict-IsWellFormed :
      (now : F) (m : AlertManager fl rt)
      → IsWellFormed m
      → IsWellFormed (evict_lowest_priority fl rt now m)
  evict-IsWellFormed now m h = elim (evicts_lowest now m) [
    | inl (_, e) ↦ subst IsWellFormed (sym e) h
    | inr (x, _, e) ↦
        subst IsWellFormed (sym e)
          (record { distinct = Distinct-remove x.0 m.alerts h.distinct; queued = h.queued })
  ]

  -- An EMERGENCY stays through an eviction.
  pub evict-emergency :
      (now : F) (m : AlertManager fl rt) (c : String) (a : Alert fl rt)
      → Distinct m.alerts
      → IsEmergency a
      → lookup c m.alerts ≡ some a
      → lookup c (evict_lowest_priority fl rt now m).alerts ≡ some a
  evict-emergency now m c a u emerg found = elim (evicts_lowest now m) [
    | inl (_, e) ↦ ap (λ s. lookup c s.alerts) e ∙ found
    | inr (x, evicted, e) ↦
        ap (λ s. lookup c s.alerts) e
        ∙ lookup-remove x.0 c m.alerts
        ∙ ap (λ (b : Bool). if b then none else lookup c m.alerts)
            (eq_of_ne x.0 c (other x evicted))
        ∙ found
  ]
    where
      some_inj : {x y : Alert fl rt} → some x ≡ some y → x ≡ y
      some_inj e = cc

      other : (x : String × Alert fl rt) → IsEvicted now m x → x.0 ≢ c
      other x evicted same = evicted.spared (
          subst IsEmergency
            (some_inj (
              sym found
              ∙ ap (λ k. lookup k m.alerts) (sym same)
              ∙ lookup_of_In x.0 x.1 m.alerts u evicted.present))
            emerg)
