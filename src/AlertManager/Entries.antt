-- ===== src/AlertManager/Entries.antt =====
-- Dicts whose keys are distinct, as every dict's are: entries and look-up, and sizes.
use text.Mathlib.Text.{◌==◌}
use cryptosentinel_ai.Prelude.{
  suc, ◌≤◌, ◌<◌, ◌≡◌, refl, sym, ap, ap₂, subst, ◌⊎◌, inl, inr, String, false, none, some, [], ◌∷◌,
  length, In, arith, eq_iff, Bool-cases, String-cases,
}
use cryptosentinel_ai.Dict.{Dict, lookup, insert, remove, keys}

module _ {V : Type 0} where
  -- No key stands twice.
  abbrev pub Distinct : Dict V → Type 0
  Distinct [] = Unit
  Distinct ((k, v) ∷ d) = (¬ In k (keys d)) × Distinct d

  pub In-entry_key : (k : String) (v : V) (d : Dict V) → In (k, v) d → In k (keys d)
  In-entry_key k v ((j, w) ∷ d) (inl e) = inl (ap (λ p. p.0) e)
  In-entry_key k v ((j, w) ∷ d) (inr m) = inr (In-entry_key k v d m)
  In-entry_key k v [] m = m

  pub lookup_of_In :
      (k : String) (v : V) (d : Dict V) → Distinct d → In (k, v) d → lookup k d ≡ some v
  unfolding lookup
  lookup_of_In k v ((j, w) ∷ d) (fresh, rest) (inl e) =
      ground (arith, eq_iff j k, ap (λ p. p.0) e, ap (λ p. p.1) e)
  lookup_of_In k v ((j, w) ∷ d) (fresh, rest) (inr m) = elim (String-cases j k) [
    | inl e ↦ absurd (fresh (subst (λ t. In t (keys d)) (sym e) (In-entry_key k v d m)))
    | inr ne ↦ ground (arith, eq_iff j k, lookup_of_In k v d rest m)
  ]
  lookup_of_In k v [] u m = absurd m

  pub In-of_lookup : (k : String) (v : V) (d : Dict V) → lookup k d ≡ some v → In (k, v) d
  unfolding lookup
  In-of_lookup k v [] e = absurd cc
  In-of_lookup k v ((j, w) ∷ d) e = elim (String-cases j k) [
    | inl same ↦ inl (ap₂ (λ a b. (a, b)) (sym same) (ground (arith, eq_iff j k)))
    | inr ne ↦ inr (In-of_lookup k v d (ground (arith, eq_iff j k)))
  ]

  keys-insert :
      (j k : String) (v : V) (d : Dict V) → In j (keys (insert k v d)) → (j ≡ k) ⊎ In j (keys d)
  unfolding insert
  keys-insert j k v [] (inl e) = inl e
  keys-insert j k v [] (inr m) = absurd m
  keys-insert j k v ((i, w) ∷ d) m = elim (Bool-cases (i == k)) [
    | inl e ↦ inr (rw e at m)
    | inr e ↦ elim (shown e m) [
      | inl here ↦ inr (inl here)
      | inr later ↦ elim (keys-insert j k v d later) [ inl new ↦ inl new | inr old ↦ inr (inr old) ]
    ]
  ]
    where
      shown :
          (i == k) ≡ false
          → In j (keys (insert k v ((i, w) ∷ d)))
          → (j ≡ i) ⊎ In j (keys (insert k v d))
      shown e m = rw e at m

  pub Distinct-insert : (k : String) (v : V) (d : Dict V) → Distinct d → Distinct (insert k v d)
  unfolding insert
  Distinct-insert k v [] u = ((λ m. m), tt)
  Distinct-insert k v ((i, w) ∷ d) (fresh, rest) = elim (Bool-cases (i == k)) [
    | inl e ↦ rw e (fresh, rest)
    | inr e ↦ rw e (
      λ m. elim (keys-insert i k v d m) [
        | inl same ↦ ground (arith, eq_iff i k)
        | inr old ↦ fresh old
      ],
      Distinct-insert k v d rest,
    )
  ]

  keys-remove : (j k : String) (d : Dict V) → In j (keys (remove k d)) → In j (keys d)
  unfolding remove
  keys-remove j k [] m = m
  keys-remove j k ((i, w) ∷ d) m = elim (Bool-cases (i == k)) [
    | inl e ↦ inr (keys-remove j k d (rw e at m))
    | inr e ↦ elim (shown e m) [ inl here ↦ inl here | inr later ↦ inr (keys-remove j k d later) ]
  ]
    where
      shown :
          (i == k) ≡ false
          → In j (keys (remove k ((i, w) ∷ d)))
          → (j ≡ i) ⊎ In j (keys (remove k d))
      shown e m = rw e at m

  pub Distinct-remove : (k : String) (d : Dict V) → Distinct d → Distinct (remove k d)
  unfolding remove
  Distinct-remove k [] u = u
  Distinct-remove k ((i, w) ∷ d) (fresh, rest) = elim (Bool-cases (i == k)) [
    | inl e ↦ rw e (Distinct-remove k d rest)
    | inr e ↦ rw e (λ m. fresh (keys-remove i k d m), Distinct-remove k d rest)
  ]

  pub length-insert_old :
      (k : String) (v w : V) (d : Dict V) → lookup k d ≡ some w → length (insert k v d) ≡ length d
  unfolding insert lookup
  length-insert_old k v w [] e = absurd cc
  length-insert_old k v w ((i, x) ∷ d) e = ground (arith, length-insert_old k v w d)

  pub length-insert_new :
      (k : String) (v : V) (d : Dict V) → lookup k d ≡ none → length (insert k v d) ≡ suc (length d)
  unfolding insert lookup
  length-insert_new k v [] e = refl
  length-insert_new k v ((i, x) ∷ d) e = ground (arith, length-insert_new k v d)

  length-remove_le : (k : String) (d : Dict V) → length (remove k d) ≤ length d
  unfolding remove
  length-remove_le k [] = omega arith
  length-remove_le k ((i, x) ∷ d) = ground (arith, length-remove_le k d)

  pub length-remove : (k : String) (d : Dict V) → In k (keys d) → length (remove k d) < length d
  unfolding remove
  length-remove k ((i, x) ∷ d) (inl e) = ground (arith, eq_iff i k, length-remove_le k d)
  length-remove k ((i, x) ∷ d) (inr m) = ground (arith, length-remove k d m, length-remove_le k d)
  length-remove k [] m = absurd m
