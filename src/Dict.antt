-- ===== src/Dict.antt =====
-- A Python dict with text keys, in insertion order: `d[k] = v` overwrites in place or appends.
use text.Mathlib.Text.{◌==◌}
use cryptosentinel_ai.Prelude.{
  String, ◌≡◌, refl, sym, ◌≢◌, inl, inr, Option, none, some, List, [], ◌∷◌, arith, eq_iff,
  if◌then◌else◌, In, String-cases, eq_self, eq_of_ne,
}

abbrev pub Dict {ℓ} : Type ℓ → Type ℓ
Dict V = List (String × V)

module _ {ℓ} {V : Type ℓ} where
  -- d.get(k)
  unfoldable pub lookup : String → Dict V → Option V
  lookup k [] = none
  lookup k ((j, v) ∷ d) = if j == k then some v else lookup k d

  -- d[k] = v
  unfoldable pub insert : String → V → Dict V → Dict V
  insert k v [] = (k, v) ∷ []
  insert k v ((j, w) ∷ d) = if j == k then (j, v) ∷ d else (j, w) ∷ insert k v d

  -- del d[k], d.pop(k, None)
  unfoldable pub remove : String → Dict V → Dict V
  remove k [] = []
  remove k ((j, v) ∷ d) = let rest = remove k d in if j == k then rest else (j, v) ∷ rest

  -- list(d)
  abbrev pub keys : Dict V → List String
  keys [] = []
  keys ((j, v) ∷ d) = j ∷ keys d

  -- list(d.values())
  abbrev pub values : Dict V → List V
  values [] = []
  values ((j, v) ∷ d) = v ∷ values d

  pub lookup-insert :
      (k j : String) (v : V) (d : Dict V)
      → lookup j (insert k v d) ≡ (if k == j then some v else lookup j d)
  unfolding lookup insert
  lookup-insert k j v [] = refl
  lookup-insert k j v ((i, w) ∷ d) =
      ground (arith, eq_iff k j, eq_iff i k, eq_iff i j, lookup-insert k j v d)

  pub lookup-insert_self : (k : String) (v : V) (d : Dict V) → lookup k (insert k v d) ≡ some v
  lookup-insert_self k v d = simp (lookup-insert, eq_self)

  pub lookup-insert_ne :
      (k j : String) (v : V) (d : Dict V) → k ≢ j → lookup j (insert k v d) ≡ lookup j d
  lookup-insert_ne k j v d h = simp (lookup-insert, eq_of_ne k j h)

  pub lookup-remove :
      (k j : String) (d : Dict V) → lookup j (remove k d) ≡ (if k == j then none else lookup j d)
  unfolding lookup remove
  lookup-remove k j [] = ground arith
  lookup-remove k j ((i, w) ∷ d) =
      ground (arith, eq_iff k j, eq_iff i k, eq_iff i j, lookup-remove k j d)

  -- The keys are the texts that are found.
  pub In-keys_of_lookup : (k : String) {v : V} (d : Dict V) → lookup k d ≡ some v → In k (keys d)
  unfolding lookup
  In-keys_of_lookup k [] h = cc
  In-keys_of_lookup k {v} ((j, w) ∷ d) h = elim (String-cases j k) [
    | inl e ↦ inl (sym e)
    | inr ne ↦ inr (In-keys_of_lookup k d (rw (eq_of_ne j k ne) at h))
  ]

  pub lookup_of_In-keys : (k : String) (d : Dict V) → In k (keys d) → lookup k d ≢ none
  unfolding lookup
  lookup_of_In-keys k ((j, w) ∷ d) (inl e) = ground (arith, eq_iff j k)
  lookup_of_In-keys k ((j, w) ∷ d) (inr h) = ground (arith, lookup_of_In-keys k d h)
  lookup_of_In-keys k [] h = absurd h
