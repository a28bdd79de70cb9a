-- ===== src/Prelude/Lists.antt =====
-- Lists measured by native numbers, and membership and quantifiers that compute.
use Prim.Native.Nat.{ℕ, zero, suc, ◌+◌, ◌≤◌}
use mathlib.Core.Path.{◌≡◌, refl, sym, ap, subst, ◌∙◌}
use mathlib.Core.Bool.{Bool, true}
use mathlib.Core.Logic.{◌⊎◌, inl, inr}
use mathlib.Core.List.{List, [], ◌∷◌, ◌++◌}
use native.Mathlib.Omega.{arith}
use cryptosentinel_ai.Prelude.Tests.{if◌then◌else◌, Bool-cases}

module _ {ℓ} {A : Type ℓ} where
  abbrev pub length : List A → ℕ
  length [] = 0
  length (x ∷ xs) = suc (length xs)

  abbrev pub take : ℕ → List A → List A
  take zero xs = []
  take (suc n) [] = []
  take (suc n) (x ∷ xs) = x ∷ take n xs

  -- The comprehension `[x for x in xs if p(x)]`.
  abbrev pub keep : (A → Bool) → List A → List A
  keep p [] = []
  keep p (x ∷ xs) = let rest = keep p xs in if p x then x ∷ rest else rest

  pub length-append : (xs ys : List A) → length (xs ++ ys) ≡ length xs + length ys
  length-append [] ys = omega arith
  length-append (x ∷ xs) ys = omega (arith, length-append xs ys)

  pub length-keep : (p : A → Bool) (xs : List A) → length (keep p xs) ≤ length xs
  length-keep p [] = omega arith
  length-keep p (x ∷ xs) = ground (arith, length-keep p xs)

  pub keep-append : (p : A → Bool) (xs ys : List A) → keep p (xs ++ ys) ≡ keep p xs ++ keep p ys
  keep-append p [] ys = refl
  keep-append p (x ∷ xs) ys = ground (arith, keep-append p xs ys)

module _ {A : Type 0} where
  -- Membership with the place kept.
  abbrev pub In : A → List A → Type 0
  In a [] = ⊥
  In a (x ∷ xs) = (a ≡ x) ⊎ In a xs

  pub In-append_left : (a : A) (xs ys : List A) → In a xs → In a (xs ++ ys)
  In-append_left a [] ys h = absurd h
  In-append_left a (x ∷ xs) ys (inl e) = inl e
  In-append_left a (x ∷ xs) ys (inr h) = inr (In-append_left a xs ys h)

  pub In-append_right : (a : A) (xs ys : List A) → In a ys → In a (xs ++ ys)
  In-append_right a [] ys h = h
  In-append_right a (x ∷ xs) ys h = inr (In-append_right a xs ys h)

  pub In-append_cases : (a : A) (xs ys : List A) → In a (xs ++ ys) → In a xs ⊎ In a ys
  In-append_cases a [] ys h = inr h
  In-append_cases a (x ∷ xs) ys (inl e) = inl (inl e)
  In-append_cases a (x ∷ xs) ys (inr h) = elim (In-append_cases a xs ys h) [
    | inl l ↦ inl (inr l)
    | inr r ↦ inr r
  ]

module _ {A : Type 0} where
  -- Of two filters the first may be dropped where the second keeps no more.
  pub keep-keep :
      (p q : A → Bool)
      → ((x : A) → q x ≡ true → p x ≡ true)
      → (xs : List A) → keep q (keep p xs) ≡ keep q xs
  keep-keep p q h [] = refl
  keep-keep p q h (x ∷ xs) = ground (arith, keep-keep p q h xs, h x)

module _ {A : Type 0} (p : A → Bool) (a : A) where
  pub In-keep : (xs : List A) → In a (keep p xs) → In a xs × (p a ≡ true)
  In-keep [] h = absurd h
  In-keep (x ∷ xs) h =
      let later = In-keep xs in
      elim (Bool-cases (p x)) [
        | inl e ↦ elim (subst (In a) (ap (λ b. if b then x ∷ keep p xs else keep p xs) e) h) [
          | inl same ↦ (inl same, ap p same ∙ e)
          | inr m ↦ let (m', q) = later m in (inr m', q)
        ]
        | inr e ↦
            let (m, q) =
              later (subst (In a) (ap (λ b. if b then x ∷ keep p xs else keep p xs) e) h) in
            (inr m, q)
      ]

  pub keep-In : (xs : List A) → In a xs → p a ≡ true → In a (keep p xs)
  keep-In [] h e = h
  keep-In (x ∷ xs) (inl same) e = rw (sym (ap p same) ∙ e) (inl same)
  keep-In (x ∷ xs) (inr m) e = elim (Bool-cases (p x)) [
    | inl q ↦ rw q (inr (keep-In xs m e))
    | inr q ↦ rw q (keep-In xs m e)
  ]

abbrev pub All {ℓ κ} : {A : Type ℓ} → (A → Type κ) → List A → Type κ
All P [] = Unit
All P (x ∷ xs) = P x × All P xs

pub All-In {κ} : {A : Type 0} (P : A → Type κ) (xs : List A) → ((a : A) → In a xs → P a) → All P xs
All-In P [] h = tt
All-In P (x ∷ xs) h = (h x (inl refl), All-In P xs (λ a m. h a (inr m)))

-- A loop that extends a list by what each entry gives.
abbrev pub gather : {A B : Type 0} → (A → List B) → List A → List B
gather f [] = []
gather f (a ∷ rest) = f a ++ gather f rest

module _ {A B : Type 0} (f : A → List B) where
  pub In-gather : (b : B) (xs : List A) → In b (gather f xs) → (a : A) × In a xs × In b (f a)
  In-gather b [] h = absurd h
  In-gather b (x ∷ xs) h = elim (In-append_cases b (f x) (gather f xs) h) [
    | inl m ↦ (x, inl refl, m)
    | inr m ↦ let (a, l, r) = In-gather b xs m in (a, inr l, r)
  ]

  pub gather-In : (b : B) (a : A) (xs : List A) → In a xs → In b (f a) → In b (gather f xs)
  gather-In b a [] m h = absurd m
  gather-In b a (x ∷ xs) (inl e) h =
      In-append_left b (f x) (gather f xs) (subst (λ t. In b (f t)) e h)
  gather-In b a (x ∷ xs) (inr m) h = In-append_right b (f x) (gather f xs) (gather-In b a xs m h)
