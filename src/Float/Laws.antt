-- ===== src/Float/Laws.antt =====
-- What follows from the laws of the parameter, on the code's use of floats.
use cryptosentinel_ai.Prelude.{ℕ, ◌≤◌, ◌<◌, ◌≡◌, ap, ◌∙◌, ◌⊎◌, inl, inr, arith}
use cryptosentinel_ai.Float.Defs.{Float}

module _ (fl : Float) where
  open fl use {
    F, place, lit, add, sub, mul, div, lit_mono, mul_mono, mul_comm, mul-one, mul-zero, div_mono,
    zero-div, add_mono, add_comm, zero-add,
  }

  -- Literals keep their order.
  pub lit_le : (n m : ℕ) → n ≤ m → m ≤ 1_000_000_000_000_000 → place (lit n) ≤ place (lit m)
  lit_le n m h b = elim (lt_or_eq n m h) [
    | inl lt ↦ omega (arith, lit_mono n m lt b)
    | inr e ↦ omega (arith, ap (λ t. place (lit t)) e)
  ]
    where
      lt_or_eq : (n m : ℕ) → n ≤ m → (n < m) ⊎ (n ≡ m)
      lt_or_eq n m h = omega arith

  -- A value at least 0, which is no underflow to a negative one.
  abbrev pub Nonneg : F → Type 0
  Nonneg a = place (lit 0) ≤ place a

  pub mul-Nonneg : (a b : F) → Nonneg a → Nonneg b → Nonneg (mul a b)
  mul-Nonneg a b h k = omega (arith, ap place (mul-zero a h), mul_mono a (lit 0) b h k)

  pub div-Nonneg : (a b : F) → Nonneg a → place (lit 0) < place b → Nonneg (div a b)
  div-Nonneg a b h k = omega (arith, ap place (zero-div b k), div_mono (lit 0) a b h k)

  pub add-le_left : (a b : F) → Nonneg b → place a ≤ place (add a b)
  add-le_left a b h =
      omega (arith, ap place (add_comm a (lit 0) ∙ zero-add a), add_mono a (lit 0) b h)

  pub add-Nonneg : (a b : F) → Nonneg a → Nonneg b → Nonneg (add a b)
  add-Nonneg a b h k = omega (arith, add-le_left a b k)

  -- A factor of 1 or more does not lower what is not negative.
  pub le-mul_right :
      (a b : F) → Nonneg a → place (lit 1_000_000) ≤ place b → place a ≤ place (mul a b)
  le-mul_right a b h k = omega (arith, ap place (mul-one a), mul_mono a (lit 1_000_000) b h k)

  -- Products of values that are not negative grow with the left factor.
  pub mul_mono_left : (a b c : F) → Nonneg c → place a ≤ place b → place (mul a c) ≤ place (mul b c)
  mul_mono_left a b c h k =
      omega (arith, ap place (mul_comm a c), ap place (mul_comm b c), mul_mono c a b h k)
