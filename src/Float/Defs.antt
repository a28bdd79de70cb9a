-- ===== src/Float/Defs.antt =====
-- The parameter, and the comparisons that Python makes with it.
use cryptosentinel_ai.Prelude.{ℕ, ◌*◌, ◌≤◌, ◌<◌, ◌≡◌, String, Bool, ltb, leb, if◌then◌else◌}

pub record Float : Type 1 where
  pub F : Type 0
  pub place : F → ℕ
  pub lit : ℕ → F
  pub minus_one : F
  pub add : F → F → F
  pub sub : F → F → F
  pub mul : F → F → F
  pub div : F → F → F
  -- `round(x, n)` and `f"{x:.2f}"`
  pub round : F → ℕ → F
  pub format_2f : F → String
  pub lit_mono : (n m : ℕ) → n < m → m ≤ 1_000_000_000_000_000 → place (lit n) < place (lit m)
  pub minus_one_neg : place minus_one < place (lit 0)
  pub zero-add : (a : F) → add (lit 0) a ≡ a
  pub add_comm : (a b : F) → add a b ≡ add b a
  pub add_mono : (a b c : F) → place b ≤ place c → place (add a b) ≤ place (add a c)
  pub mul-zero : (a : F) → place (lit 0) ≤ place a → mul a (lit 0) ≡ lit 0
  pub zero-div : (a : F) → place (lit 0) < place a → div (lit 0) a ≡ lit 0
  pub mul-one : (a : F) → mul a (lit 1_000_000) ≡ a
  pub mul_comm : (a b : F) → mul a b ≡ mul b a
  pub mul_mono :
      (a b c : F) → place (lit 0) ≤ place a → place b ≤ place c → place (mul a b) ≤ place (mul a c)
  pub div_mono :
      (a b c : F) → place a ≤ place b → place (lit 0) < place c → place (div a c) ≤ place (div b c)
  pub div_self : (a : F) → place (lit 0) < place a → div a a ≡ lit 1_000_000
  -- The half of an even number of millionths is exact, and so is its quotient by that number.
  pub half-div :
      (n : ℕ)
      → 0 < n
      → n ≤ 1_000_000_000_000
      → div (mul (lit 500_000) (lit (2 * n))) (lit (2 * n)) ≡ lit 500_000
  pub sub_mono : (a b c : F) → place a ≤ place b → place (sub a c) ≤ place (sub b c)

module _ (fl : Float) where
  open fl use {F, place, lit}

  -- a < b, a <= b
  abbrev pub lt_f : F → F → Bool
  lt_f a b = ltb (place a) (place b)

  abbrev pub le_f : F → F → Bool
  le_f a b = leb (place a) (place b)

  -- Python's `min(a, b)` and `max(a, b)` keep the first of two that are equal.
  abbrev pub min_f : F → F → F
  min_f a b = if lt_f b a then b else a

  abbrev pub max_f : F → F → F
  max_f a b = if lt_f a b then b else a

  -- An `int` among floats.
  abbrev pub of_int : ℕ → F
  of_int n = lit (n * 1_000_000)
