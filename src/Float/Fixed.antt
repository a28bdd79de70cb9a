-- ===== src/Float/Fixed.antt =====
-- An instance of the parameter: the number n + 1 stands for n millionths, and 0 for all that is
-- negative. It shows that the laws can be met, and the tests and examples run on it.
use native.Mathlib.Nat.{
  mul_comm, le-div_iff_mul-le, div-mul-le_self, mul-div_left, le_trans, zero-div,
}
use cryptosentinel_ai.Prelude.{
  ℕ, zero, suc, ◌+◌, ◌-◌, ◌*◌, ◌/◌, ◌≤◌, ◌<◌, ◌≡◌, refl, ap, ◌∙◌, arith,
}
use cryptosentinel_ai.Float.Defs.{Float}

abbrev millions : ℕ
millions = 1_000_000

-- Negative factors saturate.
unfoldable pub times : ℕ → ℕ → ℕ
times zero b = 0
times (suc a) zero = 0
times (suc a) (suc b) = suc (a * b / millions)

unfoldable pub over : ℕ → ℕ → ℕ
over zero b = 0
over (suc a) b = suc (a * millions / (b - 1))

div_mono : (x y k : ℕ) → 0 < k → x ≤ y → x / k ≤ y / k
div_mono x y k h l = (le-div_iff_mul-le h).1 (le_trans (div-mul-le_self x k) l)

pub times-one : (a : ℕ) → times a 1_000_001 ≡ a
unfolding times
times-one zero = refl
times-one (suc a) = omega arith

pub times-zero : (a : ℕ) → 1 ≤ a → times a 1 ≡ 1
unfolding times
times-zero zero h = absurd (omega arith)
times-zero (suc a) h = omega arith

pub zero-over : (a : ℕ) → 1 < a → over 1 a ≡ 1
unfolding over
zero-over a h = ap suc (ap (λ t. t / (a - 1)) (omega arith) ∙ zero-div (a - 1))

pub times_comm : (a b : ℕ) → times a b ≡ times b a
unfolding times
times_comm zero zero = refl
times_comm zero (suc b) = refl
times_comm (suc a) zero = refl
times_comm (suc a) (suc b) = rw (mul_comm a b)

pub times_mono : (a b c : ℕ) → 1 ≤ a → b ≤ c → times a b ≤ times a c
unfolding times
times_mono zero b c h l = absurd (omega arith)
times_mono (suc a) zero c h l = omega arith
times_mono (suc a) (suc b) zero h l = absurd (omega arith)
times_mono (suc a) (suc b) (suc c) h l =
    omega (arith, div_mono (a * b) (a * c) millions (omega arith) (grind arith))

pub over_mono : (a b c : ℕ) → a ≤ b → 1 < c → over a c ≤ over b c
unfolding over
over_mono zero b c h l = omega arith
over_mono (suc a) zero c h l = absurd (omega arith)
over_mono (suc a) (suc b) c h l =
    omega (arith, div_mono (a * millions) (b * millions) (c - 1) (omega arith) (omega arith))

over_itself : (a : ℕ) → 0 < a → a * millions / (suc a - 1) ≡ millions
over_itself a h =
    ap (λ t. a * millions / t) (omega arith)
    ∙ ap (λ t. t / a) (mul_comm a millions)
    ∙ mul-div_left millions h

pub over_self : (a : ℕ) → 1 < a → over a a ≡ 1_000_001
unfolding over
over_self zero h = absurd (omega arith)
over_self (suc a) h = omega (arith, over_itself a (omega arith))

half_itself :
    (n : ℕ) → 0 < n → 500_000 * (2 * n) / millions * millions / (suc (2 * n) - 1) ≡ 500_000
half_itself n h =
    let d : 500_000 * (2 * n) / millions ≡ n = omega arith in
    let e : n * millions ≡ 500_000 * (2 * n) = omega arith in
    let f : suc (2 * n) - 1 ≡ 2 * n = omega arith in
    ap (λ t. t * millions / (suc (2 * n) - 1)) d
    ∙ ap (λ t. t / (suc (2 * n) - 1)) e
    ∙ ap (λ t. 500_000 * (2 * n) / t) f
    ∙ mul-div_left 500_000 (omega arith)

pub half-over : (n : ℕ) → 0 < n → over (times 500_001 (suc (2 * n))) (suc (2 * n)) ≡ 500_001
unfolding over times
half-over n h = omega (arith, half_itself n h)

abbrev pub fixed : Float
fixed = record {
  F = ℕ;
  place = λ a. a;
  lit = suc;
  minus_one = 0;
  add = λ a b. a + b - 1;
  sub = λ a b. a + 1 - b;
  mul = times;
  div = over;
  round = λ a n. a;
  format_2f = λ a. "";
  lit_mono = λ n m h _. omega arith;
  minus_one_neg = omega arith;
  zero-add = λ a. omega arith;
  add_comm = λ a b. omega arith;
  add_mono = λ a b c h. omega arith;
  mul-zero = times-zero;
  zero-div = zero-over;
  mul-one = times-one;
  mul_comm = times_comm;
  mul_mono = times_mono;
  div_mono = over_mono;
  div_self = over_self;
  half-div = λ n h _. half-over n h;
  sub_mono = λ a b c h. omega arith;
}
