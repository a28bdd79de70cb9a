-- ===== src/RateLimiter/History.antt =====
-- Sequences of calls of `_check_rate_limit` (src/api/middleware/rate_limiter.py), and the log of
-- the calls that were served, which the code does not keep.
use text.Mathlib.Text.{◌==◌}
use mathlib.Core.List.{append-nil}
use cryptosentinel_ai.Prelude.{
  ℕ, ◌≤◌, ◌≡◌, refl, ap, ◌∙◌, keep, length, leb, String, ◌≢◌, Bool, true, false, List, [], ◌∷◌,
  ◌++◌, if◌then◌else◌, arith, eq_self, eq_of_ne,
}
use cryptosentinel_ai.Dict.{insert}
use cryptosentinel_ai.Float.{Float}
use cryptosentinel_ai.RateLimiter.Defs.{Windows, window_of, recent, check_rate_limit}

module _ (fl : Float) where
  open fl use {F, place}

  pub record Call : Type 0 where
    pub key : String
    pub limit : ℕ
    pub window : ℕ
    pub now : F

  -- The store, and the log of the served calls: key and time, the oldest first.
  pub record Served : Type 0 where
    pub windows : Windows fl
    pub log : List (String × F)

  abbrev pub answer : Call → Served → Bool × ℕ × Windows fl
  answer c s = check_rate_limit fl c.key c.limit c.window c.now s.windows

  unfoldable pub serve_one : Call → Served → Served
  serve_one c s = record {
    windows = (answer c s).2;
    log = if (answer c s).0 then s.log ++ (c.key, c.now) ∷ [] else s.log;
  }

  unfoldable pub serve : List Call → Served → Served
  serve [] s = s
  serve (c ∷ calls) s = serve calls (serve_one c s)

  abbrev pub nothing_served : Served
  nothing_served = record { windows = []; log = [] }

  -- The times at which `k` was served.
  unfoldable pub times_of : String → List (String × F) → List F
  times_of k [] = []
  times_of k ((j, t) ∷ log) = elim (j == k) [ true ↦ t ∷ times_of k log | false ↦ times_of k log ]

  -- The clock does not run backwards, from `from` to `to`.
  abbrev pub Ordered : F → List Call → F → Type 0
  Ordered from [] to = place from ≤ place to
  Ordered from (c ∷ calls) to = (place from ≤ place c.now) × Ordered c.now calls to

  -- Every call for `k` has one limit and one window, as the path in the key decides.
  abbrev pub Uniform : String → ℕ → ℕ → List Call → Type 0
  Uniform k limit window [] = Unit
  Uniform k limit window (c ∷ calls) =
      (c.key ≡ k → (c.limit ≡ limit) × (c.window ≡ window)) × Uniform k limit window calls

  times_of-append :
      (k : String) (xs ys : List (String × F))
      → times_of k (xs ++ ys) ≡ times_of k xs ++ times_of k ys
  unfolding times_of
  times_of-append k [] ys = refl
  times_of-append k ((j, t) ∷ xs) ys = ground (arith, times_of-append k xs ys)

  times_of_self : (k : String) (t : F) → times_of k ((k, t) ∷ []) ≡ t ∷ []
  unfolding times_of
  times_of_self k t = ground (arith, eq_self k)

  times_of-other : (k j : String) (t : F) → j ≢ k → times_of k ((j, t) ∷ []) ≡ []
  unfolding times_of
  times_of-other k j t ne = ground (arith, eq_of_ne j k ne)

  pub times_of-append_self :
      (k : String) (log : List (String × F)) (t : F)
      → times_of k (log ++ (k, t) ∷ []) ≡ times_of k log ++ t ∷ []
  times_of-append_self k log t = rw (times_of-append, times_of_self)

  pub times_of-append_ne :
      (k j : String) (log : List (String × F)) (t : F)
      → j ≢ k
      → times_of k (log ++ (j, t) ∷ []) ≡ times_of k log
  times_of-append_ne k j log t ne =
      times_of-append k log ((j, t) ∷ [])
      ∙ ap (λ l. times_of k log ++ l) (times_of-other k j t ne)
      ∙ append-nil (times_of k log)

  -- The times that count for a call, as the store has them.
  abbrev pub counted : Call → Served → List F
  counted c s = keep (recent fl c.now c.window) (window_of fl c.key s.windows)

  pub serve_one_refused :
      (c : Call) (s : Served)
      → leb c.limit (length (counted c s)) ≡ true
      → serve_one c s ≡ record { windows = insert c.key (counted c s) s.windows; log = s.log }
  unfolding serve_one check_rate_limit
  serve_one_refused c s e = ground arith

  pub serve_one_served :
      (c : Call) (s : Served)
      → leb c.limit (length (counted c s)) ≡ false
      → serve_one c s ≡ record {
        windows = insert c.key (counted c s ++ c.now ∷ []) s.windows;
        log = s.log ++ (c.key, c.now) ∷ [];
      }
  unfolding serve_one check_rate_limit
  serve_one_served c s e = ground arith
