-- ===== src/RateLimiter/Tests.antt =====
-- Runs of the limiter of src/api/middleware/rate_limiter.py on fixed-point times, and its theorems.
use cryptosentinel_ai.Prelude.{
  ℕ, ◌-◌, ◌≤◌, ◌<◌, ◌≡◌, refl, ◌↔◌, arith, true, [], ◌∷◌, List, length, keep,
}
use cryptosentinel_ai.Float.Fixed.{fixed}
use cryptosentinel_ai.Dict.{insert, lookup}
use cryptosentinel_ai.RateLimiter.Defs.{recent, check_rate_limit, get_limit, window_of}
use cryptosentinel_ai.RateLimiter.History.{Call, serve, serve_one, nothing_served, times_of}
use cryptosentinel_ai.RateLimiter.Window.{window_bound, served_iff}

login_limit : get_limit "/auth/token" ≡ (10, 60)
unfolding get_limit
login_limit = refl

other_limit : get_limit "/explain" ≡ (200, 60)
unfolding get_limit
other_limit = refl

abbrev at_second : ℕ → Call fixed
at_second now = record { key = "u:/a"; limit = 2; window = 60; now = now }

-- Three calls within a minute, at the seconds 100, 101 and 102, of which two are served.
abbrev burst : List (Call fixed)
burst = at_second 100_000_001 ∷ at_second 101_000_001 ∷ at_second 102_000_001 ∷ []

burst_served :
    times_of fixed "u:/a" (serve fixed burst (nothing_served fixed)).log
    ≡ 100_000_001 ∷ 101_000_001 ∷ []
unfolding serve serve_one check_rate_limit window_of times_of insert lookup
burst_served = refl

window_bound_example :
    length (
      keep
        (recent fixed 103_000_001 60)
        (times_of fixed "u:/a" (serve fixed burst (nothing_served fixed)).log))
    ≤ 2
window_bound_example =
    window_bound fixed "u:/a" 2 60 burst 1 103_000_001
      (λ e. (refl, refl), (λ e. (refl, refl), (λ e. (refl, refl), tt))) (omega arith)

served_iff_example :
    let s = serve fixed burst (nothing_served fixed) in
    let n = length (keep (recent fixed 103_000_001 60) (times_of fixed "u:/a" s.log)) in
    let r = check_rate_limit fixed "u:/a" 2 60 103_000_001 s.windows in
    ((r.0 ≡ true) ↔ (n < 2)) × (r.1 ≡ 2 - n - 1)
served_iff_example =
    served_iff fixed "u:/a" 2 60 burst 1 103_000_001
      (λ e. (refl, refl), (λ e. (refl, refl), (λ e. (refl, refl), tt))) (omega arith)
