-- ===== src/RateLimiter/Defs.antt =====
-- The functions of src/api/middleware/rate_limiter.py. The clock is an argument, and so are the
-- unverified claims of a token (jose) and what the rest of the application answers.
use Prim.Native.String
use Prim.Native.String.{slice, len}
use text.Mathlib.Text.{◌==◌, starts_with}
use cryptosentinel_ai.Prelude.{
  ℕ, ◌-◌, String, Bool, true, false, ◌||◌, Option, none, some, List, [], ◌∷◌, ◌++◌, length, keep,
  leb, if◌then◌else◌,
}
use cryptosentinel_ai.Dict.{Dict, lookup, insert}
use cryptosentinel_ai.Float.{Float, lt_f, of_int}

-- A limit and its window in seconds.
abbrev pub Limit : Type 0
Limit = ℕ × ℕ

abbrev pub rate_limits : List (String × Limit)
rate_limits =
    ("/auth/token", (10, 60))
    ∷ ("/scan/contract", (10, 60))
    ∷ ("/analyze/wallet", (30, 60))
    ∷ ("/analyze/transaction", (30, 60))
    ∷ ("/alerts", (100, 60))
    ∷ ("/graph", (50, 60))
    ∷ []

abbrev pub default_limit : Limit
default_limit = (200, 60)

unfoldable pub first_limit : String → List (String × Limit) → Limit
first_limit path [] = default_limit
first_limit path ((prefix, limit) ∷ rest) =
    if starts_with path prefix then limit else first_limit path rest

-- `_get_limit`
unfoldable pub get_limit : String → Limit
unfolding first_limit
get_limit path = first_limit path rate_limits

-- The paths that are never limited.
unfoldable pub is_exempt : String → Bool
is_exempt path =
    path == "/health" || path == "/metrics" || path == "/" || path == "/docs" || path == "/redoc"

module _ (fl : Float) where
  open fl use {F, sub}

  abbrev pub Windows : Type 0
  Windows = Dict (List F)

  -- `_windows[key]`, which is `[]` after the `if key not in _windows`.
  unfoldable pub window_of : String → Windows → List F
  window_of key windows = elim (lookup key windows) [ none ↦ [] | some times ↦ times ]

  -- `t > now - window`
  abbrev pub recent : F → ℕ → F → Bool
  recent now window t = lt_f fl (sub now (of_int fl window)) t

  -- `_check_rate_limit`: allowed, remaining, and the new store.
  unfoldable pub check_rate_limit : String → ℕ → ℕ → F → Windows → Bool × ℕ × Windows
  check_rate_limit key limit window now windows =
      let times = keep (recent now window) (window_of key windows) in
      let count = length times in
      let remaining = limit - count in
      if leb limit count
      then (false, 0, insert key times windows)
      else (true, remaining - 1, insert key (times ++ now ∷ []) windows)

  -- What the middleware does with a request.
  pub data Verdict : Type 0 where
    -- No limit, and no header.
    passed : Verdict
    -- Answered by the application, with the limit and what remains of it in the headers.
    allowed : ℕ → ℕ → Verdict
    -- Status 429, with the limit and the window.
    rejected : ℕ → ℕ → Verdict

  -- `jwt.get_unverified_claims(token).get("sub")`; `none` is an exception, or no `sub`.
  abbrev pub Subject : Type 0
  Subject = String → Option String

  abbrev pub user_or : String → Option String → String
  user_or client_ip none = client_ip
  user_or client_ip (some sub) = if sub == "" then client_ip else String.◌++◌ "user:" sub

  unfoldable pub identity_of : Subject → String → String → String
  identity_of subject client_ip auth_header =
      if starts_with auth_header "Bearer "
      then user_or client_ip (subject (slice auth_header 7 (len auth_header)))
      else client_ip

  abbrev pub verdict : Limit → Bool × ℕ × Windows → Verdict × Windows
  verdict (limit, window) (ok, remaining, windows) =
      (if ok then allowed limit remaining else rejected limit window, windows)

  -- `RateLimitMiddleware.dispatch`
  unfoldable pub dispatch : Subject → String → String → String → F → Windows → Verdict × Windows
  unfolding is_exempt identity_of
  dispatch subject client_ip auth_header path now windows =
      let key = String.◌++◌ (identity_of subject client_ip auth_header) (String.◌++◌ ":" path) in
      let (limit, window) = get_limit path in
      if is_exempt path
      then (passed, windows)
      else verdict (limit, window) (check_rate_limit key limit window now windows)
