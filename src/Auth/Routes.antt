-- ===== src/Auth/Routes.antt =====
-- src/api/routes/auth.py: `/auth/token`, `/auth/refresh`, `/auth/logout` and `/auth/dev-token`.
use text.Mathlib.Text.{◌==◌}
use cryptosentinel_ai.Prelude.{ℕ, String, Bool, false, Option, none, some, [], ◌∷◌, if◌then◌else◌}
use cryptosentinel_ai.Dict.{Dict, lookup}
use cryptosentinel_ai.Float.{Float}
use cryptosentinel_ai.Auth.Store.{RedisClient, TokenStore, is_revoked, revoke}
use cryptosentinel_ai.Auth.Defs.{
  Answer, ok, http, invalid, ◌>>=◌, Claims, TokenPayload, or_else, Jose, Settings,
  create_access_token, create_refresh_token, create_dev_token,
}

-- DEMO_USERS: password and role.
abbrev pub demo_users : Dict (String × String)
demo_users =
    ("analyst@cryptosentinel.ai", ("analyst123", "analyst"))
    ∷ ("investigator@cryptosentinel.ai", ("invest123", "investigator"))
    ∷ ("admin@cryptosentinel.ai", ("admin123", "admin"))
    ∷ []

pub record LoginRequest : Type 0 where
  pub email : String
  pub password : String

-- With tokens of type `T`.
pub record TokenResponse (T : Type 0) : Type 0 where
  pub access_token : T
  pub refresh_token : T
  pub token_type : String
  pub role : String
  pub expires_in : ℕ

abbrev pub bearer : {T : Type 0} → T → T → String → TokenResponse T
bearer access refresh role = record {
  access_token = access;
  refresh_token = refresh;
  token_type = "bearer";
  role = role;
  expires_in = 900;
}

module _ (fl : Float) (jose : Jose fl) (st : Settings fl) where
  -- The two tokens of `login`, with their ids.
  unfoldable pub token_pair :
      String → String → String → String → fl.F → Answer (TokenResponse jose.Token)
  token_pair email role id₁ id₂ now =
      create_access_token fl jose st email role 15 id₁ now >>= λ access.
      create_refresh_token fl jose st email role 7 id₂ now >>= λ refresh.
      ok (bearer access refresh role)

  -- `login`
  unfoldable pub login : LoginRequest → String → String → fl.F → Answer (TokenResponse jose.Token)
  login request id₁ id₂ now = elim (lookup request.email demo_users) [
    | none ↦ http 401 "Invalid credentials"
    | some user ↦
        if user.0 == request.password
        then token_pair request.email user.1 id₁ id₂ now
        else http 401 "Invalid credentials"
  ]

  module _ (rc : RedisClient fl) where
    abbrev is_refresh : Option String → Bool
    is_refresh none = false
    is_refresh (some kind) = kind == "refresh"

    -- The end of `refresh`: the new access token; a missing `sub` is a `KeyError`.
    unfoldable pub new_access :
        Claims fl → jose.Token → String → fl.F → Answer (TokenResponse jose.Token)
    new_access claims token id now = elim claims.sub [
      | none ↦ invalid
      | some user_id ↦
          create_access_token fl jose st user_id (or_else fl "analyst" claims.role) 15 id now
          >>= λ access. ok (bearer access token (or_else fl "analyst" claims.role))
    ]

    unfoldable pub of_refresh_claims :
        Option (Claims fl)
        → jose.Token
        → String
        → fl.F
        → TokenStore fl rc
        → Answer (TokenResponse jose.Token) × TokenStore fl rc
    of_refresh_claims none token id now s = (http 401 "Invalid or expired refresh token", s)
    of_refresh_claims (some claims) token id now s =
        if is_refresh claims.kind
        then (let (revoked, s') = is_revoked fl rc (or_else fl "" claims.jti) now s in
            (
              if revoked
                  then http 401 "Refresh token has been revoked"
                  else new_access claims token id now,
              s',
            ))
        else (http 401 "Not a refresh token", s)

    -- `refresh`
    unfoldable pub refresh :
        jose.Token
        → String
        → fl.F
        → TokenStore fl rc
        → Answer (TokenResponse jose.Token) × TokenStore fl rc
    refresh token id now s =
        if st.public_key == ""
        then (http 503 "Auth service not configured", s)
        else of_refresh_claims (jose.decode token st.public_key now) token id now s

    -- `logout`; the answer names the id of the token.
    unfoldable pub logout :
        Option (TokenPayload fl) → fl.F → TokenStore fl rc → Answer String × TokenStore fl rc
    logout none now s = (http 401 "Authentication required", s)
    logout (some user) now s = (ok user.jti, revoke fl rc user.jti user.exp now s)

  -- `get_dev_token`
  unfoldable pub get_dev_token : String → String → fl.F → Answer jose.Token
  get_dev_token role id now =
      if st.environment == "development"
      then create_dev_token fl jose st role id now
      else http 403 "Dev tokens only available in development"
