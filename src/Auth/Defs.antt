-- ===== src/Auth/Defs.antt =====
-- src/api/auth.py: tokens, the current user and roles. The library jose and the key files are
-- parameters, and so are the clock and fresh ids; log entries are left out.
use text.Mathlib.Text.{◌==◌}
use cryptosentinel_ai.Prelude.{
  ℕ, ◌*◌, ◌≤◌, ◌≡◌, String, Bool, false, not, ◌&&◌, ◌||◌, Option, none, some, List, [], ◌∷◌,
  if◌then◌else◌,
}
use cryptosentinel_ai.Float.{Float, of_int}
use cryptosentinel_ai.Auth.Store.{RedisClient, TokenStore, is_revoked}

-- An answer, an `HTTPException` with its status and detail, or an exception of another kind: a
-- validation error of pydantic, or a missing key.
pub data Answer (A : Type 0) : Type 0 where
  ok : A → Answer A
  http : ℕ → String → Answer A
  invalid : Answer A

infixl 5 ◌>>=◌
abbrev pub ◌>>=◌ : {A B : Type 0} → Answer A → (A → Answer B) → Answer B
ok a >>= f = f a
http status detail >>= f = http status detail
invalid >>= f = invalid

module _ (fl : Float) where
  open fl use {F, add}

  -- The claims of a token as it is decoded: any of them may be missing.
  pub record Claims : Type 0 where
    pub sub : Option String
    pub role : Option String
    pub jti : Option String
    pub exp : Option F
    pub iat : Option F
    pub kind : Option String

  pub record TokenPayload : Type 0 where
    pub sub : String
    pub role : String
    pub jti : String
    pub exp : F
    pub iat : F
    pub kind : String

  abbrev pub claims_of : TokenPayload → Claims
  claims_of p = record {
    sub = some p.sub;
    role = some p.role;
    jti = some p.jti;
    exp = some p.exp;
    iat = some p.iat;
    kind = some p.kind;
  }

  abbrev pub or_else : {A : Type 0} → A → Option A → A
  or_else a none = a
  or_else a (some b) = b

  -- `TokenPayload(**payload)`; all but `type` is required.
  unfoldable pub payload_of : Claims → Answer TokenPayload
  payload_of c = required c.sub >>= λ sub. required c.role >>= λ role. required c.jti >>= λ jti.
      required c.exp >>= λ exp. required c.iat >>= λ iat. ok (record {
        sub = sub;
        role = role;
        jti = jti;
        exp = exp;
        iat = iat;
        kind = or_else "access" c.kind;
      })
    where
      required : {A : Type 0} → Option A → Answer A
      required none = invalid
      required (some a) = ok a

  -- `jwt.encode` and `jwt.decode` with RS256; `none` is a `JWTError`. With the public key of the
  -- pair a token that was signed with the private key is decoded up to its expiry.
  pub record Jose : Type 1 where
    -- The texts of tokens.
    pub Token : Type 0
    pub encode : Claims → String → Token
    pub decode : Token → String → F → Option Claims
    pub IsPair : String → String → Type 0
    pub decode-encode :
        (p : TokenPayload) (private_key public_key : String) (now : F)
        → IsPair private_key public_key
        → fl.place now ≤ fl.place p.exp
        → decode (encode (claims_of p) private_key) public_key now ≡ some (claims_of p)

  -- The settings that the code reads; a key file that is missing is read as "".
  pub record Settings : Type 0 where
    pub private_key : String
    pub public_key : String
    pub environment : String

  module _ (jose : Jose) where
    abbrev pub sign : Settings → TokenPayload → Answer jose.Token
    sign st p =
        if st.private_key == ""
        then http 500 "Auth service not configured"
        else ok (jose.encode (claims_of p) st.private_key)

    abbrev pub access_payload : String → String → ℕ → String → F → TokenPayload
    access_payload user_id role expires_minutes id now = record {
      sub = user_id;
      role = role;
      jti = id;
      exp = add now (of_int fl (expires_minutes * 60));
      iat = now;
      kind = "access";
    }

    -- `create_access_token`
    unfoldable pub create_access_token :
        Settings → String → String → ℕ → String → F → Answer jose.Token
    create_access_token st user_id role expires_minutes id now =
        sign st (access_payload user_id role expires_minutes id now)

    abbrev pub refresh_payload : String → String → ℕ → String → F → TokenPayload
    refresh_payload user_id role expires_days id now = record {
      sub = user_id;
      role = role;
      jti = id;
      exp = add now (of_int fl (expires_days * 86_400));
      iat = now;
      kind = "refresh";
    }

    -- `create_refresh_token`
    unfoldable pub create_refresh_token :
        Settings → String → String → ℕ → String → F → Answer jose.Token
    create_refresh_token st user_id role expires_days id now =
        sign st (refresh_payload user_id role expires_days id now)

    -- `create_dev_token`
    unfoldable pub create_dev_token : Settings → String → String → F → Answer jose.Token
    create_dev_token st role id now = create_access_token st "dev_user" role (60 * 24) id now

    module _ (rc : RedisClient fl) where
      -- A handler returns its answer and the state of the token store.
      abbrev pub Handled : Type 0 → Type 0
      Handled A = Answer A × TokenStore fl rc

      abbrev pub dev_user : String → F → TokenPayload
      dev_user id now = record {
        sub = "dev_user";
        role = "admin";
        jti = id;
        exp = add now (of_int fl 3600);
        iat = now;
        kind = "access";
      }

      abbrev pub unless : Bool → TokenPayload → Answer (Option TokenPayload)
      unless revoked p = if revoked then http 401 "Token has been revoked" else ok (some p)

      -- The end of `get_current_user`: the token is valid, and is looked up in the denylist.
      unfoldable pub unless_revoked :
          TokenPayload → F → TokenStore fl rc → Handled (Option TokenPayload)
      unless_revoked p now s =
          let (revoked, s') = is_revoked fl rc p.jti now s in (unless revoked p, s')

      unfoldable pub of_payload :
          Answer TokenPayload → F → TokenStore fl rc → Handled (Option TokenPayload)
      of_payload (ok p) now s = unless_revoked p now s
      of_payload (http status detail) now s = (http status detail, s)
      of_payload invalid now s = (invalid, s)

      unfoldable pub of_claims :
          Option Claims → F → TokenStore fl rc → Handled (Option TokenPayload)
      of_claims none now s = (http 401 "Invalid or expired token", s)
      of_claims (some claims) now s = of_payload (payload_of claims) now s

      -- `get_current_user`: `none` is a request with no credentials.
      unfoldable pub get_current_user :
          Settings
          → Option jose.Token
          → String
          → F
          → TokenStore fl rc
          → Handled (Option TokenPayload)
      get_current_user st none id now s = (ok none, s)
      get_current_user st (some token) id now s =
          if st.public_key == ""
          then (
            if st.environment == "development"
                then ok (some (dev_user id now))
                else http 503 "Auth service not configured",
            s,
          )
          else of_claims (jose.decode token st.public_key now) now s

  -- `require_auth`
  unfoldable pub require_auth : Option TokenPayload → Answer TokenPayload
  require_auth none = http 401 "Authentication required"
  require_auth (some user) = ok user

  abbrev pub among : String → List String → Bool
  among x [] = false
  among x (y ∷ ys) = x == y || among x ys

  -- `require_role(*roles)`; the detail of the refusal leaves out the two roles that it names.
  unfoldable pub require_role : List String → Option TokenPayload → Answer TokenPayload
  require_role roles user = require_auth user >>= λ u.
      if not (among u.role roles) && not (u.role == "admin")
      then http 403 "Role cannot access this endpoint"
      else ok u
