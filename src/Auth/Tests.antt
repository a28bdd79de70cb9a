-- ===== src/Auth/Tests.antt =====
-- Runs of the routes of src/api/routes/auth.py, and the theorems on tokens there.
use text.Mathlib.Text.{◌==◌}
use cryptosentinel_ai.Prelude.{
  ℕ, ◌≤◌, ◌≡◌, ◌≢◌, refl, String, false, Option, some, none, List, [], ◌∷◌, arith, eq_iff,
  if◌then◌else◌,
}
use cryptosentinel_ai.Dict.{lookup}
use cryptosentinel_ai.Float.Fixed.{fixed}
use cryptosentinel_ai.Auth.Store.{RedisClient, TokenStore, is_revoked, revoke, in_memory}
use cryptosentinel_ai.Auth.Defs.{
  ok, http, Claims, TokenPayload, claims_of, Jose, Settings, access_payload, get_current_user,
}
use cryptosentinel_ai.Float.{of_int}
use cryptosentinel_ai.Auth.Routes.{LoginRequest, TokenResponse, login, logout, demo_users}
use cryptosentinel_ai.Auth.Revocation.{outage_readmits, logout_rejects}
use cryptosentinel_ai.Auth.Access.{refresh_token_admitted}

-- A redis server that takes writes and answers no reads.
abbrev redis : RedisClient fixed
redis = record {
  R = List String;
  setex = λ jti ttl now r. some (jti ∷ r);
  exists = λ jti now r. none;
  max_one = λ x. 1;
}

-- Tokens that are claims with the key that signed them.
abbrev opened : Claims fixed × String → String → Option (Claims fixed)
opened token key = if token.1 == key then some token.0 else none

opened_self :
    (p : TokenPayload fixed) (private_key public_key : String) (now : ℕ)
    → private_key ≡ public_key
    → now ≤ p.exp
    → opened (claims_of fixed p, private_key) public_key ≡ some (claims_of fixed p)
opened_self p private_key public_key now same lives = ground (arith, eq_iff private_key public_key)

abbrev jose : Jose fixed
jose = record {
  Token = Claims fixed × String;
  encode = λ claims key. (claims, key);
  decode = λ token key now. opened token key;
  IsPair = λ private_key public_key. private_key ≡ public_key;
  decode-encode = opened_self;
}

abbrev settings : Settings fixed
settings = record { private_key = "key"; public_key = "key"; environment = "production" }

key_given : settings.public_key ≢ ""
key_given e = ground (arith, eq_iff settings.public_key "")

abbrev analyst : LoginRequest
analyst = record { email = "analyst@cryptosentinel.ai"; password = "analyst123" }

analyst_known : lookup analyst.email demo_users ≡ some ("analyst123", "analyst")
unfolding lookup
analyst_known = refl

abbrev memory : TokenStore fixed redis
memory = record { redis = none; mem = [] }

not_revoked : (jti : String) → (is_revoked fixed redis jti 5 memory).0 ≡ false
unfolding is_revoked in_memory lookup
not_revoked jti = refl

refresh_token_admitted_example :
    (r : TokenResponse jose.Token) × (login fixed jose settings analyst "1" "2" 1 ≡ ok r)
    × ((get_current_user fixed jose redis settings (some r.refresh_token) "3" 5 memory).0
        ≡ ok (
            some (record {
              sub = analyst.email;
              role = "analyst";
              jti = "2";
              exp = fixed.add 1 (of_int fixed 604_800);
              iat = 1;
              kind = "refresh";
            })))
refresh_token_admitted_example =
    refresh_token_admitted fixed redis jose settings analyst "analyst" "1" "2" 1 "3" 5 memory
      key_given key_given refl analyst_known (omega arith) (not_revoked "2")

abbrev user : TokenPayload fixed
user = access_payload fixed jose "a" "system" 15 "1" 1

logout_rejects_example :
    (get_current_user fixed jose redis settings
      (some (claims_of fixed user, "key"))
      "3"
      5
      (logout fixed jose settings redis (some user) 4 memory).1).0
    ≡ http 401 "Token has been revoked"
logout_rejects_example =
    logout_rejects fixed redis jose settings (claims_of fixed user, "key") "3" user 4 5 memory refl
      key_given refl (omega arith)

abbrev connected : TokenStore fixed redis
connected = record { redis = some []; mem = [] }

outage_readmits_example :
    (is_revoked fixed redis "1" 5 (revoke fixed redis "1" 900 4 connected)).0 ≡ false
outage_readmits_example =
    outage_readmits fixed redis "1" 900 4 5 connected [] ("1" ∷ []) refl refl
      (unfold lookup in refl) refl
