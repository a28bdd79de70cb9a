-- ===== src/Auth/Revocation.antt =====
-- Revoked tokens: `revoke` and `is_revoked` of src/api/token_store.py, behind `get_current_user`.
use cryptosentinel_ai.Prelude.{
  ◌≤◌, ◌≡◌, ◌≢◌, refl, ap, ◌∙◌, String, Bool, true, false, none, some, arith, eq_of_ne,
}
use cryptosentinel_ai.Dict.{lookup, lookup-insert_self}
use cryptosentinel_ai.Float.{Float}
use cryptosentinel_ai.Auth.Store.{RedisClient, TokenStore, remember, revoke, in_memory, is_revoked}
use cryptosentinel_ai.Auth.Defs.{
  http, TokenPayload, claims_of, payload_of, Jose, Settings, unless, unless_revoked, of_payload,
  of_claims, get_current_user,
}
use cryptosentinel_ai.Auth.Routes.{logout}

module _ (fl : Float) (rc : RedisClient fl) where
  remembered :
      (jti : String) (exp later : fl.F) (s : TokenStore fl rc)
      → s.redis ≡ none
      → fl.place later ≤ fl.place exp
      → is_revoked fl rc jti later (remember fl rc jti exp s) ≡ (true, remember fl rc jti exp s)
  unfolding is_revoked remember in_memory
  remembered jti exp later s off lives = ground (arith, off, lookup-insert_self jti exp s.mem)

  revoke_off :
      (jti : String) (exp now : fl.F) (s : TokenStore fl rc)
      → s.redis ≡ none
      → revoke fl rc jti exp now s ≡ remember fl rc jti exp s
  unfolding revoke
  revoke_off jti exp now s off = ground (arith, off)

  -- With redis, a token that was revoked there is admitted again by `is_revoked` in an outage, when
  -- `exists` raises: the fallback was never told of it.
  pub outage_readmits :
      (jti : String) (exp now later : fl.F) (s : TokenStore fl rc) (r r' : rc.R)
      → s.redis ≡ some r
      → rc.setex jti (rc.max_one (fl.sub exp now)) now r ≡ some r'
      → lookup jti s.mem ≡ none
      → rc.exists jti later r' ≡ none
      → (is_revoked fl rc jti later (revoke fl rc jti exp now s)).0 ≡ false
  unfolding is_revoked revoke in_memory
  outage_readmits jti exp now later s r r' on set unknown outage =
      ground (arith, on, set, unknown, outage)

  module _ (jose : Jose fl) (st : Settings fl) where
    -- How `get_current_user` treats a token that decodes to all claims.
    pub current_user_of :
        (token : jose.Token) (id : String) (p : TokenPayload fl) (now : fl.F) (s : TokenStore fl rc)
        → st.public_key ≢ ""
        → jose.decode token st.public_key now ≡ some (claims_of fl p)
        → get_current_user fl jose rc st (some token) id now s ≡ unless_revoked fl jose rc p now s
    unfolding get_current_user of_claims of_payload payload_of
    current_user_of token id p now s key e = rw (eq_of_ne st.public_key "" key, e) refl

    -- Without redis: after `logout` with a valid token, `get_current_user` refuses that token with
    -- status 401 at every time up to its expiry at which it still decodes.
    pub logout_rejects :
        (token : jose.Token) (id : String) (p : TokenPayload fl) (now later : fl.F)
        (s : TokenStore fl rc)
        → s.redis ≡ none
        → st.public_key ≢ ""
        → jose.decode token st.public_key later ≡ some (claims_of fl p)
        → fl.place later ≤ fl.place p.exp
        → (get_current_user fl jose rc st
            (some token)
            id
            later
            (logout fl jose st rc (some p) now s).1).0
          ≡ http 401 "Token has been revoked"
    unfolding logout unless_revoked
    logout_rejects token id p now later s off key e lives =
        let left = remember fl rc p.jti p.exp s in
        ap (λ t. (get_current_user fl jose rc st (some token) id later t).0)
          (revoke_off p.jti p.exp now s off)
        ∙ ap (λ r. r.0) (current_user_of token id p later left key e)
        ∙ ap (λ (r : Bool × TokenStore fl rc). unless fl jose rc r.0 p)
            (remembered p.jti p.exp later s off lives)
