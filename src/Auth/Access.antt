-- ===== src/Auth/Access.antt =====
-- Who is let in: the tokens of src/api/routes/auth.py, and `get_current_user` of src/api/auth.py.
use cryptosentinel_ai.Prelude.{
  ◌≤◌, ◌≡◌, ◌≢◌, ◌↔◌, ◌⊎◌, ap, ◌∙◌, String, true, false, some, List, arith, eq_iff, eq_self,
  eq_of_ne,
}
use cryptosentinel_ai.Dict.{lookup}
use cryptosentinel_ai.Float.{Float, of_int}
use cryptosentinel_ai.Auth.Store.{RedisClient, TokenStore, is_revoked}
use cryptosentinel_ai.Auth.Defs.{
  ok, TokenPayload, claims_of, Jose, Settings, access_payload, refresh_payload, create_access_token,
  create_refresh_token, unless, unless_revoked, get_current_user, among, require_auth, require_role,
}
use cryptosentinel_ai.Auth.Routes.{
  demo_users, LoginRequest, TokenResponse, bearer, token_pair, login,
}
use cryptosentinel_ai.Auth.Revocation.{current_user_of}

module _ (fl : Float) (rc : RedisClient fl) (jose : Jose fl) (st : Settings fl) where
  -- A token that is signed with the configured pair, up to its expiry, while it is not revoked.
  admitted :
      (p : TokenPayload fl) (id : String) (later : fl.F) (s : TokenStore fl rc)
      → st.public_key ≢ ""
      → jose.IsPair st.private_key st.public_key
      → fl.place later ≤ fl.place p.exp
      → (is_revoked fl rc p.jti later s).0 ≡ false
      → (get_current_user fl jose rc st
          (some (jose.encode (claims_of fl p) st.private_key))
          id
          later
          s).0
        ≡ ok (some p)
  unfolding unless_revoked
  admitted p id later s public pair lives fresh =
      ap (λ r. r.0)
        (current_user_of fl rc jose st (jose.encode (claims_of fl p) st.private_key) id p later s
          public (jose.decode-encode p st.private_key st.public_key later pair lives))
      ∙ ap (λ b. unless fl jose rc b p) fresh

  module _ (request : LoginRequest) (role id₁ id₂ : String) (now : fl.F) where
    abbrev pub access : TokenPayload fl
    access = access_payload fl jose request.email role 15 id₁ now

    abbrev pub refreshing : TokenPayload fl
    refreshing = refresh_payload fl jose request.email role 7 id₂ now

    abbrev pub signed : TokenPayload fl → jose.Token
    signed p = jose.encode (claims_of fl p) st.private_key

    -- With both keys of a pair, the refresh token that `login` returns to a user with the right password is
    -- admitted by `get_current_user` in place of an access token, up to 604 800 seconds (seven days) after
    -- the login, while its id is not revoked: as the payload with that email and role, and the kind "refresh".
    pub refresh_token_admitted :
        (id : String) (later : fl.F) (s : TokenStore fl rc)
        → st.private_key ≢ ""
        → st.public_key ≢ ""
        → jose.IsPair st.private_key st.public_key
        → lookup request.email demo_users ≡ some (request.password, role)
        → fl.place later ≤ fl.place (fl.add now (of_int fl 604_800))
        → (is_revoked fl rc id₂ later s).0 ≡ false
        → (r : TokenResponse jose.Token) × (login fl jose st request id₁ id₂ now ≡ ok r)
          × ((get_current_user fl jose rc st (some r.refresh_token) id later s).0
              ≡ ok (
                  some (record {
                    sub = request.email;
                    role = role;
                    jti = id₂;
                    exp = fl.add now (of_int fl 604_800);
                    iat = now;
                    kind = "refresh";
                  })))
    unfolding login token_pair create_access_token create_refresh_token
    refresh_token_admitted id later s private public pair user lives fresh = (
      bearer (signed access) (signed refreshing) role,
      ground (arith, user, eq_self request.password, eq_of_ne st.private_key "" private),
      admitted refreshing id later s public pair lives fresh,
    )

  -- `require_role` lets a user through exactly when the user's role is among those that it asks for
  -- or is "admin".
  pub require_role_iff :
      (roles : List String) (p : TokenPayload fl)
      → ((require_role fl roles (some p) ≡ ok p)
          ↔ ((among fl p.role roles ≡ true) ⊎ (p.role ≡ "admin")))
  unfolding require_role require_auth
  require_role_iff roles p = ground (arith, eq_iff p.role "admin")
