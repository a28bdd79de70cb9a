-- ===== src/Auth/Store.antt =====
-- `TokenStore` of src/api/token_store.py. The redis client is an interface; a lock is held around
-- each use of the dict, so a call is one step. The clock is an argument.
use cryptosentinel_ai.Prelude.{ℕ, String, Bool, true, false, Option, none, some, eqb, if◌then◌else◌}
use cryptosentinel_ai.Dict.{Dict, lookup, insert, remove}
use cryptosentinel_ai.Float.{Float, lt_f}

-- `setex` and `exists` of a redis client at a time; `none` is an exception. `max_one` is
-- `max(1, int(x))`.
pub record RedisClient (fl : Float) : Type 1 where
  pub R : Type 0
  pub setex : String → ℕ → fl.F → R → Option R
  pub exists : String → fl.F → R → Option ℕ
  pub max_one : fl.F → ℕ

module _ (fl : Float) (rc : RedisClient fl) where
  open fl use {F, sub}

  -- `_redis`, which is `None` when no server answered, and `_mem`, with expiry times.
  pub record TokenStore : Type 0 where
    pub redis : Option rc.R
    pub mem : Dict F

  unfoldable pub remember : String → F → TokenStore → TokenStore
  remember jti expires_at s = record s { mem = insert jti expires_at s.mem }

  -- `revoke`; the prefix of the key in redis is part of the client.
  unfoldable pub revoke : String → F → F → TokenStore → TokenStore
  revoke jti expires_at now s = elim s.redis [
    | none ↦ remember jti expires_at s
    | some r ↦ elim (rc.setex jti (rc.max_one (sub expires_at now)) now r) [
      | none ↦ remember jti expires_at s
      | some r' ↦ record s { redis = some r' }
    ]
  ]

  -- The part of `is_revoked` that reads `_mem`, and evicts an expired entry.
  unfoldable pub in_memory : String → F → TokenStore → Bool × TokenStore
  in_memory jti now s = elim (lookup jti s.mem) [
    | none ↦ (false, s)
    | some exp ↦ if lt_f fl exp now then (false, record s { mem = remove jti s.mem }) else (true, s)
  ]

  unfoldable pub is_revoked : String → F → TokenStore → Bool × TokenStore
  is_revoked jti now s = elim s.redis [
    | none ↦ in_memory jti now s
    | some r ↦ elim (rc.exists jti now r) [ none ↦ in_memory jti now s | some n ↦ (eqb n 1, s) ]
  ]
