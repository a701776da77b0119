-- ===== src/Auth/Tokens.antt =====
-- The access tokens of app/core/auth.py over their life, with the revoked ones that
-- app/redis_client.py keeps: Redis is the dictionary of the digests, each with the time at which its
-- entry expires. The jose library and the SHA-256 digest are arguments. The clock is in microseconds;
-- the expiry of a token, and the time at which jose checks it, are in whole seconds.
use enterprise_multi_tenant.Base.{
  ◌/◌, ℕ, zero, suc, ◌+◌, ◌*◌, ◌<◌, ◌≡◌, Bool, true, false, Option, none, some, ltb, if◌then◌else◌,
}
use enterprise_multi_tenant.Text.{Text, text, text_eq}
use enterprise_multi_tenant.Dict.{Dict, get, put}
use enterprise_multi_tenant.Users.{TokenData, Pool}
use enterprise_multi_tenant.Auth.{
  Payload, absent, one, str, other, Verdict, local_user, revocation_ttl, second,
}

-- The claims of `to_encode`.
pub record AccessClaims : Type 0 where
  pub subject : TokenData
  pub exp : ℕ
  pub jti : Text

-- The claims by name.
unfoldable pub payload_of : AccessClaims → Payload
payload_of c name =
    if text_eq name (text "sub")
    then one (str c.subject.user_id)
    else if text_eq name (text "tenant_id")
    then one (str c.subject.tenant_id)
    else if text_eq name (text "role")
    then one (str c.subject.role)
    else if text_eq name (text "jti")
    then one (str c.jti)
    else if text_eq name (text "exp")
    then one (other true)
    else if text_eq name (text "token_type")
    then one (str (text "access"))
    else absent

-- What `jwt.decode` gives: the claims, and the one that is a time, if it is one.
pub record Decoded : Type 0 where
  pub payload : Payload
  pub expires_at : Option ℕ

-- The library under the configured key: a token for claims, and the claims that a token has at a
-- time, none where it raises.
pub record Jwt : Type 0 where
  pub encode : AccessClaims → Text
  pub decode : ℕ → Text → Option Decoded

-- `expires_delta or timedelta(minutes=...)`: a span of no length counts as none.
abbrev pub lifetime : Option ℕ → ℕ → ℕ
lifetime none minutes = minutes * 60
lifetime (some zero) minutes = minutes * 60
lifetime (some (suc d)) minutes = suc d

-- `create_access_token`, with the identifier that it draws, at a second.
unfoldable pub create_access_token : Jwt → ℕ → Option ℕ → Text → ℕ → TokenData → Text
create_access_token jwt minutes expires_delta jti now subject =
    jwt.encode (record { subject = subject; exp = now + lifetime expires_delta minutes; jti = jti })

-- The revoked digests.
abbrev pub Revoked : Type 0
Revoked = Dict ℕ

-- Whether Redis answers, and whether it must.
pub record RedisReplies : Type 0 where
  pub answers : Bool
  pub require_redis : Bool

-- `revoke_token`, by whether it returns.
unfoldable pub revoke_token : RedisReplies → Text → ℕ → ℕ → Revoked → Bool × Revoked
revoke_token r token_hash ttl now revoked =
    if r.answers
    then (true, put token_hash (now + ttl * second) revoked)
    else (if r.require_redis then false else true, revoked)

abbrev pub is_live : ℕ → Option ℕ → Bool
is_live now none = false
is_live now (some expires_at) = ltb now expires_at

-- `redis_client.exists`, none where the call raises.
unfoldable pub exists_revoked : RedisReplies → Text → ℕ → Revoked → Option Bool
exists_revoked r token_hash now revoked =
    if r.answers then some (is_live now (get token_hash revoked)) else none

abbrev pub revoked_for : RedisReplies → Text → ℕ → Revoked → Option ℕ → Bool × Revoked
revoked_for r token_hash now revoked none = (true, revoked)
revoked_for r token_hash now revoked (some ttl) = revoke_token r token_hash ttl now revoked

abbrev pub revoked_as : RedisReplies → Text → ℕ → Revoked → Option Decoded → Bool × Revoked
revoked_as r token_hash now revoked none = (false, revoked)
revoked_as r token_hash now revoked (some d) =
    revoked_for r token_hash now revoked (revocation_ttl d.expires_at now)

-- `revoke_access_token`, by whether it returns.
unfoldable pub revoke_access_token :
    (Text → Text) → Jwt → RedisReplies → ℕ → Text → Revoked → Bool × Revoked
unfolding revoke_token revocation_ttl
revoke_access_token hexdigest jwt r now token revoked =
    revoked_as r (hexdigest token) now revoked (jwt.decode (now / second) token)

abbrev pub payload_or_none : Option Decoded → Option Payload
payload_or_none none = none
payload_or_none (some d) = some d.payload

-- `get_current_tenant_user` in local mode.
unfoldable pub current_user :
    (Text → Text) → Jwt → RedisReplies → ℕ → Text → Revoked → Pool → Verdict
current_user hexdigest jwt r now token revoked pool =
    local_user
      (record {
        require_redis = r.require_redis;
        revoked = exists_revoked r (hexdigest token) now revoked;
        pool = pool;
      })
      (payload_or_none (jwt.decode (now / second) token))

-- What jose documents: a token that it has made decodes to its claims until it expires, and not
-- after that.
pub record IsJwt (jwt : Jwt) : Type 0 where
  pub valid :
      (c : AccessClaims) (now : ℕ)
      → now < c.exp
      → jwt.decode now (jwt.encode c)
        ≡ some (record { payload = payload_of c; expires_at = some c.exp })
  pub expired : (c : AccessClaims) (now : ℕ) → c.exp < now → jwt.decode now (jwt.encode c) ≡ none
