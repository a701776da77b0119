-- ===== src/Auth.antt =====
-- app/core/auth.py: who a bearer token stands for, in local and in OIDC mode, and its revocation.
-- `jwt.decode` of the jose library checks a token's signature, times, audience and issuer: it is a
-- parameter that gives the claims, or none where it raises. So are the answers of Redis and of the
-- key server. Times are in seconds, those of a revocation in microseconds; the SHA-256 digest of a token is what the Redis key is made of.
pub mod Local
pub mod Oidc
pub mod Tokens
pub mod Session
use enterprise_multi_tenant.Base.{
  ℕ, ◌+◌, ◌-◌, ◌*◌, ◌/◌, ◌≤◌, ◌==◌, Bool, true, false, not, ◌&&◌, ◌||◌, List, [], ◌∷◌, Option, none,
  some, leb, max, if◌then◌else◌,
}
use enterprise_multi_tenant.Text.{Text, text, text_eq, is_empty}
use enterprise_multi_tenant.Users.{
  TokenData, Pool, token_data, is_active_tenant_user, Result, ok, err,
}

-- A JSON value as the code tells values apart: a text, or another value, by whether it is true.
pub data Item : Type 0 where
  str : Text → Item
  other : Bool → Item

pub data Claim : Type 0 where
  absent : Claim
  one : Item → Claim
  many : List Item → Claim

-- The claims of a token by name.
abbrev pub Payload : Type 0
Payload = Text → Claim

abbrev pub item_truth : Item → Bool
item_truth (str s) = not (is_empty s)
item_truth (other b) = b

-- `bool(payload.get(name, ""))`
abbrev pub truth : Claim → Bool
truth absent = false
truth (one i) = item_truth i
truth (many []) = false
truth (many (i ∷ is)) = true

-- How a request's authentication ends: a user, the 401 response, or an exception that is not
-- caught here.
pub data Verdict : Type 0 where
  user : TokenData → Verdict
  unauthorized : Verdict
  server_error : Verdict

-- `is_token_revoked` of app/redis_client.py: `exists` is Redis' answer, none if the call raised.
unfoldable pub is_token_revoked : Bool → Option Bool → Bool
is_token_revoked require_redis none = require_redis
is_token_revoked require_redis (some exists) = exists

-- `TokenData(...)` of claims: pydantic refuses a value that is no text.
abbrev token_of : Claim → Claim → Claim → Option TokenData
token_of (one (str u)) (one (str t)) (one (str r)) = elim (token_data u t r) [
  | ok d ↦ some d
  | err _ ↦ none
]
token_of _ _ _ = none

abbrev active_verdict : TokenData → Result Bool → Verdict
active_verdict d (ok true) = user d
active_verdict d (ok false) = unauthorized
active_verdict d (err e) = server_error

-- What local mode asks others: Redis about the token's digest, and the settings.
pub record Services : Type 0 where
  pub require_redis : Bool
  pub revoked : Option Bool
  pub pool : Pool

-- The local branch of `get_current_tenant_user`, on what `jwt.decode` gave.
unfoldable pub local_user : Services → Option Payload → Verdict
unfolding token_data is_token_revoked
local_user s none = unauthorized
local_user s (some payload) =
    let user_id = payload (text "sub") in
    let tenant_id = payload (text "tenant_id") in
    let role = payload (text "role") in
    if not (truth user_id) || (not (truth tenant_id) || not (truth role))
    then unauthorized
    else if truth (payload (text "jti")) && is_token_revoked s.require_redis s.revoked
    then unauthorized
    else elim (token_of user_id tenant_id role) [
      | none ↦ unauthorized
      | some d ↦ active_verdict d (is_active_tenant_user d.tenant_id d.user_id d.role s.pool)
    ]

-- A second of the clock in microseconds.
abbrev pub second : ℕ
second = 1000000

-- The TTL of a revocation in seconds: `max(1, int(expires_at - time.time()))`, for a token that
-- expires at a whole number of seconds and a clock in microseconds; none where the claim is no number.
unfoldable pub revocation_ttl : Option ℕ → ℕ → Option ℕ
revocation_ttl none now = none
revocation_ttl (some expires_at) now = some (max 1 ((expires_at * second - now) / second))

-- What `get("kid")` gives: nothing or null, a text, or another value, by a number that two values
-- share exactly if Python finds them equal.
pub data Kid : Type 0 where
  no_kid : Kid
  named : Text → Kid
  numbered : ℕ → Kid

-- The keys that the key server published; a document whose `keys` is no list has none.
pub record SigningKey : Type 0 where
  pub kid : Kid
  pub material : Text

-- `_oidc_jwks` and `_oidc_jwks_expires_at`.
pub record JwksCache : Type 0 where
  pub keys : Option (List SigningKey)
  pub expires_at : ℕ

-- What OIDC mode asks others. `fetch` is the key server's answer, none if the request failed;
-- `header_kid` the header's key, none if the header is malformed; `decode` is jose's, under the
-- configured audience, issuer and algorithms; `algorithms_valid` says that the setting is valid.
pub record Provider : Type 0 where
  pub now : ℕ
  pub fetch : Option (Option (List SigningKey))
  pub header_kid : Text → Option Kid
  pub algorithms_valid : Bool
  pub decode : SigningKey → Text → Option Payload
  pub tenant_claim : Text
  pub role_claim : Text

-- `time.monotonic() >= _oidc_jwks_expires_at`: the keys are fetched anew; a failed request leaves
-- the old ones and their expiry.
unfoldable pub refresh : Provider → JwksCache → Bool × JwksCache
refresh p c =
    if leb c.expires_at p.now
    then elim p.fetch [
      | none ↦ (false, c)
      | some keys ↦ (true, record { keys = keys; expires_at = p.now + 900 })
    ]
    else (true, c)

-- `candidate.get("kid") == key_id`
abbrev kid_eq : Kid → Kid → Bool
kid_eq no_kid no_kid = true
kid_eq (named s) (named t) = text_eq s t
kid_eq (numbered m) (numbered n) = m == n
kid_eq _ _ = false

-- `next((candidate for candidate in keys if ...), None)`
unfoldable pub find_key : Kid → List SigningKey → Option SigningKey
find_key kid [] = none
find_key kid (k ∷ ks) = if kid_eq k.kid kid then some k else find_key kid ks

-- `role_claim[0] if isinstance(role_claim, list) and role_claim else role_claim`
abbrev first_role : Claim → Claim
first_role (many (i ∷ is)) = one i
first_role c = c

-- A claim must be a text that is not empty.
abbrev required : Claim → Option Text
required (one (str [])) = none
required (one (str (c ∷ s))) = some (c ∷ s)
required _ = none

abbrev oidc_token : Option Text → Option Text → Option Text → Option TokenData
oidc_token (some u) (some t) (some r) = elim (token_data u t r) [ ok d ↦ some d | err _ ↦ none ]
oidc_token _ _ _ = none

unfoldable pub claims_user : Provider → Payload → Option TokenData
unfolding token_data
claims_user p payload =
    oidc_token (required (payload (text "sub"))) (required (payload p.tenant_claim))
      (required (first_role (payload p.role_claim)))

abbrev decoded_user : Provider → Option Payload → Option TokenData
decoded_user p none = none
decoded_user p (some payload) = claims_user p payload

abbrev key_user : Provider → Text → Option SigningKey → Option TokenData
key_user p token none = none
key_user p token (some key) =
    if p.algorithms_valid then decoded_user p (p.decode key token) else none

abbrev keyed_user : Provider → Text → Option Kid → Option (List SigningKey) → Option TokenData
keyed_user p token (some kid) (some keys) = key_user p token (find_key kid keys)
keyed_user p token _ _ = none

-- `verify_oidc_token`, with the cache that it leaves; none where it raises one of the exceptions
-- that `get_current_tenant_user` answers with 401.
unfoldable pub verify_oidc_token : Provider → Text → JwksCache → Option TokenData × JwksCache
verify_oidc_token p token c =
    let (fresh, c') = refresh p c in
    (if fresh then keyed_user p token (p.header_kid token) c'.keys else none, c')

-- The OIDC branch of `get_current_tenant_user`.
unfoldable pub oidc_user : Provider → Text → JwksCache → Verdict × JwksCache
oidc_user p token c =
    let (result, c') = verify_oidc_token p token c in
    (elim result [ none ↦ unauthorized | some d ↦ user d ], c')
