-- ===== src/ResponseCache.antt =====
-- The cached responses of the chat in app/redis_client.py. Redis is the dictionary of their keys, each
-- with the time at which it expires; a response that has expired is absent. What is stored is the
-- JSON text of a dictionary with the response alone. Times are in seconds.
use enterprise_multi_tenant.Base.{
  ℕ, ◌+◌, ◌<◌, ◌≡◌, ◌∙◌, ap, Bool, true, Option, none, some, ltb, if◌then◌else◌, arith,
}
use enterprise_multi_tenant.Text.{Text, text_eq_refl}
use enterprise_multi_tenant.Dict.{Dict, get, put, get-put}

pub record CachedResponse : Type 0 where
  pub response : Text
  pub expires_at : ℕ

abbrev pub Responses : Type 0
Responses = Dict CachedResponse

abbrev live_response : ℕ → Option CachedResponse → Option Text
live_response now none = none
live_response now (some c) = if ltb now c.expires_at then some c.response else none

unfoldable pub get_cached_response : Bool → ℕ → Text → Responses → Option Text
get_cached_response answers now cache_key d =
    if answers then live_response now (get cache_key d) else none

unfoldable pub set_cached_response : Bool → ℕ → Text → Text → ℕ → Responses → Responses
set_cached_response answers now cache_key response ttl_seconds d =
    if answers
    then put cache_key (record { response = response; expires_at = now + ttl_seconds }) d
    else d

-- A response that was stored is read until it expires.
pub get-set_cached_response :
    (now later : ℕ) (key response : Text) (ttl : ℕ) (d : Responses)
    → later < now + ttl
    → get_cached_response true later key (set_cached_response true now key response ttl d)
      ≡ some response
unfolding get_cached_response set_cached_response
get-set_cached_response now later key response ttl d h =
    ap (live_response later)
      (get-put key key (record { response = response; expires_at = now + ttl }) d)
    ∙ rw (text_eq_refl key) (ground arith)
