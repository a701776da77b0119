-- ===== src/RateLimit.antt =====
-- The fixed-window limiter: `is_rate_limit_exceeded` of app/redis_client.py and `enforce_rate_limit`
-- of app/api/routes.py. Redis is the dictionary of its counters, each with the time at which it
-- expires, if it has one; a counter that has expired reads as absent. Times are in seconds.
pub mod Window
use enterprise_multi_tenant.Base.{
  ℕ, suc, ◌+◌, ◌==◌, Bool, true, false, not, List, [], ◌∷◌, ◌++◌, Option, none, some, ltb,
  if◌then◌else◌,
}
use enterprise_multi_tenant.Text.{Text, text, text_eq, is_empty}
use enterprise_multi_tenant.Dict.{Dict, get, put}

pub record Counter : Type 0 where
  pub value : ℕ
  pub expires_at : Option ℕ

abbrev pub Counters : Type 0
Counters = Dict Counter

-- What a call finds besides the counters: the time, which of its two commands Redis answers, and
-- the setting REQUIRE_REDIS.
pub record Redis : Type 0 where
  pub now : ℕ
  pub incr_answers : Bool
  pub expire_answers : Bool
  pub require_redis : Bool

abbrev pub is_live : ℕ → Counter → Bool
is_live now c = elim c.expires_at [ none ↦ true | some t ↦ ltb now t ]

-- The counter after `INCR`, which keeps the expiry of a live one.
unfoldable pub incremented : ℕ → Option Counter → Counter
incremented now none = record { value = 1; expires_at = none }
incremented now (some c) =
    if is_live now c
    then record { value = c.value + 1; expires_at = c.expires_at }
    else record { value = 1; expires_at = none }

-- What the call answers for the counter that it finds, and the counter that it leaves; none where
-- `INCR` failed and nothing was written.
unfoldable pub counted : Redis → ℕ → ℕ → Option Counter → Bool × Option Counter
unfolding incremented
counted r limit window found =
    let c = incremented r.now found in
    if not r.incr_answers
    then (r.require_redis, none)
    else if not (c.value == 1)
    then (ltb limit c.value, some c)
    else if r.expire_answers
    then (ltb limit c.value, some (record { value = c.value; expires_at = some (r.now + window) }))
    else (r.require_redis, some c)

abbrev pub written : Text → Option Counter → Counters → Counters
written key none counters = counters
written key (some c) counters = put key c counters

-- `is_rate_limit_exceeded`
unfoldable pub is_rate_limit_exceeded : Redis → Text → ℕ → ℕ → Counters → Bool × Counters
is_rate_limit_exceeded r key limit window counters =
    let (exceeded, c) = counted r limit window (get key counters) in
    (exceeded, written key c counters)

-- `identity or client_ip`, where the address of a request without a client is unknown.
abbrev rate_subject : Option Text → Option Text → Text
rate_subject (some (c ∷ identity)) client_host = c ∷ identity
rate_subject _ (some host) = host
rate_subject _ none = text "unknown"

-- `f"rate:{scope}:{rate_subject}"`
abbrev pub rate_key : Text → Option Text → Option Text → Text
rate_key scope identity client_host =
    text "rate:" ++ (scope ++ (text ":" ++ rate_subject identity client_host))

-- A request to a limited route.
pub record Call : Type 0 where
  pub redis : Redis
  pub scope : Text
  pub identity : Option Text
  pub client_host : Option Text

abbrev pub key_of : Call → Text
key_of c = rate_key c.scope c.identity c.client_host

-- `enforce_rate_limit`, with its window of a minute: whether the request is let through, where the
-- code answers 429 to the others.
unfoldable pub enforce_rate_limit : ℕ → Call → Counters → Bool × Counters
enforce_rate_limit limit c counters =
    let (exceeded, counters') = is_rate_limit_exceeded c.redis (key_of c) limit 60 counters in
    (not exceeded, counters')
