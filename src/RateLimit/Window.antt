-- ===== src/RateLimit/Window.antt =====
-- How many requests of one subject the limiter lets through.
use enterprise_multi_tenant.Base.{
  ℕ, suc, ◌+◌, ◌-◌, ◌≤◌, ◌≡◌, refl, ◌∙◌, min, Bool, true, false, not, List, [], ◌∷◌, Option, none,
  some, arith, All, count, ltb, if◌then◌else◌, Bool-cases, inl, inr,
}
use enterprise_multi_tenant.Text.{Text, text_eq, text_eq_iff, text_eq_refl}
use enterprise_multi_tenant.Dict.{get, get-put}
use enterprise_multi_tenant.RateLimit.{
  Counter, Counters, Redis, Call, is_live, incremented, is_rate_limit_exceeded, enforce_rate_limit,
  key_of, written, counted,
}

-- Whether a request is one of the subject's.
abbrev pub is_for : Text → Call → Bool
is_for key c = text_eq (key_of c) key

-- How many of a subject's requests to routes with one limit are let through, with the requests of
-- other subjects between them.
unfoldable pub let_through : ℕ → Text → List Call → Counters → ℕ
let_through limit key [] counters = 0
let_through limit key (c ∷ cs) counters =
    let (ok, counters') = enforce_rate_limit limit c counters in
    let rest = let_through limit key cs counters' in
    if is_for key c then (if ok then suc rest else rest) else rest

-- Redis counts the request, and a counter with this expiry is live then.
abbrev pub IsServed : Option ℕ → Call → Type 0
IsServed expiry c =
    (is_live c.redis.now (record { value = 1; expires_at = expiry }) ≡ true)
    × (c.redis.incr_answers ≡ true)

other_written :
    (j k : Text) (c : Option Counter) (counters : Counters)
    → text_eq j k ≡ false
    → get k (written j c counters) ≡ get k counters
other_written j k none counters h = refl
other_written j k (some c) counters h = get-put k j c counters ∙ rw h refl

-- A request of another subject leaves the subject's counter as it is.
other_call :
    (limit : ℕ) (key : Text) (c : Call) (counters : Counters)
    → is_for key c ≡ false
    → get key (enforce_rate_limit limit c counters).1 ≡ get key counters
unfolding enforce_rate_limit is_rate_limit_exceeded
other_call limit key c counters h = other_written (key_of c) key _ counters h

-- A request of the subject, by what is counted for the counter that it finds.
own_call :
    (limit : ℕ) (key : Text) (c : Call) (counters : Counters) (found : Option Counter) (b : Bool)
    (d : Counter)
    → is_for key c ≡ true
    → get key counters ≡ found
    → counted c.redis limit 60 found ≡ (b, some d)
    → ((enforce_rate_limit limit c counters).0 ≡ not b)
      × (get key (enforce_rate_limit limit c counters).1 ≡ some d)
unfolding enforce_rate_limit is_rate_limit_exceeded
own_call limit key c counters found b d same is_found e =
    rw ((text_eq_iff (key_of c) key).0 same, is_found, e)
      (refl, get-put key key d counters ∙ rw (text_eq_refl key) refl)

counted-next :
    (r : Redis) (limit n : ℕ) (expiry : Option ℕ)
    → is_live r.now (record { value = 1; expires_at = expiry }) ≡ true
    → r.incr_answers ≡ true
    → 1 ≤ n
    → counted r limit 60 (some (record { value = n; expires_at = expiry }))
      ≡ (ltb limit (n + 1), some (record { value = n + 1; expires_at = expiry }))
unfolding counted incremented
counted-next r limit n none live answers pos = ground arith
counted-next r limit n (some until) live answers pos = ground arith

-- No counter of the subject is live.
abbrev pub IsFresh : ℕ → Option Counter → Type 0
IsFresh now none = Unit
IsFresh now (some c) = is_live now c ≡ false

counted-first :
    (r : Redis) (limit : ℕ) (found : Option Counter)
    → IsFresh r.now found
    → r.incr_answers ≡ true
    → r.expire_answers ≡ true
    → counted r limit 60 found
      ≡ (ltb limit 1, some (record { value = 1; expires_at = some (r.now + 60) }))
unfolding counted incremented
counted-first r limit none fresh answers expires = ground arith
counted-first r limit (some c) fresh answers expires = ground arith

-- After `n` requests of the subject in the window, those that follow are let through until there
-- have been `limit` in all.
let_through_after :
    (limit n : ℕ) (expiry : Option ℕ) (key : Text) (cs : List Call) (counters : Counters)
    → All (IsServed expiry) cs
    → 1 ≤ n
    → get key counters ≡ some (record { value = n; expires_at = expiry })
    → let_through limit key cs counters ≡ min (limit - n) (count (is_for key) cs)
unfolding let_through
let_through_after limit n expiry key [] counters served pos found = omega arith
let_through_after limit n expiry key (c ∷ cs) counters (now, rest) pos found =
    elim (Bool-cases (is_for key c)) [
      | inl own ↦
          let (ok, after) =
            own_call limit key c counters _ _ _ own found
              (counted-next c.redis limit n expiry now.0 now.1 pos) in
          let more : let_through limit key cs (enforce_rate_limit limit c counters).1
              ≡ min (limit - (n + 1)) (count (is_for key) cs) =
            let_through_after limit (n + 1) expiry key cs _ rest (omega arith) after in
          rw (own, ok) (ground (arith, more))
      | inr not_own ↦
          let more : let_through limit key cs (enforce_rate_limit limit c counters).1
              ≡ min (limit - n) (count (is_for key) cs) =
            let_through_after limit n expiry key cs _ rest pos
              (other_call limit key c counters not_own ∙ found) in
          rw not_own more
    ]

-- In the minute that a subject's first request begins, with no live counter of it before, exactly
-- its first `limit` requests are let through, however many it makes and whatever other subjects ask
-- between them, while Redis answers.
pub rate_limit_window :
    (limit : ℕ) (key : Text) (first : Call) (cs : List Call) (counters : Counters)
    → key_of first ≡ key
    → IsFresh first.redis.now (get key counters)
    → first.redis.incr_answers ≡ true
    → first.redis.expire_answers ≡ true
    → All (IsServed (some (first.redis.now + 60))) cs
    → let_through limit key (first ∷ cs) counters ≡ min limit (1 + count (is_for key) cs)
unfolding let_through
rate_limit_window limit key first cs counters same fresh counts expires served =
    let own : is_for key first ≡ true = (text_eq_iff (key_of first) key).1 same in
    let (ok, after) =
      own_call limit key first counters _ _ _ own refl
        (counted-first first.redis limit (get key counters) fresh counts expires) in
    let more : let_through limit key cs (enforce_rate_limit limit first counters).1
        ≡ min (limit - 1) (count (is_for key) cs) =
      let_through_after limit 1 (some (first.redis.now + 60)) key cs _ served (omega arith) after in
    rw (own, ok) (ground (arith, more))

counted-unexpiring :
    (r : Redis) (limit : ℕ) (found : Option Counter)
    → IsFresh r.now found
    → r.incr_answers ≡ true
    → r.expire_answers ≡ false
    → counted r limit 60 found ≡ (r.require_redis, some (record { value = 1; expires_at = none }))
unfolding counted incremented
counted-unexpiring r limit none fresh answers fails = ground arith
counted-unexpiring r limit (some c) fresh answers fails = ground arith

-- If Redis counts a subject's first request but does not answer the command that sets the expiry,
-- then only `limit - 1` of the subject's later requests are ever let through, at whatever times.
pub unexpiring_window :
    (limit : ℕ) (key : Text) (first : Call) (cs : List Call) (counters : Counters)
    → key_of first ≡ key
    → IsFresh first.redis.now (get key counters)
    → first.redis.incr_answers ≡ true
    → first.redis.expire_answers ≡ false
    → All (λ c. c.redis.incr_answers ≡ true) cs
    → let_through limit key cs (enforce_rate_limit limit first counters).1
      ≡ min (limit - 1) (count (is_for key) cs)
unexpiring_window limit key first cs counters same fresh counts fails served =
    let own : is_for key first ≡ true = (text_eq_iff (key_of first) key).1 same in
    let (ok, after) =
      own_call limit key first counters _ _ _ own refl
        (counted-unexpiring first.redis limit (get key counters) fresh counts fails) in
    let_through_after limit 1 none key cs _ (at_any_time cs served) (omega arith) after
  where
    at_any_time :
        (ds : List Call) → All (λ c. c.redis.incr_answers ≡ true) ds → All (IsServed none) ds
    at_any_time [] h = tt
    at_any_time (d ∷ ds) (h, rest) = ((refl, h), at_any_time ds rest)
