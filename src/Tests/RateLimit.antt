-- ===== src/Tests/RateLimit.antt =====
-- The limiter, run.
use enterprise_multi_tenant.Base.{
  ℕ, ◌+◌, ◌-◌, ◌≡◌, refl, min, Bool, true, false, [], ◌∷◌, none, some, count,
}
use enterprise_multi_tenant.Text.{Text, text}
use enterprise_multi_tenant.Dict.{get}
use enterprise_multi_tenant.RateLimit.{Call, enforce_rate_limit}
use enterprise_multi_tenant.RateLimit.Window.{
  is_for, let_through, rate_limit_window, unexpiring_window,
}

abbrev request : ℕ → Bool → Text → Call
request now answers host = record {
  redis = record { now = now; incr_answers = true; expire_answers = answers; require_redis = true };
  scope = text "login";
  identity = none;
  client_host = some host;
}

abbrev key : Text
key = text "rate:login:ann"

-- Three requests of one address and one of another within a minute, where two are allowed.
rate_limit_window_example :
    let_through 2 key
      (request 5 true (text "ann")
        ∷ request 6 true (text "bob")
        ∷ request 7 true (text "ann")
        ∷ request 64 true (text "ann")
        ∷ [])
      []
    ≡ min 2 (
        1
        + count (is_for key) (
            request 6 true (text "bob")
            ∷ request 7 true (text "ann")
            ∷ request 64 true (text "ann")
            ∷ []))
unfolding get
rate_limit_window_example =
    rate_limit_window 2 key (request 5 true (text "ann"))
      (request 6 true (text "bob")
        ∷ request 7 true (text "ann")
        ∷ request 64 true (text "ann")
        ∷ [])
      [] refl tt refl refl ((refl, refl), ((refl, refl), ((refl, refl), tt)))

-- Days later the subject is still counted.
unexpiring_window_example :
    let_through 1 key
      (request 900000 true (text "ann") ∷ [])
      (enforce_rate_limit 1 (request 5 false (text "ann")) []).1
    ≡ min (1 - 1) (count (is_for key) (request 900000 true (text "ann") ∷ []))
unfolding get
unexpiring_window_example =
    unexpiring_window 1 key (request 5 false (text "ann")) (request 900000 true (text "ann") ∷ [])
      [] refl tt refl refl (refl, tt)
