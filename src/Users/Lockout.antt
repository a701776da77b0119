-- ===== src/Users/Lockout.antt =====
-- How failed logins lock an account.
use enterprise_multi_tenant.Base.{
  ℕ, ◌+◌, ◌*◌, ◌≤◌, ◌<◌, ◌≡◌, refl, ap, ◌∙◌, true, false, List, [], ◌∷◌, ◌++◌, none, some, arith,
  All, length,
}
use enterprise_multi_tenant.Text.{Text, text_eq_refl}
use enterprise_multi_tenant.Users.{
  User, Users, Pool, ok, Login, is_locked, find_user, update_user, count_failure, authenticate_user,
}
use enterprise_multi_tenant.Users.Table.{find-update}

-- One login attempt: a password and the two clocks.
pub record Try : Type 0 where
  pub password : Text
  pub now : ℕ
  pub db_now : ℕ

abbrev pub at_time : Login → Try → Login
at_time l t = record l { now = t.now; db_now = t.db_now }

-- Attempts one after the other, for the table that they leave.
pub attempt_all : Login → Text → Text → List Try → Pool → Pool
attempt_all l username tenant [] p = p
attempt_all l username tenant (t ∷ ts) p =
    attempt_all l username tenant ts
      (authenticate_user (at_time l t) username t.password tenant p).1

attempt_all-append :
    (l : Login) (username tenant : Text) (ts : List Try) (t : Try) (p : Pool)
    → attempt_all l username tenant (ts ++ t ∷ []) p
      ≡ (authenticate_user
          (at_time l t)
          username
          t.password
          tenant
          (attempt_all l username tenant ts p)).1
unfolding attempt_all
attempt_all-append l username tenant [] t p = refl
attempt_all-append l username tenant (s ∷ ts) t p =
    attempt_all-append l username tenant ts t
      (authenticate_user (at_time l s) username s.password tenant p).1

-- A wrong password for an active account that is not locked.
wrong_password :
    (l : Login) (username password tenant : Text) (us : Users) (u : User)
    → find_user tenant username us ≡ some u
    → u.is_active ≡ true
    → is_locked l.now u ≡ false
    → l.verify password u.password_hash ≡ false
    → authenticate_user l username password tenant (some us)
      ≡ (ok none, some (update_user tenant username (count_failure l) us))
unfolding authenticate_user
wrong_password l username password tenant us u found active free wrong = ground arith

find_after :
    (l : Login) (username tenant : Text) (us : Users) (u : User)
    → find_user tenant username us ≡ some u
    → find_user tenant username (update_user tenant username (count_failure l) us)
      ≡ some (count_failure l u)
unfolding count_failure
find_after l username tenant us u found = ground (
  arith,
  find-update tenant username tenant username (count_failure l) us (λ v. (refl, refl)),
  text_eq_refl tenant,
  text_eq_refl username,
)

one_failure :
    (l : Login) (u : User)
    → u.failed_login_attempts + 1 < l.max_attempts
    → count_failure l u ≡ record u { failed_login_attempts = u.failed_login_attempts + 1 }
unfolding count_failure
one_failure l u h = ground arith

-- Fewer failures than the limit are counted and lock nothing.
failures_counted :
    (l : Login) (username tenant : Text) (tries : List Try) (us : Users) (u : User)
    → find_user tenant username us ≡ some u
    → u.is_active ≡ true
    → u.locked_until ≡ none
    → All (λ t. l.verify t.password u.password_hash ≡ false) tries
    → u.failed_login_attempts + length tries < l.max_attempts
    → (us' : Users) × (attempt_all l username tenant tries (some us) ≡ some us')
      × (find_user tenant username us'
          ≡ some (record u { failed_login_attempts = u.failed_login_attempts + length tries }))
unfolding attempt_all
failures_counted l username tenant [] us u found active free wrong few = (us, refl, ground arith)
failures_counted l username tenant (t ∷ ts) us u found active free wrong few =
    let l' : Login = at_time l t in
    let us1 : Users = update_user tenant username (count_failure l') us in
    let u1 : User = record u { failed_login_attempts = u.failed_login_attempts + 1 } in
    let step : authenticate_user l' username t.password tenant (some us) ≡ (ok none, some us1) =
      wrong_password l' username t.password tenant us u found active (ground arith) wrong.0 in
    let counted : find_user tenant username us1 ≡ some u1 =
      find_after l' username tenant us u found ∙ ap some (one_failure l' u few') in
    let (us', reached, after) =
      failures_counted l username tenant ts us1 u1 counted active free wrong.1 (omega arith) in
    (
      us',
      ap (λ r. attempt_all l username tenant ts r.1) step ∙ reached,
      after ∙ ap (λ n. some (record u { failed_login_attempts = n })) (omega arith),
    )
  where
    few' : u.failed_login_attempts + 1 < l.max_attempts
    few' = omega arith

last_failure :
    (l : Login) (u : User)
    → l.max_attempts ≤ u.failed_login_attempts + 1
    → (count_failure l u).locked_until ≡ some (l.db_now + l.lock_minutes * 60)
unfolding count_failure
last_failure l u h = ground arith

-- A locked account is refused whatever the password, and the attempt is not counted.
locked_out :
    (l : Login) (username password tenant : Text) (us : Users) (u : User) (until : ℕ)
    → find_user tenant username us ≡ some u
    → u.locked_until ≡ some until
    → l.now < until
    → authenticate_user l username password tenant (some us) ≡ (ok none, some us)
unfolding authenticate_user
locked_out l username password tenant us u until found locked early = ground arith

-- From a clean row the allowed number of wrong passwords, at any times, locks the account: until
-- the lock time has passed since the last of them, every further attempt is refused, the right
-- password included, and changes nothing.
pub lockout :
    (l : Login) (username tenant : Text) (tries : List Try) (final later : Try) (us : Users)
    (u : User)
    → find_user tenant username us ≡ some u
    → u.is_active ≡ true
    → u.locked_until ≡ none
    → u.failed_login_attempts ≡ 0
    → All (λ t. l.verify t.password u.password_hash ≡ false) tries
    → l.verify final.password u.password_hash ≡ false
    → length tries + 1 ≡ l.max_attempts
    → later.now < final.db_now + l.lock_minutes * 60
    → (us' : Users) × (attempt_all l username tenant (tries ++ final ∷ []) (some us) ≡ some us')
      × (authenticate_user (at_time l later) username later.password tenant (some us')
          ≡ (ok none, some us'))
lockout l username tenant tries final later us u found active free clean wrong last_wrong enough
      early =
    let (us1, counted, before) =
      failures_counted l username tenant tries us u found active free wrong (omega arith) in
    let l' : Login = at_time l final in
    let u1 : User = record u { failed_login_attempts = u.failed_login_attempts + length tries } in
    let us' : Users = update_user tenant username (count_failure l') us1 in
    let step : authenticate_user l' username final.password tenant (some us1)
        ≡ (ok none, some us') =
      wrong_password l' username final.password tenant us1 u1 before active (ground arith)
        last_wrong in
    (
      us',
      attempt_all-append l username tenant tries final (some us)
          ∙ ap (λ p. (authenticate_user l' username final.password tenant p).1) counted
          ∙ ap (λ r. r.1) step,
      locked_out (at_time l later) username later.password tenant us' (count_failure l' u1)
          (final.db_now + l.lock_minutes * 60) (find_after l' username tenant us1 u1 before)
          (last_failure l' u1 (omega arith)) early,
    )
