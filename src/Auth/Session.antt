-- ===== src/Auth/Session.antt =====
-- A session in local mode: from the login, whose token is accepted, to the logout, after which it is
-- refused.
use enterprise_multi_tenant.Base.{
  ◌/◌, ◌≤◌, ℕ, ◌+◌, ◌-◌, ◌<◌, ◌≡◌, ◌*◌, ◌⊎◌, ◌||◌, refl, ap, sym, ◌∙◌, true, false, [], ◌∷◌, Option,
  none, some, if◌then◌else◌, any, max, arith, inl, inr, ◌&&◌, Option-cases,
}
use enterprise_multi_tenant.Text.{Text, text_eq, text_eq_iff, text_eq_refl, is_empty}
use enterprise_multi_tenant.Dict.{get, put, get-put}
use enterprise_multi_tenant.Role.{is_role}
use enterprise_multi_tenant.Users.{
  User, Users, TokenData, Pool, Login, ok, is_user, find_user, is_active_tenant_user,
  authenticate_user, update_user, reset_failures,
}
use enterprise_multi_tenant.Users.Table.{find-update, KeepsKey}
use enterprise_multi_tenant.Users.Access.{authenticate_exact}
use enterprise_multi_tenant.Auth.{
  Services, user, unauthorized, is_token_revoked, local_user, revocation_ttl, second,
}
use enterprise_multi_tenant.Auth.Local.{decoded_user_exact}
use enterprise_multi_tenant.Auth.Tokens.{
  AccessClaims, payload_of, Decoded, Jwt, IsJwt, create_access_token, Revoked, RedisReplies,
  revoke_token, exists_revoked, revoke_access_token, revoked_as, payload_or_none, current_user,
}

module _ (hexdigest : Text → Text) (jwt : Jwt) (is_jwt : IsJwt jwt) where
  decoded_current :
      (r : RedisReplies) (now : ℕ) (token : Text) (revoked : Revoked) (pool : Pool)
      (o : Option Decoded)
      → jwt.decode (now / second) token ≡ o
      → current_user hexdigest jwt r now token revoked pool
        ≡ local_user
            (record {
              require_redis = r.require_redis;
              revoked = exists_revoked r (hexdigest token) now revoked;
              pool = pool;
            })
            (payload_or_none o)
  unfolding current_user
  decoded_current r now token revoked pool o h =
      ap
        (λ o.
          local_user
            (record {
              require_redis = r.require_redis;
              revoked = exists_revoked r (hexdigest token) now revoked;
              pool = pool;
            })
            (payload_or_none o))
        h

  -- The claims of a token name its user.
  payload-names :
      (c : AccessClaims) (s : Services)
      → is_empty c.subject.user_id ≡ false
      → is_empty c.subject.tenant_id ≡ false
      → is_role c.subject.role ≡ true
      → is_token_revoked s.require_redis s.revoked ≡ false
      → is_active_tenant_user c.subject.tenant_id c.subject.user_id c.subject.role s.pool ≡ ok true
      → local_user s (some (payload_of c)) ≡ user c.subject
  unfolding payload_of text_eq
  payload-names c s named tenant role free active =
      (decoded_user_exact s (payload_of c) c.subject).1 (record {
        subject = refl;
        tenant = refl;
        role = refl;
        named = (named, tenant);
        known_role = role;
        not_revoked = ground (arith, free);
        active = active;
      })

find_user-any :
    (tenant username : Text) (us : Users) (u : User)
    → find_user tenant username us ≡ some u
    → u.is_active ≡ true
    → any (λ v. is_user tenant username v && (text_eq v.role u.role && v.is_active)) us ≡ true
unfolding find_user
find_user-any tenant username [] u h a = absurd (cc h)
find_user-any tenant username (v ∷ us) u h a =
    ground (arith, find_user-any tenant username us u, text_eq_refl u.role)

find_user-key :
    (tenant username : Text) (us : Users) (u : User)
    → find_user tenant username us ≡ some u
    → is_user tenant username u ≡ true
unfolding find_user
find_user-key tenant username [] u h = absurd (cc h)
find_user-key tenant username (v ∷ us) u h = ground (arith, find_user-key tenant username us u)

reset_failures-KeepsKey : KeepsKey reset_failures
unfolding reset_failures
reset_failures-KeepsKey u = (refl, refl)

-- The table after a login that succeeds.
login_table :
    (l : Login) (username password tenant : Text) (us us' : Users) (t : TokenData)
    → authenticate_user l username password tenant (some us) ≡ (ok (some t), some us')
    → us' ≡ update_user tenant username reset_failures us
unfolding authenticate_user
login_table l username password tenant us us' t h =
    elim (Option-cases (find_user tenant username us)) [
      | inl missing ↦ absurd (ground arith)
      | inr (u, found) ↦ ground arith
    ]

-- After a login the user is active with the role of the token.
login_active :
    (l : Login) (username password tenant : Text) (us us' : Users) (t : TokenData)
    → authenticate_user l username password tenant (some us) ≡ (ok (some t), some us')
    → (t.user_id ≡ username)
      × (t.tenant_id ≡ tenant)
      × (is_role t.role ≡ true)
      × (is_active_tenant_user tenant username t.role (some us') ≡ ok true)
unfolding is_active_tenant_user reset_failures
login_active l username password tenant us us' t h =
    let (u, found, admits, same) =
      (authenticate_exact l username password tenant us t).0 (ap (λ x. x.0) h) in
    let key : is_user tenant username u ≡ true = find_user-key tenant username us u found in
    let kept : find_user tenant username us' ≡ some (reset_failures u) =
      ap (find_user tenant username) (login_table l username password tenant us us' t h)
      ∙ find-update tenant username tenant username reset_failures us reset_failures-KeepsKey
      ∙ rw (text_eq_refl tenant, text_eq_refl username, found) refl in
    (
      ap (λ x. x.user_id) same ∙ (text_eq_iff u.username username).0 (ground arith),
      ap (λ x. x.tenant_id) same ∙ (text_eq_iff u.tenant_id tenant).0 (ground arith),
      rw same admits.role,
      rw same (
          ap ok (
            find_user-any tenant username us' (reset_failures u) kept
              (kept_active u admits.active))),
    )
  where
    kept_active : (u : User) → u.is_active ≡ true → (reset_failures u).is_active ≡ true
    kept_active u h = h

module _ (hexdigest : Text → Text) (jwt : Jwt) (is_jwt : IsJwt jwt) where
  -- The token that a login yields is accepted for the user who logged in, until it expires, from a
  -- named user of a named tenant, as long as it is not known to be revoked and the users' table is as
  -- the login left it.
  pub login_then_request :
      (l : Login) (username password tenant jti : Text) (us us' : Users) (t : TokenData)
      (minutes now later : ℕ) (r : RedisReplies) (revoked : Revoked)
      → authenticate_user l username password tenant (some us) ≡ (ok (some t), some us')
      → is_empty username ≡ false
      → is_empty tenant ≡ false
      → later / second < now + minutes * 60
      → is_token_revoked r.require_redis (
          exists_revoked r
            (hexdigest (create_access_token jwt minutes none jti now t))
            later
            revoked)
        ≡ false
      → current_user hexdigest jwt r later
          (create_access_token jwt minutes none jti now t)
          revoked
          (some us')
        ≡ user t
  unfolding create_access_token
  login_then_request l username password tenant jti us us' t minutes now later r revoked h named
        of_tenant in_time free =
      let c : AccessClaims = record { subject = t; exp = now + minutes * 60; jti = jti } in
      let (is_username, is_tenant, known, active) =
        login_active l username password tenant us us' t h in
      decoded_current hexdigest jwt is_jwt r later (jwt.encode c) revoked (some us') _
        (is_jwt.valid c (later / second) in_time)
      ∙ payload-names hexdigest jwt is_jwt c
          (record {
            require_redis = r.require_redis;
            revoked = exists_revoked r (hexdigest (jwt.encode c)) later revoked;
            pool = some us';
          })
          (ap is_empty is_username ∙ named) (ap is_empty is_tenant ∙ of_tenant) known free
          (ap (λ x. is_active_tenant_user x t.user_id t.role (some us')) is_tenant
            ∙ ap (λ x. is_active_tenant_user tenant x t.role (some us')) is_username
            ∙ active)

  local_user_revoked :
      (s : Services) (c : AccessClaims)
      → is_empty c.jti ≡ false
      → is_token_revoked s.require_redis s.revoked ≡ true
      → local_user s (some (payload_of c)) ≡ unauthorized
  unfolding local_user payload_of text_eq
  local_user_revoked s c named revoked = ground arith

  local_user-none : (s : Services) → local_user s none ≡ unauthorized
  unfolding local_user
  local_user-none s = refl

  -- When the entry of a logout expires: within a second of the token.
  abbrev revoked_until : ℕ → ℕ → ℕ
  revoked_until now exp = now + max 1 ((exp * second - now) / second) * second

  revoked_until_bounds :
      (now exp : ℕ)
      → now / second < exp
      → (exp * second < revoked_until now exp + second)
        × (revoked_until now exp < exp * second + second)
  revoked_until_bounds now exp early = ground arith

  -- The entry that a logout writes.
  revoked_entry :
      (r : RedisReplies) (c : AccessClaims) (now : ℕ) (revoked revoked' : Revoked)
      → r.answers ≡ true
      → now / second < c.exp
      → revoke_access_token hexdigest jwt r now (jwt.encode c) revoked ≡ (true, revoked')
      → revoked' ≡ put (hexdigest (jwt.encode c)) (revoked_until now c.exp) revoked
  unfolding revoke_access_token revoke_token revocation_ttl
  revoked_entry r c now revoked revoked' answers early h =
      sym (ap (λ x. x.1) h)
      ∙ ap (λ o. (revoked_as r (hexdigest (jwt.encode c)) now revoked o).1)
          (is_jwt.valid c (now / second) early)
      ∙ rw answers refl

  -- Once a logout has returned with Redis answering, its token is refused up to a second before it
  -- expires, and again after the second in which it expires, where Redis answers or is required; the
  -- entry of its digest lasts until less than a second before or after the token expires, and the
  -- entry of another digest is as it was.
  pub logout_then_request :
      (r later_r : RedisReplies) (c : AccessClaims) (now later : ℕ) (revoked revoked' : Revoked)
      (pool : Pool) (digest : Text)
      → is_empty c.jti ≡ false
      → r.answers ≡ true
      → now / second < c.exp
      → revoke_access_token hexdigest jwt r now (jwt.encode c) revoked ≡ (true, revoked')
      → (later_r.answers || later_r.require_redis) ≡ true
      → (later + second ≤ c.exp * second) ⊎ (c.exp < later / second)
      → (current_user hexdigest jwt later_r later (jwt.encode c) revoked' pool ≡ unauthorized)
        × ((until : ℕ) × (get digest revoked' ≡ (
              if text_eq (hexdigest (jwt.encode c)) digest then some until else get digest revoked))
            × (c.exp * second < until + second)
            × (until < c.exp * second + second))
  unfolding exists_revoked is_token_revoked
  logout_then_request r later_r c now later revoked revoked' pool digest named answers early h
        checks outside =
      let (at_least, at_most) = revoked_until_bounds now c.exp early in
      (
        elim outside [
          | inl before ↦
              decoded_current hexdigest jwt is_jwt later_r later (jwt.encode c) revoked' pool _
                (is_jwt.valid c (later / second) (omega (arith, before)))
              ∙ local_user_revoked _ c named (known (omega (arith, before, at_least)))
          | inr after ↦
              decoded_current hexdigest jwt is_jwt later_r later (jwt.encode c) revoked' pool _
                (is_jwt.expired c (later / second) after)
              ∙ local_user-none _
        ],
        (
          revoked_until now c.exp,
          ap (get digest) entry
              ∙ get-put digest (hexdigest (jwt.encode c)) (revoked_until now c.exp) revoked,
          at_least,
          at_most,
        ),
      )
    where
      entry : revoked' ≡ put (hexdigest (jwt.encode c)) (revoked_until now c.exp) revoked
      entry = revoked_entry r c now revoked revoked' answers early h

      found : get (hexdigest (jwt.encode c)) revoked' ≡ some (revoked_until now c.exp)
      found =
          ap (get (hexdigest (jwt.encode c))) entry
          ∙ get-put (hexdigest (jwt.encode c)) (hexdigest (jwt.encode c)) (revoked_until now c.exp)
              revoked
          ∙ rw (text_eq_refl (hexdigest (jwt.encode c))) refl

      known :
          later < revoked_until now c.exp
          → is_token_revoked later_r.require_redis
              (exists_revoked later_r (hexdigest (jwt.encode c)) later revoked')
            ≡ true
      known before = ground (arith, found)
