-- ===== src/Tests/Session.antt =====
-- A session, run: a token is the expiry with the four texts, each ended by a zero.
use enterprise_multi_tenant.Base.{
  ◌+◌, ◌*◌, inl, ℕ, zero, suc, ◌<◌, ◌≡◌, ◌∙◌, refl, ap, true, false, [], ◌∷◌, Option, none, some,
  arith, if◌then◌else◌, leb,
}
use enterprise_multi_tenant.Text.{Text, text, text_eq}
use enterprise_multi_tenant.Dict.{Dict, get, put}
use enterprise_multi_tenant.Users.{
  User, Users, Login, ok, find_user, update_user, reset_failures, token_data, authenticate_user,
  is_active_tenant_user,
}
use enterprise_multi_tenant.Auth.{
  user, unauthorized, is_token_revoked, revocation_ttl, second, local_user,
}
use enterprise_multi_tenant.Auth.Tokens.{
  AccessClaims, payload_of, Decoded, Jwt, IsJwt, create_access_token, RedisReplies, exists_revoked,
  revoke_token, revoke_access_token, current_user,
}
use enterprise_multi_tenant.Auth.Session.{login_then_request, logout_then_request}

abbrev claims : AccessClaims
claims = record {
  subject = record { user_id = text "ann"; tenant_id = text "t"; role = text "viewer" };
  exp = 3700;
  jti = text "j";
}

abbrev write : Text → Text → Text
write [] rest = zero ∷ rest
write (c ∷ s) rest = suc c ∷ write s rest

abbrev push : ℕ → Text × Text → Text × Text
push c (s, rest) = (c ∷ s, rest)

abbrev read : Text → Text × Text
read [] = ([], [])
read (zero ∷ rest) = ([], rest)
read (suc c ∷ rest) = push c (read rest)

read-write : (s rest : Text) → read (write s rest) ≡ (s, rest)
read-write [] rest = refl
read-write (c ∷ s) rest = ap (push c) (read-write s rest)

abbrev encode : AccessClaims → Text
encode c =
    c.exp
    ∷ write c.subject.user_id (write c.subject.tenant_id (write c.subject.role (write c.jti [])))

abbrev claims_of : ℕ → Text → AccessClaims
claims_of exp s =
    let (user_id, s1) = read s in
    let (tenant_id, s2) = read s1 in
    let (role, s3) = read s2 in
    let (jti, s4) = read s3 in
    record {
      subject = record { user_id = user_id; tenant_id = tenant_id; role = role };
      exp = exp;
      jti = jti;
    }

abbrev decode : ℕ → Text → Option Decoded
decode now [] = none
decode now (exp ∷ s) =
    if leb now exp
    then some (record { payload = payload_of (claims_of exp s); expires_at = some exp })
    else none

abbrev jwt : Jwt
jwt = record { encode = encode; decode = decode }

claims_of-encode :
    (c : AccessClaims)
    → claims_of c.exp (
        write c.subject.user_id (write c.subject.tenant_id (write c.subject.role (write c.jti []))))
      ≡ c
claims_of-encode c =
    rw
      (
        read-write c.subject.user_id
            (write c.subject.tenant_id (write c.subject.role (write c.jti []))),
        read-write c.subject.tenant_id (write c.subject.role (write c.jti [])),
        read-write c.subject.role (write c.jti []),
        read-write c.jti [],
      )
      refl

jwt-IsJwt : IsJwt jwt
jwt-IsJwt = record {
  valid = λ c now h.
      now_or_later c now h
      ∙ ap (λ x. some (record { payload = payload_of x; expires_at = some c.exp }))
          (claims_of-encode c);
  expired = λ c now h. too_late c now h;
}
  where
    now_or_later :
        (c : AccessClaims) (now : ℕ)
        → now < c.exp
        → decode now (encode c)
          ≡ some (record {
            payload = payload_of (
                claims_of c.exp (
                  write c.subject.user_id
                    (write c.subject.tenant_id (write c.subject.role (write c.jti [])))));
            expires_at = some c.exp;
          })
    now_or_later c now h = ground arith

    too_late : (c : AccessClaims) (now : ℕ) → c.exp < now → decode now (encode c) ≡ none
    too_late c now h = ground arith

abbrev ann : User
ann = record {
  tenant_id = text "t";
  username = text "ann";
  password_hash = text "pw";
  role = text "viewer";
  is_active = true;
  failed_login_attempts = 2;
  locked_until = none;
  created_at = 1;
}

abbrev login : Login
login = record {
  verify = λ p h. text_eq p h;
  max_attempts = 3;
  lock_minutes = 15;
  now = 100;
  db_now = 100;
}

abbrev after_login : Users
after_login = record ann { failed_login_attempts = 0 } ∷ []

logs_in :
    authenticate_user login (text "ann") (text "pw") (text "t") (some (ann ∷ []))
    ≡ (ok (some claims.subject), some after_login)
unfolding authenticate_user find_user update_user reset_failures token_data text_eq
logs_in = refl

abbrev redis : RedisReplies
redis = record { answers = true; require_redis = true }

not_revoked :
    is_token_revoked true (
      exists_revoked redis
        (create_access_token jwt 60 none (text "j") 100 claims.subject)
        200000000
        [])
    ≡ false
unfolding is_token_revoked exists_revoked get
not_revoked = refl

login_then_request_example :
    current_user
      (λ s. s)
      jwt
      redis
      200000000
      (create_access_token jwt 60 none (text "j") 100 claims.subject)
      []
      (some after_login)
    ≡ user claims.subject
login_then_request_example =
    login_then_request (λ s. s) jwt jwt-IsJwt login (text "ann") (text "pw") (text "t") (text "j")
      (ann ∷ []) after_login claims.subject 60 100 200000000 redis [] logs_in refl refl
      (omega arith) not_revoked

abbrev revoked : Dict ℕ
revoked = (encode claims, 3699500000) ∷ []

logs_out : revoke_access_token (λ s. s) jwt redis 300500000 (encode claims) [] ≡ (true, revoked)
unfolding revoke_access_token revoke_token revocation_ttl put payload_of
logs_out = refl

-- In the last second of the token its entry is gone, and it is accepted again.
accepted_again :
    current_user (λ s. s) jwt redis 3699500000 (encode claims) revoked (some after_login)
    ≡ user claims.subject
unfolding current_user local_user exists_revoked get is_token_revoked is_active_tenant_user
    token_data payload_of text_eq
accepted_again = refl

logout_then_request_example :
    (current_user (λ s. s) jwt redis 400000000 (encode claims) revoked (some after_login)
      ≡ unauthorized)
    × ((until : ℕ) × (get (text "d") revoked
          ≡ (if text_eq (encode claims) (text "d") then some until else none))
        × (claims.exp * second < until + second)
        × (until < claims.exp * second + second))
unfolding get
logout_then_request_example =
    logout_then_request (λ s. s) jwt jwt-IsJwt redis redis claims 300500000 400000000 [] revoked
      (some after_login) (text "d") refl refl (omega arith) logs_out refl (inl (omega arith))
