-- ===== src/Routes/Sessions.antt =====
-- The handlers of app/api/routes.py for the login and the logout. The jose library and the digest of
-- a token are arguments.
use enterprise_multi_tenant.Base.{Bool, true, false, ◌||◌, Option, none, some, if◌then◌else◌}
use enterprise_multi_tenant.Text.{Text, text, is_empty, strip}
use enterprise_multi_tenant.Users.{Pool, Result, ok, err, TokenData, Login, authenticate_user}
use enterprise_multi_tenant.Auth.Tokens.{Jwt, create_access_token, Revoked, revoke_access_token}
use enterprise_multi_tenant.Routes.{
  Response, answer, http_exception, bad_request, unauthorized, internal_server_error, Server,
  Settings, Backends, limited,
}
use enterprise_multi_tenant.Routes.Accounts.{address_call}

-- The form of a login, with the identifier that its token is given.
pub record LoginForm : Type 0 where
  pub username : Text
  pub password : Text
  pub tenant_id : Text
  pub jti : Text

abbrev pub logged_in :
    Jwt
    → Settings
    → Backends
    → LoginForm
    → Server
    → Result (Option TokenData) × Pool
    → Response Text × Server
logged_in jwt settings b f s (ok (some user), users) = (
  answer (create_access_token jwt settings.access_token_minutes none f.jti b.now user),
  record s { users = users },
)
logged_in jwt settings b f s (ok none, users) =
    (http_exception unauthorized, record s { users = users })
logged_in jwt settings b f s (err e, users) =
    (http_exception internal_server_error, record s { users = users })

abbrev pub logged_out : Server → Bool × Revoked → Response (Unit {0}) × Server
logged_out s (true, revoked) = (answer tt, record s { revoked = revoked })
logged_out s (false, revoked) =
    (http_exception internal_server_error, record s { revoked = revoked })

module _ (hexdigest : Text → Text) (jwt : Jwt) (settings : Settings) where
  -- `login_for_access_token`
  unfoldable pub login_for_access_token :
      Login → Backends → Option Text → LoginForm → Server → Response Text × Server
  unfolding create_access_token
  login_for_access_token l b host f s =
      if is_empty f.username || (is_empty f.password || is_empty (strip f.tenant_id))
      then (http_exception bad_request, s)
      else limited settings.auth_rate_limit (address_call b (text "login") host) s (λ t.
        logged_in jwt settings b f t
          (authenticate_user l f.username f.password (strip f.tenant_id) t.users))

  -- `logout`
  unfoldable pub logout : Backends → Text → Server → Response (Unit {0}) × Server
  logout b token s =
      if settings.is_local
      then logged_out s (revoke_access_token hexdigest jwt b.tokens b.micros token s.revoked)
      else (answer tt, s)
