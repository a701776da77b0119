-- ===== src/Users.antt =====
-- The table `tenant_users` and the functions on it: app/database.py, app/tenant_user.py and
-- `authenticate_user` of app/core/auth.py. Each function is one transaction, so one step. The key
-- is `(tenant_id, username)` and the roles are checked (app/migrations/001_initial.sql); columns
-- that the functions neither read nor write are left out. Times are in seconds.
pub mod Table
pub mod Lockout
pub mod Access
use enterprise_multi_tenant.Base.{
  ℕ, ◌+◌, ◌*◌, Bool, true, false, not, ◌&&◌, ◌||◌, List, [], ◌∷◌, ◌++◌, Option, none, some, any,
  all, filter, take, drop, leb, ltb, ◌==◌, if◌then◌else◌, map,
}
use enterprise_multi_tenant.Text.{Text, text, text_eq, is_empty}
use enterprise_multi_tenant.Role.{is_role}

pub record User : Type 0 where
  pub tenant_id : Text
  pub username : Text
  pub password_hash : Text
  pub role : Text
  pub is_active : Bool
  pub failed_login_attempts : ℕ
  pub locked_until : Option ℕ
  pub created_at : ℕ

abbrev pub Users : Type 0
Users = List User

-- `pool`: none before it is opened.
abbrev pub Pool : Type 0
Pool = Option Users

pub data Error : Type 0 where
  pool_not_initialized constraint_violated invalid_role : Error

pub data Result (A : Type 0) : Type 0 where
  ok : A → Result A
  err : Error → Result A

-- `TokenData`
pub record TokenData : Type 0 where
  pub user_id : Text
  pub tenant_id : Text
  pub role : Text

-- `TokenData(...)`, which raises where the role does not match its pattern.
unfoldable pub token_data : Text → Text → Text → Result TokenData
token_data user_id tenant_id role =
    if is_role role
    then ok (record { user_id = user_id; tenant_id = tenant_id; role = role })
    else err invalid_role

-- `WHERE tenant_id = %s AND username = %s`
abbrev pub is_user : Text → Text → User → Bool
is_user tenant username u = text_eq u.tenant_id tenant && text_eq u.username username

-- The row of a user: the key has at most one.
unfoldable pub find_user : Text → Text → Users → Option User
find_user tenant username [] = none
find_user tenant username (u ∷ us) =
    if is_user tenant username u then some u else find_user tenant username us

-- `UPDATE tenant_users SET … WHERE tenant_id = %s AND username = %s`
unfoldable pub update_user : Text → Text → (User → User) → Users → Users
update_user tenant username f [] = []
update_user tenant username f (u ∷ us) =
    (if is_user tenant username u then f u else u) ∷ update_user tenant username f us

-- The row that an `INSERT` of the four columns makes: active, with no failures and no lock.
abbrev pub new_user : Text → Text → Text → Text → ℕ → User
new_user tenant username password_hash role now = record {
  tenant_id = tenant;
  username = username;
  password_hash = password_hash;
  role = role;
  is_active = true;
  failed_login_attempts = 0;
  locked_until = none;
  created_at = now;
}

-- `create_tenant_user`: `ON CONFLICT DO NOTHING RETURNING username`.
unfoldable pub create_tenant_user : Text → Text → Text → Text → ℕ → Pool → Result Bool × Pool
unfolding find_user
create_tenant_user tenant username password_hash role now none = (err pool_not_initialized, none)
create_tenant_user tenant username password_hash role now (some us) =
    if is_role role
    then elim (find_user tenant username us) [
      | some u ↦ (ok false, some us)
      | none ↦ (ok true, some (us ++ new_user tenant username password_hash role now ∷ []))
    ]
    else (err constraint_violated, some us)

-- `is_active_tenant_user`
unfoldable pub is_active_tenant_user : Text → Text → Text → Pool → Result Bool
is_active_tenant_user tenant username role none = err pool_not_initialized
is_active_tenant_user tenant username role (some us) =
    ok (any (λ u. is_user tenant username u && (text_eq u.role role && u.is_active)) us)

-- `delete_tenant_user`
unfoldable pub delete_tenant_user : Text → Text → Pool → Bool × Pool
delete_tenant_user tenant username none = (false, none)
delete_tenant_user tenant username (some us) =
    (any (is_user tenant username) us, some (filter (λ u. not (is_user tenant username u)) us))

-- What `authenticate_user` reads besides the table: the application's clock, the database's, the
-- limits of the settings, and `verify_password` (passlib's).
pub record Login : Type 0 where
  pub verify : Text → Text → Bool
  pub max_attempts : ℕ
  pub lock_minutes : ℕ
  pub now : ℕ
  pub db_now : ℕ

-- `isinstance(locked_until, datetime) and locked_until > datetime.now(timezone.utc)`
abbrev pub is_locked : ℕ → User → Bool
is_locked now u = elim u.locked_until [ none ↦ false | some t ↦ ltb now t ]

-- The `UPDATE` after a wrong password.
unfoldable pub count_failure : Login → User → User
count_failure l u = record u {
  failed_login_attempts = u.failed_login_attempts + 1;
  locked_until =
      if leb l.max_attempts (u.failed_login_attempts + 1)
      then some (l.db_now + l.lock_minutes * 60)
      else u.locked_until;
}

-- The `UPDATE` after the right one.
unfoldable pub reset_failures : User → User
reset_failures u = record u { failed_login_attempts = 0; locked_until = none }

abbrev grant : Text → Text → User → Users → Result (Option TokenData) × Pool
grant tenant username u us = elim (token_data u.username u.tenant_id u.role) [
  | ok t ↦ (ok (some t), some (update_user tenant username reset_failures us))
  | err e ↦ (err e, some us)
]

-- `authenticate_user`. The columns are `NOT NULL` texts, so the `isinstance` checks on them pass; a
-- role that `TokenData` refuses raises inside the transaction, which rolls back.
unfoldable pub authenticate_user :
    Login → Text → Text → Text → Pool → Result (Option TokenData) × Pool
unfolding find_user update_user count_failure reset_failures token_data
authenticate_user l username password tenant none = (err pool_not_initialized, none)
authenticate_user l username password tenant (some us) = elim (find_user tenant username us) [
  | none ↦ (ok none, some us)
  | some u ↦
      if not u.is_active || is_locked l.now u
      then (ok none, some us)
      else if l.verify password u.password_hash
      then grant tenant username u us
      else (ok none, some (update_user tenant username (count_failure l) us))
]
