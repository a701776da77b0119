-- ===== src/Routes/Accounts.antt =====
-- The handlers of app/api/routes.py for users and tokens. A registration's password hash is an
-- argument, as are `str` of an integer and `json`-coded tokens of the jose library.
use enterprise_multi_tenant.Base.{
  ℕ, ◌+◌, Bool, true, false, not, ◌&&◌, ◌||◌, List, [], ◌++◌, Option, none, some, map, filter, take,
  drop, all, length, leb, ltb, if◌then◌else◌, ◌==◌,
}
use enterprise_multi_tenant.Base.Sorting.{sort_by}
use enterprise_multi_tenant.Text.{Text, text, text_eq, starts_with}
use enterprise_multi_tenant.Role.{is_role}
use enterprise_multi_tenant.Dict.{get, put}
use enterprise_multi_tenant.RateLimit.{Call}
use enterprise_multi_tenant.Users.{
  Pool, Result, ok, err, TokenData, create_tenant_user, delete_tenant_user,
}
use enterprise_multi_tenant.Routes.{
  Response, answer, http_exception, forbidden, conflict, bad_request, not_found,
  internal_server_error, UserEntry, CachedPage, Server, Settings, Backends, is_admin, limited,
}

-- A payload that its validation has let through, with the hash of its password.
pub record UserRegistrationRequest : Type 0 where
  pub username : Text
  pub password : Text
  pub tenant_id : Text
  pub role : Text

abbrev is_alphanumeric : ℕ → Bool
is_alphanumeric c =
    (leb b'0' c && leb c b'9') || (leb b'A' c && leb c b'Z') || (leb b'a' c && leb c b'z')

abbrev is_long : ℕ → ℕ → Text → Bool
is_long low high s = leb low (length s) && leb (length s) high

-- The constraints of the model's fields.
unfoldable pub is_registration : UserRegistrationRequest → Bool
is_registration r =
    is_long 3 64 r.username
    && all (λ c. is_alphanumeric c || c == b'_' || c == b'.' || c == b'-') r.username
    && is_long 12 72 r.password
    && is_long 3 64 r.tenant_id
    && all (λ c. is_alphanumeric c || c == b'_' || c == b'-') r.tenant_id
    && is_role r.role

pub record Created : Type 0 where
  pub tenant_id : Text
  pub username : Text

-- A request without an identity is counted by its address.
abbrev pub address_call : Backends → Text → Option Text → Call
address_call b scope host = record {
  redis = b.redis;
  scope = scope;
  identity = none;
  client_host = host;
}

abbrev pub created :
    UserRegistrationRequest → Server → Result Bool × Pool → Response Created × Server
created r s (ok true, users) =
    (answer (record { tenant_id = r.tenant_id; username = r.username }), record s { users = users })
created r s (ok false, users) = (http_exception conflict, record s { users = users })
created r s (err e, users) = (http_exception internal_server_error, record s { users = users })

-- The key of a page of users.
module _ (str : ℕ → Text) where
  unfoldable pub page_key : Text → ℕ → ℕ → Text
  page_key tenant_id limit offset =
      text "tenant:" ++ (tenant_id ++ (text ":users:" ++ (str limit ++ (text ":" ++ str offset))))

-- The pattern under which a deletion looks for pages: the keys with this prefix. A tenant name with
-- characters that a Redis pattern reads in a special way is left out.
abbrev pub pages_of : Text → Text
pages_of tenant_id = text "tenant:" ++ (tenant_id ++ text ":users:")

-- `list_tenant_users`, in the order of `created_at`; rows of one time stay in the order of the table.
unfoldable pub list_tenant_users : Text → ℕ → ℕ → Pool → List UserEntry
unfolding sort_by
list_tenant_users tenant_id limit offset none = []
list_tenant_users tenant_id limit offset (some users) =
    map (λ u. record { username = u.username; role = u.role; created_at = u.created_at })
      (take limit (
        drop offset (
          sort_by (λ u v. leb u.created_at v.created_at)
            (filter (λ u. text_eq u.tenant_id tenant_id) users))))

-- `redis_client.get`: a page that has expired is absent.
abbrev pub live_page : ℕ → Option CachedPage → Option (List UserEntry)
live_page now none = none
live_page now (some c) = if ltb now c.expires_at then some c.page else none

module _ (hash : Text → Text) (settings : Settings) where
  -- `register_tenant_admin`
  unfoldable pub register_tenant_admin :
      Backends → Option Text → UserRegistrationRequest → Server → Response Created × Server
  register_tenant_admin b host r s =
      if settings.allow_self_registration
      then limited settings.auth_rate_limit (address_call b (text "registration") host) s (λ t.
        created r t (
          create_tenant_user r.tenant_id r.username (hash r.password) (text "admin") b.now t.users))
      else (http_exception forbidden, s)

  -- `provision_tenant_user`
  unfoldable pub provision_tenant_user :
      Backends → TokenData → UserRegistrationRequest → Server → Response Created × Server
  provision_tenant_user b current_user r s =
      if not (is_admin current_user)
      then (http_exception forbidden, s)
      else if not (text_eq r.tenant_id current_user.tenant_id)
      then (http_exception forbidden, s)
      else created r s
          (create_tenant_user r.tenant_id r.username (hash r.password) r.role b.now s.users)

module _ (str : ℕ → Text) where
  abbrev pub listed :
      Backends
      → Text
      → List UserEntry
      → Option (List UserEntry)
      → Server
      → Response (List UserEntry) × Server
  listed b key page (some cached) s = (answer cached, s)
  listed b key page none s = (
    answer page,
    record s {
      user_pages = put key (record { page = page; expires_at = b.now + 60 }) s.user_pages;
    },
  )

  -- `list_tenant_users_endpoint`: without Redis the page is read from the table. An empty page is
  -- cached as the text "[]", which is true.
  unfoldable pub list_tenant_users_endpoint :
      Backends → ℕ → ℕ → TokenData → Server → Response (List UserEntry) × Server
  unfolding page_key list_tenant_users
  list_tenant_users_endpoint b limit offset current_user s =
      let key = page_key str current_user.tenant_id limit offset in
      let page = list_tenant_users current_user.tenant_id limit offset s.users in
      if not (is_admin current_user)
      then (http_exception forbidden, s)
      else if b.pages_answer
      then listed b key page (live_page b.now (get key s.user_pages)) s
      else (answer page, s)

abbrev pub deleted_user : Backends → Text → Text → Server → Bool × Pool → Response Text × Server
deleted_user b username tenant_id s (false, users) =
    (http_exception not_found, record s { users = users })
deleted_user b username tenant_id s (true, users) = (
  answer username,
  record s {
    users = users;
    user_pages =
        if b.pages_answer
        then filter (λ e. not (starts_with e.0 (pages_of tenant_id))) s.user_pages
        else s.user_pages;
  },
)

-- `delete_tenant_user_endpoint`, which answers with the name.
unfoldable pub delete_tenant_user_endpoint :
    Backends → Text → TokenData → Server → Response Text × Server
delete_tenant_user_endpoint b username current_user s =
    if not (is_admin current_user)
    then (http_exception forbidden, s)
    else if text_eq username current_user.user_id
    then (http_exception bad_request, s)
    else deleted_user b username current_user.tenant_id s
        (delete_tenant_user current_user.tenant_id username s.users)
