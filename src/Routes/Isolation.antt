-- ===== src/Routes/Isolation.antt =====
-- What a request of a user of one tenant does to another tenant.
use enterprise_multi_tenant.Base.{
  ℕ, ◌≡◌, ◌≢◌, ◌∙◌, refl, ap, Bool, true, false, List, [], ◌∷◌, ◌++◌, none, some, filter, arith,
  append-nil,
}
use enterprise_multi_tenant.Base.Rows.{filter-append, filter-delete_other}
use enterprise_multi_tenant.Text.{Text, text_eq, text_eq_iff}
use enterprise_multi_tenant.Users
use enterprise_multi_tenant.Users.{
  User, Users, TokenData, Result, ok, err, is_user, find_user, new_user, create_tenant_user,
  delete_tenant_user,
}
use enterprise_multi_tenant.RateLimit.{Counters}
use enterprise_multi_tenant.Ingestion.{
  Attempt, returned, failed, value_error, runtime_error, other_error, Summary, Stores,
}
use enterprise_multi_tenant.Ingestion.Isolation.{Unmoved}
use enterprise_multi_tenant.Routes.{Response, Server, Backends, admitted}
use enterprise_multi_tenant.Routes.Accounts.{UserRegistrationRequest, created, deleted_user}
use enterprise_multi_tenant.Routes.Knowledge.{ingested}

abbrev pub users_of : Text → Users.Pool → List User
users_of tenant none = []
users_of tenant (some us) = filter (λ u. text_eq u.tenant_id tenant) us

-- What two states of the service hold for a tenant is the same: its users, its documents, its points
-- and the version of its cached responses.
pub record Untouched (tenant : Text) (s s' : Server) : Type 0 where
  pub users : users_of tenant s'.users ≡ users_of tenant s.users
  pub stores : Unmoved tenant s.stores s'.stores

pub unmoved_self : (tenant : Text) (s : Stores) → Unmoved tenant s s
unmoved_self tenant s = record { documents = refl; points = refl; version = refl }

pub Untouched-self : (tenant : Text) (s : Server) → Untouched tenant s s
Untouched-self tenant s = record { users = refl; stores = unmoved_self tenant s.stores }

pub create_users :
    (tenant username hash role other : Text) (now : ℕ) (p : Users.Pool)
    → tenant ≢ other
    → users_of other (create_tenant_user tenant username hash role now p).1 ≡ users_of other p
unfolding create_tenant_user
create_users tenant username hash role other now none ne = refl
create_users tenant username hash role other now (some us) ne = ground (arith, added)
  where
    added :
        filter (λ u. text_eq u.tenant_id other) (us ++ new_user tenant username hash role now ∷ [])
        ≡ filter (λ u. text_eq u.tenant_id other) us
    added =
        filter-append (λ u. text_eq u.tenant_id other) us
          (new_user tenant username hash role now ∷ [])
        ∙ ap (λ x. filter (λ u. text_eq u.tenant_id other) us ++ x)
            (ground (arith, text_eq_iff tenant other))
        ∙ append-nil (filter (λ u. text_eq u.tenant_id other) us)

pub delete_users :
    (tenant username other : Text) (p : Users.Pool)
    → tenant ≢ other
    → users_of other (delete_tenant_user tenant username p).1 ≡ users_of other p
unfolding delete_tenant_user
delete_users tenant username other none ne = refl
delete_users tenant username other (some us) ne =
    filter-delete_other (λ u. text_eq u.tenant_id other) (is_user tenant username) us
      (λ u h. ground (arith, text_eq_iff u.tenant_id other, text_eq_iff u.tenant_id tenant))

module _ (other : Text) where
  pub created-Untouched :
      (r : UserRegistrationRequest) (s : Server) (o : Result Bool × Users.Pool)
      → users_of other o.1 ≡ users_of other s.users
      → Untouched other s (created r s o).1
  created-Untouched r s (ok true, users) h = record {
    users = h;
    stores = unmoved_self other s.stores;
  }
  created-Untouched r s (ok false, users) h = record {
    users = h;
    stores = unmoved_self other s.stores;
  }
  created-Untouched r s (err e, users) h = record {
    users = h;
    stores = unmoved_self other s.stores;
  }

  pub deleted_user-Untouched :
      (b : Backends) (username tenant : Text) (s : Server) (o : Bool × Users.Pool)
      → users_of other o.1 ≡ users_of other s.users
      → Untouched other s (deleted_user b username tenant s o).1
  deleted_user-Untouched b username tenant s (true, users) h = record {
    users = h;
    stores = unmoved_self other s.stores;
  }
  deleted_user-Untouched b username tenant s (false, users) h = record {
    users = h;
    stores = unmoved_self other s.stores;
  }

  pub admitted-Untouched :
      {A : Type 0} (s : Server) (rest : Server → Response A × Server) (o : Bool × Counters)
      → ((c : Counters)
          → Untouched other (record s { counters = c }) (rest (record s { counters = c })).1)
      → Untouched other s (admitted s rest o).1
  admitted-Untouched s rest (true, c) h =
      let t : Untouched other (record s { counters = c }) (rest (record s { counters = c })).1 =
        h c in
      record { users = t.users; stores = t.stores }
  admitted-Untouched s rest (false, c) h = record {
    users = refl;
    stores = unmoved_self other s.stores;
  }

  pub ingested-Untouched :
      (s : Server) (o : Attempt Summary × Stores)
      → Unmoved other s.stores o.1
      → Untouched other s (ingested s o).1
  ingested-Untouched s (returned m, stores) h = record { users = refl; stores = h }
  ingested-Untouched s (failed value_error, stores) h = record { users = refl; stores = h }
  ingested-Untouched s (failed runtime_error, stores) h = record { users = refl; stores = h }
  ingested-Untouched s (failed other_error, stores) h = record { users = refl; stores = h }
