-- ===== src/Users/Access.antt =====
-- Who gets in, and what a call on behalf of one user does to the others.
use enterprise_multi_tenant.Base.{
  ℕ, ◌≡◌, ◌↔◌, refl, true, false, not, ◌&&◌, [], ◌∷◌, ◌++◌, Option, none, some, arith, filter,
  Option-cases, inl, inr,
}
use enterprise_multi_tenant.Text.{Text, text_eq, text_eq_iff, text_eq_refl}
use enterprise_multi_tenant.Role.{is_role}
use enterprise_multi_tenant.Users.{
  User, Users, Pool, ok, TokenData, Login, is_user, is_locked, find_user, count_failure,
  reset_failures, create_tenant_user, delete_tenant_user, new_user, authenticate_user,
}
use enterprise_multi_tenant.Users.Table.{find-update, KeepsKey}

-- A row that lets its user in with this password now.
pub record Admits (l : Login) (password : Text) (u : User) : Type 0 where
  pub active : u.is_active ≡ true
  pub free : is_locked l.now u ≡ false
  pub verified : l.verify password u.password_hash ≡ true
  pub role : is_role u.role ≡ true

abbrev pub token_of : User → TokenData
token_of u = record { user_id = u.username; tenant_id = u.tenant_id; role = u.role }

-- A login succeeds exactly if the user's row is active, not locked, has the password and a known
-- role; the token then names the row's user, tenant and role.
pub authenticate_exact :
    (l : Login) (username password tenant : Text) (us : Users) (t : TokenData)
    → ((authenticate_user l username password tenant (some us)).0 ≡ ok (some t)) ↔ (
        (u : User) × (find_user tenant username us ≡ some u)
        × Admits l password u
        × (t ≡ token_of u))
unfolding authenticate_user
authenticate_exact l username password tenant us t = (forth, back)
  where
    forth :
        (authenticate_user l username password tenant (some us)).0 ≡ ok (some t)
        → (u : User) × (find_user tenant username us ≡ some u)
          × Admits l password u
          × (t ≡ token_of u)
    forth h = elim (Option-cases (find_user tenant username us)) [
      | inl missing ↦ absurd (ground arith)
      | inr (u, found) ↦ (u, found, ground arith, ground arith)
    ]

    back :
        ((u : User) × (find_user tenant username us ≡ some u)
          × Admits l password u
          × (t ≡ token_of u))
        → (authenticate_user l username password tenant (some us)).0 ≡ ok (some t)
    back (u, found, admits, same) = ground arith

-- A write to the table: the calls of the application.
pub data Write : Type 0 where
  create : Text → Text → Text → Text → ℕ → Write
  delete : Text → Text → Write
  login : Login → Text → Text → Text → Write

-- The key that the call is about: tenant and user name.
abbrev pub tenant_of : Write → Text
tenant_of (create tenant username hash role now) = tenant
tenant_of (delete tenant username) = tenant
tenant_of (login l username password tenant) = tenant

abbrev pub username_of : Write → Text
username_of (create tenant username hash role now) = username
username_of (delete tenant username) = username
username_of (login l username password tenant) = username

abbrev pub write : Write → Pool → Pool
write (create tenant username hash role now) p =
    (create_tenant_user tenant username hash role now p).1
write (delete tenant username) p = (delete_tenant_user tenant username p).1
write (login l username password tenant) p = (authenticate_user l username password tenant p).1

abbrev pub find : Text → Text → Pool → Option User
find tenant username none = none
find tenant username (some us) = find_user tenant username us

find-append :
    (t n : Text) (us : Users) (u : User)
    → is_user t n u ≡ false
    → find_user t n (us ++ u ∷ []) ≡ find_user t n us
unfolding find_user
find-append t n [] u h = ground arith
find-append t n (v ∷ us) u h = ground (arith, find-append t n us u h)

find-delete :
    (tenant username t n : Text) (us : Users)
    → text_eq tenant t && text_eq username n ≡ false
    → find_user t n (filter (λ u. not (is_user tenant username u)) us) ≡ find_user t n us
unfolding find_user
find-delete tenant username t n [] h = refl
find-delete tenant username t n (u ∷ us) h = ground (
  arith,
  find-delete tenant username t n us h,
  text_eq_iff u.tenant_id tenant,
  text_eq_iff u.username username,
  text_eq_iff u.tenant_id t,
  text_eq_iff u.username n,
  text_eq_iff tenant t,
  text_eq_iff username n,
)

count_failure-KeepsKey : (l : Login) → KeepsKey (count_failure l)
unfolding count_failure
count_failure-KeepsKey l u = (refl, refl)

reset_failures-KeepsKey : KeepsKey reset_failures
unfolding reset_failures
reset_failures-KeepsKey u = (refl, refl)

-- Creating, deleting or logging in one user leaves the row of every other user, of the same or of
-- another tenant, exactly as it was.
pub user_write_isolated :
    (w : Write) (t n : Text) (p : Pool)
    → text_eq (tenant_of w) t && text_eq (username_of w) n ≡ false
    → find t n (write w p) ≡ find t n p
unfolding create_tenant_user delete_tenant_user authenticate_user
user_write_isolated (create tenant username hash role now) t n none h = refl
user_write_isolated (create tenant username hash role now) t n (some us) h =
    ground (arith, find-append t n us (new_user tenant username hash role now))
user_write_isolated (delete tenant username) t n none h = refl
user_write_isolated (delete tenant username) t n (some us) h = find-delete tenant username t n us h
user_write_isolated (login l username password tenant) t n none h = refl
user_write_isolated (login l username password tenant) t n (some us) h = ground (
  arith,
  find-update tenant username t n (count_failure l) us (count_failure-KeepsKey l),
  find-update tenant username t n reset_failures us reset_failures-KeepsKey,
)

created :
    (tenant username hash role : Text) (now : ℕ) (us : Users)
    → is_role role ≡ true
    → find_user tenant username us ≡ none
    → create_tenant_user tenant username hash role now (some us)
      ≡ (ok true, some (us ++ new_user tenant username hash role now ∷ []))
unfolding create_tenant_user
created tenant username hash role now us known fresh = ground arith

refused :
    (tenant username hash role : Text) (now : ℕ) (us : Users) (u : User)
    → is_role role ≡ true
    → find_user tenant username us ≡ some u
    → create_tenant_user tenant username hash role now (some us) ≡ (ok false, some us)
unfolding create_tenant_user
refused tenant username hash role now us u known found = ground arith

find-append_new :
    (t n : Text) (us : Users) (u : User)
    → is_user t n u ≡ true
    → find_user t n us ≡ none
    → find_user t n (us ++ u ∷ []) ≡ some u
unfolding find_user
find-append_new t n [] u h e = ground arith
find-append_new t n (v ∷ us) u h e = ground (arith, find-append_new t n us u h)

-- A user who was created can log in with the password, while nothing else happened to the row, and
-- gets a token with the role that was given. A second creation under the name changes nothing.
pub create_then_login :
    (hash : Text → Text) (l : Login) (username password tenant role : Text) (now : ℕ) (us : Users)
    → l.verify password (hash password) ≡ true
    → is_role role ≡ true
    → find_user tenant username us ≡ none
    → let p = (create_tenant_user tenant username (hash password) role now (some us)).1 in
      ((create_tenant_user tenant username (hash password) role now (some us)).0 ≡ ok true)
      × ((authenticate_user l username password tenant p).0
          ≡ ok (some (record { user_id = username; tenant_id = tenant; role = role })))
      × ((other : Text) (later : ℕ)
          → create_tenant_user tenant username other role later p ≡ (ok false, p))
create_then_login hash l username password tenant role now us verified known fresh =
    let u : User = new_user tenant username (hash password) role now in
    let us' : Users = us ++ u ∷ [] in
    let found : find_user tenant username us' ≡ some u =
      find-append_new tenant username us u (rw (text_eq_refl tenant, text_eq_refl username))
        fresh in
    rw (created tenant username (hash password) role now us known fresh) (
      refl,
      (authenticate_exact l username password tenant us' (token_of u)).1 (
        u,
        found,
        record { active = refl; free = refl; verified = verified; role = known },
        refl,
      ),
      λ other later. refused tenant username other role later us' u known found,
    )
