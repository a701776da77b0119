-- ===== src/Tests/Users.antt =====
-- The users' table, run.
use enterprise_multi_tenant.Base.{ℕ, ◌≡◌, ◌↔◌, refl, [], ◌∷◌, none, some, arith}
use enterprise_multi_tenant.Text.{text, text_eq}
use enterprise_multi_tenant.Users.{User, Users, ok, Login, authenticate_user, find_user, new_user}
use enterprise_multi_tenant.Users.Lockout.{Try, at_time, attempt_all, lockout}
use enterprise_multi_tenant.Users.Access.{
  Admits, delete, find, write, token_of, authenticate_exact, user_write_isolated,
}

-- A login at second 100 where three failures lock for a minute; a hash is the password itself.
abbrev attempt : Login
attempt = record { verify = text_eq; max_attempts = 3; lock_minutes = 1; now = 100; db_now = 100 }

abbrev ann : User
ann = new_user (text "acme") (text "ann") (text "secret") (text "viewer") 1

abbrev users : Users
users = ann ∷ []

authenticate_exact_example :
    ((authenticate_user attempt (text "ann") (text "secret") (text "acme") (some users)).0
      ≡ ok (some (token_of ann)))
    ↔ ((u : User) × (find_user (text "acme") (text "ann") users ≡ some u)
        × Admits attempt (text "secret") u
        × (token_of ann ≡ token_of u))
authenticate_exact_example =
    authenticate_exact attempt (text "ann") (text "secret") (text "acme") users (token_of ann)

abbrev guess : ℕ → Try
guess t = record { password = text "guess"; now = t; db_now = t }

lockout_example :
    (us' : Users) × (attempt_all attempt
        (text "ann")
        (text "acme")
        (guess 100 ∷ guess 101 ∷ guess 102 ∷ [])
        (some users)
      ≡ some us')
    × (authenticate_user
          (at_time attempt (record { password = text "secret"; now = 150; db_now = 150 }))
          (text "ann")
          (text "secret")
          (text "acme")
          (some us')
        ≡ (ok none, some us'))
unfolding text_eq find_user
lockout_example =
    lockout attempt (text "ann") (text "acme") (guess 100 ∷ guess 101 ∷ []) (guess 102)
      (record { password = text "secret"; now = 150; db_now = 150 }) users ann refl refl refl refl
      (refl, (refl, tt)) refl refl (omega arith)

user_write_isolated_example :
    find (text "beta") (text "ann") (write (delete (text "acme") (text "ann")) (some users))
    ≡ find (text "beta") (text "ann") (some users)
unfolding text_eq
user_write_isolated_example =
    user_write_isolated (delete (text "acme") (text "ann")) (text "beta") (text "ann") (some users)
      refl
