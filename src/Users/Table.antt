-- ===== src/Users/Table.antt =====
-- Lookups and updates on the table of users.
use enterprise_multi_tenant.Base.{◌≡◌, ◌&&◌, [], ◌∷◌, arith, if◌then◌else◌}
use mathlib.Core.Option
use enterprise_multi_tenant.Text.{Text, text_eq, text_eq_iff}
use enterprise_multi_tenant.Users.{User, Users, find_user, update_user}

-- An update that leaves the key alone.
abbrev pub KeepsKey : (User → User) → Type 0
KeepsKey f = (u : User) → ((f u).tenant_id ≡ u.tenant_id) × ((f u).username ≡ u.username)

-- The updated row is found, and every other row as it was.
pub find-update :
    (tenant username t n : Text) (f : User → User) (us : Users)
    → KeepsKey f
    → find_user t n (update_user tenant username f us) ≡ (
        if text_eq tenant t && text_eq username n
        then Option.map f (find_user t n us)
        else find_user t n us)
unfolding find_user update_user
find-update tenant username t n f [] k = ground arith
find-update tenant username t n f (u ∷ us) k = ground (
  arith,
  find-update tenant username t n f us k,
  k u,
  text_eq_iff u.tenant_id tenant,
  text_eq_iff u.username username,
  text_eq_iff u.tenant_id t,
  text_eq_iff u.username n,
  text_eq_iff tenant t,
  text_eq_iff username n,
)
