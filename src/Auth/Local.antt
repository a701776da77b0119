-- ===== src/Auth/Local.antt =====
-- When a local token is accepted.
use mathlib.Core.Path.{subst}
use mathlib.Core.Option.{some-injective}
use enterprise_multi_tenant.Base.{
  ◌≡◌, ◌≢◌, ◌↔◌, refl, sym, true, false, ◌&&◌, Option, none, some, arith,
}
use enterprise_multi_tenant.Text.{text, is_empty}
use enterprise_multi_tenant.Role.{is_role, is_role-ne-empty}
use enterprise_multi_tenant.Users.{TokenData, ok, is_active_tenant_user}
use enterprise_multi_tenant.Auth.{
  Payload, Services, truth, is_token_revoked, local_user, str, one, user,
}

-- The claims name the user of `t`, the token is not known to be revoked, and the user is still
-- active in the tenant with that role.
pub record Accepted (s : Services) (payload : Payload) (t : TokenData) : Type 0 where
  pub subject : payload (text "sub") ≡ one (str t.user_id)
  pub tenant : payload (text "tenant_id") ≡ one (str t.tenant_id)
  pub role : payload (text "role") ≡ one (str t.role)
  pub named : (is_empty t.user_id ≡ false) × (is_empty t.tenant_id ≡ false)
  pub known_role : is_role t.role ≡ true
  pub not_revoked :
      (truth (payload (text "jti")) && is_token_revoked s.require_redis s.revoked) ≡ false
  pub active : is_active_tenant_user t.tenant_id t.user_id t.role s.pool ≡ ok true

local_user_complete :
    (s : Services) (payload : Payload) (t : TokenData)
    → Accepted s payload t
    → local_user s (some payload) ≡ user t
unfolding local_user
local_user_complete s payload t a = ground (arith, is_role-ne-empty t.role a.known_role)

local_user_sound :
    (s : Services) (payload : Payload) (t : TokenData)
    → local_user s (some payload) ≡ user t
    → Accepted s payload t
unfolding local_user
local_user_sound s payload t h = ground arith

pub decoded_user_exact :
    (s : Services) (payload : Payload) (t : TokenData)
    → (local_user s (some payload) ≡ user t) ↔ Accepted s payload t
decoded_user_exact s payload t = (local_user_sound s payload t, local_user_complete s payload t)

undecodable_refused : (s : Services) (t : TokenData) → local_user s none ≢ user t
unfolding local_user
undecodable_refused s t h = cc h

-- In local mode a request is taken for a user exactly if its token decodes to claims that name
-- that user, tenant and role, the token is not revoked (an unanswered question to Redis counts as
-- revoked where Redis is required), and the table still has the user active with that role; a token
-- that does not decode is taken for nobody.
pub local_user_exact :
    (s : Services) (decoded : Option Payload) (t : TokenData)
    → (local_user s decoded ≡ user t)
      ↔ ((payload : Payload) × (decoded ≡ some payload) × Accepted s payload t)
local_user_exact s none t =
    (λ h. absurd (undecodable_refused s t h), λ (payload, decodes, _). absurd (cc decodes))
local_user_exact s (some payload) t = (
  λ h. (payload, refl, (decoded_user_exact s payload t).0 h),
  λ (given, decodes, accepted).
      local_user_complete s payload t
        (subst (λ p. Accepted s p t) (sym (some-injective _ _ decodes)) accepted),
)
