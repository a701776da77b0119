-- ===== src/Tests/Auth.antt =====
-- The bearer tokens, run.
use enterprise_multi_tenant.Base.{◌≡◌, ◌↔◌, refl, true, false, [], ◌∷◌, none, some, if◌then◌else◌}
use enterprise_multi_tenant.Text.{text, text_eq}
use enterprise_multi_tenant.Users.{TokenData, User, new_user}
use enterprise_multi_tenant.Auth.{
  Claim, Payload, Provider, JwksCache, SigningKey, Services, str, absent, one, many, named,
  local_user, oidc_user, user, verify_oidc_token, refresh, find_key, claims_user,
}
use enterprise_multi_tenant.Auth.Local.{Accepted, local_user_exact}
use enterprise_multi_tenant.Auth.Oidc.{Trusted, oidc_user_sound}

abbrev claims : Claim → Payload
claims role name =
    if text_eq name (text "sub")
    then one (str (text "ann"))
    else if text_eq name (text "tenant_id")
    then one (str (text "acme"))
    else if text_eq name (text "role")
    then role
    else absent

abbrev ann : TokenData
ann = record { user_id = text "ann"; tenant_id = text "acme"; role = text "viewer" }

abbrev viewer : Claim
viewer = one (str (text "viewer"))

abbrev row : User
row = new_user (text "acme") (text "ann") (text "hash") (text "viewer") 1

abbrev services : Services
services = record { require_redis = true; revoked = some false; pool = some (row ∷ []) }

local_user_exact_example :
    (local_user services (some (claims viewer)) ≡ user ann)
    ↔ ((payload : Payload) × (some (claims viewer) ≡ some payload) × Accepted services payload ann)
local_user_exact_example = local_user_exact services (some (claims viewer)) ann

abbrev signing_key : SigningKey
signing_key = record { kid = named (text "k1"); material = text "rsa" }

abbrev provider : Provider
provider = record {
  now = 50;
  fetch = some (some (signing_key ∷ []));
  header_kid = λ token. some (named (text "k1"));
  algorithms_valid = true;
  decode = λ key token. some (claims (many (str (text "viewer") ∷ [])));
  tenant_claim = text "tenant_id";
  role_claim = text "role";
}

abbrev cold : JwksCache
cold = record { keys = none; expires_at = 0 }

accepted : (oidc_user provider (text "t") cold).0 ≡ user ann
unfolding oidc_user verify_oidc_token refresh find_key claims_user text_eq
accepted = refl

oidc_user_sound_example : Trusted provider (text "t") cold ann
oidc_user_sound_example = oidc_user_sound provider (text "t") cold ann accepted
