-- ===== src/Auth/Oidc.antt =====
-- When an OIDC token is accepted, and how old the keys are by which it is checked.
use mathlib.Core.Path.{subst}
use enterprise_multi_tenant.Base.{
  ap, sym, ◌∙◌, ◌≤◌, ◌+◌, ◌<◌, ◌≡◌, ◌⊎◌, refl, true, false, List, [], ◌∷◌, Option, none, some,
  arith, Option-cases, inl, inr,
}
use enterprise_multi_tenant.Text.{Text, text, is_empty}
use enterprise_multi_tenant.Role.{is_role}
use enterprise_multi_tenant.Users.{TokenData}
use enterprise_multi_tenant.Auth.{
  Kid, Payload, SigningKey, JwksCache, Provider, str, one, user, kid_eq, first_role, refresh,
  find_key, claims_user, keyed_user, verify_oidc_token, oidc_user,
}

-- The claims of a token that is taken for `t`.
pub record Names (p : Provider) (payload : Payload) (t : TokenData) : Type 0 where
  pub subject : payload (text "sub") ≡ one (str t.user_id)
  pub tenant : payload p.tenant_claim ≡ one (str t.tenant_id)
  pub role : first_role (payload p.role_claim) ≡ one (str t.role)
  pub named : (is_empty t.user_id ≡ false) × (is_empty t.tenant_id ≡ false)
  pub known_role : is_role t.role ≡ true

claims_user-Names :
    (p : Provider) (payload : Payload) (t : TokenData)
    → claims_user p payload ≡ some t
    → Names p payload t
unfolding claims_user
claims_user-Names p payload t h = ground arith

refresh_age :
    (p : Provider) (c : JwksCache) (keys : List SigningKey)
    → (refresh p c).0 ≡ true
    → (refresh p c).1.keys ≡ some keys
    → ((p.now < c.expires_at) × (c.keys ≡ some keys) × ((refresh p c).1 ≡ c))
      ⊎ ((c.expires_at ≤ p.now)
          × (p.fetch ≡ some (some keys))
          × ((refresh p c).1.expires_at ≡ p.now + 900))
unfolding refresh
refresh_age p c keys h published = ground arith

left_cache :
    (p : Provider) (token : Text) (c : JwksCache) → (oidc_user p token c).1 ≡ (refresh p c).1
unfolding oidc_user verify_oidc_token
left_cache p token c = refl

find_key-kid :
    (kid : Kid) (keys : List SigningKey) (k : SigningKey)
    → find_key kid keys ≡ some k
    → kid_eq k.kid kid ≡ true
unfolding find_key
find_key-kid kid [] k h = cc
find_key-kid kid (j ∷ keys) k h = ground (arith, find_key-kid kid keys k)

-- Why a token was taken for a user.
pub record Trusted (p : Provider) (token : Text) (c : JwksCache) (t : TokenData) : Type 0 where
  pub keys : List SigningKey
  pub kid : Kid
  pub key : SigningKey
  pub payload : Payload
  pub published : (oidc_user p token c).1.keys ≡ some keys
  pub header : p.header_kid token ≡ some kid
  pub found : find_key kid keys ≡ some key
  pub same_kid : kid_eq key.kid kid ≡ true
  pub decoded : p.decode key token ≡ some payload
  pub names : Names p payload t
  pub fresh :
      ((p.now < c.expires_at) × (c.keys ≡ some keys) × ((oidc_user p token c).1 ≡ c))
      ⊎ ((c.expires_at ≤ p.now)
          × (p.fetch ≡ some (some keys))
          × ((oidc_user p token c).1.expires_at ≡ p.now + 900))

keyed_user-cases :
    (p : Provider) (token : Text) (kid : Option Kid) (keys : Option (List SigningKey))
    (t : TokenData)
    → keyed_user p token kid keys ≡ some t
    → (i : Kid) × (ks : List SigningKey) × (k : SigningKey) × (payload : Payload) × (kid ≡ some i)
      × (keys ≡ some ks)
      × (find_key i ks ≡ some k)
      × (p.decode k token ≡ some payload)
      × (claims_user p payload ≡ some t)
keyed_user-cases p token none keys t h = cc
keyed_user-cases p token (some i) none t h = cc
keyed_user-cases p token (some i) (some ks) t h = elim (Option-cases (find_key i ks)) [
  | inl missing ↦ absurd (ground arith)
  | inr (k, found) ↦ elim (Option-cases (p.decode k token)) [
    | inl bad ↦ absurd (ground arith)
    | inr (payload, decoded) ↦ (i, ks, k, payload, refl, refl, found, decoded, ground arith)
  ]
]

verified :
    (p : Provider) (token : Text) (c : JwksCache) (t : TokenData)
    → (oidc_user p token c).0 ≡ user t
    → ((refresh p c).0 ≡ true)
      × (keyed_user p token (p.header_kid token) (refresh p c).1.keys ≡ some t)
unfolding oidc_user verify_oidc_token
verified p token c t h = ground arith

-- In OIDC mode a request is taken for a user only by a token that decodes under the first
-- published key with the token's key identifier, whose claims name the user, the tenant and a known role,
-- none of them empty. The keys are those of the cache, where its time is not over, and then the cache
-- stays as it is; or they are fetched by this request, and then they are kept for 900 seconds.
pub oidc_user_sound :
    (p : Provider) (token : Text) (c : JwksCache) (t : TokenData)
    → (oidc_user p token c).0 ≡ user t
    → Trusted p token c t
oidc_user_sound p token c t h =
    let (fresh, accepted) = verified p token c t h in
    let (i, ks, k, payload, header, published, found, decoded, named) =
      keyed_user-cases p token (p.header_kid token) (refresh p c).1.keys t accepted in
    record {
      keys = ks;
      kid = i;
      key = k;
      payload = payload;
      published = ap (λ x. x.keys) (left_cache p token c) ∙ published;
      header = header;
      found = found;
      same_kid = find_key-kid i ks k found;
      decoded = decoded;
      names = claims_user-Names p payload t named;
      fresh =
          subst
            (λ x.
              ((p.now < c.expires_at) × (c.keys ≡ some ks) × (x ≡ c))
              ⊎ ((c.expires_at ≤ p.now)
                  × (p.fetch ≡ some (some ks))
                  × (x.expires_at ≡ p.now + 900)))
            (sym (left_cache p token c)) (refresh_age p c ks fresh published);
    }
