-- ===== src/Tests/CacheVersion.antt =====
-- The versions, run.
use enterprise_multi_tenant.Base.{ℕ, ◌≡◌, ◌≢◌, refl, true, [], ◌∷◌, arith}
use enterprise_multi_tenant.Text.{text, text_eq}
use enterprise_multi_tenant.Dict.{Dict, get, put}
use enterprise_multi_tenant.CacheVersion.{get_tenant_cache_version, bump_tenant_cache_version}
use enterprise_multi_tenant.CacheVersion.Bump.{next_version, bump_exact}

abbrev versions : Dict ℕ
versions = (text "beta", 4) ∷ []

acme_not_beta : text "acme" ≢ text "beta"
acme_not_beta = ground arith

-- The first bump of a tenant leaves its version, so its cached responses stay in use.
first_bump :
    get_tenant_cache_version true
      (text "acme")
      (bump_tenant_cache_version true (text "acme") versions).1
    ≡ get_tenant_cache_version true (text "acme") versions
unfolding get_tenant_cache_version bump_tenant_cache_version get put text_eq
first_bump = refl

bump_exact_example :
    (get_tenant_cache_version true
        (text "acme")
        (bump_tenant_cache_version true (text "acme") versions).1
      ≡ (bump_tenant_cache_version true (text "acme") versions).0)
    × (get_tenant_cache_version true
          (text "beta")
          (bump_tenant_cache_version true (text "acme") versions).1
        ≡ get_tenant_cache_version true (text "beta") versions)
    × (get_tenant_cache_version true
          (text "acme")
          (bump_tenant_cache_version true (text "acme") versions).1
        ≡ next_version
            (get (text "acme") versions)
            (get_tenant_cache_version true (text "acme") versions))
bump_exact_example = bump_exact (text "acme") (text "beta") versions acme_not_beta
