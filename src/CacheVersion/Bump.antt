-- ===== src/CacheVersion/Bump.antt =====
-- When a bump moves a tenant to a new version.
use enterprise_multi_tenant.Base.{
  ℕ, ◌+◌, ◌≡◌, ◌≢◌, refl, ◌∙◌, true, Option, none, some, arith, if◌then◌else◌,
}
use enterprise_multi_tenant.Text.{Text, text_eq, text_eq_iff, text_eq_refl}
use enterprise_multi_tenant.Dict.{Dict, get, put, get-put}
use enterprise_multi_tenant.CacheVersion.{
  version_or_one, incremented, get_tenant_cache_version, bump_tenant_cache_version,
}

-- The version that a read finds, once a value is written.
read_written :
    (t o : Text) (v : ℕ) (versions : Dict ℕ)
    → version_or_one (get o (put t v versions))
      ≡ (if text_eq t o then v else version_or_one (get o versions))
read_written t o v versions = rw (get-put o t v versions) (ground arith)

-- The version after the one that was read, for a tenant with or without a stored version.
abbrev pub next_version : Option ℕ → ℕ → ℕ
next_version none version = version
next_version (some v) version = version + 1

-- Where Redis answers, the version that a bump reports is the one that is read next, and no other
-- tenant's version moves; the version that is read is a greater one exactly where the tenant had a
-- stored version, and after the first bump of a tenant it is the one that was read before.
pub bump_exact :
    (t o : Text) (versions : Dict ℕ)
    → t ≢ o
    → let r = bump_tenant_cache_version true t versions in
      (get_tenant_cache_version true t r.1 ≡ r.0)
      × (get_tenant_cache_version true o r.1 ≡ get_tenant_cache_version true o versions)
      × (get_tenant_cache_version true t r.1
          ≡ next_version (get t versions) (get_tenant_cache_version true t versions))
unfolding bump_tenant_cache_version get_tenant_cache_version
bump_exact t o versions ne = (
  own,
  read_written t o (incremented (get t versions)) versions ∙ ground (arith, text_eq_iff t o),
  own ∙ moved (get t versions),
)
  where
    own :
        version_or_one (get t (put t (incremented (get t versions)) versions))
        ≡ incremented (get t versions)
    own = read_written t t (incremented (get t versions)) versions ∙ rw (text_eq_refl t) refl

    moved : (found : Option ℕ) → incremented found ≡ next_version found (version_or_one found)
    moved none = refl
    moved (some v) = refl
