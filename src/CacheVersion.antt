-- ===== src/CacheVersion.antt =====
-- The version of a tenant's cached responses in app/redis_client.py, a part of every cache key.
-- `versions` is Redis' value under `tenant_ver:` by tenant; `answers` says whether Redis answers.
pub mod Bump
use enterprise_multi_tenant.Base.{ℕ, ◌+◌, Bool, true, false, Option, none, some, if◌then◌else◌}
use enterprise_multi_tenant.Text.{Text}
use enterprise_multi_tenant.Dict.{Dict, get, put}

-- `int(version) if version else 1`
abbrev pub version_or_one : Option ℕ → ℕ
version_or_one none = 1
version_or_one (some v) = v

unfoldable pub get_tenant_cache_version : Bool → Text → Dict ℕ → ℕ
get_tenant_cache_version answers tenant_id versions =
    if answers then version_or_one (get tenant_id versions) else 1

-- The value after `INCR`, which takes an absent key for 0.
abbrev pub incremented : Option ℕ → ℕ
incremented none = 1
incremented (some v) = v + 1

unfoldable pub bump_tenant_cache_version : Bool → Text → Dict ℕ → ℕ × Dict ℕ
bump_tenant_cache_version answers tenant_id versions =
    let new_version = incremented (get tenant_id versions) in
    if answers then (new_version, put tenant_id new_version versions) else (1, versions)
