-- ===== src/Chat/Keys.antt =====
-- The keys of the response cache and of the checkpointer in app/api/routes.py. `json.dumps` and the
-- SHA-256 digest in hexadecimal are arguments; a key is made of their results.
pub mod Scope
use enterprise_multi_tenant.Base.{ℕ, ◌≡◌, List, [], ◌∷◌, ◌++◌}
use enterprise_multi_tenant.Text.{Text, text}

-- A value of a list that is encoded: a text or a whole number.
pub data JsonItem : Type 0 where
  string : Text → JsonItem
  number : ℕ → JsonItem

-- What `build_chat_cache_key` is given.
pub record ChatScope : Type 0 where
  pub tenant_id : Text
  pub user_id : Text
  pub role : Text
  pub thread_id : Text
  pub query : Text
  pub cache_version : ℕ

module _ (dumps : List JsonItem → Text) (hexdigest : Text → Text) where
  unfoldable pub build_chat_cache_key : ChatScope → Text
  build_chat_cache_key s =
      let query_digest = hexdigest s.query in
      let scope_digest = hexdigest (
        dumps (
          string s.tenant_id
          ∷ string s.user_id
          ∷ string s.role
          ∷ string s.thread_id
          ∷ number s.cache_version
          ∷ [])) in
      text "cache:" ++ (scope_digest ++ (text ":" ++ query_digest))

  abbrev pub scope_digest_of : Text → Text → Text
  scope_digest_of tenant_id user_id = hexdigest (dumps (string tenant_id ∷ string user_id ∷ []))

  unfoldable pub build_backend_thread_id : Text → Text → Text → Text
  build_backend_thread_id tenant_id user_id thread_id =
      let scope_digest = scope_digest_of tenant_id user_id in
      let digest = hexdigest (dumps (string tenant_id ∷ string user_id ∷ string thread_id ∷ [])) in
      text "thread:" ++ (scope_digest ++ (text ":" ++ digest))

  unfoldable pub build_backend_thread_scope : Text → Text → Text
  build_backend_thread_scope tenant_id user_id =
      text "thread:" ++ (scope_digest_of tenant_id user_id ++ text ":%")
