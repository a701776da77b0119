-- ===== src/Routes/Knowledge.antt =====
-- The handlers of app/api/routes.py for the documents.
use enterprise_multi_tenant.Base.{
  ℕ, ◌+◌, Bool, true, false, not, ◌||◌, List, [], ◌∷◌, ◌++◌, Option, none, some, take, length, ltb,
  if◌then◌else◌,
}
use enterprise_multi_tenant.Text.{Text, text}
use enterprise_multi_tenant.RateLimit.{Call}
use enterprise_multi_tenant.Users.{TokenData}
use enterprise_multi_tenant.Documents.{
  Document, Pool, delete_tenant_document, delete_all_tenant_documents,
}
use enterprise_multi_tenant.Documents.Listing.{list_tenant_documents}
use enterprise_multi_tenant.VectorStore.{
  Point, Filter, delete_documents_from_qdrant, delete_all_tenant_documents_from_qdrant,
}
use enterprise_multi_tenant.CacheVersion.{bump_tenant_cache_version}
use enterprise_multi_tenant.Ingestion.{
  Attempt, returned, failed, value_error, runtime_error, other_error, Bytes, Pipeline, Stores,
  Summary, Upload, called, process_document_ingestion,
}
use enterprise_multi_tenant.Routes.{
  Response, answer, http_exception, forbidden, bad_request, not_found, internal_server_error,
  Server, Settings, Backends, is_admin, limited,
}

-- The header, which is absent or empty, a number or something else.
pub data ContentLength : Type 0 where
  no_length malformed : ContentLength
  content_length : ℕ → ContentLength

-- An upload as it arrives, with the identifier that its document is given.
pub record UploadFile : Type 0 where
  pub filename : Option Text
  pub content : Bytes
  pub header : ContentLength
  pub allowed_roles : Text
  pub doc_id : Text

abbrev pub filename_of : Option Text → Text
filename_of none = text "uploaded_document.txt"
filename_of (some []) = text "uploaded_document.txt"
filename_of (some (c ∷ name)) = c ∷ name

-- A header that is no number makes `int` raise a `ValueError`.
abbrev pub is_refused : ℕ → ContentLength → Bool
is_refused max_upload_bytes no_length = false
is_refused max_upload_bytes malformed = true
is_refused max_upload_bytes (content_length n) = ltb (max_upload_bytes + 1024) n

-- `f"{tenant_id}:{user_id}"`
abbrev pub identity_of : TokenData → Text
identity_of u = u.tenant_id ++ (text ":" ++ u.user_id)

abbrev pub identity_call : Backends → Text → Option Text → TokenData → Call
identity_call b scope host u = record {
  redis = b.redis;
  scope = scope;
  identity = some (identity_of u);
  client_host = host;
}

abbrev pub ingested : Server → Attempt Summary × Stores → Response Summary × Server
ingested s (returned m, stores) = (answer m, record s { stores = stores })
ingested s (failed value_error, stores) = (http_exception bad_request, record s { stores = stores })
ingested s (failed runtime_error, stores) =
    (http_exception internal_server_error, record s { stores = stores })
ingested s (failed other_error, stores) =
    (http_exception internal_server_error, record s { stores = stores })

abbrev pub upload_of : TokenData → ℕ → UploadFile → Bytes → Upload
upload_of u now f content = record {
  content = content;
  filename = filename_of f.filename;
  allowed_roles = f.allowed_roles;
  tenant_id = u.tenant_id;
  user_id = u.user_id;
  doc_id = f.doc_id;
  now = now;
}

-- `bump_tenant_cache_version` on the stores.
abbrev pub bumped : Backends → Text → Stores → Stores
bumped b tenant_id s = record s {
  versions = (bump_tenant_cache_version b.bump_answers tenant_id s.versions).1;
}

module _ (upsert : List Point → List Point → List Point) (delete : Filter → List Point → List Point)
    (pipeline : Pipeline) (settings : Settings) where
  abbrev pub read_and_ingested :
      Backends → UploadFile → TokenData → Server → Response Summary × Server
  read_and_ingested b f current_user s =
      let content = take (settings.max_upload_bytes + 1) f.content in
      if is_refused settings.max_upload_bytes f.header
        || ltb settings.max_upload_bytes (length content)
      then (http_exception bad_request, s)
      else ingested s (
          process_document_ingestion upsert delete pipeline b.replies
            (upload_of current_user b.now f content) s.stores)

  -- `ingest_document`
  unfoldable pub ingest_document :
      Backends → Option Text → UploadFile → TokenData → Server → Response Summary × Server
  ingest_document b host f current_user s =
      if not (is_admin current_user)
      then (http_exception forbidden, s)
      else limited settings.chat_rate_limit (identity_call b (text "ingest") host current_user) s
          (read_and_ingested b f current_user)

module _ (before : Text → Text → Bool) where
  -- `get_tenant_documents`
  unfoldable pub get_tenant_documents : TokenData → Server → Response (List Document) × Server
  get_tenant_documents current_user s = (
    answer (
        list_tenant_documents before current_user.tenant_id (some current_user.role) s.stores.pool),
    s,
  )

module _ (delete : Filter → List Point → List Point) where
  -- The end of a deletion: the version is bumped only after Qdrant has answered.
  abbrev pub purged :
      {A : Type 0} → Backends → Text → A → Server → Pool → Bool × List Point → Response A × Server
  purged b tenant_id a s pool (true, points) = (
    answer a,
    record s { stores = bumped b tenant_id (record s.stores { pool = pool; points = points }) },
  )
  purged b tenant_id a s pool (false, points) = (
    http_exception internal_server_error,
    record s { stores = record s.stores { pool = pool; points = points } },
  )

  abbrev pub unrecorded : Backends → Text → Server → Option Text × Pool → Response Text × Server
  unrecorded b tenant_id s (none, pool) =
      (http_exception not_found, record s { stores = record s.stores { pool = pool } })
  unrecorded b tenant_id s (some [], pool) =
      (http_exception not_found, record s { stores = record s.stores { pool = pool } })
  unrecorded b tenant_id s (some (c ∷ name), pool) = purged b tenant_id (c ∷ name) s pool (
      called b.deletion (delete_documents_from_qdrant delete tenant_id (some (c ∷ name)) none)
        s.stores.points)

  -- `delete_document`, which answers with the filename.
  unfoldable pub delete_document : Backends → Text → TokenData → Server → Response Text × Server
  delete_document b doc_id current_user s =
      if not (is_admin current_user)
      then (http_exception forbidden, s)
      else unrecorded b current_user.tenant_id s
          (delete_tenant_document current_user.tenant_id doc_id s.stores.pool)

  abbrev pub cleared : Backends → Text → Server → ℕ × Pool → Response ℕ × Server
  cleared b tenant_id s (deleted_count, pool) =
      purged b tenant_id deleted_count s pool (
        called b.deletion (delete_all_tenant_documents_from_qdrant delete tenant_id)
          s.stores.points)

  -- `clear_all_documents`, which answers with the count.
  unfoldable pub clear_all_documents : Backends → TokenData → Server → Response ℕ × Server
  clear_all_documents b current_user s =
      if not (is_admin current_user)
      then (http_exception forbidden, s)
      else cleared b current_user.tenant_id s
          (delete_all_tenant_documents current_user.tenant_id s.stores.pool)
