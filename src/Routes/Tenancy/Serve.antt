-- ===== src/Routes/Tenancy/Serve.antt =====
-- The routes, one by one, and what they do to other tenants than the caller's.
use enterprise_multi_tenant.Base.{
  ℕ, ◌+◌, ◌≡◌, ◌≢◌, ◌∙◌, refl, sym, Bool, true, false, not, ◌||◌, Option, take, length, ltb, arith,
  if◌then◌else◌,
}
use mathlib.Core.Path.{subst}
use enterprise_multi_tenant.Text.{Text, text_eq, text_eq_iff}
use enterprise_multi_tenant.Users.{TokenData}
use enterprise_multi_tenant.Documents.Tenancy.{delete_doc, delete_all, write_isolated}
use enterprise_multi_tenant.Ingestion.{Attempt, Bytes, Stores, Summary, process_document_ingestion}
use enterprise_multi_tenant.Ingestion.Commit.{IsQdrant}
use enterprise_multi_tenant.Ingestion.Isolation.{ingestion_unmoved}
use enterprise_multi_tenant.Routes.{
  Response, answer, http_exception, bad_request, Server, Backends, is_admin, limited,
}
use enterprise_multi_tenant.Routes.Accounts.{
  UserRegistrationRequest, provision_tenant_user, list_tenant_users_endpoint,
  delete_tenant_user_endpoint,
}
use enterprise_multi_tenant.Routes.Sessions.{logout}
use enterprise_multi_tenant.Routes.Knowledge.{
  UploadFile, upload_of, ingested, is_refused, read_and_ingested, ingest_document,
  get_tenant_documents, delete_document, clear_all_documents,
}
use enterprise_multi_tenant.Routes.Histories.{
  clear_chat_thread, clear_all_chat_history, get_tenant_traces, clear_tenant_telemetry,
}
use enterprise_multi_tenant.Routes.Tasks.{get_ingestion_status}
use enterprise_multi_tenant.Routes.Tasks.Untouched.{async-Untouched}
use enterprise_multi_tenant.Routes.ChatStream.Untouched.{chat-Untouched}
use enterprise_multi_tenant.Routes.Isolation.{
  Untouched, unmoved_self, Untouched-self, create_users, delete_users, created-Untouched,
  deleted_user-Untouched, admitted-Untouched, ingested-Untouched,
}
use enterprise_multi_tenant.Routes.Tenancy.{
  bumped_unmoved, logged_out-Untouched, listed-Untouched, unrecorded-Untouched, cleared-Untouched,
}
use enterprise_multi_tenant.Routes.Service.{
  Service, Request, provision_user, list_users, delete_user, log_out, ingest, ingest_async,
  ingestion_status, documents, clear_docs, chat, clear_thread, clear_history, traces, clear_traces,
  status, serve,
}
use enterprise_multi_tenant.Routes.Service

-- A test decides between two results.
if_Untouched :
    {A : Type 0} (other : Text) (s : Server) (c : Bool) (x y : Response A × Server)
    → (c ≡ true → Untouched other s x.1)
    → (c ≡ false → Untouched other s y.1)
    → Untouched other s (if c then x else y).1
if_Untouched other s true x y h k = h refl
if_Untouched other s false x y h k = k refl

status_state : {A : Type 0} (o : Response A × Server) → (status o).1 ≡ o.1
status_state (answer a, s) = refl
status_state (http_exception e, s) = refl

status-Untouched :
    {A : Type 0} (other : Text) (s : Server) (o : Response A × Server)
    → Untouched other s o.1
    → Untouched other s (status o).1
status-Untouched other s o h = subst (Untouched other s) (sym (status_state o)) h

module _ (v : Service) (qdrant : IsQdrant v.upsert v.delete) (b : Backends) (host : Option Text)
    (u : TokenData) (other : Text) (ne : u.tenant_id ≢ other) where
  provision-Untouched :
      (r : UserRegistrationRequest) (s : Server)
      → Untouched other s (provision_tenant_user v.hash v.settings b u r s).1
  unfolding provision_tenant_user
  provision-Untouched r s =
      if_Untouched other s (not (is_admin u)) _ _ (λ _. Untouched-self other s)
        (λ _.
          if_Untouched other s (not (text_eq r.tenant_id u.tenant_id)) _ _
            (λ _. Untouched-self other s)
            (λ own. created-Untouched other r s _ (
              create_users r.tenant_id r.username (v.hash r.password) r.role other b.now s.users
                (λ e. ne (sym ((text_eq_iff r.tenant_id u.tenant_id).0 (ground arith)) ∙ e)))))

  list_users-Untouched :
      (limit offset : ℕ) (s : Server)
      → Untouched other s (list_tenant_users_endpoint v.str b limit offset u s).1
  unfolding list_tenant_users_endpoint
  list_users-Untouched limit offset s =
      if_Untouched other s (not (is_admin u)) _ _ (λ _. Untouched-self other s)
        (λ _.
          if_Untouched other s b.pages_answer _ _ (λ _. listed-Untouched other v.str b _ s _ _)
            (λ _. Untouched-self other s))

  delete_user-Untouched :
      (username : Text) (s : Server)
      → Untouched other s (delete_tenant_user_endpoint b username u s).1
  unfolding delete_tenant_user_endpoint
  delete_user-Untouched username s =
      if_Untouched other s (not (is_admin u)) _ _ (λ _. Untouched-self other s)
        (λ _.
          if_Untouched other s (text_eq username u.user_id) _ _ (λ _. Untouched-self other s)
            (λ _.
              deleted_user-Untouched other b username u.tenant_id s _
                (delete_users u.tenant_id username other s.users ne)))

  logout-Untouched :
      (token : Text) (s : Server)
      → Untouched other s (logout v.hexdigest v.jwt v.settings b token s).1
  unfolding logout
  logout-Untouched token s =
      if_Untouched other s v.settings.is_local _ _ (λ _. logged_out-Untouched other s _)
        (λ _. Untouched-self other s)

  read-Untouched :
      (f : UploadFile) (s : Server)
      → Untouched other s (read_and_ingested v.upsert v.delete v.pipeline v.settings b f u s).1
  read-Untouched f s =
      let content : Bytes = take (v.settings.max_upload_bytes + 1) f.content in
      let done : Attempt Summary × Stores =
        process_document_ingestion v.upsert v.delete v.pipeline b.replies
          (upload_of u b.now f content) s.stores in
      if_Untouched other s
        (is_refused v.settings.max_upload_bytes f.header
          || ltb v.settings.max_upload_bytes (length content))
        (http_exception bad_request, s) (ingested s done) (λ _. Untouched-self other s)
        (λ _. ingested-Untouched other s done (
          ingestion_unmoved v.upsert v.delete qdrant other v.pipeline b.replies
            (upload_of u b.now f content) s.stores ne))

  ingest-Untouched :
      (f : UploadFile) (s : Server)
      → Untouched other s (ingest_document v.upsert v.delete v.pipeline v.settings b host f u s).1
  unfolding ingest_document limited
  ingest-Untouched f s =
      if_Untouched other s (not (is_admin u)) _ _ (λ _. Untouched-self other s)
        (λ _.
          admitted-Untouched other s
            (read_and_ingested v.upsert v.delete v.pipeline v.settings b f u) _
            (λ c. read-Untouched f (record s { counters = c })))

  delete_document-Untouched :
      (doc_id : Text) (s : Server) → Untouched other s (delete_document v.delete b doc_id u s).1
  unfolding delete_document
  delete_document-Untouched doc_id s =
      if_Untouched other s (not (is_admin u)) _ _ (λ _. Untouched-self other s)
        (λ _.
          unrecorded-Untouched other v.upsert v.delete qdrant b u.tenant_id s _ ne
            (write_isolated (delete_doc u.tenant_id doc_id) other s.stores.pool ne))

  clear_documents-Untouched :
      (s : Server) → Untouched other s (clear_all_documents v.delete b u s).1
  unfolding clear_all_documents
  clear_documents-Untouched s =
      if_Untouched other s (not (is_admin u)) _ _ (λ _. Untouched-self other s)
        (λ _.
          cleared-Untouched other v.upsert v.delete qdrant b u.tenant_id s _ ne
            (write_isolated (delete_all u.tenant_id) other s.stores.pool ne))

  telemetry-Untouched : (s : Server) → Untouched other s (clear_tenant_telemetry u s).1
  unfolding clear_tenant_telemetry
  telemetry-Untouched s =
      if_Untouched other s (not (is_admin u)) _ _ (λ _. Untouched-self other s)
        (λ _. record { users = refl; stores = unmoved_self other s.stores })

  -- No request of a user, however it ends and however the backends answer, changes the users, the
  -- documents, the points or the cache version of a tenant that is not the user's, where Qdrant adds
  -- and removes what it is asked to.
  pub serve_isolated : (q : Request) (s : Server) → Untouched other s (serve v b host u q s).1
  unfolding serve get_ingestion_status get_tenant_documents clear_chat_thread clear_all_chat_history
      get_tenant_traces
  serve_isolated (provision_user r) s = status-Untouched other s _ (provision-Untouched r s)
  serve_isolated (list_users limit offset) s =
      status-Untouched other s _ (list_users-Untouched limit offset s)
  serve_isolated (delete_user username) s =
      status-Untouched other s _ (delete_user-Untouched username s)
  serve_isolated (log_out token) s = status-Untouched other s _ (logout-Untouched token s)
  serve_isolated (ingest f) s = status-Untouched other s _ (ingest-Untouched f s)
  serve_isolated (ingest_async task_id f) s =
      status-Untouched other s _ (async-Untouched other v.settings b host task_id f u s)
  serve_isolated (ingestion_status task_id) s = status-Untouched other s _ (Untouched-self other s)
  serve_isolated documents s = Untouched-self other s
  serve_isolated (Service.delete_doc doc_id) s =
      status-Untouched other s _ (delete_document-Untouched doc_id s)
  serve_isolated clear_docs s = status-Untouched other s _ (clear_documents-Untouched s)
  serve_isolated (chat c) s =
      status-Untouched other s _
        (chat-Untouched other v.sanitize_output v.redact v.settings v.dumps v.hexdigest b c u s)
  serve_isolated (clear_thread thread_id) s = record {
    users = refl;
    stores = bumped_unmoved other b u.tenant_id s.stores ne;
  }
  serve_isolated clear_history s = record {
    users = refl;
    stores = bumped_unmoved other b u.tenant_id s.stores ne;
  }
  serve_isolated (traces limit) s = Untouched-self other s
  serve_isolated clear_traces s = status-Untouched other s _ (telemetry-Untouched s)
