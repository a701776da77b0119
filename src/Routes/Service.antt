-- ===== src/Routes/Service.antt =====
-- The requests of a user to the routes, and how the service answers each of them.
use enterprise_multi_tenant.Base.{ℕ, Bool, List, Option, none, some}
use enterprise_multi_tenant.Text.{Text}
use enterprise_multi_tenant.Users.{TokenData}
use enterprise_multi_tenant.VectorStore.{Point, Filter}
use enterprise_multi_tenant.Ingestion.{Pipeline}
use enterprise_multi_tenant.Chat.Keys.{JsonItem}
use enterprise_multi_tenant.Auth.Tokens.{Jwt}
use enterprise_multi_tenant.Routes.{
  Response, answer, http_exception, Status, Server, Settings, Backends,
}
use enterprise_multi_tenant.Routes.Accounts.{
  UserRegistrationRequest, provision_tenant_user, list_tenant_users_endpoint,
  delete_tenant_user_endpoint,
}
use enterprise_multi_tenant.Routes.Sessions.{logout}
use enterprise_multi_tenant.Routes.Knowledge.{
  UploadFile, ingest_document, get_tenant_documents, delete_document, clear_all_documents,
}
use enterprise_multi_tenant.Routes.Histories.{
  clear_chat_thread, clear_all_chat_history, get_tenant_traces, clear_tenant_telemetry,
}
use enterprise_multi_tenant.Routes.Tasks.{ingest_document_async, get_ingestion_status}
use enterprise_multi_tenant.Routes.ChatStream.{ChatRequest, chat_stream}

-- What the service calls, and its settings.
pub record Service : Type 0 where
  pub settings : Settings
  pub pipeline : Pipeline
  pub upsert : List Point → List Point → List Point
  pub delete : Filter → List Point → List Point
  pub hash : Text → Text
  pub before : Text → Text → Bool
  pub str : ℕ → Text
  pub dumps : List JsonItem → Text
  pub hexdigest : Text → Text
  pub sanitize_output : Text → Text
  pub redact : Text → Text
  pub jwt : Jwt

-- A request of a user who has been authenticated.
pub data Request : Type 0 where
  provision_user : UserRegistrationRequest → Request
  list_users : ℕ → ℕ → Request
  delete_user : Text → Request
  log_out : Text → Request
  ingest : UploadFile → Request
  ingest_async : Text → UploadFile → Request
  ingestion_status : Text → Request
  documents : Request
  delete_doc : Text → Request
  clear_docs : Request
  chat : ChatRequest → Request
  clear_thread : Text → Request
  clear_history : Request
  traces : ℕ → Request
  clear_traces : Request

-- How a request ended: none for an answer.
abbrev pub status : {A : Type 0} → Response A × Server → Option Status × Server
status (answer a, s) = (none, s)
status (http_exception e, s) = (some e, s)

-- The routes of `router` that ask for the current user.
unfoldable pub serve :
    Service → Backends → Option Text → TokenData → Request → Server → Option Status × Server
serve v b host u (provision_user r) s = status (provision_tenant_user v.hash v.settings b u r s)
serve v b host u (list_users limit offset) s =
    status (list_tenant_users_endpoint v.str b limit offset u s)
serve v b host u (delete_user username) s = status (delete_tenant_user_endpoint b username u s)
serve v b host u (log_out token) s = status (logout v.hexdigest v.jwt v.settings b token s)
serve v b host u (ingest f) s =
    status (ingest_document v.upsert v.delete v.pipeline v.settings b host f u s)
serve v b host u (ingest_async task_id f) s =
    status (ingest_document_async v.settings b host task_id f u s)
serve v b host u (ingestion_status task_id) s = status (get_ingestion_status b task_id u s)
serve v b host u documents s = status (get_tenant_documents v.before u s)
serve v b host u (delete_doc doc_id) s = status (delete_document v.delete b doc_id u s)
serve v b host u clear_docs s = status (clear_all_documents v.delete b u s)
serve v b host u (chat c) s =
    status (chat_stream v.sanitize_output v.redact v.settings v.dumps v.hexdigest b c u s)
serve v b host u (clear_thread thread_id) s =
    status (clear_chat_thread v.dumps v.hexdigest b thread_id u s)
serve v b host u clear_history s = status (clear_all_chat_history v.dumps v.hexdigest b u s)
serve v b host u (traces limit) s = status (get_tenant_traces limit u s)
serve v b host u clear_traces s = status (clear_tenant_telemetry u s)
