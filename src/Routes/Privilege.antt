-- ===== src/Routes/Privilege.antt =====
-- What only an administrator may do.
use enterprise_multi_tenant.Base.{◌≡◌, refl, Bool, true, false, Option, some}
use enterprise_multi_tenant.Text.{Text}
use enterprise_multi_tenant.Users.{TokenData}
use enterprise_multi_tenant.Routes.{forbidden, Server, Backends, is_admin}
use enterprise_multi_tenant.Routes.Accounts.{
  provision_tenant_user, list_tenant_users_endpoint, delete_tenant_user_endpoint,
}
use enterprise_multi_tenant.Routes.Knowledge.{ingest_document, delete_document, clear_all_documents}
use enterprise_multi_tenant.Routes.Tasks.{ingest_document_async}
use enterprise_multi_tenant.Routes.Histories.{clear_tenant_telemetry}
use enterprise_multi_tenant.Routes.Service.{
  Service, Request, provision_user, list_users, delete_user, log_out, ingest, ingest_async,
  ingestion_status, documents, delete_doc, clear_docs, chat, clear_thread, clear_history, traces,
  clear_traces, serve,
}

-- The requests that change what all users of a tenant share, and the list of its users.
abbrev pub is_privileged : Request → Bool
is_privileged (provision_user r) = true
is_privileged (list_users limit offset) = true
is_privileged (delete_user username) = true
is_privileged (log_out token) = false
is_privileged (ingest f) = true
is_privileged (ingest_async task_id f) = true
is_privileged (ingestion_status task_id) = false
is_privileged documents = false
is_privileged (delete_doc doc_id) = true
is_privileged clear_docs = true
is_privileged (chat c) = false
is_privileged (clear_thread thread_id) = false
is_privileged clear_history = false
is_privileged (traces limit) = false
is_privileged clear_traces = true

-- A user who is no administrator is refused, with nothing changed, when asking to provision, list or
-- delete users, to ingest or delete documents, or to clear the documents or the telemetry.
pub privileged_refused :
    (v : Service) (b : Backends) (host : Option Text) (u : TokenData) (q : Request) (s : Server)
    → is_privileged q ≡ true
    → is_admin u ≡ false
    → serve v b host u q s ≡ (some forbidden, s)
unfolding serve ingest_document_async provision_tenant_user list_tenant_users_endpoint
    delete_tenant_user_endpoint ingest_document delete_document clear_all_documents
    clear_tenant_telemetry
privileged_refused v b host u (provision_user r) s h not_admin = rw not_admin refl
privileged_refused v b host u (list_users limit offset) s h not_admin = rw not_admin refl
privileged_refused v b host u (delete_user username) s h not_admin = rw not_admin refl
privileged_refused v b host u (log_out token) s h not_admin = absurd (cc h)
privileged_refused v b host u (ingest f) s h not_admin = rw not_admin refl
privileged_refused v b host u (ingest_async task_id f) s h not_admin = rw not_admin refl
privileged_refused v b host u (ingestion_status task_id) s h not_admin = absurd (cc h)
privileged_refused v b host u documents s h not_admin = absurd (cc h)
privileged_refused v b host u (delete_doc doc_id) s h not_admin = rw not_admin refl
privileged_refused v b host u clear_docs s h not_admin = rw not_admin refl
privileged_refused v b host u (chat c) s h not_admin = absurd (cc h)
privileged_refused v b host u (clear_thread thread_id) s h not_admin = absurd (cc h)
privileged_refused v b host u clear_history s h not_admin = absurd (cc h)
privileged_refused v b host u (traces limit) s h not_admin = absurd (cc h)
privileged_refused v b host u clear_traces s h not_admin = rw not_admin refl
