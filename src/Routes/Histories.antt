-- ===== src/Routes/Histories.antt =====
-- The handlers of app/api/routes.py for conversations and for telemetry.
use enterprise_multi_tenant.Base.{ℕ, Bool, not, List, some, if◌then◌else◌}
use enterprise_multi_tenant.Text.{Text}
use enterprise_multi_tenant.Users.{TokenData}
use enterprise_multi_tenant.Chat.Keys.{
  JsonItem, build_backend_thread_id, build_backend_thread_scope,
}
use enterprise_multi_tenant.Threads.{delete_thread_history, delete_all_tenant_user_history}
use enterprise_multi_tenant.Telemetry.{Tracker, TraceRecord, get_traces_for_tenant, clear_traces}
use enterprise_multi_tenant.Telemetry.Metrics.{Summary, get_metrics_summary}
use enterprise_multi_tenant.Routes.{
  Response, answer, http_exception, forbidden, Server, Backends, is_admin,
}
use enterprise_multi_tenant.Routes.Knowledge.{bumped}

module _ (dumps : List JsonItem → Text) (hexdigest : Text → Text) where
  -- `clear_chat_thread`, which answers with the thread.
  unfoldable pub clear_chat_thread : Backends → Text → TokenData → Server → Response Text × Server
  unfolding build_backend_thread_id
  clear_chat_thread b thread_id current_user s = (
    answer thread_id,
    record s {
      checkpoints =
          delete_thread_history b.history_answers
            (build_backend_thread_id dumps hexdigest current_user.tenant_id current_user.user_id
              thread_id)
            s.checkpoints;
      stores = bumped b current_user.tenant_id s.stores;
    },
  )

  -- `clear_all_chat_history`
  unfoldable pub clear_all_chat_history :
      Backends → TokenData → Server → Response (Unit {0}) × Server
  unfolding build_backend_thread_scope
  clear_all_chat_history b current_user s = (
    answer tt,
    record s {
      checkpoints =
          delete_all_tenant_user_history b.history_answers
            (build_backend_thread_scope dumps hexdigest current_user.tenant_id current_user.user_id)
            s.checkpoints;
      stores = bumped b current_user.tenant_id s.stores;
    },
  )

-- `get_tenant_traces`
unfoldable pub get_tenant_traces : ℕ → TokenData → Server → Response (List TraceRecord) × Server
unfolding get_traces_for_tenant
get_tenant_traces limit current_user s =
    (answer (get_traces_for_tenant current_user.tenant_id limit s.tracker), s)

abbrev pub purged_traces : Server → ℕ × Tracker → Response ℕ × Server
purged_traces s (purged_count, tracker) = (answer purged_count, record s { tracker = tracker })

-- `get_tenant_metrics`; `langfuse` says whether the export is configured.
unfoldable pub get_tenant_metrics : Bool → TokenData → Server → Response Summary × Server
unfolding get_metrics_summary
get_tenant_metrics langfuse current_user s =
    (answer (get_metrics_summary langfuse (some current_user.tenant_id) s.tracker), s)

-- `clear_tenant_telemetry`, which answers with the count.
unfoldable pub clear_tenant_telemetry : TokenData → Server → Response ℕ × Server
unfolding clear_traces
clear_tenant_telemetry current_user s =
    if not (is_admin current_user)
    then (http_exception forbidden, s)
    else purged_traces s (clear_traces (some current_user.tenant_id) s.tracker)
