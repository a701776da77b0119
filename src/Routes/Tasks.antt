-- ===== src/Routes/Tasks.antt =====
-- Asynchronous ingestion: the states of tasks in app/redis_client.py, and in app/api/routes.py the
-- handlers `ingest_document_async` and `get_ingestion_status` and the worker. Texts of errors are
-- left out but for their presence; so are the times in a task.
pub mod Accepted
pub mod Equivalence
pub mod Untouched
use enterprise_multi_tenant.Base.{
  ℕ, ◌+◌, Bool, true, false, not, ◌&&◌, ◌||◌, List, Option, none, some, take, length, ltb,
  if◌then◌else◌,
}
use enterprise_multi_tenant.Text.{Text, text, text_eq}
use enterprise_multi_tenant.Dict.{Dict, get, put}
use enterprise_multi_tenant.Users.{TokenData}
use enterprise_multi_tenant.VectorStore.{Point, Filter}
use enterprise_multi_tenant.IngestionQueue.{
  Job, Queues, Claim, raised, no_job, job, answering, enqueue_ingestion_job, claim_ingestion_job,
  get_ingestion_payload, acknowledge_ingestion_job,
}
use enterprise_multi_tenant.Ingestion.{
  Attempt, returned, failed, Bytes, Pipeline, Stores, Summary, Upload, Reply, applied, lost,
  refused, process_document_ingestion,
}
use enterprise_multi_tenant.Routes.{
  Response, answer, http_exception, forbidden, bad_request, not_found, internal_server_error,
  service_unavailable, Task, TaskReplies, Server, Settings, Backends, is_admin, limited,
}
use enterprise_multi_tenant.Routes.Knowledge.{
  UploadFile, ContentLength, no_length, malformed, content_length, filename_of, identity_call,
}

-- `set_ingestion_task`, by whether it returns.
unfoldable pub set_ingestion_task : Bool → Bool → Task → Dict Task → Bool × Dict Task
set_ingestion_task answers require_redis t tasks =
    if answers then (true, put t.task_id t tasks) else (not require_redis, tasks)

-- `get_ingestion_task`, none where it raises.
unfoldable pub get_ingestion_task : Bool → Bool → Text → Dict Task → Option (Option Task)
get_ingestion_task answers require_redis task_id tasks =
    if answers then some (get task_id tasks) else if require_redis then none else some none

abbrev pub task_of : Job → Text → ℕ → Option Text → Option Text → Task
task_of j status chunks doc_id error = record {
  task_id = j.task_id;
  status = status;
  filename = j.filename;
  chunks_ingested = chunks;
  doc_id = doc_id;
  error = error;
  tenant_id = j.tenant_id;
  user_id = j.user_id;
}

abbrev pub processing_task : Job → Task
processing_task j = task_of j (text "processing") 0 none none

abbrev pub failed_task : Job → Task
failed_task j =
    task_of j (text "failed") 0 none
      (some (text "Document ingestion failed. Review server logs or retry the upload."))

abbrev pub unavailable_task : Job → Task
unavailable_task j =
    task_of j (text "failed") 0 none (some (text "Ingestion payload is unavailable."))

abbrev pub queue_failed_task : Job → Task
queue_failed_task j =
    task_of j (text "failed") 0 none
      (some (text "Ingestion queue is unavailable. Please retry shortly."))

abbrev pub completed_task : Job → Summary → Task
completed_task j m = task_of j (text "completed") m.chunks_ingested (some m.doc_id) none

-- `_ingestion_tasks[task_id] = ...`
abbrev pub kept_task : Task → Server → Server
kept_task t s = record s { tasks = put t.task_id t s.tasks }

abbrev pub job_of : Text → UploadFile → TokenData → Job
job_of task_id f u = record {
  task_id = task_id;
  filename = filename_of f.filename;
  allowed_roles = f.allowed_roles;
  tenant_id = u.tenant_id;
  user_id = u.user_id;
  attempt = 0;
}

abbrev pub enqueued : Reply → Job → Bytes → Queues → Bool × Queues
enqueued applied j content q = (true, enqueue_ingestion_job j content q)
enqueued lost j content q = (false, enqueue_ingestion_job j content q)
enqueued refused j content q = (false, q)

abbrev pub acknowledged : Bool → Job → Server → Server
acknowledged true j s = record s { queues = acknowledge_ingestion_job j s.queues }
acknowledged false j s = s

-- The answer after a job could not be enqueued, once its task is marked.
abbrev pub withdrawn : Backends → Job → Server → Bool × Dict Task → Response Task × Server
withdrawn b j s (true, stored) = (
  http_exception service_unavailable,
  acknowledged b.task_replies.acknowledge j (record s { stored_tasks = stored }),
)
withdrawn b j s (false, stored) =
    (http_exception internal_server_error, record s { stored_tasks = stored })

abbrev pub queued : Backends → Job → Server → Bool × Queues → Response Task × Server
queued b j s (true, queues) = (answer (processing_task j), record s { queues = queues })
queued b j s (false, queues) =
    withdrawn b j (kept_task (queue_failed_task j) (record s { queues = queues })) (
      set_ingestion_task b.task_replies.second_write b.redis.require_redis (queue_failed_task j)
        s.stored_tasks)

abbrev pub announced : Backends → Job → Bytes → Server → Bool × Dict Task → Response Task × Server
announced b j content s (true, stored) =
    queued b j (record s { stored_tasks = stored })
      (enqueued b.task_replies.enqueue j content s.queues)
announced b j content s (false, stored) =
    (http_exception internal_server_error, record s { stored_tasks = stored })

abbrev pub sized : Settings → Backends → Job → Bytes → Server → Response Task × Server
sized settings b j content s =
    if ltb settings.max_upload_bytes (length content)
    then (http_exception bad_request, s)
    else announced b j content (kept_task (processing_task j) s) (
        set_ingestion_task b.task_replies.first_write b.redis.require_redis (processing_task j)
          s.stored_tasks)

-- Here a header that is no number is an exception that is not caught.
abbrev pub read_and_queued :
    Settings → Backends → Job → Bytes → ContentLength → Server → Response Task × Server
read_and_queued settings b j content malformed s = (http_exception internal_server_error, s)
read_and_queued settings b j content no_length s = sized settings b j content s
read_and_queued settings b j content (content_length n) s =
    if ltb (settings.max_upload_bytes + 1024) n
    then (http_exception bad_request, s)
    else sized settings b j content s

-- `ingest_document_async`, with the task's identifier that it draws.
unfoldable pub ingest_document_async :
    Settings
    → Backends
    → Option Text
    → Text
    → UploadFile
    → TokenData
    → Server
    → Response Task × Server
unfolding set_ingestion_task
ingest_document_async settings b host task_id f current_user s =
    if not (is_admin current_user)
    then (http_exception forbidden, s)
    else limited settings.chat_rate_limit (identity_call b (text "ingest") host current_user) s (
        read_and_queued settings b (job_of task_id f current_user)
          (take (settings.max_upload_bytes + 1) f.content) f.header)

abbrev found_task : Text → Server → Option Task → Option Task
found_task task_id s none = get task_id s.tasks
found_task task_id s (some t) = some t

abbrev pub visible_task : TokenData → Option Task → Response Task
visible_task u none = http_exception not_found
visible_task u (some t) =
    if not (text_eq t.tenant_id u.tenant_id)
      || (not (text_eq t.user_id u.user_id) && not (is_admin u))
    then http_exception not_found
    else answer t

abbrev pub status_of : Text → TokenData → Server → Option (Option Task) → Response Task
status_of task_id u s none = http_exception service_unavailable
status_of task_id u s (some found) = visible_task u (found_task task_id s found)

-- `get_ingestion_status`
unfoldable pub get_ingestion_status : Backends → Text → TokenData → Server → Response Task × Server
unfolding get_ingestion_task
get_ingestion_status b task_id current_user s = (
  status_of task_id current_user s
      (get_ingestion_task b.task_replies.read b.redis.require_redis task_id s.stored_tasks),
  s,
)

abbrev pub failed_run : Backends → Job → Server → Server
failed_run b j s = record s {
  tasks = put j.task_id (failed_task j) s.tasks;
  stored_tasks =
      (set_ingestion_task b.task_replies.third_write b.redis.require_redis (failed_task j)
        s.stored_tasks).1;
}

-- A state that cannot be stored counts as a failure of the run.
abbrev pub reported : Backends → Job → Server → Bool × Dict Task → Server
reported b j s (true, stored) = record s { stored_tasks = stored }
reported b j s (false, stored) = failed_run b j (record s { stored_tasks = stored })

abbrev pub settled : Backends → Job → Server → Attempt Summary × Stores → Server
settled b j s (returned m, stores) =
    reported b j (kept_task (completed_task j m) (record s { stores = stores })) (
      set_ingestion_task b.task_replies.second_write b.redis.require_redis (completed_task j m)
        s.stored_tasks)
settled b j s (failed e, stores) = failed_run b j (record s { stores = stores })

abbrev pub upload_of_job : Text → ℕ → Job → Bytes → Upload
upload_of_job doc_id now j content = record {
  content = content;
  filename = j.filename;
  allowed_roles = j.allowed_roles;
  tenant_id = j.tenant_id;
  user_id = j.user_id;
  doc_id = doc_id;
  now = now;
}

module _ (upsert : List Point → List Point → List Point) (delete : Filter → List Point → List Point)
    (pipeline : Pipeline) where
  -- `_run_async_ingestion`
  unfoldable pub run_async_ingestion : Backends → Text → Job → Bytes → Server → Server
  unfolding set_ingestion_task
  run_async_ingestion b doc_id j content s = settled b j s (
      process_document_ingestion upsert delete pipeline b.replies
        (upload_of_job doc_id b.now j content) s.stores)

  -- A run begins once its state is stored; where that raises, there is no run.
  abbrev pub begun : Backends → Text → Job → Bytes → Server → Bool × Dict Task → Server
  begun b doc_id j content s (true, stored) =
      run_async_ingestion b doc_id j content (record s { stored_tasks = stored })
  begun b doc_id j content s (false, stored) = record s { stored_tasks = stored }

  abbrev pub handled : Backends → Text → Job → Server → Option Bytes → Server
  handled b doc_id j s none = record s {
    tasks = put j.task_id (unavailable_task j) s.tasks;
    stored_tasks =
        (set_ingestion_task b.task_replies.first_write b.redis.require_redis (unavailable_task j)
          s.stored_tasks).1;
  }
  handled b doc_id j s (some content) = begun b doc_id j content (kept_task (processing_task j) s) (
      set_ingestion_task b.task_replies.first_write b.redis.require_redis (processing_task j)
        s.stored_tasks)

  -- Whatever becomes of the run, the job is acknowledged.
  abbrev pub worked : Backends → Text → Server → Claim × Queues → Server
  worked b doc_id s (raised, queues) = record s { queues = queues }
  worked b doc_id s (no_job, queues) = record s { queues = queues }
  worked b doc_id s (job j, queues) =
      acknowledged b.task_replies.acknowledge j
        (handled b doc_id j (record s { queues = queues }) (get_ingestion_payload j.task_id queues))

  -- A round of `run_ingestion_worker`, whose claim Redis answers throughout.
  unfoldable pub work : (Job → Job → Bool) → Backends → Text → Server → Server
  work before b doc_id s = worked b doc_id s (claim_ingestion_job before answering b.now s.queues)
