-- ===== src/Routes/Tasks/Untouched.antt =====
-- A request for asynchronous ingestion changes no users, documents, points or versions by itself.
use enterprise_multi_tenant.Base.{
  ◌+◌, refl, Bool, true, false, not, Option, take, length, ltb, if◌then◌else◌,
}
use enterprise_multi_tenant.Text.{Text, text}
use enterprise_multi_tenant.Dict.{Dict}
use enterprise_multi_tenant.Users.{TokenData}
use enterprise_multi_tenant.IngestionQueue.{Job, Queues}
use enterprise_multi_tenant.Ingestion.{Bytes}
use enterprise_multi_tenant.Routes.{
  http_exception, bad_request, forbidden, Task, Server, Settings, Backends, is_admin, limited,
}
use enterprise_multi_tenant.Routes.Knowledge.{
  identity_call, UploadFile, ContentLength, no_length, malformed, content_length,
}
use enterprise_multi_tenant.Routes.Isolation.{
  Untouched, unmoved_self, Untouched-self, admitted-Untouched,
}
use enterprise_multi_tenant.Routes.Tasks.{
  set_ingestion_task, kept_task, queue_failed_task, processing_task, job_of, acknowledged,
  withdrawn, queued, announced, sized, read_and_queued, ingest_document_async,
}

module _ (other : Text) (b : Backends) (j : Job) where
  acknowledged-Untouched :
      (s : Server) (answers : Bool) → Untouched other s (acknowledged answers j s)
  acknowledged-Untouched s true = record { users = refl; stores = unmoved_self other s.stores }
  acknowledged-Untouched s false = Untouched-self other s

  withdrawn-Untouched :
      (s : Server) (o : Bool × Dict Task) → Untouched other s (withdrawn b j s o).1
  withdrawn-Untouched s (true, stored) =
      let t : Untouched other (record s { stored_tasks = stored })
          (acknowledged b.task_replies.acknowledge j (record s { stored_tasks = stored })) =
        acknowledged-Untouched (record s { stored_tasks = stored }) b.task_replies.acknowledge in
      record { users = t.users; stores = t.stores }
  withdrawn-Untouched s (false, stored) = record {
    users = refl;
    stores = unmoved_self other s.stores;
  }

  queued-Untouched : (s : Server) (o : Bool × Queues) → Untouched other s (queued b j s o).1
  queued-Untouched s (true, queues) = record { users = refl; stores = unmoved_self other s.stores }
  queued-Untouched s (false, queues) =
      let marked : Server = kept_task (queue_failed_task j) (record s { queues = queues }) in
      let t : Untouched other marked (queued b j s (false, queues)).1 = withdrawn-Untouched marked (
        set_ingestion_task b.task_replies.second_write b.redis.require_redis (queue_failed_task j)
          s.stored_tasks) in
      record { users = t.users; stores = t.stores }

  announced-Untouched :
      (content : Bytes) (s : Server) (o : Bool × Dict Task)
      → Untouched other s (announced b j content s o).1
  announced-Untouched content s (true, stored) =
      let t : Untouched other (record s { stored_tasks = stored })
          (announced b j content s (true, stored)).1 =
        queued-Untouched (record s { stored_tasks = stored }) _ in
      record { users = t.users; stores = t.stores }
  announced-Untouched content s (false, stored) = record {
    users = refl;
    stores = unmoved_self other s.stores;
  }

  module _ (settings : Settings) (content : Bytes) where
    sized-Untouched : (s : Server) → Untouched other s (sized settings b j content s).1
    sized-Untouched s = go (ltb settings.max_upload_bytes (length content))
      where
        go :
            (c : Bool)
            → Untouched other s
                (if c
                  then (http_exception bad_request, s)
                  else announced b j content (kept_task (processing_task j) s) (
                      set_ingestion_task b.task_replies.first_write b.redis.require_redis
                        (processing_task j)
                        s.stored_tasks)).1
        go true = Untouched-self other s
        go false =
            let t : Untouched other (kept_task (processing_task j) s)
                (announced b j content (kept_task (processing_task j) s) (
                  set_ingestion_task b.task_replies.first_write b.redis.require_redis
                    (processing_task j) s.stored_tasks)).1 =
              announced-Untouched content (kept_task (processing_task j) s) _ in
            record { users = t.users; stores = t.stores }

    read_and_queued-Untouched :
        (header : ContentLength) (s : Server)
        → Untouched other s (read_and_queued settings b j content header s).1
    read_and_queued-Untouched malformed s = Untouched-self other s
    read_and_queued-Untouched no_length s = sized-Untouched s
    read_and_queued-Untouched (content_length n) s = go (ltb (settings.max_upload_bytes + 1024) n)
      where
        go :
            (c : Bool)
            → Untouched other s
                (if c then (http_exception bad_request, s) else sized settings b j content s).1
        go true = Untouched-self other s
        go false = sized-Untouched s

pub async-Untouched :
    (other : Text) (settings : Settings) (b : Backends) (host : Option Text) (task_id : Text)
    (f : UploadFile) (u : TokenData) (s : Server)
    → Untouched other s (ingest_document_async settings b host task_id f u s).1
unfolding ingest_document_async limited
async-Untouched other settings b host task_id f u s = go (is_admin u)
  where
    content : Bytes
    content = take (settings.max_upload_bytes + 1) f.content

    go :
        (c : Bool)
        → Untouched other s
            (if not c
              then (http_exception forbidden, s)
              else limited settings.chat_rate_limit
                  (identity_call b (text "ingest") host u)
                  s
                  (read_and_queued settings b (job_of task_id f u) content f.header)).1
    go false = Untouched-self other s
    go true =
        admitted-Untouched other s
          (read_and_queued settings b (job_of task_id f u) content f.header) _
          (λ c.
            read_and_queued-Untouched other b (job_of task_id f u) settings content f.header
              (record s { counters = c }))
