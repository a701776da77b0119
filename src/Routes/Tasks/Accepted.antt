-- ===== src/Routes/Tasks/Accepted.antt =====
-- What a request for asynchronous ingestion has left when it is answered.
use enterprise_multi_tenant.Base.{
  ◌+◌, ◌≡◌, ◌≢◌, ap, sym, Bool, true, false, not, Option, take, length, ltb, if◌then◌else◌,
}
use enterprise_multi_tenant.Text.{Text}
use enterprise_multi_tenant.Dict.{Dict}
use enterprise_multi_tenant.Users.{TokenData}
use enterprise_multi_tenant.RateLimit.{Counters}
use enterprise_multi_tenant.IngestionQueue.{Job, enqueue_ingestion_job}
use enterprise_multi_tenant.Ingestion.{Bytes, Reply, applied, lost, refused}
use enterprise_multi_tenant.Routes
use enterprise_multi_tenant.Routes.{
  Response, answer, http_exception, Task, Server, Settings, Backends, is_admin, admitted, limited,
}
use enterprise_multi_tenant.Routes.Knowledge.{
  UploadFile, ContentLength, no_length, malformed, content_length,
}
use enterprise_multi_tenant.Routes.Tasks.{
  kept_task, processing_task, queue_failed_task, job_of, enqueued, withdrawn, queued, announced,
  sized, read_and_queued, ingest_document_async,
}

-- What a request that is answered has left: the job with its content in the queue.
pub record Queued (s s' : Server) (j : Job) (content : Bytes) : Type 0 where
  pub queues : s'.queues ≡ enqueue_ingestion_job j content s.queues
  pub stores : s'.stores ≡ s.stores

withdrawn_fails :
    (b : Backends) (j : Job) (s s' : Server) (t : Task) (o : Bool × Dict Task)
    → withdrawn b j s o ≢ (answer t, s')
withdrawn_fails b j s s' t (true, stored) h = cc h
withdrawn_fails b j s s' t (false, stored) h = cc h

queued_ok :
    (b : Backends) (j : Job) (content : Bytes) (s s' : Server) (t : Task) (reply : Reply)
    → queued b j s (enqueued reply j content s.queues) ≡ (answer t, s')
    → Queued s s' j content
queued_ok b j content s s' t applied h = record {
  queues = ap (λ x. x.1.queues) (sym h);
  stores = ap (λ x. x.1.stores) (sym h);
}
queued_ok b j content s s' t lost h = absurd (
    withdrawn_fails b j
      (kept_task (queue_failed_task j)
        (record s { queues = enqueue_ingestion_job j content s.queues }))
      s' t _ h)
queued_ok b j content s s' t refused h =
    absurd (withdrawn_fails b j (kept_task (queue_failed_task j) s) s' t _ h)

announced_ok :
    (b : Backends) (j : Job) (content : Bytes) (s s' : Server) (t : Task) (o : Bool × Dict Task)
    → announced b j content s o ≡ (answer t, s')
    → Queued s s' j content
announced_ok b j content s s' t (true, stored) h =
    let q : Queued (record s { stored_tasks = stored }) s' j content =
      queued_ok b j content _ s' t b.task_replies.enqueue h in
    record { queues = q.queues; stores = q.stores }
announced_ok b j content s s' t (false, stored) h = absurd (cc h)

if_answer : {A : Type 0} (c : Bool) (x y z : A) → (if c then x else y) ≡ z → x ≢ z → y ≡ z
if_answer true x y z h differs = absurd (differs h)
if_answer false x y z h differs = h

abbrev refusal : {A : Type 0} → Routes.Status → Server → Response A × Server
refusal e s = (http_exception e, s)

refused-ne-answer :
    {A : Type 0} (e : Routes.Status) (a : A) (s s' : Server) → refusal e s ≢ (answer a, s')
refused-ne-answer e a s s' h = cc h

sized_ok :
    (settings : Settings) (b : Backends) (j : Job) (content : Bytes) (s s' : Server) (t : Task)
    → sized settings b j content s ≡ (answer t, s')
    → Queued s s' j content
sized_ok settings b j content s s' t h =
    let q : Queued (kept_task (processing_task j) s) s' j content =
      announced_ok b j content (kept_task (processing_task j) s) s' t _ (
        if_answer (ltb settings.max_upload_bytes (length content)) _ _ _ h
          (refused-ne-answer Routes.bad_request t s s')) in
    record { queues = q.queues; stores = q.stores }

read_ok :
    (settings : Settings) (b : Backends) (j : Job) (content : Bytes) (header : ContentLength)
    (s s' : Server) (t : Task)
    → read_and_queued settings b j content header s ≡ (answer t, s')
    → Queued s s' j content
read_ok settings b j content malformed s s' t h = absurd (cc h)
read_ok settings b j content no_length s s' t h = sized_ok settings b j content s s' t h
read_ok settings b j content (content_length n) s s' t h = sized_ok settings b j content s s' t (
    if_answer (ltb (settings.max_upload_bytes + 1024) n) _ _ _ h
      (refused-ne-answer Routes.bad_request t s s'))

admitted_ok :
    (settings : Settings) (b : Backends) (j : Job) (content : Bytes) (header : ContentLength)
    (s s' : Server) (t : Task) (o : Bool × Counters)
    → admitted s (read_and_queued settings b j content header) o ≡ (answer t, s')
    → Queued s s' j content
admitted_ok settings b j content header s s' t (true, counters) h =
    let q : Queued (record s { counters = counters }) s' j content =
      read_ok settings b j content header (record s { counters = counters }) s' t h in
    record { queues = q.queues; stores = q.stores }
admitted_ok settings b j content header s s' t (false, counters) h = absurd (cc h)

pub async_ok :
    (settings : Settings) (b : Backends) (host : Option Text) (task_id : Text) (f : UploadFile)
    (u : TokenData) (s s' : Server) (t : Task)
    → ingest_document_async settings b host task_id f u s ≡ (answer t, s')
    → Queued s s' (job_of task_id f u) (take (settings.max_upload_bytes + 1) f.content)
unfolding ingest_document_async limited
async_ok settings b host task_id f u s s' t h =
    admitted_ok settings b (job_of task_id f u) (take (settings.max_upload_bytes + 1) f.content)
      f.header s s' t _
      (if_answer (not (is_admin u)) _ _ _ h (refused-ne-answer Routes.forbidden t s s'))
