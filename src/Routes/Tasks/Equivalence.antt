-- ===== src/Routes/Tasks/Equivalence.antt =====
-- An upload that is queued and worked off does what the same upload does at once.
use enterprise_multi_tenant.Base.{
  ℕ, ◌+◌, ◌≡◌, ◌≢◌, ◌∙◌, refl, ap, Bool, true, false, List, [], ◌∷◌, ◌++◌, Option, some, take,
}
use enterprise_multi_tenant.Text.{Text, text_eq_refl}
use enterprise_multi_tenant.Dict.{Dict, get, put, get-put}
use enterprise_multi_tenant.Users.{TokenData}
use enterprise_multi_tenant.VectorStore.{Point, Filter}
use enterprise_multi_tenant.IngestionQueue.{
  Job, Queues, Claim, job, answering, enqueue_ingestion_job, claim_ingestion_job,
  reclaim_stale_ingestion_jobs, pop_last, get_ingestion_payload, given_bytes,
}
use enterprise_multi_tenant.Ingestion.{
  Attempt, returned, failed, Bytes, Pipeline, Stores, Summary, process_document_ingestion,
}
use enterprise_multi_tenant.Routes.{answer, Task, Server, Settings, Backends}
use enterprise_multi_tenant.Routes.Knowledge.{UploadFile, upload_of}
use enterprise_multi_tenant.Routes.Tasks.{
  set_ingestion_task, kept_task, processing_task, completed_task, failed_task, job_of, acknowledged,
  queued, ingest_document_async, reported, settled, upload_of_job, run_async_ingestion, begun,
  handled, worked, work,
}
use enterprise_multi_tenant.Routes.Tasks.Accepted.{Queued, async_ok}

-- The state of a task after its run.
abbrev pub outcome : Job → Attempt Summary → Task
outcome j (returned m) = completed_task j m
outcome j (failed e) = failed_task j

claim_one :
    (before : Job → Job → Bool) (now : ℕ) (j : Job) (processing : List Job) (payloads : Dict Bytes)
    → (q : Queues) × (claim_ingestion_job before answering now
          (record { queue = j ∷ []; processing = processing; leases = []; payloads = payloads })
        ≡ (job j, q))
      × (q.payloads ≡ payloads)
unfolding claim_ingestion_job reclaim_stale_ingestion_jobs pop_last
claim_one before now j processing payloads = (_, refl, refl)

-- The only job of a queue without leases is claimed with its content.
claim_only :
    (before : Job → Job → Bool) (now : ℕ) (j : Job) (content : Bytes) (q : Queues)
    → q.queue ≡ []
    → q.leases ≡ []
    → (q' : Queues) × (claim_ingestion_job before answering now (enqueue_ingestion_job j content q)
        ≡ (job j, q'))
      × (q'.payloads ≡ put j.task_id content q.payloads)
unfolding enqueue_ingestion_job
claim_only before now j content q empty free =
    let (q', claims, payloads) =
      claim_one before now j q.processing (put j.task_id content q.payloads) in
    (
      q',
      ap
            (λ qs.
              claim_ingestion_job before answering now
                (record q { queue = qs ++ j ∷ []; payloads = put j.task_id content q.payloads }))
            empty
          ∙ ap
              (λ ls. claim_ingestion_job before answering now (record q {
                queue = j ∷ [];
                leases = ls;
                payloads = put j.task_id content q.payloads;
              }))
              free
          ∙ claims,
      payloads,
    )

given_some : (content : Bytes) → content ≢ [] → given_bytes (some content) ≡ some content
given_some [] h = absurd (h refl)
given_some (c ∷ cs) h = refl

acknowledged_stores :
    (answers : Bool) (j : Job) (s : Server) → (acknowledged answers j s).stores ≡ s.stores
acknowledged_stores true j s = refl
acknowledged_stores false j s = refl

acknowledged_tasks :
    (answers : Bool) (j : Job) (s : Server)
    → (acknowledged answers j s).stored_tasks ≡ s.stored_tasks
acknowledged_tasks true j s = refl
acknowledged_tasks false j s = refl

set_answered :
    (require : Bool) (t : Task) (tasks : Dict Task)
    → set_ingestion_task true require t tasks ≡ (true, put t.task_id t tasks)
unfolding set_ingestion_task
set_answered require t tasks = refl

-- With Redis answering, the state of the task after its run is its outcome.
settled_ok :
    (b : Backends) (j : Job) (s : Server) (o : Attempt Summary × Stores)
    → b.task_replies.second_write ≡ true
    → b.task_replies.third_write ≡ true
    → ((settled b j s o).stores ≡ o.1)
      × (get j.task_id (settled b j s o).stored_tasks ≡ some (outcome j o.0))
settled_ok b j s (returned m, stores) second third =
    let done : set_ingestion_task b.task_replies.second_write b.redis.require_redis
          (completed_task j m) s.stored_tasks
        ≡ (true, put j.task_id (completed_task j m) s.stored_tasks) =
      ap (λ a. set_ingestion_task a b.redis.require_redis (completed_task j m) s.stored_tasks)
        second
      ∙ set_answered b.redis.require_redis (completed_task j m) s.stored_tasks in
    let after : Server = kept_task (completed_task j m) (record s { stores = stores }) in
    (
      ap (λ x. (reported b j after x).stores) done,
      ap (λ x. get j.task_id (reported b j after x).stored_tasks) done
          ∙ get-put j.task_id j.task_id (completed_task j m) s.stored_tasks
          ∙ rw (text_eq_refl j.task_id) refl,
    )
settled_ok b j s (failed e, stores) second third = (
  refl,
  ap
        (λ a.
          get j.task_id
            (set_ingestion_task a b.redis.require_redis (failed_task j) s.stored_tasks).1)
        third
      ∙ ap (λ x. get j.task_id x.1)
          (set_answered b.redis.require_redis (failed_task j) s.stored_tasks)
      ∙ get-put j.task_id j.task_id (failed_task j) s.stored_tasks
      ∙ rw (text_eq_refl j.task_id) refl,
)

module _ (upsert : List Point → List Point → List Point) (delete : Filter → List Point → List Point)
    (pipeline : Pipeline) where
  handled_ok :
      (b : Backends) (doc_id : Text) (j : Job) (content : Bytes) (s : Server)
      → b.task_replies.first_write ≡ true
      → b.task_replies.second_write ≡ true
      → b.task_replies.third_write ≡ true
      → let run =
          process_document_ingestion upsert delete pipeline b.replies
            (upload_of_job doc_id b.now j content)
            s.stores in
        let after = handled upsert delete pipeline b doc_id j s (some content) in
        (after.stores ≡ run.1) × (get j.task_id after.stored_tasks ≡ some (outcome j run.0))
  unfolding run_async_ingestion
  handled_ok b doc_id j content s first second third =
      let started : set_ingestion_task b.task_replies.first_write b.redis.require_redis
            (processing_task j) s.stored_tasks
          ≡ (true, put j.task_id (processing_task j) s.stored_tasks) =
        ap (λ a. set_ingestion_task a b.redis.require_redis (processing_task j) s.stored_tasks)
          first
        ∙ set_answered b.redis.require_redis (processing_task j) s.stored_tasks in
      let t : Server = record (kept_task (processing_task j) s) {
        stored_tasks = put j.task_id (processing_task j) s.stored_tasks;
      } in
      let (stores, task) =
        settled_ok b j t
          (process_document_ingestion upsert delete pipeline b.replies
            (upload_of_job doc_id b.now j content) s.stores)
          second third in
      (
        ap
              (λ x.
                (begun upsert delete pipeline b doc_id j content (kept_task (processing_task j) s)
                  x).stores)
              started
            ∙ stores,
        ap
              (λ x.
                get j.task_id
                  (begun upsert delete pipeline b doc_id j content (kept_task (processing_task j) s)
                    x).stored_tasks)
              started
            ∙ task,
      )

  worked_ok :
      (b : Backends) (doc_id : Text) (j : Job) (content : Bytes) (s : Server) (o : Claim × Queues)
      (q : Queues)
      → o ≡ (job j, q)
      → get_ingestion_payload j.task_id q ≡ some content
      → b.task_replies.first_write ≡ true
      → b.task_replies.second_write ≡ true
      → b.task_replies.third_write ≡ true
      → let run =
          process_document_ingestion upsert delete pipeline b.replies
            (upload_of_job doc_id b.now j content)
            s.stores in
        let after = worked upsert delete pipeline b doc_id s o in
        (after.stores ≡ run.1) × (get j.task_id after.stored_tasks ≡ some (outcome j run.0))
  worked_ok b doc_id j content s o q claims payload first second third =
      let t : Server = record s { queues = q } in
      let (stores, task) = handled_ok b doc_id j content t first second third in
      let same : (worked upsert delete pipeline b doc_id s o)
          ≡ acknowledged b.task_replies.acknowledge j
              (handled upsert delete pipeline b doc_id j t (some content)) =
        ap (worked upsert delete pipeline b doc_id s) claims
        ∙ ap
            (λ x.
              acknowledged b.task_replies.acknowledge j
                (handled upsert delete pipeline b doc_id j t x))
            payload in
      (
        ap (λ x. x.stores) same
            ∙ acknowledged_stores b.task_replies.acknowledge j
                (handled upsert delete pipeline b doc_id j t (some content))
            ∙ stores,
        ap (λ x. get j.task_id x.stored_tasks) same
            ∙ ap (get j.task_id) (
                acknowledged_tasks b.task_replies.acknowledge j
                  (handled upsert delete pipeline b doc_id j t (some content)))
            ∙ task,
      )

  -- An upload with some content that is accepted for asynchronous ingestion, into a queue with no other
  -- job and no lease, has after one round of the worker, with Redis answering the writes of its state,
  -- done to the stores what the ingestion of the same upload does at once, and its task has the
  -- outcome: completed, with the document and the number of chunks, or failed.
  pub async_equals_sync :
      (settings : Settings) (before : Job → Job → Bool) (b b' : Backends) (host : Option Text)
      (task_id : Text) (f : UploadFile) (u : TokenData) (s queued : Server) (t : Task)
      → ingest_document_async settings b host task_id f u s ≡ (answer t, queued)
      → s.queues.queue ≡ []
      → s.queues.leases ≡ []
      → take (settings.max_upload_bytes + 1) f.content ≢ []
      → b'.task_replies.first_write ≡ true
      → b'.task_replies.second_write ≡ true
      → b'.task_replies.third_write ≡ true
      → let content = take (settings.max_upload_bytes + 1) f.content in
        let run =
          process_document_ingestion upsert delete pipeline b'.replies
            (upload_of u b'.now f content)
            s.stores in
        let after = work upsert delete pipeline before b' f.doc_id queued in
        (after.stores ≡ run.1)
        × (get task_id after.stored_tasks ≡ some (outcome (job_of task_id f u) run.0))
  unfolding work
  async_equals_sync settings before b b' host task_id f u s queued t h empty free given first second
        third =
      let content : Bytes = take (settings.max_upload_bytes + 1) f.content in
      let j : Job = job_of task_id f u in
      let q : Queued s queued j content = async_ok settings b host task_id f u s queued t h in
      let (q', claims, payloads) = claim_only before b'.now j content s.queues empty free in
      let run : Stores → Attempt Summary × Stores =
        process_document_ingestion upsert delete pipeline b'.replies
          (upload_of u b'.now f content) in
      let found : get_ingestion_payload task_id q' ≡ some content =
        ap (λ x. given_bytes (get task_id x)) payloads
        ∙ ap given_bytes (stored_content task_id content s.queues.payloads)
        ∙ given_some content given in
      let (stores, task) =
        worked_ok b' f.doc_id j content queued
          (claim_ingestion_job before answering b'.now queued.queues) q'
          (ap (claim_ingestion_job before answering b'.now) q.queues ∙ claims) found first second
          third in
      (stores ∙ ap (λ x. (run x).1) q.stores, task ∙ ap (λ x. some (outcome j (run x).0)) q.stores)
    where
      stored_content : (k : Text) (c : Bytes) (d : Dict Bytes) → get k (put k c d) ≡ some c
      stored_content k c d = get-put k k c d ∙ rw (text_eq_refl k) refl
