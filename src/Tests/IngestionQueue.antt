-- ===== src/Tests/IngestionQueue.antt =====
-- The queue of ingestion jobs, run.
use enterprise_multi_tenant.Base.{
  ◌≤◌, ◌+◌, ◌≡◌, refl, Bool, true, false, ◌&&◌, [], ◌∷◌, none, any, count, if◌then◌else◌,
}
use enterprise_multi_tenant.Base.Sorting.{insert_by}
use enterprise_multi_tenant.Text.{Text, text, text_eq, starts_with}
use enterprise_multi_tenant.IngestionQueue.{
  ClaimReplies, answering, quiet, breaks, at_rpush, interrupted, lrem, job, Job, Queues, job_eq,
  is_lease_of, zadd, pop_last, enqueue_ingestion_job, claim_ingestion_job,
  reclaim_stale_ingestion_jobs, acknowledge_ingestion_job, get_ingestion_payload,
}
use enterprise_multi_tenant.IngestionQueue.Leases.{IsValid, held, of_task, loses}
use enterprise_multi_tenant.IngestionQueue.Recovery.{
  empty_queues, Reach, here, next, enqueue, claim, lapsed, Reach-IsValid, task_conserved,
  lapsed_job_requeued, late_acknowledgement,
}

abbrev by_task : Job → Job → Bool
by_task j k = starts_with k.task_id j.task_id

abbrev job_of : Text → Job
job_of id = record {
  task_id = id;
  filename = text "a.pdf";
  allowed_roles = text "admin";
  tenant_id = text "acme";
  user_id = text "ann";
  attempt = 0;
}

abbrev uploaded : Queues
uploaded = enqueue_ingestion_job (job_of (text "t1")) (1 ∷ 2 ∷ []) empty_queues

-- A worker claims the job at second 10 and stops.
abbrev in_work : Queues
in_work = (claim_ingestion_job by_task answering 10 uploaded).1

abbrev reached : Reach by_task true in_work
reached =
    next (next here (enqueue (job_of (text "t1")) (1 ∷ 2 ∷ []) empty_queues refl))
      (claim answering 10 uploaded)

Reach-IsValid_example : IsValid true in_work
Reach-IsValid_example = Reach-IsValid by_task reached

in_work-IsValid : IsValid true in_work
in_work-IsValid = Reach-IsValid by_task reached

-- The reclaiming stops before the push.
abbrev failing : ClaimReplies
failing = record answering { outage = breaks 0 at_rpush false; require_redis = false }

lost_task : held (text "t1") (claim_ingestion_job by_task failing 2000 in_work).1 ≡ 0
unfolding claim_ingestion_job pop_last reclaim_stale_ingestion_jobs interrupted
    enqueue_ingestion_job zadd lrem insert_by job_eq text_eq
lost_task = refl

task_conserved_example :
    (held (text "t1") (claim_ingestion_job by_task failing 2000 in_work).1
      ≤ held (text "t1") in_work)
    × (held (text "t1") in_work
        ≤ held (text "t1") (claim_ingestion_job by_task failing 2000 in_work).1
          + (if loses failing.outage then 1 else 0))
    × (held (text "t1") (enqueue_ingestion_job (job_of (text "t2")) [] in_work)
        ≡ held (text "t1") in_work + (if of_task (text "t1") (job_of (text "t2")) then 1 else 0))
    × (held (text "t1") (acknowledge_ingestion_job (job_of (text "t2")) in_work)
          + (if any (job_eq (job_of (text "t2"))) in_work.processing
                && of_task (text "t1") (job_of (text "t2"))
              then 1
              else 0)
        ≡ held (text "t1") in_work)
task_conserved_example =
    task_conserved by_task true failing (text "t1") (job_of (text "t2")) [] 2000 in_work
      in_work-IsValid

-- Its lease has lapsed at second 910.
lease_lapsed : any (lapsed 910 (job_of (text "t1"))) in_work.leases ≡ true
unfolding claim_ingestion_job pop_last reclaim_stale_ingestion_jobs enqueue_ingestion_job zadd
    insert_by job_eq text_eq
lease_lapsed = refl

lapsed_job_requeued_example :
    (count (of_task (text "t1")) (reclaim_stale_ingestion_jobs true quiet 910 in_work).1.queue ≡ 1)
    × (count
          (of_task (text "t1"))
          (reclaim_stale_ingestion_jobs true quiet 910 in_work).1.processing
        ≡ 0)
    × (any
          (is_lease_of (job_of (text "t1")))
          (reclaim_stale_ingestion_jobs true quiet 910 in_work).1.leases
        ≡ false)
lapsed_job_requeued_example =
    lapsed_job_requeued true 910 (job_of (text "t1")) in_work in_work-IsValid lease_lapsed

late_acknowledgement_example :
    (count
        (of_task (text "t1"))
        (acknowledge_ingestion_job
          (job_of (text "t1"))
          (reclaim_stale_ingestion_jobs true quiet 910 in_work).1).queue
      ≡ 1)
    × (get_ingestion_payload (text "t1") (
          acknowledge_ingestion_job
            (job_of (text "t1"))
            (reclaim_stale_ingestion_jobs true quiet 910 in_work).1)
        ≡ none)
late_acknowledgement_example =
    late_acknowledgement true 910 (job_of (text "t1")) in_work in_work-IsValid lease_lapsed

-- The queue's ends are those of the source: the last upload is claimed first.
last_first :
    (claim_ingestion_job by_task answering 10
      (enqueue_ingestion_job (job_of (text "t2")) [] uploaded)).0
    ≡ job (job_of (text "t2"))
unfolding claim_ingestion_job pop_last reclaim_stale_ingestion_jobs enqueue_ingestion_job
last_first = refl
