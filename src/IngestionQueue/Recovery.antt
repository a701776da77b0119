-- ===== src/IngestionQueue/Recovery.antt =====
-- Runs of the queue from empty, and what becomes of a job whose worker stopped.
use enterprise_multi_tenant.Base.{
  ap, ℕ, ◌+◌, ◌≤◌, ◌≡◌, refl, ◌∙◌, Bool, true, false, ◌&&◌, List, [], ◌∷◌, none, arith, any, count,
  if◌then◌else◌, leb, Bool-cases, inl, inr,
}
use enterprise_multi_tenant.Base.Rows.{count-append}
use enterprise_multi_tenant.Text.{Text, text_eq_iff, text_eq_refl}
use enterprise_multi_tenant.Dict.{Dict, get, remove, get-remove}
use enterprise_multi_tenant.IngestionQueue.{
  Job, Lease, Bytes, Queues, ClaimReplies, quiet, job_eq, is_lease_of, stale_jobs, next_attempt,
  reclaim_job, reclaim_jobs, reclaim_stale_ingestion_jobs, claim_ingestion_job,
  enqueue_ingestion_job, acknowledge_ingestion_job, get_ingestion_payload, given_bytes,
}
use enterprise_multi_tenant.IngestionQueue.Counts.{
  job_eq_iff, count-lrem, count-zrem, any-count_lease,
}
use enterprise_multi_tenant.IngestionQueue.Leases.{
  of_task, held, IsValid, weaken, loses, reclaim_jobs-IsValid, acknowledge-IsValid,
}
use enterprise_multi_tenant.IngestionQueue.Claims.{all_answered, claim-IsValid, claim-held}

abbrev pub empty_queues : Queues
empty_queues = record { queue = []; processing = []; leases = []; payloads = [] }

module _ (before : Job → Job → Bool) where
  -- A call, and whether Redis answered all its commands: an upload enqueues a task of a new
  -- identifier; a worker claims, or acknowledges any job, also one that was reclaimed from it. A
  -- transaction that is not carried out is no step.
  pub data Step : Bool → Queues → Queues → Type 0 where
    enqueue :
        (j : Job) (content : Bytes) (q : Queues)
        → held j.task_id q ≡ 0
        → Step true q (enqueue_ingestion_job j content q)
    claim :
        (r : ClaimReplies) (now : ℕ) (q : Queues)
        → Step (all_answered r) q (claim_ingestion_job before r now q).1
    acknowledge : (j : Job) (q : Queues) → Step true q (acknowledge_ingestion_job j q)

  -- The states that are reached, and whether all commands so far were answered.
  pub data Reach : Bool → Queues → Type 0 where
    here : Reach true empty_queues
    next : {a b : Bool} {q r : Queues} → Reach a q → Step b q r → Reach (a && b) r

  enqueue-IsValid :
      (a : Bool) (j : Job) (content : Bytes) (q : Queues)
      → held j.task_id q ≡ 0
      → IsValid a q
      → IsValid a (enqueue_ingestion_job j content q)
  unfolding enqueue_ingestion_job
  enqueue-IsValid a j content q fresh v = record {
    one_job = λ t.
        ground
          (arith, v.one_job t, count-append (of_task t) q.queue (j ∷ []), text_eq_iff j.task_id t);
    lease_in_work = v.lease_in_work;
    in_work_leased = v.in_work_leased;
  }

  -- After any sequence of calls by any number of workers, whose commands do not interleave but may
  -- each raise, carried out or not, a task has one job at most, and a lease belongs to a job in work,
  -- which has one at most; if Redis has answered all commands of the claims, every job in work has
  -- its lease.
  pub Reach-IsValid : {a : Bool} {q : Queues} → Reach a q → IsValid a q
  Reach-IsValid here = record {
    one_job = λ t. omega arith;
    lease_in_work = λ j. omega arith;
    in_work_leased = λ j. omega arith;
  }
  Reach-IsValid (next r (enqueue j content q fresh)) =
      weaken _ _ _ (λ e. ground (arith, e)) (enqueue-IsValid _ j content q fresh (Reach-IsValid r))
  Reach-IsValid (next r (claim replies now q)) =
      claim-IsValid before _ replies now q (Reach-IsValid r)
  Reach-IsValid (next r (acknowledge j q)) =
      weaken _ _ _ (λ e. ground (arith, e)) (acknowledge-IsValid _ j q (Reach-IsValid r))

  -- A task enters with its enqueueing and leaves with the acknowledgement of a job in work; a claim,
  -- with the reclaiming that it does, never doubles one, and loses none but where the reclaiming
  -- breaks off between the LREM that was carried out and the RPUSH that was not. The commands of
  -- different calls do not interleave.
  pub task_conserved :
      (a : Bool) (r : ClaimReplies) (t : Text) (j : Job) (content : Bytes) (now : ℕ) (q : Queues)
      → IsValid a q
      → (held t (claim_ingestion_job before r now q).1 ≤ held t q)
        × (held t q
            ≤ held t (claim_ingestion_job before r now q).1 + (if loses r.outage then 1 else 0))
        × (held t (enqueue_ingestion_job j content q) ≡ held t q + (if of_task t j then 1 else 0))
        × (held t (acknowledge_ingestion_job j q)
              + (if any (job_eq j) q.processing && of_task t j then 1 else 0)
            ≡ held t q)
  unfolding enqueue_ingestion_job acknowledge_ingestion_job
  task_conserved a r t j content now q v =
      let (at_most, at_least) = claim-held before a r now t q v in
      (
        at_most,
        at_least,
        omega (arith, count-append (of_task t) q.queue (j ∷ [])),
        omega (arith, count-lrem (of_task t) j q.processing),
      )

reclaim_job-lease :
    (i j : Job) (q : Queues)
    → count (is_lease_of j) (reclaim_job i q).leases
      ≡ (if job_eq i j then 0 else count (is_lease_of j) q.leases)
unfolding reclaim_job
reclaim_job-lease i j q =
    ground (arith, count-zrem i j q.leases, any-count_lease i q.leases, job_eq_iff i j)

reclaim_jobs-lease :
    (js : List Job) (j : Job) (q : Queues)
    → count (is_lease_of j) (reclaim_jobs js quiet q).1.leases
      ≡ (if any (job_eq j) js then 0 else count (is_lease_of j) q.leases)
reclaim_jobs-lease [] j q = refl
reclaim_jobs-lease (i ∷ js) j q = ground (
  arith,
  reclaim_jobs-lease js j (reclaim_job i q),
  reclaim_job-lease i j q,
  job_eq_iff i j,
  job_eq_iff j i,
)

abbrev pub lapsed : ℕ → Job → Lease → Bool
lapsed now j l = is_lease_of j l && leb l.1 now

stale_jobs-any :
    (now : ℕ) (j : Job) (ls : List Lease)
    → any (lapsed now j) ls ≡ true
    → any (job_eq j) (stale_jobs now ls) ≡ true
stale_jobs-any now j [] h = ground arith
stale_jobs-any now j ((k, e) ∷ ls) h = ground (arith, stale_jobs-any now j ls)

-- The reclaiming adds to the queue only.
reclaim_jobs-queue :
    (p : Job → Bool) (js : List Job) (q : Queues)
    → count p q.queue ≤ count p (reclaim_jobs js quiet q).1.queue
unfolding reclaim_job
reclaim_jobs-queue p [] q = omega arith
reclaim_jobs-queue p (j ∷ js) q =
    ground (
      arith,
      reclaim_jobs-queue p js (reclaim_job j q),
      count-append p q.queue (next_attempt j ∷ []),
    )

-- The next attempt of a stale job with a lease waits after the reclaiming.
requeued :
    (js : List Job) (j : Job) (q : Queues)
    → any (job_eq j) js ≡ true
    → 1 ≤ count (is_lease_of j) q.leases
    → 1 ≤ count (of_task j.task_id) (reclaim_jobs js quiet q).1.queue
unfolding reclaim_job
requeued [] j q h lease = absurd (ground arith)
requeued (i ∷ js) j q h lease = elim (Bool-cases (job_eq i j)) [
  | inl same ↦ ground (
    arith,
    (job_eq_iff i j).0 same,
    reclaim_jobs-queue (of_task j.task_id) js (reclaim_job i q),
    count-append (of_task j.task_id) q.queue (next_attempt i ∷ []),
    any-count_lease i q.leases,
    text_eq_refl j.task_id,
  )
  | inr other ↦
      requeued js j (reclaim_job i q) (ground (arith, job_eq_iff i j, job_eq_iff j i))
        (ground (arith, reclaim_job-lease i j q))
]

-- A job whose lease has lapsed goes back to the queue: after a reclaiming whose commands Redis
-- answers, one job of the task waits, the list of claimed jobs holds none, and the job has no lease.
pub lapsed_job_requeued :
    (a : Bool) (now : ℕ) (j : Job) (q : Queues)
    → IsValid a q
    → any (lapsed now j) q.leases ≡ true
    → let q' = (reclaim_stale_ingestion_jobs true quiet now q).1 in
      (count (of_task j.task_id) q'.queue ≡ 1)
      × (count (of_task j.task_id) q'.processing ≡ 0)
      × (any (is_lease_of j) q'.leases ≡ false)
unfolding reclaim_stale_ingestion_jobs
lapsed_job_requeued a now j q v h =
    let js : List Job = stale_jobs now q.leases in
    let q' : Queues = (reclaim_jobs js quiet q).1 in
    let stale : any (job_eq j) js ≡ true = stale_jobs-any now j q.leases h in
    let v' : IsValid (a && true) q' = reclaim_jobs-IsValid a js quiet q v in
    let waits : 1 ≤ count (of_task j.task_id) q'.queue =
      requeued js j q stale (lapsed_lease now j q.leases h) in
    (
      omega (arith, v'.one_job j.task_id, waits),
      omega (arith, v'.one_job j.task_id, waits),
      (any-count_lease j q'.leases).1 (reclaim_jobs-lease js j q ∙ rw stale refl),
    )
  where
    lapsed_lease :
        (n : ℕ) (i : Job) (ls : List Lease)
        → any (lapsed n i) ls ≡ true
        → 1 ≤ count (is_lease_of i) ls
    lapsed_lease n i [] e = absurd (ground arith)
    lapsed_lease n i (l ∷ ls) e = ground (arith, lapsed_lease n i ls)

-- When the worker that lost its lease acknowledges the old job after all, the task still waits in
-- the queue, but its payload is gone.
pub late_acknowledgement :
    (a : Bool) (now : ℕ) (j : Job) (q : Queues)
    → IsValid a q
    → any (lapsed now j) q.leases ≡ true
    → let q' = acknowledge_ingestion_job j (reclaim_stale_ingestion_jobs true quiet now q).1 in
      (count (of_task j.task_id) q'.queue ≡ 1) × (get_ingestion_payload j.task_id q' ≡ none)
unfolding acknowledge_ingestion_job
late_acknowledgement a now j q v h = (
  (lapsed_job_requeued a now j q v h).0,
  ap given_bytes (payload_gone (reclaim_stale_ingestion_jobs true quiet now q).1.payloads),
)
  where
    payload_gone : (payloads : Dict Bytes) → get j.task_id (remove j.task_id payloads) ≡ none
    payload_gone payloads =
        get-remove j.task_id j.task_id payloads ∙ rw (text_eq_refl j.task_id) refl
