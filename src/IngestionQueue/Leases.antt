-- ===== src/IngestionQueue/Leases.antt =====
-- What holds of the queue after any calls: no task is doubled, a lease belongs to a job in work, and
-- a job in work has its lease where the commands were answered.
use mathlib.Core.Path.{subst}
use enterprise_multi_tenant.Base.{
  ℕ, zero, suc, ◌+◌, ◌≤◌, ◌≡◌, Bool, true, false, not, ◌&&◌, List, [], ◌∷◌, arith, count,
  if◌then◌else◌, Bool-cases, inl, inr,
}
use enterprise_multi_tenant.Base.Rows.{count-append, count_mono}
use enterprise_multi_tenant.Text.{Text, text_eq, text_eq_refl}
use enterprise_multi_tenant.IngestionQueue.{
  Job, Queues, Command, at_zrem, at_lrem, at_rpush, Outage, quiet, breaks, job_eq, is_lease_of,
  next_attempt, reclaim_job, interrupted, reclaim_jobs, acknowledge_ingestion_job,
}
use enterprise_multi_tenant.IngestionQueue.Counts.{
  job_eq_iff, count-lrem, count-zrem, any-count, any-count_lease,
}

abbrev pub of_task : Text → Job → Bool
of_task t j = text_eq j.task_id t

-- How often a task waits or is being worked on.
abbrev pub held : Text → Queues → ℕ
held t q = count (of_task t) q.queue + count (of_task t) q.processing

-- A task has one job at most, and a lease belongs to a job in work, which has one at most; where all
-- commands so far were answered, each job in work has a lease.
pub record IsValid (answered : Bool) (q : Queues) : Type 0 where
  pub one_job : (t : Text) → held t q ≤ 1
  pub lease_in_work : (j : Job) → count (is_lease_of j) q.leases ≤ count (job_eq j) q.processing
  pub in_work_leased :
      (j : Job)
      → count (job_eq j) q.processing ≤ count (is_lease_of j) q.leases + (if answered then 0 else 1)

pub single :
    (q : Queues) (j : Job)
    → ((t : Text) → held t q ≤ 1)
    → count (job_eq j) q.queue + count (job_eq j) q.processing ≤ 1
single q j one_job = omega (
  arith,
  one_job j.task_id,
  count_mono (job_eq j) (of_task j.task_id) q.queue
      (λ k h. ground (arith, job_eq_iff j k, text_eq_refl j.task_id)),
  count_mono (job_eq j) (of_task j.task_id) q.processing
      (λ k h. ground (arith, job_eq_iff j k, text_eq_refl j.task_id)),
)

pub weaken : (a b : Bool) (q : Queues) → (b ≡ true → a ≡ true) → IsValid a q → IsValid b q
weaken a b q implies v = record {
  one_job = v.one_job;
  lease_in_work = v.lease_in_work;
  in_work_leased = λ j. elim (Bool-cases b) [
    | inl on ↦ ground (arith, v.in_work_leased j, implies on)
    | inr off ↦ ground (arith, single q j v.one_job)
  ];
}

pub unanswered :
    (q : Queues)
    → ((t : Text) → held t q ≤ 1)
    → ((j : Job) → count (is_lease_of j) q.leases ≤ count (job_eq j) q.processing)
    → IsValid false q
unanswered q one_job lease_in_work = record {
  one_job = one_job;
  lease_in_work = lease_in_work;
  in_work_leased = λ j. omega (arith, single q j one_job);
}

reclaim_job-held :
    (a : Bool) (j : Job) (t : Text) (q : Queues) → IsValid a q → held t (reclaim_job j q) ≡ held t q
unfolding reclaim_job
reclaim_job-held a j t q v = ground (
  arith,
  count-append (of_task t) q.queue (next_attempt j ∷ []),
  count-lrem (of_task t) j q.processing,
  any-count j q.processing,
  any-count_lease j q.leases,
  v.lease_in_work j,
)

reclaim_job-IsValid : (a : Bool) (j : Job) (q : Queues) → IsValid a q → IsValid a (reclaim_job j q)
unfolding reclaim_job
reclaim_job-IsValid a j q v = record {
  one_job = λ t. rw (reclaim_job-held a j t q v) (v.one_job t);
  lease_in_work = λ k. ground (
    arith,
    count-zrem j k q.leases,
    count-lrem (job_eq k) j q.processing,
    v.lease_in_work k,
    job_eq_iff j k,
    job_eq_iff k j,
  );
  in_work_leased = λ k. ground (
    arith,
    count-zrem j k q.leases,
    count-lrem (job_eq k) j q.processing,
    any-count j q.processing,
    any-count_lease j q.leases,
    v.lease_in_work j,
    v.in_work_leased k,
    single q j v.one_job,
    job_eq_iff j k,
    job_eq_iff k j,
  );
}

-- Whether a reclaiming that breaks off at a command loses the job.
abbrev pub loses_at : Command → Bool → Bool
loses_at at_zrem done = false
loses_at at_lrem done = done
loses_at at_rpush done = not done

abbrev pub loses : Outage → Bool
loses quiet = false
loses (breaks n c done) = loses_at c done

abbrev pub is_quiet : Outage → Bool
is_quiet quiet = true
is_quiet (breaks n c done) = false

interrupted-held :
    (a : Bool) (c : Command) (done : Bool) (j : Job) (t : Text) (q : Queues)
    → IsValid a q
    → (held t (interrupted c done j q) ≤ held t q)
      × (held t q ≤ held t (interrupted c done j q) + (if loses_at c done then 1 else 0))
unfolding interrupted
interrupted-held a c done j t q v =
    let one = v.one_job t in
    let in_work = v.lease_in_work j in
    let removed = count-lrem (of_task t) j q.processing in
    let added = count-append (of_task t) q.queue (next_attempt j ∷ []) in
    let listed = any-count j q.processing in
    let has_lease = any-count_lease j q.leases in
    elim c [
      | at_zrem ↦ elim done [ true ↦ ground arith | false ↦ ground arith ]
      | at_lrem ↦ elim done [ true ↦ ground arith | false ↦ ground arith ]
      | at_rpush ↦ elim done [ true ↦ ground arith | false ↦ ground arith ]
    ]

interrupted-leases :
    (a : Bool) (c : Command) (done : Bool) (j k : Job) (q : Queues)
    → IsValid a q
    → let q' = interrupted c done j q in
      count (is_lease_of k) q'.leases ≤ count (job_eq k) q'.processing
unfolding interrupted
interrupted-leases a c done j k q v =
    let in_work = v.lease_in_work k in
    let freed = count-zrem j k q.leases in
    let removed = count-lrem (job_eq k) j q.processing in
    let same = job_eq_iff j k in
    let same' = job_eq_iff k j in
    elim c [
      | at_zrem ↦ elim done [ true ↦ ground arith | false ↦ ground arith ]
      | at_lrem ↦ elim done [ true ↦ ground arith | false ↦ ground arith ]
      | at_rpush ↦ elim done [ true ↦ ground arith | false ↦ ground arith ]
    ]

interrupted-IsValid :
    (a : Bool) (c : Command) (done : Bool) (j : Job) (q : Queues)
    → IsValid a q
    → IsValid false (interrupted c done j q)
interrupted-IsValid a c done j q v =
    unanswered (interrupted c done j q)
      (λ t. omega (arith, v.one_job t, interrupted-held a c done j t q v))
      (λ k. interrupted-leases a c done j k q v)

pub reclaim_jobs-IsValid :
    (a : Bool) (js : List Job) (o : Outage) (q : Queues)
    → IsValid a q
    → IsValid (a && is_quiet o) (reclaim_jobs js o q).1
reclaim_jobs-IsValid a [] o q v = weaken a (a && is_quiet o) q (λ h. ground (arith, h)) v
reclaim_jobs-IsValid a (j ∷ js) quiet q v =
    reclaim_jobs-IsValid a js quiet (reclaim_job j q) (reclaim_job-IsValid a j q v)
reclaim_jobs-IsValid a (j ∷ js) (breaks zero c done) q v =
    weaken false (a && false) _ (λ h. ground (arith, h)) (interrupted-IsValid a c done j q v)
reclaim_jobs-IsValid a (j ∷ js) (breaks (suc n) c done) q v =
    reclaim_jobs-IsValid a js (breaks n c done) (reclaim_job j q) (reclaim_job-IsValid a j q v)

pub reclaim_jobs-held :
    (a : Bool) (js : List Job) (o : Outage) (t : Text) (q : Queues)
    → IsValid a q
    → (held t (reclaim_jobs js o q).1 ≤ held t q)
      × (held t q ≤ held t (reclaim_jobs js o q).1 + (if loses o then 1 else 0))
reclaim_jobs-held a [] o t q v = (omega arith, omega arith)
reclaim_jobs-held a (j ∷ js) quiet t q v =
    subst
      (λ n.
        (held t (reclaim_jobs js quiet (reclaim_job j q)).1 ≤ n)
        × (n ≤ held t (reclaim_jobs js quiet (reclaim_job j q)).1 + 0))
      (reclaim_job-held a j t q v)
      (reclaim_jobs-held a js quiet t (reclaim_job j q) (reclaim_job-IsValid a j q v))
reclaim_jobs-held a (j ∷ js) (breaks zero c done) t q v = interrupted-held a c done j t q v
reclaim_jobs-held a (j ∷ js) (breaks (suc n) c done) t q v =
    subst
      (λ m.
        (held t (reclaim_jobs js (breaks n c done) (reclaim_job j q)).1 ≤ m)
        × (m
            ≤ held t (reclaim_jobs js (breaks n c done) (reclaim_job j q)).1
              + (if loses_at c done then 1 else 0)))
      (reclaim_job-held a j t q v)
      (reclaim_jobs-held a js (breaks n c done) t (reclaim_job j q) (reclaim_job-IsValid a j q v))

pub acknowledge-IsValid :
    (a : Bool) (j : Job) (q : Queues) → IsValid a q → IsValid a (acknowledge_ingestion_job j q)
unfolding acknowledge_ingestion_job
acknowledge-IsValid a j q v = record {
  one_job = λ t. omega (arith, v.one_job t, count-lrem (of_task t) j q.processing);
  lease_in_work = λ k. ground (
    arith,
    count-zrem j k q.leases,
    count-lrem (job_eq k) j q.processing,
    v.lease_in_work k,
    job_eq_iff j k,
    job_eq_iff k j,
  );
  in_work_leased = λ k. ground (
    arith,
    count-zrem j k q.leases,
    count-lrem (job_eq k) j q.processing,
    any-count j q.processing,
    v.in_work_leased k,
    single q j v.one_job,
    job_eq_iff j k,
    job_eq_iff k j,
  );
}
