-- ===== src/IngestionQueue/Claims.antt =====
-- What a claim keeps, however Redis answers it.
use enterprise_multi_tenant.Base.{
  ℕ, ◌+◌, ◌≤◌, ◌≡◌, refl, Bool, true, false, not, ◌&&◌, List, Option, none, some, arith,
  if◌then◌else◌, Bool-cases, inl, inr,
}
use enterprise_multi_tenant.Text.{Text}
use enterprise_multi_tenant.IngestionQueue.{
  Job, Queues, ClaimReplies, Reply, answered, lost, refused, is_answered, job_eq, stale_jobs,
  pop_last, moved, with_lease, leased_as, popped, claimed, go_on, reclaim_stale_ingestion_jobs,
  claim_ingestion_job,
}
use enterprise_multi_tenant.IngestionQueue.Counts.{job_eq_iff, count-zadd, count-pop_last}
use enterprise_multi_tenant.IngestionQueue.Leases.{
  IsValid, held, of_task, is_quiet, loses, single, unanswered, weaken, reclaim_jobs-IsValid,
  reclaim_jobs-held,
}

-- Whether a claim is answered throughout.
abbrev pub all_answered : ClaimReplies → Bool
all_answered r = is_quiet r.outage && (is_answered r.pop && is_answered r.lease)

module _ (before : Job → Job → Bool) where
  moved-held :
      (t : Text) (j : Job) (rest : List Job) (q : Queues)
      → pop_last q.queue ≡ some (j, rest)
      → held t (moved j rest q) ≡ held t q
  moved-held t j rest q h = ground (arith, count-pop_last (of_task t) q.queue j rest h)

  leased_as-held :
      (require_redis : Bool) (now : ℕ) (t : Text) (j : Job) (q : Queues) (reply : Reply)
      → held t (leased_as before require_redis now j q reply).1 ≡ held t q
  leased_as-held require_redis now t j q answered = refl
  leased_as-held require_redis now t j q lost = refl
  leased_as-held require_redis now t j q refused = refl

  claimed-held :
      (r : ClaimReplies) (now : ℕ) (t : Text) (q : Queues) (o : Option (Job × List Job))
      → pop_last q.queue ≡ o
      → held t (claimed before r now q o).1 ≡ held t q
  claimed-held r now t q none h = refl
  claimed-held r now t q (some (j, rest)) h = go r.pop
    where
      go :
          (reply : Reply)
          → held t (popped before r.lease r.require_redis now j rest q reply).1 ≡ held t q
      go answered = omega (
        arith,
        leased_as-held r.require_redis now t j (moved j rest q) r.lease,
        moved-held t j rest q h,
      )
      go lost = moved-held t j rest q h
      go refused = refl

  moved-IsValid :
      (a : Bool) (j : Job) (rest : List Job) (q : Queues)
      → pop_last q.queue ≡ some (j, rest)
      → IsValid a q
      → IsValid false (moved j rest q)
  moved-IsValid a j rest q h v =
      unanswered (moved j rest q) (λ t. rw (moved-held t j rest q h) (v.one_job t))
        (λ k. ground (arith, v.lease_in_work k))

  with_lease-IsValid :
      (a : Bool) (now : ℕ) (j : Job) (rest : List Job) (q : Queues)
      → pop_last q.queue ≡ some (j, rest)
      → IsValid a q
      → IsValid a (with_lease before now j (moved j rest q))
  with_lease-IsValid a now j rest q h v = record {
    one_job = λ t. rw (moved-held t j rest q h) (v.one_job t);
    lease_in_work = λ k. ground (
      arith,
      count-zadd before j k (now + 900) q.leases,
      v.lease_in_work k,
      job_eq_iff j k,
      job_eq_iff k j,
      job_eq_iff j j,
    );
    in_work_leased = λ k. ground (
      arith,
      count-zadd before j k (now + 900) q.leases,
      count-pop_last (job_eq j) q.queue j rest h,
      v.in_work_leased k,
      single q j v.one_job,
      job_eq_iff j k,
      job_eq_iff k j,
      job_eq_iff j j,
    );
  }

  claimed-IsValid :
      (a : Bool) (r : ClaimReplies) (now : ℕ) (q : Queues) (o : Option (Job × List Job))
      → pop_last q.queue ≡ o
      → IsValid a q
      → IsValid (a && (is_answered r.pop && is_answered r.lease)) (claimed before r now q o).1
  claimed-IsValid a r now q none h v = weaken a _ q (λ e. ground (arith, e)) v
  claimed-IsValid a r now q (some (j, rest)) h v = go r.pop r.lease
    where
      with_it : IsValid a (with_lease before now j (moved j rest q))
      with_it = with_lease-IsValid a now j rest q h v

      go :
          (pop lease : Reply)
          → IsValid
              (a && (is_answered pop && is_answered lease))
              (popped before lease r.require_redis now j rest q pop).1
      go answered answered = weaken a (a && true) _ (λ e. ground (arith, e)) with_it
      go answered lost = weaken a (a && false) _ (λ e. ground (arith, e)) with_it
      go answered refused =
          weaken false (a && false) _ (λ e. ground (arith, e)) (moved-IsValid a j rest q h v)
      go lost lease =
          weaken false (a && false) _ (λ e. ground (arith, e)) (moved-IsValid a j rest q h v)
      go refused lease = weaken a (a && false) q (λ e. ground (arith, e)) v

  go_on-held :
      (r : ClaimReplies) (now : ℕ) (t : Text) (returned : Bool) (q : Queues)
      → held t (go_on before r now (returned, q)).1 ≡ held t q
  go_on-held r now t returned q = elim (Bool-cases (not returned && r.require_redis)) [
    | inl stops ↦ rw stops refl
    | inr goes ↦ rw goes (claimed-held r now t q _ refl)
  ]

  go_on-IsValid :
      (a : Bool) (r : ClaimReplies) (now : ℕ) (returned : Bool) (q : Queues)
      → IsValid a q
      → IsValid
          (a && (is_answered r.pop && is_answered r.lease))
          (go_on before r now (returned, q)).1
  go_on-IsValid a r now returned q v = elim (Bool-cases (not returned && r.require_redis)) [
    | inl stops ↦ rw stops (weaken a _ q (λ e. ground (arith, e)) v)
    | inr goes ↦ rw goes (claimed-IsValid a r now q _ refl v)
  ]

  pub claim-IsValid :
      (a : Bool) (r : ClaimReplies) (now : ℕ) (q : Queues)
      → IsValid a q
      → IsValid (a && all_answered r) (claim_ingestion_job before r now q).1
  unfolding claim_ingestion_job reclaim_stale_ingestion_jobs
  claim-IsValid a r now q v = elim (Bool-cases r.read) [
    | inl reads ↦ rw reads (
        weaken ((a && is_quiet r.outage) && (is_answered r.pop && is_answered r.lease)) _ _
          (λ e. ground (arith, e))
          (go_on-IsValid (a && is_quiet r.outage) r now _ _
            (reclaim_jobs-IsValid a (stale_jobs now q.leases) r.outage q v)))
    | inr unread ↦ rw unread (
        weaken (a && (is_answered r.pop && is_answered r.lease)) _ _ (λ e. ground (arith, e))
          (go_on-IsValid a r now false q v))
  ]

  -- A claim keeps what is held of a task, unless its reclaiming breaks off at a place that loses it.
  pub claim-held :
      (a : Bool) (r : ClaimReplies) (now : ℕ) (t : Text) (q : Queues)
      → IsValid a q
      → (held t (claim_ingestion_job before r now q).1 ≤ held t q)
        × (held t q
            ≤ held t (claim_ingestion_job before r now q).1 + (if loses r.outage then 1 else 0))
  unfolding claim_ingestion_job reclaim_stale_ingestion_jobs
  claim-held a r now t q v = elim (Bool-cases r.read) [
    | inl reads ↦
        rw reads (
          rw (go_on-held r now t _ _)
            (reclaim_jobs-held a (stale_jobs now q.leases) r.outage t q v))
    | inr unread ↦ rw (unread, go_on-held r now t false q) (omega arith, omega arith)
  ]
