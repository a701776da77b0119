-- ===== src/IngestionQueue.antt =====
-- The queue of ingestion jobs in app/redis_client.py: the list `ingestion_jobs`, the list of claimed
-- jobs, the sorted set of leases and the payloads. Each call is one step on them, with which the
-- commands of no other call are interleaved; any of its commands may raise, with or without having
-- been carried out. A payload's TTL of a day is left out. A job stands for its JSON text, and `before` for the order of these
-- texts, by which the sorted set orders leases of one expiry. Times are in seconds.
pub mod Counts
pub mod Leases
pub mod Claims
pub mod Recovery
use enterprise_multi_tenant.Base.{
  ℕ, zero, suc, ◌+◌, ◌==◌, Bool, true, false, not, ◌&&◌, ◌||◌, List, [], ◌∷◌, ◌++◌, Option, none,
  some, any, filter, map, leb, ltb, if◌then◌else◌,
}
use enterprise_multi_tenant.Base.Sorting.{insert_by}
use enterprise_multi_tenant.Text.{Text, text, text_eq}
use enterprise_multi_tenant.Dict.{Dict, get, put, remove}

-- A job. The key "attempt" is absent until the first reclaim: then it counts as 0.
pub record Job : Type 0 where
  pub task_id : Text
  pub filename : Text
  pub allowed_roles : Text
  pub tenant_id : Text
  pub user_id : Text
  pub attempt : ℕ

-- Whether two jobs have one JSON text.
unfoldable pub job_eq : Job → Job → Bool
job_eq j k =
    text_eq j.task_id k.task_id
    && text_eq j.filename k.filename
    && text_eq j.allowed_roles k.allowed_roles
    && text_eq j.tenant_id k.tenant_id
    && text_eq j.user_id k.user_id
    && j.attempt == k.attempt

abbrev pub Lease : Type 0
Lease = Job × ℕ

-- A file's bytes.
abbrev pub Bytes : Type 0
Bytes = List ℕ

pub record Queues : Type 0 where
  pub queue : List Job
  pub processing : List Job
  pub leases : List Lease
  pub payloads : Dict Bytes

abbrev lease_timeout : ℕ
lease_timeout = 900

-- `enqueue_ingestion_job`, one transaction.
unfoldable pub enqueue_ingestion_job : Job → Bytes → Queues → Queues
enqueue_ingestion_job j content q = record q {
  queue = q.queue ++ j ∷ [];
  payloads = put j.task_id content q.payloads;
}

abbrev pub is_lease_of : Job → Lease → Bool
is_lease_of j (k, e) = job_eq j k

-- `LREM key 1 job`
unfoldable pub lrem : Job → List Job → List Job
lrem j [] = []
lrem j (k ∷ ks) = let rest = lrem j ks in if job_eq j k then ks else k ∷ rest

-- `ZREM key job`
abbrev pub zrem : Job → List Lease → List Lease
zrem j leases = filter (λ l. not (is_lease_of j l)) leases

-- `ZADD key score job`
unfoldable pub zadd : (Job → Job → Bool) → Job → ℕ → List Lease → List Lease
zadd before j score leases = insert_by in_order (j, score) (zrem j leases)
  where
    in_order : Lease → Lease → Bool
    in_order (j, s) (k, t) = ltb s t || (s == t && before j k)

-- `ZRANGEBYSCORE key -inf now`
abbrev pub stale_jobs : ℕ → List Lease → List Job
stale_jobs now leases = map (λ l. l.0) (filter (λ l. leb l.1 now) leases)

abbrev pub next_attempt : Job → Job
next_attempt j = record j { attempt = j.attempt + 1 }

-- The body of the loop of `reclaim_stale_ingestion_jobs`.
unfoldable pub reclaim_job : Job → Queues → Queues
reclaim_job j q =
    if any (is_lease_of j) q.leases
    then record q {
      queue = q.queue ++ next_attempt j ∷ [];
      processing = lrem j q.processing;
      leases = zrem j q.leases;
    }
    else q

-- The commands on one stale job.
pub data Command : Type 0 where
  at_zrem at_lrem at_rpush : Command

-- Where a reclaiming breaks off: nowhere, or at a command on the job at a position, which was
-- carried out or not.
pub data Outage : Type 0 where
  quiet : Outage
  breaks : ℕ → Command → Bool → Outage

-- What is done of the loop's body when a command raises.
abbrev pub broken : Command → Bool → Job → Queues → Queues
broken at_zrem false j q = q
broken at_zrem true j q = record q { leases = zrem j q.leases }
broken at_lrem false j q = record q { leases = zrem j q.leases }
broken at_lrem true j q = record q { processing = lrem j q.processing; leases = zrem j q.leases }
broken at_rpush false j q = record q { processing = lrem j q.processing; leases = zrem j q.leases }
broken at_rpush true j q = record q {
  queue = q.queue ++ next_attempt j ∷ [];
  processing = lrem j q.processing;
  leases = zrem j q.leases;
}

-- Of a job without a lease only `ZREM` is asked.
unfoldable pub interrupted : Command → Bool → Job → Queues → Queues
interrupted c done j q = if any (is_lease_of j) q.leases then broken c done j q else q

-- The loop of `reclaim_stale_ingestion_jobs`, by whether it ends.
abbrev pub reclaim_jobs : List Job → Outage → Queues → Bool × Queues
reclaim_jobs [] o q = (true, q)
reclaim_jobs (j ∷ js) quiet q = reclaim_jobs js quiet (reclaim_job j q)
reclaim_jobs (j ∷ js) (breaks zero c done) q = (false, interrupted c done j q)
reclaim_jobs (j ∷ js) (breaks (suc n) c done) q =
    reclaim_jobs js (breaks n c done) (reclaim_job j q)

-- `reclaim_stale_ingestion_jobs`, by whether it returns; `read` says whether the leases can be read.
unfoldable pub reclaim_stale_ingestion_jobs : Bool → Outage → ℕ → Queues → Bool × Queues
reclaim_stale_ingestion_jobs true o now q = reclaim_jobs (stale_jobs now q.leases) o q
reclaim_stale_ingestion_jobs false o now q = (false, q)

abbrev pub behind : Job → Option (Job × List Job) → Option (Job × List Job)
behind j none = none
behind j (some (k, ks)) = some (k, j ∷ ks)

-- The right end of a list, and the rest.
unfoldable pub pop_last : List Job → Option (Job × List Job)
pop_last [] = none
pop_last (j ∷ []) = some (j, [])
pop_last (j ∷ k ∷ ks) = behind j (pop_last (k ∷ ks))

-- How a single command ends: answered, carried out without an answer, or not carried out.
pub data Reply : Type 0 where
  answered lost refused : Reply

abbrev pub is_answered : Reply → Bool
is_answered answered = true
is_answered lost = false
is_answered refused = false

-- How Redis answers a claim, and whether it is required.
pub record ClaimReplies : Type 0 where
  pub read : Bool
  pub outage : Outage
  pub pop : Reply
  pub lease : Reply
  pub require_redis : Bool

-- Every command is answered.
abbrev pub answering : ClaimReplies
answering = record {
  read = true;
  outage = quiet;
  pop = answered;
  lease = answered;
  require_redis = true;
}

-- How a claim ends: an exception, no job, or a job.
pub data Claim : Type 0 where
  raised no_job : Claim
  job : Job → Claim

-- A lease that cannot be written is an error only where Redis is required.
abbrev pub unleased : Bool → Job → Claim
unleased require_redis j = if require_redis then raised else job j

abbrev pub with_lease : (Job → Job → Bool) → ℕ → Job → Queues → Queues
with_lease before now j q = record q { leases = zadd before j (now + lease_timeout) q.leases }

abbrev pub leased_as : (Job → Job → Bool) → Bool → ℕ → Job → Queues → Reply → Claim × Queues
leased_as before require_redis now j q answered = (job j, with_lease before now j q)
leased_as before require_redis now j q lost = (unleased require_redis j, with_lease before now j q)
leased_as before require_redis now j q refused = (unleased require_redis j, q)

abbrev pub moved : Job → List Job → Queues → Queues
moved j rest q = record q { queue = rest; processing = j ∷ q.processing }

abbrev pub popped :
    (Job → Job → Bool) → Reply → Bool → ℕ → Job → List Job → Queues → Reply → Claim × Queues
popped before lease require_redis now j rest q answered =
    leased_as before require_redis now j (moved j rest q) lease
popped before lease require_redis now j rest q lost = (no_job, moved j rest q)
popped before lease require_redis now j rest q refused = (no_job, q)

abbrev pub claimed :
    (Job → Job → Bool) → ClaimReplies → ℕ → Queues → Option (Job × List Job) → Claim × Queues
claimed before r now q none = (no_job, q)
claimed before r now q (some (j, rest)) = popped before r.lease r.require_redis now j rest q r.pop

-- After the reclaiming.
abbrev pub go_on : (Job → Job → Bool) → ClaimReplies → ℕ → Bool × Queues → Claim × Queues
go_on before r now (returned, q) =
    if not returned && r.require_redis
    then (raised, q)
    else claimed before r now q (pop_last q.queue)

-- `claim_ingestion_job`: stale jobs are reclaimed, then `BRPOPLPUSH` moves the job at the right end.
unfoldable pub claim_ingestion_job : (Job → Job → Bool) → ClaimReplies → ℕ → Queues → Claim × Queues
claim_ingestion_job before r now q =
    go_on before r now (reclaim_stale_ingestion_jobs r.read r.outage now q)

-- `get_ingestion_payload`: the text of an empty content is false.
abbrev pub given_bytes : Option Bytes → Option Bytes
given_bytes none = none
given_bytes (some []) = none
given_bytes (some (c ∷ content)) = some (c ∷ content)

abbrev pub get_ingestion_payload : Text → Queues → Option Bytes
get_ingestion_payload task_id q = given_bytes (get task_id q.payloads)

-- `acknowledge_ingestion_job`, one transaction.
unfoldable pub acknowledge_ingestion_job : Job → Queues → Queues
acknowledge_ingestion_job j q = record q {
  processing = lrem j q.processing;
  leases = zrem j q.leases;
  payloads = remove j.task_id q.payloads;
}
