-- ===== src/IngestionQueue/Counts.antt =====
-- How the commands on lists and sorted sets change the number of jobs that pass a test.
use enterprise_multi_tenant.Base.{
  ℕ, ◌+◌, ◌≡◌, ◌↔◌, refl, ◌∙◌, Bool, true, false, ◌&&◌, List, [], ◌∷◌, Option, none, some, arith,
  any, count, if◌then◌else◌,
}
use mathlib.Core.Option.{none-ne-some}
use enterprise_multi_tenant.Base.Sorting.{count-insert_by}
use enterprise_multi_tenant.Text.{text_eq_iff}
use enterprise_multi_tenant.IngestionQueue.{
  Job, Lease, job_eq, is_lease_of, lrem, zrem, zadd, behind, pop_last,
}

pub job_eq_iff : (j k : Job) → (job_eq j k ≡ true) ↔ (j ≡ k)
unfolding job_eq
job_eq_iff j k = ground (
  arith,
  text_eq_iff j.task_id k.task_id,
  text_eq_iff j.filename k.filename,
  text_eq_iff j.allowed_roles k.allowed_roles,
  text_eq_iff j.tenant_id k.tenant_id,
  text_eq_iff j.user_id k.user_id,
)

pub count-lrem :
    (p : Job → Bool) (j : Job) (js : List Job)
    → count p (lrem j js) + (if any (job_eq j) js && p j then 1 else 0) ≡ count p js
unfolding lrem
count-lrem p j [] = omega arith
count-lrem p j (k ∷ ks) = ground (arith, count-lrem p j ks, job_eq_iff j k)

pub count-zrem :
    (j k : Job) (ls : List Lease)
    → count (is_lease_of k) (zrem j ls) ≡ (if job_eq j k then 0 else count (is_lease_of k) ls)
count-zrem j k [] = ground arith
count-zrem j k ((i, e) ∷ ls) =
    ground (arith, count-zrem j k ls, job_eq_iff j i, job_eq_iff j k, job_eq_iff k i)

pub count-zadd :
    (before : Job → Job → Bool) (j k : Job) (score : ℕ) (ls : List Lease)
    → count (is_lease_of k) (zadd before j score ls)
      ≡ (if job_eq j k then 1 else count (is_lease_of k) ls)
unfolding zadd
count-zadd before j k score ls =
    count-insert_by (is_lease_of k) _ (j, score) (zrem j ls)
    ∙ ground (arith, count-zrem j k ls, job_eq_iff j k, job_eq_iff k j)

count-behind :
    (p : Job → Bool) (i : Job) (js : List Job) (o : Option (Job × List Job)) (j : Job)
    (rest : List Job)
    → ((k : Job) (ks : List Job)
        → o ≡ some (k, ks)
        → count p js ≡ count p ks + (if p k then 1 else 0))
    → behind i o ≡ some (j, rest)
    → count p (i ∷ js) ≡ count p rest + (if p j then 1 else 0)
count-behind p i js none j rest h e = absurd (none-ne-some _ e)
count-behind p i js (some (k, ks)) j rest h e = ground (arith, h k ks refl)

pub count-pop_last :
    (p : Job → Bool) (js : List Job) (j : Job) (rest : List Job)
    → pop_last js ≡ some (j, rest)
    → count p js ≡ count p rest + (if p j then 1 else 0)
unfolding pop_last
count-pop_last p [] j rest h = absurd (none-ne-some _ h)
count-pop_last p (k ∷ []) j rest h = ground arith
count-pop_last p (k ∷ i ∷ is) j rest h =
    count-behind p k (i ∷ is) (pop_last (i ∷ is)) j rest (count-pop_last p (i ∷ is)) h

pub any-count : (j : Job) (js : List Job) → (any (job_eq j) js ≡ false) ↔ (count (job_eq j) js ≡ 0)
any-count j [] = ground arith
any-count j (k ∷ ks) = ground (arith, any-count j ks)

pub any-count_lease :
    (j : Job) (ls : List Lease) → (any (is_lease_of j) ls ≡ false) ↔ (count (is_lease_of j) ls ≡ 0)
any-count_lease j [] = ground arith
any-count_lease j (l ∷ ls) = ground (arith, any-count_lease j ls)
