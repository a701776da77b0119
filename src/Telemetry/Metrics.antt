-- ===== src/Telemetry/Metrics.antt =====
-- `get_metrics_summary` of app/core/tracing.py. Where the source divides two integers and rounds
-- the quotient to two decimals, the model keeps the quotient as an exact fraction. The index
-- `int(total * 0.95)` is `total * 95 / 100` rounded down (equal to the double's for every total
-- up to 100,000, and a collector holds at most `max_trace_history` records).
use enterprise_multi_tenant.Base.{
  zero, suc, max, ◌==◌, ◌&&◌, ap, ◌∙◌, ℕ, ◌+◌, ◌-◌, ◌*◌, ◌/◌, ◌≤◌, ◌<◌, ◌≡◌, refl, Bool, List, [],
  ◌∷◌, Option, none, some, min, map, arith, length, filter, count, leb, length-filter,
}
use enterprise_multi_tenant.Base.Sorting.{
  get_or, sort, sort-IsSorted, count-sort, length-sort, rank_bounds,
}
use enterprise_multi_tenant.Text.{Text, text, text_eq}
use enterprise_multi_tenant.Telemetry.{Tracker, TraceRecord, of_tenant}

-- The fraction `num / den`.
pub record Ratio : Type 0 where
  pub num : ℕ
  pub den : ℕ

pub record Summary : Type 0 where
  pub total_requests : ℕ
  pub cache_hit_rate : Ratio
  pub avg_latency_ms : Ratio
  pub p95_latency_ms : ℕ
  pub error_rate : Ratio
  pub langfuse_enabled : Bool

abbrev zero_ratio : Ratio
zero_ratio = record { num = 0; den = 1 }

abbrev pub sum : List ℕ → ℕ
sum [] = 0
sum (x ∷ xs) = x + sum xs

abbrev pub durations : List TraceRecord → List ℕ
durations = map (λ r. r.total_duration_ms)

abbrev pub is_error : TraceRecord → Bool
is_error r = text_eq r.status (text "error")

-- `latencies[min(int(total * 0.95), total - 1)]` of the sorted latencies.
unfoldable pub p95 : List ℕ → ℕ
p95 latencies =
    let total = length latencies in get_or (sort latencies) (min (total * 95 / 100) (total - 1)) 0

-- The records that a summary is about: one tenant's, or all.
unfoldable pub selected : Option Text → Tracker → List TraceRecord
selected none t = t.traces
selected (some tenant_id) t = filter (of_tenant tenant_id) t.traces

-- The summary of some records, given whether Langfuse is configured.
unfoldable pub summary_of : Bool → List TraceRecord → Summary
unfolding p95
summary_of langfuse [] = record {
  total_requests = 0;
  cache_hit_rate = zero_ratio;
  avg_latency_ms = zero_ratio;
  p95_latency_ms = 0;
  error_rate = zero_ratio;
  langfuse_enabled = langfuse;
}
summary_of langfuse (r ∷ rs) =
    let total = length (r ∷ rs) in
    record {
      total_requests = total;
      cache_hit_rate = record { num = count (λ t. t.cache_hit) (r ∷ rs) * 100; den = total };
      avg_latency_ms = record { num = sum (durations (r ∷ rs)); den = total };
      p95_latency_ms = p95 (durations (r ∷ rs));
      error_rate = record { num = count is_error (r ∷ rs) * 100; den = total };
      langfuse_enabled = langfuse;
    }

unfoldable pub get_metrics_summary : Bool → Option Text → Tracker → Summary
unfolding selected summary_of
get_metrics_summary langfuse tenant_id t = summary_of langfuse (selected tenant_id t)

-- At least 95 in 100 of the values do not exceed the percentile, and at least 5 in 100 are not
-- below it.
p95_rank :
    (x : ℕ) (xs : List ℕ)
    → (95 * length (x ∷ xs) ≤ 100 * count (λ y. leb y (p95 (x ∷ xs))) (x ∷ xs))
      × (5 * length (x ∷ xs) ≤ 100 * count (leb (p95 (x ∷ xs))) (x ∷ xs))
unfolding p95
p95_rank x xs =
    let ls = sort (x ∷ xs) in
    let i : ℕ = min (length (x ∷ xs) * 95 / 100) (length (x ∷ xs) - 1) in
    let bounds = rank_bounds ls i (sort-IsSorted (x ∷ xs)) (omega (arith, length-sort (x ∷ xs))) in
    let below = count-sort (λ y. leb y (get_or ls i 0)) (x ∷ xs) in
    let above = count-sort (leb (get_or ls i 0)) (x ∷ xs) in
    let same = length-sort (x ∷ xs) in
    (omega (arith, bounds, below), omega (arith, bounds, above, same))

length-durations : (rs : List TraceRecord) → length (durations rs) ≡ length rs
length-durations [] = refl
length-durations (r ∷ rs) = omega (arith, length-durations rs)

-- The percentage of `n` of `total`, which is 0 of nothing.
abbrev pub rate : ℕ → ℕ → Ratio
rate n total = record { num = 100 * n; den = max 1 total }

-- Of some value at an index of a list there is one at least in the list.
get_or-count : (xs : List ℕ) (i : ℕ) → i < length xs → 1 ≤ count (λ x. x == get_or xs i 0) xs
get_or-count [] i h = absurd (ground arith)
get_or-count (x ∷ xs) zero h = ground arith
get_or-count (x ∷ xs) (suc i) h = ground (arith, get_or-count xs i)

p95_listed : (x : ℕ) (xs : List ℕ) → 1 ≤ count (λ y. y == p95 (x ∷ xs)) (x ∷ xs)
unfolding p95
p95_listed x xs =
    let ls = sort (x ∷ xs) in
    let i : ℕ = min (length (x ∷ xs) * 95 / 100) (length (x ∷ xs) - 1) in
    let same = length-sort (x ∷ xs) in
    let kept = count-sort (λ y. y == get_or ls i 0) (x ∷ xs) in
    omega (arith, get_or-count ls i (omega (arith, same)), kept)

count-filter {ℓ} :
    {A : Type ℓ} (p q : A → Bool) (xs : List A) → count q (filter p xs) ≡ count (λ x. p x && q x) xs
count-filter p q [] = refl
count-filter p q (x ∷ xs) = ground (arith, count-filter p q xs)

-- Of the tenant's records a summary gives the number, the percentages of cache hits and of errors,
-- and the mean of the latencies as their sum by their number (0 where there is no record); the
-- percentile is one of the latencies, at least 95 in 100 of them are at most, and 5 in 100 at least,
-- the percentile.
pub summary_sound :
    (langfuse : Bool) (tenant : Text) (t : Tracker)
    → let s = get_metrics_summary langfuse (some tenant) t in
      let ds = durations (filter (of_tenant tenant) t.traces) in
      (s.total_requests ≡ count (of_tenant tenant) t.traces)
      × (s.cache_hit_rate
          ≡ rate (count (λ r. of_tenant tenant r && r.cache_hit) t.traces) s.total_requests)
      × (s.error_rate
          ≡ rate (count (λ r. of_tenant tenant r && is_error r) t.traces) s.total_requests)
      × (s.avg_latency_ms.num ≡ sum ds)
      × (s.avg_latency_ms.den ≡ max 1 s.total_requests)
      × (min 1 s.total_requests ≤ count (λ d. d == s.p95_latency_ms) ds)
      × (95 * s.total_requests ≤ 100 * count (λ d. leb d s.p95_latency_ms) ds)
      × (5 * s.total_requests ≤ 100 * count (leb s.p95_latency_ms) ds)
unfolding get_metrics_summary
summary_sound langfuse tenant t =
    let mine = of_tenant tenant in
    of_records (filter mine t.traces) (length-filter mine t.traces)
      (count-filter mine (λ r. r.cache_hit) t.traces) (count-filter mine is_error t.traces)
  where
    of_records :
        (rs : List TraceRecord)
        → length rs ≡ count (of_tenant tenant) t.traces
        → count (λ r. r.cache_hit) rs ≡ count (λ r. of_tenant tenant r && r.cache_hit) t.traces
        → count is_error rs ≡ count (λ r. of_tenant tenant r && is_error r) t.traces
        → let s = summary_of langfuse rs in
          let ds = durations rs in
          (s.total_requests ≡ count (of_tenant tenant) t.traces)
          × (s.cache_hit_rate
              ≡ rate (count (λ r. of_tenant tenant r && r.cache_hit) t.traces) s.total_requests)
          × (s.error_rate
              ≡ rate (count (λ r. of_tenant tenant r && is_error r) t.traces) s.total_requests)
          × (s.avg_latency_ms.num ≡ sum ds)
          × (s.avg_latency_ms.den ≡ max 1 s.total_requests)
          × (min 1 s.total_requests ≤ count (λ d. d == s.p95_latency_ms) ds)
          × (95 * s.total_requests ≤ 100 * count (λ d. leb d s.p95_latency_ms) ds)
          × (5 * s.total_requests ≤ 100 * count (leb s.p95_latency_ms) ds)
    of_records [] e hits errors = (
      e,
      ap (λ n. rate n 0) hits,
      ap (λ n. rate n 0) errors,
      refl,
      refl,
      omega arith,
      omega arith,
      omega arith,
    )
    of_records (r ∷ rs) e hits errors =
        let rank = p95_rank r.total_duration_ms (durations rs) in
        let same = length-durations rs in
        (
          e,
          as_rate _ _ (r ∷ rs) (omega (arith, hits)),
          as_rate _ _ (r ∷ rs) (omega (arith, errors)),
          refl,
          omega arith,
          omega (arith, p95_listed r.total_duration_ms (durations rs)),
          omega (arith, rank, same),
          omega (arith, rank, same),
        )
      where
        as_rate :
            (a b : ℕ) (xs : List TraceRecord)
            → (a ≡ 100 * b) × (0 < length xs)
            → record { num = a; den = length xs } ≡ rate b (length xs)
        as_rate a b xs (same_num, some_record) =
            ap (λ x. record { num = x; den = length xs }) same_num
            ∙ ap (λ y. record { num = 100 * b; den = y }) (omega (arith, some_record))
