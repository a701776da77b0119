-- ===== src/Telemetry/History.antt =====
-- What the bounded history of `TelemetryTracker` keeps, shows and forgets.
use enterprise_multi_tenant.Base.{
  ℕ, ◌≤◌, ◌<◌, ◌≡◌, ◌≢◌, refl, true, not, List, [], ◌∷◌, Option, none, some, arith, length, take,
  filter, count, All, All-take, take_all, take-nil, length-take, length-filter, length-filter-le,
  count_split, filter-filter_disjoint, filter-filter_of_imp, if◌then◌else◌,
}
use enterprise_multi_tenant.Text.{Text, text_eq, text_eq_iff}
use enterprise_multi_tenant.Dict.{Dict}
use enterprise_multi_tenant.Telemetry.{
  Tracker, TraceRecord, SpanReadings, Finished, of_tenant, start_trace, record_span, finalize_trace,
  get_traces_for_tenant, clear_traces, new_tracker,
}

-- One call of a method that changes the collector.
pub data Step : Tracker → Tracker → Type 0 where
  start : (id : Text) (t : Tracker) → Step t (start_trace id t)
  span :
      (id name : Text) (m : Dict Text) (failure : Option Text) (r : SpanReadings) (t : Tracker)
      → Step t (record_span id name m failure r t)
  finalize : (f : Finished) (t : Tracker) → Step t (finalize_trace f t).1
  clear : (tenant : Option Text) (t : Tracker) → Step t (clear_traces tenant t).1

pub data Reach (s : Tracker) : Tracker → Type 0 where
  here : Reach s s
  next : {t u : Tracker} → Reach s t → Step t u → Reach s u

abbrev pub IsBounded : ℕ → Tracker → Type 0
IsBounded n t = (t.maxlen ≡ n) × (length t.traces ≤ n)

Step-IsBounded : {n : ℕ} {t u : Tracker} → Step t u → IsBounded n t → IsBounded n u
unfolding start_trace record_span finalize_trace clear_traces
Step-IsBounded (start id t) h = h
Step-IsBounded (span id name m f r t) h = h
Step-IsBounded (finalize f t) h =
    (h.0, omega (arith, length-take t.maxlen ((finalize_trace f t).0 ∷ t.traces)))
Step-IsBounded (clear none t) h = (h.0, omega arith)
Step-IsBounded (clear (some tenant) t) h =
    (h.0, omega (arith, length-filter-le (λ r. not (of_tenant tenant r)) t.traces))

-- Whatever calls are made, in any order, a collector built for `n` records never holds more.
pub history-IsBounded : (n : ℕ) {t : Tracker} → Reach (new_tracker n) t → IsBounded n t
history-IsBounded n here = (refl, omega arith)
history-IsBounded n (next r s) = Step-IsBounded s (history-IsBounded n r)

-- While there is room, a finished request stands first among its own tenant's records, up to the
-- limit, and every other tenant sees what it saw before.
pub finalize_visible :
    (f : Finished) (tenant : Text) (limit : ℕ) (t : Tracker)
    → length t.traces < t.maxlen
    → get_traces_for_tenant tenant limit (finalize_trace f t).1 ≡ (
        if text_eq f.tenant_id tenant
        then take limit ((finalize_trace f t).0 ∷ filter (of_tenant tenant) t.traces)
        else get_traces_for_tenant tenant limit t)
unfolding finalize_trace get_traces_for_tenant
finalize_visible f tenant limit t room =
    rw (take_all t.maxlen ((finalize_trace f t).0 ∷ t.traces) (omega arith)) (ground arith)

-- A tenant is shown records of that tenant alone, and at most as many as it asked for.
pub traces_of_tenant_only :
    (tenant : Text) (limit : ℕ) (t : Tracker)
    → All (λ r. r.tenant_id ≡ tenant) (get_traces_for_tenant tenant limit t)
      × (length (get_traces_for_tenant tenant limit t) ≤ limit)
unfolding get_traces_for_tenant
traces_of_tenant_only tenant limit t = (
  All-take (λ r. r.tenant_id ≡ tenant) limit (filter (of_tenant tenant) t.traces) (owned t.traces),
  omega (arith, length-take limit (filter (of_tenant tenant) t.traces)),
)
  where
    owned : (rs : List TraceRecord) → All (λ r. r.tenant_id ≡ tenant) (filter (of_tenant tenant) rs)
    owned [] = tt
    owned (r ∷ rs) = ground (arith, owned rs, text_eq_iff r.tenant_id tenant)

-- Clearing one tenant reports how many records it had, leaves none of them, changes no other
-- tenant's records and no open span.
pub clear_traces_exact :
    (tenant other : Text) (limit : ℕ) (t : Tracker)
    → tenant ≢ other
    → ((clear_traces (some tenant) t).0 ≡ count (of_tenant tenant) t.traces)
      × (get_traces_for_tenant tenant limit (clear_traces (some tenant) t).1 ≡ [])
      × (get_traces_for_tenant other limit (clear_traces (some tenant) t).1
          ≡ get_traces_for_tenant other limit t)
      × ((clear_traces (some tenant) t).1.active_spans ≡ t.active_spans)
unfolding clear_traces get_traces_for_tenant
clear_traces_exact tenant other limit t ne = (
  omega (
    arith,
    length-filter (λ r. not (of_tenant tenant r)) t.traces,
    count_split (of_tenant tenant) t.traces,
  ),
  rw (filter-filter_disjoint (λ r. not (of_tenant tenant r)) (of_tenant tenant) t.traces gone)
      (take-nil limit),
  rw (filter-filter_of_imp (λ r. not (of_tenant tenant r)) (of_tenant other) t.traces kept),
  refl,
)
  where
    gone : (r : TraceRecord) → not (of_tenant tenant r) ≡ true → of_tenant tenant r ≡ true → ⊥
    gone r a b = ground arith

    kept : (r : TraceRecord) → of_tenant other r ≡ true → not (of_tenant tenant r) ≡ true
    kept r a = ground (arith, text_eq_iff r.tenant_id tenant, text_eq_iff r.tenant_id other)
