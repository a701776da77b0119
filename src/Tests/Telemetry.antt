-- ===== src/Tests/Telemetry.antt =====
-- The trace collector, run.
use enterprise_multi_tenant.Base.{
  ◌≡◌, ◌≢◌, ◌≤◌, ◌*◌, ◌==◌, ◌&&◌, min, max, false, [], ◌∷◌, some, none, count, filter, leb, arith,
}
use enterprise_multi_tenant.Text.{Text, text}
use enterprise_multi_tenant.Dict
use enterprise_multi_tenant.Telemetry.{
  Tracker, Finished, SpanReadings, new_tracker, start_trace, finalize_trace, clear_traces,
  get_traces_for_tenant, of_tenant,
}
use enterprise_multi_tenant.Telemetry.History.{
  Step, Reach, IsBounded, history-IsBounded, clear_traces_exact,
}
use enterprise_multi_tenant.Telemetry.Spans.{Operation, spans_for, record_all, finalize_spans}
use enterprise_multi_tenant.Telemetry.Metrics.{
  get_metrics_summary, summary_sound, durations, rate, sum, is_error,
}

abbrev request : Text → Text → Finished
request id tenant = record {
  trace_id = id;
  tenant_id = tenant;
  user_id = text "u";
  role = text "viewer";
  query = text "q";
  start_time = 100;
  cache_hit = false;
  rewrite_count = 0;
  chunks_retrieved = 0;
  error_message = none;
  now = 350;
  wall = 9000;
}

abbrev small : Tracker
small = new_tracker 2

abbrev one_trace : Tracker
one_trace = (finalize_trace (request (text "r1") (text "acme")) small).1

abbrev reached : Reach small one_trace
reached = Reach.next Reach.here (Step.finalize (request (text "r1") (text "acme")) small)

history-IsBounded_example : IsBounded 2 one_trace
history-IsBounded_example = history-IsBounded 2 reached

acme_not_beta : text "acme" ≢ text "beta"
acme_not_beta = ground (arith)

clear_traces_exact_example :
    ((clear_traces (some (text "acme")) one_trace).0
      ≡ count (of_tenant (text "acme")) one_trace.traces)
    × (get_traces_for_tenant (text "acme") 9 (clear_traces (some (text "acme")) one_trace).1 ≡ [])
    × (get_traces_for_tenant (text "beta") 9 (clear_traces (some (text "acme")) one_trace).1
        ≡ get_traces_for_tenant (text "beta") 9 one_trace)
    × ((clear_traces (some (text "acme")) one_trace).1.active_spans ≡ one_trace.active_spans)
clear_traces_exact_example =
    clear_traces_exact (text "acme") (text "beta") 9 one_trace acme_not_beta

abbrev readings : SpanReadings
readings = record { start = 5; start_wall = 50; end = 9; end_wall = 54; uuid = text "x" }

abbrev operation : Operation
operation = record {
  trace_id = text "r1";
  name = text "rerank";
  metadata = [];
  failure = some (text "boom");
  readings = readings;
}

finalize_spans_example :
    ((finalize_trace
        (request (text "r1") (text "acme"))
        (record_all (operation ∷ []) (start_trace (text "r1") small))).0.spans
      ≡ spans_for (text "r1") (operation ∷ []))
    × (Dict.get
          (text "r1")
          (finalize_trace
            (request (text "r1") (text "acme"))
            (record_all (operation ∷ []) (start_trace (text "r1") small))).1.active_spans
        ≡ none)
finalize_spans_example = finalize_spans (request (text "r1") (text "acme")) (operation ∷ []) small

summary_sound_example :
    let s = get_metrics_summary false (some (text "acme")) one_trace in
    let ds = durations (filter (of_tenant (text "acme")) one_trace.traces) in
    (s.total_requests ≡ count (of_tenant (text "acme")) one_trace.traces)
    × (s.cache_hit_rate
        ≡ rate
            (count (λ r. of_tenant (text "acme") r && r.cache_hit) one_trace.traces)
            s.total_requests)
    × (s.error_rate
        ≡ rate
            (count (λ r. of_tenant (text "acme") r && is_error r) one_trace.traces)
            s.total_requests)
    × (s.avg_latency_ms.num ≡ sum ds)
    × (s.avg_latency_ms.den ≡ max 1 s.total_requests)
    × (min 1 s.total_requests ≤ count (λ d. d == s.p95_latency_ms) ds)
    × (95 * s.total_requests ≤ 100 * count (λ d. leb d s.p95_latency_ms) ds)
    × (5 * s.total_requests ≤ 100 * count (leb s.p95_latency_ms) ds)
summary_sound_example = summary_sound false (text "acme") one_trace
