-- ===== src/Telemetry.antt =====
-- app/core/tracing.py: the in-memory trace collector.
-- Readings of the two clocks are arguments, in ticks of ten microseconds, so that a duration in
-- ticks is the source's `round(seconds * 1000, 2)` in hundredths of a millisecond. The collector
-- belongs to one event loop, so each method is one step. The export to Langfuse is not modelled.
pub mod History
pub mod Spans
pub mod Metrics
use enterprise_multi_tenant.Base.{
  ℕ, ◌-◌, Bool, not, List, [], ◌∷◌, ◌++◌, Option, none, some, length, take, filter, ltb,
  if◌then◌else◌,
}
use enterprise_multi_tenant.Text.{Text, text, text_eq}
use enterprise_multi_tenant.Dict
use enterprise_multi_tenant.Dict.{Dict}

abbrev pub max_trace_history : ℕ
max_trace_history = 500

pub record SpanRecord : Type 0 where
  pub span_id : Text
  pub name : Text
  pub start_time : ℕ
  pub end_time : ℕ
  pub duration_ms : ℕ
  pub status : Text
  pub metadata : Dict Text

pub record TraceRecord : Type 0 where
  pub trace_id : Text
  pub tenant_id : Text
  pub user_id : Text
  pub role : Text
  pub query_preview : Text
  pub created_at : ℕ
  pub total_duration_ms : ℕ
  pub cache_hit : Bool
  pub rewrite_count : ℕ
  pub chunks_retrieved : ℕ
  pub spans : List SpanRecord
  pub status : Text
  pub error_message : Option Text

-- `TelemetryTracker`: `maxlen` is the bound of the deque, whose newest record stands first.
pub record Tracker : Type 0 where
  pub maxlen : ℕ
  pub traces : List TraceRecord
  pub active_spans : Dict (List SpanRecord)

-- `__init__`
abbrev pub new_tracker : ℕ → Tracker
new_tracker maxlen = record { maxlen = maxlen; traces = []; active_spans = [] }

unfoldable pub start_trace : Text → Tracker → Tracker
start_trace trace_id t = record t { active_spans = Dict.put trace_id [] t.active_spans }

-- The readings that one span takes: both clocks at both ends, and a fresh identifier.
pub record SpanReadings : Type 0 where
  pub start : ℕ
  pub start_wall : ℕ
  pub end : ℕ
  pub end_wall : ℕ
  pub uuid : Text

-- `if trace_id in self._active_spans: self._active_spans[trace_id].append(span)`
abbrev append_span : Text → SpanRecord → Dict (List SpanRecord) → Dict (List SpanRecord)
append_span trace_id span d = elim (Dict.get trace_id d) [
  | none ↦ d
  | some spans ↦ Dict.put trace_id (spans ++ span ∷ []) d
]

-- The `finally` of `record_span`: `metadata` is what the body left in `span_meta`, and `failure`
-- the text of the exception that it raised, if it raised one.
unfoldable pub record_span :
    Text → Text → Dict Text → Option Text → SpanReadings → Tracker → Tracker
record_span trace_id span_name metadata failure r t =
    let span : SpanRecord = record {
      span_id = span_name ++ text "_" ++ r.uuid;
      name = span_name;
      start_time = r.start_wall;
      end_time = r.end_wall;
      duration_ms = r.end - r.start;
      status = elim failure [ none ↦ text "ok" | some _ ↦ text "error" ];
      metadata = elim failure [ none ↦ metadata | some e ↦ Dict.put (text "error") e metadata ];
    } in
    record t { active_spans = append_span trace_id span t.active_spans }

-- `(query[:80] + "...") if len(query) > 80 else query`
unfoldable pub preview : Text → Text
preview query = if ltb 80 (length query) then take 80 query ++ text "..." else query

-- `deque(maxlen).appendleft`: at the bound the record at the other end is dropped.
abbrev append_left : {A : Type 0} → ℕ → A → List A → List A
append_left maxlen x xs = take maxlen (x ∷ xs)

-- The arguments of `finalize_trace`, with the readings of `perf_counter` and `time`.
pub record Finished : Type 0 where
  pub trace_id : Text
  pub tenant_id : Text
  pub user_id : Text
  pub role : Text
  pub query : Text
  pub start_time : ℕ
  pub cache_hit : Bool
  pub rewrite_count : ℕ
  pub chunks_retrieved : ℕ
  pub error_message : Option Text
  pub now : ℕ
  pub wall : ℕ

-- An empty message is as good as none: `"error" if error_message else "ok"`.
abbrev status_of : Option Text → Text
status_of none = text "ok"
status_of (some []) = text "ok"
status_of (some (c ∷ s)) = text "error"

unfoldable pub finalize_trace : Finished → Tracker → TraceRecord × Tracker
unfolding preview
finalize_trace f t =
    let elapsed = f.now - f.start_time in
    let spans : List SpanRecord = elim (Dict.get f.trace_id t.active_spans) [
      | none ↦ []
      | some s ↦ s
    ] in
    let trace : TraceRecord = record {
      trace_id = f.trace_id;
      tenant_id = f.tenant_id;
      user_id = f.user_id;
      role = f.role;
      query_preview = preview f.query;
      created_at = f.wall - elapsed;
      total_duration_ms = elapsed;
      cache_hit = f.cache_hit;
      rewrite_count = f.rewrite_count;
      chunks_retrieved = f.chunks_retrieved;
      spans = spans;
      status = status_of f.error_message;
      error_message = f.error_message;
    } in
    (
      trace,
      record t {
        traces = append_left t.maxlen trace t.traces;
        active_spans = Dict.remove f.trace_id t.active_spans;
      },
    )

abbrev pub of_tenant : Text → TraceRecord → Bool
of_tenant tenant_id r = text_eq r.tenant_id tenant_id

unfoldable pub get_traces_for_tenant : Text → ℕ → Tracker → List TraceRecord
get_traces_for_tenant tenant_id limit t = take limit (filter (of_tenant tenant_id) t.traces)

-- `clear_traces(tenant_id)`, and `clear_traces(None)`, which also forgets the open spans.
unfoldable pub clear_traces : Option Text → Tracker → ℕ × Tracker
clear_traces none t = (length t.traces, record t { traces = []; active_spans = [] })
clear_traces (some tenant_id) t =
    let remaining = filter (λ r. not (of_tenant tenant_id r)) t.traces in
    (length t.traces - length remaining, record t { traces = remaining })
