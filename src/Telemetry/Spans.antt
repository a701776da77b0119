-- ===== src/Telemetry/Spans.antt =====
-- How the spans of one request travel from `start_trace` to its trace record.
use enterprise_multi_tenant.Base.{
  Option-cases, Bool-cases, inl, inr, ap, ◌∙◌, ◌-◌, ◌≡◌, refl, List, [], ◌∷◌, ◌++◌, Option, none,
  some, arith, if◌then◌else◌, append_assoc, append-nil,
}
use enterprise_multi_tenant.Text.{Text, text, text_eq, text_eq_iff}
use enterprise_multi_tenant.Dict
use enterprise_multi_tenant.Dict.{Dict, dict_laws, get-put, get-remove}
use enterprise_multi_tenant.Telemetry.{
  append_span, Tracker, SpanRecord, SpanReadings, Finished, start_trace, record_span,
  finalize_trace,
}

-- One measured operation of a request: the arguments of `record_span`.
pub record Operation : Type 0 where
  pub trace_id : Text
  pub name : Text
  pub metadata : Dict Text
  pub failure : Option Text
  pub readings : SpanReadings

-- The operations that run between the start and the end of a request, those of other requests
-- among them, in the order in which they end.
pub record_all : List Operation → Tracker → Tracker
record_all [] t = t
record_all (o ∷ os) t =
    record_all os (record_span o.trace_id o.name o.metadata o.failure o.readings t)

-- The span that an operation leaves.
abbrev pub span_of : Operation → SpanRecord
span_of o = record {
  span_id = o.name ++ text "_" ++ o.readings.uuid;
  name = o.name;
  start_time = o.readings.start_wall;
  end_time = o.readings.end_wall;
  duration_ms = o.readings.end - o.readings.start;
  status = elim o.failure [ none ↦ text "ok" | some _ ↦ text "error" ];
  metadata = elim o.failure [ none ↦ o.metadata | some e ↦ Dict.put (text "error") e o.metadata ];
}

abbrev pub spans_for : Text → List Operation → List SpanRecord
spans_for id [] = []
spans_for id (o ∷ os) =
    let rest = spans_for id os in if text_eq o.trace_id id then span_of o ∷ rest else rest

append_span-get :
    (k id : Text) (x : SpanRecord) (d : Dict (List SpanRecord)) (spans : List SpanRecord)
    → Dict.get id d ≡ some spans
    → Dict.get id (append_span k x d) ≡ some (if text_eq k id then spans ++ x ∷ [] else spans)
append_span-get k id x d spans h = elim (Option-cases (Dict.get k d)) [
  | inl missing ↦ ground (arith, text_eq_iff k id)
  | inr (old, found) ↦ ground (arith, text_eq_iff k id, get-put id k (old ++ x ∷ []) d)
]

record_all-get :
    (id : Text) (os : List Operation) (t : Tracker) (spans : List SpanRecord)
    → Dict.get id t.active_spans ≡ some spans
    → Dict.get id (record_all os t).active_spans ≡ some (spans ++ spans_for id os)
unfolding record_all record_span
record_all-get id [] t spans h = rw (append-nil spans) h
record_all-get id (o ∷ os) t spans h =
    let t' = record_span o.trace_id o.name o.metadata o.failure o.readings t in
    let at_id = append_span-get o.trace_id id (span_of o) t.active_spans spans h in
    elim (Bool-cases (text_eq o.trace_id id)) [
      | inl own ↦ rw own (
          record_all-get id os t' (spans ++ span_of o ∷ []) (rw own at at_id)
          ∙ ap some (append_assoc spans (span_of o ∷ []) (spans_for id os)))
      | inr other ↦ rw other (record_all-get id os t' spans (rw other at at_id))
    ]

traces-Untouched : (os : List Operation) (t : Tracker) → (record_all os t).traces ≡ t.traces
unfolding record_all record_span
traces-Untouched [] t = refl
traces-Untouched (o ∷ os) t =
    traces-Untouched os (record_span o.trace_id o.name o.metadata o.failure o.readings t)

-- The record of a request holds the spans of exactly its own operations, in order, however those
-- of other requests ran in between, and the request is no longer open afterwards.
pub finalize_spans :
    (f : Finished) (os : List Operation) (t : Tracker)
    → ((finalize_trace f (record_all os (start_trace f.trace_id t))).0.spans
        ≡ spans_for f.trace_id os)
      × (Dict.get f.trace_id
            (finalize_trace f (record_all os (start_trace f.trace_id t))).1.active_spans
          ≡ none)
unfolding finalize_trace start_trace
finalize_spans f os t =
    let t' = record t { active_spans = Dict.put f.trace_id [] t.active_spans } in
    (ground (arith, record_all-get f.trace_id os t' [] (simp dict_laws)), simp dict_laws)

-- A span whose trace was never started, or has been finalized, is dropped: nothing changes.
pub late_span_dropped :
    (o : Operation) (t : Tracker)
    → Dict.get o.trace_id t.active_spans ≡ none
    → record_span o.trace_id o.name o.metadata o.failure o.readings t ≡ t
unfolding record_span
late_span_dropped o t h = ground arith
