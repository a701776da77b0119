-- ===== src/Routes/ChatStream/Trace.antt =====
-- The entry that a chat request has among the open traces.
use enterprise_multi_tenant.Base.{
  ◌≡◌, ◌∙◌, refl, ap, Bool, true, false, List, [], Option, none, some, if◌then◌else◌,
}
use enterprise_multi_tenant.Text.{Text, text_eq_refl}
use enterprise_multi_tenant.Dict.{get, get-put, get-remove}
use enterprise_multi_tenant.Users.{TokenData}
use enterprise_multi_tenant.RateLimit.{Counters, is_rate_limit_exceeded}
use enterprise_multi_tenant.Telemetry.{Finished, SpanRecord, start_trace, finalize_trace}
use enterprise_multi_tenant.Chat.Keys.{JsonItem}
use enterprise_multi_tenant.Chat.Think.Stream.{consume_ends, respond_shows}
use enterprise_multi_tenant.Routes.{Server, Settings, Backends}
use enterprise_multi_tenant.Routes.ChatStream.{
  Screened, clean, rejected, broken, ChatRequest, finished, finalized, chat_rate_key, remembered,
  generated, interrupted, event_generator, looked_up, screened_as, gathered, chat_stream,
}

-- The open spans of a trace.
abbrev pub open_spans : Text → Server → Option (List SpanRecord)
open_spans id s = get id s.tracker.active_spans

finalized_closes : (f : Finished) (s : Server) → open_spans f.trace_id (finalized f s) ≡ none
unfolding finalize_trace
finalized_closes f s =
    get-remove f.trace_id f.trace_id s.tracker.active_spans ∙ rw (text_eq_refl f.trace_id) refl

-- Whether the request ends without `finalize_trace`: after an exception that is no `ValueError`, and
-- after a refusal of the limiter.
abbrev pub is_abandoned : Bool → Screened → Bool
is_abandoned rate_limited broken = true
is_abandoned rate_limited (rejected error) = false
is_abandoned rate_limited (clean query) = rate_limited

module _ (sanitize_output redact : Text → Text) (settings : Settings) (dumps : List JsonItem → Text)
    (hexdigest : Text → Text) where
  generator_closes :
      (b : Backends) (c : ChatRequest) (u : TokenData) (query key : Text) (s : Server)
      (failure : Option Text)
      → open_spans c.request_id
          (event_generator sanitize_output redact settings b c u query key s failure).1
        ≡ none
  generator_closes b c u query key s none =
      let (fragments, r, ends, _, _, _) = respond_shows redact c.tokens in
      ap
        (λ o.
          open_spans c.request_id (generated sanitize_output redact settings b c u query key s o).1)
        ends
      ∙ finalized_closes (finished c u query false none)
          (remembered sanitize_output redact settings b key r.full_response s)
  generator_closes b c u query key s (some error) =
      let (f, r, ends) = consume_ends redact c.tokens in
      ap
        (λ o.
          open_spans c.request_id
            (interrupted sanitize_output redact settings c u query error s o).1)
        ends
      ∙ finalized_closes (finished c u query false (some error)) s

  looked_up_closes :
      (b : Backends) (c : ChatRequest) (u : TokenData) (query key : Text) (s : Server)
      (o : Option Text)
      → open_spans c.request_id (looked_up sanitize_output redact settings b c u query key s o).1
        ≡ none
  looked_up_closes b c u query key s (some response) =
      finalized_closes (finished c u query true none) s
  looked_up_closes b c u query key s none = generator_closes b c u query key s c.failure

  screened_spans :
      (b : Backends) (c : ChatRequest) (u : TokenData) (s : Server) (rate_limited : Bool)
      (x : Screened)
      → open_spans c.request_id s ≡ some []
      → open_spans c.request_id
          (screened_as sanitize_output redact settings dumps hexdigest b c u s rate_limited x).1
        ≡ (if is_abandoned rate_limited x then some [] else none)
  screened_spans b c u s rate_limited broken h = h
  screened_spans b c u s rate_limited (rejected error) h =
      finalized_closes (finished c u c.query false (some error)) s
  screened_spans b c u s true (clean query) h = h
  screened_spans b c u s false (clean query) h = looked_up_closes b c u query _ s _

  -- However a chat request ends, its entry among the open traces is gone, with two exceptions: a
  -- request that the limiter refuses, and one whose check raises what is no `ValueError`, leave an
  -- empty entry there.
  pub chat_trace_exact :
      (b : Backends) (c : ChatRequest) (u : TokenData) (s : Server)
      → open_spans c.request_id
          (chat_stream sanitize_output redact settings dumps hexdigest b c u s).1
        ≡ (if is_abandoned
              (is_rate_limit_exceeded b.redis
                (chat_rate_key u)
                settings.chat_rate_limit
                60
                s.counters).0
              c.screened
            then some []
            else none)
  unfolding chat_stream start_trace
  chat_trace_exact b c u s =
      go (is_rate_limit_exceeded b.redis (chat_rate_key u) settings.chat_rate_limit 60 s.counters)
    where
      go :
          (l : Bool × Counters)
          → open_spans c.request_id
              (gathered sanitize_output redact settings dumps hexdigest b c u s l).1
            ≡ (if is_abandoned l.0 c.screened then some [] else none)
      go (rate_limited, counters) =
          screened_spans b c u
            (record s { counters = counters; tracker = start_trace c.request_id s.tracker })
            rate_limited c.screened
            (get-put c.request_id c.request_id [] s.tracker.active_spans
              ∙ rw (text_eq_refl c.request_id) refl)
