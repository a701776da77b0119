-- ===== src/Routes/ChatStream.antt =====
-- `chat_stream` of app/api/routes.py with its generator, which runs to its end. Its three tasks
-- touch different stores, so that their order does not matter. The guardrails, the agent's graph with
-- its model, `json.dumps` and the digest are arguments; the spans that the graph records are left out.
pub mod Trace
pub mod Repeat
pub mod Untouched
use enterprise_multi_tenant.Base.{
  ℕ, Bool, true, false, List, [], ◌∷◌, ◌++◌, Option, none, some, if◌then◌else◌,
}
use enterprise_multi_tenant.Text.{Text, text, is_empty}
use enterprise_multi_tenant.Users.{TokenData}
use enterprise_multi_tenant.RateLimit.{Counters, is_rate_limit_exceeded}
use enterprise_multi_tenant.CacheVersion.{get_tenant_cache_version}
use enterprise_multi_tenant.ResponseCache.{Responses, get_cached_response, set_cached_response}
use enterprise_multi_tenant.Telemetry.{Finished, start_trace, finalize_trace}
use enterprise_multi_tenant.Chat.Keys.{JsonItem, ChatScope, build_chat_cache_key}
use enterprise_multi_tenant.Chat.Think.{Filter, start}
use enterprise_multi_tenant.Chat.Think.Stream
use enterprise_multi_tenant.Chat.Think.Stream.{no_response, consume, respond}
use enterprise_multi_tenant.Routes.{
  Response, answer, http_exception, bad_request, too_many_requests, internal_server_error, Server,
  Settings, Backends,
}
use enterprise_multi_tenant.Routes.Knowledge.{identity_of}

-- How the guardrails answer a query: with the text that may be used, with a `ValueError` and its
-- text, or with another exception.
pub data Screened : Type 0 where
  clean : Text → Screened
  rejected : Text → Screened
  broken : Screened

-- A request, with the readings of the clocks and what the graph's model does: the contents of its
-- tokens, and the text of the exception that ends them, if one does.
pub record ChatRequest : Type 0 where
  pub request_id : Text
  pub query : Text
  pub thread_id : Text
  pub screened : Screened
  pub tokens : List Text
  pub failure : Option Text
  pub start_time : ℕ
  pub end_time : ℕ
  pub wall : ℕ

-- The contents of the events that are sent.
pub data Streamed : Type 0 where
  cached_stream : Text → Streamed
  event_stream : List Text → Streamed

-- The arguments of `finalize_trace`.
abbrev pub finished : ChatRequest → TokenData → Text → Bool → Option Text → Finished
finished c u query cache_hit error_message = record {
  trace_id = c.request_id;
  tenant_id = u.tenant_id;
  user_id = u.user_id;
  role = u.role;
  query = query;
  start_time = c.start_time;
  cache_hit = cache_hit;
  rewrite_count = 0;
  chunks_retrieved = 0;
  error_message = error_message;
  now = c.end_time;
  wall = c.wall;
}

abbrev pub finalized : Finished → Server → Server
finalized f s = record s { tracker = (finalize_trace f s.tracker).1 }

-- `f"rate:chat:{tenant_id}:{user_id}"`
abbrev pub chat_rate_key : TokenData → Text
chat_rate_key u = text "rate:chat:" ++ identity_of u

abbrev pub chat_scope : ChatRequest → TokenData → Text → ℕ → ChatScope
chat_scope c u query version = record {
  tenant_id = u.tenant_id;
  user_id = u.user_id;
  role = u.role;
  thread_id = c.thread_id;
  query = query;
  cache_version = version;
}

abbrev pub error_msg : Settings → Text → Text
error_msg settings error =
    if settings.is_production
    then text "Generation failed. Please verify API configuration and retry."
    else text "Generation error: " ++ error

module _ (sanitize_output redact : Text → Text) (settings : Settings) where
  -- An answer with no content is not cached.
  abbrev pub remembered : Backends → Text → Text → Server → Server
  remembered b cache_key [] s = s
  remembered b cache_key (c ∷ full_response) s = record s {
    responses =
        set_cached_response b.cache_answers b.now cache_key (sanitize_output (c ∷ full_response))
          3600 s.responses;
  }

  abbrev pub generated :
      Backends
      → ChatRequest
      → TokenData
      → Text
      → Text
      → Server
      → Option Stream.Response
      → Response Streamed × Server
  generated b c u query cache_key s none = (http_exception internal_server_error, s)
  generated b c u query cache_key s (some r) = (
    answer (event_stream r.sent),
    finalized (finished c u query false none) (remembered b cache_key r.full_response s),
  )

  abbrev pub interrupted :
      ChatRequest
      → TokenData
      → Text
      → Text
      → Server
      → Option (Filter × Stream.Response)
      → Response Streamed × Server
  interrupted c u query error s none = (http_exception internal_server_error, s)
  interrupted c u query error s (some (f, r)) = (
    answer (event_stream (r.sent ++ error_msg settings error ∷ [])),
    finalized (finished c u query false (some error)) s,
  )

  -- `event_generator`: an exception ends the tokens, and what was buffered is not sent.
  abbrev pub event_generator :
      Backends
      → ChatRequest
      → TokenData
      → Text
      → Text
      → Server
      → Option Text
      → Response Streamed × Server
  event_generator b c u query cache_key s none =
      generated b c u query cache_key s (respond redact c.tokens)
  event_generator b c u query cache_key s (some error) =
      interrupted c u query error s (consume redact c.tokens start no_response)

  abbrev pub looked_up :
      Backends
      → ChatRequest
      → TokenData
      → Text
      → Text
      → Server
      → Option Text
      → Response Streamed × Server
  looked_up b c u query cache_key s (some response) = (
    answer (cached_stream (sanitize_output response)),
    finalized (finished c u query true none) s,
  )
  looked_up b c u query cache_key s none = event_generator b c u query cache_key s c.failure

  module _ (dumps : List JsonItem → Text) (hexdigest : Text → Text) where
    abbrev pub cache_key_of : Backends → ChatRequest → TokenData → Text → Server → Text
    cache_key_of b c u query s = build_chat_cache_key dumps hexdigest (
        chat_scope c u query
          (get_tenant_cache_version b.version_answers u.tenant_id s.stores.versions))

    -- What follows the three tasks.
    abbrev pub screened_as :
        Backends → ChatRequest → TokenData → Server → Bool → Screened → Response Streamed × Server
    screened_as b c u s rate_limited broken = (http_exception internal_server_error, s)
    screened_as b c u s rate_limited (rejected error) =
        (http_exception bad_request, finalized (finished c u c.query false (some error)) s)
    screened_as b c u s true (clean query) = (http_exception too_many_requests, s)
    screened_as b c u s false (clean query) =
        let key = cache_key_of b c u query s in
        looked_up b c u query key s (get_cached_response b.cache_answers b.now key s.responses)

    abbrev pub gathered :
        Backends → ChatRequest → TokenData → Server → Bool × Counters → Response Streamed × Server
    gathered b c u s (rate_limited, counters) =
        screened_as b c u
          (record s { counters = counters; tracker = start_trace c.request_id s.tracker })
          rate_limited c.screened

    -- `chat_stream`
    unfoldable pub chat_stream :
        Backends → ChatRequest → TokenData → Server → Response Streamed × Server
    chat_stream b c u s =
        gathered b c u s
          (is_rate_limit_exceeded b.redis (chat_rate_key u) settings.chat_rate_limit 60 s.counters)
