-- ===== src/Tests/Routes.antt =====
-- Requests, run on a service with two tenants.
use enterprise_multi_tenant.Base.{
  ◌*◌, ℕ, ◌≡◌, ◌≢◌, refl, true, false, [], ◌∷◌, none, some, flatten, arith, if◌then◌else◌,
}
use enterprise_multi_tenant.Text.{Text, text, text_eq, find, starts_with}
use enterprise_multi_tenant.Dict.{get, put, remove}
use enterprise_multi_tenant.Users.{TokenData}
use enterprise_multi_tenant.RateLimit
use enterprise_multi_tenant.RateLimit.{Redis, counted, is_rate_limit_exceeded}
use enterprise_multi_tenant.CacheVersion.{get_tenant_cache_version}
use enterprise_multi_tenant.ResponseCache.{get_cached_response, set_cached_response}
use enterprise_multi_tenant.Telemetry.{new_tracker, start_trace, finalize_trace}
use enterprise_multi_tenant.Ingestion.{applied}
use enterprise_multi_tenant.Auth.Tokens.{Jwt}
use enterprise_multi_tenant.Chat.Keys.{build_chat_cache_key}
use enterprise_multi_tenant.Chat.Think.{pass, drain, feed}
use enterprise_multi_tenant.Chat.Think.Stream.{deliver, deliver_all, consume, flush, respond}
use enterprise_multi_tenant.Routes.{Response, answer, forbidden, Server, Settings, Backends}
use enterprise_multi_tenant.Routes.Service.{Service, clear_docs, serve}
use enterprise_multi_tenant.Routes.Privilege.{privileged_refused}
use enterprise_multi_tenant.Routes.Isolation.{Untouched}
use enterprise_multi_tenant.Routes.Tenancy.Serve.{serve_isolated}
use enterprise_multi_tenant.Routes.ChatStream.{
  ChatRequest, clean, Streamed, cached_stream, event_stream, chat_rate_key, chat_stream,
}
use enterprise_multi_tenant.Routes.ChatStream.Trace.{open_spans, is_abandoned, chat_trace_exact}
use enterprise_multi_tenant.Routes.ChatStream.Repeat.{chat_repeat}
use enterprise_multi_tenant.RateLimit.{enforce_rate_limit}
use enterprise_multi_tenant.Tests.Ingestion.{
  add_points, remove_points, points-IsQdrant, pipeline, answering, stores,
}

abbrev pub settings : Settings
settings = record {
  allow_self_registration = false;
  auth_rate_limit = 5;
  chat_rate_limit = 5;
  max_upload_bytes = 100;
  access_token_minutes = 60;
  is_local = true;
  is_production = true;
}

abbrev no_tokens : Jwt
no_tokens = record { encode = λ c. []; decode = λ now token. none }

abbrev service : Service
service = record {
  settings = settings;
  pipeline = pipeline;
  upsert = add_points;
  delete = remove_points;
  hash = λ s. s;
  before = λ s t. false;
  str = λ n. n ∷ [];
  dumps = λ items. [];
  hexdigest = λ s. s;
  sanitize_output = λ s. s;
  redact = λ s. s;
  jwt = no_tokens;
}

abbrev pub at : ℕ → Backends
at now = record {
  now = now;
  micros = now * 1000000;
  redis = record { now = now; incr_answers = true; expire_answers = true; require_redis = true };
  tokens = record { answers = true; require_redis = true };
  history_answers = true;
  pages_answer = true;
  bump_answers = true;
  version_answers = true;
  cache_answers = true;
  deletion = applied;
  replies = answering;
  task_replies = record {
    first_write = true;
    second_write = true;
    third_write = true;
    read = true;
    enqueue = applied;
    acknowledge = true;
  };
}

abbrev pub user_of : Text → Text → TokenData
user_of tenant role = record { user_id = text "ann"; tenant_id = tenant; role = role }

abbrev pub server : Server
server = record {
  users = some [];
  stores = stores;
  counters = [];
  user_pages = [];
  checkpoints = none;
  revoked = [];
  responses = [];
  queues = record { queue = []; processing = []; leases = []; payloads = [] };
  tasks = [];
  stored_tasks = [];
  tracker = new_tracker 500;
}

s-ne-t : text "s" ≢ text "t"
s-ne-t = ground arith

serve_isolated_example :
    Untouched
      (text "t")
      server
      (serve service (at 10) none (user_of (text "s") (text "admin")) clear_docs server).1
serve_isolated_example =
    serve_isolated service points-IsQdrant (at 10) none (user_of (text "s") (text "admin"))
      (text "t") s-ne-t clear_docs server

no_admin : text_eq (text "viewer") (text "admin") ≡ false
unfolding text_eq
no_admin = refl

privileged_refused_example :
    serve service (at 10) none (user_of (text "t") (text "viewer")) clear_docs server
    ≡ (some forbidden, server)
privileged_refused_example =
    privileged_refused service (at 10) none (user_of (text "t") (text "viewer")) clear_docs server
      refl no_admin

abbrev question : Text → ChatRequest
question id = record {
  request_id = id;
  query = text "why";
  thread_id = text "th";
  screened = clean (text "why");
  tokens = text "<think>hm</th" ∷ text "ink>so" ∷ [];
  failure = none;
  start_time = 1;
  end_time = 2;
  wall = 3;
}

chat_trace_exact_example :
    open_spans
      (text "r")
      (chat_stream
        (λ s. s)
        (λ s. s)
        settings
        (λ items. [])
        (λ s. s)
        (at 10)
        (question (text "r"))
        (user_of (text "t") (text "viewer"))
        server).1
    ≡ (if is_abandoned
          (is_rate_limit_exceeded
            (at 10).redis
            (chat_rate_key (user_of (text "t") (text "viewer")))
            5
            60
            []).0
          (clean (text "why"))
        then some []
        else none)
chat_trace_exact_example =
    chat_trace_exact (λ s. s) (λ s. s) settings (λ items. []) (λ s. s) (at 10) (question (text "r"))
      (user_of (text "t") (text "viewer")) server

abbrev first : Response Streamed × Server
first =
    chat_stream (λ s. s) (λ s. s) settings (λ items. []) (λ s. s) (at 10) (question (text "r"))
      (user_of (text "t") (text "viewer")) server

first_streams : first ≡ (answer (event_stream (text "so" ∷ [])), first.1)
unfolding chat_stream RateLimit.is_rate_limit_exceeded counted RateLimit.incremented get put remove
    text_eq get_tenant_cache_version get_cached_response set_cached_response start_trace
    finalize_trace build_chat_cache_key pass drain feed deliver deliver_all consume flush respond
    find starts_with
first_streams = refl

so-ne-nil : flatten (text "so" ∷ []) ≢ []
so-ne-nil e = cc e

second_passes :
    (is_rate_limit_exceeded
      (at 20).redis
      (chat_rate_key (user_of (text "t") (text "viewer")))
      5
      60
      first.1.counters).0
    ≡ false
unfolding chat_stream RateLimit.is_rate_limit_exceeded counted RateLimit.incremented get put remove
    text_eq get_tenant_cache_version get_cached_response set_cached_response start_trace
    finalize_trace build_chat_cache_key pass drain feed deliver deliver_all consume flush respond
    find starts_with
second_passes = refl

chat_repeat_example :
    (chat_stream
      (λ s. s)
      (λ s. s)
      settings
      (λ items. [])
      (λ s. s)
      (at 20)
      (question (text "q"))
      (user_of (text "t") (text "viewer"))
      first.1).0
    ≡ answer (cached_stream (flatten (text "so" ∷ [])))
chat_repeat_example =
    chat_repeat (λ s. s) (λ s. s) settings (λ items. []) (λ s. s) (at 10) (at 20)
      (question (text "r")) (question (text "q")) (user_of (text "t") (text "viewer")) (text "why")
      server first.1 (text "so" ∷ []) refl refl refl refl so-ne-nil refl refl refl (omega arith)
      first_streams second_passes
