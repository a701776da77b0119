-- ===== src/Routes/ChatStream/Repeat.antt =====
-- A question that is asked again is answered from the cache.
use enterprise_multi_tenant.Base.{
  ◌+◌, ◌<◌, ◌≡◌, ◌≢◌, ◌∙◌, refl, ap, sym, Bool, true, false, List, [], ◌∷◌, Option, none, some,
  flatten,
}
use enterprise_multi_tenant.Text.{Text}
use enterprise_multi_tenant.Users.{TokenData}
use enterprise_multi_tenant.RateLimit.{Counters, is_rate_limit_exceeded}
use enterprise_multi_tenant.CacheVersion.{get_tenant_cache_version}
use enterprise_multi_tenant.ResponseCache.{
  get_cached_response, set_cached_response, get-set_cached_response,
}
use enterprise_multi_tenant.Telemetry.{start_trace}
use enterprise_multi_tenant.Chat.Keys.{JsonItem, build_chat_cache_key}
use enterprise_multi_tenant.Chat.Think.Stream.{respond, respond_shows}
use enterprise_multi_tenant.Routes.{Response, answer, http_exception, Server, Settings, Backends}
use enterprise_multi_tenant.Routes.ChatStream.{
  clean, ChatRequest, Streamed, cached_stream, event_stream, chat_scope, chat_rate_key, remembered,
  generated, event_generator, looked_up, cache_key_of, screened_as, gathered, chat_stream,
}

-- The contents of an answer's events.
abbrev pub contents : Response Streamed → List Text
contents (answer (event_stream events)) = events
contents (answer (cached_stream response)) = []
contents (http_exception status) = []

module _ (sanitize_output redact : Text → Text) (settings : Settings) where
  remembered_some :
      (b : Backends) (key full : Text) (s : Server)
      → full ≢ []
      → (remembered sanitize_output redact settings b key full s).responses
        ≡ set_cached_response b.cache_answers b.now key (sanitize_output full) 3600 s.responses
  remembered_some b key [] s given = absurd (given refl)
  remembered_some b key (c ∷ full) s given = refl

  remembered_stores :
      (b : Backends) (key full : Text) (s : Server)
      → (remembered sanitize_output redact settings b key full s).stores ≡ s.stores
  remembered_stores b key [] s = refl
  remembered_stores b key (c ∷ full) s = refl

  -- What a first answer leaves in the cache.
  generated_first :
      (b : Backends) (c : ChatRequest) (u : TokenData) (query key : Text) (s after : Server)
      (events : List Text)
      → flatten events ≢ []
      → generated sanitize_output redact settings b c u query key s (respond redact c.tokens)
        ≡ (answer (event_stream events), after)
      → (after.stores ≡ s.stores)
        × (after.responses
            ≡ set_cached_response b.cache_answers b.now key
                (sanitize_output (flatten events))
                3600
                s.responses)
  generated_first b c u query key s after events given h =
      let (fragments, r, ends, _, _, full) = respond_shows redact c.tokens in
      let ended : generated sanitize_output redact settings b c u query key s (some r)
          ≡ (answer (event_stream events), after) =
        sym (ap (λ o. generated sanitize_output redact settings b c u query key s o) ends) ∙ h in
      let all : r.full_response ≡ flatten events = full ∙ ap (λ x. flatten (contents x.0)) ended in
      (
        ap (λ x. x.1.stores) (sym ended) ∙ remembered_stores b key r.full_response s,
        ap (λ x. x.1.responses) (sym ended)
            ∙ remembered_some b key r.full_response s (λ e. given (sym all ∙ e))
            ∙ ap
                (λ x.
                  set_cached_response b.cache_answers b.now key (sanitize_output x) 3600
                    s.responses)
                all,
      )

  looked_up_first :
      (b : Backends) (c : ChatRequest) (u : TokenData) (query key : Text) (s after : Server)
      (events : List Text) (o : Option Text)
      → c.failure ≡ none
      → flatten events ≢ []
      → looked_up sanitize_output redact settings b c u query key s o
        ≡ (answer (event_stream events), after)
      → (after.stores ≡ s.stores)
        × (after.responses
            ≡ set_cached_response b.cache_answers b.now key
                (sanitize_output (flatten events))
                3600
                s.responses)
  looked_up_first b c u query key s after events (some response) ok given h = absurd (cc h)
  looked_up_first b c u query key s after events none ok given h =
      generated_first b c u query key s after events given
        (ap (λ f. event_generator sanitize_output redact settings b c u query key s f) (sym ok) ∙ h)

  module _ (dumps : List JsonItem → Text) (hexdigest : Text → Text) where
    screened_first :
        (b : Backends) (c : ChatRequest) (u : TokenData) (query : Text) (s after : Server)
        (events : List Text) (l : Bool)
        → c.failure ≡ none
        → flatten events ≢ []
        → screened_as sanitize_output redact settings dumps hexdigest b c u s l (clean query)
          ≡ (answer (event_stream events), after)
        → (after.stores ≡ s.stores)
          × (after.responses
              ≡ set_cached_response b.cache_answers b.now
                  (cache_key_of sanitize_output redact settings dumps hexdigest b c u query s)
                  (sanitize_output (flatten events))
                  3600
                  s.responses)
    screened_first b c u query s after events true ok given h = absurd (cc h)
    screened_first b c u query s after events false ok given h =
        looked_up_first b c u query _ s after events _ ok given h

    gathered_first :
        (b : Backends) (c : ChatRequest) (u : TokenData) (query : Text) (s after : Server)
        (events : List Text) (l : Bool × Counters)
        → c.screened ≡ clean query
        → c.failure ≡ none
        → flatten events ≢ []
        → gathered sanitize_output redact settings dumps hexdigest b c u s l
          ≡ (answer (event_stream events), after)
        → (after.stores ≡ s.stores)
          × (after.responses
              ≡ set_cached_response b.cache_answers b.now
                  (cache_key_of sanitize_output redact settings dumps hexdigest b c u query s)
                  (sanitize_output (flatten events))
                  3600
                  s.responses)
    gathered_first b c u query s after events (l, counters) is_clean ok given h =
        let t : Server = record s {
          counters = counters;
          tracker = start_trace c.request_id s.tracker;
        } in
        screened_first b c u query t after events l ok given (
          ap (screened_as sanitize_output redact settings dumps hexdigest b c u t l) (sym is_clean)
          ∙ h)

    gathered_again :
        (b : Backends) (c : ChatRequest) (u : TokenData) (query response : Text) (s : Server)
        (l : Bool × Counters)
        → l.0 ≡ false
        → c.screened ≡ clean query
        → get_cached_response b.cache_answers b.now
            (cache_key_of sanitize_output redact settings dumps hexdigest b c u query s)
            s.responses
          ≡ some response
        → (gathered sanitize_output redact settings dumps hexdigest b c u s l).0
          ≡ answer (cached_stream (sanitize_output response))
    gathered_again b c u query response s (true, counters) free is_clean h = absurd (cc free)
    gathered_again b c u query response s (false, counters) free is_clean h =
        let t : Server = record s {
          counters = counters;
          tracker = start_trace c.request_id s.tracker;
        } in
        ap (λ x. (screened_as sanitize_output redact settings dumps hexdigest b c u t false x).0)
          is_clean
        ∙ ap
            (λ o.
              (looked_up sanitize_output redact settings b c u query
                (cache_key_of sanitize_output redact settings dumps hexdigest b c u query s) t o).0)
            h

    -- A user who has been answered by the model, completely and with some content, and whose request is
    -- the next that the service serves, asking in the same thread what the guardrails make the same
    -- text of, less than an hour later and with Redis answering and the limiter letting the request
    -- through, is answered from the cache with the whole of the first answer, as the output's guardrails
    -- leave it.
    pub chat_repeat :
        (b b' : Backends) (c c' : ChatRequest) (u : TokenData) (query : Text) (s after : Server)
        (events : List Text)
        → c.screened ≡ clean query
        → c'.screened ≡ clean query
        → c.thread_id ≡ c'.thread_id
        → c.failure ≡ none
        → flatten events ≢ []
        → b.cache_answers ≡ true
        → b'.cache_answers ≡ true
        → b.version_answers ≡ b'.version_answers
        → b'.now < b.now + 3600
        → chat_stream sanitize_output redact settings dumps hexdigest b c u s
          ≡ (answer (event_stream events), after)
        → (is_rate_limit_exceeded b'.redis
            (chat_rate_key u)
            settings.chat_rate_limit
            60
            after.counters).0
          ≡ false
        → (chat_stream sanitize_output redact settings dumps hexdigest b' c' u after).0
          ≡ answer (cached_stream (sanitize_output (sanitize_output (flatten events))))
    unfolding chat_stream
    chat_repeat b b' c c' u query s after events is_clean is_clean' thread ok given cached cached'
          version early h free =
        let (stores, responses) =
          gathered_first b c u query s after events
            (is_rate_limit_exceeded b.redis (chat_rate_key u) settings.chat_rate_limit 60
              s.counters)
            is_clean ok given h in
        let key : Text =
          cache_key_of sanitize_output redact settings dumps hexdigest b c u query s in
        let same_key : cache_key_of sanitize_output redact settings dumps hexdigest b' c' u query
              after
            ≡ key =
          ap
            (λ th. build_chat_cache_key dumps hexdigest (record {
              tenant_id = u.tenant_id;
              user_id = u.user_id;
              role = u.role;
              thread_id = th;
              query = query;
              cache_version =
                  get_tenant_cache_version b'.version_answers u.tenant_id after.stores.versions;
            }))
            (sym thread)
          ∙ ap
              (λ a. build_chat_cache_key dumps hexdigest (
                chat_scope c u query
                  (get_tenant_cache_version a u.tenant_id after.stores.versions)))
              (sym version)
          ∙ ap
              (λ st. build_chat_cache_key dumps hexdigest (
                chat_scope c u query
                  (get_tenant_cache_version b.version_answers u.tenant_id st.versions)))
              stores in
        let stored : after.responses
            ≡ set_cached_response true b.now key (sanitize_output (flatten events)) 3600
                s.responses =
          responses
          ∙ ap
              (λ a.
                set_cached_response a b.now key (sanitize_output (flatten events)) 3600 s.responses)
              cached in
        gathered_again b' c' u query (sanitize_output (flatten events)) after
          (is_rate_limit_exceeded b'.redis (chat_rate_key u) settings.chat_rate_limit 60
            after.counters)
          free is_clean'
          (ap (λ k. get_cached_response b'.cache_answers b'.now k after.responses) same_key
            ∙ ap (λ a. get_cached_response a b'.now key after.responses) cached'
            ∙ ap (λ d. get_cached_response true b'.now key d) stored
            ∙ get-set_cached_response b.now b'.now key (sanitize_output (flatten events)) 3600
                s.responses early)
