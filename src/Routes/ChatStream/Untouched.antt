-- ===== src/Routes/ChatStream/Untouched.antt =====
-- A chat request changes no users, documents, points or versions.
use enterprise_multi_tenant.Base.{refl, Bool, true, false, List, [], ◌∷◌, Option, none, some}
use enterprise_multi_tenant.Text.{Text}
use enterprise_multi_tenant.Users.{TokenData}
use enterprise_multi_tenant.RateLimit.{Counters}
use enterprise_multi_tenant.Telemetry.{start_trace}
use enterprise_multi_tenant.Chat.Keys.{JsonItem}
use enterprise_multi_tenant.Chat.Think.{Filter, start}
use enterprise_multi_tenant.Chat.Think.Stream
use enterprise_multi_tenant.Chat.Think.Stream.{no_response, consume, respond}
use enterprise_multi_tenant.Routes.{Server, Settings, Backends}
use enterprise_multi_tenant.Routes.ChatStream.{
  Screened, clean, rejected, broken, ChatRequest, remembered, generated, interrupted,
  event_generator, looked_up, screened_as, gathered, chat_stream,
}
use enterprise_multi_tenant.Routes.Isolation.{Untouched, unmoved_self, Untouched-self}

module _ (other : Text) (sanitize_output redact : Text → Text) (settings : Settings) where
  remembered-Untouched :
      (b : Backends) (key full : Text) (s : Server)
      → Untouched other s (remembered sanitize_output redact settings b key full s)
  remembered-Untouched b key [] s = Untouched-self other s
  remembered-Untouched b key (c ∷ full) s = record {
    users = refl;
    stores = unmoved_self other s.stores;
  }

  generator-Untouched :
      (b : Backends) (c : ChatRequest) (u : TokenData) (query key : Text) (s : Server)
      (failure : Option Text)
      → Untouched other s
          (event_generator sanitize_output redact settings b c u query key s failure).1
  generator-Untouched b c u query key s none = go (respond redact c.tokens)
    where
      go :
          (o : Option Stream.Response)
          → Untouched other s (generated sanitize_output redact settings b c u query key s o).1
      go none = Untouched-self other s
      go (some r) =
          let t : Untouched other s
              (remembered sanitize_output redact settings b key r.full_response s) =
            remembered-Untouched b key r.full_response s in
          record { users = t.users; stores = t.stores }
  generator-Untouched b c u query key s (some error) =
      go (consume redact c.tokens start no_response)
    where
      go :
          (o : Option (Filter × Stream.Response))
          → Untouched other s (interrupted sanitize_output redact settings c u query error s o).1
      go none = Untouched-self other s
      go (some (f, r)) = record { users = refl; stores = unmoved_self other s.stores }

  looked_up-Untouched :
      (b : Backends) (c : ChatRequest) (u : TokenData) (query key : Text) (s : Server)
      (o : Option Text)
      → Untouched other s (looked_up sanitize_output redact settings b c u query key s o).1
  looked_up-Untouched b c u query key s (some response) = record {
    users = refl;
    stores = unmoved_self other s.stores;
  }
  looked_up-Untouched b c u query key s none = generator-Untouched b c u query key s c.failure

  module _ (dumps : List JsonItem → Text) (hexdigest : Text → Text) where
    screened-Untouched :
        (b : Backends) (c : ChatRequest) (u : TokenData) (s : Server) (l : Bool) (x : Screened)
        → Untouched other s
            (screened_as sanitize_output redact settings dumps hexdigest b c u s l x).1
    screened-Untouched b c u s l broken = Untouched-self other s
    screened-Untouched b c u s l (rejected error) = record {
      users = refl;
      stores = unmoved_self other s.stores;
    }
    screened-Untouched b c u s true (clean query) = Untouched-self other s
    screened-Untouched b c u s false (clean query) = looked_up-Untouched b c u query _ s _

    gathered-Untouched :
        (b : Backends) (c : ChatRequest) (u : TokenData) (s : Server) (l : Bool × Counters)
        → Untouched other s (gathered sanitize_output redact settings dumps hexdigest b c u s l).1
    gathered-Untouched b c u s (l, counters) =
        let t : Server = record s {
          counters = counters;
          tracker = start_trace c.request_id s.tracker;
        } in
        let after : Untouched other t
            (screened_as sanitize_output redact settings dumps hexdigest b c u t l c.screened).1 =
          screened-Untouched b c u t l c.screened in
        record { users = after.users; stores = after.stores }

    pub chat-Untouched :
        (b : Backends) (c : ChatRequest) (u : TokenData) (s : Server)
        → Untouched other s (chat_stream sanitize_output redact settings dumps hexdigest b c u s).1
    unfolding chat_stream
    chat-Untouched b c u s = gathered-Untouched b c u s _
