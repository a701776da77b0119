-- ===== src/Routes.antt =====
-- The handlers of app/api/routes.py. Each one runs as one step on the state of the whole service;
-- the audit log is left out. FastAPI has decided who the caller is before a handler runs, and has
-- refused a request whose parameters are not of the declared form; an exception that a handler does
-- not catch is answered with 500.
pub mod Accounts
pub mod Sessions
pub mod Knowledge
pub mod Tasks
pub mod Histories
pub mod ChatStream
pub mod Service
pub mod Privilege
pub mod Isolation
pub mod Tenancy
pub mod Deletion
pub mod Refinement
pub mod Runs
use enterprise_multi_tenant.Base.{
  ℕ, ◌+◌, Bool, true, false, not, List, [], ◌∷◌, ◌++◌, Option, none, some,
}
use enterprise_multi_tenant.Text.{Text, text, text_eq}
use enterprise_multi_tenant.Dict.{Dict}
use enterprise_multi_tenant.Users
use enterprise_multi_tenant.Users.{TokenData}
use enterprise_multi_tenant.RateLimit.{Counters, Redis, Call, enforce_rate_limit}
use enterprise_multi_tenant.Telemetry.{Tracker}
use enterprise_multi_tenant.Threads.{Checkpoints}
use enterprise_multi_tenant.IngestionQueue.{Queues}
use enterprise_multi_tenant.ResponseCache.{Responses}
use enterprise_multi_tenant.Auth.Tokens.{Revoked, RedisReplies}
use enterprise_multi_tenant.Ingestion.{Stores, Replies, Reply}

-- The statuses of the `HTTPException`s, and 500.
pub data Status : Type 0 where
  bad_request unauthorized forbidden not_found conflict too_many_requests internal_server_error
        service_unavailable :
      Status

pub data Response (A : Type 0) : Type 0 where
  answer : A → Response A
  http_exception : Status → Response A

-- An entry of a page of users.
pub record UserEntry : Type 0 where
  pub username : Text
  pub role : Text
  pub created_at : ℕ

-- A page in Redis with the time at which it expires.
pub record CachedPage : Type 0 where
  pub page : List UserEntry
  pub expires_at : ℕ

-- The state of an ingestion as it is polled.
pub record Task : Type 0 where
  pub task_id : Text
  pub status : Text
  pub filename : Text
  pub chunks_ingested : ℕ
  pub doc_id : Option Text
  pub error : Option Text
  pub tenant_id : Text
  pub user_id : Text

-- How Redis answers the calls about tasks of one request, or of one round of the worker: the writes of
-- a task's state in their order, the reading of one, the enqueueing and the acknowledgement.
pub record TaskReplies : Type 0 where
  pub first_write : Bool
  pub second_write : Bool
  pub third_write : Bool
  pub read : Bool
  pub enqueue : Reply
  pub acknowledge : Bool

-- The backends and the memory of the service: `tasks` is `_ingestion_tasks`, and `stored_tasks` has
-- the states in Redis, whose expiry after a day is left out.
pub record Server : Type 0 where
  pub users : Users.Pool
  pub stores : Stores
  pub counters : Counters
  pub user_pages : Dict CachedPage
  pub checkpoints : Option Checkpoints
  pub revoked : Revoked
  pub responses : Responses
  pub queues : Queues
  pub tasks : Dict Task
  pub stored_tasks : Dict Task
  pub tracker : Tracker

-- The settings that the handlers read.
pub record Settings : Type 0 where
  pub allow_self_registration : Bool
  pub auth_rate_limit : ℕ
  pub chat_rate_limit : ℕ
  pub max_upload_bytes : ℕ
  pub access_token_minutes : ℕ
  pub is_local : Bool
  pub is_production : Bool

-- How the backends answer while one request is served: Redis to the limiter, to a revocation, to the
-- reads and writes of the cached pages and of the cached responses, to a bump and to a read of a version, PostgreSQL to the deletion of a history, and
-- Qdrant to a deletion. The clock is `now` in seconds and `micros` in microseconds.
pub record Backends : Type 0 where
  pub now : ℕ
  pub micros : ℕ
  pub redis : Redis
  pub tokens : RedisReplies
  pub history_answers : Bool
  pub pages_answer : Bool
  pub bump_answers : Bool
  pub version_answers : Bool
  pub cache_answers : Bool
  pub deletion : Reply
  pub replies : Replies
  pub task_replies : TaskReplies

-- `current_user.role != "admin"`
abbrev pub is_admin : TokenData → Bool
is_admin u = text_eq u.role (text "admin")

abbrev pub admitted :
    {A : Type 0} → Server → (Server → Response A × Server) → Bool × Counters → Response A × Server
admitted s rest (true, counters) = rest (record s { counters = counters })
admitted s rest (false, counters) =
    (http_exception too_many_requests, record s { counters = counters })

-- `enforce_rate_limit` and the rest of a handler.
unfoldable pub limited :
    {A : Type 0} → ℕ → Call → Server → (Server → Response A × Server) → Response A × Server
limited limit call s rest = admitted s rest (enforce_rate_limit limit call s.counters)
