-- ===== src/Lib.antt =====
-- A verification library for the multi-tenant retrieval platform: the parts of the Python
-- service that keep tenants apart, decide who gets in and answer questions, as executable
-- definitions with the theorems that hold of them.
--
-- The parts of the program and how they interact. The routes of app/api/routes.py take a bearer
-- token, which app/core/auth.py turns into a user, a tenant and a role. A chat request runs the
-- graph of app/agents/graph.py for that tenant and role, filters the tokens of its model, and is
-- traced by app/core/tracing.py. The graph lists documents of app/database.py and searches Qdrant
-- (app/db/qdrant.py). Users are rows of the table that app/database.py, app/tenant_user.py and
-- app/core/auth.py read and write.
--
-- Telemetry      app/core/tracing.py. `TelemetryTracker` is a record with the bounded list of traces,
--                newest first, and the dictionary of active spans; each method is a function to
--                the new record. History, Spans and Metrics hold the proofs; Metrics also has
--                `get_metrics_summary`.
-- Chat.Think     the token loop of `chat_stream` in app/api/routes.py: `inside_think` and
--                `think_buffer` are the record Filter, a pass of `while` is `pass`, the loop
--                `drain`, a token `feed`. Visible says which text a whole response shows, Loop
--                what a token does, Stream has the delivery of fragments (`respond`).
-- Chat.Keys      the keys of the response cache and of the checkpointer in app/api/routes.py; Scope
--                holds the proofs, with the LIKE of the deletion of a user's histories.
-- Documents      the functions on `documents` of app/database.py. A table is the list of its rows
--                and each function, one transaction, a step on it; Listing has
--                `list_tenant_documents` with the SQL operators that it uses, Quota, Tenancy and
--                Clearance the proofs.
-- Users          the functions on `tenant_users`: app/database.py, app/tenant_user.py and
--                `authenticate_user` of app/core/auth.py. Table, Lockout and Access hold the proofs.
-- Auth           `get_current_tenant_user` and `verify_oidc_token` of app/core/auth.py,
--                `is_token_revoked` of app/redis_client.py. Tokens has the life of an access token,
--                with the entries of revoked ones; Local, Oidc and Session hold the proofs.
-- Agent          app/agents/graph.py: the state, the services that a run calls, the nodes
--                (Nodes), the edges and a run (Graph); Isolation is about what a run reads.
--                Tenancy joins it to the document table.
-- VectorStore    app/db/qdrant.py: filters as data, searches and deletions; Access holds the proofs.
-- RateLimit      `is_rate_limit_exceeded` of app/redis_client.py and `enforce_rate_limit` of
--                app/api/routes.py over Redis' counters; Window holds the proofs.
-- CacheVersion   the versions of tenants' caches in app/redis_client.py; Bump holds the proof.
-- IngestionQueue the queue of app/redis_client.py: its two lists, the leases and the payloads; each
--                call is one step, in which any command of a claim may raise. Counts says what the
--                commands do to a count; Leases, Claims and Recovery hold the proofs.
-- Threads        the deletions of conversation histories in app/database.py; Clearing holds the proof.
-- ResponseCache  the cached responses of app/redis_client.py.
-- Ingestion      `_process_document_ingestion` of app/api/routes.py: `prepare` has the steps up to the
--                first write, `commit` those from it on, each with the compensation that follows its
--                failure. Synced says when PostgreSQL and Qdrant are in step; Replaced, Commit,
--                Success, Rollback and Isolation hold the proofs, Catalog what both stores promise.
-- Routes         the handlers of app/api/routes.py, each a function from the state of the service
--                (Server) to a response and the next state: Accounts and Sessions for users and
--                tokens, Knowledge for documents, Tasks for asynchronous ingestion and its worker,
--                Histories for conversations and telemetry, ChatStream for the chat. Service joins the
--                requests of a user in `serve`. Proofs: Privilege, Isolation and Tenancy about
--                `serve`; Deletion, Refinement and Runs about the documents next to the catalog of
--                Ingestion.Catalog, which is their specification; the modules below Tasks and
--                ChatStream.
-- Guardrails     app/core/security.py, with the regular expressions' engine, Presidio and NeMo
--                Guardrails as arguments; Screening holds the proof.
-- Rerank         app/core/rerank.py, with the service as an argument; Candidates holds the proofs.
-- Role           the pattern of a role.
-- Base, Text, Dict   shared: tests, lists, sorting, rows of a table; Python's `str` as a list of
--                code points; Python's `dict`.
-- Tests          each theorem at a concrete input, and runs of the definitions.
--
-- Bounds and fuel. `drain` has fuel one above the buffer's length, since each pass that goes on
-- removes a tag; that a response always results is part of a theorem. A run of the graph is given
-- a number of nodes; six are enough. Times and sizes are natural numbers: milliseconds for
-- durations, seconds for clocks, microseconds for that of a revocation, which rounds to
-- seconds; rounding to two decimals is left out, and rates are exact
-- fractions. `lower` moves the ASCII letters only.
--
-- Parameters. Code outside the repository is an argument: the JOSE library's check of a token,
-- the password hash, Redis' and the key server's answers, the language model, the clock, the
-- order of the database's collation, Qdrant, `json.dumps` and SHA-256. The graph also takes the
-- documents' list, the search, the reranker and the redaction as arguments, any of which may
-- raise.
--
-- The routes. One request or one round of the worker runs at a time, in one process, and the
-- generator of a chat runs to its end. An ingestion and a deletion take as arguments which calls fail, and whether a call that fails has taken effect;
-- PostgreSQL's other statements answer while its pool is open. A page of users has a limit and an
-- offset that are not negative.
--
-- Not modelled: the audit log, the middleware, the set-up of Qdrant, the configuration, the parser,
-- the export of traces to Langfuse, and the Streamlit front end. Simultaneous requests are not
-- modelled, nor are the commands of several calls of the queue interleaved.
pub mod Base
pub mod Text
pub mod Dict
pub mod Telemetry
pub mod Agent
pub mod Chat
pub mod Role
pub mod Documents
pub mod Users
pub mod Auth
pub mod RateLimit
pub mod IngestionQueue
pub mod Rerank
pub mod VectorStore
pub mod CacheVersion
pub mod Ingestion
pub mod Threads
pub mod ResponseCache
pub mod Guardrails
pub mod Routes
pub mod Tests
