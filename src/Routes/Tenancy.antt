-- ===== src/Routes/Tenancy.antt =====
-- No request of a user of one tenant changes what the service holds for another.
pub mod Serve
use enterprise_multi_tenant.Base.{
  ℕ, ◌+◌, ◌≡◌, ◌≢◌, ◌∙◌, refl, ap, sym, Bool, true, false, not, ◌||◌, List, [], ◌∷◌, Option, none,
  some, take, length, ltb, arith, inl, inr, if◌then◌else◌, Bool-cases,
}
use enterprise_multi_tenant.Text.{Text, text, text_eq, text_eq_iff}
use enterprise_multi_tenant.Dict.{get}
use enterprise_multi_tenant.Users.{TokenData, create_tenant_user, delete_tenant_user}
use enterprise_multi_tenant.RateLimit.{Counters, enforce_rate_limit, is_rate_limit_exceeded}
use enterprise_multi_tenant.Documents.{Pool, delete_tenant_document, delete_all_tenant_documents}
use enterprise_multi_tenant.Documents.Tenancy.{delete_doc, delete_all, write_isolated, rows_of}
use enterprise_multi_tenant.Documents.Tenancy
use enterprise_multi_tenant.VectorStore.{
  Point, Filter, delete_documents_from_qdrant, delete_all_tenant_documents_from_qdrant,
}
use enterprise_multi_tenant.VectorStore.Access.{vectors_isolated}
use enterprise_multi_tenant.Auth.Tokens.{Revoked, revoke_access_token}
use enterprise_multi_tenant.Ingestion.{Stores, called, process_document_ingestion}
use enterprise_multi_tenant.Ingestion.Commit.{IsQdrant}
use enterprise_multi_tenant.Ingestion.Isolation.{
  points_in, Unmoved, bump_unmoved, called_unmoved, ingestion_unmoved,
}
use enterprise_multi_tenant.Telemetry.{start_trace}
use enterprise_multi_tenant.Routes.{
  Response, answer, http_exception, Status, Server, Backends, Settings, is_admin, admitted, limited,
}
use enterprise_multi_tenant.Routes.Accounts.{
  UserRegistrationRequest, listed, live_page, page_key, list_tenant_users, provision_tenant_user,
  list_tenant_users_endpoint, delete_tenant_user_endpoint,
}
use enterprise_multi_tenant.Routes.Sessions.{logged_out, logout}
use enterprise_multi_tenant.Routes.Knowledge.{
  UploadFile, upload_of, is_refused, bumped, purged, unrecorded, cleared, read_and_ingested,
  ingest_document, get_tenant_documents, delete_document, clear_all_documents, identity_call,
}
use enterprise_multi_tenant.Routes.Histories.{
  purged_traces, clear_chat_thread, clear_all_chat_history, get_tenant_traces,
  clear_tenant_telemetry,
}
use enterprise_multi_tenant.Routes.ChatStream.{
  Screened, clean, rejected, broken, ChatRequest, Streamed, remembered, generated, interrupted,
  event_generator, looked_up, screened_as, gathered, chat_stream,
}
use enterprise_multi_tenant.Routes.Isolation.{
  users_of, Untouched, unmoved_self, Untouched-self, create_users, delete_users, created-Untouched,
  deleted_user-Untouched, admitted-Untouched, ingested-Untouched,
}

module _ (other : Text) where
  pub bumped_unmoved :
      (b : Backends) (tenant : Text) (s : Stores)
      → tenant ≢ other
      → Unmoved other s (bumped b tenant s)
  bumped_unmoved b tenant s ne = record {
    documents = refl;
    points = refl;
    version = bump_unmoved b.bump_answers tenant other s.versions ne;
  }

  pub logged_out-Untouched :
      (s : Server) (o : Bool × Revoked) → Untouched other s (logged_out s o).1
  logged_out-Untouched s (true, revoked) = record {
    users = refl;
    stores = unmoved_self other s.stores;
  }
  logged_out-Untouched s (false, revoked) = record {
    users = refl;
    stores = unmoved_self other s.stores;
  }

  pub listed-Untouched :
      (str : ℕ → Text) (b : Backends) (key : Text) (s : Server) (page : _) (o : _)
      → Untouched other s (listed str b key page o s).1
  listed-Untouched str b key s page none = record {
    users = refl;
    stores = unmoved_self other s.stores;
  }
  listed-Untouched str b key s page (some cached) = Untouched-self other s

  module _ (upsert : List Point → List Point → List Point)
      (delete : Filter → List Point → List Point) (qdrant : IsQdrant upsert delete) where
    purged-Untouched :
        {A : Type 0} (b : Backends) (tenant : Text) (a : A) (s : Server) (pool : Pool)
        (o : Bool × List Point)
        → tenant ≢ other
        → rows_of other pool ≡ rows_of other s.stores.pool
        → points_in other o.1 ≡ points_in other s.stores.points
        → Untouched other s (purged delete b tenant a s pool o).1
    purged-Untouched b tenant a s pool (true, points) ne h k = record {
      users = refl;
      stores = record {
        documents = h;
        points = k;
        version = bump_unmoved b.bump_answers tenant other s.stores.versions ne;
      };
    }
    purged-Untouched b tenant a s pool (false, points) ne h k = record {
      users = refl;
      stores = record { documents = h; points = k; version = refl };
    }

    pub unrecorded-Untouched :
        (b : Backends) (tenant : Text) (s : Server) (o : Option Text × Pool)
        → tenant ≢ other
        → rows_of other o.1 ≡ rows_of other s.stores.pool
        → Untouched other s (unrecorded delete b tenant s o).1
    unrecorded-Untouched b tenant s (none, pool) ne h = record {
      users = refl;
      stores = record { documents = h; points = refl; version = refl };
    }
    unrecorded-Untouched b tenant s (some [], pool) ne h = record {
      users = refl;
      stores = record { documents = h; points = refl; version = refl };
    }
    unrecorded-Untouched b tenant s (some (c ∷ name), pool) ne h =
        purged-Untouched b tenant (c ∷ name) s pool _ ne h (
          called_unmoved other b.deletion
            (delete_documents_from_qdrant delete tenant (some (c ∷ name)) none) s.stores.points
            (vectors_isolated delete tenant other (some (c ∷ name)) none s.stores.points
              qdrant.deletes ne).0)

    pub cleared-Untouched :
        (b : Backends) (tenant : Text) (s : Server) (o : ℕ × Pool)
        → tenant ≢ other
        → rows_of other o.1 ≡ rows_of other s.stores.pool
        → Untouched other s (cleared delete b tenant s o).1
    cleared-Untouched b tenant s (n, pool) ne h = purged-Untouched b tenant n s pool _ ne h (
        called_unmoved other b.deletion (delete_all_tenant_documents_from_qdrant delete tenant)
          s.stores.points
          (vectors_isolated delete tenant other none none s.stores.points qdrant.deletes ne).1)
