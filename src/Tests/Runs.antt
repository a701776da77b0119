-- ===== src/Tests/Runs.antt =====
-- Uploads at once and through the queue, run.
use enterprise_multi_tenant.Base.{◌≡◌, refl, false, [], ◌∷◌, none, some, arith}
use enterprise_multi_tenant.Text.{
  text, text_eq, split_on, join, lower_char, lstrip, rstrip, is_space,
}
use enterprise_multi_tenant.Dict.{get, put}
use enterprise_multi_tenant.RateLimit
use enterprise_multi_tenant.RateLimit.{Redis, counted, is_rate_limit_exceeded}
use enterprise_multi_tenant.CacheVersion.{bump_tenant_cache_version}
use enterprise_multi_tenant.Ingestion.{
  returned, Stores, prepare, commit, points_of, roles_list, process_document_ingestion,
}
use enterprise_multi_tenant.Routes.{answer, Server}
use enterprise_multi_tenant.Base.Members.{In}
use enterprise_multi_tenant.Documents.{
  get_tenant_document_id, get_tenant_document_usage, record_document, check_quota, replace_document,
  insert_document,
}
use enterprise_multi_tenant.VectorStore.{
  Point, matches, must_conditions, delete_documents_from_qdrant,
}
use enterprise_multi_tenant.Ingestion.Catalog.{assigned}
use enterprise_multi_tenant.Routes.Refinement.{Holds}
use enterprise_multi_tenant.Routes.Runs.{IsNew, uploaded, here, next, catalog_refined}
use enterprise_multi_tenant.RateLimit.{enforce_rate_limit}
use enterprise_multi_tenant.IngestionQueue.{enqueue_ingestion_job}
use enterprise_multi_tenant.Routes.{limited}
use enterprise_multi_tenant.Routes.Knowledge.{UploadFile, no_length, upload_of}
use enterprise_multi_tenant.Routes.Tasks.{
  set_ingestion_task, ingest_document_async, processing_task, job_of, work,
}
use enterprise_multi_tenant.Routes.Tasks.Equivalence.{outcome, async_equals_sync}
use enterprise_multi_tenant.Tests.Ingestion.{
  upload, add_points, remove_points, points-IsQdrant, pipeline, answering, stores,
}
use enterprise_multi_tenant.Tests.Routes.{settings, at, user_of, server}

-- A first upload.
abbrev empty : Stores
empty = record { pool = some []; points = []; versions = [] }

abbrev with_document : Stores
with_document =
    (process_document_ingestion add_points remove_points pipeline answering upload empty).1

upload_first :
    process_document_ingestion add_points remove_points pipeline answering upload empty
    ≡ (returned (record { doc_id = text "n"; chunks_ingested = 1 }), with_document)
unfolding process_document_ingestion prepare commit points_of roles_list split_on join lower_char
    lstrip rstrip is_space text_eq get_tenant_document_id get_tenant_document_usage record_document
    check_quota replace_document insert_document delete_documents_from_qdrant must_conditions
    matches bump_tenant_cache_version get put
upload_first = refl

upload-IsNew : IsNew upload empty
upload-IsNew = record { given = refl; new = λ x i e. absurd i }

catalog_refined_example :
    Holds with_document (assigned (text "t") (text "a") (text "n") (λ t f. none))
    × ((x : Point)
        → In x with_document.points
        → assigned (text "t") (text "a") (text "n") (λ t f. none) x.tenant_id x.filename
          ≡ some x.doc_id)
catalog_refined_example =
    catalog_refined add_points remove_points pipeline points-IsQdrant
      (λ chunks n e. ground (arith, e)) (record server { stores = empty })
      (record server { stores = with_document })
      (assigned (text "t") (text "a") (text "n") (λ t f. none)) refl refl
      (next here (
        uploaded answering upload (record { doc_id = text "n"; chunks_ingested = 1 })
          (record server { stores = empty }) with_document upload-IsNew upload_first))

abbrev file : UploadFile
file = record {
  filename = some (text "a");
  content = 1 ∷ 2 ∷ [];
  header = no_length;
  allowed_roles = text "viewer";
  doc_id = text "n";
}

abbrev queued : Server
queued =
    (ingest_document_async settings (at 10) none (text "k") file (user_of (text "t") (text "admin"))
      server).1

accepts :
    ingest_document_async settings
      (at 10)
      none
      (text "k")
      file
      (user_of (text "t") (text "admin"))
      server
    ≡ (
      answer (processing_task (job_of (text "k") file (user_of (text "t") (text "admin")))),
      queued,
    )
unfolding ingest_document_async limited enforce_rate_limit RateLimit.is_rate_limit_exceeded counted
    RateLimit.incremented get put text_eq set_ingestion_task enqueue_ingestion_job
accepts = refl

async_equals_sync_example :
    let run =
      process_document_ingestion add_points remove_points pipeline answering
        (upload_of (user_of (text "t") (text "admin")) 20 file (1 ∷ 2 ∷ []))
        stores in
    let after = work add_points remove_points pipeline (λ j k. false) (at 20) (text "n") queued in
    (after.stores ≡ run.1)
    × (get (text "k") after.stored_tasks
        ≡ some (outcome (job_of (text "k") file (user_of (text "t") (text "admin"))) run.0))
async_equals_sync_example =
    async_equals_sync add_points remove_points pipeline settings (λ j k. false) (at 10) (at 20) none
      (text "k") file (user_of (text "t") (text "admin")) server queued
      (processing_task (job_of (text "k") file (user_of (text "t") (text "admin")))) accepts refl
      refl (λ e. cc e) refl refl refl
