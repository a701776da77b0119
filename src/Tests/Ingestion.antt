-- ===== src/Tests/Ingestion.antt =====
-- Uploads, run: Qdrant is a list to which points are added and from which a filter removes.
use enterprise_multi_tenant.Base.{
  any, ◌≡◌, ◌≢◌, ◌∙◌, refl, sym, true, false, not, List, [], ◌∷◌, ◌++◌, none, some, filter, length,
  arith, inl, inr,
}
use enterprise_multi_tenant.Base.Members.{In}
use enterprise_multi_tenant.Text.{
  Text, text, text_eq, split_on, join, lower_char, lstrip, rstrip, is_space,
}
use enterprise_multi_tenant.Dict.{get, put}
use enterprise_multi_tenant.Documents.{
  Document, Table, get_tenant_document_id, get_tenant_document_usage, record_document, check_quota,
  replace_document, insert_document,
}
use enterprise_multi_tenant.VectorStore.{
  Point, Filter, matches, delete_documents_from_qdrant, must_conditions,
}
use enterprise_multi_tenant.CacheVersion.{bump_tenant_cache_version}
use enterprise_multi_tenant.Ingestion.{
  returned, failed, runtime_error, Pipeline, Replies, applied, lost, refused, Upload, Stores,
  Summary, Prepared, prepare, roles_list, points_of, document_of, commit,
  process_document_ingestion,
}
use enterprise_multi_tenant.Ingestion.Synced.{Synced, Describes}
use enterprise_multi_tenant.Ingestion.Commit.{IsQdrant}
use enterprise_multi_tenant.Ingestion.Success.{process_document_ingestion-Synced}
use enterprise_multi_tenant.Ingestion.Rollback.{
  process_document_ingestion_undone, process_document_ingestion_lost,
}

abbrev pub add_points : List Point → List Point → List Point
add_points made points = points ++ made

abbrev pub remove_points : Filter → List Point → List Point
remove_points f points = filter (λ p. not (matches f p)) points

pub points-IsQdrant : IsQdrant add_points remove_points
points-IsQdrant = record { upserts = λ made points. refl; deletes = λ f points. refl }

-- Each file has one chunk, which is its name.
abbrev pub pipeline : Pipeline
pipeline = record {
  extract_text = λ content name. returned name;
  redact_pii = λ s. s;
  chunk_document = λ s name. returned (s ∷ []);
  embed = λ chunks. returned (length chunks);
  redact_document_pii = false;
  max_documents = 5;
  max_storage_bytes = 100;
}

abbrev pub answering : Replies
answering = record {
  usage = true;
  previous = true;
  upsert = applied;
  record_row = applied;
  cleanup = applied;
  obsolete = applied;
  bump = true;
}

abbrev pub upload : Upload
upload = record {
  content = 1 ∷ 2 ∷ [];
  filename = text "a";
  allowed_roles = text "viewer";
  tenant_id = text "t";
  user_id = text "u";
  doc_id = text "n";
  now = 7;
}

abbrev old : Document
old = record {
  id = text "o";
  tenant_id = text "t";
  filename = text "a";
  size_bytes = 1;
  chunks_count = 1;
  created_by = text "u";
  allowed_roles = text "viewer";
  created_at = 5;
  deleted_at = none;
}

abbrev point : Text → Point
point id = record {
  tenant_id = text "t";
  doc_id = id;
  filename = text "a";
  body = text "a";
  allowed_roles = text "viewer" ∷ [];
}

abbrev pub stores : Stores
stores = record { pool = some (old ∷ []); points = point (text "o") ∷ []; versions = [] }

old_described : Describes old (point (text "o"))
unfolding join
old_described = record { tenant = refl; document = refl; file = refl; roles = refl }

only_old : (d : Document) → In d (old ∷ []) → d ≡ old
only_old d (inl e) = e
only_old d (inr h) = absurd h

only_point : (p : Point) → In p (point (text "o") ∷ []) → p ≡ point (text "o")
only_point p (inl e) = e
only_point p (inr h) = absurd h

stores-Synced : Synced (old ∷ []) (point (text "o") ∷ [])
stores-Synced = record {
  active = λ d h. rw (only_old d h) refl;
  named = λ d h. rw (only_old d h) refl;
  one_id = λ d e h k _. only_old d h ∙ sym (only_old e k);
  one_file = λ d e h k _ _. only_old d h ∙ sym (only_old e k);
  owned = λ p h. (old, inl refl, rw (only_point p h) old_described);
  indexed = λ d h. (point (text "o"), inl refl, rw (only_old d h) old_described);
}

new_id : (p : Point) → In p stores.points → p.doc_id ≢ upload.doc_id
new_id p h e = ground (arith, only_point p h)

abbrev replaced : Stores
replaced = record {
  pool = some (record old { id = text "n"; size_bytes = 2; created_at = 7 } ∷ []);
  points = point (text "n") ∷ [];
  versions = (text "t", 1) ∷ [];
}

abbrev summary : Summary
summary = record { doc_id = text "n"; chunks_ingested = 1 }

upload_replaces :
    process_document_ingestion add_points remove_points pipeline answering upload stores
    ≡ (returned summary, replaced)
unfolding process_document_ingestion prepare commit points_of roles_list split_on join lower_char
    lstrip rstrip is_space text_eq get_tenant_document_id get_tenant_document_usage record_document
    check_quota replace_document insert_document delete_documents_from_qdrant must_conditions
    matches bump_tenant_cache_version get put
upload_replaces = refl

process_document_ingestion-Synced_example :
    (rows' : Table) × (replaced.pool ≡ some rows')
    × Synced rows' replaced.points
    × (get_tenant_document_id (text "t") (text "a") (some rows') ≡ some (text "n"))
    × (summary.doc_id ≡ text "n")
process_document_ingestion-Synced_example =
    process_document_ingestion-Synced add_points remove_points points-IsQdrant pipeline answering
      upload stores replaced summary (old ∷ []) refl stores-Synced (λ chunks n e. ground (arith, e))
      refl new_id upload_replaces

-- PostgreSQL refuses the record: the points that were added are removed again.
abbrev refusing : Replies
refusing = record answering { record_row = refused }

applied-ne-lost : applied ≢ lost
applied-ne-lost e = cc e

refused-ne-lost : refused ≢ lost
refused-ne-lost e = cc e

upload_refused :
    process_document_ingestion add_points remove_points pipeline refusing upload stores
    ≡ (failed runtime_error, stores)
unfolding process_document_ingestion prepare commit points_of roles_list split_on join lower_char
    lstrip rstrip is_space text_eq get_tenant_document_id get_tenant_document_usage
    delete_documents_from_qdrant must_conditions matches
upload_refused = refl

process_document_ingestion_undone_example : stores ≡ stores
process_document_ingestion_undone_example =
    process_document_ingestion_undone add_points remove_points points-IsQdrant pipeline refusing
      upload stores stores runtime_error refl new_id applied-ne-lost refused-ne-lost refl refl
      upload_refused

-- Qdrant takes the points and does not answer.
abbrev losing : Replies
losing = record answering { upsert = lost }

abbrev prepared : Prepared
prepared = record {
  chunks = text "a" ∷ [];
  pairs = 1;
  roles = text "viewer" ∷ [];
  previous = some (text "o");
}

upload-prepared : prepare pipeline losing upload stores ≡ returned prepared
unfolding prepare roles_list split_on lower_char lstrip rstrip is_space text_eq
    get_tenant_document_id get_tenant_document_usage
upload-prepared = refl

process_document_ingestion_lost_example :
    let run = process_document_ingestion add_points remove_points pipeline losing upload stores in
    (run.0 ≡ failed runtime_error)
    × (run.1.pool ≡ some (old ∷ []))
    × ((x : Point) × In x run.1.points
        × Describes (document_of upload prepared) x
        × (any (λ d. text_eq d.id x.doc_id) (old ∷ []) ≡ false))
    × ¬ (Synced (old ∷ []) run.1.points)
process_document_ingestion_lost_example =
    process_document_ingestion_lost add_points remove_points points-IsQdrant pipeline losing upload
      stores prepared (old ∷ []) refl stores-Synced (λ chunks n e. ground (arith, e)) new_id
      upload-prepared refl
