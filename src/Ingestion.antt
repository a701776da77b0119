-- ===== src/Ingestion.antt =====
-- `_process_document_ingestion` of app/api/routes.py: an upload is parsed and checked, its chunks go
-- to Qdrant, its record to PostgreSQL, and each step that fails is compensated or reported. The
-- parser, the redaction and the embedding models are arguments; so are Qdrant's two operations.
-- Which calls fail, and whether a call that fails has taken effect, is an argument as well. The
-- entry in the audit log is left out. Other requests do not run between the steps.
pub mod Synced
pub mod Replaced
pub mod Commit
pub mod Success
pub mod Rollback
pub mod Catalog
pub mod Isolation
use enterprise_multi_tenant.Base.{
  ℕ, ◌+◌, Bool, true, false, not, ◌&&◌, ◌||◌, List, [], ◌∷◌, ◌++◌, Option, none, some, map, filter,
  all, take, length, leb, ltb, if◌then◌else◌,
}
use enterprise_multi_tenant.Text.{Text, text, is_empty, is_one_of, strip, lower, split_on, join}
use enterprise_multi_tenant.Role.{is_role}
use enterprise_multi_tenant.Dict.{Dict}
use enterprise_multi_tenant.Documents.{
  Document, Pool, Error, Result, ok, err, document_quota, storage_quota, constraint_violated,
  pool_not_initialized, get_tenant_document_usage, get_tenant_document_id, record_document,
}
use enterprise_multi_tenant.VectorStore.{Point, Filter, delete_documents_from_qdrant}
use enterprise_multi_tenant.CacheVersion.{bump_tenant_cache_version}

-- The exceptions as the callers tell them apart.
pub data Failure : Type 0 where
  value_error runtime_error other_error : Failure

pub data Attempt (A : Type 0) : Type 0 where
  returned : A → Attempt A
  failed : Failure → Attempt A

infixl 5 ◌>>=◌ ◌>>◌
abbrev pub ◌>>=◌ : {A B : Type 0} → Attempt A → (A → Attempt B) → Attempt B
returned a >>= f = f a
failed e >>= f = failed e

abbrev pub ◌>>◌ : {B : Type 0} → Attempt (Unit {0}) → Attempt B → Attempt B
m >> k = m >>= λ _. k

abbrev raise_if : Bool → Failure → Attempt (Unit {0})
raise_if true e = failed e
raise_if false e = returned tt

abbrev pub Bytes : Type 0
Bytes = List ℕ

-- What the pipeline calls and the settings that it reads. `embed` gives how many pairs of vectors
-- the two models made.
pub record Pipeline : Type 0 where
  pub extract_text : Bytes → Text → Attempt Text
  pub redact_pii : Text → Text
  pub chunk_document : Text → Text → Attempt (List Text)
  pub embed : List Text → Attempt ℕ
  pub redact_document_pii : Bool
  pub max_documents : ℕ
  pub max_storage_bytes : ℕ

-- A call took effect and answered, took effect without an answer, or did neither.
pub data Reply : Type 0 where
  applied lost refused : Reply

-- How the backends answer during a run.
pub record Replies : Type 0 where
  pub usage : Bool
  pub previous : Bool
  pub upsert : Reply
  pub record_row : Reply
  pub cleanup : Reply
  pub obsolete : Reply
  pub bump : Bool

-- The arguments, with the identifier that the run draws and the time of its transaction.
pub record Upload : Type 0 where
  pub content : Bytes
  pub filename : Text
  pub allowed_roles : Text
  pub tenant_id : Text
  pub user_id : Text
  pub doc_id : Text
  pub now : ℕ

-- PostgreSQL's documents, the collection of Qdrant and the cache versions in Redis.
pub record Stores : Type 0 where
  pub pool : Pool
  pub points : List Point
  pub versions : Dict ℕ

-- `[role.strip().lower() for role in allowed_roles.split(",") if role.strip()]`
unfoldable pub roles_list : Text → List Text
roles_list allowed_roles =
    map (λ r. lower (strip r))
      (filter (λ r. not (is_empty (strip r))) (split_on b',' allowed_roles))

abbrev pub is_nil : {A : Type 0} → List A → Bool
is_nil [] = true
is_nil (x ∷ xs) = false

-- What is known before anything is written.
pub record Prepared : Type 0 where
  pub chunks : List Text
  pub pairs : ℕ
  pub roles : List Text
  pub previous : Option Text

abbrev answered : {A : Type 0} → Bool → A → Attempt A
answered true a = returned a
answered false a = failed other_error

-- A database error that is no quota's: the pool is missing, or PostgreSQL refuses.
abbrev failure_of : Error → Failure
failure_of pool_not_initialized = runtime_error
failure_of document_quota = value_error
failure_of storage_quota = value_error
failure_of constraint_violated = other_error

abbrev attempted : {A : Type 0} → Result A → Attempt A
attempted (ok a) = returned a
attempted (err e) = failed (failure_of e)

-- The steps up to the first write. The identifier of the new document is drawn, and the previous one
-- read, before the points are upserted.
unfoldable pub prepare : Pipeline → Replies → Upload → Stores → Attempt Prepared
unfolding get_tenant_document_usage
prepare p r u s = do
  raw_text ← p.extract_text u.content u.filename
  chunks ←
      p.chunk_document (if p.redact_document_pii then p.redact_pii raw_text else raw_text)
        u.filename
  raise_if (is_nil chunks) value_error
  used ← attempted (get_tenant_document_usage u.tenant_id s.pool)
  answered r.usage tt
  raise_if (leb p.max_documents used.0) value_error
  raise_if (ltb p.max_storage_bytes (used.1 + length u.content)) value_error
  pairs ← p.embed chunks
  raise_if (is_nil (roles_list u.allowed_roles) || not (all is_role (roles_list u.allowed_roles)))
      value_error
  previous ← answered r.previous (get_tenant_document_id u.tenant_id u.filename s.pool)
  returned (record {
    chunks = chunks;
    pairs = pairs;
    roles = roles_list u.allowed_roles;
    previous = previous;
  })

-- The points of an upload: one for each chunk that has its vectors.
unfoldable pub points_of : Upload → Prepared → List Point
points_of u q =
    map
      (λ chunk. record {
        tenant_id = u.tenant_id;
        doc_id = u.doc_id;
        filename = u.filename;
        body = chunk;
        allowed_roles = q.roles;
      })
      (take q.pairs q.chunks)

-- The arguments of `record_document`.
abbrev pub document_of : Upload → Prepared → Document
document_of u q = record {
  id = u.doc_id;
  tenant_id = u.tenant_id;
  filename = u.filename;
  size_bytes = length u.content;
  chunks_count = length q.chunks;
  created_by = u.user_id;
  allowed_roles = join (text ",") q.roles;
  created_at = u.now;
  deleted_at = none;
}

-- A call to Qdrant: whether it answered, and the collection after it.
abbrev pub called : Reply → (List Point → List Point) → List Point → Bool × List Point
called applied f ps = (true, f ps)
called lost f ps = (false, f ps)
called refused f ps = (false, ps)

-- The transaction's result as the caller sees it, with and without an answer to the commit.
abbrev pub answered_row : Result (Unit {0}) × Pool → Attempt (Unit {0}) × Pool
answered_row (result, pool) = (attempted result, pool)

abbrev pub unanswered_row : Result (Unit {0}) × Pool → Attempt (Unit {0}) × Pool
unanswered_row (result, pool) = (attempted result >> failed other_error, pool)

-- `record_document` over a connection that may fail before or after the commit.
abbrev pub row_written : Reply → Pipeline → Document → Pool → Attempt (Unit {0}) × Pool
row_written refused p d pool = (failed other_error, pool)
row_written applied p d pool =
    answered_row (record_document d (some p.max_documents) (some p.max_storage_bytes) pool)
row_written lost p d pool =
    unanswered_row (record_document d (some p.max_documents) (some p.max_storage_bytes) pool)

pub record Summary : Type 0 where
  pub doc_id : Text
  pub chunks_ingested : ℕ

module _ (upsert : List Point → List Point → List Point)
    (delete : Filter → List Point → List Point) where
  -- Every failure of `record_document` but a `ValueError` is reported as a `RuntimeError`.
  abbrev pub reported : Failure → Failure
  reported value_error = value_error
  reported runtime_error = runtime_error
  reported other_error = runtime_error

  abbrev pub deleted : Reply → Text → Text → List Point → Bool × List Point
  deleted reply tenant_id doc_id =
      called reply (delete_documents_from_qdrant delete tenant_id none (some doc_id))

  -- The cleanup of the previous version's points, if there is one.
  abbrev pub remove_obsolete : Reply → Text → Option Text → List Point → Bool × List Point
  remove_obsolete reply tenant_id none points = (true, points)
  remove_obsolete reply tenant_id (some []) points = (true, points)
  remove_obsolete reply tenant_id (some (c ∷ id)) points = deleted reply tenant_id (c ∷ id) points

  abbrev pub after_obsolete :
      Replies → Upload → Prepared → Stores → Bool × List Point → Attempt Summary × Stores
  after_obsolete r u q s (true, points) = (
    returned (record { doc_id = u.doc_id; chunks_ingested = length q.chunks }),
    record s {
      points = points;
      versions = (bump_tenant_cache_version r.bump u.tenant_id s.versions).1;
    },
  )
  after_obsolete r u q s (false, points) = (failed runtime_error, record s { points = points })

  -- If the record cannot be written, the points of the upload are removed again.
  abbrev pub after_row :
      Replies → Upload → Prepared → Stores → Attempt (Unit {0}) × Pool → Attempt Summary × Stores
  after_row r u q s (returned _, pool) =
      after_obsolete r u q (record s { pool = pool })
        (remove_obsolete r.obsolete u.tenant_id q.previous s.points)
  after_row r u q s (failed e, pool) = (
    failed (reported e),
    record s { pool = pool; points = (deleted r.cleanup u.tenant_id u.doc_id s.points).1 },
  )

  abbrev pub after_upsert :
      Pipeline → Replies → Upload → Prepared → Stores → Bool × List Point → Attempt Summary × Stores
  after_upsert p r u q s (true, points) =
      after_row r u q (record s { points = points })
        (row_written r.record_row p (document_of u q) s.pool)
  after_upsert p r u q s (false, points) = (failed runtime_error, record s { points = points })

  -- The steps from the first write on.
  unfoldable pub commit : Pipeline → Replies → Upload → Prepared → Stores → Attempt Summary × Stores
  commit p r u q s = after_upsert p r u q s (called r.upsert (upsert (points_of u q)) s.points)

  -- `_process_document_ingestion`
  unfoldable pub process_document_ingestion :
      Pipeline → Replies → Upload → Stores → Attempt Summary × Stores
  process_document_ingestion p r u s = elim (prepare p r u s) [
    | failed e ↦ (failed e, s)
    | returned q ↦ commit p r u q s
  ]
