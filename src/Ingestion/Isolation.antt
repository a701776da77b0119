-- ===== src/Ingestion/Isolation.antt =====
-- What an ingestion for one tenant does to the stores of another.
use enterprise_multi_tenant.Base.{
  ℕ, ◌≡◌, ◌≢◌, ◌∙◌, refl, ap, Bool, true, false, List, [], ◌∷◌, ◌++◌, Option, none, some, filter,
  map, take, arith, append-nil,
}
use enterprise_multi_tenant.Base.Rows.{filter-append}
use enterprise_multi_tenant.Text.{Text, text_eq, text_eq_iff}
use enterprise_multi_tenant.Dict.{Dict, get, get-put}
use enterprise_multi_tenant.Documents.{Document, Pool, Result, record_document}
use enterprise_multi_tenant.Documents.Tenancy.{record_doc, write_isolated, rows_of}
use enterprise_multi_tenant.VectorStore.{Point, Filter, delete_documents_from_qdrant}
use enterprise_multi_tenant.VectorStore.Access.{vectors_isolated}
use enterprise_multi_tenant.CacheVersion.{bump_tenant_cache_version, incremented}
use enterprise_multi_tenant.Ingestion.{
  Attempt, returned, failed, Pipeline, Replies, Reply, applied, lost, refused, Upload, Stores,
  Prepared, Summary, prepare, points_of, document_of, answered_row, unanswered_row, row_written,
  called, deleted, remove_obsolete, after_obsolete, after_row, after_upsert, commit,
  process_document_ingestion,
}
use enterprise_multi_tenant.Ingestion.Commit.{IsQdrant}

abbrev pub points_in : Text → List Point → List Point
points_in tenant = filter (λ p. text_eq p.tenant_id tenant)

-- What two states of the stores hold for a tenant is the same: its documents, its points and the
-- version of its cached responses.
pub record Unmoved (tenant : Text) (s s' : Stores) : Type 0 where
  pub documents : rows_of tenant s'.pool ≡ rows_of tenant s.pool
  pub points : points_in tenant s'.points ≡ points_in tenant s.points
  pub version : get tenant s'.versions ≡ get tenant s.versions

pub bump_unmoved :
    (answers : Bool) (tenant other : Text) (versions : Dict ℕ)
    → tenant ≢ other
    → get other (bump_tenant_cache_version answers tenant versions).1 ≡ get other versions
unfolding bump_tenant_cache_version
bump_unmoved true tenant other versions ne =
    get-put other tenant (incremented (get tenant versions)) versions
    ∙ ground (arith, text_eq_iff tenant other)
bump_unmoved false tenant other versions ne = refl

pub called_unmoved :
    (other : Text) (reply : Reply) (f : List Point → List Point) (ps : List Point)
    → points_in other (f ps) ≡ points_in other ps
    → points_in other (called reply f ps).1 ≡ points_in other ps
called_unmoved other applied f ps h = h
called_unmoved other lost f ps h = h
called_unmoved other refused f ps h = refl

points_of_unmoved :
    (other : Text) (u : Upload) (q : Prepared)
    → u.tenant_id ≢ other
    → points_in other (points_of u q) ≡ []
unfolding points_of
points_of_unmoved other u q ne = go (take q.pairs q.chunks)
  where
    go :
        (chunks : List Text)
        → points_in other (
            map
              (λ chunk. record {
                tenant_id = u.tenant_id;
                doc_id = u.doc_id;
                filename = u.filename;
                body = chunk;
                allowed_roles = q.roles;
              })
              chunks)
          ≡ []
    go [] = refl
    go (c ∷ cs) = ground (arith, go cs, text_eq_iff u.tenant_id other)

answered_pool : (x : Result (Unit {0}) × Pool) → (answered_row x).1 ≡ x.1
answered_pool (r, pool) = refl

unanswered_pool : (x : Result (Unit {0}) × Pool) → (unanswered_row x).1 ≡ x.1
unanswered_pool (r, pool) = refl

row_written_unmoved :
    (other : Text) (reply : Reply) (p : Pipeline) (d : Document) (pool : Pool)
    → d.tenant_id ≢ other
    → rows_of other (row_written reply p d pool).1 ≡ rows_of other pool
row_written_unmoved other refused p d pool ne = refl
row_written_unmoved other applied p d pool ne =
    ap (rows_of other)
      (answered_pool (record_document d (some p.max_documents) (some p.max_storage_bytes) pool))
    ∙ write_isolated (record_doc d (some p.max_documents) (some p.max_storage_bytes)) other pool ne
row_written_unmoved other lost p d pool ne =
    ap (rows_of other)
      (unanswered_pool (record_document d (some p.max_documents) (some p.max_storage_bytes) pool))
    ∙ write_isolated (record_doc d (some p.max_documents) (some p.max_storage_bytes)) other pool ne

module _ (upsert : List Point → List Point → List Point) (delete : Filter → List Point → List Point)
    (qdrant : IsQdrant upsert delete) (other : Text) where
  deleted_unmoved :
      (reply : Reply) (tenant id : Text) (points : List Point)
      → tenant ≢ other
      → points_in other (deleted upsert delete reply tenant id points).1 ≡ points_in other points
  deleted_unmoved reply tenant id points ne =
      called_unmoved other reply (delete_documents_from_qdrant delete tenant none (some id)) points
        (vectors_isolated delete tenant other none (some id) points qdrant.deletes ne).0

  obsolete_unmoved :
      (reply : Reply) (tenant : Text) (previous : Option Text) (points : List Point)
      → tenant ≢ other
      → points_in other (remove_obsolete upsert delete reply tenant previous points).1
        ≡ points_in other points
  obsolete_unmoved reply tenant none points ne = refl
  obsolete_unmoved reply tenant (some []) points ne = refl
  obsolete_unmoved reply tenant (some (c ∷ id)) points ne =
      deleted_unmoved reply tenant (c ∷ id) points ne

  after_obsolete_unmoved :
      (r : Replies) (u : Upload) (q : Prepared) (s : Stores) (o : Bool × List Point)
      → u.tenant_id ≢ other
      → points_in other o.1 ≡ points_in other s.points
      → Unmoved other s (after_obsolete upsert delete r u q s o).1
  after_obsolete_unmoved r u q s (true, points) ne h = record {
    documents = refl;
    points = h;
    version = bump_unmoved r.bump u.tenant_id other s.versions ne;
  }
  after_obsolete_unmoved r u q s (false, points) ne h = record {
    documents = refl;
    points = h;
    version = refl;
  }

  after_row_unmoved :
      (r : Replies) (u : Upload) (q : Prepared) (s : Stores) (o : Attempt (Unit {0}) × Pool)
      → u.tenant_id ≢ other
      → rows_of other o.1 ≡ rows_of other s.pool
      → Unmoved other s (after_row upsert delete r u q s o).1
  after_row_unmoved r u q s (returned _, pool) ne h =
      let rest : Unmoved other (record s { pool = pool })
          (after_obsolete upsert delete r u q (record s { pool = pool })
            (remove_obsolete upsert delete r.obsolete u.tenant_id q.previous s.points)).1 =
        after_obsolete_unmoved r u q (record s { pool = pool })
          (remove_obsolete upsert delete r.obsolete u.tenant_id q.previous s.points) ne
          (obsolete_unmoved r.obsolete u.tenant_id q.previous s.points ne) in
      record { documents = rest.documents ∙ h; points = rest.points; version = rest.version }
  after_row_unmoved r u q s (failed e, pool) ne h = record {
    documents = h;
    points = deleted_unmoved r.cleanup u.tenant_id u.doc_id s.points ne;
    version = refl;
  }

  after_upsert_unmoved :
      (p : Pipeline) (r : Replies) (u : Upload) (q : Prepared) (s : Stores) (o : Bool × List Point)
      → u.tenant_id ≢ other
      → points_in other o.1 ≡ points_in other s.points
      → Unmoved other s (after_upsert upsert delete p r u q s o).1
  after_upsert_unmoved p r u q s (true, points) ne h =
      let rest : Unmoved other (record s { points = points })
          (after_row upsert delete r u q (record s { points = points })
            (row_written r.record_row p (document_of u q) s.pool)).1 =
        after_row_unmoved r u q (record s { points = points })
          (row_written r.record_row p (document_of u q) s.pool) ne
          (row_written_unmoved other r.record_row p (document_of u q) s.pool ne) in
      record { documents = rest.documents; points = rest.points ∙ h; version = rest.version }
  after_upsert_unmoved p r u q s (false, points) ne h = record {
    documents = refl;
    points = h;
    version = refl;
  }

  -- However the backends answer, an upload of one tenant leaves the documents, the points and the
  -- cache version of every other tenant as they were.
  pub ingestion_unmoved :
      (p : Pipeline) (r : Replies) (u : Upload) (s : Stores)
      → u.tenant_id ≢ other
      → Unmoved other s (process_document_ingestion upsert delete p r u s).1
  unfolding process_document_ingestion commit
  ingestion_unmoved p r u s ne =
      elim (prepare p r u s)
        as (λ o.
          Unmoved other s
            (elim o as (λ _. Attempt Summary × Stores) [
              | failed e ↦ (failed e, s)
              | returned q ↦ commit upsert delete p r u q s
            ]).1) [
              | failed e ↦ record { documents = refl; points = refl; version = refl }
              | returned q ↦
                  after_upsert_unmoved p r u q s (called r.upsert (upsert (points_of u q)) s.points)
                    ne
                    (called_unmoved other r.upsert (upsert (points_of u q)) s.points (
                      ap (points_in other) (qdrant.upserts (points_of u q) s.points)
                      ∙ filter-append (λ p. text_eq p.tenant_id other) s.points (points_of u q)
                      ∙ ap (λ x. points_in other s.points ++ x) (points_of_unmoved other u q ne)
                      ∙ append-nil (points_in other s.points)))
            ]
