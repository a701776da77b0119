-- ===== src/Routes/Runs.antt =====
-- Runs of the service, as far as they concern the documents, next to runs of the catalog.
use mathlib.Core.Path.{subst}
use enterprise_multi_tenant.Base.{
  ℕ, ◌≡◌, ◌≢◌, ◌∙◌, refl, sym, true, false, List, [], none, some, length,
}
use enterprise_multi_tenant.Base.Members.{In}
use enterprise_multi_tenant.Text.{Text, is_empty}
use enterprise_multi_tenant.Users.{TokenData}
use enterprise_multi_tenant.Documents.{Document, Table, Pool, is_target, get_tenant_document_id}
use enterprise_multi_tenant.VectorStore.{Point, Filter}
use enterprise_multi_tenant.Ingestion.{
  returned, failed, Failure, Pipeline, Replies, Upload, Stores, Summary, process_document_ingestion,
  lost, applied,
}
use enterprise_multi_tenant.Ingestion.Commit.{IsQdrant}
use enterprise_multi_tenant.Ingestion.Synced.{nothing-Synced}
use enterprise_multi_tenant.Ingestion.Rollback.{process_document_ingestion_undone}
use enterprise_multi_tenant.Ingestion.Catalog
use enterprise_multi_tenant.Ingestion.Catalog.{
  Catalog, Implements, Implements-points, assigned, removed,
}
use enterprise_multi_tenant.Routes.{answer, Server, Backends}
use enterprise_multi_tenant.Routes.Knowledge.{delete_document, clear_all_documents}
use enterprise_multi_tenant.Routes.Refinement.{Holds, upload_refines, delete_refines, clear_refines}

-- The identifier that an upload draws is given and new.
pub record IsNew (u : Upload) (s : Stores) : Type 0 where
  pub given : is_empty u.doc_id ≡ false
  pub new : (x : Point) → In x s.points → x.doc_id ≢ u.doc_id

-- The name that a deletion is given stands for one file: no identifier is another file's name.
abbrev pub IsUnambiguous : Text → Text → Pool → Type 0
IsUnambiguous tenant doc_id pool =
    (rows : Table)
    → pool ≡ some rows
    → (d e : Document) → In d rows
    → In e rows
    → is_target tenant doc_id d ≡ true
    → is_target tenant doc_id e ≡ true
    → d.filename ≡ e.filename

module _ (upsert : List Point → List Point → List Point) (delete : Filter → List Point → List Point)
    (p : Pipeline) where
  -- A request, with what it means for the catalog: an upload that succeeds or is undone, a deletion
  -- that is answered, or a request that touches neither store.
  pub data Step : Server → Server → (Catalog → Catalog) → Type 0 where
    uploaded :
        (r : Replies) (u : Upload) (m : Summary) (s : Server) (after : Stores)
        → IsNew u s.stores
        → process_document_ingestion upsert delete p r u s.stores ≡ (returned m, after)
        → Step s (record s { stores = after }) (assigned u.tenant_id u.filename u.doc_id)
    undone :
        (r : Replies) (u : Upload) (e : Failure) (s : Server) (after : Stores)
        → IsNew u s.stores
        → r.upsert ≢ lost
        → r.record_row ≢ lost
        → r.cleanup ≡ applied
        → r.obsolete ≡ applied
        → process_document_ingestion upsert delete p r u s.stores ≡ (failed e, after)
        → Step s (record s { stores = after }) (λ c. c)
    deleted :
        (b : Backends) (doc_id name : Text) (u : TokenData) (s s' : Server)
        → IsUnambiguous u.tenant_id doc_id s.stores.pool
        → delete_document delete b doc_id u s ≡ (answer name, s')
        → Step s s' (removed u.tenant_id name)
    all_deleted :
        (b : Backends) (count : ℕ) (u : TokenData) (s s' : Server)
        → clear_all_documents delete b u s ≡ (answer count, s')
        → Step s s' (Catalog.cleared u.tenant_id)
    elsewhere :
        (s s' : Server)
        → s'.stores.pool ≡ s.stores.pool
        → s'.stores.points ≡ s.stores.points
        → Step s s' (λ c. c)

  -- The states that are reached, with the catalog that the specification reaches.
  pub data Reach (s : Server) (c : Catalog) : Server → Catalog → Type 0 where
    here : Reach s c s c
    next :
        {t t' : Server} {d : Catalog} {f : Catalog → Catalog}
        → Reach s c t d
        → Step t t' f
        → Reach s c t' (f d)

  module _ (qdrant : IsQdrant upsert delete)
      (embeds : (chunks : List Text) (n : ℕ)
        → p.embed chunks ≡ returned n
        → n ≡ length chunks) where
    Step-Holds :
        {s s' : Server} {f : Catalog → Catalog} (c : Catalog)
        → Step s s' f
        → Holds s.stores c
        → Holds s'.stores (f c)
    Step-Holds c (uploaded r u m s after n h) held =
        upload_refines upsert delete qdrant p r u s.stores after m c embeds n.given n.new h held
    Step-Holds c (undone r u e s after n up row cleanup obsolete h) held =
        subst (λ x. Holds x c)
          (sym (
            process_document_ingestion_undone upsert delete qdrant p r u s.stores after e n.given
              n.new up row cleanup obsolete h))
          held
    Step-Holds c (deleted b doc_id name u s s' one h) held =
        delete_refines upsert delete qdrant b doc_id name u s s' c held (one held.rows held.pool) h
    Step-Holds c (all_deleted b count u s s' h) held =
        clear_refines upsert delete qdrant b count u s s' c held h
    Step-Holds c (elsewhere s s' pool points) held = record {
      rows = held.rows;
      pool = pool ∙ held.pool;
      implements = subst (λ x. Implements held.rows x c) (sym points) held.implements;
    }

    Reach-Holds :
        {s : Server} {c : Catalog} {s' : Server} {c' : Catalog}
        → Holds s.stores c
        → Reach s c s' c'
        → Holds s'.stores c'
    Reach-Holds held here = held
    Reach-Holds held (next {d = d} r step) = Step-Holds d step (Reach-Holds held r)

    -- Where Qdrant adds and removes what it is asked to and both models give a vector for each chunk,
    -- any run from empty stores, with uploads of new identifiers that succeed or whose failures are
    -- undone (no call took effect without an answer, and the cleanups answer), deletions of everything
    -- and of one file that are answered, and requests of other kinds, leads to stores that are in step
    -- and of which the catalog that the specification computes is what is read for each file; and each
    -- point that can be searched belongs to the current document of its file. The name that a deletion
    -- of one file is given must be unambiguous: not the identifier of a document of the tenant and the
    -- name of another file of it, where the points of only one file would be removed.
    pub catalog_refined :
        (s s' : Server) (c' : Catalog)
        → s.stores.pool ≡ some []
        → s.stores.points ≡ []
        → Reach s (λ t f. none) s' c'
        → Holds s'.stores c'
          × ((x : Point) → In x s'.stores.points → c' x.tenant_id x.filename ≡ some x.doc_id)
    unfolding get_tenant_document_id
    catalog_refined s s' c' pool points run =
        let held : Holds s'.stores c' = Reach-Holds start run in
        (held, λ x i. Implements-points held.rows s'.stores.points c' x held.implements i)
      where
        empty : Implements [] s.stores.points (λ t f. none)
        empty =
            subst (λ x. Implements [] x (λ t f. none)) (sym points)
              (record { in_step = nothing-Synced; current = λ t f. refl })

        start : Holds s.stores (λ t f. none)
        start = record { rows = []; pool = pool; implements = empty }
