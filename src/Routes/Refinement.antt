-- ===== src/Routes/Refinement.antt =====
-- The knowledge base against its catalog: what the requests that are answered do to the one is what
-- their specification does to the other.
use mathlib.Core.Path.{subst, fun_ext}
use mathlib.Core.Option.{some-injective, none-ne-some}
use enterprise_multi_tenant.Base.{
  ℕ, ◌≡◌, ◌≢◌, ◌∙◌, refl, ap, sym, true, false, not, ◌&&◌, List, [], ◌∷◌, ◌++◌, none, some, filter,
  length, arith, inl, inr, Bool-cases,
}
use enterprise_multi_tenant.Base.Members.{In, In-filter, append-In_right, filter-congr}
use enterprise_multi_tenant.Text.{Text, text_eq, text_eq_iff, is_empty}
use enterprise_multi_tenant.Users.{TokenData}
use enterprise_multi_tenant.Documents.{
  Document, Table, Pool, is_file, is_target, of_tenant, first_filename, get_tenant_document_id,
  delete_tenant_document, delete_all_tenant_documents,
}
use enterprise_multi_tenant.Documents.Quota.{rest_of}
use enterprise_multi_tenant.VectorStore.{
  Point, Filter, matches, must_conditions, all_of, delete_documents_from_qdrant,
  delete_all_tenant_documents_from_qdrant,
}
use enterprise_multi_tenant.Ingestion.{
  returned, Pipeline, Replies, Upload, Stores, Summary, document_of, process_document_ingestion,
}
use enterprise_multi_tenant.Ingestion.Commit.{IsQdrant}
use enterprise_multi_tenant.Ingestion.Synced.{Synced, previous_row}
use enterprise_multi_tenant.Ingestion.Success.{succeeded}
use enterprise_multi_tenant.Ingestion.Catalog.{
  Catalog, Implements, assigned, removed, cleared, recorded_elsewhere, filter-Synced,
  kept_elsewhere, nothing_left,
}
use enterprise_multi_tenant.Routes.{answer, Server, Backends}
use enterprise_multi_tenant.Routes.Knowledge.{delete_document, clear_all_documents}
use enterprise_multi_tenant.Routes.Deletion.{in_file, delete_document_ok, clear_documents_ok}

first_of :
    (ds : List Document) (name : Text)
    → first_filename ds ≡ some name
    → (d : Document) × In d ds × (d.filename ≡ name)
first_of [] name h = absurd (none-ne-some _ h)
first_of (d ∷ ds) name h = (d, inl refl, some-injective _ _ h)

-- The state of the stores is that of a catalog.
pub record Holds (s : Stores) (c : Catalog) : Type 0 where
  pub rows : Table
  pub pool : s.pool ≡ some rows
  pub implements : Implements rows s.points c

module _ (upsert : List Point → List Point → List Point) (delete : Filter → List Point → List Point)
    (qdrant : IsQdrant upsert delete) where
  pub upload_refines :
      (p : Pipeline) (r : Replies) (u : Upload) (s after : Stores) (m : Summary) (c : Catalog)
      → ((chunks : List Text) (n : ℕ) → p.embed chunks ≡ returned n → n ≡ length chunks)
      → is_empty u.doc_id ≡ false
      → ((x : Point) → In x s.points → x.doc_id ≢ u.doc_id)
      → process_document_ingestion upsert delete p r u s ≡ (returned m, after)
      → Holds s c
      → Holds after (assigned u.tenant_id u.filename u.doc_id c)
  upload_refines p r u s after m c embeds named new h held =
      let (q, pool_after, in_step, _) =
        succeeded upsert delete qdrant p r u s after m held.rows held.pool held.implements.in_step
          embeds named new h in
      let n : Document = document_of u q in
      let rows' : Table = rest_of n held.rows ++ n ∷ [] in
      record {
        rows = rows';
        pool = pool_after;
        implements = record {
          in_step = in_step;
          current = λ t f. elim (Bool-cases (text_eq t u.tenant_id && text_eq f u.filename)) [
            | inl same ↦
                let t_is : t ≡ u.tenant_id = (text_eq_iff t u.tenant_id).0 (ground arith) in
                let f_is : f ≡ u.filename = (text_eq_iff f u.filename).0 (ground arith) in
                ap (λ x. get_tenant_document_id x f (some rows')) t_is
                ∙ ap (λ x. get_tenant_document_id u.tenant_id x (some rows')) f_is
                ∙ previous_row rows' after.points in_step n
                    (append-In_right n (rest_of n held.rows) (n ∷ []) (inl refl))
                ∙ rw same refl
            | inr differs ↦
                recorded_elsewhere n held.rows t f differs
                ∙ held.implements.current t f
                ∙ rw differs refl
          ];
        };
      }

  delete_file_exact :
      (tenant name : Text) (points : List Point)
      → is_empty name ≡ false
      → delete_documents_from_qdrant delete tenant (some name) none points
        ≡ filter (λ p. not (in_file tenant name p)) points
  unfolding delete_documents_from_qdrant must_conditions matches
  delete_file_exact tenant [] points named = absurd (cc named)
  delete_file_exact tenant (c ∷ name) points named =
      qdrant.deletes (must_conditions tenant (some (c ∷ name)) none) points
      ∙ ap (λ q. filter q points) (fun_ext (λ p. ground arith))

  delete_tenant_exact :
      (tenant : Text) (points : List Point)
      → delete_all_tenant_documents_from_qdrant delete tenant points
        ≡ filter (λ p. not (text_eq p.tenant_id tenant)) points
  unfolding delete_all_tenant_documents_from_qdrant matches
  delete_tenant_exact tenant points =
      qdrant.deletes (all_of tenant) points
      ∙ ap (λ q. filter q points) (fun_ext (λ p. ground arith))

  -- The rows that a deletion matches, where they are of one file, are the rows of that file.
  targets-same :
      (tenant doc_id name : Text) (rows : Table) (points : List Point)
      → Synced rows points
      → ((d e : Document)
          → In d rows
          → In e rows
          → is_target tenant doc_id d ≡ true
          → is_target tenant doc_id e ≡ true
          → d.filename ≡ e.filename)
      → first_filename (filter (is_target tenant doc_id) rows) ≡ some name
      → (d : Document) → In d rows
      → is_target tenant doc_id d ≡ is_file tenant name d
  targets-same tenant doc_id name rows points s one h d i =
      let (e, e_found, e_name) = first_of (filter (is_target tenant doc_id) rows) name h in
      let (e_in, e_target) = In-filter (is_target tenant doc_id) e rows e_found in
      elim (Bool-cases (is_target tenant doc_id d)) [
        | inl target ↦
            let d_name : d.filename ≡ name = one d e i e_in target e_target ∙ e_name in
            ground (arith, text_eq_iff d.filename name)
        | inr not_target ↦ elim (Bool-cases (is_file tenant name d)) [
          | inl of_it ↦
              let t : d.tenant_id ≡ e.tenant_id =
                (text_eq_iff d.tenant_id tenant).0 (ground arith)
                ∙ sym ((text_eq_iff e.tenant_id tenant).0 (ground arith)) in
              let g : d.filename ≡ e.filename =
                (text_eq_iff d.filename name).0 (ground arith) ∙ sym e_name in
              let same : d ≡ e = s.one_file d e i e_in t g in
              absurd (ground (arith, ap (is_target tenant doc_id) same))
          | inr not_of_it ↦ not_target ∙ sym not_of_it
        ]
      ]

  deleted_rows :
      (tenant doc_id name : Text) (rows : Table) (pool : Pool)
      → delete_tenant_document tenant doc_id (some rows) ≡ (some name, pool)
      → (first_filename (filter (is_target tenant doc_id) rows) ≡ some name)
        × (pool ≡ some (filter (λ d. not (is_target tenant doc_id d)) rows))
  unfolding delete_tenant_document
  deleted_rows tenant doc_id name rows pool h = (ap (λ x. x.0) h, ap (λ x. x.1) (sym h))

  all_rows :
      (tenant : Text) (rows : Table)
      → (delete_all_tenant_documents tenant (some rows)).1
        ≡ some (filter (λ d. not (of_tenant tenant d)) rows)
  unfolding delete_all_tenant_documents
  all_rows tenant rows = refl

  pub delete_refines :
      (b : Backends) (doc_id name : Text) (u : TokenData) (s s' : Server) (c : Catalog)
      → (held : Holds s.stores c)
      → ((d e : Document)
          → In d held.rows
          → In e held.rows
          → is_target u.tenant_id doc_id d ≡ true
          → is_target u.tenant_id doc_id e ≡ true
          → d.filename ≡ e.filename)
      → delete_document delete b doc_id u s ≡ (answer name, s')
      → Holds s'.stores (removed u.tenant_id name c)
  delete_refines b doc_id name u s s' c held one h =
      let (row_gone, points_are, named) = delete_document_ok delete b doc_id name u s s' h in
      let (found, pool_after) =
        deleted_rows u.tenant_id doc_id name held.rows s'.stores.pool
          (ap (delete_tenant_document u.tenant_id doc_id) (sym held.pool) ∙ row_gone) in
      let same : (d : Document)
          → In d held.rows
          → is_target u.tenant_id doc_id d ≡ is_file u.tenant_id name d =
        targets-same u.tenant_id doc_id name held.rows s.stores.points held.implements.in_step one
          found in
      let kept : Table = filter (λ d. not (is_file u.tenant_id name d)) held.rows in
      record {
        rows = kept;
        pool =
            pool_after
            ∙ ap some (
                filter-congr (λ d. not (is_target u.tenant_id doc_id d))
                  (λ d. not (is_file u.tenant_id name d)) held.rows (λ d i. ap not (same d i)));
        implements = record {
          in_step =
              subst (Synced kept)
                (sym (points_are ∙ delete_file_exact u.tenant_id name s.stores.points named))
                (filter-Synced (λ d. not (is_file u.tenant_id name d))
                  (λ p. not (in_file u.tenant_id name p)) held.rows s.stores.points
                  (λ d p i j describes. ap not (rw (describes.tenant, describes.file) refl))
                  held.implements.in_step);
          current = λ t f. elim (Bool-cases (text_eq t u.tenant_id && text_eq f name)) [
            | inl of_it ↦
                nothing_left (is_file u.tenant_id name) held.rows t f (λ d k. ground (
                  arith,
                  text_eq_iff d.tenant_id t,
                  text_eq_iff d.filename f,
                  text_eq_iff t u.tenant_id,
                  text_eq_iff f name,
                  text_eq_iff d.tenant_id u.tenant_id,
                  text_eq_iff d.filename name,
                ))
                ∙ rw of_it refl
            | inr not_of_it ↦
                kept_elsewhere (is_file u.tenant_id name) held.rows t f (λ d k. ground (
                  arith,
                  text_eq_iff d.tenant_id t,
                  text_eq_iff d.filename f,
                  text_eq_iff t u.tenant_id,
                  text_eq_iff f name,
                  text_eq_iff d.tenant_id u.tenant_id,
                  text_eq_iff d.filename name,
                ))
                ∙ held.implements.current t f
                ∙ rw not_of_it refl
          ];
        };
      }

  pub clear_refines :
      (b : Backends) (count : ℕ) (u : TokenData) (s s' : Server) (c : Catalog)
      → Holds s.stores c
      → clear_all_documents delete b u s ≡ (answer count, s')
      → Holds s'.stores (cleared u.tenant_id c)
  clear_refines b count u s s' c held h =
      let (pool_after, points_are) = clear_documents_ok delete b count u s s' h in
      let kept : Table = filter (λ d. not (of_tenant u.tenant_id d)) held.rows in
      record {
        rows = kept;
        pool =
            pool_after
            ∙ ap (λ x. (delete_all_tenant_documents u.tenant_id x).1) held.pool
            ∙ all_rows u.tenant_id held.rows;
        implements = record {
          in_step =
              subst (Synced kept)
                (sym (points_are ∙ delete_tenant_exact u.tenant_id s.stores.points))
                (filter-Synced (λ d. not (of_tenant u.tenant_id d))
                  (λ p. not (text_eq p.tenant_id u.tenant_id)) held.rows s.stores.points
                  (λ d p i j describes. ap not (rw describes.tenant refl)) held.implements.in_step);
          current = λ t f. elim (Bool-cases (text_eq t u.tenant_id)) [
            | inl of_it ↦
                nothing_left (of_tenant u.tenant_id) held.rows t f (λ d k. ground (
                  arith,
                  text_eq_iff d.tenant_id t,
                  text_eq_iff t u.tenant_id,
                  text_eq_iff d.tenant_id u.tenant_id,
                ))
                ∙ rw of_it refl
            | inr not_of_it ↦
                kept_elsewhere (of_tenant u.tenant_id) held.rows t f (λ d k. ground (
                  arith,
                  text_eq_iff d.tenant_id t,
                  text_eq_iff t u.tenant_id,
                  text_eq_iff d.tenant_id u.tenant_id,
                ))
                ∙ held.implements.current t f
                ∙ rw not_of_it refl
          ];
        };
      }
