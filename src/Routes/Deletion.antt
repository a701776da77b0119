-- ===== src/Routes/Deletion.antt =====
-- What the routes that delete documents have done when they answer.
use enterprise_multi_tenant.Base.{
  ℕ, ◌≡◌, ◌∙◌, ap, sym, Bool, true, false, not, ◌&&◌, List, [], ◌∷◌, Option, none, some,
  if◌then◌else◌,
}
use enterprise_multi_tenant.Text.{Text, text_eq, is_empty}
use enterprise_multi_tenant.Users.{TokenData}
use enterprise_multi_tenant.Documents.{Pool, delete_tenant_document, delete_all_tenant_documents}
use enterprise_multi_tenant.VectorStore.{
  Point, Filter, delete_documents_from_qdrant, delete_all_tenant_documents_from_qdrant,
}
use enterprise_multi_tenant.Ingestion.{Reply, applied, lost, refused, called}
use enterprise_multi_tenant.Routes.{Response, answer, http_exception, Server, Backends, is_admin}
use enterprise_multi_tenant.Routes
use enterprise_multi_tenant.Routes.Knowledge
use enterprise_multi_tenant.Routes.Knowledge.{
  purged, unrecorded, delete_document, clear_all_documents,
}

called_ok :
    (reply : Reply) (f : List Point → List Point) (ps points : List Point)
    → called reply f ps ≡ (true, points)
    → points ≡ f ps
called_ok applied f ps points h = ap (λ x. x.1) (sym h)
called_ok lost f ps points h = absurd (cc h)
called_ok refused f ps points h = absurd (cc h)

abbrev pub in_file : Text → Text → Point → Bool
in_file tenant file p = text_eq p.tenant_id tenant && text_eq p.filename file

module _ (delete : Filter → List Point → List Point) where
  purged_ok :
      {A : Type 0} (b : Backends) (tenant : Text) (a a' : A) (s s' : Server) (pool : Pool)
      (o : Bool × List Point)
      → purged delete b tenant a s pool o ≡ (answer a', s')
      → (answer a ≡ answer a') × (s'.stores.pool ≡ pool) × (o ≡ (true, s'.stores.points))
  purged_ok b tenant a a' s s' pool (true, points) h =
      (ap (λ x. x.0) h, ap (λ x. x.1.stores.pool) (sym h), ap (λ x. (true, x.1.stores.points)) h)
  purged_ok b tenant a a' s s' pool (false, points) h = absurd (cc h)

  unrecorded_ok :
      (b : Backends) (tenant name : Text) (s s' : Server) (o : Option Text × Pool)
      → unrecorded delete b tenant s o ≡ (answer name, s')
      → (o ≡ (some name, s'.stores.pool))
        × (s'.stores.points
            ≡ delete_documents_from_qdrant delete tenant (some name) none s.stores.points)
        × (is_empty name ≡ false)
  unrecorded_ok b tenant name s s' (none, pool) h = absurd (cc h)
  unrecorded_ok b tenant name s s' (some [], pool) h = absurd (cc h)
  unrecorded_ok b tenant name s s' (some (c ∷ cs), pool) h =
      let (same, pool_is, done) = purged_ok b tenant (c ∷ cs) name s s' pool _ h in
      let is_name : (c ∷ cs) ≡ name = ap (λ x. name_in x) same in
      (
        ap (λ x. (some x, pool)) is_name ∙ ap (λ x. (some name, x)) (sym pool_is),
        called_ok b.deletion (delete_documents_from_qdrant delete tenant (some (c ∷ cs)) none)
              s.stores.points s'.stores.points done
            ∙ ap (λ x. delete_documents_from_qdrant delete tenant (some x) none s.stores.points)
                is_name,
        ap is_empty (sym is_name),
      )
    where
      name_in : Response Text → Text
      name_in (answer x) = x
      name_in (http_exception e) = []

  pub delete_document_ok :
      (b : Backends) (doc_id name : Text) (u : TokenData) (s s' : Server)
      → delete_document delete b doc_id u s ≡ (answer name, s')
      → (delete_tenant_document u.tenant_id doc_id s.stores.pool ≡ (some name, s'.stores.pool))
        × (s'.stores.points
            ≡ delete_documents_from_qdrant delete u.tenant_id (some name) none s.stores.points)
        × (is_empty name ≡ false)
  unfolding delete_document
  delete_document_ok b doc_id name u s s' h = go (is_admin u) h
    where
      go :
          (c : Bool)
          → (if not c
              then (http_exception Routes.forbidden, s)
              else unrecorded delete b u.tenant_id s
                  (delete_tenant_document u.tenant_id doc_id s.stores.pool))
            ≡ (answer name, s')
          → (delete_tenant_document u.tenant_id doc_id s.stores.pool ≡ (some name, s'.stores.pool))
            × (s'.stores.points
                ≡ delete_documents_from_qdrant delete u.tenant_id (some name) none s.stores.points)
            × (is_empty name ≡ false)
      go true k =
          unrecorded_ok b u.tenant_id name s s'
            (delete_tenant_document u.tenant_id doc_id s.stores.pool) k
      go false k = absurd (cc k)

  cleared_ok :
      (b : Backends) (tenant : Text) (count : ℕ) (s s' : Server) (o : ℕ × Pool)
      → Knowledge.cleared delete b tenant s o ≡ (answer count, s')
      → (s'.stores.pool ≡ o.1)
        × (s'.stores.points ≡ delete_all_tenant_documents_from_qdrant delete tenant s.stores.points)
  cleared_ok b tenant count s s' (n, pool) h =
      let (_, pool_is, done) = purged_ok b tenant n count s s' pool _ h in
      (
        pool_is,
        called_ok b.deletion (delete_all_tenant_documents_from_qdrant delete tenant) s.stores.points
            s'.stores.points done,
      )

  pub clear_documents_ok :
      (b : Backends) (count : ℕ) (u : TokenData) (s s' : Server)
      → clear_all_documents delete b u s ≡ (answer count, s')
      → (s'.stores.pool ≡ (delete_all_tenant_documents u.tenant_id s.stores.pool).1)
        × (s'.stores.points
            ≡ delete_all_tenant_documents_from_qdrant delete u.tenant_id s.stores.points)
  unfolding clear_all_documents
  clear_documents_ok b count u s s' h = go (is_admin u) h
    where
      go :
          (c : Bool)
          → (if not c
              then (http_exception Routes.forbidden, s)
              else Knowledge.cleared delete b u.tenant_id s
                  (delete_all_tenant_documents u.tenant_id s.stores.pool))
            ≡ (answer count, s')
          → (s'.stores.pool ≡ (delete_all_tenant_documents u.tenant_id s.stores.pool).1)
            × (s'.stores.points
                ≡ delete_all_tenant_documents_from_qdrant delete u.tenant_id s.stores.points)
      go true k =
          cleared_ok b u.tenant_id count s s'
            (delete_all_tenant_documents u.tenant_id s.stores.pool) k
      go false k = absurd (cc k)
