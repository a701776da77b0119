-- ===== src/VectorStore/Access.antt =====
-- Which points a search gives and a deletion takes.
use enterprise_multi_tenant.Base.{
  ℕ, ◌*◌, ◌≡◌, ◌≢◌, ap, ◌∙◌, Bool, true, false, not, ◌&&◌, ◌||◌, List, [], ◌∷◌, Option, none, some,
  arith, any, filter, All,
}
use mathlib.Core.Path.{fun_ext}
use enterprise_multi_tenant.Base.Rows.{filter-delete_other}
use enterprise_multi_tenant.Text.{Text, text, text_eq, text_eq_iff, is_empty}
use enterprise_multi_tenant.VectorStore.{
  Point, Filter, Request, dense, hybrid, match_test, matches, role_match, rbac_filter,
  must_conditions, all_of, search_tenant_knowledge, delete_documents_from_qdrant,
  delete_all_tenant_documents_from_qdrant,
}

-- A point that the caller may read: it is the tenant's, and lists the role; the administrator reads
-- what lists any role.
abbrev pub reads : Text → Text → Bool
reads role r =
    text_eq r role
    || (text_eq role (text "admin") && (text_eq r (text "analyst") || text_eq r (text "viewer")))

abbrev pub may_read : Text → Text → Point → Bool
may_read tenant role p = text_eq p.tenant_id tenant && any (reads role) p.allowed_roles

-- Qdrant gives points under one of the request's filters only.
abbrev pub Filters :
    {Dense Sparse : Type 0} → (Request Dense Sparse → List Point → List Point) → Type 0
Filters query_points =
    ((v : _) (f : Filter) (n : ℕ) (ps : List Point)
      → All (λ p. matches f p ≡ true) (query_points (dense v f n) ps))
    × ((v : _) (f : Filter) (n : ℕ) (s : _) (g : Filter) (m k : ℕ) (ps : List Point)
        → All (λ p. (matches f p || matches g p) ≡ true) (query_points (hybrid v f n s g m k) ps))

any-weaken :
    (p q : Text → Bool) (rs : List Text)
    → ((r : Text) → p r ≡ true → q r ≡ true)
    → any p rs ≡ true
    → any q rs ≡ true
any-weaken p q [] h e = ground arith
any-weaken p q (r ∷ rs) h e = ground (arith, h r, any-weaken p q rs h)

match_test-reads : (role r : Text) → match_test (role_match role) r ≡ true → reads role r ≡ true
match_test-reads role r h =
    ground
      (arith, text_eq_iff role (text "admin"), text_eq_iff r (text "admin"), text_eq_iff r role)

matches-rbac_filter :
    (tenant role : Text) (p : Point)
    → matches (rbac_filter tenant role) p ≡ true
    → may_read tenant role p ≡ true
unfolding matches
matches-rbac_filter tenant role p h = ground (
  arith,
  any-weaken (match_test (role_match role)) (reads role) p.allowed_roles (match_test-reads role),
)

All-may_read :
    (f : Point → Bool) (tenant role : Text) (ps : List Point)
    → ((p : Point) → f p ≡ true → may_read tenant role p ≡ true)
    → All (λ p. f p ≡ true) ps
    → All (λ p. may_read tenant role p ≡ true) ps
All-may_read f tenant role [] h a = tt
All-may_read f tenant role (p ∷ ps) h (a, rest) = (h p a, All-may_read f tenant role ps h rest)

-- A search gives a caller only points of the caller's tenant that list the caller's role, or any of
-- the three roles for an administrator, in both forms of the request, while Qdrant keeps to the
-- filters of a request.
pub search_readable :
    {Dense Sparse : Type 0} (query_points : Request Dense Sparse → List Point → List Point)
    (v : Dense) (tenant role : Text) (sparse : Option Sparse) (limit : ℕ) (ps : List Point)
    → Filters query_points
    → All
        (λ p. may_read tenant role p ≡ true)
        (search_tenant_knowledge query_points v tenant role sparse limit ps)
unfolding search_tenant_knowledge
search_readable query_points v tenant role none limit ps (one_filter, two_filters) =
    All-may_read (matches (rbac_filter tenant role)) tenant role _ (matches-rbac_filter tenant role)
      (one_filter v (rbac_filter tenant role) limit ps)
search_readable query_points v tenant role (some sparse) limit ps (one_filter, two_filters) =
    All-may_read (λ p. matches (rbac_filter tenant role) p || matches (rbac_filter tenant role) p)
      tenant role _ (λ p h. matches-rbac_filter tenant role p (ground arith))
      (two_filters v (rbac_filter tenant role) (limit * 2) sparse (rbac_filter tenant role)
        (limit * 2) limit ps)

abbrev pub of_document : Text → Text → Point → Bool
of_document tenant document p = text_eq p.tenant_id tenant && text_eq p.doc_id document

-- A deletion of a document removes exactly the points of the tenant with that identifier, whatever
-- filename is given beside it, while Qdrant removes what its filter matches.
pub delete_points_exact :
    (delete : Filter → List Point → List Point) (tenant document : Text) (file : Option Text)
    (ps : List Point)
    → ((f : Filter) (qs : List Point) → delete f qs ≡ filter (λ p. not (matches f p)) qs)
    → is_empty document ≡ false
    → delete_documents_from_qdrant delete tenant file (some document) ps
      ≡ filter (λ p. not (of_document tenant document p)) ps
unfolding delete_documents_from_qdrant must_conditions matches
delete_points_exact delete tenant [] file ps deletes named = absurd (cc named)
delete_points_exact delete tenant (c ∷ document) file ps deletes named =
    deletes (must_conditions tenant file (some (c ∷ document))) ps
    ∙ ap (λ q. filter q ps) (fun_ext (λ p. ground arith))

-- No deletion of a tenant's points, of one document, one file or all, touches those of another.
pub vectors_isolated :
    (delete : Filter → List Point → List Point) (tenant other : Text) (file document : Option Text)
    (ps : List Point)
    → ((f : Filter) (qs : List Point) → delete f qs ≡ filter (λ p. not (matches f p)) qs)
    → tenant ≢ other
    → (filter
          (λ p. text_eq p.tenant_id other)
          (delete_documents_from_qdrant delete tenant file document ps)
        ≡ filter (λ p. text_eq p.tenant_id other) ps)
      × (filter
            (λ p. text_eq p.tenant_id other)
            (delete_all_tenant_documents_from_qdrant delete tenant ps)
          ≡ filter (λ p. text_eq p.tenant_id other) ps)
unfolding delete_documents_from_qdrant delete_all_tenant_documents_from_qdrant must_conditions
    matches
vectors_isolated delete tenant other file document ps deletes ne = (
  ap (filter (λ p. text_eq p.tenant_id other)) (deletes (must_conditions tenant file document) ps)
      ∙ filter-delete_other (λ p. text_eq p.tenant_id other)
          (matches (must_conditions tenant file document)) ps
          (λ p h. ground (arith, text_eq_iff p.tenant_id other, text_eq_iff p.tenant_id tenant)),
  ap (filter (λ p. text_eq p.tenant_id other)) (deletes (all_of tenant) ps)
      ∙ filter-delete_other (λ p. text_eq p.tenant_id other) (matches (all_of tenant)) ps
          (λ p h. ground (arith, text_eq_iff p.tenant_id other, text_eq_iff p.tenant_id tenant)),
)
