-- ===== src/Tests/VectorStore.antt =====
-- The vector store, with a search that gives every point that its filters let through.
use enterprise_multi_tenant.Base.{
  ℕ, ◌≡◌, ◌≢◌, Bool, true, not, ◌||◌, List, [], ◌∷◌, some, All, filter, arith,
}
use enterprise_multi_tenant.Text.{Text, text}
use enterprise_multi_tenant.VectorStore.{
  Point, Filter, Request, dense, hybrid, matches, search_tenant_knowledge,
}
use enterprise_multi_tenant.VectorStore.Access.{may_read, Filters, search_readable}

abbrev point : Text → Text → Text → Point
point tenant document role = record {
  tenant_id = tenant;
  doc_id = document;
  filename = text "a.pdf";
  body = text "b";
  allowed_roles = role ∷ [];
}

abbrev points : List Point
points =
    point (text "acme") (text "d1") (text "viewer")
    ∷ point (text "acme") (text "d2") (text "admin")
    ∷ point (text "beta") (text "d1") (text "viewer")
    ∷ []

abbrev query_points : Request ℕ ℕ → List Point → List Point
query_points (dense v f n) ps = filter (matches f) ps
query_points (hybrid v f n s g m k) ps = filter (λ p. matches f p || matches g p) ps

filter-All : (q : Point → Bool) (ps : List Point) → All (λ p. q p ≡ true) (filter q ps)
filter-All q [] = tt
filter-All q (p ∷ ps) = ground (arith, filter-All q ps)

query_points-Filters : Filters query_points
query_points-Filters = (
  λ v f n ps. filter-All (matches f) ps,
  λ v f n s g m k ps. filter-All (λ p. matches f p || matches g p) ps,
)

abbrev delete : Filter → List Point → List Point
delete f ps = filter (λ p. not (matches f p)) ps

search_readable_example :
    All
      (λ p. may_read (text "acme") (text "viewer") p ≡ true)
      (search_tenant_knowledge query_points 3 (text "acme") (text "viewer") (some 4) 5 points)
search_readable_example =
    search_readable query_points 3 (text "acme") (text "viewer") (some 4) 5 points
      query_points-Filters

acme_not_beta : text "acme" ≢ text "beta"
acme_not_beta = ground arith
