-- ===== src/Agent/Tenancy.antt =====
-- The graph over the document table: what the writes of other tenants can change in a run.
use enterprise_multi_tenant.Base.{
  ℕ, ◌≡◌, ◌≢◌, refl, ap, sym, ◌∙◌, Bool, List, [], ◌∷◌, map, filter, Option, none, some, All,
  filter-filter_of_imp,
}
use enterprise_multi_tenant.Base.Sorting.{sort_by}
use enterprise_multi_tenant.Text.{Text}
use enterprise_multi_tenant.Documents.{Table, Pool, of_tenant}
use enterprise_multi_tenant.Documents.Listing.{
  is_selected, list_tenant_documents, selected_of_tenant, newer_first, sql_order, distinct_on,
}
use enterprise_multi_tenant.Documents.Tenancy.{
  Write, tenant_of, write, write_all, rows_of, write_isolated,
}
use enterprise_multi_tenant.Agent.{AgentState, Settings, Services}
use enterprise_multi_tenant.Agent.Graph.{run}
use enterprise_multi_tenant.Agent.Isolation.{run_isolated}

-- `available_docs = [d["filename"] for d in doc_records] if doc_records else []`
abbrev pub available_documents : (Text → Text → Bool) → Pool → Text → Text → Option (List Text)
available_documents before p tenant role =
    some (map (λ d. d.filename) (list_tenant_documents before tenant (some role) p))

filter-selected :
    (tenant : Text) (role : Option Text) (rows : Table)
    → filter (is_selected tenant role) rows
      ≡ filter (is_selected tenant role) (filter (of_tenant tenant) rows)
filter-selected tenant role rows = sym (
    filter-filter_of_imp (of_tenant tenant) (is_selected tenant role) rows
      (λ d h. selected_of_tenant tenant role d h))

-- The listing of a tenant is made of the tenant's rows.
list-rows_of :
    (before : Text → Text → Bool) (tenant : Text) (role : Option Text) (p : Pool)
    → list_tenant_documents before tenant role p
      ≡ list_tenant_documents before tenant role (some (rows_of tenant p))
unfolding list_tenant_documents sort_by
list-rows_of before tenant role none = refl
list-rows_of before tenant role (some rows) =
    ap (λ ds. sort_by newer_first (distinct_on none (sort_by (sql_order before) ds)))
      (filter-selected tenant role rows)

write_all_isolated :
    (ws : List Write) (other : Text) (p : Pool)
    → All (λ w. tenant_of w ≢ other) ws
    → rows_of other (write_all ws p) ≡ rows_of other p
write_all_isolated [] other p h = refl
write_all_isolated (w ∷ ws) other p (ne, rest) =
    write_all_isolated ws other (write w p) rest ∙ write_isolated w other p ne

-- Whatever documents other tenants record and delete, a run of the graph over the document table
-- gives what it gave before, as long as the search answers the same.
pub run_unmoved :
    (before : Text → Text → Bool) (fuel : ℕ) (c : Settings) (v : Services) (s : AgentState)
    (ws : List Write) (p : Pool)
    → All (λ w. tenant_of w ≢ s.tenant_id) ws
    → run fuel c (record v { list_documents = available_documents before p }) s
      ≡ run fuel c (record v { list_documents = available_documents before (write_all ws p) }) s
run_unmoved before fuel c v s ws p h =
    run_isolated c (record v { list_documents = available_documents before p }) s.tenant_id
      s.user_role (available_documents before (write_all ws p)) v.search
      (ap (λ ds. some (map (λ d. d.filename) ds))
        (list-rows_of before s.tenant_id (some s.user_role) p
          ∙ ap (λ rows. list_tenant_documents before s.tenant_id (some s.user_role) (some rows))
              (sym (write_all_isolated ws s.tenant_id p h))
          ∙ sym (list-rows_of before s.tenant_id (some s.user_role) (write_all ws p))))
      (λ q n. refl) fuel s refl refl
