-- ===== src/Documents/Tenancy.antt =====
-- What the statements on `documents` do to other tenants, to the invariant, and on failure.
use native.Mathlib.Nat.{le_trans}
use enterprise_multi_tenant.Base.{
  ℕ, ◌≤◌, ◌≡◌, ◌≢◌, ◌⊎◌, ◌∙◌, ap, refl, Bool, not, List, [], ◌∷◌, ◌++◌, Option, none, some, filter,
  arith, inl, inr, append-nil, filter-filter_disjoint, filter-filter_of_imp, ◌↔◌,
}
use enterprise_multi_tenant.Base.Rows.{
  filter-append, filter-delete_other, count-filter-le, All-delete,
}
use enterprise_multi_tenant.Text.{Text, text_eq_iff}
use enterprise_multi_tenant.Documents.{
  Document, Table, Pool, Result, ok, err, is_file, of_tenant, first_filename, commit, is_target,
  new_row, check_quota, insert_document, replace_document, record_document, delete_tenant_document,
  delete_all_tenant_documents,
}
use enterprise_multi_tenant.Documents.Quota.{IsValid, insert_ok, rest_of, appended-IsValid}

-- A call that writes to the table.
pub data Write : Type 0 where
  record_doc : Document → Option ℕ → Option ℕ → Write
  delete_doc : Text → Text → Write
  delete_all : Text → Write

-- The tenant on whose behalf the call is made.
abbrev pub tenant_of : Write → Text
tenant_of (record_doc d m s) = d.tenant_id
tenant_of (delete_doc tenant doc_id) = tenant
tenant_of (delete_all tenant) = tenant

abbrev pub write : Write → Pool → Pool
write (record_doc d m s) p = (record_document d m s p).1
write (delete_doc tenant doc_id) p = (delete_tenant_document tenant doc_id p).1
write (delete_all tenant) p = (delete_all_tenant_documents tenant p).1

abbrev pub Outcome : Document → Table → Pool → Type 0
Outcome d rows after =
    (after ≡ some rows) ⊎ ((after ≡ some (rest_of d rows ++ new_row d ∷ [])) × (1 ≤ d.size_bytes))

commit-Outcome :
    (d : Document) (rows : Table) (r : Result Table)
    → insert_document d (rest_of d rows) ≡ r
    → Outcome d rows (commit rows r).1
commit-Outcome d rows (err e) h = inl refl
commit-Outcome d rows (ok rows') h =
    let (written, pos) = insert_ok d (rest_of d rows) rows' h in inr (ap some written, pos)

-- A call rolls back, or records its document.
pub record_document-cases :
    (d : Document) (m s : Option ℕ) (rows : Table)
    → Outcome d rows (record_document d m s (some rows)).1
unfolding record_document replace_document
record_document-cases d m s rows = go (check_quota d.tenant_id d.filename d.size_bytes m s rows)
  where
    go :
        (c : Result (Unit {0}))
        → Outcome d rows
            (elim c as (λ _. Result (Unit {0}) × Pool) [
              | err e ↦ (err e, some rows)
              | ok _ ↦ commit rows (insert_document d (rest_of d rows))
            ]).1
    go (err e) = inl refl
    go (ok u) = commit-Outcome d rows (insert_document d (rest_of d rows)) refl

-- The rows of one tenant.
abbrev pub rows_of : Text → Pool → List Document
rows_of tenant none = []
rows_of tenant (some rows) = filter (of_tenant tenant) rows

rows_of-record :
    (d : Document) (other : Text) (rows : Table) (after : Pool)
    → d.tenant_id ≢ other
    → Outcome d rows after
    → rows_of other after ≡ filter (of_tenant other) rows
rows_of-record d other rows after ne (inl same) = ap (rows_of other) same
rows_of-record d other rows after ne (inr (written, pos)) =
    ap (rows_of other) written
    ∙ filter-append (of_tenant other) (rest_of d rows) (new_row d ∷ [])
    ∙ ap (λ x. filter (of_tenant other) (rest_of d rows) ++ x) absent
    ∙ append-nil (filter (of_tenant other) (rest_of d rows))
    ∙ filter-delete_other (of_tenant other) (is_file d.tenant_id d.filename) rows
        (λ e h. ground (arith, text_eq_iff e.tenant_id other, text_eq_iff e.tenant_id d.tenant_id))
  where
    absent : filter (of_tenant other) (new_row d ∷ []) ≡ []
    absent = ground (arith, text_eq_iff d.tenant_id other)

-- No write on behalf of one tenant adds, removes or changes a row of another.
pub write_isolated :
    (w : Write) (other : Text) (p : Pool)
    → tenant_of w ≢ other
    → rows_of other (write w p) ≡ rows_of other p
unfolding delete_tenant_document delete_all_tenant_documents record_document
write_isolated (record_doc d m s) other none ne = refl
write_isolated (record_doc d m s) other (some rows) ne =
    rows_of-record d other rows (record_document d m s (some rows)).1 ne
      (record_document-cases d m s rows)
write_isolated (delete_doc tenant doc_id) other none ne = refl
write_isolated (delete_doc tenant doc_id) other (some rows) ne =
    filter-delete_other (of_tenant other) (is_target tenant doc_id) rows
      (λ e h. ground (arith, text_eq_iff e.tenant_id other, text_eq_iff e.tenant_id tenant))
write_isolated (delete_all tenant) other none ne = refl
write_isolated (delete_all tenant) other (some rows) ne =
    filter-delete_other (of_tenant other) (of_tenant tenant) rows
      (λ e h. ground (arith, text_eq_iff e.tenant_id other, text_eq_iff e.tenant_id tenant))

abbrev pub PoolIsValid : Pool → Type 0
PoolIsValid none = Unit
PoolIsValid (some rows) = IsValid rows

abbrev pub write_all : List Write → Pool → Pool
write_all [] p = p
write_all (w ∷ ws) p = write_all ws (write w p)

filter-IsValid : (q : Document → Bool) (rows : Table) → IsValid rows → IsValid (filter q rows)
filter-IsValid q rows v = record {
  one_row = λ tenant filename.
      le_trans (count-filter-le (is_file tenant filename) q rows) (v.one_row tenant filename);
  sizes = All-delete (λ d. 1 ≤ d.size_bytes) q rows v.sizes;
}

record-PoolIsValid :
    (d : Document) (rows : Table) (after : Pool)
    → IsValid rows
    → Outcome d rows after
    → PoolIsValid after
record-PoolIsValid d rows after v (inl same) = rw same v
record-PoolIsValid d rows after v (inr (written, pos)) = rw written (appended-IsValid d rows v pos)

write-PoolIsValid : (w : Write) (p : Pool) → PoolIsValid p → PoolIsValid (write w p)
unfolding delete_tenant_document delete_all_tenant_documents record_document
write-PoolIsValid (record_doc d m s) none v = tt
write-PoolIsValid (record_doc d m s) (some rows) v =
    record-PoolIsValid d rows (record_document d m s (some rows)).1 v
      (record_document-cases d m s rows)
write-PoolIsValid (delete_doc tenant doc_id) none v = tt
write-PoolIsValid (delete_doc tenant doc_id) (some rows) v =
    filter-IsValid (λ d. not (is_target tenant doc_id d)) rows v
write-PoolIsValid (delete_all tenant) none v = tt
write-PoolIsValid (delete_all tenant) (some rows) v =
    filter-IsValid (λ d. not (of_tenant tenant d)) rows v

-- Whatever writes are made, by any tenants and failing or not, no file of a tenant gets a second
-- row and no recorded size is zero.
pub write_all-PoolIsValid :
    (ws : List Write) (p : Pool) → PoolIsValid p → PoolIsValid (write_all ws p)
write_all-PoolIsValid [] p v = v
write_all-PoolIsValid (w ∷ ws) p v = write_all-PoolIsValid ws (write w p) (write-PoolIsValid w p v)

-- A deletion removes exactly the tenant's rows with that identifier or filename: none is left,
-- every other row of the table stays, and it reports a name just when there was such a row.
pub delete_document_exact :
    (tenant doc_id : Text) (rows : Table)
    → (rows' : Table) × ((delete_tenant_document tenant doc_id (some rows)).1 ≡ some rows')
      × (filter (is_target tenant doc_id) rows' ≡ [])
      × (filter (λ d. not (is_target tenant doc_id d)) rows'
          ≡ filter (λ d. not (is_target tenant doc_id d)) rows)
      × (((delete_tenant_document tenant doc_id (some rows)).0 ≡ none)
          ↔ (filter (is_target tenant doc_id) rows ≡ []))
unfolding delete_tenant_document
delete_document_exact tenant doc_id rows = (
  filter (λ d. not (is_target tenant doc_id d)) rows,
  refl,
  filter-filter_disjoint (λ d. not (is_target tenant doc_id d)) (is_target tenant doc_id) rows
      (λ d a b. ground arith),
  filter-filter_of_imp (λ d. not (is_target tenant doc_id d)) (λ d. not (is_target tenant doc_id d))
      rows (λ d a. a),
  named (filter (is_target tenant doc_id) rows),
)
  where
    named : (ds : List Document) → (first_filename ds ≡ none) ↔ (ds ≡ [])
    named [] = (λ _. refl, λ _. refl)
    named (d ∷ ds) = ground arith
