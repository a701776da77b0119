-- ===== src/Tests/Documents.antt =====
-- The document records, run.
use enterprise_multi_tenant.Base.{
  ℕ, ◌≤◌, ◌≡◌, ◌≢◌, refl, false, ◌&&◌, ◌||◌, [], ◌∷◌, none, some, arith, count, any,
}
use enterprise_multi_tenant.Base.Rows.{sum_of}
use enterprise_multi_tenant.Text.{Text, text, text_eq, join}
use enterprise_multi_tenant.Role.{Role, same_role}
use enterprise_multi_tenant.Documents.{
  Document, Table, Pool, ok, is_active, is_file, size_of, record_document, check_quota,
  replace_document, insert_document,
}
use enterprise_multi_tenant.Documents.Quota.{IsValid, record_document_quota}
use enterprise_multi_tenant.Documents.Listing.{
  is_selected, list_tenant_documents, list_tenant_documents-count,
}
use enterprise_multi_tenant.Documents.Clearance.{clearance_exact}

abbrev document : Text → Text → Text → ℕ → Document
document id tenant filename size = record {
  id = id;
  tenant_id = tenant;
  filename = filename;
  size_bytes = size;
  chunks_count = 3;
  created_by = text "u";
  allowed_roles = text "admin,viewer";
  created_at = 7;
  deleted_at = none;
}

abbrev old : Document
old = document (text "d1") (text "acme") (text "a.pdf") 40

abbrev new : Document
new = document (text "d2") (text "acme") (text "a.pdf") 60

abbrev table : Table
table = old ∷ []

table-IsValid : IsValid table
table-IsValid = record { one_row = λ tenant filename. ground arith; sizes = (omega arith, tt) }

-- A quota of one document lets the one document be replaced.
replaced : record_document new (some 1) (some 60) (some table) ≡ (ok tt, some (new ∷ []))
unfolding record_document text_eq check_quota replace_document insert_document
replaced = refl

record_document_quota_example :
    IsValid (new ∷ [])
    × (count (is_active (text "acme")) (new ∷ []) ≤ 1)
    × (sum_of size_of (is_active (text "acme")) (new ∷ []) ≤ 60)
    × (count (is_file (text "acme") (text "a.pdf")) (new ∷ []) ≡ 1)
record_document_quota_example =
    record_document_quota new 1 60 table (new ∷ []) table-IsValid replaced

acme_not_beta : text "acme" ≢ text "beta"
acme_not_beta = ground arith

abbrev shared : Pool
shared = some (old ∷ document (text "d9") (text "beta") (text "a.pdf") 5 ∷ [])

list_tenant_documents-count_example :
    count
      (is_file (text "acme") (text "a.pdf"))
      (list_tenant_documents (λ x y. false) (text "acme") none (some table))
    ≡ count (λ d. is_selected (text "acme") none d && is_file (text "acme") (text "a.pdf") d) table
list_tenant_documents-count_example =
    list_tenant_documents-count (λ x y. false) (is_file (text "acme") (text "a.pdf")) (text "acme")
      none table table-IsValid

clearance_exact_example : is_selected (text "acme") (some (text "viewer")) old ≡ (
    is_active (text "acme") old
    && (same_role Role.viewer Role.admin
        || any (same_role Role.viewer) (Role.admin ∷ Role.viewer ∷ [])))
unfolding join
clearance_exact_example =
    clearance_exact (text "acme") Role.viewer (Role.admin ∷ Role.viewer ∷ []) old refl
