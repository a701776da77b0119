-- ===== src/Documents.antt =====
-- app/database.py: the tracking records of documents. Each function runs its statements in one
-- transaction, so it is one step on the table; the table's constraints are those of
-- app/migrations/001_initial.sql. The advisory lock of `record_document` makes its quota check and
-- its write one step also among concurrent calls for one tenant.
pub mod Clearance
pub mod Listing
pub mod Quota
pub mod Tenancy
use enterprise_multi_tenant.Base.{
  ℕ, zero, suc, ◌+◌, ◌-◌, ◌≤◌, ◌≡◌, Bool, true, false, not, ◌&&◌, ◌||◌, List, [], ◌∷◌, ◌++◌, Option,
  none, some, length, count, filter, any, leb, ltb, ◌==◌, if◌then◌else◌, All, map,
}
use enterprise_multi_tenant.Base.Rows.{sum_of, max_of}
use enterprise_multi_tenant.Text.{Text, text, text_eq}

-- A row of `documents`.
pub record Document : Type 0 where
  pub id : Text
  pub tenant_id : Text
  pub filename : Text
  pub size_bytes : ℕ
  pub chunks_count : ℕ
  pub created_by : Text
  pub allowed_roles : Text
  pub created_at : ℕ
  pub deleted_at : Option ℕ

abbrev pub Table : Type 0
Table = List Document

-- `pool`: none before `init_pool` and after `close_pool`.
abbrev pub Pool : Type 0
Pool = Option Table

pub data Error : Type 0 where
  pool_not_initialized document_quota storage_quota constraint_violated : Error

pub data Result (A : Type 0) : Type 0 where
  ok : A → Result A
  err : Error → Result A

-- `tenant_id = %s AND deleted_at IS NULL`
abbrev pub is_active : Text → Document → Bool
is_active tenant d =
    text_eq d.tenant_id tenant && elim d.deleted_at [ none ↦ true | some _ ↦ false ]

-- `tenant_id = %s AND filename = %s`
abbrev pub is_file : Text → Text → Document → Bool
is_file tenant filename d = text_eq d.tenant_id tenant && text_eq d.filename filename

abbrev pub size_of : Document → ℕ
size_of d = d.size_bytes

-- Document count and stored bytes of a tenant.
unfoldable pub get_tenant_document_usage : Text → Pool → Result (ℕ × ℕ)
get_tenant_document_usage tenant none = err pool_not_initialized
get_tenant_document_usage tenant (some rows) =
    ok (count (is_active tenant) rows, sum_of size_of (is_active tenant) rows)

-- `ORDER BY created_at DESC LIMIT 1`: the first of the newest rows.
abbrev pub newer : Document → Option Document → Document
newer d none = d
newer d (some e) = if leb e.created_at d.created_at then d else e

abbrev pub newest : List Document → Option Document
newest [] = none
newest (d ∷ ds) = some (newer d (newest ds))

unfoldable pub get_tenant_document_id : Text → Text → Pool → Option Text
get_tenant_document_id tenant filename none = none
get_tenant_document_id tenant filename (some rows) =
    elim (newest (filter (λ d. is_active tenant d && is_file tenant filename d) rows)) [
      | none ↦ none
      | some d ↦ some d.id
    ]

abbrev exceeds : ℕ → Option ℕ → Bool
exceeds n none = false
exceeds n (some limit) = ltb limit n

-- The quota check of `record_document`, made only where a limit is given.
unfoldable pub check_quota : Text → Text → ℕ → Option ℕ → Option ℕ → Table → Result (Unit {0})
check_quota tenant filename size max_documents max_storage rows =
    let document_count = count (is_active tenant) rows in
    let storage_bytes = sum_of size_of (is_active tenant) rows in
    let replaced_size =
      max_of size_of (λ d. is_active tenant d && text_eq d.filename filename) rows in
    let resulting_count = if replaced_size == 0 then document_count + 1 else document_count in
    let resulting_storage = storage_bytes - replaced_size + size in
    if exceeds resulting_count max_documents
    then err document_quota
    else if exceeds resulting_storage max_storage
    then err storage_quota
    else ok tt

-- A column that an `INSERT` leaves out is null.
abbrev pub new_row : Document → Document
new_row d = record d { deleted_at = none }

-- `INSERT INTO documents`, under `PRIMARY KEY (id)` and `CHECK (size_bytes > 0)`.
unfoldable pub insert_document : Document → Table → Result Table
insert_document d rows =
    if any (λ e. text_eq e.id d.id) rows || d.size_bytes == 0
    then err constraint_violated
    else ok (rows ++ new_row d ∷ [])

-- The `DELETE` and the `INSERT` that follow the check.
unfoldable pub replace_document : Document → Table → Result Table
replace_document d rows =
    insert_document d (filter (λ e. not (is_file d.tenant_id d.filename e)) rows)

-- The pool after a transaction: a failure rolls everything back.
abbrev pub commit : Table → Result Table → Result (Unit {0}) × Pool
commit rows (ok rows') = (ok tt, some rows')
commit rows (err e) = (err e, some rows)

-- `record_document`: `d` holds the arguments, with the time of the transaction.
unfoldable pub record_document : Document → Option ℕ → Option ℕ → Pool → Result (Unit {0}) × Pool
record_document d max_documents max_storage none = (err pool_not_initialized, none)
record_document d max_documents max_storage (some rows) =
    elim (check_quota d.tenant_id d.filename d.size_bytes max_documents max_storage rows) [
      | err e ↦ (err e, some rows)
      | ok _ ↦ commit rows (replace_document d rows)
    ]

-- `(id::text = %s OR filename = %s) AND tenant_id = %s`
abbrev pub is_target : Text → Text → Document → Bool
is_target tenant doc_id d =
    (text_eq d.id doc_id || text_eq d.filename doc_id) && text_eq d.tenant_id tenant

abbrev pub first_filename : List Document → Option Text
first_filename [] = none
first_filename (d ∷ ds) = some d.filename

-- `delete_tenant_document`: `fetchone` returns the first of the rows that were deleted.
unfoldable pub delete_tenant_document : Text → Text → Pool → Option Text × Pool
delete_tenant_document tenant doc_id none = (none, none)
delete_tenant_document tenant doc_id (some rows) = (
  first_filename (filter (is_target tenant doc_id) rows),
  some (filter (λ d. not (is_target tenant doc_id d)) rows),
)

abbrev pub of_tenant : Text → Document → Bool
of_tenant tenant d = text_eq d.tenant_id tenant

unfoldable pub delete_all_tenant_documents : Text → Pool → ℕ × Pool
delete_all_tenant_documents tenant none = (0, none)
delete_all_tenant_documents tenant (some rows) =
    (length (filter (of_tenant tenant) rows), some (filter (λ d. not (of_tenant tenant d)) rows))
