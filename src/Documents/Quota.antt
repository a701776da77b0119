-- ===== src/Documents/Quota.antt =====
-- The invariant of the table, and the quotas that `record_document` keeps.
use enterprise_multi_tenant.Base.{
  ℕ, ◌+◌, ◌-◌, ◌≤◌, ◌≡◌, refl, Bool, true, false, not, ◌&&◌, [], ◌∷◌, ◌++◌, Option, some, count,
  filter, any, ◌==◌, if◌then◌else◌, All, All-append, arith, inl, inr, Bool-cases,
}
use enterprise_multi_tenant.Base.Rows.{
  sum_of, max_of, count-append, sum_of-append, count-delete, sum_of-delete, count_mono,
  count-filter-le, sum_of-eq-max_of, max_of-eq-zero_iff, All-delete,
}
use mathlib.Core.Path.{subst, subst₂, fun_ext}
use native.Mathlib.Nat.{le_trans}
use enterprise_multi_tenant.Text.{Text, text_eq, text_eq_iff, text_eq_refl}
use enterprise_multi_tenant.Documents.{
  Document, new_row, Table, ok, is_active, is_file, size_of, check_quota, insert_document,
  replace_document, record_document,
}

-- No file of a tenant has two rows, no row is empty.
pub record IsValid (rows : Table) : Type 0 where
  pub one_row : (tenant filename : Text) → count (is_file tenant filename) rows ≤ 1
  pub sizes : All (λ d. 1 ≤ d.size_bytes) rows

abbrev pub of_file : Document → Document → Bool
of_file d = is_file d.tenant_id d.filename

-- The rows that the `DELETE` of `record_document` leaves.
abbrev pub rest_of : Document → Table → Table
rest_of d rows = filter (λ e. not (of_file d e)) rows

pub insert_ok :
    (d : Document) (rows rows' : Table)
    → insert_document d rows ≡ ok rows'
    → (rows' ≡ rows ++ new_row d ∷ []) × (1 ≤ d.size_bytes)
unfolding insert_document
insert_ok d rows rows' h = ground arith

-- A replaced row is gone: of its file nothing is left but the new row.
gone : (d : Document) (rows : Table) → count (of_file d) (rest_of d rows) ≡ 0
gone d [] = refl
gone d (e ∷ rows) = ground (arith, gone d rows)

gone_of :
    (d : Document) (tenant filename : Text) (rows : Table)
    → is_file tenant filename d ≡ true
    → count (is_file tenant filename) (rest_of d rows) ≡ 0
gone_of d tenant filename rows h =
    let t : d.tenant_id ≡ tenant = ground (arith, text_eq_iff d.tenant_id tenant) in
    let f : d.filename ≡ filename = ground (arith, text_eq_iff d.filename filename) in
    subst₂ (λ a b. count (is_file a b) (rest_of d rows) ≡ 0) t f (gone d rows)

only_row :
    (d : Document) (rows : Table)
    → count (is_file d.tenant_id d.filename) (rest_of d rows ++ new_row d ∷ []) ≡ 1
only_row d rows = ground (
  arith,
  count-append (of_file d) (rest_of d rows) (new_row d ∷ []),
  gone d rows,
  text_eq_refl d.tenant_id,
  text_eq_refl d.filename,
)

pub appended-IsValid :
    (d : Document) (rows : Table)
    → IsValid rows
    → 1 ≤ d.size_bytes
    → IsValid (rest_of d rows ++ new_row d ∷ [])
appended-IsValid d rows v pos = record {
  one_row = λ tenant filename. one tenant filename;
  sizes =
      All-append (λ e. 1 ≤ e.size_bytes) (rest_of d rows) (new_row d ∷ [])
        (All-delete (λ e. 1 ≤ e.size_bytes) (λ e. not (of_file d e)) rows v.sizes) (pos, tt);
}
  where
    one :
        (tenant filename : Text)
        → count (is_file tenant filename) (rest_of d rows ++ new_row d ∷ []) ≤ 1
    one tenant filename = elim (Bool-cases (is_file tenant filename d)) [
      | inl same ↦ ground (
        arith,
        count-append (is_file tenant filename) (rest_of d rows) (new_row d ∷ []),
        gone_of d tenant filename rows same,
      )
      | inr differs ↦ ground (
        arith,
        count-append (is_file tenant filename) (rest_of d rows) (new_row d ∷ []),
        count-filter-le (is_file tenant filename) (λ e. not (of_file d e)) rows,
        v.one_row tenant filename,
      )
    ]

abbrev active_file : Document → Document → Bool
active_file d e = is_active d.tenant_id e && of_file d e

-- The test of the source leaves out the tenant, which `is_active` compares already.
checked_file :
    (d : Document) → (λ e. is_active d.tenant_id e && text_eq e.filename d.filename) ≡ active_file d
checked_file d = fun_ext (λ e. ground arith)

-- What the quota check computes is what the table holds after the two statements.
usage_after :
    (d : Document) (rows : Table)
    → IsValid rows
    → let replaced = max_of size_of (active_file d) rows in
      let after = rest_of d rows ++ new_row d ∷ [] in
      (count (is_active d.tenant_id) after ≡ (
        if replaced == 0
        then count (is_active d.tenant_id) rows + 1
        else count (is_active d.tenant_id) rows))
      × (sum_of size_of (is_active d.tenant_id) after
          ≡ sum_of size_of (is_active d.tenant_id) rows - replaced + d.size_bytes)
usage_after d rows v =
    let a = is_active d.tenant_id in
    let single : count (active_file d) rows ≤ 1 =
      le_trans (count_mono (active_file d) (of_file d) rows (λ e h. ground arith))
        (v.one_row d.tenant_id d.filename) in
    let counted = count-delete a (of_file d) rows in
    let summed = sum_of-delete size_of a (of_file d) rows in
    let largest = sum_of-eq-max_of size_of (active_file d) rows single in
    let found = max_of-eq-zero_iff size_of (active_file d) rows v.sizes in
    (
      ground (
        arith,
        counted,
        single,
        found,
        count-append a (rest_of d rows) (new_row d ∷ []),
        text_eq_refl d.tenant_id,
      ),
      ground (
        arith,
        summed,
        largest,
        sum_of-append size_of a (rest_of d rows) (new_row d ∷ []),
        text_eq_refl d.tenant_id,
      ),
    )

check_ok :
    (d : Document) (max_documents max_storage : ℕ) (rows : Table)
    → check_quota d.tenant_id d.filename d.size_bytes (some max_documents) (some max_storage) rows
      ≡ ok tt
    → let replaced = max_of size_of (active_file d) rows in
      ((if replaced == 0
          then count (is_active d.tenant_id) rows + 1
          else count (is_active d.tenant_id) rows)
        ≤ max_documents)
      × (sum_of size_of (is_active d.tenant_id) rows - replaced + d.size_bytes ≤ max_storage)
unfolding check_quota
check_ok d max_documents max_storage rows h = subst Fits (checked_file d) (ground arith)
  where
    Fits : (Document → Bool) → Type 0
    Fits p =
        ((if max_of size_of p rows == 0
            then count (is_active d.tenant_id) rows + 1
            else count (is_active d.tenant_id) rows)
          ≤ max_documents)
        × (sum_of size_of (is_active d.tenant_id) rows - max_of size_of p rows + d.size_bytes
            ≤ max_storage)

pub record_ok :
    (d : Document) (max_documents max_storage : Option ℕ) (rows rows' : Table)
    → record_document d max_documents max_storage (some rows) ≡ (ok tt, some rows')
    → (check_quota d.tenant_id d.filename d.size_bytes max_documents max_storage rows ≡ ok tt)
      × (rows' ≡ rest_of d rows ++ new_row d ∷ [])
      × (1 ≤ d.size_bytes)
unfolding record_document replace_document insert_document
record_ok d max_documents max_storage rows rows' h = ground arith

-- Where recording a document succeeds under limits, the table stays valid, the tenant stays within
-- both limits, and the file has exactly the one new row.
pub record_document_quota :
    (d : Document) (max_documents max_storage : ℕ) (rows rows' : Table)
    → IsValid rows
    → record_document d (some max_documents) (some max_storage) (some rows) ≡ (ok tt, some rows')
    → IsValid rows'
      × (count (is_active d.tenant_id) rows' ≤ max_documents)
      × (sum_of size_of (is_active d.tenant_id) rows' ≤ max_storage)
      × (count (is_file d.tenant_id d.filename) rows' ≡ 1)
record_document_quota d max_documents max_storage rows rows' v h =
    let (checked, written, pos) =
      record_ok d (some max_documents) (some max_storage) rows rows' h in
    let fits = check_ok d max_documents max_storage rows checked in
    let usage = usage_after d rows v in
    rw written (
      appended-IsValid d rows v pos,
      omega (arith, fits.0, usage.0),
      omega (arith, fits.1, usage.1),
      only_row d rows,
    )

check_fits :
    (d : Document) (max_documents max_storage : ℕ) (rows : Table)
    → IsValid rows
    → count (is_active d.tenant_id) (rest_of d rows ++ new_row d ∷ []) ≤ max_documents
    → sum_of size_of (is_active d.tenant_id) (rest_of d rows ++ new_row d ∷ []) ≤ max_storage
    → check_quota d.tenant_id d.filename d.size_bytes (some max_documents) (some max_storage) rows
      ≡ ok tt
unfolding check_quota
check_fits d max_documents max_storage rows v counted stored =
    let usage = usage_after d rows v in rw (checked_file d) (ground (arith, usage))

-- Recording a document succeeds whenever the table that it would leave respects both limits, the
-- document is not empty and its identifier is new.
pub record_document_succeeds :
    (d : Document) (max_documents max_storage : ℕ) (rows : Table)
    → IsValid rows
    → 1 ≤ d.size_bytes
    → any (λ e. text_eq e.id d.id) (rest_of d rows) ≡ false
    → count (is_active d.tenant_id) (rest_of d rows ++ new_row d ∷ []) ≤ max_documents
    → sum_of size_of (is_active d.tenant_id) (rest_of d rows ++ new_row d ∷ []) ≤ max_storage
    → record_document d (some max_documents) (some max_storage) (some rows)
      ≡ (ok tt, some (rest_of d rows ++ new_row d ∷ []))
unfolding record_document replace_document insert_document
record_document_succeeds d max_documents max_storage rows v pos fresh counted stored =
    ground (arith, check_fits d max_documents max_storage rows v counted stored)
