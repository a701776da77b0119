-- ===== src/Documents/Listing.antt =====
-- `list_tenant_documents` of app/database.py: which documents a role may see, and in what order.
-- `before` stands for the order of the database's collation on file names.
use enterprise_multi_tenant.Base.{
  ◌≤◌, ◌≡◌, refl, ap, ◌∙◌, Bool, true, false, not, ◌&&◌, ◌||◌, List, [], ◌∷◌, ◌++◌, Option, none,
  some, count, filter, any, leb, ◌==◌, if◌then◌else◌, arith,
}
use mathlib.Core.Option.{some-injective}
use enterprise_multi_tenant.Base.Rows.{count-filter, count_mono}
use enterprise_multi_tenant.Base.Sorting.{sort_by, count-sort_by}
use enterprise_multi_tenant.Text.{
  Text, text, text_eq, text_eq_iff, lower, strip, is_empty, split_on,
}
use enterprise_multi_tenant.Documents.{Document, Table, Pool, is_active, is_file}
use enterprise_multi_tenant.Documents.Quota.{IsValid}

-- Whether some tail of the text passes the test.
unfoldable pub some_tail : (Text → Bool) → Text → Bool
some_tail m [] = m []
some_tail m (c ∷ s) = m (c ∷ s) || some_tail m s

-- SQL's `LIKE`, with `%`, `_` and the escape `\`; a pattern that ends in an escape matches nothing.
unfoldable pub like : Text → Text → Bool
unfolding some_tail
like [] s = is_empty s
like (c ∷ []) s = elim s [
  | [] ↦ c == b'%'
  | d ∷ r ↦ c == b'%' || (is_empty r && (c == b'_' || (c == d && not (c == 92))))
]
like (c ∷ e ∷ p) s =
    let tail = like (e ∷ p) in
    let escaped = like p in
    if c == b'%' then some_tail tail s else elim s [
      | [] ↦ false
      | d ∷ r ↦ if c == 92 then e == d && escaped r else (c == b'_' || c == d) && tail r
    ]

-- `string_to_array(s, ',')`, which is empty for an empty text.
abbrev pub string_to_array : Text → List Text
string_to_array s = if is_empty s then [] else split_on b',' s

-- The condition on `allowed_roles` for a role that is not the administrator's.
unfoldable pub grants : Text → Text → Bool
unfolding like split_on
grants role allowed_roles =
    any (text_eq role) (string_to_array allowed_roles)
    || like (lower (text "%" ++ role ++ text "%")) (lower allowed_roles)

-- Which rows the query selects: all of the tenant's for no role or the administrator's.
unfoldable pub is_selected : Text → Option Text → Document → Bool
is_selected tenant none d = is_active tenant d
is_selected tenant (some role) d =
    is_active tenant d
    && (is_empty role
        || text_eq (lower role) (text "admin")
        || grants (lower (strip role)) d.allowed_roles)

abbrev pub newer_first : Document → Document → Bool
newer_first d e = leb e.created_at d.created_at

-- `DISTINCT ON (filename)` over sorted rows: the first of each run of one file name.
unfoldable pub distinct_on : Option Text → List Document → List Document
distinct_on previous [] = []
distinct_on previous (d ∷ ds) =
    let rest = distinct_on (some d.filename) ds in
    elim previous [ none ↦ d ∷ rest | some f ↦ if text_eq f d.filename then rest else d ∷ rest ]

module _ (before : Text → Text → Bool) where
  -- `ORDER BY filename, created_at DESC`
  abbrev pub sql_order : Document → Document → Bool
  sql_order d e =
      if text_eq d.filename e.filename then newer_first d e else before d.filename e.filename

  unfoldable pub list_tenant_documents : Text → Option Text → Pool → List Document
  unfolding distinct_on is_selected
  list_tenant_documents tenant role none = []
  list_tenant_documents tenant role (some rows) =
      sort_by newer_first
        (distinct_on none (sort_by sql_order (filter (is_selected tenant role) rows)))

abbrev named : Text → Document → Bool
named f d = text_eq d.filename f

-- Where no file name is repeated, nothing is left out.
distinct_on-eq_self :
    (ds : List Document) (previous : Option Text)
    → ((f : Text) → count (named f) ds ≤ 1)
    → ((f : Text) → previous ≡ some f → count (named f) ds ≡ 0)
    → distinct_on previous ds ≡ ds
unfolding distinct_on
distinct_on-eq_self [] previous h fresh = refl
distinct_on-eq_self (d ∷ ds) previous h fresh = keep previous fresh (
    distinct_on-eq_self ds (some d.filename) (λ f. ground (arith, h f))
      (λ f e. ground (arith, h f, text_eq_iff d.filename f, some-injective d.filename f e)))
  where
    keep :
        (previous : Option Text)
        → ((f : Text) → previous ≡ some f → count (named f) (d ∷ ds) ≡ 0)
        → distinct_on (some d.filename) ds ≡ ds
        → distinct_on previous (d ∷ ds) ≡ d ∷ ds
    keep none fresh rest = ap (λ x. d ∷ x) rest
    keep (some f) fresh rest =
        ground (arith, fresh f refl, rest, text_eq_iff f d.filename, text_eq_iff d.filename f)

pub selected_of_tenant :
    (tenant : Text) (role : Option Text) (d : Document)
    → is_selected tenant role d ≡ true
    → text_eq d.tenant_id tenant ≡ true
unfolding is_selected
selected_of_tenant tenant none d h = ground arith
selected_of_tenant tenant (some role) d h = ground arith

module _ (before : Text → Text → Bool) where
  -- For a valid table the list holds exactly the rows that the query selects, each once, whatever
  -- the collation: no test tells the two apart by counting.
  pub list_tenant_documents-count :
      (p : Document → Bool) (tenant : Text) (role : Option Text) (rows : Table)
      → IsValid rows
      → count p (list_tenant_documents before tenant role (some rows))
        ≡ count (λ d. is_selected tenant role d && p d) rows
  unfolding list_tenant_documents
  list_tenant_documents-count p tenant role rows v =
      count-sort_by p newer_first (distinct_on none sorted)
      ∙ ap (count p) (distinct_on-eq_self sorted none single (λ f e. absurd (cc e)))
      ∙ count-sort_by p (sql_order before) selected
      ∙ count-filter p (is_selected tenant role) rows
    where
      selected : List Document
      selected = filter (is_selected tenant role) rows

      sorted : List Document
      sorted = sort_by (sql_order before) selected

      single : (f : Text) → count (named f) sorted ≤ 1
      single f = omega (
        arith,
        count-sort_by (named f) (sql_order before) selected,
        count-filter (named f) (is_selected tenant role) rows,
        count_mono (λ d. is_selected tenant role d && named f d) (is_file tenant f) rows
            (λ d h. ground (arith, selected_of_tenant tenant role d)),
        v.one_row tenant f,
      )
