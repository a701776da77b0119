-- ===== src/Ingestion/Catalog.antt =====
-- The two stores as one catalog: for each tenant and file the current document, or none.
use mathlib.Core.Path.{subst}
use enterprise_multi_tenant.Base.{
  ◌≡◌, ◌∙◌, ap, sym, Bool, true, false, not, ◌&&◌, List, [], ◌∷◌, ◌++◌, Option, none, some, filter,
  arith, append-nil, filter-filter_disjoint, if◌then◌else◌,
}
use enterprise_multi_tenant.Base.Rows.{filter-append, filter-delete_other}
use enterprise_multi_tenant.Base.Members.{In, In-filter, filter-In}
use enterprise_multi_tenant.Text.{Text, text_eq, text_eq_iff}
use enterprise_multi_tenant.Documents.{
  Document, Table, is_active, is_file, newest, get_tenant_document_id,
}
use enterprise_multi_tenant.Documents.Quota.{of_file, rest_of}
use enterprise_multi_tenant.VectorStore.{Point}
use enterprise_multi_tenant.Ingestion.Synced.{Synced, Describes, previous_row}

-- What the knowledge base promises: a document for each file that has one.
abbrev pub Catalog : Type 0
Catalog = Text → Text → Option Text

abbrev pub assigned : Text → Text → Text → Catalog → Catalog
assigned tenant file id c t f = if text_eq t tenant && text_eq f file then some id else c t f

abbrev pub removed : Text → Text → Catalog → Catalog
removed tenant file c t f = if text_eq t tenant && text_eq f file then none else c t f

abbrev pub cleared : Text → Catalog → Catalog
cleared tenant c t f = if text_eq t tenant then none else c t f

pub record Implements (rows : Table) (points : List Point) (c : Catalog) : Type 0 where
  pub in_step : Synced rows points
  pub current : (t f : Text) → get_tenant_document_id t f (some rows) ≡ c t f

-- Every point belongs to the current document of its file, so a search finds no other version.
pub Implements-points :
    (rows : Table) (points : List Point) (c : Catalog) (p : Point)
    → Implements rows points c
    → In p points
    → c p.tenant_id p.filename ≡ some p.doc_id
Implements-points rows points c p i h =
    let (d, d_in, describes) = i.in_step.owned p h in
    sym (i.current p.tenant_id p.filename)
    ∙ subst (λ x. get_tenant_document_id x p.filename (some rows) ≡ some p.doc_id)
        (sym describes.tenant)
        (subst (λ x. get_tenant_document_id d.tenant_id x (some rows) ≡ some p.doc_id)
          (sym describes.file)
          (previous_row rows points i.in_step d d_in ∙ ap some (sym describes.document)))

-- What is read depends on the rows of the file alone.
read_rows :
    (t f : Text) (rows rows' : Table)
    → filter (λ d. is_active t d && is_file t f d) rows
      ≡ filter (λ d. is_active t d && is_file t f d) rows'
    → get_tenant_document_id t f (some rows) ≡ get_tenant_document_id t f (some rows')
unfolding get_tenant_document_id
read_rows t f rows rows' h =
    ap (λ ds. elim (newest ds) as (λ _. Option Text) [ none ↦ none | some d ↦ some d.id ]) h

read_nothing :
    (t f : Text) (rows : Table)
    → filter (λ d. is_active t d && is_file t f d) rows ≡ []
    → get_tenant_document_id t f (some rows) ≡ none
unfolding get_tenant_document_id
read_nothing t f rows h =
    ap (λ ds. elim (newest ds) as (λ _. Option Text) [ none ↦ none | some d ↦ some d.id ]) h

-- A recorded document changes no other file.
pub recorded_elsewhere :
    (n : Document) (rows : Table) (t f : Text)
    → (text_eq t n.tenant_id && text_eq f n.filename) ≡ false
    → get_tenant_document_id t f (some (rest_of n rows ++ n ∷ []))
      ≡ get_tenant_document_id t f (some rows)
recorded_elsewhere n rows t f h = read_rows t f (rest_of n rows ++ n ∷ []) rows (
    filter-append (λ d. is_active t d && is_file t f d) (rest_of n rows) (n ∷ [])
    ∙ ap (λ x. filter (λ d. is_active t d && is_file t f d) (rest_of n rows) ++ x)
        (ground (
          arith,
          text_eq_iff n.tenant_id t,
          text_eq_iff n.filename f,
          text_eq_iff t n.tenant_id,
          text_eq_iff f n.filename,
        ))
    ∙ append-nil (filter (λ d. is_active t d && is_file t f d) (rest_of n rows))
    ∙ filter-delete_other (λ d. is_active t d && is_file t f d) (of_file n) rows
        (λ e k. ground (
          arith,
          text_eq_iff e.tenant_id t,
          text_eq_iff e.filename f,
          text_eq_iff e.tenant_id n.tenant_id,
          text_eq_iff e.filename n.filename,
          text_eq_iff t n.tenant_id,
          text_eq_iff f n.filename,
        )))

module _ (keeps : Document → Bool) (stays : Point → Bool) (rows : Table) (points : List Point) where
  -- Rows and points that go together may be removed together.
  pub filter-Synced :
      ((d : Document) (p : Point) → In d rows → In p points → Describes d p → keeps d ≡ stays p)
      → Synced rows points
      → Synced (filter keeps rows) (filter stays points)
  filter-Synced together s = record {
    active = λ d h. s.active d (In-filter keeps d rows h).0;
    named = λ d h. s.named d (In-filter keeps d rows h).0;
    one_id = λ d e h k. s.one_id d e (In-filter keeps d rows h).0 (In-filter keeps e rows k).0;
    one_file = λ d e h k. s.one_file d e (In-filter keeps d rows h).0 (In-filter keeps e rows k).0;
    owned = λ p h.
        let (p_in, p_stays) = In-filter stays p points h in
        let (d, d_in, describes) = s.owned p p_in in
        (d, filter-In keeps d rows d_in (together d p d_in p_in describes ∙ p_stays), describes);
    indexed = λ d h.
        let (d_in, d_kept) = In-filter keeps d rows h in
        let (p, p_in, describes) = s.indexed d d_in in
        (
          p,
          filter-In stays p points p_in (sym (together d p d_in p_in describes) ∙ d_kept),
          describes,
        );
  }

-- Removed rows change no file that has none of them, and leave nothing of one that has only them.
pub kept_elsewhere :
    (goes : Document → Bool) (rows : Table) (t f : Text)
    → ((d : Document) → is_file t f d ≡ true → goes d ≡ false)
    → get_tenant_document_id t f (some (filter (λ d. not (goes d)) rows))
      ≡ get_tenant_document_id t f (some rows)
kept_elsewhere goes rows t f h = read_rows t f (filter (λ d. not (goes d)) rows) rows (
    filter-delete_other (λ d. is_active t d && is_file t f d) goes rows (λ e k. h e (ground arith)))

pub nothing_left :
    (goes : Document → Bool) (rows : Table) (t f : Text)
    → ((d : Document) → is_file t f d ≡ true → goes d ≡ true)
    → get_tenant_document_id t f (some (filter (λ d. not (goes d)) rows)) ≡ none
nothing_left goes rows t f h = read_nothing t f (filter (λ d. not (goes d)) rows) (
    filter-filter_disjoint (λ d. not (goes d)) (λ d. is_active t d && is_file t f d) rows
      (λ d a k. let gone : goes d ≡ true = h d (ground arith) in ground arith))
